-- ===== src/Js/Files/Closed.antt =====
-- lib/fs.js, `writeFile`: it comes to an end, and closes what it has opened.
use node_ext2fs.Base.{ℕ, Option, none, some, ◌≢◌, ◌⊎◌, ◌≡◌}
use node_ext2fs.Ext2.Library.{Ext2fs}
use node_ext2fs.Js.Files.{Platform, Client, Outcome, value, failed}
use node_ext2fs.Js.Options.{Options}

module _ {D : Type 0} (lib : Ext2fs D) (node : Platform D) where
  -- What closing a descriptor leaves open, where it succeeds.
  abbrev CloseEnds : Client D → ℕ → Outcome (Unit {0}) × Client D → Type 0
  CloseEnds before fd (failed f, c) = Unit
  CloseEnds before fd (value _, c) =
      (f : ℕ) → (c.open_files f ≡ none) ⊎ ((f ≢ fd) × (c.open_files f ≡ before.open_files f))

  -- What `writeFile` gives: an exception, or every descriptor is closed or open as it was before.
  abbrev pub Ends : Client D → Option (Outcome (Unit {0})) × Client D → Type 0
  Ends before (none, c) = ⊥
  Ends before (some (failed f), c) = Unit
  Ends before (some (value _), c) =
      (f : ℕ) → (c.open_files f ≡ none) ⊎ (c.open_files f ≡ before.open_files f)

  -- What a block leaves behind that has come to its end with the descriptor `fd` open.
  abbrev OpenBut : Client D → ℕ → Client D → Type 0
  OpenBut before fd c = (f : ℕ) → f ≢ fd → c.open_files f ≡ before.open_files f

  abbrev OpensOne : Client D → Outcome ℕ × Client D → Type 0
  OpensOne before (failed f, c) = Unit
  OpensOne before (value fd, c) = OpenBut before fd c
