-- ===== src/Js/Options/Access.antt =====
-- lib/fs.js, `stringToFlags`: what each letter of a flag asks for, and what src/glue.c then refuses.
use Prim.Native.String.{String}
use mathlib.Core.Option.{some_inj}
use mathlib.Core.Path.{subst}
use text.Mathlib.Text.{◌==◌ as ◌str_eq◌}
use text.Mathlib.TextEquality.{eq_iff}
use node_ext2fs.Base.{
  ℕ, Bool, true, false, some, not, List, [], ◌∷◌, ◌||◌, bit_or, ◌≡◌, refl, arith, neg,
  if◌then◌else◌,
}
use node_ext2fs.Ext2.Errors.{ebadf}
use node_ext2fs.Ext2.Filsys.{World}
use node_ext2fs.Ext2.Library.{Ext2fs}
use node_ext2fs.Ext2.Modes.{has, o_wronly, o_rdwr, o_creat, o_excl, o_trunc, o_append}
use node_ext2fs.Files.{node_ext2fs_read, node_ext2fs_write}
use node_ext2fs.Js.Options.{contains, str, find_flags, flag_cases, string_to_flags}

-- What the flags of a file allow and ask for, by the letters of the text that gives them.
abbrev pub Agrees : String → ℕ → Type 0
Agrees s flags =
    (has flags o_wronly ≡ not (contains b'r' s || contains b'+' s))
    × (has flags (bit_or o_wronly o_rdwr) ≡ (contains b'w' s || contains b'a' s || contains b'+' s))
    × (has flags o_creat ≡ not (contains b'r' s))
    × (has flags o_trunc ≡ contains b'w' s)
    × (has flags o_append ≡ contains b'a' s)
    × (has flags o_excl ≡ contains b'x' s)

abbrev AllAgree : List (String × ℕ) → Type 0
AllAgree [] = Unit
AllAgree ((name, flags) ∷ rows) = Agrees name flags × AllAgree rows

flag_cases-AllAgree : AllAgree flag_cases
flag_cases-AllAgree = ground arith

find_flags-Agrees :
    (s : String) (rows : List (String × ℕ)) (flags : ℕ)
    → AllAgree rows
    → find_flags s rows ≡ some flags
    → Agrees s flags
find_flags-Agrees s [] flags all h = absurd (cc)
find_flags-Agrees s ((name, f) ∷ rows) flags (this, all) h =
    by_test (name str_eq s) refl h (find_flags-Agrees s rows flags all)
  where
    by_test :
        (b : Bool)
        → (name str_eq s) ≡ b
        → (if b then some f else find_flags s rows) ≡ some flags
        → (find_flags s rows ≡ some flags → Agrees s flags)
        → Agrees s flags
    by_test true e g later =
        subst (λ t. Agrees t flags) ((eq_iff name s).0 e) (subst (Agrees name) (some_inj.0 g) this)
    by_test false e g later = later g

module _ {D : Type 0} (lib : Ext2fs D) where
  -- The flags that `open` makes of a text ask to create the file if the text has no `r`, to empty it
  -- if it has a `w`, to write at its end if it has an `a`, and to refuse a file that exists if it has
  -- an `x`. A file open with them can be read only if the text has `r` or `+`, and written only if it
  -- has `w`, `a` or `+`: other reads and writes return `-EBADF` and do nothing.
  pub string_to_flags-guards :
      (s : String) (flags : ℕ)
      → string_to_flags (some (str s)) ≡ some flags
      → Agrees s flags
        × ((file buffer length position : ℕ) (w : World D)
            → ((contains b'r' s || contains b'+' s) ≡ false
                → node_ext2fs_read lib file flags buffer length position w ≡ (neg ebadf, w))
              × ((contains b'w' s || contains b'a' s || contains b'+' s) ≡ false
                  → node_ext2fs_write lib file flags buffer length position w ≡ (neg ebadf, w)))
  unfolding string_to_flags node_ext2fs_read node_ext2fs_write
  string_to_flags-guards s flags h =
      let agrees = find_flags-Agrees s flag_cases flags flag_cases-AllAgree h in
      (
        agrees,
        λ file buffer length position w. (λ e. rw (agrees.0, e) refl, λ e. rw (agrees.1, e) refl),
      )
