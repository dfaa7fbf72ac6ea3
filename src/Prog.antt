-- ===== src/Prog.antt =====
-- A C function of src/glue.c as a program on the world: statements in sequence, and `return r` or
-- `goto out` from anywhere in its body.
pub mod Rules
use node_ext2fs.Base.{ℕ, Bool, ℤ, pos, neg, is_zero, Option, none, some, ◌==◌, if◌then◌else◌}
use node_ext2fs.Ext2.Filsys.{World}
use node_ext2fs.Ext2.Library.{Call, Cmd}

-- Either the body goes on with a value, or the function has returned.
pub data Exit (A : Type 0) : Type 0 where
  next : A → Exit A
  ret : ℤ → Exit A

abbrev pub Prog : Type 0 → Type 0 → Type 0
Prog D A = World D → Exit A × World D

module _ {D : Type 0} where
  infixl 5 ◌>>=◌ ◌>>◌
  abbrev pub ◌>>=◌ : {A B : Type 0} → Prog D A → (A → Prog D B) → Prog D B
  ◌>>=◌ m f w = let (x, w') = m w in elim x [ next a ↦ f a w' | ret r ↦ (ret r, w') ]

  abbrev pub ◌>>◌ : {B : Type 0} → Prog D (Unit {0}) → Prog D B → Prog D B
  m >> k = m >>= λ _. k

  abbrev pub pure : {A : Type 0} → A → Prog D A
  pure a w = (next a, w)

  -- `return r;`
  abbrev pub exit : {A : Type 0} → ℤ → Prog D A
  exit r w = (ret r, w)

  -- `if (b) return r;`
  abbrev pub exit_if : Bool → ℤ → Prog D (Unit {0})
  exit_if b r w = (if b then ret r else next tt, w)

  -- `if (b) { m }`
  abbrev pub on : Bool → Prog D (Unit {0}) → Prog D (Unit {0})
  on b m w = if b then m w else (next tt, w)

  -- A call whose error code the code looks at itself.
  abbrev pub raw : {A : Type 0} → Call D A → Prog D (ℕ × A)
  raw m w = let (e, a, w') = m w in (next (e, a), w')

  abbrev pub run : {A : Type 0} → Cmd D A → Prog D A
  run m w = let (a, w') = m w in (next a, w')

  abbrev pub gets : {A : Type 0} → (World D → A) → Prog D A
  gets f w = (next (f w), w)

  abbrev pub modify : (World D → World D) → Prog D (Unit {0})
  modify f w = (next tt, f w)

  abbrev pub returning : {A : Type 0} → ℤ × World D → Exit A × World D
  returning (r, w) = (ret r, w)

  -- `if (p == NULL) return r;`
  abbrev pub or_exit : {A : Type 0} → Option A → ℤ → Prog D A
  or_exit none r w = (ret r, w)
  or_exit (some a) r w = (next a, w)

  -- `err = m; if (err) { return handler(err); }`
  abbrev pub call_or : {A : Type 0} → (ℕ → Cmd D ℤ) → Call D A → Prog D A
  call_or handler m w =
      let (e, a, w') = m w in if e == 0 then (next a, w') else returning (handler e w')

  -- `ret = m; if (ret) return -ret;`
  abbrev pub call_neg : {A : Type 0} → Call D A → Prog D A
  call_neg m = call_or (λ e w. (neg e, w)) m

  -- `ret = m; if (ret) return ret;`
  abbrev pub call_ret : {A : Type 0} → Call D A → Prog D A
  call_ret m = call_or (λ e w. (pos e, w)) m

  -- `ret = f(); if (ret) goto out;` for a function of the glue
  abbrev pub unless_zero : Cmd D ℤ → Prog D (Unit {0})
  unless_zero m w = let (r, w') = m w in (if is_zero r then next tt else ret r, w')

  -- The whole function: the last value is the returned one.
  abbrev pub finish : Exit ℤ × World D → ℤ × World D
  finish (next r, w) = (r, w)
  finish (ret r, w) = (r, w)

  abbrev pub function : Prog D ℤ → Cmd D ℤ
  function m w = finish (m w)
