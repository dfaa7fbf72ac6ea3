-- ===== src/Prog/Rules.antt =====
-- What holds at the end of the body of a C function, by rules for its statements: where the function
-- returns earlier, it does not return 0, and then nothing is claimed.
use node_ext2fs.Base.{
  ℕ, zero, suc, ℤ, pos, negsuc, neg, is_neg, is_neg-neg, ◌⊎◌, inl, inr, is_zero, Bool, true, false,
  Option, none, some, ◌≡◌, ◌≢◌, refl, arith, ◌==◌, if◌then◌else◌, eq_of_==,
}
use node_ext2fs.Ext2.Filsys.{Ino, World}
use node_ext2fs.Ext2.Library.{Ext2fs, Call, Cmd}
use node_ext2fs.Prog.{
  Exit, next, ret, Prog, ◌>>=◌, ◌>>◌, on, exit_if, or_exit, call_or, returning, unless_zero, finish,
}
use node_ext2fs.Translate.{translate_error, call_translate}
use node_ext2fs.Translate.Codes.{ErrnoLaws, translate_error-ne_zero}

-- The result of a call is an error.
abbrev pub IsError : ℤ → Type 0
IsError r = is_neg r ≡ true

pub neg-IsError : (e : ℕ) → e ≢ 0 → IsError (neg e)
neg-IsError e h = is_neg-neg e (omega (arith, h))

module _ {D : Type 0} where
  -- If the body goes on, `Q` holds of its value and of the world; if it returns, `L` of the result.
  abbrev pub PostOr :
      (ℤ → Type 0) → {A : Type 0} → (A → World D → Type 0) → Exit A × World D → Type 0
  PostOr L Q (next a, w) = Q a w
  PostOr L Q (ret r, w) = L r

  -- If the body returns, then not 0.
  abbrev pub Post : {A : Type 0} → (A → World D → Type 0) → Exit A × World D → Type 0
  Post = PostOr λ r. r ≢ pos 0

  -- `m >>= k`, where `x` is what `m` has done.
  pub PostOr-bind :
      (L : ℤ → Type 0) {A B : Type 0} (R : A → World D → Type 0) (Q : B → World D → Type 0)
      (x : Exit A × World D) (k : A → Prog D B)
      → PostOr L R x
      → ((a : A) (w : World D) → R a w → PostOr L Q (k a w))
      → PostOr L Q (((λ _. x) >>= k) x.1)
  PostOr-bind L R Q (next a, w) k h rest = rest a w h
  PostOr-bind L R Q (ret r, w) k h rest = h

  pub Post-bind :
      {A B : Type 0} (R : A → World D → Type 0) (Q : B → World D → Type 0) (x : Exit A × World D)
      (k : A → Prog D B)
      → Post R x
      → ((a : A) (w : World D) → R a w → Post Q (k a w))
      → Post Q (((λ _. x) >>= k) x.1)
  Post-bind = PostOr-bind λ r. r ≢ pos 0

  pub Post-weaken :
      {A : Type 0} (R Q : A → World D → Type 0) (x : Exit A × World D)
      → Post R x
      → ((a : A) (w : World D) → R a w → Q a w)
      → Post Q x
  Post-weaken R Q (next a, w) h f = f a w h
  Post-weaken R Q (ret r, w) h f = h

  pub PostOr-on :
      (L : ℤ → Type 0) (Q : Unit {0} → World D → Type 0) (b : Bool) (m : Prog D (Unit {0}))
      (w : World D)
      → (b ≡ true → PostOr L Q (m w))
      → (b ≡ false → Q tt w)
      → PostOr L Q (on b m w)
  PostOr-on L Q true m w p q = p refl
  PostOr-on L Q false m w p q = q refl

  pub Post-on :
      (Q : Unit {0} → World D → Type 0) (b : Bool) (m : Prog D (Unit {0})) (w : World D)
      → (b ≡ true → Post Q (m w))
      → (b ≡ false → Q tt w)
      → Post Q (on b m w)
  Post-on = PostOr-on λ r. r ≢ pos 0

  -- `m >> k`, where a call of another function of the glue goes on if it returns 0.
  pub Post-unless_zero :
      {B : Type 0} (Q : B → World D → Type 0) (m : Cmd D ℤ) (k : Prog D B) (w : World D)
      → ((m w).0 ≡ pos 0 → Post Q (k (m w).1))
      → Post Q ((unless_zero m >> k) w)
  Post-unless_zero Q m k w h = by_result (m w).0 h
    where
      by_result :
          (r : ℤ)
          → (r ≡ pos 0 → Post Q (k (m w).1))
          → Post Q (((λ _. (if is_zero r then next tt else ret r, (m w).1)) >> k) w)
      by_result (pos zero) g = g refl
      by_result (pos (suc n)) g = λ e. ground arith
      by_result (negsuc n) g = λ e. cc

  -- The same at the end of a body.
  pub Post-unless_zero_last :
      (Q : Unit {0} → World D → Type 0) (m : Cmd D ℤ) (w : World D)
      → ((m w).0 ≡ pos 0 → Q tt (m w).1)
      → Post Q (unless_zero m w)
  Post-unless_zero_last Q m w h = by_result (m w).0 h
    where
      by_result :
          (r : ℤ)
          → (r ≡ pos 0 → Q tt (m w).1)
          → Post Q (if is_zero r then next tt else ret r, (m w).1)
      by_result (pos zero) g = g refl
      by_result (pos (suc n)) g = λ e. ground arith
      by_result (negsuc n) g = λ e. cc

  -- `m >> k` and `m >>= k` for the two ways to leave with an error.
  pub PostOr-exit_if :
      (L : ℤ → Type 0) {B : Type 0} (Q : B → World D → Type 0) (b : Bool) (r : ℤ) (k : Prog D B)
      (w : World D)
      → L r
      → (b ≡ false → PostOr L Q (k w))
      → PostOr L Q ((exit_if b r >> k) w)
  PostOr-exit_if L Q true r k w left h = left
  PostOr-exit_if L Q false r k w left h = h refl

  pub Post-exit_if :
      {B : Type 0} (Q : B → World D → Type 0) (b : Bool) (r : ℤ) (k : Prog D B) (w : World D)
      → r ≢ pos 0
      → (b ≡ false → Post Q (k w))
      → Post Q ((exit_if b r >> k) w)
  Post-exit_if = PostOr-exit_if λ r. r ≢ pos 0

  pub PostOr-or_exit :
      (L : ℤ → Type 0) {A B : Type 0} (Q : B → World D → Type 0) (x : Option A) (r : ℤ)
      (k : A → Prog D B) (w : World D)
      → L r
      → ((a : A) → x ≡ some a → PostOr L Q (k a w))
      → PostOr L Q ((or_exit x r >>= k) w)
  PostOr-or_exit L Q none r k w left h = left
  PostOr-or_exit L Q (some a) r k w left h = h a refl

  pub Post-or_exit :
      {A B : Type 0} (Q : B → World D → Type 0) (x : Option A) (r : ℤ) (k : A → Prog D B)
      (w : World D)
      → r ≢ pos 0
      → ((a : A) → x ≡ some a → Post Q (k a w))
      → Post Q ((or_exit x r >>= k) w)
  Post-or_exit = PostOr-or_exit λ r. r ≢ pos 0

  -- `m >>= k`, where a call of the library goes on if its error code is 0.
  pub PostOr-call_or :
      (L : ℤ → Type 0) (sign : ℕ → ℤ) {A B : Type 0} (Q : B → World D → Type 0) (c : Call D A)
      (k : A → Prog D B) (w : World D)
      → ((e : ℕ) → e ≢ 0 → L (sign e))
      → ((c w).0 ≡ 0 → PostOr L Q (k (c w).1 (c w).2))
      → PostOr L Q ((call_or (λ e v. (sign e, v)) c >>= k) w)
  PostOr-call_or L sign Q c k w left h =
      by_test ((c w).0 == 0) (λ okay. h (eq_of_== (c w).0 0 okay))
        (λ failed. left (c w).0 (ground arith))
    where
      by_test :
          (b : Bool)
          → (b ≡ true → PostOr L Q (k (c w).1 (c w).2))
          → (b ≡ false → L (sign (c w).0))
          → PostOr L Q (
              ((λ _. if b then (next (c w).1, (c w).2) else (ret (sign (c w).0), (c w).2)) >>= k) w)
      by_test true p q = p refl
      by_test false p q = q refl

  -- The same at the end of a body.
  pub PostOr-call_or_last :
      (L : ℤ → Type 0) (sign : ℕ → ℤ) {A : Type 0} (Q : A → World D → Type 0) (c : Call D A)
      (w : World D)
      → ((e : ℕ) → e ≢ 0 → L (sign e))
      → ((c w).0 ≡ 0 → Q (c w).1 (c w).2)
      → PostOr L Q (call_or (λ e v. (sign e, v)) c w)
  PostOr-call_or_last L sign Q c w left h =
      by_test ((c w).0 == 0) (λ okay. h (eq_of_== (c w).0 0 okay))
        (λ failed. left (c w).0 (ground arith))
    where
      by_test :
          (b : Bool)
          → (b ≡ true → Q (c w).1 (c w).2)
          → (b ≡ false → L (sign (c w).0))
          → PostOr L Q (if b then (next (c w).1, (c w).2) else (ret (sign (c w).0), (c w).2))
      by_test true p q = p refl
      by_test false p q = q refl

  -- A function that returns 0 has come to its end.
  pub Post-finish :
      (Q : ℤ → World D → Type 0) (x : Exit ℤ × World D)
      → Post Q x
      → (finish x).0 ≡ pos 0
      → Q (finish x).0 (finish x).1
  Post-finish Q (next r, w) h e = h
  Post-finish Q (ret r, w) h e = absurd (h e)

  -- A function has returned earlier, or has come to its end.
  pub PostOr-finish :
      (L Q : ℤ → Type 0) (x : Exit ℤ × World D)
      → PostOr L (λ r _. Q r) x
      → L (finish x).0 ⊎ Q (finish x).0
  PostOr-finish L Q (next r, w) h = inr h
  PostOr-finish L Q (ret r, w) h = inl h

module _ {D : Type 0} (lib : Ext2fs D) (errno : ErrnoLaws lib) where
  -- `m >>= k`, where a call of the library goes on if its error code is 0.
  pub Post-call_translate :
      {A B : Type 0} (Q : B → World D → Type 0) (ino : Ino) (c : Call D A) (k : A → Prog D B)
      (w : World D)
      → ((c w).0 ≡ 0 → Post Q (k (c w).1 (c w).2))
      → Post Q ((call_translate lib ino c >>= k) w)
  Post-call_translate Q ino c k w h =
      by_test ((c w).0 == 0) (λ okay. h (eq_of_== (c w).0 0 okay))
        (λ failed. translate_error-ne_zero lib ino (c w).0 (c w).2 errno (ground arith))
    where
      by_test :
          (b : Bool)
          → (b ≡ true → Post Q (k (c w).1 (c w).2))
          → (b ≡ false → (translate_error lib ino (c w).0 (c w).2).0 ≢ pos 0)
          → Post Q (
              ((λ _.
                    if b
                    then (next (c w).1, (c w).2)
                    else returning (translate_error lib ino (c w).0 (c w).2))
                  >>= k)
                w)
      by_test true p q = p refl
      by_test false p q = q refl

  -- The same at the end of a body.
  pub Post-call_translate_last :
      {A : Type 0} (Q : A → World D → Type 0) (ino : Ino) (c : Call D A) (w : World D)
      → ((c w).0 ≡ 0 → Q (c w).1 (c w).2)
      → Post Q (call_translate lib ino c w)
  Post-call_translate_last Q ino c w h =
      by_test ((c w).0 == 0) (λ okay. h (eq_of_== (c w).0 0 okay))
        (λ failed. translate_error-ne_zero lib ino (c w).0 (c w).2 errno (ground arith))
    where
      by_test :
          (b : Bool)
          → (b ≡ true → Q (c w).1 (c w).2)
          → (b ≡ false → (translate_error lib ino (c w).0 (c w).2).0 ≢ pos 0)
          → Post Q (
              if b
              then (next (c w).1, (c w).2)
              else returning (translate_error lib ino (c w).0 (c w).2))
      by_test true p q = p refl
      by_test false p q = q refl
