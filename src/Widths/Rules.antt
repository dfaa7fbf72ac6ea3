-- ===== src/Widths/Rules.antt =====
-- One rule for each way to build an action.
use node_ext2fs.Base.{
  ℕ, zero, suc, ℤ, negsuc, neg, pos, is_zero, Bool, true, false, Option, none, some, ◌==◌,
  if◌then◌else◌,
}
use node_ext2fs.Ext2.Filsys.{World}
use node_ext2fs.Ext2.Library.{Call, Cmd}
use node_ext2fs.Prog.{
  Exit, next, ret, Prog, ◌>>=◌, pure, exit_if, on, raw, run, gets, modify, returning, or_exit,
  call_or, call_neg, call_ret, unless_zero, finish, function,
}
use node_ext2fs.Widths.{Within, Any, Kept, Keeps, KeepsCmd, KeepsCall}

-- What holds on both branches.
pub if-either :
    {A : Type 0} (P : A → Type 0) (b : Bool) (x y : A) → P x → P y → P (if b then x else y)
if-either P true x y p q = p
if-either P false x y p q = q

module _ {D : Type 0} {Stored : D → Type 0} where
  pub Keeps-pure : {A : Type 0} {Q : A → Type 0} (a : A) → Q a → Keeps Stored Q (pure a)
  Keeps-pure a h = record { at = λ w ok. (h, ok) }

  Kept-bind :
      {A B : Type 0} (R : A → Type 0) (Q : B → Type 0) (x : Exit A × World D) (k : A → Prog D B)
      → Kept Stored R x
      → ((a : A) → R a → Keeps Stored Q (k a))
      → Kept Stored Q (((λ _. x) >>= k) x.1)
  Kept-bind R Q (next a, w) k (h, ok) rest = (rest a h).at w ok
  Kept-bind R Q (ret r, w) k ok rest = ok

  pub Keeps-bind :
      {A B : Type 0} {R : A → Type 0} {Q : B → Type 0} {m : Prog D A} {k : A → Prog D B}
      → Keeps Stored R m
      → ((a : A) → R a → Keeps Stored Q (k a))
      → Keeps Stored Q (m >>= k)
  Keeps-bind {R = R} {Q = Q} {m = m} {k = k} h rest = record {
    at = λ w ok. Kept-bind R Q (m w) k (h.at w ok) rest;
  }

  pub Keeps-exit_if : (b : Bool) (r : ℤ) → Keeps Stored Any (exit_if b r)
  Keeps-exit_if true r = record { at = λ w ok. ok }
  Keeps-exit_if false r = record { at = λ w ok. (tt, ok) }

  pub Keeps-on : (b : Bool) {m : Prog D (Unit {0})} → Keeps Stored Any m → Keeps Stored Any (on b m)
  Keeps-on true h = record { at = λ w ok. h.at w ok }
  Keeps-on false h = record { at = λ w ok. (tt, ok) }

  pub Keeps-run :
      {A : Type 0} {Q : A → Type 0} {c : Cmd D A} → KeepsCmd Stored Q c → Keeps Stored Q (run c)
  Keeps-run h = record { at = λ w ok. h.at w ok }

  pub Keeps-call_or :
      {A : Type 0} {Q : A → Type 0} {handler : ℕ → Cmd D ℤ} {c : Call D A}
      → ((e : ℕ) → KeepsCmd Stored Any (handler e))
      → KeepsCall Stored Q c
      → Keeps Stored Q (call_or handler c)
  Keeps-call_or {A = A} {Q = Q} {handler = handler} {c = c} handled h = record {
    at = λ w ok. by_test ((c w).0 == 0) (c w) (h.at w ok);
  }
    where
      by_test :
          (b : Bool) (x : ℕ × A × World D)
          → Q x.1 × Within Stored x.2
          → Kept Stored Q (if b then (next x.1, x.2) else returning (handler x.0 x.2))
      by_test true x h = h
      by_test false x (q, ok) = ((handled x.0).at x.2 ok).1

  pub Keeps-call_neg :
      {A : Type 0} {Q : A → Type 0} {c : Call D A}
      → KeepsCall Stored Q c
      → Keeps Stored Q (call_neg c)
  Keeps-call_neg h =
      Keeps-call_or {handler = λ e w. (neg e, w)} (λ e. record { at = λ w ok. (tt, ok) }) h

  pub Keeps-call_ret :
      {A : Type 0} {Q : A → Type 0} {c : Call D A}
      → KeepsCall Stored Q c
      → Keeps Stored Q (call_ret c)
  Keeps-call_ret h =
      Keeps-call_or {handler = λ e w. (pos e, w)} (λ e. record { at = λ w ok. (tt, ok) }) h

  pub Keeps-raw :
      {A : Type 0} {Q : A → Type 0} {c : Call D A}
      → KeepsCall Stored Q c
      → Keeps Stored (λ x. Q x.1) (raw c)
  Keeps-raw h = record { at = λ w ok. h.at w ok }

  pub Keeps-gets :
      {A : Type 0} (Q : A → Type 0) {f : World D → A}
      → ((w : World D) → Within Stored w → Q (f w))
      → Keeps Stored Q (gets f)
  Keeps-gets Q h = record { at = λ w ok. (h w ok, ok) }

  pub Keeps-modify :
      {f : World D → World D}
      → ((w : World D) → Within Stored w → Within Stored (f w))
      → Keeps Stored Any (modify f)
  Keeps-modify h = record { at = λ w ok. (tt, h w ok) }

  pub Keeps-or_exit : {A : Type 0} (x : Option A) (r : ℤ) → Keeps Stored Any (or_exit x r)
  Keeps-or_exit none r = record { at = λ w ok. ok }
  Keeps-or_exit (some a) r = record { at = λ w ok. (tt, ok) }

  pub Keeps-unless_zero : {c : Cmd D ℤ} → KeepsCmd Stored Any c → Keeps Stored Any (unless_zero c)
  Keeps-unless_zero {c = c} h = record { at = λ w ok. by_result (c w) (h.at w ok) }
    where
      by_result :
          (x : ℤ × World D)
          → Any x.0 × Within Stored x.1
          → Kept Stored Any (if is_zero x.0 then next tt else ret x.0, x.1)
      by_result (pos zero, w) (_, ok) = (tt, ok)
      by_result (pos (suc n), w) (_, ok) = ok
      by_result (negsuc n, w) (_, ok) = ok

  pub Keeps-function : {m : Prog D ℤ} → Keeps Stored Any m → KeepsCmd Stored Any (function m)
  Keeps-function {m = m} h = record { at = λ w ok. by_exit (m w) (h.at w ok) }
    where
      by_exit :
          (x : Exit ℤ × World D) → Kept Stored Any x → Any (finish x).0 × Within Stored (finish x).1
      by_exit (next r, w) (_, ok) = (tt, ok)
      by_exit (ret r, w) ok = (tt, ok)
