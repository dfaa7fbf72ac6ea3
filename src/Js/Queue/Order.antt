-- ===== src/Js/Queue/Order.antt =====
-- The queue of lib/queue.js awaits one request at a time, in the order in which they were added, and
-- comes to each of them.
use mathlib.Core.List.{append_assoc, append-nil}
use mathlib.Core.Path.{subst}
use node_ext2fs.Base.{
  length-append, ℕ, suc, ◌+◌, ◌≤◌, Bool, true, false, List, [], ◌∷◌, ◌++◌, length, ◌⊎◌, inl, inr,
  ◌≡◌, refl, sym, ap, ◌∙◌, arith, Bool-cases,
}
use node_ext2fs.Js.Queue.{
  Outcome, rejected, Requests, idle, run_queue, run, add_operation, settle, Runs,
}
use node_ext2fs.Js.Queue.Runs.{here, adds, settles}

-- The requests that have an outcome.
abbrev pub names : {R : Type 0} → List (R × Outcome) → List R
names [] = []
names ((r, outcome) ∷ xs) = r ∷ names xs

names-append : {R : Type 0} (xs ys : List (R × Outcome)) → names (xs ++ ys) ≡ names xs ++ names ys
names-append [] ys = refl
names-append ((r, o) ∷ xs) ys = ap (λ l. r ∷ l) (names-append xs ys)

-- Either nothing is left to do, or one request is awaited; and the requests that have an outcome,
-- those that are awaited and those in the queue are the added ones, in their order.
abbrev pub IsOrderly : {R : Type 0} → List R → Requests R → Type 0
IsOrderly {R} xs s =
    (names s.settled ++ (s.awaited ++ s.queue) ≡ xs)
    × (((s.running ≡ false) × (s.awaited ≡ []) × (s.queue ≡ []))
        ⊎ ((s.running ≡ true) × ((r : R) × (s.awaited ≡ r ∷ []))))

not_within : {R : Type 0} (r : R) (before after : List R) → ¬ ([] ≡ before ++ r ∷ after)
not_within r [] after = λ e. cc
not_within r (b ∷ before) after = λ e. cc

-- One request alone is between two lists only if these are empty.
only :
    {R : Type 0} (q r : R) (before after : List R)
    → q ∷ [] ≡ before ++ r ∷ after
    → (before ≡ []) × (q ≡ r) × (after ≡ [])
only q r [] after e = (refl, cc, cc)
only q r (b ∷ before) after e = absurd (not_within r before after cc)

length-names : {R : Type 0} (xs : List (R × Outcome)) → length (names xs) ≡ length xs
length-names [] = refl
length-names ((r, o) ∷ xs) = ap suc (length-names xs)

-- The longer of two beginnings of a list starts with the shorter one.
longer_start :
    {A : Type 0} (xs ys us vs : List A)
    → us ++ vs ≡ xs ++ ys
    → length xs ≤ length us
    → (rest : List A) × (us ≡ xs ++ rest)
longer_start [] ys us vs e h = (us, refl)
longer_start (x ∷ xs) ys [] vs e h = absurd (omega arith)
longer_start (x ∷ xs) ys (a ∷ us) vs e h =
    let tails : us ++ vs ≡ xs ++ ys = cc in
    let (rest, same) = longer_start xs ys us vs tails (omega arith) in
    let first : a ≡ x = cc in (rest, rw (first, same) refl)

module _ {R : Type 0} (throws : R → Bool) where
  run_queue-IsOrderly :
      (settled : List (R × Outcome)) (queue : List R)
      → IsOrderly (names settled ++ queue) (run_queue throws [] settled queue)
  unfolding run_queue
  run_queue-IsOrderly settled [] = (refl, inl (refl, refl, refl))
  run_queue-IsOrderly settled (r ∷ queue) = elim (Bool-cases (throws r)) [
    | inl now ↦ rw now (
        subst (λ xs. IsOrderly xs (run_queue throws [] (settled ++ (r, rejected) ∷ []) queue))
          (ap (λ l. l ++ queue) (names-append settled _) ∙ append_assoc (names settled) _ queue)
          (run_queue-IsOrderly (settled ++ (r, rejected) ∷ []) queue))
    | inr later ↦ rw later (refl, inr (refl, (r, refl)))
  ]

  add_operation-IsOrderly :
      (xs : List R) (r : R) (s : Requests R)
      → IsOrderly xs s
      → IsOrderly (xs ++ r ∷ []) (add_operation throws r s)
  unfolding add_operation
  add_operation-IsOrderly xs r s (all, inl (off, none, empty)) =
      rw (off, none, empty)
        (subst (λ l. IsOrderly (l ++ r ∷ []) (run_queue throws [] s.settled (r ∷ [])))
          (sym (append-nil (names s.settled)) ∙ before) (run_queue-IsOrderly s.settled (r ∷ [])))
    where
      nothing : s.awaited ++ s.queue ≡ []
      nothing = rw (none, empty) refl

      before : names s.settled ++ [] ≡ xs
      before = ap (λ l. names s.settled ++ l) (sym nothing) ∙ all
  add_operation-IsOrderly xs r s (all, inr (on, one)) = rw on (
    ap (λ l. names s.settled ++ l) (sym (append_assoc s.awaited s.queue (r ∷ [])))
        ∙ sym (append_assoc (names s.settled) (s.awaited ++ s.queue) (r ∷ []))
        ∙ ap (λ l. l ++ r ∷ []) all,
    inr (refl, one),
  )

  settle-IsOrderly :
      (xs before : List R) (r : R) (after : List R) (o : Outcome) (s : Requests R)
      → s.awaited ≡ before ++ r ∷ after
      → IsOrderly xs s
      → IsOrderly xs (settle throws before r after o s)
  unfolding settle
  settle-IsOrderly xs before r after o s there (all, inl (off, none, empty)) =
      absurd (not_within r before after (sym none ∙ there))
  settle-IsOrderly xs before r after o s there (all, inr (on, (q, one))) =
      let (first, same, last) = only q r before after (sym one ∙ there) in
      rw (first, last)
        (subst (λ l. IsOrderly l (run_queue throws [] (s.settled ++ (r, o) ∷ []) s.queue))
          (ap (λ l. l ++ s.queue) (names-append s.settled _)
            ∙ append_assoc (names s.settled) (r ∷ []) s.queue
            ∙ ap (λ l. names s.settled ++ (l ++ s.queue)) (ap (λ a. a ∷ []) (sym same) ∙ sym one)
            ∙ all)
          (run_queue-IsOrderly (s.settled ++ (r, o) ∷ []) s.queue))

  Runs-IsOrderly :
      {s t : Requests R} {n : ℕ} {added : List R} (xs : List R)
      → IsOrderly xs s
      → Runs throws s n added t
      → IsOrderly (xs ++ added) t
  Runs-IsOrderly {s} xs h here = subst (λ l. IsOrderly l s) (sym (append-nil xs)) h
  Runs-IsOrderly xs h (adds {n} {added} {t} r run) =
      subst (λ l. IsOrderly l (add_operation throws r t)) (append_assoc xs added (r ∷ []))
        (add_operation-IsOrderly (xs ++ added) r t (Runs-IsOrderly xs h run))
  Runs-IsOrderly xs h (settles {n} {added} {t} before r after o run there) =
      settle-IsOrderly (xs ++ added) before r after o t there (Runs-IsOrderly xs h run)

  -- Whatever is added and whatever comes to an end, in any order: the requests that have an outcome,
  -- then the awaited ones, then those in the queue are the requests in the order in which they were
  -- added; at most one is awaited; and if none is, none is in the queue.
  pub Runs-IsOrderly-idle :
      {s : Requests R} {n : ℕ} {added : List R} → Runs throws idle n added s → IsOrderly added s
  Runs-IsOrderly-idle = Runs-IsOrderly [] (refl, inl (refl, refl, refl))

  length-run_queue :
      (awaited : List R) (settled : List (R × Outcome)) (queue : List R)
      → length settled ≤ length (run_queue throws awaited settled queue).settled
  unfolding run_queue
  length-run_queue awaited settled [] = omega arith
  length-run_queue awaited settled (r ∷ queue) =
      let longer = length-append settled ((r, rejected) ∷ []) in
      let rest = length-run_queue awaited (settled ++ (r, rejected) ∷ []) queue in ground arith

  -- Each end of an awaited request adds to the requests with an outcome.
  length-settled :
      {s t : Requests R} {n : ℕ} {added : List R}
      → Runs throws s n added t
      → length s.settled + n ≤ length t.settled
  unfolding add_operation settle
  length-settled here = omega arith
  length-settled (adds {n} {added} {t} r run) =
      let rest = length-settled run in
      let more = length-run_queue t.awaited t.settled (t.queue ++ r ∷ []) in ground arith
  length-settled (settles {n} {added} {t} before r after o run there) =
      let rest = length-settled run in
      let longer = length-append t.settled ((r, o) ∷ []) in
      let more = length-run_queue (before ++ after) (t.settled ++ (r, o) ∷ []) t.queue in
      omega arith

  -- If awaited requests come to an end as often as there are awaited and queued requests, whatever is
  -- added meanwhile, then all the requests that had been added have an outcome, in their order, before
  -- all others.
  pub Runs-settled :
      {s t : Requests R} {m n : ℕ} {xs more : List R}
      → Runs throws idle m xs s
      → Runs throws s n more t
      → length s.awaited + length s.queue ≤ n
      → (rest : List R) × (names t.settled ≡ xs ++ rest)
  Runs-settled {s} {t} {xs = xs} {more = more} first second enough =
      let (all, _) = Runs-IsOrderly-idle first in
      let (all', _) = Runs-IsOrderly xs (Runs-IsOrderly-idle first) second in
      let total = ap length (sym all) in
      longer_start xs more (names t.settled) (t.awaited ++ t.queue) all' (
        omega (
          arith,
          total,
          length-append (names s.settled) (s.awaited ++ s.queue),
          length-append s.awaited s.queue,
          length-names s.settled,
          length-names t.settled,
          length-settled second,
        ))
