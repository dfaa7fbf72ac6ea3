-- ===== src/Js/Queue.antt =====
-- lib/queue.js: the requests to the WebAssembly module wait in a queue. A request is called when
-- `run` takes it from the queue, and then either throws at once or is awaited; `throws` says which.
-- What another part of the program does while a request is awaited comes between two steps.
pub mod Order
use node_ext2fs.Base.{ℕ, suc, Bool, true, false, List, [], ◌∷◌, ◌++◌, if◌then◌else◌, ◌≡◌}

-- `resolve` or `reject` has been called.
pub data Outcome : Type 0 where
  resolved rejected : Outcome

-- `running` and `queue` of the file, the requests that are awaited, and those that have an outcome,
-- oldest first.
pub record Requests (R : Type 0) : Type 0 where
  pub running : Bool
  pub queue : List R
  pub awaited : List R
  pub settled : List (R × Outcome)

abbrev pub idle : {R : Type 0} → Requests R
idle = record { running = false; queue = []; awaited = []; settled = [] }

module _ {R : Type 0} (throws : R → Bool) where
  -- `run`, by the requests in the queue.
  unfoldable pub run_queue :
      (awaited : List R) → (settled : List (R × Outcome)) → (queue : List R) → Requests R
  run_queue awaited settled [] = record {
    running = false;
    queue = [];
    awaited = awaited;
    settled = settled;
  }
  run_queue awaited settled (r ∷ queue) =
      let next = run_queue awaited (settled ++ (r, rejected) ∷ []) queue in
      if throws r
      then next
      else record { running = true; queue = queue; awaited = awaited ++ r ∷ []; settled = settled }

  abbrev pub run : Requests R → Requests R
  run s = run_queue s.awaited s.settled s.queue

  unfoldable pub add_operation : R → Requests R → Requests R
  add_operation r s =
      let s' : Requests R = record s { queue = s.queue ++ r ∷ [] } in
      if s.running then s' else run s'

  -- The awaited request between the other two lists comes to an end, and `run` goes on.
  unfoldable pub settle :
      (before : List R) (r : R) (after : List R) → Outcome → Requests R → Requests R
  settle before r after outcome s =
      run (record s { awaited = before ++ after; settled = s.settled ++ (r, outcome) ∷ [] })

  -- From `s`, in `n` ends of awaited requests and with those requests added in that order.
  pub data Runs (s : Requests R) : (n : ℕ) → (added : List R) → Requests R → Type 0 where
    here : Runs s 0 [] s
    adds :
        {n : ℕ} {added : List R} {t : Requests R} (r : R)
        → Runs s n added t
        → Runs s n (added ++ r ∷ []) (add_operation r t)
    settles :
        {n : ℕ} {added : List R} {t : Requests R} (before : List R) (r : R) (after : List R)
        (outcome : Outcome)
        → Runs s n added t
        → t.awaited ≡ before ++ r ∷ after
        → Runs s (suc n) added (settle before r after outcome t)
