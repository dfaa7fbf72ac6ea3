-- ===== src/Js/Files/Loop.antt =====
-- lib/fs.js, `writeAll`: its loop comes to an end.
use node_ext2fs.Base.{
  ℕ, zero, suc, ℤ, pos, negsuc, neg, pos_part, signed32, Bool, true, false, Option, none, some,
  ◌==◌, ◌⊎◌, inl, inr, ◌≡◌, ◌≤◌, ◌<◌, ◌+◌, ◌-◌, ◌^◌, not, bit_or, refl, arith, if◌then◌else◌,
  Bool-cases, lt→ltb,
}
use node_ext2fs.Ext2.Errors.{ebadf}
use node_ext2fs.Ext2.Filsys.{Bytes, World}
use node_ext2fs.Ext2.Library.{Ext2fs}
use node_ext2fs.Ext2.Modes.{has, o_wronly, o_rdwr, o_creat, o_append, ext2_seek_end, ext2_seek_set}
use node_ext2fs.Files.{no_position, node_ext2fs_write, seek_to_write, flush_written, update_xtime}
use node_ext2fs.Js.Calls.{ccall_throw}
use node_ext2fs.Js.Files.{
  called, check_fd, write_buffer, Platform, Client, Outcome, value, failed, write, after_round,
  write_all, write_checked, set_heap, copy, position_of, plus, Action,
}
use node_ext2fs.Prog.{Prog, ◌>>=◌, ◌>>◌, pure, on, call_neg, exit_if}
use node_ext2fs.Prog.Rules.{
  IsError, neg-IsError, PostOr-finish, PostOr, PostOr-bind, PostOr-exit_if, PostOr-on,
  PostOr-call_or, PostOr-call_or_last,
}

module _ {D : Type 0} where
  -- A write that succeeds stores some of the bytes it is given, and no more than these.
  abbrev pub Advances : Ext2fs D → Type 0
  Advances lib =
      (file buffer n : ℕ) (w : World D)
      → (lib.file_write file buffer n w).0 ≡ 0
      → ((lib.file_write file buffer n w).1 ≤ n) × (0 < n → 0 < (lib.file_write file buffer n w).1)

-- One round of the loop throws, or writes some of the bytes.
abbrev RoundEnds : ℕ → Outcome ℕ → Type 0
RoundEnds n (failed f) = Unit
RoundEnds n (value k) = (k ≤ n) × (0 < n → 0 < k)

after_round-ends :
    {D : Type 0} (n : ℕ) (again : ℕ → Client D → Option (Outcome (Unit {0})) × Client D)
    (x : Outcome ℕ × Client D)
    → RoundEnds n x.0
    → ((k : ℕ) (c : Client D) → k ≤ n → 0 < k → (r : Outcome (Unit {0})) × ((again k c).0 ≡ some r))
    → (r : Outcome (Unit {0})) × ((after_round n again x).0 ≡ some r)
after_round-ends n again (failed f, c) h rest = (failed f, refl)
after_round-ends n again (value k, c) (le, some_bytes) rest = elim (Bool-cases (k == n)) [
  | inl e ↦ rw (after_round, e) (value tt, refl)
  | inr e ↦ rw (after_round, e) (rest k c le (some_bytes (ground arith)))
]

-- A number of bytes out of `n`, as the result of a call.
abbrev Written : ℕ → ℤ → Type 0
Written n r = (pos_part r ≤ n) × (0 < n → 0 < pos_part r)

signed32-Written : (n k : ℕ) → n < 2 ^ 31 → k ≤ n → (0 < n → 0 < k) → Written n (signed32 k)
signed32-Written n k small h p = rw (lt→ltb k (2 ^ 31) (omega (arith, small, h))) (h, p)

module _ {D : Type 0} (lib : Ext2fs D) (file flags n : ℕ) where
  flush_written-next :
      (w : World D) → PostOr {D = D} IsError {A = Unit {0}} (λ _ _. Unit) (flush_written lib file w)
  flush_written-next w = elim (Bool-cases ((lib.file_flush file w).0 == 0)) [
    | inl e ↦ rw (e) tt
    | inr e ↦ rw (e) tt
  ]

  abbrev flush_rest : ℕ → Prog D ℤ
  flush_rest k = flush_written lib file >> pure (signed32 k)

  abbrev store_rest : ℕ → Prog D ℤ
  store_rest k =
      on (has flags o_creat) (call_neg (update_xtime lib file false true true)) >> flush_rest k

  store_rest-Written :
      (k : ℕ) (w : World D)
      → Written n (signed32 k)
      → PostOr IsError (λ r _. Written n r) (store_rest k w)
  store_rest-Written k w h =
      PostOr-bind IsError (λ _ _. Unit) (λ r _. Written n r)
        (on (has flags o_creat) (call_neg (update_xtime lib file false true true)) w)
        (λ _. flush_rest k)
        (PostOr-on IsError (λ _ _. Unit) (has flags o_creat)
          (call_neg (update_xtime lib file false true true)) w
          (λ _.
            PostOr-call_or_last IsError neg (λ _ _. Unit) (update_xtime lib file false true true) w
              neg-IsError (λ _. tt))
          (λ _. tt))
        (λ _ w' _.
          PostOr-bind IsError (λ _ _. Unit) (λ r _. Written n r) (flush_written lib file w')
            (λ _. pure (signed32 k)) (flush_written-next w') (λ _ w'' _. h))

  module _ (advances : Advances lib) (small : n < 2 ^ 31) (buffer position : ℕ) where
    abbrev write_rest : Prog D ℤ
    write_rest = call_neg (lib.file_write file buffer n) >>= store_rest

    write_rest-Written : (w : World D) → PostOr IsError (λ r _. Written n r) (write_rest w)
    write_rest-Written w =
        PostOr-call_or IsError neg (λ r _. Written n r) (lib.file_write file buffer n) store_rest w
          neg-IsError
          λ okay.
            let law = advances file buffer n w okay in
            store_rest-Written (lib.file_write file buffer n w).1 (lib.file_write file buffer n w).2
              (signed32-Written n (lib.file_write file buffer n w).1 small law.0 law.1)

    seek-next :
        (w : World D)
        → PostOr {D = D} IsError {A = Unit {0}}
            (λ _ _. Unit)
            (seek_to_write lib file flags position w)
    seek-next w = by_append (has flags o_append)
      where
        by_append :
            (b : Bool)
            → PostOr {D = D} IsError {A = Unit {0}}
                (λ _ _. Unit)
                (if b
                  then call_neg (lib.file_llseek file 0 ext2_seek_end) w
                  else on
                      (not (position == no_position))
                      (call_neg (lib.file_llseek file position ext2_seek_set))
                      w)
        by_append true =
            PostOr-call_or_last IsError neg (λ _ _. Unit) (lib.file_llseek file 0 ext2_seek_end) w
              neg-IsError (λ _. tt)
        by_append false =
            PostOr-on IsError (λ _ _. Unit) (not (position == no_position))
              (call_neg (lib.file_llseek file position ext2_seek_set)) w
              (λ _.
                PostOr-call_or_last IsError neg (λ _ _. Unit)
                  (lib.file_llseek file position ext2_seek_set) w neg-IsError (λ _. tt))
              (λ _. tt)

    -- What a write returns is an error, or a number of bytes out of those it is asked to store.
    node_ext2fs_write-Written :
        (w : World D)
        → let (r, _) = node_ext2fs_write lib file flags buffer n position w in
          IsError r ⊎ Written n r
    unfolding node_ext2fs_write
    node_ext2fs_write-Written w =
        let refused = not (has flags (bit_or o_wronly o_rdwr)) in
        PostOr-finish IsError (Written n)
          ((exit_if refused (neg ebadf) >> (seek_to_write lib file flags position >> write_rest)) w)
          (PostOr-exit_if IsError (λ r _. Written n r) refused (neg ebadf)
            (seek_to_write lib file flags position >> write_rest) w refl
            (λ _.
              PostOr-bind IsError (λ _ _. Unit) (λ r _. Written n r)
                (seek_to_write lib file flags position w) (λ _. write_rest) (seek-next w)
                (λ _ w' _. write_rest-Written w')))

module _ {D : Type 0} (lib : Ext2fs D) (node : Platform D) (advances : Advances lib) where
  called-RoundEnds :
      (n : ℕ) (r : ℤ) (c : Client D)
      → IsError r ⊎ Written n r
      → RoundEnds n (called (ccall_throw r) c).0
  unfolding ccall_throw
  called-RoundEnds n (pos k) c (inl e) = absurd (cc)
  called-RoundEnds n (pos k) c (inr h) = h
  called-RoundEnds n (negsuc k) c h = tt

  check_fd-RoundEnds :
      (n : ℕ) (found : Option ℕ) (k : ℕ → Action D ℕ) (c : Client D)
      → ((flags : ℕ) → RoundEnds n (k flags c).0)
      → RoundEnds n (check_fd lib node found k c).0
  check_fd-RoundEnds n none k c h = tt
  check_fd-RoundEnds n (some flags) k c h = h flags

  write-RoundEnds :
      (fd : ℕ) (bytes : Bytes) (offset n : ℕ) (position : Option ℕ) (c : Client D)
      → n < 2 ^ 31
      → RoundEnds n (write lib node fd bytes (some offset) (some n) position c).0
  unfolding write write_buffer
  write-RoundEnds fd bytes offset n position c small =
      check_fd-RoundEnds n (c.open_files fd) (write_checked lib node fd bytes 0 n position) c
        λ flags.
          let (p, w) = node.malloc n c.world in
          let w' = set_heap p (copy bytes 0 n (w.heap p)) w in
          let (r, w'') = node_ext2fs_write lib fd flags p n (position_of position) w' in
          called-RoundEnds n r (record c { world = node.free p w'' })
            (node_ext2fs_write-Written lib fd flags n advances small p (position_of position) w')

  -- If a write that succeeds stores some of the bytes that it is given, then writing `n` bytes comes to
  -- an end, with success or with an exception, after at most `n + 1` rounds of the loop.
  pub write_all-ends :
      (fuel fd : ℕ) (bytes : Bytes) (offset n : ℕ) (position : Option ℕ) (c : Client D)
      → n < 2 ^ 31
      → n < fuel
      → (r : Outcome (Unit {0})) × ((write_all lib node fuel fd bytes offset n position c).0
          ≡ some r)
  unfolding write_all
  write_all-ends zero fd bytes offset n position c small enough = absurd (omega (arith, enough))
  write_all-ends (suc fuel) fd bytes offset n position c small enough =
      after_round-ends n
        (λ k c'. write_all lib node fuel fd bytes (offset + k) (n - k) (plus position k) c')
        (write lib node fd bytes (some offset) (some n) position c)
        (write-RoundEnds fd bytes offset n position c small)
        (λ k c' le h.
          write_all-ends fuel fd bytes (offset + k) (n - k) (plus position k) c'
            (omega (arith, small)) (omega (arith, le, h, enough)))
