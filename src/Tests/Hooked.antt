-- ===== src/Tests/Hooked.antt =====
-- The theorem on the hooks of lib/util.js at a call that makes another one.
use node_ext2fs.Base.{ℕ, ◌+◌, ◌-◌, Bool, true, none, [], ◌∷◌, ◌==◌, refl, arith, if◌then◌else◌}
use node_ext2fs.Js.Hooks.{
  Heap, Hooks, begin, use_buffer, use_object, finish, with_hooks, begun, buffers, objects, calls,
}
use node_ext2fs.Js.Hooks.Freed.{Restored, with_hooks-Restored}
use node_ext2fs.Js.Hooks.Ids.{HeapLaws}
use node_ext2fs.Js.Objects.{no_objects, set_object}

-- A heap that counts the uses of each address; every buffer is as far from 0 as it is long.
abbrev counting : Heap (ℕ → ℕ)
counting = record {
  malloc = λ n m. (n, λ p. m p + (if p == n then 1 else 0));
  free = λ a m p. m p - (if p == a then 1 else 0);
}

counting-HeapLaws : HeapLaws counting (λ m. m)
counting-HeapLaws = record { malloc_live = λ n m p. refl; free_live = λ a m p. refl }

abbrev idle_hooks : Hooks Bool (ℕ → ℕ)
idle_hooks = record {
  hook_id = none;
  id = 0;
  ids = [];
  obj_ids = λ h. [];
  mem_addrs = λ h. [];
  objects = no_objects;
  heap = λ p. 0;
}

-- The call inside reserves a buffer.
abbrev inside : Hooks Bool (ℕ → ℕ) → Bool × Hooks Bool (ℕ → ℕ)
inside s = (true, (use_buffer counting 16 s).1)

-- A path, an array of JavaScript, and the call inside.
abbrev listing : Hooks Bool (ℕ → ℕ) → Bool × Hooks Bool (ℕ → ℕ)
listing s = with_hooks counting inside (use_object true (use_buffer counting 8 s).1).1

with_hooks-Restored_example :
    Restored (λ m. m) idle_hooks (with_hooks counting listing idle_hooks).1
unfolding with_hooks begin use_buffer use_object finish set_object
with_hooks-Restored_example =
    with_hooks-Restored counting (λ m. m) counting-HeapLaws listing idle_hooks (8 ∷ [])
      ((1, true) ∷ []) (λ x. (omega arith, λ some_free. absurd (omega (arith, some_free))))
      (calls (objects true (buffers 8 (begun idle_hooks))) (buffers 16 (begun _)))
