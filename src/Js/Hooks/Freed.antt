-- ===== src/Js/Hooks/Freed.antt =====
-- lib/util.js: what a call has used is free at its end.
use mathlib.Core.Path.{subst}
use node_ext2fs.Base.{
  ℕ, ◌+◌, some, List, [], ◌∷◌, ◌++◌, ◌≡◌, ◌≢◌, refl, sym, ap, ◌∙◌, arith, ==-false, ==-true,
}
use node_ext2fs.Js.Hooks.{
  Heap, Hooks, get_hook_id, begin, delete_all, use_object, use_buffer, buffer_used, object_used,
  finish, with_hooks, During, begun, buffers, objects, calls,
}
use node_ext2fs.Js.Objects.{set_object, Uses, sets}
use node_ext2fs.Js.Objects.Held.{count, ids, count-append}
use node_ext2fs.Js.Hooks.Ids.{
  HeapLaws, free_all-live, on_top, on_top-last, delete_all-Uses, ids-last, IsManaged, IsTaken,
  Others, get_hook_id-Fresh,
}

module _ {A M : Type 0} where
  -- What is true when a call has begun, and until it ends.
  record Kept (live : M → ℕ → ℕ) (start : Hooks A M) (mem : List ℕ) (obj : List (ℕ × A))
      (s : Hooks A M) : Type 0 where
    hook : s.hook_id ≡ some (begin start).0
    objs : s.obj_ids (begin start).0 ≡ ids obj
    mems : s.mem_addrs (begin start).0 ≡ mem
    managed : IsManaged s
    taken : IsTaken (begin start).0 s
    others : Others start s
    apart : (j : ℕ) → IsTaken j start → j ≢ (begin start).0
    in_use : (p : ℕ) → live s.heap p ≡ live start.heap p + count p mem
    held : (h : List (ℕ × A)) → Uses h start.objects → Uses (on_top obj h) s.objects

  -- What is true of a state after a call that has begun in the state `start`.
  pub record Restored (live : M → ℕ → ℕ) (start t : Hooks A M) : Type 0 where
    pub hook : t.hook_id ≡ start.hook_id
    pub managed : IsManaged t
    pub others : Others start t
    pub in_use : (p : ℕ) → live t.heap p ≡ live start.heap p
    pub held : (h : List (ℕ × A)) → Uses h start.objects → Uses h t.objects

  module _ (c : Heap M) (live : M → ℕ → ℕ) (laws : HeapLaws c live) where
    begin-Kept : (start : Hooks A M) → IsManaged start → Kept live start [] [] (begin start).1
    unfolding begin
    begin-Kept start managed =
        let (h, s) = get_hook_id start in
        let f = get_hook_id-Fresh start managed in
        record {
          hook = refl;
          objs = rw (==-true h h refl) refl;
          mems = rw (==-true h h refl) refl;
          managed = f.managed;
          taken = f.taken;
          others = λ j taken.
              let (taken', ne) = f.others j taken in
              (
                taken',
                rw (==-false j h ne) (ap (λ g. g j) f.same.0),
                rw (==-false j h ne) (ap (λ g. g j) f.same.1),
              );
          apart = λ j taken. (f.others j taken).1;
          in_use = λ p. omega (arith, ap (λ m. live m p) f.same.2);
          held = λ h uses. subst (Uses h) (sym f.same.3) uses;
        }

    finish-Restored :
        (start s : Hooks A M) (mem : List ℕ) (obj : List (ℕ × A))
        → Kept live start mem obj s
        → Restored live start (finish c (begin start).0 start.hook_id s)
    unfolding finish
    finish-Restored start s mem obj k =
        let h = (begin start).0 in
        record {
          hook = refl;
          managed = λ x. (
            ground (arith, count-append x s.ids (h ∷ []), (k.managed x).0, k.taken.1),
            λ some_free. ground (arith, count-append x s.ids (h ∷ []), (k.managed x).1, k.taken.0),
          );
          others = λ j taken.
              let (taken', objs, mems) = k.others j taken in
              let ne = k.apart j taken in
              (
                (taken'.0, ground (arith, count-append j s.ids (h ∷ []), taken'.1, ne)),
                rw (==-false j h ne) objs,
                rw (==-false j h ne) mems,
              );
          in_use = λ p. omega (
            arith,
            free_all-live c live laws (s.mem_addrs h) s.heap p,
            k.in_use p,
            ap (count p) k.mems,
          );
          held = λ before uses.
              subst (λ l. Uses before (delete_all l s.objects)) (sym k.objs)
                (delete_all-Uses obj before s.objects (k.held before uses));
        }

    use_buffer-Kept :
        (start s : Hooks A M) (mem : List ℕ) (obj : List (ℕ × A)) (n : ℕ)
        → Kept live start mem obj s
        → Kept live start (mem ++ (c.malloc n s.heap).0 ∷ []) obj (use_buffer c n s).1
    unfolding use_buffer
    use_buffer-Kept start s mem obj n k =
        let h = (begin start).0 in
        let (pointer, heap) = c.malloc n s.heap in
        subst (λ o. Kept live start (mem ++ pointer ∷ []) obj (buffer_used (pointer, heap) s o).1)
          (sym k.hook)
          (record {
            hook = k.hook;
            objs = k.objs;
            mems = rw (==-true h h refl) (ap (λ l. l ++ pointer ∷ []) k.mems);
            managed = k.managed;
            taken = k.taken;
            others = λ j taken.
                let (taken', objs, mems) = k.others j taken in
                (taken', objs, rw (==-false j h (k.apart j taken)) mems);
            apart = k.apart;
            in_use = λ p.
                omega (
                  arith,
                  laws.malloc_live n s.heap p,
                  k.in_use p,
                  count-append p mem (pointer ∷ []),
                );
            held = k.held;
          })

    use_object-Kept :
        (start s : Hooks A M) (mem : List ℕ) (obj : List (ℕ × A)) (a : A)
        → Kept live start mem obj s
        → Kept live start mem (obj ++ ((set_object a s.objects).0, a) ∷ []) (use_object a s).1
    unfolding use_object
    use_object-Kept start s mem obj a k =
        let h = (begin start).0 in
        let (id, set) = set_object a s.objects in
        subst (λ o. Kept live start mem (obj ++ (id, a) ∷ []) (object_used (id, set) s o).1)
          (sym k.hook)
          (record {
            hook = k.hook;
            objs = rw (==-true h h refl) (ap (λ l. l ++ id ∷ []) k.objs ∙ sym (ids-last obj id a));
            mems = k.mems;
            managed = k.managed;
            taken = k.taken;
            others = λ j taken.
                let (taken', objs, mems) = k.others j taken in
                (taken', rw (==-false j h (k.apart j taken)) objs, mems);
            apart = k.apart;
            in_use = k.in_use;
            held = λ before uses.
                subst (λ l. Uses l set) (sym (on_top-last obj (id, a) before))
                  (sets a (k.held before uses));
          })

    -- A call that the function makes itself.
    call-Kept :
        (start s t : Hooks A M) (mem : List ℕ) (obj : List (ℕ × A))
        → Kept live start mem obj s
        → Restored live s t
        → Kept live start mem obj t
    call-Kept start s t mem obj k r =
        let h = (begin start).0 in
        let (taken, objs, mems) = r.others h k.taken in
        record {
          hook = r.hook ∙ k.hook;
          objs = objs ∙ k.objs;
          mems = mems ∙ k.mems;
          managed = r.managed;
          taken = taken;
          others = λ j taken.
              let (taken', objs', mems') = k.others j taken in
              let (taken'', objs'', mems'') = r.others j taken' in
              (taken'', objs'' ∙ objs', mems'' ∙ mems');
          apart = k.apart;
          in_use = λ p. r.in_use p ∙ k.in_use p;
          held = λ before uses. r.held (on_top obj before) (k.held before uses);
        }

    During-Kept :
        {start s : Hooks A M} {mem : List ℕ} {obj : List (ℕ × A)}
        → During c start mem obj s
        → IsManaged start
        → Kept live start mem obj s
    During-Kept (begun start) managed = begin-Kept start managed
    During-Kept (buffers {start} {s} {mem} {obj} n d) managed =
        use_buffer-Kept start s mem obj n (During-Kept d managed)
    During-Kept (objects {start} {s} {mem} {obj} a d) managed =
        use_object-Kept start s mem obj a (During-Kept d managed)
    During-Kept (calls {start} {s} {s'} {mem} {mem'} {obj} {obj'} d inner) managed =
        let k = During-Kept d managed in
        call-Kept start s (finish c (begin s).0 s.hook_id s') mem obj k
          (finish-Restored s s' mem' obj' (During-Kept inner k.managed))

    -- A function that `withHooks` runs reserves buffers, sets objects and makes such calls itself, in any
    -- order, until it returns or throws. After it each address of the heap is in use as often as before,
    -- exactly the objects are held that were held before, and the hook is that of the call around it,
    -- whose own buffers and objects are still noted. Before it no free hook id is free twice, and each has
    -- been given.
    pub with_hooks-Restored :
        {R : Type 0} (fn : Hooks A M → R × Hooks A M) (s : Hooks A M) (mem : List ℕ)
        (obj : List (ℕ × A))
        → IsManaged s
        → During c s mem obj (fn (begin s).1).1
        → Restored live s (with_hooks c fn s).1
    unfolding with_hooks
    with_hooks-Restored fn s mem obj managed d =
        finish-Restored s (fn (begin s).1).1 mem obj (During-Kept d managed)
