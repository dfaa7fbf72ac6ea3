-- ===== src/Js/Hooks.antt =====
-- lib/util.js: the hooks, which free the buffers and delete the objects of a call at its end. A call runs
-- to its end before another one begins, unless it makes that call itself.
pub mod Ids
pub mod Freed
use node_ext2fs.Base.{ℕ, ◌+◌, Option, none, some, List, [], ◌∷◌, ◌++◌, ◌==◌, if◌then◌else◌}
use node_ext2fs.Js.Objects.{Objects, set_object, delete_object}

-- `malloc_from_js` and `free_from_js`, over the state `M` of the heap.
pub record Heap (M : Type 0) : Type 0 where
  pub malloc : (length : ℕ) → M → ℕ × M
  pub free : (address : ℕ) → M → M

-- `hookId`, the manager of hook ids (`id` and `ids`), `objIds` and `memAddrs`, with an empty list for a
-- key that a map does not have; the objects of src/pre.js; and the heap of C.
pub record Hooks (A M : Type 0) : Type 0 where
  pub hook_id : Option ℕ
  pub id : ℕ
  pub ids : List ℕ
  pub obj_ids : ℕ → List ℕ
  pub mem_addrs : ℕ → List ℕ
  pub objects : Objects A
  pub heap : M

abbrev pub update : {B : Type 0} → ℕ → B → (ℕ → B) → ℕ → B
update k b f j = if j == k then b else f j

-- `for (const objId of objIds.get(_hookId)) Module.deleteObject(objId);`
abbrev pub delete_all : {A : Type 0} → List ℕ → Objects A → Objects A
delete_all [] o = o
delete_all (id ∷ ids) o = delete_all ids (delete_object id o)

-- `memAddrs.get(_hookId).map(free)`
abbrev pub free_all : {M : Type 0} → Heap M → List ℕ → M → M
free_all c [] m = m
free_all c (p ∷ ps) m = free_all c ps (c.free p m)

module _ {A M : Type 0} where
  -- `getId`
  abbrev pub get_hook_id : Hooks A M → ℕ × Hooks A M
  get_hook_id s = elim s.ids [
    | [] ↦ (s.id, record s { id = s.id + 1 })
    | id ∷ rest ↦ (id, record s { ids = rest })
  ]

  -- `releaseId`
  abbrev pub release_hook_id : ℕ → Hooks A M → Hooks A M
  release_hook_id id s = record s { ids = s.ids ++ id ∷ [] }

  -- `withHooks` up to the call of the function.
  unfoldable pub begin : Hooks A M → ℕ × Hooks A M
  begin s =
      let (hook, s') = get_hook_id s in
      (
        hook,
        record s' {
          hook_id = some hook;
          obj_ids = update hook [] s'.obj_ids;
          mem_addrs = update hook [] s'.mem_addrs;
        },
      )

  -- `useObject`: the object is set before `curHookId` throws, where it does.
  abbrev pub object_used : ℕ × Objects A → Hooks A M → Option ℕ → Option ℕ × Hooks A M
  object_used (id, objects) s none = (none, record s { objects = objects })
  object_used (id, objects) s (some hook) = (
    some id,
    record s { objects = objects; obj_ids = update hook (s.obj_ids hook ++ id ∷ []) s.obj_ids },
  )

  unfoldable pub use_object : A → Hooks A M → Option ℕ × Hooks A M
  use_object obj s = object_used (set_object obj s.objects) s s.hook_id

  -- `useBuffer`, where `curHookId` throws without a hook; `malloced` is what `malloc` gives.
  abbrev pub buffer_used : ℕ × M → Hooks A M → Option ℕ → Option ℕ × Hooks A M
  buffer_used malloced s none = (none, s)
  buffer_used (pointer, heap) s (some hook) = (
    some pointer,
    record s {
      heap = heap;
      mem_addrs = update hook (s.mem_addrs hook ++ pointer ∷ []) s.mem_addrs;
    },
  )

module _ {A M : Type 0} (c : Heap M) where
  unfoldable pub use_buffer : (length : ℕ) → Hooks A M → Option ℕ × Hooks A M
  use_buffer n s = buffer_used (c.malloc n s.heap) s s.hook_id

  -- The `finally` of `withHooks`.
  unfoldable pub finish : (hook : ℕ) → (old : Option ℕ) → Hooks A M → Hooks A M
  finish hook old s = release_hook_id hook (record s {
    objects = delete_all (s.obj_ids hook) s.objects;
    heap = free_all c (s.mem_addrs hook) s.heap;
    obj_ids = update hook [] s.obj_ids;
    mem_addrs = update hook [] s.mem_addrs;
    hook_id = old;
  })

  unfoldable pub with_hooks : {R : Type 0} → (Hooks A M → R × Hooks A M) → Hooks A M → R × Hooks A M
  with_hooks fn s = let (hook, s₁) = begin s in let (r, s₂) = fn s₁ in (r, finish hook s.hook_id s₂)

-- What the function of a call has done since its beginning in the state `start`: the addresses and the
-- objects, with their numbers, that it uses, and the state.
pub data During {A M : Type 0} (c : Heap M)
    : (start : Hooks A M) → List ℕ → List (ℕ × A) → Hooks A M → Type 0 where
  begun : (start : Hooks A M) → During c start [] [] (begin start).1
  buffers :
      {start s : Hooks A M} {mem : List ℕ} {obj : List (ℕ × A)} (length : ℕ)
      → During c start mem obj s
      → During c start (mem ++ (c.malloc length s.heap).0 ∷ []) obj (use_buffer c length s).1
  objects :
      {start s : Hooks A M} {mem : List ℕ} {obj : List (ℕ × A)} (a : A)
      → During c start mem obj s
      → During c start mem (obj ++ ((set_object a s.objects).0, a) ∷ []) (use_object a s).1
  calls :
      {start s s' : Hooks A M} {mem mem' : List ℕ} {obj obj' : List (ℕ × A)}
      → During c start mem obj s
      → During c s mem' obj' s'
      → During c start mem obj (finish c (begin s).0 s.hook_id s')
