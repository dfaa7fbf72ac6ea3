-- ===== src/Js/Hooks/Ids.antt =====
-- lib/util.js: lemmas on the heap, on the objects that a call deletes, and on the ids of the hooks.
use mathlib.Core.Path.{subst}
use node_ext2fs.Base.{
  ℕ, ◌+◌, ◌-◌, ◌≤◌, ◌<◌, List, [], ◌∷◌, ◌++◌, ◌==◌, ◌≡◌, ◌≢◌, refl, sym, ap, arith, if◌then◌else◌,
}
use node_ext2fs.Js.Hooks.{Heap, Hooks, get_hook_id, delete_all, free_all}
use node_ext2fs.Js.Objects.{Objects, delete_object, Uses, deletes}
use node_ext2fs.Js.Objects.Held.{count, ids}

-- What is assumed of the heap: how often an address is in use. `malloc` adds one use of the address that
-- it gives, and `free` takes one away.
pub record HeapLaws {M : Type 0} (c : Heap M) (live : M → ℕ → ℕ) : Type 0 where
  pub malloc_live :
      (n : ℕ) (m : M) (p : ℕ)
      → live (c.malloc n m).1 p ≡ live m p + (if p == (c.malloc n m).0 then 1 else 0)
  pub free_live :
      (a : ℕ) (m : M) (p : ℕ) → live (c.free a m) p ≡ live m p - (if p == a then 1 else 0)

pub free_all-live :
    {M : Type 0} (c : Heap M) (live : M → ℕ → ℕ)
    → HeapLaws c live
    → (ps : List ℕ) (m : M) (p : ℕ) → live (free_all c ps m) p ≡ live m p - count p ps
free_all-live c live laws [] m p = omega arith
free_all-live c live laws (a ∷ ps) m p =
    omega (arith, free_all-live c live laws ps (c.free a m) p, laws.free_live a m p)

-- The objects that a call has set, the last one first, and those that were held before.
abbrev pub on_top : {A : Type 0} → List (ℕ × A) → List (ℕ × A) → List (ℕ × A)
on_top [] held = held
on_top (o ∷ os) held = on_top os (o ∷ held)

pub on_top-append : {A : Type 0} (os held : List (ℕ × A)) → on_top os held ≡ on_top os [] ++ held
on_top-append os held = above os [] held
  where
    above :
        {A : Type 0} (os low held : List (ℕ × A)) → on_top os (low ++ held) ≡ on_top os low ++ held
    above [] low held = refl
    above (o ∷ os) low held = above os (o ∷ low) held

pub on_top-last :
    {A : Type 0} (os : List (ℕ × A)) (o : ℕ × A) (held : List (ℕ × A))
    → on_top (os ++ o ∷ []) held ≡ o ∷ on_top os held
on_top-last [] o held = refl
on_top-last (x ∷ os) o held = on_top-last os o (x ∷ held)

pub delete_all-Uses :
    {A : Type 0} (os held : List (ℕ × A)) (s : Objects A)
    → Uses (on_top os held) s
    → Uses held (delete_all (ids os) s)
delete_all-Uses [] held s uses = uses
delete_all-Uses ((id, a) ∷ os) held s uses = delete_all-Uses os held (delete_object id s) (
    subst (λ h. Uses h (delete_object id s)) (sym (on_top-append os held))
      (deletes (on_top os []) id a held
        (subst (λ h. Uses h s) (on_top-append os ((id, a) ∷ held)) uses)))

pub ids-last :
    {A : Type 0} (os : List (ℕ × A)) (id : ℕ) (a : A) → ids (os ++ (id, a) ∷ []) ≡ ids os ++ id ∷ []
ids-last [] id a = refl
ids-last ((j, b) ∷ os) id a = ap (λ t. j ∷ t) (ids-last os id a)

module _ {A M : Type 0} where
  -- No hook id is free twice, and a free one has been given before.
  abbrev pub IsManaged : Hooks A M → Type 0
  IsManaged s = (x : ℕ) → (count x s.ids ≤ 1) × (0 < count x s.ids → x < s.id)

  -- A hook id that a call has.
  abbrev pub IsTaken : ℕ → Hooks A M → Type 0
  IsTaken h s = (h < s.id) × (count h s.ids ≡ 0)

  -- What a call that has ended leaves of the hooks of the calls around it.
  abbrev pub Others : Hooks A M → Hooks A M → Type 0
  Others s t =
      (j : ℕ)
      → IsTaken j s
      → IsTaken j t × (t.obj_ids j ≡ s.obj_ids j) × (t.mem_addrs j ≡ s.mem_addrs j)

  pub record Fresh (h : ℕ) (s t : Hooks A M) : Type 0 where
    pub taken : IsTaken h t
    pub managed : IsManaged t
    pub others : (j : ℕ) → IsTaken j s → IsTaken j t × (j ≢ h)
    pub same :
        (t.obj_ids ≡ s.obj_ids)
        × (t.mem_addrs ≡ s.mem_addrs)
        × (t.heap ≡ s.heap)
        × (t.objects ≡ s.objects)

  pub get_hook_id-Fresh :
      (s : Hooks A M) → IsManaged s → Fresh (get_hook_id s).0 s (get_hook_id s).1
  get_hook_id-Fresh s managed = by_ids s.ids managed
    where
      by_ids :
          (free : List ℕ)
          → IsManaged (record s { ids = free })
          → let t : Hooks A M = record s { ids = free } in
            Fresh (get_hook_id t).0 t (get_hook_id t).1
      by_ids [] managed = record {
        taken = (omega arith, refl);
        managed = λ x. (omega arith, λ some_free. absurd (omega (arith, some_free)));
        others = λ j taken. ((omega (arith, taken.0), refl), λ same. ground arith);
        same = (refl, refl, refl, refl);
      }
      by_ids (x ∷ rest) managed = record {
        taken = ((managed x).1 (ground arith), ground (arith, (managed x).0));
        managed = λ y. (ground (arith, (managed y).0), λ some_free. (managed y).1 (ground arith));
        others = λ j taken. ((taken.0, ground (arith, taken.1)), λ same. ground (arith, taken.1));
        same = (refl, refl, refl, refl);
      }
