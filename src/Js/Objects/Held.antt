-- ===== src/Js/Objects/Held.antt =====
-- No two objects that are held have the same number, and each is found by its number.
use node_ext2fs.Base.{
  ℕ, ◌+◌, ◌≤◌, ◌<◌, ◌⊎◌, some, List, [], ◌∷◌, ◌++◌, ◌==◌, if◌then◌else◌, ◌≡◌, ◌≢◌, refl, ap, ◌∙◌,
  arith, inl, inr, ==-false, ==-true,
}
use node_ext2fs.Js.Objects.{Objects, reserve_id, set_object, get_object, delete_object, Uses}
use node_ext2fs.Js.Objects.Uses.{fresh, sets, deletes}

-- How often a number stands in a list.
abbrev pub count : ℕ → List ℕ → ℕ
count x [] = 0
count x (y ∷ ys) = (if x == y then 1 else 0) + count x ys

abbrev pub ids : {A : Type 0} → List (ℕ × A) → List ℕ
ids [] = []
ids ((id, obj) ∷ held) = id ∷ ids held

-- Each object that is held is found by its number.
abbrev pub AreFound : {A : Type 0} → Objects A → List (ℕ × A) → Type 0
AreFound s [] = Unit
AreFound s ((id, obj) ∷ held) = (get_object id s ≡ some obj) × AreFound s held

-- No number is held twice, in the pool twice, or both; and none is above `next_id`.
abbrev IsPartition : {A : Type 0} → Objects A → List (ℕ × A) → Type 0
IsPartition s held =
    (x : ℕ)
    → (count x (ids held) + count x s.id_pool ≤ 1)
      × (0 < count x (ids held) + count x s.id_pool → x ≤ s.next_id)

pub count-append : (x : ℕ) (xs ys : List ℕ) → count x (xs ++ ys) ≡ count x xs + count x ys
count-append x [] ys = omega arith
count-append x (y ∷ xs) ys = omega (arith, count-append x xs ys)

count-ids :
    {A : Type 0} (x id : ℕ) (obj : A) (before after : List (ℕ × A))
    → count x (ids (before ++ (id, obj) ∷ after))
      ≡ (if x == id then 1 else 0) + count x (ids (before ++ after))
count-ids x id obj [] after = refl
count-ids x id obj ((j, o) ∷ before) after = omega (arith, count-ids x id obj before after)

pub List-cases : (xs : List ℕ) → (xs ≡ []) ⊎ ((y : ℕ) × (ys : List ℕ) × (xs ≡ y ∷ ys))
List-cases [] = inl refl
List-cases (y ∷ ys) = inr (y, ys, refl)

-- A number that is not among those of a list is that of none of its objects.
AreFound-other :
    {A : Type 0} (s t : Objects A) (id : ℕ) (held : List (ℕ × A))
    → ((j : ℕ) → j ≢ id → t.objects j ≡ s.objects j)
    → count id (ids held) ≡ 0
    → AreFound s held
    → AreFound t held
AreFound-other s t id [] keeps apart h = tt
AreFound-other s t id ((j, o) ∷ held) keeps apart (found, h) =
    let other : j ≢ id = λ e. ground arith in
    (keeps j other ∙ found, AreFound-other s t id held keeps (omega arith) h)

AreFound-without :
    {A : Type 0} (s : Objects A) (before : List (ℕ × A)) (id : ℕ) (obj : A) (after : List (ℕ × A))
    → AreFound s (before ++ (id, obj) ∷ after)
    → AreFound s (before ++ after)
AreFound-without s [] id obj after h = h.1
AreFound-without s ((j, o) ∷ before) id obj after h =
    (h.0, AreFound-without s before id obj after h.1)

module _ {A : Type 0} where
  reserve_id-objects : (s : Objects A) (j : ℕ) → (reserve_id s).1.objects j ≡ s.objects j
  reserve_id-objects s j = elim (List-cases s.id_pool) [
    | inl empty ↦ rw empty refl
    | inr (id, rest, some_id) ↦ rw some_id refl
  ]

  set_object-IsPartition :
      (obj : A) (s : Objects A) (held : List (ℕ × A))
      → IsPartition s held
      → IsPartition (set_object obj s).1 (((set_object obj s).0, obj) ∷ held)
  unfolding set_object
  set_object-IsPartition obj s held h x = elim (List-cases s.id_pool) [
    | inl empty ↦ let (once, low) = h x in rw empty (ground arith)
    | inr (id, rest, some_id) ↦
        let (once, low) = h x in
        let split = ap (count x) some_id in rw some_id (omega arith, λ some. low (omega arith))
  ]

  delete_object-IsPartition :
      (s : Objects A) (before : List (ℕ × A)) (id : ℕ) (obj : A) (after : List (ℕ × A))
      → IsPartition s (before ++ (id, obj) ∷ after)
      → IsPartition (delete_object id s) (before ++ after)
  unfolding delete_object
  delete_object-IsPartition s before id obj after h x =
      let (once, low) = h x in
      let one = count-ids x id obj before after in
      let more = count-append x s.id_pool (id ∷ []) in (omega arith, λ some. low (omega arith))

  -- The number that `setObject` takes is held by no object.
  set_object-count :
      (obj : A) (s : Objects A) (held : List (ℕ × A))
      → IsPartition s held
      → count (set_object obj s).0 (ids held) ≡ 0
  set_object-count obj s held h =
      let (once, _) = set_object-IsPartition obj s held h (set_object obj s).0 in
      ground (arith, ==-true (set_object obj s).0 (set_object obj s).0 refl)

  Uses-IsHeld :
      {held : List (ℕ × A)} {s : Objects A} → Uses held s → IsPartition s held × AreFound s held
  unfolding set_object delete_object
  Uses-IsHeld fresh = (λ x. (omega arith, λ h. absurd (omega arith)), tt)
  Uses-IsHeld (sets {held} {s} obj uses) =
      let (parts, found) = Uses-IsHeld uses in
      let (id, t) = set_object obj s in
      (
        set_object-IsPartition obj s held parts,
        (
          rw (==-true id id refl) refl,
          AreFound-other s t id held (λ j other. rw (==-false j id other) (reserve_id-objects s j))
              (set_object-count obj s held parts) found,
        ),
      )
  Uses-IsHeld (deletes {s} before id obj after uses) =
      let (parts, found) = Uses-IsHeld uses in
      let (once, _) = parts id in
      let one = count-ids id id obj before after in
      (
        delete_object-IsPartition s before id obj after parts,
        AreFound-other s (delete_object id s) id (before ++ after)
            (λ j ne. rw (==-false j id ne) refl) (ground arith)
            (AreFound-without s before id obj after found),
      )

  -- After any sequence of calls of `setObject`, and of `deleteObject` on a number that is held: each
  -- object that is held is found by its number, and no number is held twice.
  pub Uses-AreFound :
      {held : List (ℕ × A)} {s : Objects A}
      → Uses held s
      → AreFound s held × ((x : ℕ) → count x (ids held) ≤ 1)
  Uses-AreFound uses =
      let (parts, found) = Uses-IsHeld uses in (found, λ x. let (once, _) = parts x in omega arith)
