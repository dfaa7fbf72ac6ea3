-- ===== src/Js/Objects.antt =====
-- src/pre.js: the objects of JavaScript that C refers to by a number, and the pool of numbers.
pub mod Held
use node_ext2fs.Base.{ℕ, ◌+◌, Option, none, some, List, [], ◌∷◌, ◌++◌, ◌==◌, if◌then◌else◌, ◌≡◌}

-- `objects`, `nextId` and `idPool`.
pub record Objects (A : Type 0) : Type 0 where
  pub objects : ℕ → Option A
  pub next_id : ℕ
  pub id_pool : List ℕ

abbrev pub no_objects : {A : Type 0} → Objects A
no_objects = record { objects = λ id. none; next_id = 0; id_pool = [] }

module _ {A : Type 0} where
  -- An empty pool gets the next number first.
  abbrev pub reserve_id : Objects A → ℕ × Objects A
  reserve_id s = elim s.id_pool [
    | [] ↦ (s.next_id + 1, record s { next_id = s.next_id + 1 })
    | id ∷ rest ↦ (id, record s { id_pool = rest })
  ]

  abbrev pub release_id : ℕ → Objects A → Objects A
  release_id id s = record s { id_pool = s.id_pool ++ id ∷ [] }

  unfoldable pub set_object : A → Objects A → ℕ × Objects A
  set_object obj s =
      let (id, s') = reserve_id s in
      (id, record s' { objects = λ j. if j == id then some obj else s'.objects j })

  abbrev pub get_object : ℕ → Objects A → Option A
  get_object id s = s.objects id

  unfoldable pub delete_object : ℕ → Objects A → Objects A
  delete_object id s =
      release_id id (record s { objects = λ j. if j == id then none else s.objects j })

  -- The numbers and objects that are held after some calls: each object that is set is held, until
  -- its number is deleted.
  pub data Uses : List (ℕ × A) → Objects A → Type 0 where
    fresh : Uses [] no_objects
    sets :
        {held : List (ℕ × A)} {s : Objects A} (obj : A)
        → Uses held s
        → Uses (((set_object obj s).0, obj) ∷ held) (set_object obj s).1
    deletes :
        {s : Objects A} (before : List (ℕ × A)) (id : ℕ) (obj : A) (after : List (ℕ × A))
        → Uses (before ++ (id, obj) ∷ after) s
        → Uses (before ++ after) (delete_object id s)
