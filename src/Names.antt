-- ===== src/Names.antt =====
-- What the functions of src/glue.c do to the names of a filesystem: its directory entries, but for
-- `.` and `..`, without the order in which the directories hold them.
pub mod Library
pub mod Keeps
pub mod Linking
pub mod Removing
pub mod Renaming
pub mod Replaced
pub mod Moved
pub mod RemovingDirs
pub mod Agreement
use mathlib.Core.Quot
use mathlib.Core.Quot.{Quot, Quot-set}
use native.Mathlib.Nat.{ℕ_set}
use node_ext2fs.Base.{
  ℕ, ◌+◌, Bool, true, false, List, [], ◌∷◌, ◌≡◌, refl, ap, arith, ◌==◌, if◌then◌else◌,
}
use node_ext2fs.Ext2.Filsys.{Bytes, Ino}

-- A name in a directory, and the inode number that it stands for.
pub record Name : Type 0 where
  pub dir : Ino
  pub name : Bytes
  pub ino : Ino

-- How many names pass a test.
abbrev pub count : (Name → Bool) → List Name → ℕ
count p [] = 0
count p (x ∷ xs) = (if p x then 1 else 0) + count p xs

-- No test can tell the two lists apart by counting.
abbrev pub SameNames : List Name → List Name → Type 0
SameNames xs ys = (p : Name → Bool) → count p xs ≡ count p ys

abbrev pub Names : Type 0
Names = Quot SameNames

abbrev pub of_list : List Name → Names
of_list = Quot.mk

unfoldable pub counted : (Name → Bool) → Names → ℕ
counted p = Quot.lift ℕ_set (count p) (λ xs ys h. h p)

unfoldable pub add : Name → Names → Names
add x =
    Quot.lift Quot-set (λ xs. of_list (x ∷ xs)) (λ xs ys h. Quot.sound (λ p. omega (arith, h p)))

pub counted-add :
    (p : Name → Bool) (x : Name) (n : Names)
    → counted p (add x n) ≡ (if p x then 1 else 0) + counted p n
unfolding counted add
counted-add p x = Quot.ind (λ n. ℕ_set _ _) (λ xs. refl)

pub add_comm : (x y : Name) (n : Names) → add x (add y n) ≡ add y (add x n)
unfolding add
add_comm x y = Quot.ind (λ n. Quot-set _ _) (λ xs. Quot.sound (λ p. omega arith))

-- Namespaces that every test counts alike are equal.
pub Names-ext : (n m : Names) → ((p : Name → Bool) → counted p n ≡ counted p m) → n ≡ m
unfolding counted
Names-ext = Quot.ind (λ _. hlevel Quot-set) λ xs. Quot.ind (λ _. hlevel Quot-set) λ ys. Quot.sound

-- A name that was added can be taken away again.
pub add_cancel : (x : Name) (n m : Names) → add x n ≡ add x m → n ≡ m
add_cancel x n m e =
    Names-ext n m λ p. omega (arith, counted-add p x n, counted-add p x m, ap (counted p) e)

-- How many names stand for an inode, and how many stand in a directory.
abbrev pub refs : Ino → Names → ℕ
refs j = counted λ x. x.ino == j

abbrev pub children : Ino → Names → ℕ
children dir = counted λ x. x.dir == dir
