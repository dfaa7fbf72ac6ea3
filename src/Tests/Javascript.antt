-- ===== src/Tests/Javascript.antt =====
-- The theorems on the JavaScript of lib/ and src/pre.js at inputs that meet their hypotheses.
use node_ext2fs.Base.{
  ℕ, pos, Bool, List, [], ◌∷◌, ◌++◌, ◌==◌, ◌≡◌, ◌≤◌, refl, arith, some, replicate, ltb,
  if◌then◌else◌,
}
use node_ext2fs.Ext2.Errors.{ext2_et_base, ext2_et_file_not_found}
use node_ext2fs.Js.Calls.{code_to_errno, errno_to_code, returned, threw, ccall_throw}
use node_ext2fs.Js.Calls.Translated.{ccall_throw-translate_error}
use node_ext2fs.Js.Mounts.{Session, Fs, Answer, answered}
use node_ext2fs.Js.Objects.{Objects, no_objects, set_object, delete_object, fresh, sets, deletes}
use node_ext2fs.Js.Objects.Held.{AreFound, count, Uses-AreFound}
use node_ext2fs.Js.Paths.{use_path, strip_to}
use node_ext2fs.Js.Paths.Named.{use_path-get_filename}
use node_ext2fs.Js.Queue.{
  Requests, idle, resolved, rejected, add_operation, run_queue, settle, Runs, here, adds, settles,
}
use node_ext2fs.Js.Queue.Order.{names, IsOrderly, Runs-IsOrderly-idle, Runs-settled}
use node_ext2fs.Paths.{
  slash, get_filename, get_parent_dir_ino, string_to_inode, parent_path, strrchr,
}
use node_ext2fs.Tests.Memory.{Store, memory, find_entry, walk, step_down, find}
use node_ext2fs.Tests.World.{codes, world}
use node_ext2fs.Translate.{translate_error}
use node_ext2fs.Translate.Codes.{errno_of}

-- The request 7 throws at once.
abbrev is_seven : ℕ → Bool
is_seven r = r == 7

abbrev three_added : Requests ℕ
three_added = add_operation is_seven 2 (add_operation is_seven 7 (add_operation is_seven 1 idle))

abbrev added_Runs : Runs is_seven idle 0 (1 ∷ 7 ∷ 2 ∷ []) three_added
added_Runs = adds 2 (adds 7 (adds 1 here))

abbrev one_settled : Requests ℕ
one_settled = settle is_seven [] 1 [] resolved three_added

Runs-IsOrderly-idle_example : IsOrderly (1 ∷ 7 ∷ 2 ∷ []) one_settled
unfolding add_operation run_queue settle
Runs-IsOrderly-idle_example =
    Runs-IsOrderly-idle is_seven (settles [] 1 [] resolved added_Runs refl)

abbrev all_settled : Requests ℕ
all_settled =
    settle is_seven [] 5 [] resolved
      (settle is_seven [] 2 [] rejected (add_operation is_seven 5 one_settled))

Runs-settled_example : (rest : List ℕ) × (names all_settled.settled ≡ 1 ∷ 7 ∷ 2 ∷ rest)
unfolding add_operation run_queue settle
Runs-settled_example =
    Runs-settled is_seven added_Runs
      (settles [] 5 [] resolved
        (settles [] 2 [] rejected (adds 5 (settles [] 1 [] resolved here refl)) refl) refl)
      (omega arith)

-- Two objects, the first of which is deleted, and a third.
abbrev two_objects : Objects Bool
two_objects = (set_object (2 == 3) (set_object (2 == 2) no_objects).1).1

Uses-AreFound_example :
    AreFound (set_object (1 == 1) (delete_object 1 two_objects)).1 ((1, 1 == 1) ∷ (2, 2 == 3) ∷ [])
    × ((x : ℕ) → count x (1 ∷ 2 ∷ []) ≤ 1)
unfolding set_object delete_object
Uses-AreFound_example =
    Uses-AreFound (
      sets (1 == 1)
        (deletes ((2, 2 == 3) ∷ []) 1 (2 == 2) [] (sets (2 == 3) (sets (2 == 2) fresh))))

d_is_11 : (get_parent_dir_ino memory (codes "/d/f") world).0 ≡ 11
unfolding get_parent_dir_ino string_to_inode parent_path strrchr walk step_down find_entry find
d_is_11 = refl

use_path-get_filename_example :
    ((k : ℕ) × (codes "/d/f//" ≡ codes "/d/f" ++ replicate k slash))
    × ((name : List ℕ) × (get_filename (codes "/d/f") ≡ some name))
unfolding use_path strip_to
use_path-get_filename_example =
    use_path-get_filename memory (codes "/d/f//") (codes "/d/f") world refl
      (λ e. omega (arith, e, d_is_11))

ccall_throw-translate_error_example :
    if ltb ext2_et_file_not_found ext2_et_base
    then ccall_throw (translate_error memory 12 ext2_et_file_not_found world).0
      ≡ returned (pos ext2_et_file_not_found)
    else (code : _) × (errno_to_code code_to_errno (errno_of memory ext2_et_file_not_found).0
        ≡ some code)
      × (ccall_throw (translate_error memory 12 ext2_et_file_not_found world).0
          ≡ threw (record { errno = (errno_of memory ext2_et_file_not_found).0; code = code }))
ccall_throw-translate_error_example =
    ccall_throw-translate_error memory 12 ext2_et_file_not_found world (omega arith) (omega arith)

-- No object is held, and no file is open.
abbrev session : Session Store
session = record { world = world; objects = no_objects; open_files = [] }

abbrev answer_five : Fs → Session Store → Answer ℕ × Session Store
answer_five fs t = (answered 5, t)
