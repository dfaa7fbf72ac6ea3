-- ===== src/Files/Guards.antt =====
-- The guards of `node_ext2fs_open`, and a flush that fails in `node_ext2fs_write`.
use node_ext2fs.Base.{
  ℕ, ℤ, neg, signed32, is_neg, refl, Bool-cases, inl, inr, Bool, true, false, not, ◌&&◌, ◌||◌,
  bit_or, ◌≡◌, ◌∙◌, ◌⊎◌, arith, ◌==◌, if◌then◌else◌,
}
use node_ext2fs.Create.{create_file}
use node_ext2fs.Ext2.Filsys.{Bytes, Ino, World}
use node_ext2fs.Ext2.Library.{Ext2fs}
use node_ext2fs.Ext2.Modes.{
  has, o_wronly, o_rdwr, o_creat, o_excl, o_directory, o_nofollow, o_trunc, o_append,
}
use node_ext2fs.Files.{
  translate_open_flags, open_inode, node_ext2fs_open, node_ext2fs_write, no_position,
}
use node_ext2fs.Ext2.Errors.{enotdir}
use node_ext2fs.Prog.{Prog, ◌>>=◌, ◌>>◌, on, pure, call_or, call_neg}
use node_ext2fs.Prog.Rules.{
  IsError, neg-IsError, PostOr, PostOr-bind, PostOr-on, PostOr-call_or, PostOr-call_or_last,
  PostOr-finish,
}
use node_ext2fs.Paths.{string_to_inode}

without_error : (P : Type 0) (r : ℤ) → IsError r ⊎ P → is_neg r ≡ false → P
without_error P r (inl failed) h = absurd (cc)
without_error P r (inr p) h = p

module _ {D : Type 0} (lib : Ext2fs D) (w : World D) where
  -- What lets a path be opened: it is found and `O_EXCL` is not given, or it is not found, `O_CREAT` is
  -- given and the file can be created; and with `O_DIRECTORY` the inode is a directory.
  abbrev pub may_open : Bytes → (flags mode : ℕ) → Bool
  may_open path flags mode =
      let (found, w₁) = string_to_inode lib path (not (has flags o_nofollow)) w in
      let (e, created, w₂) = create_file lib path mode w₁ in
      let directory = has flags o_directory in
      if found == 0
      then has flags o_creat && e == 0 && (not directory || (lib.check_directory created w₂).0 == 0)
      else not (has flags o_excl) && (not directory || (lib.check_directory found w₁).0 == 0)

  -- What is left of the guards behind `open_inode`.
  abbrev passes_directory : (flags ino : ℕ) → World D → Bool
  passes_directory flags ino w' = not (has flags o_directory) || (lib.check_directory ino w').0 == 0

  open_inode-may_open :
      (path : Bytes) (flags mode : ℕ)
      → let (found, w₁) = string_to_inode lib path (not (has flags o_nofollow)) w in
        PostOr IsError
          (λ ino w'. may_open path flags mode ≡ passes_directory flags ino w')
          (open_inode lib path flags mode found w₁)
  unfolding open_inode
  open_inode-may_open path flags mode =
      let (found, w₁) = string_to_inode lib path (not (has flags o_nofollow)) w in
      let (e, created, w₂) = create_file lib path mode w₁ in
      elim (Bool-cases (found == 0)) [
        | inl missing ↦ elim (Bool-cases (has flags o_creat)) [
          | inl creat ↦
              rw (missing, creat)
                (PostOr-call_or_last IsError neg
                  (λ ino w'.
                    (e == 0 && passes_directory flags created w₂) ≡ passes_directory flags ino w')
                  (create_file lib path mode) w₁ neg-IsError (λ okay. ground (arith, okay)))
          | inr no_creat ↦ rw (missing, no_creat) refl
        ]
        | inr there ↦ elim (Bool-cases (has flags o_excl)) [
          | inl excl ↦ rw (there, excl) refl
          | inr no_excl ↦ rw (there, no_excl) refl
        ]
      ]

  -- The statements of `node_ext2fs_open` behind the test for a directory.
  abbrev open_handle : (flags ino : ℕ) → Prog D ℤ
  open_handle flags ino = do
    file ← call_neg (lib.file_open ino (translate_open_flags flags))
    on (has flags o_trunc) (call_neg (lib.file_set_size2 file 0))
    pure (signed32 file)

  open_handle-IsError :
      (P : Type 0) (flags ino : ℕ) (w' : World D)
      → P
      → PostOr IsError (λ _ _. P) (open_handle flags ino w')
  open_handle-IsError P flags ino w' p =
      let open_ino = lib.file_open ino (translate_open_flags flags) in
      let truncate : ℕ → Prog D (Unit {0}) =
        λ file. on (has flags o_trunc) (call_neg (lib.file_set_size2 file 0)) in
      PostOr-call_or IsError neg (λ _ _. P) open_ino (λ file. truncate file >> pure (signed32 file))
        w' neg-IsError
        λ _.
          let (_, file, v) = open_ino w' in
          PostOr-bind IsError (λ _ _. P) (λ _ _. P) (truncate file v) (λ _. pure (signed32 file))
            (PostOr-on IsError (λ _ _. P) (has flags o_trunc) (call_neg (lib.file_set_size2 file 0))
              v
              (λ _.
                PostOr-call_or_last IsError neg (λ _ _. P) (lib.file_set_size2 file 0) v neg-IsError
                  (λ _. p))
              (λ _. p))
            (λ _ _ q. q)

  -- Where the inode does not pass the test for a directory, an error is returned.
  test_directory :
      (flags ino : ℕ) (w' : World D)
      → PostOr IsError
          (λ _ _. passes_directory flags ino w' ≡ true)
          (on
            (has flags o_directory)
            (call_or (λ e w. (neg enotdir, w)) (lib.check_directory ino))
            w')
  test_directory flags ino w' =
      PostOr-on IsError (λ _ _. passes_directory flags ino w' ≡ true) (has flags o_directory)
        (call_or (λ e w. (neg enotdir, w)) (lib.check_directory ino)) w'
        (λ asked.
          PostOr-call_or_last IsError (λ _. neg enotdir)
            (λ _ _. passes_directory flags ino w' ≡ true) (lib.check_directory ino) w' (λ _ _. refl)
            (λ okay. ground (arith, okay)))
        (λ not_asked. ground arith)

  -- If opening a path returns no error, then the path was found and `O_EXCL` was not given, with
  -- `O_CREAT` or without it, or it was not found, `O_CREAT` was given and the file was created; and if
  -- `O_DIRECTORY` was given, the inode that was found or created has passed the test for a directory.
  pub node_ext2fs_open-may_open :
      (path : Bytes) (flags mode : ℕ)
      → is_neg (node_ext2fs_open lib path flags mode w).0 ≡ false
      → may_open path flags mode ≡ true
  unfolding node_ext2fs_open
  node_ext2fs_open-may_open path flags mode h =
      let allowed : Type 0 = may_open path flags mode ≡ true in
      let (found, w₁) = string_to_inode lib path (not (has flags o_nofollow)) w in
      let test : Ino → Prog D (Unit {0}) = λ ino.
        on (has flags o_directory) (call_or (λ e w. (neg enotdir, w)) (lib.check_directory ino)) in
      let rest : Ino → Prog D ℤ = λ ino. test ino >> open_handle flags ino in
      let ended =
        PostOr-bind IsError (λ ino w'. may_open path flags mode ≡ passes_directory flags ino w')
          (λ _ _. allowed) (open_inode lib path flags mode found w₁) rest
          (open_inode-may_open path flags mode)
          (λ ino w' same.
            PostOr-bind IsError (λ _ _. passes_directory flags ino w' ≡ true) (λ _ _. allowed)
              (test ino w') (λ _. open_handle flags ino) (test_directory flags ino w')
              (λ _ v passed. open_handle-IsError allowed flags ino v (same ∙ passed))) in
      let body = open_inode lib path flags mode found >>= rest in
      without_error allowed (node_ext2fs_open lib path flags mode w).0
        (PostOr-finish IsError (λ _. allowed) (body w₁) ended) h

  -- Without `O_APPEND` and `O_CREAT` and at the current position, a write to a file open for
  -- writing that stores `n` bytes returns `n`, as a 32-bit number with a sign, whether or not flushing
  -- them succeeds.
  pub node_ext2fs_write-flush :
      (file flags buffer length : ℕ)
      → has flags (bit_or o_wronly o_rdwr) ≡ true
      → has flags o_append ≡ false
      → has flags o_creat ≡ false
      → (lib.file_write file buffer length w).0 ≡ 0
      → (node_ext2fs_write lib file flags buffer length no_position w).0
        ≡ signed32 (lib.file_write file buffer length w).1
  unfolding node_ext2fs_write
  node_ext2fs_write-flush file flags buffer length p q r s = ground arith
