-- ===== src/Dirs/Made.antt =====
-- What `node_ext2fs_mkdir` of src/glue.c makes: a name, and a directory with the permissions asked for.
use node_ext2fs.Base.{
  ℕ, ℤ, pos, neg, ◌+◌, ◌%◌, ◌^◌, bit_and, bit_or, some, ◌==◌, ◌≡◌, ◌≢◌, sym, ap, ◌∙◌, arith,
}
use node_ext2fs.Create.Laws.{CreateLaws}
use node_ext2fs.Create.Made.{parent-view, other_children}
use node_ext2fs.Dirs.{set_dir_mode, make_dir, node_ext2fs_mkdir}
use node_ext2fs.Ext2.Errors.{eisdir, enotdir}
use node_ext2fs.Ext2.Filsys.{Bytes, Ino, World}
use node_ext2fs.Ext2.Inode.{InodeLarge}
use node_ext2fs.Ext2.Library.{Ext2fs}
use node_ext2fs.Ext2.Modes.{linux_s_ifdir, not_linux_s_ifmt}
use node_ext2fs.Laws.{InodeLaws}
use node_ext2fs.Modes.{typed_bits}
use node_ext2fs.Names.{Names, add, children}
use node_ext2fs.Names.Library.{NamesLaws}
use node_ext2fs.Paths.{get_filename, get_parent_dir_ino}
use node_ext2fs.Prog.{◌>>=◌, ◌>>◌, pure, raw, call_neg, or_exit}
use node_ext2fs.Prog.Rules.{
  Post, PostOr-call_or, Post-exit_if, Post-or_exit, Post-weaken, Post-finish,
}

pub neg-ne_zero : (e : ℕ) → e ≢ 0 → neg e ≢ pos 0
neg-ne_zero e ne = λ h. ground arith

neg-zero : (e : ℕ) → neg e ≡ pos 0 → e ≡ 0
neg-zero e h = ground arith

module _ {D : Type 0} (lib : Ext2fs D) (stored : D → Ino → InodeLarge) (view : D → Names)
    (inode_laws : InodeLaws lib stored) (laws : NamesLaws lib stored view)
    (create_laws : CreateLaws lib stored view) where
  -- A name for a new directory, and the mode of its inode.
  abbrev pub IsMadeDir : (path : Bytes) (mode : ℕ) (dir : Ino) → World D → World D → Type 0
  IsMadeDir path mode dir w v =
      (name : Bytes) × (ino : Ino) × (get_filename path ≡ some name)
      × (view v.lib ≡ add (record { dir = dir; name = name; ino = ino }) (view w.lib))
      × ((stored v.lib ino).base.i_mode ≡ linux_s_ifdir + mode % 2 ^ 12)

  abbrev IsModeSet : Ino → (mode : ℕ) → World D → ℤ → World D → Type 0
  IsModeSet ino mode w r v =
      r ≡ pos 0
      → (view v.lib ≡ view w.lib) × ((stored v.lib ino).base.i_mode ≡ linux_s_ifdir + mode % 2 ^ 12)

  set_dir_mode-IsModeSet :
      (ino : Ino) (mode : ℕ) (w : World D)
      → children ino (view w.lib) ≡ 0
      → Post (IsModeSet ino mode w) (set_dir_mode lib ino mode w)
  unfolding set_dir_mode
  set_dir_mode-IsModeSet ino mode w empty =
      let m = bit_or (bit_and mode not_linux_s_ifmt) linux_s_ifdir % 2 ^ 16 in
      PostOr-call_or (λ r. r ≢ pos 0) neg (IsModeSet ino mode w) (lib.read_inode ino)
        (λ i. raw (lib.write_inode ino (record i { i_mode = m })) >>= λ (e, _). pure (neg e)) w
        neg-ne_zero
        λ read. λ h.
          let (_, i, w₁) = lib.read_inode ino w in
          let i' = record i { i_mode = m } in
          let same = laws.read_view ino w in
          (
            create_laws.write_childless ino i' w₁ (ap (children ino) same ∙ empty) ∙ same,
            ap (λ s. s.base.i_mode)
                  (inode_laws.write_value ino i' w₁ (neg-zero (lib.write_inode ino i' w₁).0 h))
                ∙ typed_bits 4 mode (omega arith),
          )

  make_dir-IsMadeDir :
      (path : Bytes) (mode : ℕ) (dir : Ino) (name : Bytes) (w w₁ : World D)
      → get_filename path ≡ some name
      → view w₁.lib ≡ view w.lib
      → Post (λ r v. r ≡ pos 0 → IsMadeDir path mode dir w v) (make_dir lib dir name mode w₁)
  unfolding make_dir
  make_dir-IsMadeDir path mode dir name w w₁ named before =
      let Q : ℤ → World D → Type 0 = λ r v. r ≡ pos 0 → IsMadeDir path mode dir w v in
      let (_, ino, w₂) = lib.new_inode dir linux_s_ifdir w₁ in
      let (_, _, w₃) = lib.mkdir dir ino name w₂ in
      PostOr-call_or (λ r. r ≢ pos 0) neg Q (lib.new_inode dir linux_s_ifdir)
        (λ ino. call_neg (lib.mkdir dir ino name) >> set_dir_mode lib ino mode) w₁ neg-ne_zero
        λ okay.
          let (other, empty, _) = create_laws.new_inode_free dir linux_s_ifdir w₁ okay in
          let same = create_laws.new_inode_view dir linux_s_ifdir w₁ ∙ before in
          PostOr-call_or (λ r. r ≢ pos 0) neg Q (lib.mkdir dir ino name)
            (λ _. set_dir_mode lib ino mode) w₂ neg-ne_zero
            λ made.
              let adds : view w₃.lib
                  ≡ add (record { dir = dir; name = name; ino = ino }) (view w.lib) =
                create_laws.mkdir_adds dir ino name w₂ made ∙ ap (add _) same in
              let childless : children ino (view w₃.lib) ≡ 0 =
                ap (children ino) adds
                ∙ other_children dir name ino (view w.lib) other
                    (ap (children ino) (sym before) ∙ empty) in
              Post-weaken (IsModeSet ino mode w₃) Q (set_dir_mode lib ino mode w₃)
                (set_dir_mode-IsModeSet ino mode w₃ childless)
                λ r v set zero.
                  let (kept, stored_mode) = set zero in (name, ino, named, kept ∙ adds, stored_mode)

  -- If making a directory returns 0, the names are those that there were and the last part of the path
  -- in its directory, and the inode of that name is a directory with the low twelve bits of the mode.
  -- It assumes the laws on inodes, names and new inodes (InodeLaws, NamesLaws, CreateLaws).
  pub node_ext2fs_mkdir-IsMadeDir :
      (path : Bytes) (mode : ℕ) (w : World D)
      → (node_ext2fs_mkdir lib path mode w).0 ≡ pos 0
      → IsMadeDir path mode
          (get_parent_dir_ino lib path w).0
          w
          (node_ext2fs_mkdir lib path mode w).1
  unfolding node_ext2fs_mkdir
  node_ext2fs_mkdir-IsMadeDir path mode w h =
      let (parent, w₁) = get_parent_dir_ino lib path w in
      let Q : ℤ → World D → Type 0 = λ r v. r ≡ pos 0 → IsMadeDir path mode parent w v in
      Post-finish Q _
        (Post-exit_if Q (parent == 0) (neg enotdir)
          (or_exit (get_filename path) (neg eisdir) >>= λ name. make_dir lib parent name mode) w₁
          (neg-ne_zero enotdir (λ e. omega arith))
          λ there.
            Post-or_exit Q (get_filename path) (neg eisdir) (λ name. make_dir lib parent name mode)
              w₁ (neg-ne_zero eisdir (λ e. omega arith))
              λ name named.
                make_dir-IsMadeDir path mode parent name w w₁ named
                  (parent-view lib stored view create_laws path w))
        h h
