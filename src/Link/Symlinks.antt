-- ===== src/Link/Symlinks.antt =====
-- What `node_ext2fs_symlink` of src/glue.c makes: a name, and an inode with the target.
pub mod Read
use node_ext2fs.Base.{
  ℕ, ℤ, pos, neg, ◌≤◌, ◌⊎◌, some, not, ◌++◌, [], ◌∷◌, length, replicate, true, ◌==◌, ◌≡◌, ◌≢◌, ap,
  sym, ◌∙◌, arith, Bool-cases, eq_of_==, inl, inr,
}
use mathlib.Core.Option.{some_inj}
use mathlib.Core.Path.{subst}
use node_ext2fs.Dirs.Made.{neg-ne_zero}
use node_ext2fs.Ext2.Errors.{ext2_et_dir_no_space, enomem}
use node_ext2fs.Ext2.Filsys.{Bytes, Ino, World}
use node_ext2fs.Ext2.Inode.{Inode, InodeLarge}
use node_ext2fs.Ext2.Library.{Ext2fs}
use node_ext2fs.Ext2.Modes.{ext2_root_ino, linux_s_islnk}
use node_ext2fs.Create.Laws.{SameLinks, OtherLinks}
use node_ext2fs.Laws.{InodeLaws, NameLaws, links}
use node_ext2fs.Link.{symlink_expanding, node_ext2fs_symlink}
use node_ext2fs.Link.Counts.{parent_found}
use node_ext2fs.Link.Laws.{IsTarget, IsLinked, SymlinkLaws}
use node_ext2fs.Link.Linked.{
  IsLinked-after, IsLinked-before, symlink_expanding-IsLinked, written_back-keeps,
  written_back-view,
}
use node_ext2fs.Link.Target.{words}
use node_ext2fs.Names.{Names, add, refs}
use node_ext2fs.Names.Keeps.{update_mtime-view, write_back, read_full-SameData}
use node_ext2fs.Names.Library.{NamesLaws}
use node_ext2fs.Paths.{slash, strrchr}
use node_ext2fs.Prog.{Prog, or_exit, ◌>>=◌, ◌>>◌, pure, unless_zero}
use node_ext2fs.Prog.Rules.{
  Post, Post-unless_zero, Post-exit_if, Post-or_exit, Post-call_translate, Post-finish,
}
use node_ext2fs.Times.{update_mtime}
use node_ext2fs.Times.Stored.{update_mtime-keeps, update_mtime-links}
use node_ext2fs.Translate.{call_translate}
use node_ext2fs.Translate.Codes.{ErrnoLaws}

module _ {D : Type 0} (lib : Ext2fs D) (stored : D → Ino → InodeLarge) (view : D → Names)
    (inode_laws : InodeLaws lib stored) (laws : NamesLaws lib stored view) (errno : ErrnoLaws lib)
    (symlink_laws : SymlinkLaws lib stored view) (name_laws : NameLaws lib stored) where
  abbrev write_back_child : Ino → InodeLarge → Prog D ℤ
  write_back_child child i = call_translate lib child (lib.write_inode_full child i) >> pure (pos 0)

  abbrev child_found : Ino → Prog D ℤ
  child_found child =
      call_translate lib child (lib.read_inode_full child) >>= write_back_child child

  abbrev stamped_parent : (dest : Bytes) → Prog D ℤ
  stamped_parent dest =
      call_translate lib 0 (lib.namei ext2_root_ino ext2_root_ino dest) >>= child_found

  abbrev made_link : (dest : Bytes) (dir : Ino) → Prog D ℤ
  made_link dest dir = unless_zero (update_mtime lib dir) >> stamped_parent dest

  abbrev parent_known : (src dest name : Bytes) (dir : Ino) → Prog D ℤ
  parent_known src dest name dir =
      call_translate lib dir (symlink_expanding lib dir name src) >> made_link dest dir

  abbrev path_split : (src dest : Bytes) → Bytes × Bytes → Prog D ℤ
  path_split src dest (before, name) =
      call_translate lib 0 (lib.namei ext2_root_ino ext2_root_ino (before ++ slash ∷ []))
      >>= parent_known src dest name

  -- After the link is made: the directory gets its time, and the new inode is looked up, read and
  -- written back.
  made_link-IsLinked :
      (dest : Bytes) (dir : Ino) (name target : Bytes) (w w₁ : World D)
      → IsLinked lib stored view dir name target w w₁
      → Post (λ r v. IsLinked lib stored view dir name target w v) (made_link dest dir w₁)
  made_link-IsLinked dest dir name target w w₁ linked =
      let Q : ℤ → World D → Type 0 = λ r v. IsLinked lib stored view dir name target w v in
      let (_, w₂) = update_mtime lib dir w₁ in
      let (_, child, w₃) = lib.namei ext2_root_ino ext2_root_ino dest w₂ in
      let (_, i, w₄) = lib.read_inode_full child w₃ in
      let (_, _, w₅) = lib.write_inode_full child i w₄ in
      Post-unless_zero Q (update_mtime lib dir) (stamped_parent dest) w₁ λ stamped.
        Post-call_translate lib errno Q 0 (lib.namei ext2_root_ino ext2_root_ino dest) child_found
          w₂
          λ found.
            Post-call_translate lib errno Q child (lib.read_inode_full child)
              (write_back_child child) w₃
              λ read.
                Post-call_translate lib errno Q child (lib.write_inode_full child i)
                  (λ _. pure (pos 0)) w₄
                  λ wrote.
                    IsLinked-after lib stored view inode_laws laws errno symlink_laws name_laws dir
                      name target w w₁ w₅
                      (written_back-view lib stored view inode_laws laws errno symlink_laws
                          name_laws child w₃ read
                        ∙ laws.namei_view dest w₂
                        ∙ update_mtime-view lib stored view inode_laws laws dir w₁)
                      (λ j other.
                        written_back-keeps lib stored view inode_laws laws errno symlink_laws
                          name_laws child j w₃ read wrote
                        ∙ symlink_laws.namei_keeps dest j w₂
                        ∙ update_mtime-keeps lib stored inode_laws dir j w₁ errno other stamped)
                      (λ j.
                        ap (λ i. i.base.i_links_count)
                          (written_back-keeps lib stored view inode_laws laws errno symlink_laws
                              name_laws child j w₃ read wrote
                            ∙ symlink_laws.namei_keeps dest j w₂)
                        ∙ update_mtime-links lib stored inode_laws dir j w₁ errno stamped)
                      linked

  path_split-IsLinked :
      (src dest before name : Bytes) (w : World D)
      → Post
          (λ r v. IsLinked lib stored view (parent_found lib before w).1 name src w v)
          (path_split src dest (before, name) (lib.strdup_succeeds w).1)
  path_split-IsLinked src dest before name w =
      let w₀ = (lib.strdup_succeeds w).1 in
      let (_, dir, w₁) = parent_found lib before w in
      let (_, _, w₂) = symlink_expanding lib dir name src w₁ in
      let Q : ℤ → World D → Type 0 = λ r v. IsLinked lib stored view dir name src w v in
      Post-call_translate lib errno Q 0
        (lib.namei ext2_root_ino ext2_root_ino (before ++ slash ∷ [])) (parent_known src dest name)
        w₀
        λ found.
          Post-call_translate lib errno Q dir (symlink_expanding lib dir name src)
            (λ _. made_link dest dir) w₁
            λ made. made_link-IsLinked dest dir name src w w₂ (
              IsLinked-before lib stored view inode_laws laws errno symlink_laws name_laws dir name
                src w₁ w w₂ (laws.namei_view (before ++ slash ∷ []) w₀ ∙ laws.strdup_view w)
                (λ j.
                  ap (λ i. i.base.i_links_count)
                    (symlink_laws.namei_keeps (before ++ slash ∷ []) j w₀)
                  ∙ name_laws.strdup_links j w)
                (symlink_expanding-IsLinked lib stored view inode_laws laws errno symlink_laws
                  name_laws dir name src w₁ made))

  -- If making a symbolic link returns 0, the names are those that there were and the new one in the
  -- directory of its path, for an inode other than that directory that had no name; that inode has one
  -- link, and holds the target as a short symbolic link, unless the target has 60 characters or more;
  -- and no other link count changes.
  -- It assumes the laws on inodes, names, link counts and new links (InodeLaws, NamesLaws, NameLaws,
  -- SymlinkLaws) and positive errno values (ErrnoLaws).
  pub node_ext2fs_symlink-IsLinked :
      (src dest before name : Bytes) (w : World D)
      → strrchr dest ≡ some (before, name)
      → (node_ext2fs_symlink lib src dest w).0 ≡ pos 0
      → IsLinked lib stored view
          (parent_found lib before w).1
          name
          src
          w
          (node_ext2fs_symlink lib src dest w).1
  unfolding node_ext2fs_symlink
  node_ext2fs_symlink-IsLinked src dest before name w split h =
      let w₀ = (lib.strdup_succeeds w).1 in
      let Q : ℤ → World D → Type 0 =
        λ r v. IsLinked lib stored view (parent_found lib before w).1 name src w v in
      Post-finish Q _
        (Post-exit_if Q (not (lib.strdup_succeeds w).0) (neg enomem)
          (or_exit (strrchr dest) (neg enomem) >>= path_split src dest) w₀
          (neg-ne_zero enomem (λ e. omega arith))
          λ copied.
            Post-or_exit Q (strrchr dest) (neg enomem) (path_split src dest) w₀
              (neg-ne_zero enomem (λ e. omega arith))
              λ parts there.
                subst (λ p. Post Q (path_split src dest p w₀)) (some_inj.0 (sym split ∙ there))
                  (path_split-IsLinked src dest before name w))
        h
