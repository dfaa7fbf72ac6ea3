-- ===== src/Create/Made.antt =====
-- What `create_file` of src/glue.c makes: a name, and the inode that it stands for.
use node_ext2fs.Base.{
  ℕ, ℤ, pos, true, Option, none, some, ◌==◌, ◌≡◌, ◌≢◌, refl, sym, ap, ◌∙◌, arith,
}
use node_ext2fs.Create.{
  fill_inode, name_file, create_in, link_expanding, create_file_body, create_file, created,
}
use node_ext2fs.Create.Laws.{SameMeta, SameLinks, OtherLinks, CreateLaws}
use node_ext2fs.Ext2.Filsys.{Bytes, Ino, World}
use node_ext2fs.Ext2.Inode.{InodeLarge}
use node_ext2fs.Ext2.Library.{Ext2fs}
use node_ext2fs.Ext2.Modes.{ext2_ft_reg_file}
use node_ext2fs.Laws.{InodeLaws, NameLaws}
use node_ext2fs.Link.Counts.{link_expanding-links}
use node_ext2fs.Names.{Names, add, children, counted-add, refs}
use node_ext2fs.Names.Library.{NamesLaws}
use node_ext2fs.Names.Linking.{link_expanding-adds}
use node_ext2fs.Ext2.Errors.{eisdir, enotdir}
use node_ext2fs.Paths.{parent_path, get_parent_dir_ino, string_to_inode, get_filename}
use node_ext2fs.Prog.{Exit, next, ret, pure, or_exit, ◌>>=◌, ◌>>◌}
use node_ext2fs.Prog.Rules.{PostOr, PostOr-bind, PostOr-call_or, PostOr-exit_if, PostOr-or_exit}
use node_ext2fs.Create.Filled.{empty_file, IsCode, IsFilled, fill_inode-IsFilled}

pub other_children :
    (dir : Ino) (name : Bytes) (ino : Ino) (n : Names)
    → ino ≢ dir
    → children ino n ≡ 0
    → children ino (add (record { dir = dir; name = name; ino = ino }) n) ≡ 0
other_children dir name ino n other empty = counted-add _ _ n ∙ ground arith

module _ {D : Type 0} (lib : Ext2fs D) (stored : D → Ino → InodeLarge) (view : D → Names)
    (create_laws : CreateLaws lib stored view) where
  pub parent-view :
      (path : Bytes) (w : World D) → view (get_parent_dir_ino lib path w).1.lib ≡ view w.lib
  unfolding get_parent_dir_ino parent_path string_to_inode
  parent-view path w = by_parent (parent_path path)
    where
      by_parent :
          (p : Option Bytes)
          → view
              (elim p as (λ _. Ino × World D) [
                | none ↦ (0, w)
                | some parent ↦ string_to_inode lib parent true w
              ]).1.lib
            ≡ view w.lib
      by_parent none = refl
      by_parent (some parent) = create_laws.namei_follow_view parent w

  parent-links : (path : Bytes) (w : World D) → SameLinks stored (get_parent_dir_ino lib path w).1 w
  unfolding get_parent_dir_ino parent_path string_to_inode
  parent-links path w = by_parent (parent_path path)
    where
      by_parent :
          (p : Option Bytes)
          → SameLinks stored
              (elim p as (λ _. Ino × World D) [
                | none ↦ (0, w)
                | some parent ↦ string_to_inode lib parent true w
              ]).1
              w
      by_parent none = λ j. refl
      by_parent (some parent) = create_laws.namei_follow_links parent w

module _ {D : Type 0} (lib : Ext2fs D) (stored : D → Ino → InodeLarge) (view : D → Names)
    (inode_laws : InodeLaws lib stored) (laws : NamesLaws lib stored view)
    (create_laws : CreateLaws lib stored view) (name_laws : NameLaws lib stored) where
  -- A name for a new file, and the file's inode, which had no name, has none in it, and is the only one whose link
  -- count may have changed.
  abbrev pub IsMade : (path : Bytes) (mode : ℕ) (dir : Ino) → World D → Ino → World D → Type 0
  IsMade path mode dir w ino v =
      (name : Bytes) × (now : ℤ) × (get_filename path ≡ some name)
      × (view v.lib ≡ add (record { dir = dir; name = name; ino = ino }) (view w.lib))
      × (refs ino (view w.lib) ≡ 0)
      × (children ino (view v.lib) ≡ 0)
      × OtherLinks stored ino v w
      × SameMeta (stored v.lib ino).base (empty_file mode now)

  name_file-IsMade :
      (path : Bytes) (mode : ℕ) (dir : Ino) (name : Bytes) (ino : Ino) (w w₁ : World D)
      → get_filename path ≡ some name
      → ino ≢ dir
      → children ino (view w.lib) ≡ 0
      → refs ino (view w.lib) ≡ 0
      → view w₁.lib ≡ view w.lib
      → SameLinks stored w₁ w
      → PostOr IsCode (IsMade path mode dir w) (name_file lib dir name ino mode w₁)
  unfolding name_file
  name_file-IsMade path mode dir name ino w w₁ named other empty unnamed before links_before =
      PostOr-call_or IsCode pos (IsMade path mode dir w)
        (link_expanding lib dir name ino ext2_ft_reg_file)
        (λ _. fill_inode lib ino mode >> pure ino) w₁ (λ e ne. ne)
        λ linked.
          let w₂ = (link_expanding lib dir name ino ext2_ft_reg_file w₁).2 in
          let adds : view w₂.lib ≡ add (record { dir = dir; name = name; ino = ino }) (view w.lib) =
            link_expanding-adds lib stored view laws dir name ino ext2_ft_reg_file w₁ linked
            ∙ ap (add _) before in
          let childless : children ino (view w₂.lib) ≡ 0 =
            ap (children ino) adds ∙ other_children dir name ino (view w.lib) other empty in
          PostOr-bind IsCode
            (λ _ v. IsFilled lib stored view inode_laws laws create_laws ino mode w₂ v)
            (IsMade path mode dir w) (fill_inode lib ino mode w₂) (λ _. pure ino)
            (fill_inode-IsFilled lib stored view inode_laws laws create_laws ino mode w₂ childless)
            λ _ v (same, others, (now, meta)).
              let kept : OtherLinks stored ino v w = λ j ne.
                others j ne
                ∙ link_expanding-links lib stored inode_laws name_laws dir name ino ext2_ft_reg_file
                    j w₁
                ∙ links_before j in
              (
                name,
                now,
                named,
                same ∙ adds,
                unnamed,
                ap (children ino) same ∙ childless,
                kept,
                meta,
              )

  create_in-IsMade :
      (path : Bytes) (mode : ℕ) (dir : Ino) (w w₁ : World D)
      → view w₁.lib ≡ view w.lib
      → SameLinks stored w₁ w
      → PostOr IsCode (IsMade path mode dir w) (create_in lib dir path mode w₁)
  unfolding create_in
  create_in-IsMade path mode dir w w₁ before links_before =
      let (_, ino, w₂) = lib.new_inode dir mode w₁ in
      PostOr-call_or IsCode pos (IsMade path mode dir w) (lib.new_inode dir mode)
        (λ ino.
          or_exit (get_filename path) (pos eisdir) >>= λ name. name_file lib dir name ino mode)
        w₁ (λ e ne. ne)
        λ okay.
          let (other, empty, unnamed) = create_laws.new_inode_free dir mode w₁ okay in
          PostOr-or_exit IsCode (IsMade path mode dir w) (get_filename path) (pos eisdir)
            (λ name. name_file lib dir name ino mode) w₂ (λ e. omega arith)
            λ name named.
              name_file-IsMade path mode dir name ino w w₂ named other
                (ap (children ino) (sym before) ∙ empty) (ap (refs ino) (sym before) ∙ unnamed)
                (create_laws.new_inode_view dir mode w₁ ∙ before)
                (λ j. create_laws.new_inode_links dir mode w₁ j ∙ links_before j)

  create_file_body-IsMade :
      (path : Bytes) (mode : ℕ) (w : World D)
      → PostOr IsCode
          (IsMade path mode (get_parent_dir_ino lib path w).0 w)
          (create_file_body lib path mode w)
  unfolding create_file_body
  create_file_body-IsMade path mode w =
      let (parent, w₁) = get_parent_dir_ino lib path w in
      PostOr-exit_if IsCode (IsMade path mode parent w) (parent == 0) (pos enotdir)
        (create_in lib parent path mode) w₁ (λ e. omega arith)
        λ there.
          create_in-IsMade path mode parent w w₁ (parent-view lib stored view create_laws path w)
            (parent-links lib stored view create_laws path w)

  created-lem :
      (Q : Ino → World D → Type 0) (x : Exit Ino × World D)
      → PostOr IsCode Q x
      → (created lib x).0 ≡ 0
      → Q (created lib x).1 (created lib x).2
  created-lem Q (next a, w) h e = h
  created-lem Q (ret r, w) h e = absurd (h e)

  -- If a file is created, which the code 0 says, the names are those that there were and the last part
  -- of the path in its directory, and the inode of that name, which had none, has the type of a regular
  -- file, the low twelve bits of the mode, no owner but 0, one link, and one time in its three stamps;
  -- no other link count changes.
  -- It assumes the laws on inodes, names, link counts and new inodes (InodeLaws, NamesLaws, NameLaws,
  -- CreateLaws).
  pub create_file-IsMade :
      (path : Bytes) (mode : ℕ) (w : World D)
      → (create_file lib path mode w).0 ≡ 0
      → IsMade path mode
          (get_parent_dir_ino lib path w).0
          w
          (create_file lib path mode w).1
          (create_file lib path mode w).2
  unfolding create_file
  create_file-IsMade path mode w h =
      created-lem (IsMade path mode (get_parent_dir_ino lib path w).0 w)
        (create_file_body lib path mode w) (create_file_body-IsMade path mode w) h
