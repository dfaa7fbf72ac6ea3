-- ===== src/Js/Mounts.antt =====
-- lib/ext2fs.js: a disk is mounted, used and unmounted, and the files of lib/fs.js are closed first.
-- Each function is one step: what other calls do while it is awaited is not modelled.
pub mod Released
use node_ext2fs.Base.{ℕ, ℤ, pos_part, Option, none, some, List, [], ◌∷◌, ◌==◌, if◌then◌else◌}
use node_ext2fs.Ext2.Filsys.{World}
use node_ext2fs.Ext2.Library.{Ext2fs}
use node_ext2fs.Files.{node_ext2fs_close}
use node_ext2fs.Js.Calls.{ErrnoException, Result, returned, threw, ccall_throw}
use node_ext2fs.Js.Disk.{DiskWrapper}
use node_ext2fs.Js.Objects.{Objects, set_object, delete_object}
use node_ext2fs.Mount.{node_ext2fs_mount, node_ext2fs_umount}

-- The state of C, the objects of src/pre.js and the keys of `openFiles`.
pub record Session (D : Type 0) : Type 0 where
  pub world : World D
  pub objects : Objects DiskWrapper
  pub open_files : List ℕ

-- What `mount` returns: `fsPointer` and `diskId`.
pub record Fs : Type 0 where
  pub fs_pointer : ℤ
  pub disk_id : ℕ

pub data Answer (A : Type 0) : Type 0 where
  answered : A → Answer A
  raised : ErrnoException → Answer A

module _ {D : Type 0} (lib : Ext2fs D) where
  -- `mount` from the result of the call on.
  abbrev pub mount_called : (disk_id : ℕ) → Session D → Result → Answer Fs × Session D
  mount_called id s (returned p) = (answered (record { fs_pointer = p; disk_id = id }), s)
  mount_called id s (threw e) = (raised e, record s { objects = delete_object id s.objects })

  unfoldable pub mount : (disk offset : ℕ) → Session D → Answer Fs × Session D
  mount disk offset s =
      let (id, objects) = set_object (record { disk = disk; offset = offset }) s.objects in
      let (r, w) = node_ext2fs_mount lib id s.world in
      mount_called id (record s { world = w; objects = objects }) (ccall_throw r)

  -- `openFiles.delete(fd)`
  abbrev pub without : ℕ → List ℕ → List ℕ
  without fd [] = []
  without fd (x ∷ xs) = let rest = without fd xs in if x == fd then rest else x ∷ rest

  -- `close` of lib/fs.js from the result of the call on.
  abbrev pub close_called : (fd : ℕ) → Session D → Result → Answer (Unit {0}) × Session D
  close_called fd s (returned p) = (answered tt, record s { open_files = without fd s.open_files })
  close_called fd s (threw e) = (raised e, s)

  -- `close` of a key of `openFiles`, which `checkFd` lets pass.
  abbrev pub close : (fd : ℕ) → Session D → Answer (Unit {0}) × Session D
  close fd s =
      let (r, w) = node_ext2fs_close lib fd s.world in
      close_called fd (record s { world = w }) (ccall_throw r)

  abbrev pub unless_raised :
      (Session D → Answer (Unit {0}) × Session D)
      → Answer (Unit {0}) × Session D
      → Answer (Unit {0}) × Session D
  unless_raised k (raised e, s) = (raised e, s)
  unless_raised k (answered _, s) = k s

  -- `closeAllFileDescriptors`, by the keys that are left.
  unfoldable pub close_all : List ℕ → Session D → Answer (Unit {0}) × Session D
  close_all [] s = (answered tt, s)
  close_all (fd ∷ fds) s = unless_raised (close_all fds) (close fd s)

  -- `umount` from the result of the call on.
  abbrev pub umount_called : (disk_id : ℕ) → Session D → Result → Answer (Unit {0}) × Session D
  umount_called id s (returned p) = (answered tt, record s { objects = delete_object id s.objects })
  umount_called id s (threw e) = (raised e, s)

  abbrev pub umount_closed :
      (disk_id : ℕ) → Answer (Unit {0}) × Session D → Answer (Unit {0}) × Session D
  umount_closed id (raised e, s) = (raised e, s)
  umount_closed id (answered _, s) =
      let (r, w) = node_ext2fs_umount lib s.world in
      umount_called id (record s { world = w }) (ccall_throw r)

  unfoldable pub umount : Fs → Session D → Answer (Unit {0}) × Session D
  umount fs s = umount_closed fs.disk_id (close_all s.open_files s)

  -- An exception of `umount` in the `finally` takes the place of what `fn` has given.
  abbrev pub finally_umount :
      {R : Type 0} → Answer R → Answer (Unit {0}) × Session D → Answer R × Session D
  finally_umount r (answered _, s) = (r, s)
  finally_umount r (raised e, s) = (raised e, s)

  abbrev pub with_mounted :
      {R : Type 0}
      → (Fs → Session D → Answer R × Session D)
      → Answer Fs × Session D
      → Answer R × Session D
  with_mounted fn (raised e, s) = (raised e, s)
  with_mounted fn (answered fs, s) = let (r, s') = fn fs s in finally_umount r (umount fs s')

  abbrev pub with_mounted_disk :
      {R : Type 0}
      → (disk offset : ℕ) → (Fs → Session D → Answer R × Session D)
      → Session D
      → Answer R × Session D
  with_mounted_disk disk offset fn s = with_mounted fn (mount disk offset s)
