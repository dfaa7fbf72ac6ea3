-- ===== src/Js/Mounts/Released.antt =====
-- How `withMountedDisk` ends: its result, the numbers of the disks and the open files.
use node_ext2fs.Base.{
  ℕ, ℤ, is_neg, neg_part, Bool, true, false, ◌||◌, ◌==◌, List, [], ◌∷◌, ◌≡◌, if◌then◌else◌,
}
use node_ext2fs.Mount.{node_ext2fs_mount, node_ext2fs_umount}
use node_ext2fs.Ext2.Library.{Ext2fs}
use node_ext2fs.Js.Calls.{errno_exception}
use node_ext2fs.Js.Disk.{DiskWrapper}
use node_ext2fs.Js.Mounts.{Session, Fs, Answer, answered, raised, close_all}
use node_ext2fs.Js.Objects.{set_object, Uses}

module _ {D : Type 0} (lib : Ext2fs D) where
  abbrev has_key : ℕ → List ℕ → Bool
  has_key x [] = false
  has_key x (y ∷ ys) = x == y || has_key x ys

  -- No file is open, if no close has thrown.
  abbrev HasNoFile : Answer (Unit {0}) × Session D → Type 0
  HasNoFile (answered _, s) = s.open_files ≡ []
  HasNoFile (raised e, s) = Unit

  -- Those of the list are all the open files.
  abbrev HasAll : List ℕ → Session D → Type 0
  HasAll fds s = (x : ℕ) → has_key x s.open_files ≡ true → has_key x fds ≡ true

  module _ {R : Type 0} (held : List (ℕ × DiskWrapper)) (d : DiskWrapper)
      (fn : Fs → Session D → Answer R × Session D) where
    -- How the call ends after `node_ext2fs_umount` has returned `q` in the session `u`, where `fn` has
    -- given `r`.
    abbrev pub HasUnmounted : (id : ℕ) → Answer R → ℤ → Session D → Answer R × Session D → Type 0
    HasUnmounted id r q u (a, s) =
        (s.world ≡ u.world)
        × (s.open_files ≡ [])
        × (if is_neg q
            then (a ≡ raised (errno_exception (neg_part q))) × Uses ((id, d) ∷ held) s.objects
            else (a ≡ r) × Uses held s.objects)

    -- How the call ends after the files have been closed, or one of them has thrown.
    abbrev pub HasClosed :
        (id : ℕ) → Answer R → Answer (Unit {0}) × Session D → Answer R × Session D → Type 0
    HasClosed id r (raised e, u) (a, s) =
        (a ≡ raised e) × (s.world ≡ u.world) × Uses ((id, d) ∷ held) s.objects
    HasClosed id r (answered _, u) x =
        let (q, w) = node_ext2fs_umount lib u.world in
        HasUnmounted id r q (record u { world = w }) x

    -- How the call ends after `node_ext2fs_mount` has returned `p` in the session `s`.
    abbrev pub HasMounted : (id : ℕ) → ℤ → Session D → Answer R × Session D → Type 0
    HasMounted id p s x =
        if is_neg p
        then (x.0 ≡ raised (errno_exception (neg_part p)))
          × (x.1.world ≡ s.world)
          × Uses held x.1.objects
        else (let (r, t) = fn (record { fs_pointer = p; disk_id = id }) s in
            HasClosed id r (close_all lib t.open_files t) x)

  -- How `withMountedDisk` ends, by what the calls of C return.
  abbrev pub IsReleased :
      {R : Type 0}
      → List (ℕ × DiskWrapper)
      → (disk offset : ℕ) → (Fs → Session D → Answer R × Session D)
      → Session D
      → Answer R × Session D
      → Type 0
  IsReleased held disk offset fn s x =
      let d : DiskWrapper = record { disk = disk; offset = offset } in
      let (id, objects) = set_object d s.objects in
      let (p, w) = node_ext2fs_mount lib id s.world in
      HasMounted held d fn id p (record s { world = w; objects = objects }) x
