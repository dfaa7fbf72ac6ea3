-- ===== src/Widths/Shared.antt =====
-- What the functions of src/glue.c share: errors, look-ups, time stamps, and the linking of a name.
use node_ext2fs.Base.{
  ℕ, ℤ, pos, negsuc, wrap, ◌<◌, ◌^◌, ◌%◌, ◌*◌, bit_and, Bool, true, false, Option-cases, inl, inr,
  shr_ℤ, signed32, ◌-ℤ◌, ◌==◌, ltb, arith, if◌then◌else◌,
}
use node_ext2fs.Base.Bits.{bit_and-bound, bit_or-bound}
use node_ext2fs.Create.{link_expanding}
use node_ext2fs.Ext2.Errors.{ext2_et_base, ext2_et_dir_no_space}
use node_ext2fs.Ext2.Filsys.{Bytes, Ino, World, ext2fs_mark_super_dirty}
use node_ext2fs.Ext2.Inode.{InodeLarge}
use node_ext2fs.Ext2.Library.{Ext2fs, Call, Timespec}
use node_ext2fs.Ext2.Modes.{ext2_root_ino}
use node_ext2fs.Paths.{string_to_inode, get_parent_dir_ino, parent_path}
use node_ext2fs.Times.{
  ext4_encode_extra_time, ext4_epoch_mask, set_ctime, set_mtime, set_atime, bump_version, get_now,
  update_ctime, update_ctime_at, update_mtime, update_mtime_at,
}
use node_ext2fs.Translate.{translate_error, translate_code, call_translate}
use node_ext2fs.Widths.{Any, FitsLarge, Within, Keeps, KeepsCmd, KeepsCall}
use node_ext2fs.Widths.Library.{WidthLaws}
use node_ext2fs.Widths.Rules.{
  if-either, Keeps-pure, Keeps-bind, Keeps-run, Keeps-call_or, Keeps-function,
}

pub wrap-bound : (z : ℤ) → wrap 32 z < 2 ^ 32
wrap-bound (pos n) = omega arith
wrap-bound (negsuc n) = omega arith

encode-bound : (t : Timespec) → ext4_encode_extra_time t < 2 ^ 32
unfolding ext4_encode_extra_time
encode-bound t =
    let high = wrap 64 (shr_ℤ (t.tv_sec -ℤ signed32 (wrap 32 t.tv_sec)) 32) in
    bit_or-bound 32 (bit_and high ext4_epoch_mask) (t.tv_nsec * 2 ^ 2 % 2 ^ 32)
      (bit_and-bound 32 high ext4_epoch_mask (omega arith)) (omega arith)

pub set_ctime-FitsLarge : (t : Timespec) (i : InodeLarge) → FitsLarge i → FitsLarge (set_ctime t i)
unfolding set_ctime
set_ctime-FitsLarge t i h = ground (arith, wrap-bound t.tv_sec, encode-bound t)

pub set_mtime-FitsLarge : (t : Timespec) (i : InodeLarge) → FitsLarge i → FitsLarge (set_mtime t i)
unfolding set_mtime
set_mtime-FitsLarge t i h = ground (arith, wrap-bound t.tv_sec, encode-bound t)

pub set_atime-FitsLarge : (t : Timespec) (i : InodeLarge) → FitsLarge i → FitsLarge (set_atime t i)
unfolding set_atime
set_atime-FitsLarge t i h = ground (arith, wrap-bound t.tv_sec, encode-bound t)

pub bump_version-FitsLarge : (i : InodeLarge) → FitsLarge i → FitsLarge (bump_version i)
bump_version-FitsLarge i h = ground arith

module _ {D : Type 0} (lib : Ext2fs D) (Stored : D → Type 0) (laws : WidthLaws lib Stored) where
  -- A result of any value, and a state within its bounds.
  abbrev Left : {A : Type 0} → A × World D → Type 0
  Left x = Unit × Within Stored x.1

  pub translate_error-Keeps :
      (ino : Ino) (err : ℕ) → KeepsCmd Stored Any (translate_error lib ino err)
  unfolding translate_error
  translate_error-Keeps ino err = record {
    at = λ w ok.
        let (ret, is_err) = translate_code lib err in
        let w' = (lib.flush (ext2fs_mark_super_dirty w)).2 in
        if-either Left (ltb err ext2_et_base) (pos err, w) (if is_err then (ret, w') else (ret, w))
          (tt, ok)
          (if-either Left is_err (ret, w') (ret, w)
            (tt, (laws.flush.at (ext2fs_mark_super_dirty w) ok).1) (tt, ok));
  }

  pub Keeps-call_translate :
      {A : Type 0} {Q : A → Type 0} (ino : Ino) {c : Call D A}
      → KeepsCall Stored Q c
      → Keeps Stored Q (call_translate lib ino c)
  Keeps-call_translate ino h =
      Keeps-call_or {handler = translate_error lib ino} (λ e. translate_error-Keeps ino e) h

  pub string_to_inode-Keeps :
      (path : Bytes) (follow : Bool) → KeepsCmd Stored Any (string_to_inode lib path follow)
  unfolding string_to_inode
  string_to_inode-Keeps path true = record {
    at = λ w ok. (tt, ((laws.namei_follow ext2_root_ino ext2_root_ino path).at w ok).1);
  }
  string_to_inode-Keeps path false = record {
    at = λ w ok. (tt, ((laws.namei ext2_root_ino ext2_root_ino path).at w ok).1);
  }

  pub get_parent_dir_ino-Keeps : (path : Bytes) → KeepsCmd Stored Any (get_parent_dir_ino lib path)
  unfolding get_parent_dir_ino
  get_parent_dir_ino-Keeps path = record {
    at = λ w ok. elim (Option-cases (parent_path path)) [
      | inl e ↦ rw (get_parent_dir_ino, e) (tt, ok)
      | inr (parent, e) ↦ rw (get_parent_dir_ino, e) ((string_to_inode-Keeps parent true).at w ok)
    ];
  }

  pub get_now-Keeps : KeepsCmd Stored Any (get_now lib)
  unfolding get_now
  get_now-Keeps = record {
    at = λ w ok.
        let ((e, ts), w') = lib.clock_gettime w in
        let (sec, w'') = lib.time w' in
        let ok' = (laws.clock_gettime.at w ok).1 in
        if-either Left (e == 0) (ts, w') (record { tv_sec = sec; tv_nsec = 0 }, w'') (tt, ok')
          (tt, (laws.time.at w' ok').1);
  }

  pub update_ctime_at-Keeps :
      (i : InodeLarge) → FitsLarge i → KeepsCmd Stored FitsLarge (update_ctime_at lib i)
  unfolding update_ctime_at
  update_ctime_at-Keeps i h = record {
    at = λ w ok. (set_ctime-FitsLarge (get_now lib w).0 i h, (get_now-Keeps.at w ok).1);
  }

  pub update_mtime_at-Keeps :
      (i : InodeLarge) → FitsLarge i → KeepsCmd Stored FitsLarge (update_mtime_at lib i)
  unfolding update_mtime_at
  update_mtime_at-Keeps i h = record {
    at = λ w ok.
        let now = (get_now lib w).0 in
        (
          bump_version-FitsLarge (set_ctime now (set_mtime now i))
              (set_ctime-FitsLarge now (set_mtime now i) (set_mtime-FitsLarge now i h)),
          (get_now-Keeps.at w ok).1,
        );
  }

  pub update_ctime-Keeps : (ino : Ino) → KeepsCmd Stored Any (update_ctime lib ino)
  unfolding update_ctime
  update_ctime-Keeps ino = Keeps-function (
      Keeps-bind (Keeps-run get_now-Keeps) λ now _.
        Keeps-bind (Keeps-call_translate ino (laws.read_inode_full ino)) λ i h.
          Keeps-bind
            (Keeps-call_translate ino (
              laws.write_inode_full ino (set_ctime now (bump_version i))
                (set_ctime-FitsLarge now (bump_version i) (bump_version-FitsLarge i h))))
            λ _ _. Keeps-pure (pos 0) tt)

  pub update_mtime-Keeps : (ino : Ino) → KeepsCmd Stored Any (update_mtime lib ino)
  unfolding update_mtime
  update_mtime-Keeps ino = Keeps-function (
      Keeps-bind (Keeps-call_translate ino (laws.read_inode_full ino)) λ i h.
        Keeps-bind (Keeps-run get_now-Keeps) λ now _.
          Keeps-bind
            (Keeps-call_translate ino (
              laws.write_inode_full ino (bump_version (set_ctime now (set_mtime now i))) (
                bump_version-FitsLarge (set_ctime now (set_mtime now i))
                  (set_ctime-FitsLarge now (set_mtime now i) (set_mtime-FitsLarge now i h)))))
            λ _ _. Keeps-pure (pos 0) tt)

  abbrev After : ℕ × Unit {0} × World D → Type 0
  After x = Unit × Within Stored x.2

  -- A second try of a call, where the first one has found no space.
  pub expanding-Keeps :
      (dir : Ino) (c : Call D (Unit {0}))
      → KeepsCall Stored Any c
      → KeepsCall Stored Any (λ w.
        let (e, _, w₁) = c w in
        if e == ext2_et_dir_no_space
        then (let (e₂, _, w₂) = lib.expand_dir dir w₁ in if e₂ == 0 then c w₂ else (e₂, tt, w₂))
        else (e, tt, w₁))
  expanding-Keeps dir c h = record {
    at = λ w ok.
        let (e, _, w₁) = c w in
        let (e₂, _, w₂) = lib.expand_dir dir w₁ in
        let ok₁ = (h.at w ok).1 in
        let ok₂ = ((laws.expand_dir dir).at w₁ ok₁).1 in
        if-either After (e == ext2_et_dir_no_space) (if e₂ == 0 then c w₂ else (e₂, tt, w₂))
          (e, tt, w₁) (if-either After (e₂ == 0) (c w₂) (e₂, tt, w₂) (h.at w₂ ok₂) (tt, ok₂))
          (tt, ok₁);
  }

  pub link_expanding-Keeps :
      (dir : Ino) (name : Bytes) (ino : Ino) (flags : ℕ)
      → KeepsCall Stored Any (link_expanding lib dir name ino flags)
  unfolding link_expanding
  link_expanding-Keeps dir name ino flags =
      expanding-Keeps dir (lib.link dir name ino flags) (laws.link dir name ino flags)
