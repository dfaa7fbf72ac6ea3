-- ===== src/Times.antt =====
-- The time stamps of an inode in src/glue.c: the extra words that carry two more bits of the seconds
-- and the nanoseconds, and the functions that read, set and write back an inode's stamps.
pub mod Extra
pub mod Stored
use node_ext2fs.Base.{
  ℕ, ℤ, pos, wrap, shr_ℤ, signed32, ◌+ℤ◌, ◌-ℤ◌, ◌+◌, ◌*◌, ◌/◌, ◌%◌, ◌^◌, bit_and, bit_or, Bool, not,
  leb, ltb_ℤ, ◌&&◌, ◌==◌, if◌then◌else◌,
}
use node_ext2fs.Ext2.Filsys.{Ino, File, World}
use node_ext2fs.Ext2.Inode.{Inode, InodeLarge, increment_version}
use node_ext2fs.Ext2.Library.{Ext2fs, Call, Cmd, Timespec}
use node_ext2fs.Ext2.Modes.{has, ext2_flag_rw}
use node_ext2fs.Prog.{◌>>=◌, ◌>>◌, pure, run, exit_if, raw, gets, modify, call_ret, function}
use node_ext2fs.Translate.{call_translate}

abbrev pub ext4_epoch_mask : ℕ
ext4_epoch_mask = 3

-- `~0UL << EXT4_EPOCH_BITS`
abbrev pub ext4_nsec_mask : ℕ
ext4_nsec_mask = 0xffff_fffc

-- `time_t` has 64 bits.
unfoldable pub ext4_encode_extra_time : Timespec → ℕ
ext4_encode_extra_time time =
    bit_or
      (bit_and (wrap 64 (shr_ℤ (time.tv_sec -ℤ signed32 (wrap 32 time.tv_sec)) 32)) ext4_epoch_mask)
      (time.tv_nsec * 2 ^ 2 % 2 ^ 32)

-- `tv_sec` is what the caller has stored there.
unfoldable pub ext4_decode_extra_time : ℤ → ℕ → Timespec
ext4_decode_extra_time tv_sec extra = record {
  tv_sec =
      if has extra ext4_epoch_mask
      then tv_sec +ℤ pos (bit_and extra ext4_epoch_mask * 2 ^ 32)
      else tv_sec;
  tv_nsec = bit_and extra ext4_nsec_mask / 2 ^ 2;
}

-- `EXT4_FITS_IN_INODE`, for a field of four bytes at this offset.
abbrev pub ext4_fits_in_inode : InodeLarge → ℕ → Bool
ext4_fits_in_inode i offset = leb (offset + 4) (128 + i.i_extra_isize)

-- The offsets of the extra fields in `struct ext2_inode_large`.
abbrev pub ctime_extra : ℕ
ctime_extra = 132

abbrev pub mtime_extra : ℕ
mtime_extra = 136

abbrev pub atime_extra : ℕ
atime_extra = 140

-- `EXT4_INODE_SET_XTIME`, for each of the three stamps.
unfoldable pub set_ctime : Timespec → InodeLarge → InodeLarge
unfolding ext4_encode_extra_time
set_ctime t i = record i {
  base = record i.base { i_ctime = wrap 32 t.tv_sec };
  i_ctime_extra =
      if ext4_fits_in_inode i ctime_extra then ext4_encode_extra_time t else i.i_ctime_extra;
}

unfoldable pub set_mtime : Timespec → InodeLarge → InodeLarge
unfolding ext4_encode_extra_time
set_mtime t i = record i {
  base = record i.base { i_mtime = wrap 32 t.tv_sec };
  i_mtime_extra =
      if ext4_fits_in_inode i mtime_extra then ext4_encode_extra_time t else i.i_mtime_extra;
}

unfoldable pub set_atime : Timespec → InodeLarge → InodeLarge
unfolding ext4_encode_extra_time
set_atime t i = record i {
  base = record i.base { i_atime = wrap 32 t.tv_sec };
  i_atime_extra =
      if ext4_fits_in_inode i atime_extra then ext4_encode_extra_time t else i.i_atime_extra;
}

-- `EXT4_INODE_GET_XTIME`, for the two stamps that are read.
unfoldable pub get_xtime : (fits : Bool) (xtime extra : ℕ) → Timespec
unfolding ext4_decode_extra_time
get_xtime fits xtime extra =
    if fits
    then ext4_decode_extra_time (signed32 xtime) extra
    else record { tv_sec = signed32 xtime; tv_nsec = 0 }

unfoldable pub get_atime : InodeLarge → Timespec
unfolding get_xtime
get_atime i = get_xtime (ext4_fits_in_inode i atime_extra) i.base.i_atime i.i_atime_extra

unfoldable pub get_mtime : InodeLarge → Timespec
unfolding get_xtime
get_mtime i = get_xtime (ext4_fits_in_inode i mtime_extra) i.base.i_mtime i.i_mtime_extra

abbrev pub bump_version : InodeLarge → InodeLarge
bump_version i = record i { base = increment_version i.base }

module _ {D : Type 0} (lib : Ext2fs D) where
  unfoldable pub get_now : Cmd D Timespec
  get_now w =
      let ((e, ts), w') = lib.clock_gettime w in
      if e == 0
      then (ts, w')
      else (let (sec, w'') = lib.time w' in (record { tv_sec = sec; tv_nsec = 0 }, w''))

  -- `update_ctime` on the caller's inode, where it returns 0. The version that it increments is
  -- that of a local variable which nothing reads.
  unfoldable pub update_ctime_at : InodeLarge → Cmd D InodeLarge
  update_ctime_at pinode w = let (now, w') = get_now w in (set_ctime now pinode, w')

  -- `update_ctime` with no inode: read, modify and write.
  unfoldable pub update_ctime : Ino → Cmd D ℤ
  update_ctime ino = function do
    now ← run get_now
    inode ← call_translate lib ino (lib.read_inode_full ino)
    call_translate lib ino (lib.write_inode_full ino (set_ctime now (bump_version inode)))
    pure (pos 0)

  -- `update_mtime` on the caller's inode, where it returns 0.
  unfoldable pub update_mtime_at : InodeLarge → Cmd D InodeLarge
  update_mtime_at pinode w =
      let (now, w') = get_now w in (bump_version (set_ctime now (set_mtime now pinode)), w')

  -- `update_mtime` with no inode.
  unfoldable pub update_mtime : Ino → Cmd D ℤ
  update_mtime ino = function do
    inode ← call_translate lib ino (lib.read_inode_full ino)
    now ← run get_now
    call_translate lib ino
        (lib.write_inode_full ino (bump_version (set_ctime now (set_mtime now inode))))
    pure (pos 0)

  -- A stamp newer than the last modification and at most thirty seconds old is kept.
  abbrev pub atime_is_fresh : (atime mtime now : Timespec) → Bool
  atime_is_fresh atime mtime now =
      not (ltb_ℤ atime.tv_sec mtime.tv_sec) && not (ltb_ℤ atime.tv_sec (now.tv_sec -ℤ pos 30))

  unfoldable pub update_atime : Ino → Cmd D ℤ
  update_atime ino = function do
    exit_if (not (has (← gets (λ w. w.fs.flags)) ext2_flag_rw)) (pos 0)
    inode ← call_translate lib ino (lib.read_inode_full ino)
    now ← run get_now
    exit_if (atime_is_fresh (get_atime inode) (get_mtime inode) now) (pos 0)
    call_translate lib ino (lib.write_inode_full ino (set_atime now inode))
    pure (pos 0)
