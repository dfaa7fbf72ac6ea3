-- ===== src/Files.antt =====
-- Open files in src/glue.c: open, read, write, change mode and owner, close.
pub mod Guards
pub mod Opened
pub mod Stored
use node_ext2fs.Base.{
  ℕ, ℤ, neg, signed32, wrap, ◌%◌, ◌^◌, bit_and, bit_or, Bool, true, false, not, ◌==◌, if◌then◌else◌,
}
use node_ext2fs.Create.{create_file}
use node_ext2fs.Ext2.Errors.{ebadf, eexist, enoent, enotdir}
use node_ext2fs.Ext2.Filsys.{Bytes, Ino, File, World}
use node_ext2fs.Ext2.Inode.{Inode, increment_version}
use node_ext2fs.Ext2.Library.{Ext2fs, Call, Cmd}
use node_ext2fs.Ext2.Modes.{
  has, o_wronly, o_rdwr, o_creat, o_excl, o_trunc, o_append, o_directory, o_nofollow, o_noatime,
  ext2_file_write, ext2_file_create, ext2_seek_set, ext2_seek_end, linux_s_ifmt, not_linux_s_ifmt,
}
use node_ext2fs.Paths.{string_to_inode}
use node_ext2fs.Prog.{
  next, ret, Prog, ◌>>=◌, ◌>>◌, pure, exit_if, on, raw, run, gets, modify, call_or, call_neg,
  function,
}
use node_ext2fs.Times.{get_now}
use node_ext2fs.Translate.{translate_error}

unfoldable pub translate_open_flags : ℕ → ℕ
translate_open_flags js_flags =
    let result : ℕ = if has js_flags (bit_or o_wronly o_rdwr) then ext2_file_write else 0 in
    if has js_flags o_creat then bit_or result ext2_file_create else result

-- `(unsigned long) -1`
abbrev pub no_position : ℕ
no_position = 0xffff_ffff

module _ {D : Type 0} where
  abbrev pub set_file : ℕ → File → World D → World D
  set_file h f w = record w { files = λ p. if p == h then f else w.files p }

  abbrev pub set_file_inode : ℕ → Inode → World D → World D
  set_file_inode h i w = set_file h (record (w.files h) { inode = i }) w

module _ {D : Type 0} (lib : Ext2fs D) where
  -- `ext2fs_read_inode(file->fs, file->ino, &(file->inode))`
  abbrev pub read_file_inode : ℕ → Call D (Unit {0})
  read_file_inode h w =
      let (e, i, w') = lib.read_inode (w.files h).ino w in (e, tt, set_file_inode h i w')

  -- `ext2fs_write_inode(file->fs, file->ino, &(file->inode))`
  abbrev pub write_file_inode : ℕ → Call D (Unit {0})
  write_file_inode h w = lib.write_inode (w.files h).ino (w.files h).inode w

  unfoldable pub update_xtime : ℕ → (a c m : Bool) → Call D (Unit {0})
  update_xtime file a c m w =
      let (err, _, w₁) = read_file_inode file w in
      if err == 0
      then (let (now, w₂) = get_now lib w₁ in
          let stamp = wrap 32 now.tv_sec in
          let i = (w₂.files file).inode in
          let i' : Inode = increment_version (record i {
            i_atime = if a then stamp else i.i_atime;
            i_ctime = if c then stamp else i.i_ctime;
            i_mtime = if m then stamp else i.i_mtime;
          }) in
          write_file_inode file (set_file_inode file i' w₂))
      else (err, tt, w₁)

  -- The inode of a path for `open`, which creates the file where the flags ask for it.
  unfoldable pub open_inode : Bytes → (flags mode : ℕ) → (ino : Ino) → Prog D Ino
  open_inode path flags mode ino w =
      if ino == 0
      then (if has flags o_creat
          then call_neg (create_file lib path mode) w
          else (ret (neg enoent), w))
      else if has flags o_excl
      then (ret (neg eexist), w)
      else (next ino, w)

  unfoldable pub node_ext2fs_open : Bytes → (flags mode : ℕ) → Cmd D ℤ
  node_ext2fs_open path flags mode = function do
    found ← run (string_to_inode lib path (not (has flags o_nofollow)))
    ino ← open_inode path flags mode found
    on (has flags o_directory) (call_or (λ e w. (neg enotdir, w)) (lib.check_directory ino))
    file ← call_neg (lib.file_open ino (translate_open_flags flags))
    on (has flags o_trunc) (call_neg (lib.file_set_size2 file 0))
    pure (signed32 file)

  unfoldable pub node_ext2fs_read : (file flags buffer length position : ℕ) → Cmd D ℤ
  node_ext2fs_read file flags buffer length position = function do
    exit_if (has flags o_wronly) (neg ebadf)
    on (not (position == no_position)) (call_neg (lib.file_llseek file position ext2_seek_set))
    got ← call_neg (lib.file_read file buffer length)
    on (not (has flags o_noatime)) (call_neg (update_xtime file true false false))
    pure (signed32 got)

  -- The seek before a write.
  abbrev pub seek_to_write : (file flags position : ℕ) → Prog D (Unit {0})
  seek_to_write file flags position w =
      if has flags o_append
      then call_neg (lib.file_llseek file 0 ext2_seek_end) w
      else on (not (position == no_position))
          (call_neg (lib.file_llseek file position ext2_seek_set)) w

  -- The error code of a failing flush is translated, and then dropped.
  abbrev pub flush_written : (file : ℕ) → Prog D (Unit {0})
  flush_written file w =
      let (e, _, w₁) = lib.file_flush file w in
      if e == 0
      then (next tt, w₁)
      else (let (_, w₂) = translate_error lib (w₁.files file).ino e w₁ in (next tt, w₂))

  unfoldable pub node_ext2fs_write : (file flags buffer length position : ℕ) → Cmd D ℤ
  node_ext2fs_write file flags buffer length position = function do
    exit_if (not (has flags (bit_or o_wronly o_rdwr))) (neg ebadf)
    seek_to_write file flags position
    written ← call_neg (lib.file_write file buffer length)
    on (has flags o_creat) (call_neg (update_xtime file false true true))
    flush_written file
    pure (signed32 written)

  unfoldable pub node_ext2fs_chmod : (file mode : ℕ) → Cmd D ℤ
  node_ext2fs_chmod file mode = function do
    call_neg (read_file_inode file)
    inode ← gets (λ w. (w.files file).inode)
    let fmt = bit_and inode.i_mode linux_s_ifmt
    modify (
        set_file_inode file (
          increment_version
            (record inode { i_mode = bit_or fmt (bit_and mode not_linux_s_ifmt) % 2 ^ 16 })))
    (e, _) ← raw (write_file_inode file)
    pure (neg e)

  unfoldable pub node_ext2fs_chown : (file uid gid : ℕ) → Cmd D ℤ
  node_ext2fs_chown file uid gid = function do
    call_neg (read_file_inode file)
    inode ← gets (λ w. (w.files file).inode)
    modify (
        set_file_inode file (
          increment_version
            (record inode { i_uid = bit_and uid 0xffff; i_gid = bit_and gid 0xffff })))
    (e, _) ← raw (write_file_inode file)
    pure (neg e)

  unfoldable pub node_ext2fs_close : (file : ℕ) → Cmd D ℤ
  node_ext2fs_close file w = let (e, _, w') = lib.file_close file w in (neg e, w')
