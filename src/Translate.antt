-- ===== src/Translate.antt =====
-- `__translate_error` of src/glue.c: from the error codes of libext2fs to negated errno values.
-- The message that it prints to stderr is not modelled; what it does to the filesystem is.
pub mod Codes
use node_ext2fs.Base.{
  ℕ, ℤ, pos, neg, Bool, true, false, Option, none, some, ◌||◌, ◌==◌, ltb, if◌then◌else◌,
}
use node_ext2fs.Ext2.Errors.{
  ext2_et_base, ext2_et_no_memory, ext2_et_tdb_err_oom, ext2_et_invalid_argument,
  ext2_et_llseek_failed, ext2_et_no_directory, ext2_et_file_not_found, ext2_et_dir_no_space,
  ext2_et_toosmall, ext2_et_block_alloc_fail, ext2_et_inode_alloc_fail, ext2_et_ea_no_space,
  ext2_et_symlink_loop, ext2_et_file_too_big, ext2_et_tdb_err_exists, ext2_et_file_exists,
  ext2_et_mmp_failed, ext2_et_mmp_fsck_on, ext2_et_ea_key_not_found, ext2_et_magic_ext2_file,
  ext2_et_unimplemented, enomem, einval, enotdir, enoent, enospc, emlink, efbig, eexist, ebusy,
  efault, eio,
}
use node_ext2fs.Ext2.Filsys.{Ino, ext2fs_mark_super_dirty}
use node_ext2fs.Ext2.Library.{Ext2fs, Call, Cmd}
use node_ext2fs.Prog.{Prog, call_or}

-- `-ENODATA`, or `-ENOENT` on a platform that does not define it.
abbrev no_key : Option ℕ → ℤ
no_key none = neg enoent
no_key (some e) = neg e

module _ {D : Type 0} (lib : Ext2fs D) where
  -- The `switch`: the value of `ret`, and that of `is_err`.
  unfoldable pub translate_code : ℕ → ℤ × Bool
  translate_code err =
      if err == ext2_et_no_memory || err == ext2_et_tdb_err_oom
      then (neg enomem, false)
      else if err == ext2_et_invalid_argument || err == ext2_et_llseek_failed
      then (neg einval, false)
      else if err == ext2_et_no_directory
      then (neg enotdir, false)
      else if err == ext2_et_file_not_found
      then (neg enoent, false)
      else if err == ext2_et_dir_no_space
      then (neg enospc, true)
      else if err == ext2_et_toosmall
          || (err == ext2_et_block_alloc_fail
              || (err == ext2_et_inode_alloc_fail || err == ext2_et_ea_no_space))
      then (neg enospc, false)
      else if err == ext2_et_symlink_loop
      then (neg emlink, false)
      else if err == ext2_et_file_too_big
      then (neg efbig, false)
      else if err == ext2_et_tdb_err_exists || err == ext2_et_file_exists
      then (neg eexist, false)
      else if err == ext2_et_mmp_failed || err == ext2_et_mmp_fsck_on
      then (neg ebusy, false)
      else if err == ext2_et_ea_key_not_found
      then (no_key lib.enodata, false)
      else if err == ext2_et_magic_ext2_file
      then (neg efault, false)
      else if err == ext2_et_unimplemented
      then (neg lib.eopnotsupp, false)
      else (neg eio, true)

  -- `ino` only goes into the message.
  unfoldable pub translate_error : Ino → ℕ → Cmd D ℤ
  translate_error ino err w =
      if ltb err ext2_et_base
      then (pos err, w)
      else let (ret, is_err) = translate_code err in
        if is_err
        then (let (e, _, w') = lib.flush (ext2fs_mark_super_dirty w) in (ret, w'))
        else (ret, w)

  -- `err = m; if (err) { ret = translate_error(fs, ino, err); goto out; }`
  abbrev pub call_translate : {A : Type 0} → Ino → Call D A → Prog D A
  call_translate ino = call_or (translate_error ino)
