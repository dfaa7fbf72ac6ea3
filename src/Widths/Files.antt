-- ===== src/Widths/Files.antt =====
-- The operations on open files keep every inode within its types.
use node_ext2fs.Base.{
  ℕ, neg, signed32, wrap, ◌<◌, ◌%◌, ◌^◌, bit_and, bit_or, Bool, true, false, not, ◌==◌, arith,
  if◌then◌else◌, Bool-cases, inl, inr,
}
use node_ext2fs.Base.Bits.{bit_and-bound}
use node_ext2fs.Ext2.Errors.{ebadf, eexist, enoent, enotdir}
use node_ext2fs.Ext2.Filsys.{Bytes, Ino, World}
use node_ext2fs.Ext2.Inode.{Inode, increment_version}
use node_ext2fs.Ext2.Library.{Ext2fs}
use node_ext2fs.Ext2.Modes.{
  has, o_wronly, o_rdwr, o_creat, o_excl, o_trunc, o_append, o_directory, o_nofollow, o_noatime,
  ext2_seek_set, ext2_seek_end, linux_s_ifmt, not_linux_s_ifmt,
}
use node_ext2fs.Files.{
  translate_open_flags, no_position, set_file_inode, read_file_inode, write_file_inode,
  update_xtime, open_inode, node_ext2fs_open, node_ext2fs_read, seek_to_write, flush_written,
  node_ext2fs_write, node_ext2fs_chmod, node_ext2fs_chown, node_ext2fs_close,
}
use node_ext2fs.Create.{create_file}
use node_ext2fs.Prog.{next, ret, call_neg, on, modify, raw, pure, ◌>>◌, ◌>>=◌}
use node_ext2fs.Times.{get_now}
use node_ext2fs.Translate.{translate_error}
use node_ext2fs.Widths.{Any, Fits, Within, Kept, Keeps, KeepsCmd, KeepsCall}
use node_ext2fs.Widths.Created.{create_file-Keeps}
use node_ext2fs.Widths.Library.{WidthLaws}
use node_ext2fs.Widths.Rules.{
  if-either, Keeps-pure, Keeps-bind, Keeps-exit_if, Keeps-on, Keeps-run, Keeps-call_or,
  Keeps-call_neg, Keeps-raw, Keeps-gets, Keeps-modify, Keeps-function,
}
use node_ext2fs.Widths.Shared.{
  wrap-bound, translate_error-Keeps, string_to_inode-Keeps, get_now-Keeps,
}

set_file_inode-Within :
    {D : Type 0} (Stored : D → Type 0) (h : ℕ) (i : Inode) (w : World D)
    → Fits i
    → Within Stored w
    → Within Stored (set_file_inode h i w)
set_file_inode-Within Stored h i w fits (ok, files) =
    (ok, λ p. elim (Bool-cases (p == h)) [ inl e ↦ rw (e) fits | inr e ↦ rw (e) (files p) ])

stamped-Fits :
    (i : Inode) (a c m : Bool) (stamp : ℕ)
    → Fits i
    → stamp < 2 ^ 32
    → Fits (
        increment_version (record i {
          i_atime = if a then stamp else i.i_atime;
          i_ctime = if c then stamp else i.i_ctime;
          i_mtime = if m then stamp else i.i_mtime;
        }))
stamped-Fits i a c m stamp h b = ground arith

module _ {D : Type 0} (lib : Ext2fs D) (Stored : D → Type 0) (laws : WidthLaws lib Stored) where
  read_file_inode-Keeps : (h : ℕ) → KeepsCall Stored Any (read_file_inode lib h)
  read_file_inode-Keeps h = record {
    at = λ w ok.
        let (e, i, w') = lib.read_inode (w.files h).ino w in
        let (fits, ok') = (laws.read_inode (w.files h).ino).at w ok in
        (tt, set_file_inode-Within Stored h i w' fits ok');
  }

  write_file_inode-Keeps : (h : ℕ) → KeepsCall Stored Any (write_file_inode lib h)
  write_file_inode-Keeps h = record {
    at = λ w ok. (laws.write_inode (w.files h).ino (w.files h).inode (ok.1 h)).at w ok;
  }

  update_xtime-Keeps :
      (file : ℕ) (a c m : Bool) → KeepsCall Stored Any (update_xtime lib file a c m)
  unfolding update_xtime
  update_xtime-Keeps file a c m = record {
    at = λ w ok.
        let (err, _, w₁) = read_file_inode lib file w in
        let ok₁ = ((read_file_inode-Keeps file).at w ok).1 in
        let (now, w₂) = get_now lib w₁ in
        let ok₂ = ((get_now-Keeps lib Stored laws).at w₁ ok₁).1 in
        let stamp = wrap 32 now.tv_sec in
        let i = (w₂.files file).inode in
        let i' : Inode = increment_version (record i {
          i_atime = if a then stamp else i.i_atime;
          i_ctime = if c then stamp else i.i_ctime;
          i_mtime = if m then stamp else i.i_mtime;
        }) in
        let w₃ = set_file_inode file i' w₂ in
        let ok₃ =
          set_file_inode-Within Stored file i' w₂
            (stamped-Fits i a c m stamp (ok₂.1 file) (wrap-bound now.tv_sec)) ok₂ in
        if-either (λ x. Unit × Within Stored x.2) (err == 0) (write_file_inode lib file w₃)
          (err, tt, w₁) ((write_file_inode-Keeps file).at w₃ ok₃) (tt, ok₁);
  }

  open_inode-Keeps :
      (path : Bytes) (flags mode : ℕ) (ino : Ino)
      → Keeps Stored Any (open_inode lib path flags mode ino)
  unfolding open_inode
  open_inode-Keeps path flags mode ino = record {
    at = λ w ok.
        let creates = call_neg (create_file lib path mode) w in
        if-either (Kept Stored Any) (ino == 0)
          (if has flags o_creat then creates else (ret (neg enoent), w))
          (if has flags o_excl then (ret (neg eexist), w) else (next ino, w))
          (if-either (Kept Stored Any) (has flags o_creat) creates (ret (neg enoent), w)
            ((Keeps-call_neg (create_file-Keeps lib Stored laws path mode)).at w ok) ok)
          (if-either (Kept Stored Any) (has flags o_excl) (ret (neg eexist), w) (next ino, w) ok
            (tt, ok));
  }

  pub node_ext2fs_open-Keeps :
      (path : Bytes) (flags mode : ℕ) → KeepsCmd Stored Any (node_ext2fs_open lib path flags mode)
  unfolding node_ext2fs_open
  node_ext2fs_open-Keeps path flags mode = Keeps-function (
      Keeps-bind
        (Keeps-run (string_to_inode-Keeps lib Stored laws path (not (has flags o_nofollow))))
        λ found _. Keeps-bind (open_inode-Keeps path flags mode found) λ ino _.
          Keeps-bind
            (Keeps-on (has flags o_directory) (
              Keeps-call_or {handler = λ e w. (neg enotdir, w)}
                (λ e. record { at = λ w ok. (tt, ok) }) (laws.check_directory ino)))
            λ _ _.
              Keeps-bind (Keeps-call_neg (laws.file_open ino (translate_open_flags flags)))
                λ file _.
                  Keeps-bind
                    (Keeps-on (has flags o_trunc) (Keeps-call_neg (laws.file_set_size2 file 0)))
                    λ _ _. Keeps-pure (signed32 file) tt)

  pub node_ext2fs_read-Keeps :
      (file flags buffer length position : ℕ)
      → KeepsCmd Stored Any (node_ext2fs_read lib file flags buffer length position)
  unfolding node_ext2fs_read
  node_ext2fs_read-Keeps file flags buffer length position = Keeps-function (
      Keeps-bind (Keeps-exit_if (has flags o_wronly) (neg ebadf)) λ _ _.
        Keeps-bind
          (Keeps-on (not (position == no_position))
            (Keeps-call_neg (laws.file_llseek file position ext2_seek_set)))
          λ _ _. Keeps-bind (Keeps-call_neg (laws.file_read file buffer length)) λ got _.
            Keeps-bind
              (Keeps-on (not (has flags o_noatime))
                (Keeps-call_neg (update_xtime-Keeps file true false false)))
              λ _ _. Keeps-pure (signed32 got) tt)

  seek_to_write-Keeps :
      (file flags position : ℕ) → Keeps Stored Any (seek_to_write lib file flags position)
  seek_to_write-Keeps file flags position = record {
    at = λ w ok.
        let to_end = call_neg (lib.file_llseek file 0 ext2_seek_end) w in
        let to_position =
          on (not (position == no_position))
            (call_neg (lib.file_llseek file position ext2_seek_set)) w in
        if-either (Kept Stored Any) (has flags o_append) to_end to_position
          ((Keeps-call_neg (laws.file_llseek file 0 ext2_seek_end)).at w ok)
          ((Keeps-on (not (position == no_position))
              (Keeps-call_neg (laws.file_llseek file position ext2_seek_set))).at
            w ok);
  }

  flush_written-Keeps : (file : ℕ) → Keeps Stored Any (flush_written lib file)
  flush_written-Keeps file = record {
    at = λ w ok.
        let (e, _, w₁) = lib.file_flush file w in
        let ok₁ = ((laws.file_flush file).at w ok).1 in
        let (_, w₂) = translate_error lib (w₁.files file).ino e w₁ in
        if-either (Kept Stored Any) (e == 0) (next tt, w₁) (next tt, w₂) (tt, ok₁)
          ((translate_error-Keeps lib Stored laws (w₁.files file).ino e).at w₁ ok₁);
  }

  pub node_ext2fs_write-Keeps :
      (file flags buffer length position : ℕ)
      → KeepsCmd Stored Any (node_ext2fs_write lib file flags buffer length position)
  unfolding node_ext2fs_write
  node_ext2fs_write-Keeps file flags buffer length position = Keeps-function (
      Keeps-bind (Keeps-exit_if (not (has flags (bit_or o_wronly o_rdwr))) (neg ebadf)) λ _ _.
        Keeps-bind (seek_to_write-Keeps file flags position) λ _ _.
          Keeps-bind (Keeps-call_neg (laws.file_write file buffer length)) λ written _.
            Keeps-bind
              (Keeps-on (has flags o_creat)
                (Keeps-call_neg (update_xtime-Keeps file false true true)))
              λ _ _. Keeps-bind (flush_written-Keeps file) λ _ _. Keeps-pure (signed32 written) tt)

  -- The last part of `chmod` and `chown`: the inode of the file is changed and written.
  store-Keeps :
      (file : ℕ) (i : Inode)
      → Fits i
      → Keeps Stored Any (
          modify (set_file_inode file i)
          >> (raw (write_file_inode lib file) >>= λ x. pure (neg x.0)))
  store-Keeps file i h =
      Keeps-bind (Keeps-modify (λ w ok. set_file_inode-Within Stored file i w h ok))
        λ _ _. Keeps-bind (Keeps-raw (write_file_inode-Keeps file)) λ x _. Keeps-pure (neg x.0) tt

  pub node_ext2fs_chmod-Keeps :
      (file mode : ℕ) → KeepsCmd Stored Any (node_ext2fs_chmod lib file mode)
  unfolding node_ext2fs_chmod
  node_ext2fs_chmod-Keeps file mode = Keeps-function (
      Keeps-bind (Keeps-call_neg (read_file_inode-Keeps file)) λ _ _.
        Keeps-bind (Keeps-gets Fits (λ w ok. ok.1 file)) λ i h.
          store-Keeps file
            (increment_version (record i {
              i_mode =
                  bit_or (bit_and i.i_mode linux_s_ifmt) (bit_and mode not_linux_s_ifmt) % 2 ^ 16;
            }))
            (ground arith))

  pub node_ext2fs_chown-Keeps :
      (file uid gid : ℕ) → KeepsCmd Stored Any (node_ext2fs_chown lib file uid gid)
  unfolding node_ext2fs_chown
  node_ext2fs_chown-Keeps file uid gid = Keeps-function (
      Keeps-bind (Keeps-call_neg (read_file_inode-Keeps file)) λ _ _.
        Keeps-bind (Keeps-gets Fits (λ w ok. ok.1 file)) λ i h.
          store-Keeps file
            (increment_version
              (record i { i_uid = bit_and uid 0xffff; i_gid = bit_and gid 0xffff }))
            (ground (arith, bit_and-bound 16 uid 0xffff, bit_and-bound 16 gid 0xffff)))

  pub node_ext2fs_close-Keeps : (file : ℕ) → KeepsCmd Stored Any (node_ext2fs_close lib file)
  unfolding node_ext2fs_close
  node_ext2fs_close-Keeps file = record { at = λ w ok. (tt, ((laws.file_close file).at w ok).1) }
