-- ===== src/Tests/World.antt =====
-- A world with a few directories and files, a disk and its channels, for the examples.
use node_ext2fs.Base.{ℕ, pos, ◌%◌, true, false, [], ◌∷◌, ◌||◌, ◌==◌, if◌then◌else◌}
use Prim.Native.Char.{code}
use Prim.Native.String.{String}
use node_ext2fs.Create.{zero_inode}
use node_ext2fs.Ext2.Filsys.{Bytes, Ino, World}
use node_ext2fs.Ext2.Inode.{InodeLarge}
use node_ext2fs.Ext2.Library.{Timespec}
use node_ext2fs.Tests.Memory.{Store, blank_file}
use node_ext2fs.Names.{Name}
use node_ext2fs.Io.{IoChannel}

abbrev pub large : (mode links : ℕ) → InodeLarge
large mode links = record {
  base = record zero_inode { i_mode = mode; i_links_count = links };
  i_extra_isize = 28;
  i_checksum_hi = 0;
  i_ctime_extra = 0;
  i_mtime_extra = 0;
  i_atime_extra = 0;
  i_crtime = 0;
  i_crtime_extra = 0;
  i_version_hi = 0;
  i_projid = 0;
}

-- The characters of a text.
abbrev pub codes : String → Bytes
codes String.[] = []
codes (String.◌∷◌ c s) = code c ∷ codes s

abbrev pub entry : Ino → String → Ino → Name
entry dir name ino = record { dir = dir; name = codes name; ino = ino }

-- The root, the directory `/d` with the file `/d/f` in it, and the empty directory `/e`.
abbrev pub store : Store
store = record {
  inodes = λ ino.
      if ino == 2
      then large 0o040755 4
      else if ino == 11
      then large 0o040755 2
      else if ino == 12
      then large 0o100644 1
      else if ino == 13
      then large 0o040755 2
      else large 0 0;
  entries =
      entry 2 "." 2
      ∷ entry 2 ".." 2
      ∷ entry 2 "d" 11
      ∷ entry 11 "." 11
      ∷ entry 11 ".." 2
      ∷ entry 11 "f" 12
      ∷ entry 2 "e" 13
      ∷ entry 13 "." 13
      ∷ entry 13 ".." 2
      ∷ [];
  last_inode = 13;
  used = λ b. b == 1 || b == 4;
  discarded = λ b. false;
  contents = λ ino. [];
  seconds = 1700000000;
}

abbrev pub world : World Store
world = record {
  fs = record {
    flags = 1;
    super = record {
      s_inodes_count = 64;
      s_blocks_count = 8;
      s_r_blocks_count = 0;
      s_free_blocks_count = 6;
      s_free_inodes_count = 50;
      s_first_data_block = 1;
      s_feature_compat = 0;
      s_feature_incompat = 0;
      s_feature_ro_compat = 0;
    };
    blocksize = 1024;
    block_map = true;
  };
  files = λ p. blank_file 12 (large 0o100644 1).base;
  arrays = λ id. [];
  heap = λ p. [];
  lib = store;
}

abbrev pub channel : IoChannel
channel = record { magic = 0; block_size = 1024; private_data = 3 }

abbrev pub disk : ℕ → ℕ
disk n = n % 256

abbrev pub stamp : Timespec
stamp = record { tv_sec = pos 2200000000; tv_nsec = 999999999 }

abbrev pub channel_64k : IoChannel
channel_64k = record { magic = 0; block_size = 65536; private_data = 3 }
