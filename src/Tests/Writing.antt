-- ===== src/Tests/Writing.antt =====
-- The theorems on the files of lib/fs.js at inputs that meet their hypotheses.
use text.Mathlib.Text.{◌==◌ as ◌str_eq◌}
use node_ext2fs.Base.{ℕ, neg, none, [], ◌∷◌, ◌||◌, ◌≡◌, refl, bit_or, false}
use node_ext2fs.Ext2.Errors.{ebadf}
use node_ext2fs.Ext2.Filsys.{World}
use node_ext2fs.Ext2.Modes.{o_wronly, o_creat, o_trunc}
use node_ext2fs.Files.{node_ext2fs_read, node_ext2fs_write}
use node_ext2fs.Js.Files.{Platform, Client, path_name, buffer, string, append_file, write_file}
use node_ext2fs.Js.Files.Whole.{emptied_and_written, append_file-write_file}
use node_ext2fs.Js.Options.{str, object, keys, contains, get_options, string_to_flags}
use node_ext2fs.Js.Options.Access.{Agrees, string_to_flags-guards}
use node_ext2fs.Tests.Memory.{Store, memory}
use node_ext2fs.Tests.World.{codes, world}

abbrev flags_w : ℕ
flags_w = bit_or (bit_or o_trunc o_creat) o_wronly

string_to_flags-guards_example :
    Agrees "w" flags_w
    × ((file buffer length position : ℕ) (w : World Store)
        → ((contains b'r' "w" || contains b'+' "w") ≡ false
            → node_ext2fs_read memory file flags_w buffer length position w ≡ (neg ebadf, w))
          × ((contains b'w' "w" || contains b'a' "w" || contains b'+' "w") ≡ false
              → node_ext2fs_write memory file flags_w buffer length position w ≡ (neg ebadf, w)))
unfolding string_to_flags
string_to_flags-guards_example = string_to_flags-guards memory "w" flags_w refl

abbrev node : Platform Store
node = record {
  is_encoding = λ e. e str_eq "utf8";
  buffer_from = λ s encoding. codes s;
  parse_octal = λ s. 0;
  malloc = λ n w. (4096, w);
  free = λ p w. w;
}

abbrev client : Client Store
client = record { world = world; open_files = λ fd. none }

append_file-write_file_example :
    (append_file memory node
        (path_name (codes "/d/f"))
        (string "text")
        (keys (object (("encoding", str "utf8") ∷ [])))
        client
      ≡ emptied_and_written memory node (path_name (codes "/d/f")) (string "text") client)
    × (write_file memory node
          (path_name (codes "/d/f"))
          (string "text")
          (keys (object (("encoding", str "utf8") ∷ [])))
          client
        ≡ emptied_and_written memory node (path_name (codes "/d/f")) (string "text") client)
unfolding get_options
append_file-write_file_example =
    append_file-write_file memory node (path_name (codes "/d/f")) (string "text")
      (keys (object (("encoding", str "utf8") ∷ []))) client refl (λ e. cc)
