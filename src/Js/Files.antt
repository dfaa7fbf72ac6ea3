-- ===== src/Js/Files.antt =====
-- lib/fs.js: opening, writing and closing files, and the functions that write a whole file. Each
-- call of src/glue.c is one step: what other calls do while it is awaited is not modelled.
pub mod Whole
pub mod Loop
pub mod Closed
use Prim.Native.String.{String}
use text.Mathlib.Text.{◌==◌ as ◌str_eq◌}
use node_ext2fs.Base.{
  ℕ, zero, suc, ◌+◌, ◌-◌, ◌%◌, ◌^◌, pos_part, Bool, true, false, Option, none, some, List, [], ◌∷◌,
  ◌++◌, ◌==◌, length, take, if◌then◌else◌,
}
use node_ext2fs.Ext2.Errors.{ebadf}
use node_ext2fs.Ext2.Filsys.{Bytes, World}
use node_ext2fs.Ext2.Library.{Ext2fs, Cmd}
use node_ext2fs.Files.{no_position, node_ext2fs_open, node_ext2fs_write, node_ext2fs_close}
use node_ext2fs.Js.Calls.{ErrnoException, errno_exception, Result, returned, threw, ccall_throw}
use node_ext2fs.Js.Options.{
  Value, contains, num, str, Object, spread, object, Options, keys, get_options, string_to_flags,
  mode_num,
}
use node_ext2fs.Js.Paths.{use_path}

-- What the code takes from node and from the C library: the encodings of buffers, `parseInt(m, 8)` as
-- C gets it, and the memory of `malloc_from_js` and `free_from_js`.
pub record Platform (D : Type 0) : Type 0 where
  pub is_encoding : String → Bool
  pub buffer_from : String → Value → Bytes
  pub parse_octal : String → ℕ
  pub malloc : (length : ℕ) → Cmd D ℕ
  pub free : (address : ℕ) → World D → World D

-- The state of C, and `openFiles`: the flags of each descriptor.
pub record Client (D : Type 0) : Type 0 where
  pub world : World D
  pub open_files : ℕ → Option ℕ

-- An exception with an errno value, or another one.
pub data Failure : Type 0 where
  exception : ErrnoException → Failure
  error : Failure

pub data Outcome (A : Type 0) : Type 0 where
  value : A → Outcome A
  failed : Failure → Outcome A

abbrev pub Action : Type 0 → Type 0 → Type 0
Action D A = Client D → Outcome A × Client D

-- What a function that writes a whole file gets as its `path` and as its `data`.
pub data Target : Type 0 where
  descriptor : ℕ → Target
  path_name : Bytes → Target

pub data Data : Type 0 where
  buffer : Bytes → Data
  string : String → Data

abbrev pub and_then :
    {D A B : Type 0} → Outcome A × Client D → (A → Action D B) → Outcome B × Client D
and_then (value a, c) k = k a c
and_then (failed f, c) k = (failed f, c)

abbrev pub drop : ℕ → Bytes → Bytes
drop zero bytes = bytes
drop (suc n) [] = []
drop (suc n) (b ∷ bytes) = drop n bytes

-- `source.copy(target, 0, start, start + length)`
abbrev pub copy : Bytes → (start length : ℕ) → Bytes → Bytes
copy source start n target =
    let copied = take n (drop start source) in copied ++ drop (length copied) target

abbrev pub set_heap : {D : Type 0} → ℕ → Bytes → World D → World D
set_heap address bytes w = record w { heap = λ p. if p == address then bytes else w.heap p }

-- A number as C gets it, with -1 for the position that is no number.
abbrev pub position_of : Option ℕ → ℕ
position_of none = no_position
position_of (some p) = p % 2 ^ 32

abbrev pub called : {D : Type 0} → Result → Client D → Outcome ℕ × Client D
called (returned n) c = (value (pos_part n), c)
called (threw e) c = (failed (exception e), c)

abbrev pub plus : Option ℕ → ℕ → Option ℕ
plus none n = none
plus (some p) n = some (p + n)

-- `/a/.test(flag)`
abbrev pub tests_a : Option Value → Bool
tests_a (some (str s)) = contains b'a' s
tests_a flag = false

-- `encoding || 'utf8'`
abbrev pub or_utf8 : Option Value → Value
or_utf8 (some (str s)) = if s str_eq "" then str "utf8" else str s
or_utf8 (some (num (suc n))) = num (suc n)
or_utf8 encoding = str "utf8"

abbrev pub file_defaults : Object
file_defaults = object (("encoding", str "utf8") ∷ ("mode", num 0o666) ∷ ("flag", str "w") ∷ [])

abbrev pub append_defaults : Object
append_defaults = object (("encoding", str "utf8") ∷ ("mode", num 0o666) ∷ [])

-- One round of the loop of `writeAll` behind its `write`, and the rounds after it.
abbrev pub after_round :
    {D : Type 0}
    → (length : ℕ) → (ℕ → Client D → Option (Outcome (Unit {0})) × Client D)
    → Outcome ℕ × Client D
    → Option (Outcome (Unit {0})) × Client D
after_round n again (failed f, c) = (some (failed f), c)
after_round n again (value written, c) = elim (written == n) [
  | true ↦ (some (value tt), c)
  | false ↦ again written c
]

-- `openFiles.set(fd, flags)` and `openFiles.delete(fd)` behind the calls.
abbrev pub set_open_file : {D : Type 0} → (flags fd : ℕ) → Action D ℕ
set_open_file flags fd c =
    (value fd, record c { open_files = λ f. if f == fd then some flags else c.open_files f })

abbrev pub delete_open_file : {D : Type 0} → (fd : ℕ) → ℕ → Action D (Unit {0})
delete_open_file fd result c =
    (value tt, record c { open_files = λ f. if f == fd then none else c.open_files f })

-- What becomes of the result of a block when `close` has run.
abbrev pub after_close :
    {D A : Type 0} → Outcome A → Outcome (Unit {0}) × Client D → Option (Outcome A) × Client D
after_close r (failed f, c) = (some (failed f), c)
after_close r (value _, c) = (some r, c)

module _ {D : Type 0} (lib : Ext2fs D) (node : Platform D) where
  abbrev pub open_with : (path : Option Bytes) (flags mode : Option ℕ) → Action D ℕ
  open_with (some path) (some flags) (some mode) c =
      let (r, w) = node_ext2fs_open lib path flags mode c.world in
      and_then (called (ccall_throw r) (record c { world = w })) (set_open_file flags)
  open_with path flags mode c = (failed error, c)

  unfoldable pub open_file : Bytes → (flags mode : Option Value) → Action D ℕ
  open_file path flags mode =
      open_with (use_path path) (string_to_flags flags)
        (mode_num node.parse_octal mode (some 0o666))

  -- `checkFd`, and what comes behind it with the flags of the descriptor.
  abbrev pub check_fd : {A : Type 0} → Option ℕ → (ℕ → Action D A) → Action D A
  check_fd none k c = (failed (exception (errno_exception ebadf)), c)
  check_fd (some flags) k c = k flags c

  unfoldable pub close : ℕ → Action D (Unit {0})
  close fd c =
      check_fd (c.open_files fd)
        (λ flags c.
          let (r, w) = node_ext2fs_close lib fd c.world in
          and_then (called (ccall_throw r) (record c { world = w })) (delete_open_file fd))
        c

  -- `writeBuffer` behind `checkFd`; `free` is that of the hook.
  abbrev pub write_checked :
      (fd : ℕ) → Bytes → (offset length : ℕ) → (position : Option ℕ) → (flags : ℕ) → Action D ℕ
  write_checked fd bytes offset n position flags c =
      let (p, w) = node.malloc n c.world in
      let w' = set_heap p (copy bytes offset n (w.heap p)) w in
      let (r, w'') = node_ext2fs_write lib fd flags p n (position_of position) w' in
      called (ccall_throw r) (record c { world = node.free p w'' })

  unfoldable pub write_buffer :
      (fd : ℕ) → Bytes → (offset length : ℕ) → (position : Option ℕ) → Action D ℕ
  write_buffer fd bytes offset n position c =
      check_fd (c.open_files fd) (write_checked fd bytes offset n position) c

  -- `write` of a buffer: an offset that is a number is dropped, and without a length the length is
  -- then `NaN`, which C gets as 0.
  unfoldable pub write : (fd : ℕ) → Bytes → (offset length position : Option ℕ) → Action D ℕ
  write fd bytes (some offset) (some n) position = write_buffer fd bytes 0 n position
  write fd bytes (some offset) none position = write_buffer fd bytes 0 0 position
  write fd bytes none (some n) position = write_buffer fd bytes 0 n position
  write fd bytes none none position = write_buffer fd bytes 0 (length bytes) position

  -- `writeAll` with as many rounds of its loop as the fuel has; none if it has not come to its end.
  unfoldable pub write_all :
      (fuel fd : ℕ)
      → Bytes
      → (offset length : ℕ) → (position : Option ℕ) → Client D
      → Option (Outcome (Unit {0})) × Client D
  write_all zero fd bytes offset n position c = (none, c)
  write_all (suc fuel) fd bytes offset n position c =
      after_round n
        (λ written c'.
          write_all fuel fd bytes (offset + written) (n - written) (plus position written) c')
        (write fd bytes (some offset) (some n) position c)

  -- `finally { await close(fd); }` behind a block that has come to its end.
  abbrev pub finally_close :
      {A : Type 0} → (fd : ℕ) → Option (Outcome A) × Client D → Option (Outcome A) × Client D
  finally_close fd (none, c) = (none, c)
  finally_close fd (some r, c) = after_close r (close fd c)

  abbrev pub opened :
      {A : Type 0}
      → Outcome ℕ × Client D
      → (ℕ → Client D → Option (Outcome A) × Client D)
      → Option (Outcome A) × Client D
  opened (failed f, c) k = (some (failed f), c)
  opened (value fd, c) k = finally_close fd (k fd c)

  abbrev pub bytes_of : Data → (encoding : Option Value) → Bytes
  bytes_of (buffer bytes) encoding = bytes
  bytes_of (string s) encoding = node.buffer_from s (or_utf8 encoding)

  -- `writeAll` of a whole buffer, with one round for each byte and one more.
  abbrev pub write_whole :
      Bytes → (position : Option ℕ) → (fd : ℕ) → Client D → Option (Outcome (Unit {0})) × Client D
  write_whole bytes position fd = write_all (suc (length bytes)) fd bytes 0 (length bytes) position

  -- `writeFile` from its options on. A descriptor in the place of the path is not used: `fd` is read
  -- before it is set.
  abbrev pub write_file_with :
      Target → Data → Option Object → Client D → Option (Outcome (Unit {0})) × Client D
  write_file_with target contents none c = (some (failed error), c)
  write_file_with (descriptor n) contents (some options) c = (some (failed error), c)
  write_file_with (path_name p) contents (some options) c =
      let flag = options "flag" in
      opened (open_file p flag (options "mode") c) (
        write_whole (bytes_of contents (options "encoding"))
          (if tests_a flag then none else some 0))

  unfoldable pub write_file :
      Target → Data → Options → Client D → Option (Outcome (Unit {0})) × Client D
  write_file target contents options =
      write_file_with target contents (get_options node.is_encoding options file_defaults)

  abbrev pub append_file_with :
      Target → Data → Option Object → Client D → Option (Outcome (Unit {0})) × Client D
  append_file_with target contents none c = (some (failed error), c)
  append_file_with target contents (some options) c =
      write_file target contents (keys (spread options (object (("flag", str "a") ∷ [])))) c

  unfoldable pub append_file :
      Target → Data → Options → Client D → Option (Outcome (Unit {0})) × Client D
  append_file target contents options =
      append_file_with target contents (get_options node.is_encoding options append_defaults)
