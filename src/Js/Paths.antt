-- ===== src/Js/Paths.antt =====
-- lib/util.js, `usePath`: how a path of the callers becomes a C string. A string is its bytes in UTF-8.
pub mod Named
use node_ext2fs.Base.{
  ℕ, zero, suc, Bool, true, false, Option, none, some, List, [], ◌∷◌, ◌||◌, ◌==◌, length, take,
  if◌then◌else◌,
}
use node_ext2fs.Ext2.Filsys.{Bytes}
use node_ext2fs.Paths.{slash}

-- `buf[i]`, none for `undefined`.
abbrev pub byte_at : Bytes → ℕ → Option ℕ
byte_at [] i = none
byte_at (b ∷ buf) zero = some b
byte_at (b ∷ buf) (suc i) = byte_at buf i

abbrev pub is_slash : Option ℕ → Bool
is_slash none = false
is_slash (some b) = b == slash

-- `while (buf[--end] === 0x2f);` and `buf.slice(0, end + 1)`
unfoldable pub strip_to : (end : ℕ) → Bytes → Bytes
strip_to zero buf = []
strip_to (suc end) buf =
    let shorter = strip_to end buf in
    if is_slash (byte_at buf end) then shorter else take (suc end) buf

abbrev pub rstrip_slashes_buffer : Bytes → Bytes
rstrip_slashes_buffer buf = strip_to (length buf) buf

abbrev pub has_nul : Bytes → Bool
has_nul [] = false
has_nul (b ∷ buf) = b == 0 || has_nul buf

-- `usePath`: the C string that is passed, none where `checkPath` throws.
unfoldable pub use_path : Bytes → Option Bytes
use_path path = if has_nul path then none else some (rstrip_slashes_buffer path)
