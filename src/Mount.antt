-- ===== src/Mount.antt =====
-- Mounting and unmounting in src/glue.c, and how the number of a JavaScript disk travels as text
-- through `ext2fs_open` to the I/O manager.
use node_ext2fs.Base.{
  ℕ, zero, suc, ℤ, neg, signed32, ◌+◌, ◌-◌, ◌*◌, ◌/◌, ◌%◌, ltb, leb, [], ◌∷◌, ◌++◌, ◌&&◌,
  if◌then◌else◌,
}
use node_ext2fs.Ext2.Filsys.{Bytes}
use node_ext2fs.Ext2.Library.{Ext2fs, Cmd}
use node_ext2fs.Ext2.Modes.{ext2_flag_rw}
use node_ext2fs.Prog.{◌>>=◌, ◌>>◌, pure, call_neg, function}

-- `sprintf(s, "%d", n)` of a number that is not negative, on fuel: a 32-bit number has at most ten
-- digits.
unfoldable pub digits : (fuel n : ℕ) → Bytes
digits zero n = []
digits (suc f) n =
    let before = digits f (n / 10) in (if ltb n 10 then [] else before) ++ (n % 10 + 0x30) ∷ []

unfoldable pub sprintf_d : ℕ → Bytes
unfolding digits
sprintf_d n = digits 10 n

-- `sscanf(s, "%d", &n)` of a text that begins with a digit: the digits up to another character.
unfoldable pub sscanf_d : (acc : ℕ) → Bytes → ℕ
sscanf_d acc [] = acc
sscanf_d acc (c ∷ s) =
    let rest = sscanf_d (acc * 10 + (c - 0x30)) s in if leb 0x30 c && leb c 0x39 then rest else acc

module _ {D : Type 0} (lib : Ext2fs D) where
  -- A filesystem whose bitmaps cannot be read stays open.
  unfoldable pub node_ext2fs_mount : (disk_id : ℕ) → Cmd D ℤ
  unfolding sprintf_d
  node_ext2fs_mount disk_id = function do
    fs ← call_neg (lib.fs_open (sprintf_d disk_id) ext2_flag_rw)
    call_neg lib.read_bitmaps
    pure (signed32 fs)

  unfoldable pub node_ext2fs_umount : Cmd D ℤ
  node_ext2fs_umount w = let (e, _, w') = lib.fs_close w in (neg e, w')
