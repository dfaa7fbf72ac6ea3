-- ===== src/Io/Ranges.antt =====
-- Which bytes of the disk a call of the I/O manager reads, writes and discards, and how a disk's
-- number comes through the name that `ext2fs_open` is given.
use node_ext2fs.Base.{
  ℕ, zero, suc, pos, signed32, ◌+◌, ◌*◌, ◌-◌, ◌/◌, ◌%◌, ◌^◌, ◌≤◌, ◌<◌, Bool, true, false, some,
  List, [], ◌∷◌, ◌++◌, take, replicate, length, ltb, leb-of_le, Bool-cases, inl, inr, ◌==◌, wrap,
  ◌≡◌, refl, ap, arith, if◌then◌else◌,
}
use native.Mathlib.Nat.{pow-suc}
use node_ext2fs.Ext2.Errors.{eio, ext2_et_magic_io_channel}
use node_ext2fs.Ext2.Filsys.{Bytes}
use node_ext2fs.Io.{
  Disks, IoChannel, to_short, byte_offset, byte_size, read_status, status, js_read_blk64_entry,
  js_read_blk_entry, js_write_blk64_entry, js_discard_entry, js_zeroout_entry, js_open_entry,
}
use node_ext2fs.Mount.{digits, sprintf_d, sscanf_d}

low_word : (n : ℕ) → n < 2 ^ 32 → n % 2 ^ 32 ≡ n
low_word n h = omega arith

take-length {ℓ} : {A : Type ℓ} (xs : List A) → take (length xs) xs ≡ xs
take-length [] = refl
take-length (x ∷ xs) = ap (λ t. x ∷ t) (take-length xs)

to_short-small : (n : ℕ) → n < 2 ^ 15 → to_short n ≡ pos n
to_short-small n h = ground arith

byte_offset-pos :
    (bs block : ℕ)
    → bs < 2 ^ 15
    → block < 2 ^ 31
    → byte_offset (to_short bs) block ≡ pos (block * bs)
unfolding byte_offset
byte_offset-pos bs block hb h = rw (to_short-small bs hb) (ground arith)

byte_size-pos :
    (bs count : ℕ) → bs < 2 ^ 15 → count < 2 ^ 31 → byte_size (to_short bs) count ≡ pos (count * bs)
unfolding byte_size
byte_size-pos bs count hb h = rw (to_short-small bs hb) (ground arith)

take-replicate {ℓ} : {A : Type ℓ} (n : ℕ) (a : A) → take n (replicate n a) ≡ replicate n a
take-replicate zero a = refl
take-replicate (suc n) a = ap (λ t. a ∷ t) (take-replicate n a)

-- The 64-bit size, and its 32 bits, lose nothing.
word_size :
    (bs count : ℕ)
    → bs < 2 ^ 15
    → count * bs < 2 ^ 32
    → count * wrap 64 (signed32 bs) % 2 ^ 64 % 2 ^ 32 ≡ count * bs
word_size bs count h fits = let e : wrap 64 (signed32 bs) ≡ bs = ground arith in rw e (omega arith)

-- The two ends of `js_zeroout_entry`, by whether the write succeeded.
zeroed :
    {S : Type 0} (r : Bool × S) (k : S → ℕ × S)
    → ◌≡◌ {A = ℕ × S}
        (if status r.0 == 0 then k r.1 else (status r.0, r.1))
        (if r.0 then k r.1 else (eio, r.1))
zeroed (true, s) k = refl
zeroed (false, s) k = refl

module _ {S : Type 0} (disks : Disks S) (channel : IoChannel) (block count : ℕ)
    (small_blocks : channel.block_size < 2 ^ 15) (low : block < 2 ^ 31) (few : count < 2 ^ 31) where
  -- With a block size below 2^15, and a block number and a count below 2^31, a read, a write of as
  -- many bytes and a discard address `count * block_size` bytes at `block * block_size`.
  pub js_entries-ranges :
      (bytes : Bytes) (s : S)
      → length bytes ≡ count * channel.block_size
      → let offset = pos (block * channel.block_size) in
        let size = pos (count * channel.block_size) in
        let id = channel.private_data in
        (js_read_blk64_entry disks channel block count s ≡ (
          read_status (disks.read id size offset s).0,
          (disks.read id size offset s).0,
          (disks.read id size offset s).1,
        ))
        × (js_write_blk64_entry disks channel block count bytes s
            ≡ (status (disks.write id bytes offset s).0, (disks.write id bytes offset s).1))
        × (js_discard_entry disks channel block count s
            ≡ (status (disks.discard id offset size s).0, (disks.discard id offset size s).1))
  unfolding js_read_blk64_entry js_write_blk64_entry js_discard_entry
  js_entries-ranges bytes s len =
      let b = low_word block (omega arith) in
      let c = low_word count (omega arith) in
      let o = byte_offset-pos channel.block_size block small_blocks low in
      let z = byte_size-pos channel.block_size count small_blocks few in
      (rw (b, o, z), rw (b, o, z, ← len, take-length bytes), rw (b, c, o, z))

  -- With a block size below 2^15, a block number and a count below 2^31, and fewer than 2^32 bytes
  -- in all, zeroing writes as many zero bytes there, and discards the same bytes if the write
  -- succeeds; if it fails the result is `EIO`.
  js_zeroout_entry_lem :
      (s : S)
      → count * channel.block_size < 2 ^ 32
      → let offset = pos (block * channel.block_size) in
        let size = count * channel.block_size in
        let id = channel.private_data in
        let (written, s₁) = disks.write id (replicate size 0) offset s in
        js_zeroout_entry disks channel block count s ≡ (
          if written
          then (
            status (disks.discard id offset (pos size) s₁).0,
            (disks.discard id offset (pos size) s₁).1,
          )
          else (eio, s₁))
  unfolding js_zeroout_entry
  js_zeroout_entry_lem s fits =
      let b = low_word block (omega arith) in
      let c = low_word count (omega arith) in
      let o = byte_offset-pos channel.block_size block small_blocks low in
      let z = byte_size-pos channel.block_size count small_blocks few in
      let w = word_size channel.block_size count small_blocks fits in
      rw (b, c, o, z, w, take-replicate {A = ℕ} (count * channel.block_size) 0)
        (zeroed (disks.write _ _ _ s) λ s₁.
          let (r, s₂) =
            disks.discard channel.private_data (pos (block * channel.block_size))
              (pos (count * channel.block_size)) s₁ in
          (status r, s₂))

byte_offset_zero : (n : ℕ) → byte_offset (pos 0) n ≡ pos 0
unfolding byte_offset
byte_offset_zero n = ground arith

byte_size_zero : (n : ℕ) → n < 2 ^ 31 → byte_size (pos 0) n ≡ pos 0
unfolding byte_size
byte_size_zero n h = ground arith

-- With blocks of 64 KiB the block size is 0 as a `short`: a read of any blocks, up to 2^31 of them,
-- asks the disk for no byte, at its start.
pub js_read_blk_entry-64k :
    {S : Type 0} (disks : Disks S) (channel : IoChannel) (block count : ℕ) (s : S)
    → channel.block_size ≡ 2 ^ 16
    → count < 2 ^ 31
    → js_read_blk_entry disks channel block count s ≡ (
      read_status (disks.read channel.private_data (pos 0) (pos 0) s).0,
      (disks.read channel.private_data (pos 0) (pos 0) s).0,
      (disks.read channel.private_data (pos 0) (pos 0) s).1,
    )
unfolding js_read_blk_entry
js_read_blk_entry-64k disks channel block count s is_64k few =
    rw (is_64k, byte_offset_zero block, byte_size_zero count few)

abbrev IsDigits : Bytes → Type 0
IsDigits [] = Unit
IsDigits (c ∷ s) = (0x30 ≤ c) × (c ≤ 0x39) × IsDigits s

sscanf_d-append :
    (acc : ℕ) (s t : Bytes) → IsDigits s → sscanf_d acc (s ++ t) ≡ sscanf_d (sscanf_d acc s) t
unfolding sscanf_d
sscanf_d-append acc [] t h = refl
sscanf_d-append acc (c ∷ s) t h =
    rw (leb-of_le 0x30 c h.0, leb-of_le c 0x39 h.1)
      (sscanf_d-append (acc * 10 + (c - 0x30)) s t h.2)

IsDigits-append : (s : Bytes) (c : ℕ) → IsDigits s → 0x30 ≤ c → c ≤ 0x39 → IsDigits (s ++ c ∷ [])
IsDigits-append [] c h lo hi = (lo, hi, tt)
IsDigits-append (x ∷ s) c h lo hi = (h.0, h.1, IsDigits-append s c h.2 lo hi)

digits-IsDigits : (f n : ℕ) → IsDigits (digits f n)
unfolding digits
digits-IsDigits zero n = tt
digits-IsDigits (suc f) n =
    IsDigits-append _ _ (first_digits (ltb n 10) (digits f (n / 10)) (digits-IsDigits f (n / 10)))
      (omega arith) (omega arith)
  where
    first_digits : (c : Bool) (s : Bytes) → IsDigits s → IsDigits (if c then [] else s)
    first_digits true s h = tt
    first_digits false s h = h

sscanf_d-nil : (acc : ℕ) → sscanf_d acc [] ≡ acc
unfolding sscanf_d
sscanf_d-nil acc = refl

sscanf_d-one : (acc d : ℕ) → d < 10 → sscanf_d acc ((d + 0x30) ∷ []) ≡ acc * 10 + d
unfolding sscanf_d
sscanf_d-one acc d h = ground arith

sscanf_d-digits : (f n : ℕ) → n < 10 ^ f → sscanf_d 0 (digits f n) ≡ n
unfolding digits
sscanf_d-digits zero n h = let e : n ≡ 0 = omega arith in rw e (sscanf_d-nil 0)
sscanf_d-digits (suc f) n h = elim (Bool-cases (ltb n 10)) [
  | inl small ↦ rw (small, sscanf_d-one 0 (n % 10) (omega arith)) (ground arith)
  | inr large ↦
      rw
        (
          large,
          sscanf_d-append 0 (digits f (n / 10)) ((n % 10 + 0x30) ∷ []) (digits-IsDigits f (n / 10)),
          sscanf_d-digits f (n / 10) (omega (arith, pow-suc 10 f)),
          sscanf_d-one (n / 10) (n % 10) (omega arith),
        )
        (omega arith)
]

-- The disk number below 10^10 that `node_ext2fs_mount` writes as the name of the filesystem is the
-- one that the opened channel keeps, if memory for the channel is there.
pub js_open_entry-sprintf_d :
    (id : ℕ)
    → id < 10 ^ 10
    → js_open_entry 0 (sprintf_d id)
      ≡ (0, some (record { magic = ext2_et_magic_io_channel; block_size = 0; private_data = id }))
unfolding js_open_entry sprintf_d
js_open_entry-sprintf_d id h = rw (sscanf_d-digits 10 id h)
