-- ===== src/Times/Extra.antt =====
-- The extra word of a time stamp holds what its 32-bit field loses.
use node_ext2fs.Base.{
  ℕ, ℤ, pos, negsuc, wrap, shr_ℤ, signed32, ◌+ℤ◌, ◌-ℤ◌, ◌+◌, ◌*◌, ◌-◌, ◌/◌, ◌%◌, ◌^◌, ◌<◌, ◌≤◌,
  ◌≤ℤ◌, ◌∙◌, ap, leb-of_le, bit_and, ◌≡◌, arith,
}
use node_ext2fs.Base.Bits.{bit_and_split, bit_and-zero, bit_or_low_high, bit_and_ones}
use node_ext2fs.Ext2.Inode.{InodeLarge}
use node_ext2fs.Ext2.Library.{Timespec}
use node_ext2fs.Times.{
  ext4_nsec_mask, ext4_encode_extra_time, ext4_decode_extra_time, get_xtime, get_atime, set_atime,
  get_mtime, set_mtime,
}

-- The mask of the two low bits, and the mask of the others.
and_three : (a : ℕ) → bit_and a 3 ≡ a % 4
and_three a =
    ground
      (arith, bit_and_split 2 (a / 4) 0 (a % 4) 3, bit_and-zero (a / 4), bit_and_ones 2 (a % 4))

and_nsec_mask : (a : ℕ) → a < 2 ^ 32 → bit_and a ext4_nsec_mask / 4 ≡ a / 4
and_nsec_mask a h = ground (
  arith,
  bit_and_split 2 (a / 4) (2 ^ 30 - 1) (a % 4) 0,
  bit_and-zero (a % 4),
  bit_and_ones 30 (a / 4),
)

-- The bits of the seconds above those that the 32-bit field keeps.
high_bits : ℤ → ℕ
high_bits sec = wrap 64 (shr_ℤ (sec -ℤ signed32 (wrap 32 sec)) 32)

high_bits-pos : (n : ℕ) → n < 2 ^ 34 - 2 ^ 31 → high_bits (pos n) ≡ (n + 2 ^ 31) / 2 ^ 32
unfolding high_bits
high_bits-pos n h = ground arith

high_bits-negsuc : (n : ℕ) → n < 2 ^ 31 → high_bits (negsuc n) ≡ 0
unfolding high_bits
high_bits-negsuc n h = ground arith

encode-sum :
    (t : Timespec)
    → t.tv_nsec < 2 ^ 30
    → ext4_encode_extra_time t ≡ high_bits t.tv_sec % 4 + t.tv_nsec * 4
unfolding ext4_encode_extra_time high_bits
encode-sum t h =
    ground
      (arith, and_three (high_bits t.tv_sec), bit_or_low_high 2 t.tv_nsec (high_bits t.tv_sec % 4))

-- The extra word from its two parts, and back.
decode-parts :
    (sec : ℤ) (e n : ℕ)
    → e < 4
    → n < 2 ^ 30
    → ext4_decode_extra_time sec (e + n * 4)
      ≡ record { tv_sec = sec +ℤ pos (e * 2 ^ 32); tv_nsec = n }
unfolding ext4_decode_extra_time
decode-parts sec e n he hn = ground (arith, and_three (e + n * 4), and_nsec_mask (e + n * 4))

-- The seconds fit the 34 bits of the two fields, and the nanoseconds their 30 bits.
abbrev pub IsStampable : Timespec → Type 0
IsStampable t =
    (negsuc (2 ^ 31 - 1) ≤ℤ t.tv_sec)
    × (t.tv_sec ≤ℤ pos (2 ^ 34 - 2 ^ 31 - 1))
    × (t.tv_nsec < 2 ^ 30)

seconds-pos :
    (n : ℕ)
    → n < 2 ^ 34 - 2 ^ 31
    → signed32 (wrap 32 (pos n)) +ℤ pos ((n + 2 ^ 31) / 2 ^ 32 % 4 * 2 ^ 32) ≡ pos n
seconds-pos n h = ground arith

seconds-negsuc :
    (n : ℕ) → n < 2 ^ 31 → signed32 (wrap 32 (negsuc n)) +ℤ pos (0 % 4 * 2 ^ 32) ≡ negsuc n
seconds-negsuc n h = ground arith

decode-encode :
    (sec : ℤ) (k : ℕ)
    → IsStampable (record { tv_sec = sec; tv_nsec = k })
    → ext4_decode_extra_time
        (signed32 (wrap 32 sec))
        (ext4_encode_extra_time (record { tv_sec = sec; tv_nsec = k }))
      ≡ record { tv_sec = sec; tv_nsec = k }
decode-encode (pos n) k h =
    rw (encode-sum (record { tv_sec = pos n; tv_nsec = k }) h.2, high_bits-pos n (omega arith))
      (decode-parts (signed32 (wrap 32 (pos n))) _ k (omega arith) h.2
        ∙ ap (λ s. record { tv_sec = s; tv_nsec = k }) (seconds-pos n (omega arith)))
decode-encode (negsuc n) k h =
    rw
      (encode-sum (record { tv_sec = negsuc n; tv_nsec = k }) h.2, high_bits-negsuc n (omega arith))
      (decode-parts (signed32 (wrap 32 (negsuc n))) _ k (omega arith) h.2
        ∙ ap (λ s. record { tv_sec = s; tv_nsec = k }) (seconds-negsuc n (omega arith)))

-- In an inode with room for the extra fields, a stamp whose seconds are at least -2^31 and below
-- 2^34 - 2^31 and whose nanoseconds are below 2^30 is read back as it was set: the last access, and
-- the last modification.
pub get_xtime-set_xtime :
    (t : Timespec) (i : InodeLarge)
    → IsStampable t
    → 16 ≤ i.i_extra_isize
    → (get_atime (set_atime t i) ≡ t) × (get_mtime (set_mtime t i) ≡ t)
unfolding get_atime set_atime get_mtime set_mtime get_xtime
get_xtime-set_xtime t i h room =
    let fits = leb-of_le (140 + 4) (128 + i.i_extra_isize) (omega arith) in
    let fits' = leb-of_le (136 + 4) (128 + i.i_extra_isize) (omega arith) in
    (
      rw (fits) (decode-encode t.tv_sec t.tv_nsec h),
      rw (fits') (decode-encode t.tv_sec t.tv_nsec h),
    )
