-- ===== src/Widths.antt =====
-- The C types of the numbers of an inode in src/ext2fs.h, and the actions that keep every inode within
-- them.
pub mod Rules
pub mod Library
pub mod Shared
pub mod Created
pub mod Files
pub mod Removed
pub mod Renamed
pub mod Linked
pub mod Mounted
pub mod Calls
use node_ext2fs.Base.{ℕ, ℤ, Bool, List, [], ◌∷◌, ◌<◌, ◌^◌}
use node_ext2fs.Ext2.Filsys.{World}
use node_ext2fs.Ext2.Inode.{Inode, InodeLarge}
use node_ext2fs.Ext2.Library.{Call, Cmd}
use node_ext2fs.Prog.{Exit, next, ret, Prog}

abbrev pub AllWords : List ℕ → Type 0
AllWords [] = Unit
AllWords (b ∷ bs) = (b < 2 ^ 32) × AllWords bs

-- The fields of 16 bits, the fields of 32 bits, and the block numbers.
abbrev pub Fits : Inode → Type 0
Fits i =
    ((i.i_mode < 2 ^ 16)
      × (i.i_uid < 2 ^ 16)
      × (i.i_gid < 2 ^ 16)
      × (i.i_links_count < 2 ^ 16)
      × (i.l_i_blocks_hi < 2 ^ 16)
      × (i.l_i_file_acl_high < 2 ^ 16)
      × (i.l_i_uid_high < 2 ^ 16)
      × (i.l_i_gid_high < 2 ^ 16)
      × (i.l_i_checksum_lo < 2 ^ 16)
      × (i.l_i_reserved < 2 ^ 16))
    × ((i.i_size < 2 ^ 32)
        × (i.i_atime < 2 ^ 32)
        × (i.i_ctime < 2 ^ 32)
        × (i.i_mtime < 2 ^ 32)
        × (i.i_dtime < 2 ^ 32)
        × (i.i_blocks < 2 ^ 32)
        × (i.i_flags < 2 ^ 32)
        × (i.l_i_version < 2 ^ 32)
        × (i.i_generation < 2 ^ 32)
        × (i.i_file_acl < 2 ^ 32)
        × (i.i_size_high < 2 ^ 32)
        × (i.i_faddr < 2 ^ 32))
    × AllWords i.i_block

abbrev pub FitsLarge : InodeLarge → Type 0
FitsLarge i =
    Fits i.base
    × (i.i_extra_isize < 2 ^ 16)
    × (i.i_checksum_hi < 2 ^ 16)
    × (i.i_ctime_extra < 2 ^ 32)
    × (i.i_mtime_extra < 2 ^ 32)
    × (i.i_atime_extra < 2 ^ 32)
    × (i.i_crtime < 2 ^ 32)
    × (i.i_crtime_extra < 2 ^ 32)
    × (i.i_version_hi < 2 ^ 32)
    × (i.i_projid < 2 ^ 32)

-- The inodes of the library are within their types by a predicate of its state, and those of the open
-- files.
abbrev pub Within : {D : Type 0} → (D → Type 0) → World D → Type 0
Within Stored w = Stored w.lib × ((h : ℕ) → Fits (w.files h).inode)

-- Any value.
abbrev pub Any : {A : Type 0} → A → Type 0
Any a = Unit

module _ {D : Type 0} (Stored : D → Type 0) where
  -- What an action gives and leaves behind: the value has the property, if there is one, and the state
  -- is within its bounds.
  abbrev pub Kept : {A : Type 0} → (A → Type 0) → Exit A × World D → Type 0
  Kept Q (next a, w) = Q a × Within Stored w
  Kept Q (ret r, w) = Within Stored w

  pub record Keeps {A : Type 0} (Q : A → Type 0) (m : Prog D A) : Type 0 where
    pub at : (w : World D) → Within Stored w → Kept Q (m w)

  pub record KeepsCmd {A : Type 0} (Q : A → Type 0) (m : Cmd D A) : Type 0 where
    pub at : (w : World D) → Within Stored w → Q (m w).0 × Within Stored (m w).1

  pub record KeepsCall {A : Type 0} (Q : A → Type 0) (m : Call D A) : Type 0 where
    pub at : (w : World D) → Within Stored w → Q (m w).1 × Within Stored (m w).2
