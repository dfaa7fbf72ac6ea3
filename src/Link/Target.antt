-- ===== src/Link/Target.antt =====
-- Reading a short symbolic link: its target stands in the block numbers of its inode.
use node_ext2fs.Base.{
  ℕ, zero, suc, pos, ◌+◌, ◌*◌, ◌/◌, ◌%◌, ◌<◌, List, [], ◌∷◌, ◌++◌, replicate, true, false, ◌≡◌, ◌≢◌,
  refl, ==-true, ap, ◌∙◌, arith,
}
use node_ext2fs.Dirs.{array_push_buffer}
use node_ext2fs.Ext2.Filsys.{Bytes, Ino, World}
use node_ext2fs.Ext2.Inode.{Inode}
use node_ext2fs.Prog.{next}
use node_ext2fs.Ext2.Library.{Ext2fs}
use node_ext2fs.Ext2.Modes.{linux_s_islnk}
use node_ext2fs.Link.{c_string, block_bytes, link_target, node_ext2fs_readlink}
use node_ext2fs.Paths.{string_to_inode}

abbrev pub word : (a b c d : ℕ) → ℕ
word a b c d = a + b * 256 + c * 65536 + d * 16777216

-- A text as little-endian words of four characters, the last one filled with zeros.
abbrev pub words : Bytes → List ℕ
words [] = []
words (a ∷ []) = word a 0 0 0 ∷ []
words (a ∷ b ∷ []) = word a b 0 0 ∷ []
words (a ∷ b ∷ c ∷ []) = word a b c 0 ∷ []
words (a ∷ b ∷ c ∷ d ∷ s) = word a b c d ∷ words s

-- Characters of eight bits, and no NUL.
abbrev pub IsText : Bytes → Type 0
IsText [] = Unit
IsText (c ∷ s) = (0 < c) × (c < 256) × IsText s

c_string-zeros : (k : ℕ) → c_string (block_bytes (replicate k 0)) ≡ []
unfolding c_string block_bytes
c_string-zeros zero = refl
c_string-zeros (suc k) = refl

c_string-nul : (s : Bytes) → c_string (0 ∷ s) ≡ []
unfolding c_string
c_string-nul s = refl

c_string-cons : (c : ℕ) (s : Bytes) → 0 < c → c_string (c ∷ s) ≡ c ∷ c_string s
unfolding c_string
c_string-cons c s h = ground arith

-- The bytes of a word.
word-bytes :
    (a b c d : ℕ)
    → a < 256
    → b < 256
    → c < 256
    → d < 256
    → let n = word a b c d in
      (n % 256 ≡ a) × (n / 256 % 256 ≡ b) × (n / 65536 % 256 ≡ c) × (n / 16777216 % 256 ≡ d)
word-bytes a b c d ha hb hc hd = (omega arith, omega arith, omega arith, omega arith)

c_string-word :
    (a b c d : ℕ) (ws : List ℕ)
    → a < 256
    → b < 256
    → c < 256
    → d < 256
    → c_string (block_bytes (word a b c d ∷ ws)) ≡ c_string (a ∷ b ∷ c ∷ d ∷ block_bytes ws)
unfolding block_bytes
c_string-word a b c d ws ha hb hc hd =
    let (ea, eb, ec, ed) = word-bytes a b c d ha hb hc hd in ap c_string (rw (ea, eb, ec, ed) refl)

c_string-words :
    (s : Bytes) (k : ℕ) → IsText s → c_string (block_bytes (words s ++ replicate k 0)) ≡ s
c_string-words [] k h = c_string-zeros k
c_string-words (a ∷ []) k (pa, qa, h) =
    c_string-word a 0 0 0 _ qa (omega arith) (omega arith) (omega arith)
    ∙ c_string-cons a _ pa
    ∙ ap (λ t. a ∷ t) (c_string-nul _)
c_string-words (a ∷ b ∷ []) k (pa, qa, (pb, qb, h)) =
    c_string-word a b 0 0 _ qa qb (omega arith) (omega arith)
    ∙ c_string-cons a _ pa
    ∙ ap (λ t. a ∷ t) (c_string-cons b _ pb ∙ ap (λ t. b ∷ t) (c_string-nul _))
c_string-words (a ∷ b ∷ c ∷ []) k (pa, qa, (pb, qb, (pc, qc, h))) =
    c_string-word a b c 0 _ qa qb qc (omega arith)
    ∙ c_string-cons a _ pa
    ∙ ap (λ t. a ∷ t)
        (c_string-cons b _ pb
          ∙ ap (λ t. b ∷ t) (c_string-cons c _ pc ∙ ap (λ t. c ∷ t) (c_string-nul _)))
c_string-words (a ∷ b ∷ c ∷ d ∷ s) k (pa, qa, (pb, qb, (pc, qc, (pd, qd, h)))) =
    c_string-word a b c d _ qa qb qc qd
    ∙ c_string-cons a _ pa
    ∙ ap (λ t. a ∷ t)
        (c_string-cons b _ pb
          ∙ ap (λ t. b ∷ t)
              (c_string-cons c _ pc
                ∙ ap (λ t. c ∷ t) (c_string-cons d _ pd ∙ ap (λ t. d ∷ t) (c_string-words s k h))))

module _ {D : Type 0} (lib : Ext2fs D) where
  link_target-fast :
      (ino : Ino) (ei : Inode) (w : World D)
      → lib.is_fast_symlink ei ≡ true
      → link_target lib ino ei w ≡ (next (block_bytes ei.i_block), w)
  unfolding link_target
  link_target-fast ino ei w fast = rw fast refl

  -- If a path is found, its inode is read, and it is a symbolic link whose block numbers hold a text
  -- that has no NUL, filled with zeros, reading the link returns 0, and the text is appended to the
  -- array.
  pub node_ext2fs_readlink-words :
      (path s : Bytes) (k id : ℕ) (w : World D)
      → let (ino, w₁) = string_to_inode lib path false w in
        let (e, ei, w₂) = lib.read_inode ino w₁ in
        ino ≢ 0
        → e ≡ 0
        → linux_s_islnk ei.i_mode ≡ true
        → lib.is_fast_symlink ei ≡ true
        → ei.i_block ≡ words s ++ replicate k 0
        → IsText s
        → (node_ext2fs_readlink lib path id w).0 ≡ pos 0
          × ((node_ext2fs_readlink lib path id w).1.arrays id ≡ w₂.arrays id ++ s ∷ [])
  unfolding node_ext2fs_readlink
  node_ext2fs_readlink-words path s k id w found read link fast holds text =
      let (ino, w₁) = string_to_inode lib path false w in
      let (_, ei, w₂) = lib.read_inode ino w₁ in
      let target = ap (λ b. c_string (block_bytes b)) holds ∙ c_string-words s k text in
      let steps : node_ext2fs_readlink lib path id w
          ≡ (pos 0, array_push_buffer id (c_string (block_bytes ei.i_block)) w₂) =
        ground (arith, link_target-fast ino ei w₂ fast) in
      let appended : (array_push_buffer id s w₂).arrays id ≡ w₂.arrays id ++ s ∷ [] =
        rw (==-true id id refl) refl in
      (
        ap (λ r. r.0) steps,
        ap (λ r. r.1.arrays id) steps
            ∙ ap (λ t. (array_push_buffer id t w₂).arrays id) target
            ∙ appended,
      )
