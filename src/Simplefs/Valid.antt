-- ===== src/Simplefs/Valid.antt =====
-- When the inodes and the two freelists of the disk agree.
use os_modules.Prelude.{ℕ, ◌*◌, ◌/◌, ◌%◌, ◌≤◌, ◌<◌, ◌≡◌, ◌≢◌, ap, Option, none, some, List, arith}
use os_modules.Prelude.Array.{Array, fill, fill_in}
use os_modules.Simplefs.Disk.{
  Fs, Inode, block_size, num_data_blocks, num_inodes, max_file_size, used_mark, blank_inode,
  format_disk,
}

-- A block of a file: on the disk, and marked as used.
abbrev pub Holds : Array ℕ → Option ℕ → Type 0
Holds block_mark none = ⊥
Holds block_mark (some b) = (b < num_data_blocks) × (block_mark b ≡ used_mark)

pub record Valid (inode : Array Inode) (inode_mark block_mark : Array ℕ) : Type 0 where
  pub small : (i : ℕ) → i < num_inodes → (inode i).file_size ≤ max_file_size * block_size
  pub held :
      (i k : ℕ)
      → i < num_inodes
      → k * block_size < (inode i).file_size
      → Holds block_mark ((inode i).direct_blocks k)
  pub bare :
      (i k : ℕ)
      → i < num_inodes
      → (inode i).file_size ≤ k * block_size
      → (inode i).direct_blocks k ≡ none
  pub own :
      (i j k l b : ℕ)
      → i < num_inodes
      → j < num_inodes
      → (inode i).direct_blocks k ≡ some b
      → (inode j).direct_blocks l ≡ some b
      → (i ≡ j) × (k ≡ l)
  pub empty : (i : ℕ) → i < num_inodes → inode_mark i ≢ used_mark → (inode i).file_size ≡ 0

-- No file is longer than its blocks, the blocks of all files are marked as used and no block is in
-- two places, and a free inode has no bytes.
abbrev pub IsValid : Fs → Type 0
IsValid fs = Valid fs.inode fs.superblock.inode_freelist fs.superblock.datablock_freelist

abbrev pub byte_in : Array (Array ℕ) → Option ℕ → ℕ → ℕ
byte_in block none k = 0
byte_in block (some b) k = block b k

-- Byte `j` of the file of an inode.
abbrev pub byte : Array (Array ℕ) → Inode → ℕ → ℕ
byte block ino j = byte_in block (ino.direct_blocks (j / block_size)) (j % block_size)

module _ (junk : List ℕ) (fs : Fs) where
  blank :
      (i : ℕ) → i < num_inodes → fill fs.inode 0 num_inodes (blank_inode junk) i ≡ blank_inode junk
  blank i h = fill_in fs.inode 0 num_inodes (blank_inode junk) i (omega arith) (omega arith)

  -- Formatting makes any disk valid.
  pub format_disk-IsValid : IsValid (format_disk junk fs)
  unfolding format_disk
  format_disk-IsValid = record {
    small = λ i h. rw (blank i h) (omega arith);
    held = λ i k h q. absurd (omega (arith, ap (λ x. x.file_size) (blank i h)));
    bare = λ i k h q. rw (blank i h);
    own = λ i j k l b hi hj p q. absurd (cc (p, ap (λ x. x.direct_blocks k) (blank i hi)));
    empty = λ i h u. rw (blank i h);
  }
