-- ===== src/Simplefs/Disk.antt =====
-- simplefs-disk.c. The disk file holds the superblock in block 0, the inodes in blocks 1 to 4 and
-- the data blocks behind them; the model keeps the three regions apart, as the structures that
-- memcpy carries in and out. A number that is -1 or an index in C is an option here.
use os_modules.Prelude.{ℕ, zero, suc, ◌+◌, Option, none, some, List, ◌∷◌, ltb, ◌==◌, if◌then◌else◌}
use os_modules.Prelude.Array.{Array, update, fill}
use os_modules.Prelude.Result.{Result, ok, fault, out_of_bounds, ◌>>=◌, ◌>>◌, check, within}

abbrev pub block_size : ℕ
block_size = 64

abbrev pub num_data_blocks : ℕ
num_data_blocks = 30

abbrev pub num_inodes : ℕ
num_inodes = 8

-- In blocks.
abbrev pub max_file_size : ℕ
max_file_size = 4

abbrev pub max_open_files : ℕ
max_open_files = 20

-- The marks of inodes and data blocks: the characters 'x' and '1'.
abbrev pub free_mark : ℕ
free_mark = b'x'

abbrev pub used_mark : ℕ
used_mark = b'1'

-- struct superblock_t, without the name of the file system.
pub record Superblock : Type 0 where
  pub inode_freelist : Array ℕ
  pub datablock_freelist : Array ℕ

-- struct inode_t; `none` is -1.
pub record Inode : Type 0 where
  pub status : ℕ
  pub name : List ℕ
  pub file_size : ℕ
  pub direct_blocks : Array (Option ℕ)

-- struct filehandle_t; `none` is -1.
pub record Filehandle : Type 0 where
  pub offset : ℕ
  pub inode_number : Option ℕ

-- The disk file and the global file_handle_array.
pub record Fs : Type 0 where
  pub superblock : Superblock
  pub inode : Array Inode
  pub block : Array (Array ℕ)
  pub file_handle_array : Array Filehandle

abbrev pub set_inode_mark : ℕ → ℕ → Fs → Fs
set_inode_mark i mark fs = record fs {
  superblock = record fs.superblock { inode_freelist = update fs.superblock.inode_freelist i mark };
}

abbrev pub set_block_mark : ℕ → ℕ → Fs → Fs
set_block_mark b mark fs = record fs {
  superblock = record fs.superblock {
    datablock_freelist = update fs.superblock.datablock_freelist b mark;
  };
}

-- The inode that `simplefs_formatDisk` writes; malloc leaves `junk` behind the first byte of its name.
abbrev pub blank_inode : (junk : List ℕ) → Inode
blank_inode junk = record {
  status = free_mark;
  name = 0 ∷ junk;
  file_size = 0;
  direct_blocks = λ _. none;
}

unfoldable pub format_disk : (junk : List ℕ) → Fs → Fs
unfolding fill
format_disk junk fs = record {
  superblock = record {
    inode_freelist = fill fs.superblock.inode_freelist 0 num_inodes free_mark;
    datablock_freelist = fill fs.superblock.datablock_freelist 0 num_data_blocks free_mark;
  };
  inode = fill fs.inode 0 num_inodes (blank_inode junk);
  block = fs.block;
  file_handle_array =
      fill fs.file_handle_array 0 max_open_files (record { offset = 0; inode_number = none });
}

-- The loops of `simplefs_allocInode` and `simplefs_allocDataBlock`.
unfoldable pub first_free : Array ℕ → (left i : ℕ) → Option ℕ
first_free f zero i = none
first_free f (suc left) i =
    let rest = first_free f left (i + 1) in if f i == free_mark then some i else rest

unfoldable pub take_inode : Option ℕ → Fs → Option ℕ × Fs
unfolding update
take_inode none fs = (none, fs)
take_inode (some i) fs = (some i, set_inode_mark i used_mark fs)

unfoldable pub alloc_inode : Fs → Option ℕ × Fs
unfolding first_free take_inode
alloc_inode fs = take_inode (first_free fs.superblock.inode_freelist num_inodes 0) fs

-- `assert` lets an inode number of -1 pass, and what is read then is no inode.
unfoldable pub read_inode : Option ℕ → Fs → Result Inode
read_inode none fs = fault out_of_bounds
read_inode (some i) fs = check (ltb i num_inodes) >> ok (fs.inode i)

abbrev pub put_inode : ℕ → Inode → Fs → Fs
put_inode i ino fs = record fs { inode = update fs.inode i ino }

unfoldable pub write_inode : ℕ → Inode → Fs → Result Fs
unfolding update
write_inode i ino fs = check (ltb i num_inodes) >> ok (put_inode i ino fs)

-- The name of a freed inode stays.
abbrev pub freed_inode : Inode → Inode
freed_inode ino = record ino {
  status = free_mark;
  file_size = 0;
  direct_blocks = fill ino.direct_blocks 0 max_file_size none;
}

unfoldable pub free_inode : ℕ → Fs → Result Fs
unfolding write_inode read_inode fill update
free_inode i fs = do
  check (ltb i num_inodes)
  ino ← read_inode (some i) fs
  check (fs.superblock.inode_freelist i == used_mark)
  write_inode i (freed_inode ino) (set_inode_mark i free_mark fs)

unfoldable pub take_data_block : Option ℕ → Fs → Option ℕ × Fs
unfolding update
take_data_block none fs = (none, fs)
take_data_block (some b) fs = (some b, set_block_mark b used_mark fs)

unfoldable pub alloc_data_block : Fs → Option ℕ × Fs
unfolding first_free take_data_block
alloc_data_block fs =
    take_data_block (first_free fs.superblock.datablock_freelist num_data_blocks 0) fs

-- No assertion bounds the index here.
unfoldable pub free_data_block : ℕ → Fs → Result Fs
unfolding update
free_data_block b fs = do
  within (ltb b num_data_blocks)
  check (fs.superblock.datablock_freelist b == used_mark)
  ok (set_block_mark b free_mark fs)

-- At -1 the assertion passes, and the bytes are those of inodes.
unfoldable pub read_data_block : Option ℕ → Fs → Result (Array ℕ)
read_data_block none fs = fault out_of_bounds
read_data_block (some b) fs = check (ltb b num_data_blocks) >> ok (fs.block b)

unfoldable pub write_data_block : Option ℕ → Array ℕ → Fs → Result Fs
unfolding update
write_data_block none buf fs = fault out_of_bounds
write_data_block (some b) buf fs =
    check (ltb b num_data_blocks) >> ok (record fs { block = update fs.block b buf })
