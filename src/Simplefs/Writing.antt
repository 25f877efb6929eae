-- ===== src/Simplefs/Writing.antt =====
-- What `simplefs_write` puts into a block in a round of its loop.
use os_modules.Prelude.{
  ℕ, ◌+◌, ◌-◌, ◌*◌, ◌/◌, ◌%◌, ◌<◌, ◌≡◌, ◌≢◌, refl, ap, some, arith, dec_lt, false, ltb,
  if◌then◌else◌, lt→ltb,
}
use os_modules.Prelude.Array.{Array, update}
use os_modules.Prelude.Result.{ok}
use os_modules.Simplefs.Disk.{
  Fs, Inode, Filehandle, block_size, num_data_blocks, max_file_size, free_mark, read_data_block,
  write_data_block,
}
use os_modules.Simplefs.Access.{memcpy, chunk, reached, prefilled, put_chunk}
use os_modules.Simplefs.Parts.{Parts}
use os_modules.Simplefs.Grow.{longer}

-- While the loop runs: the disk has the inodes `a` and the marks `im`, and would be valid with the
-- inode `x` written back.
pub record Ready (a : Array Inode) (im : Array ℕ) (handles : Array Filehandle) (i : ℕ) (x : Inode)
    (fs : Fs) : Type 0 where
  pub inode_eq : fs.inode ≡ a
  pub mark_eq : fs.superblock.inode_freelist ≡ im
  pub handles_eq : fs.file_handle_array ≡ handles
  pub parts : Parts a i x im fs.superblock.datablock_freelist

-- Every data block is in use.
abbrev pub IsFull : Fs → Type 0
IsFull fs = (b : ℕ) → b < num_data_blocks → fs.superblock.datablock_freelist b ≢ free_mark

module _ (junk buf : Array ℕ) (n copied : ℕ) where
  abbrev pub size_of : Inode → ℕ
  size_of x = chunk (x.file_size % block_size) n copied

  -- The temporary buffer of a round, when the last block of the file is `block`.
  abbrev kept_part : Array ℕ → Inode → Array ℕ
  kept_part block x =
      if ltb 0 (x.file_size % block_size)
      then memcpy junk 0 block 0 (x.file_size % block_size)
      else junk

  abbrev pub temp_buf : Array ℕ → Inode → Array ℕ
  temp_buf block x = memcpy (kept_part block x) (x.file_size % block_size) buf copied (size_of x)

  pub temp_buf_old :
      (block : Array ℕ) (x : Inode) (k : ℕ)
      → k < x.file_size % block_size
      → temp_buf block x k ≡ block k
  unfolding memcpy
  temp_buf_old block x k h = ground arith

  pub temp_buf_new :
      (block : Array ℕ) (x : Inode) (d : ℕ)
      → d < size_of x
      → temp_buf block x (x.file_size % block_size + d) ≡ buf (copied + d)
  unfolding memcpy
  temp_buf_new block x d h =
      let place : copied + (x.file_size % block_size + d - x.file_size % block_size) ≡ copied + d =
        omega arith in
      ground (arith, ap buf place)

  pub put_chunk_lem :
      (x : Inode) (fs : Fs) (b : ℕ)
      → x.file_size < max_file_size * block_size
      → b < num_data_blocks
      → x.direct_blocks (x.file_size / block_size) ≡ some b
      → put_chunk junk buf n (reached copied x fs)
        ≡ ok (
            reached
              (copied + size_of x)
              (longer (size_of x) x)
              (record fs { block = update fs.block b (temp_buf (fs.block b) x) }))
  unfolding put_chunk prefilled read_data_block write_data_block
  put_chunk_lem x fs b room on_disk e = elim (dec_lt 0 (x.file_size % block_size)) [
    | yes inside ↦
        rw
          (
            lt→ltb (x.file_size / block_size) max_file_size (omega arith),
            e,
            lt→ltb b num_data_blocks on_disk,
            lt→ltb 0 (x.file_size % block_size) inside,
          )
          refl
    | no full ↦
        let none_kept : ltb 0 (x.file_size % block_size) ≡ false = ground arith in
        rw
          (
            lt→ltb (x.file_size / block_size) max_file_size (omega arith),
            none_kept,
            e,
            lt→ltb b num_data_blocks on_disk,
          )
          refl
  ]
