-- ===== src/Simplefs/Access.antt =====
-- simplefs-ops.c: read, write and seek on an open file. A buffer is an array of bytes, from the
-- caller's pointer on.
use os_modules.Prelude.{
  ℕ, zero, suc, ◌+◌, ◌-◌, ◌/◌, ◌%◌, ◌*◌, Bool, true, false, ◌&&◌, ◌||◌, Option, none, some, ltb,
  leb, ◌==◌, if◌then◌else◌,
}
use os_modules.Prelude.Array.{Array, update}
use os_modules.Prelude.Int.{ℤ, pos, negsuc, pos_part, ◌+ℤ◌, ltb_ℤ}
use os_modules.Prelude.Result.{Result, ok, fault, out_of_bounds, ◌>>=◌, ◌>>◌, within}
use os_modules.Simplefs.Disk.{
  Fs, Inode, block_size, max_file_size, max_open_files, read_inode, write_inode, alloc_data_block,
  read_data_block, write_data_block,
}

unfoldable pub min : ℕ → ℕ → ℕ
min a b = if ltb a b then a else b

-- memcpy(dst + at, src + from, size)
unfoldable pub memcpy : (dst : Array ℕ) (at : ℕ) (src : Array ℕ) (from size : ℕ) → Array ℕ
memcpy dst at src from size k =
    if leb at k && ltb k (at + size) then src (from + (k - at)) else dst k

-- The byte count of a round: what the block holds behind `offset`, or what is left to copy.
unfoldable pub chunk : (offset nbytes copied : ℕ) → ℕ
unfolding min
chunk offset nbytes copied = min (block_size - offset) (nbytes - copied)

module _ (ino : Inode) (fs : Fs) (nbytes : ℕ) where
  -- The loop of `simplefs_read`. `nbytes` rounds are enough, since each copies a byte at least.
  unfoldable pub read_loop : (fuel copied curr : ℕ) → (buf : Array ℕ) → Result (Array ℕ)
  unfolding read_data_block memcpy chunk
  read_loop zero copied curr buf = ok buf
  read_loop (suc fuel) copied curr buf = elim (ltb copied nbytes) [
    | false ↦ ok buf
    | true ↦ do
      within (ltb (curr / block_size) max_file_size)
      temp_buf ← read_data_block (ino.direct_blocks (curr / block_size)) fs
      let size = chunk (curr % block_size) nbytes copied
      read_loop fuel (copied + size) (curr + size)
          (memcpy buf copied temp_buf (curr % block_size) size)
  ]

-- The test that refuses a read or a write: offset + nbytes > limit.
abbrev pub goes_beyond : (offset : ℕ) → (nbytes : ℤ) → (limit : ℕ) → Bool
goes_beyond offset nbytes limit = ltb_ℤ (pos limit) (pos offset +ℤ nbytes)

unfoldable pub read : (file_handle : ℕ) → (buf : Array ℕ) → (nbytes : ℤ) → Fs → Result (ℤ × Array ℕ)
unfolding read_inode read_loop ◌+ℤ◌
read h buf nbytes fs = do
  within (ltb h max_open_files)
  let handle = fs.file_handle_array h
  ino ← read_inode handle.inode_number fs
  if goes_beyond handle.offset nbytes ino.file_size
      then ok (negsuc 0, buf)
      else (read_loop ino fs (pos_part nbytes) (pos_part nbytes) 0 handle.offset buf >>= λ buf'.
          ok (pos 0, buf'))

-- Where the loop of `simplefs_write` stands: at its test, with the inode not yet written back, or
-- returning -1.
pub data Written : Type 0 where
  reached : (copied : ℕ) → Inode → Fs → Written
  no_block : Fs → Written

-- `if (woffset == 0)`: a new block for the next bytes of the file.
unfoldable pub extend : (copied : ℕ) → Inode → Option ℕ × Fs → Result Written
unfolding update
extend copied ino (none, fs) = ok (no_block fs)
extend copied ino (some b, fs) =
    within (ltb (ino.file_size / block_size) max_file_size)
    >> ok (
        reached copied
          (record ino {
            direct_blocks = update ino.direct_blocks (ino.file_size / block_size) (some b);
          })
          fs)

unfoldable pub reserve : (copied : ℕ) → Inode → Fs → Result Written
unfolding extend alloc_data_block
reserve copied ino fs =
    if ino.file_size % block_size == 0
    then extend copied ino (alloc_data_block fs)
    else ok (reached copied ino fs)

-- `junk` is what the heap holds: the temporary buffer ends behind the new bytes, and the block is
-- written from beyond its end.
module _ (junk : Array ℕ) (buf : Array ℕ) (nbytes : ℕ) where
  -- The prefix of the block that is kept.
  unfoldable pub prefilled : Inode → Fs → Result (Array ℕ)
  unfolding read_data_block memcpy
  prefilled ino fs =
      if ltb 0 (ino.file_size % block_size)
      then (read_data_block (ino.direct_blocks (ino.file_size / block_size)) fs >>= λ wblock.
          ok (memcpy junk 0 wblock 0 (ino.file_size % block_size)))
      else ok junk

  unfoldable pub put_chunk : Written → Result Written
  unfolding prefilled memcpy chunk write_data_block
  put_chunk (no_block fs) = ok (no_block fs)
  put_chunk (reached copied ino fs) = do
    within (ltb (ino.file_size / block_size) max_file_size)
    let woffset = ino.file_size % block_size
    let size = chunk woffset nbytes copied
    temp_buf ← prefilled ino fs
    fs' ←
        write_data_block (ino.direct_blocks (ino.file_size / block_size))
          (memcpy temp_buf woffset buf copied size) fs
    ok (reached (copied + size) (record ino { file_size = ino.file_size + size }) fs')

  unfoldable pub write_round : (copied : ℕ) → Inode → Fs → Result Written
  unfolding reserve put_chunk
  write_round copied ino fs = reserve copied ino fs >>= put_chunk

  unfoldable pub write_loop : (fuel : ℕ) → Written → Result Written
  unfolding write_round
  write_loop zero w = ok w
  write_loop (suc fuel) (no_block fs) = ok (no_block fs)
  write_loop (suc fuel) (reached copied ino fs) = elim (ltb copied nbytes) [
    | false ↦ ok (reached copied ino fs)
    | true ↦ write_round copied ino fs >>= write_loop fuel
  ]

-- Behind the loop: the inode is written back.
unfoldable pub write_back : Option ℕ → Written → Result (ℤ × Fs)
unfolding write_inode
write_back inode_num (no_block fs) = ok (negsuc 0, fs)
write_back none (reached copied ino fs) = fault out_of_bounds
write_back (some i) (reached copied ino fs) = write_inode i ino fs >>= λ fs'. ok (pos 0, fs')

unfoldable pub write :
    (junk : Array ℕ) → (file_handle : ℕ) → (buf : Array ℕ) → (nbytes : ℤ) → Fs → Result (ℤ × Fs)
unfolding read_inode write_loop write_back ◌+ℤ◌
write junk h buf nbytes fs = do
  within (ltb h max_open_files)
  let handle = fs.file_handle_array h
  ino ← read_inode handle.inode_number fs
  if goes_beyond handle.offset nbytes (max_file_size * block_size)
      then ok (negsuc 0, fs)
      else (write_loop junk buf (pos_part nbytes) (pos_part nbytes) (reached 0 ino fs)
          >>= write_back handle.inode_number)

unfoldable pub seek : (file_handle : ℕ) → (nseek : ℤ) → Fs → Result (ℤ × Fs)
unfolding read_inode update ◌+ℤ◌
seek h nseek fs = do
  within (ltb h max_open_files)
  let handle = fs.file_handle_array h
  ino ← read_inode handle.inode_number fs
  let offset = pos handle.offset +ℤ nseek
  if ltb_ℤ offset (pos 0) || ltb_ℤ (pos ino.file_size) offset
      then ok (negsuc 0, fs)
      else ok (
        pos 0,
        record fs {
          file_handle_array =
              update fs.file_handle_array h (record handle { offset = pos_part offset });
        },
      )
