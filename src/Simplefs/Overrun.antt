-- ===== src/Simplefs/Overrun.antt =====
-- `simplefs_write` on a file that has its largest size: the code bounds the offset, not the size.
use os_modules.Prelude.{
  ℕ, suc, ◌+◌, ◌*◌, ◌%◌, ◌/◌, ◌≤◌, ◌<◌, ◌≡◌, refl, ap, ◌∙◌, some, arith, ◌⊎◌, inl, inr,
  Option-cases, true, false, ◌==◌, ltb, lt→ltb,
}
use mathlib.Core.Path.{subst}
use os_modules.Prelude.Array.{Array}
use os_modules.Prelude.Int.{pos, negsuc}
use os_modules.Prelude.Result.{ok, fault, out_of_bounds, ◌>>=◌}
use os_modules.Simplefs.Disk.{
  Fs, block_size, num_data_blocks, num_inodes, max_file_size, max_open_files, first_free,
  take_data_block, alloc_data_block,
}
use os_modules.Simplefs.Access.{
  extend, reserve, put_chunk, write_round, write_loop, write_back, write,
}
use os_modules.Simplefs.Valid.{IsValid}
use os_modules.Simplefs.Free.{IsFirstFree, first_free-IsFirstFree}
use os_modules.Simplefs.Writing.{IsFull}
use os_modules.Simplefs.Written.{no_block_stays, write-loop_eq}

module _ (junk : Array ℕ) (fs : Fs) (h i n : ℕ) (buf : Array ℕ) (v : IsValid fs)
    (is_handle : h < max_open_files) (opened : (fs.file_handle_array h).inode_number ≡ some i)
    (is_inode : i < num_inodes) where
  -- On a valid disk, through an open handle, writing at least one byte to a file of 256 bytes with an
  -- offset that the test lets pass stores a block number behind the array of the inode; or no data
  -- block is free, it returns -1 and leaves the disk.
  pub write_overrun :
      (fs.inode i).file_size ≡ max_file_size * block_size
      → (fs.file_handle_array h).offset + suc n ≤ max_file_size * block_size
      → (write junk h buf (pos (suc n)) fs ≡ fault out_of_bounds)
        ⊎ (IsFull fs × (write junk h buf (pos (suc n)) fs ≡ ok (negsuc 0, fs)))
  unfolding write_loop write_back write_round reserve extend put_chunk alloc_data_block
      take_data_block
  write_overrun largest room =
      let run = write-loop_eq junk fs h i (suc n) buf v is_handle opened is_inode room in
      let more = lt→ltb 0 (suc n) (omega arith) in
      let new : ((fs.inode i).file_size % block_size == 0) ≡ true = ground arith in
      let beyond : ltb ((fs.inode i).file_size / block_size) max_file_size ≡ false = ground arith in
      elim (Option-cases (first_free fs.superblock.datablock_freelist num_data_blocks 0)) [
        | inl e ↦
            let none_free =
              subst (IsFirstFree fs.superblock.datablock_freelist num_data_blocks 0) e
                (first_free-IsFirstFree fs.superblock.datablock_freelist num_data_blocks 0) in
            inr (
              λ b lt. none_free b (omega arith) (omega arith),
              run
                  ∙ rw (write_loop, more, new, e)
                      (ap (λ w. w >>= write_back (some i)) (no_block_stays junk buf (suc n) n fs)),
            )
        | inr (b, e) ↦ inl (run ∙ rw (write_loop, more, new, e, beyond) refl)
      ]
