-- ===== src/Simplefs/Rounds.antt =====
-- A round of the loop of `simplefs_write`.
use os_modules.Prelude.{
  ℕ, ◌+◌, ◌-◌, ◌*◌, ◌/◌, ◌%◌, ◌≤◌, ◌<◌, ◌≡◌, refl, Option, none, some, arith, ◌⊎◌, inl, inr, dec_lt,
  true, false, ◌==◌, lt→ltb, Option-cases,
}
use os_modules.Prelude.Array.{Array, update, update_self, update_ne}
use os_modules.Prelude.Result.{ok}
use os_modules.Simplefs.Disk.{
  Fs, Inode, Filehandle, block_size, num_data_blocks, max_file_size, free_mark, used_mark,
  alloc_data_block, take_data_block, set_block_mark, first_free,
}
use os_modules.Simplefs.Access.{reached, no_block, extend, reserve, put_chunk, write_round}
use os_modules.Simplefs.Parts.{block_used}
use os_modules.Simplefs.Grow.{longer, with_block, grow_old, grow_new}
use os_modules.Simplefs.Reading.{chunk_lem, held_block}
use os_modules.Simplefs.Appended.{Appended, chunk-Appended}
use os_modules.Simplefs.Free.{IsFirstFree, first_free-IsFirstFree}
use mathlib.Core.Path.{subst}
use os_modules.Simplefs.Writing.{
  Ready, IsFull, size_of, temp_buf, temp_buf_old, temp_buf_new, put_chunk_lem,
}

module _ (junk buf : Array ℕ) (n copied : ℕ) where
  -- A round finds no free block, or puts a chunk behind the end of the file.
  abbrev pub Round :
      (a : Array Inode) (im : Array ℕ) (handles : Array Filehandle) (i : ℕ) (x : Inode) (fs : Fs)
      → Type 0
  Round a im handles i x fs =
      (s : ℕ) × (x' : Inode) × (fs' : Fs) × (write_round junk buf n copied x fs
        ≡ ok (reached (copied + s) x' fs'))
      × (0 < s)
      × (copied + s ≤ n)
      × Ready a im handles i x' fs'
      × Appended a i buf copied s fs.block x fs'.block x'

  module _ {a : Array Inode} {im : Array ℕ} {handles : Array Filehandle} {i : ℕ} (x : Inode)
      (fs : Fs) (used : im i ≡ used_mark) (more : copied < n)
      (room : x.file_size < max_file_size * block_size) (r : Ready a im handles i x fs) where
    fits :
        (0 < size_of junk buf n copied x)
        × (size_of junk buf n copied x ≤ block_size - x.file_size % block_size)
        × (copied + size_of junk buf n copied x ≤ n)
    fits = chunk_lem (x.file_size % block_size) n copied (omega arith) more

    -- The last block has room.
    Round-old :
        (b : ℕ)
        → 0 < x.file_size % block_size
        → x.direct_blocks (x.file_size / block_size) ≡ some b
        → Round a im handles i x fs
    unfolding write_round reserve
    Round-old b inside e =
        let on_disk = (block_used r.parts e).0 in
        let parts = grow_old r.parts used inside fits.1 in
        let not_new : (x.file_size % block_size == 0) ≡ false = ground arith in
        (
          size_of junk buf n copied x,
          longer (size_of junk buf n copied x) x,
          record fs { block = update fs.block b (temp_buf junk buf n copied (fs.block b) x) },
          rw not_new (put_chunk_lem junk buf n copied x fs b room on_disk e),
          fits.0,
          fits.2,
          record {
            inode_eq = r.inode_eq;
            mark_eq = r.mark_eq;
            handles_eq = r.handles_eq;
            parts = parts;
          },
          chunk-Appended x x.direct_blocks (size_of junk buf n copied x) parts fs.block b
              (temp_buf junk buf n copied (fs.block b) x) buf copied e (λ k h. refl) fits.1
              (temp_buf_old junk buf n copied (fs.block b) x)
              (temp_buf_new junk buf n copied (fs.block b) x),
        )

    -- A new block is taken.
    Round-new :
        (b : ℕ)
        → x.file_size % block_size ≡ 0
        → first_free fs.superblock.datablock_freelist num_data_blocks 0 ≡ some b
        → b < num_data_blocks
        → fs.superblock.datablock_freelist b ≡ free_mark
        → Round a im handles i x fs
    unfolding write_round reserve extend alloc_data_block take_data_block
    Round-new b full found on_disk free =
        let parts = grow_new r.parts used on_disk free full room fits.0 (omega (arith, fits.1)) in
        let new : (x.file_size % block_size == 0) ≡ true = ground arith in
        let here = update_self x.direct_blocks (x.file_size / block_size) (some b) in
        (
          size_of junk buf n copied x,
          longer (size_of junk buf n copied x) (with_block b x),
          record (set_block_mark b used_mark fs) {
            block = update fs.block b (temp_buf junk buf n copied (fs.block b) x);
          },
          rw (new, found, lt→ltb (x.file_size / block_size) max_file_size (omega arith))
              (put_chunk_lem junk buf n copied (with_block b x) (set_block_mark b used_mark fs) b
                room on_disk here),
          fits.0,
          fits.2,
          record {
            inode_eq = r.inode_eq;
            mark_eq = r.mark_eq;
            handles_eq = r.handles_eq;
            parts = parts;
          },
          chunk-Appended x (with_block b x).direct_blocks (size_of junk buf n copied x) parts
              fs.block b (temp_buf junk buf n copied (fs.block b) x) buf copied here
              (λ k h.
                update_ne x.direct_blocks (x.file_size / block_size) k (some b) (λ e. ground arith))
              fits.1 (temp_buf_old junk buf n copied (fs.block b) x)
              (temp_buf_new junk buf n copied (fs.block b) x),
        )

    round_full :
        x.file_size % block_size ≡ 0
        → first_free fs.superblock.datablock_freelist num_data_blocks 0 ≡ none
        → write_round junk buf n copied x fs ≡ ok (no_block fs)
    unfolding write_round reserve extend alloc_data_block take_data_block put_chunk
    round_full full found =
        let new : (x.file_size % block_size == 0) ≡ true = ground arith in rw (new, found) refl

    Search : Option ℕ → Type 0
    Search = IsFirstFree fs.superblock.datablock_freelist num_data_blocks 0

    pub round_lem :
        Round a im handles i x fs
        ⊎ (IsFull fs × (write_round junk buf n copied x fs ≡ ok (no_block fs)))
    unfolding Search
    round_lem = elim (dec_lt 0 (x.file_size % block_size)) [
      | yes inside ↦
          let (b, e, on_disk) =
            held_block fs.superblock.datablock_freelist (x.direct_blocks (x.file_size / block_size))
              (r.parts.held (x.file_size / block_size) (omega arith)) in
          inl (Round-old b inside e)
      | no full ↦
          let found = first_free-IsFirstFree fs.superblock.datablock_freelist num_data_blocks 0 in
          elim (Option-cases (first_free fs.superblock.datablock_freelist num_data_blocks 0)) [
            | inl e ↦
                let none_free = subst Search e found in
                inr (λ b h. none_free b (omega arith) (omega arith), round_full (omega arith) e)
            | inr (b, e) ↦
                let (lo, hi, free, first) = subst Search e found in
                inl (Round-new b (omega arith) e (omega arith) free)
          ]
    ]
