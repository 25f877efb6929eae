-- ===== src/Simplefs/Reading.antt =====
-- What `simplefs_read` returns on a valid disk.
use os_modules.Prelude.{
  ℕ, zero, suc, ◌+◌, ◌-◌, ◌*◌, ◌/◌, ◌%◌, ◌≤◌, ◌<◌, ◌≡◌, refl, ap, ◌∙◌, Option, none, some, true,
  false, Bool-cases, inl, inr, ltb, leb, ◌&&◌, ltb→lt, lt→ltb, if◌then◌else◌, arith, dec_lt,
}
use os_modules.Prelude.Array.{Array}
use os_modules.Prelude.Int.{pos, negsuc, ◌+ℤ◌}
use os_modules.Prelude.Result.{ok}
use os_modules.Simplefs.Disk.{
  Fs, Inode, block_size, num_data_blocks, num_inodes, max_file_size, max_open_files, read_inode,
  read_data_block,
}
use os_modules.Simplefs.Access.{min, memcpy, chunk, read_loop, goes_beyond, read}
use os_modules.Simplefs.Valid.{Holds, IsValid, byte, byte_in}

pub chunk_lem :
    (o n c : ℕ)
    → o < block_size
    → c < n
    → (0 < chunk o n c) × (chunk o n c ≤ block_size - o) × (c + chunk o n c ≤ n)
unfolding chunk min
chunk_lem o n c h lt = ground arith

-- The blocks of a file are there.
pub held_block :
    (bm : Array ℕ) (o : Option ℕ) → Holds bm o → (b : ℕ) × (o ≡ some b) × (b < num_data_blocks)
held_block bm none h = absurd h
held_block bm (some b) h = (b, refl, h.0)

-- A byte of the block that holds byte `c`.
pub byte_near :
    (block : Array (Array ℕ)) (ino : Inode) (c d : ℕ)
    → d < block_size - c % block_size
    → byte block ino (c + d)
      ≡ byte_in block (ino.direct_blocks (c / block_size)) (c % block_size + d)
byte_near block ino c d h =
    let same_block : (c + d) / block_size ≡ c / block_size = omega arith in
    let place : (c + d) % block_size ≡ c % block_size + d = omega arith in
    rw (same_block, place) refl

module _ (fs : Fs) (bm : Array ℕ) (ino : Inode) (n : ℕ)
    (small : ino.file_size ≤ max_file_size * block_size)
    (held : (k : ℕ) → k * block_size < ino.file_size → Holds bm (ino.direct_blocks k)) where
  -- One round reads from the block `b` that holds byte `curr`.
  module _ (copied curr : ℕ) (lt : copied < n) (inside : curr + (n - copied) ≤ ino.file_size) where
    abbrev size : ℕ
    size = chunk (curr % block_size) n copied

    size_fits : (0 < size) × (size ≤ block_size - curr % block_size) × (copied + size ≤ n)
    size_fits = chunk_lem (curr % block_size) n copied (omega arith) lt

    module _ (b : ℕ) (e : ino.direct_blocks (curr / block_size) ≡ some b) where
      read_round :
          (fuel : ℕ) (buf : Array ℕ)
          → b < num_data_blocks
          → read_loop ino fs n (suc fuel) copied curr buf
            ≡ read_loop ino fs n fuel
                (copied + size)
                (curr + size)
                (memcpy buf copied (fs.block b) (curr % block_size) size)
      unfolding read_loop read_data_block
      read_round fuel buf on_disk =
          rw
            (
              read_loop,
              lt→ltb copied n lt,
              lt→ltb (curr / block_size) max_file_size (omega (arith, small, inside)),
              e,
              read_data_block,
              lt→ltb b num_data_blocks on_disk,
            )
            refl

      read_round_bytes :
          (d : ℕ) → d < size → byte fs.block ino (curr + d) ≡ fs.block b (curr % block_size + d)
      read_round_bytes d h =
          byte_near fs.block ino curr d (omega (arith, size_fits))
          ∙ ap (λ o. byte_in fs.block o (curr % block_size + d)) e

      read_round_contents :
          (buf buf' : Array ℕ) (k : ℕ)
          → buf' k ≡ (
              if leb (copied + size) k && ltb k n
              then byte fs.block ino (curr + size + (k - (copied + size)))
              else memcpy buf copied (fs.block b) (curr % block_size) size k)
          → buf' k
            ≡ (if leb copied k && ltb k n then byte fs.block ino (curr + (k - copied)) else buf k)
      unfolding memcpy
      read_round_contents buf buf' k same = elim (dec_lt k copied) [
        | yes before ↦ ground arith
        | no behind ↦ elim (dec_lt k (copied + size)) [
          | yes here ↦
              let byte_here = read_round_bytes (k - copied) (omega arith) in
              ground (arith, size_fits)
          | no later ↦
              let place : curr + size + (k - (copied + size)) ≡ curr + (k - copied) = omega arith in
              let same' = rw place at same in ground (arith, size_fits)
        ]
      ]

  read_loop_lem :
      (fuel copied curr : ℕ) (buf : Array ℕ)
      → n ≤ copied + fuel
      → curr + (n - copied) ≤ ino.file_size
      → (buf' : Array ℕ) × (read_loop ino fs n fuel copied curr buf ≡ ok buf')
        × ((k : ℕ)
            → buf' k ≡ (
                if leb copied k && ltb k n then byte fs.block ino (curr + (k - copied)) else buf k))
  unfolding read_loop
  read_loop_lem zero copied curr buf enough inside = (buf, refl, λ k. ground arith)
  read_loop_lem (suc fuel) copied curr buf enough inside = elim (Bool-cases (ltb copied n)) [
    | inr done ↦ (buf, rw (read_loop, done) refl, λ k. ground arith)
    | inl more ↦
        let lt = ltb→lt copied n more in
        let (b, e, on_disk) =
          held_block bm (ino.direct_blocks (curr / block_size))
            (held (curr / block_size) (omega arith)) in
        let fits = size_fits copied curr lt inside in
        let (buf', e', same) =
          read_loop_lem fuel (copied + size copied curr lt inside)
            (curr + size copied curr lt inside)
            (memcpy buf copied (fs.block b) (curr % block_size) (size copied curr lt inside))
            (omega (arith, fits)) (omega (arith, fits)) in
        (
          buf',
          read_round copied curr lt inside b e fuel buf on_disk ∙ e',
          λ k. read_round_contents copied curr lt inside b e buf buf' k (same k),
        )
  ]

pub goes_beyond_no :
    (offset n limit : ℕ) → offset + n ≤ limit → goes_beyond offset (pos n) limit ≡ false
unfolding ◌+ℤ◌
goes_beyond_no offset n limit h = ground arith

pub goes_beyond_yes :
    (offset n limit : ℕ) → limit < offset + n → goes_beyond offset (pos n) limit ≡ true
unfolding ◌+ℤ◌
goes_beyond_yes offset n limit h = ground arith

-- On a valid disk, through an open handle, reading `n` bytes that lie inside the file returns 0 and
-- puts the bytes from the offset on into the first `n` places of the buffer, with every other place
-- as it was; when they go beyond the end of the file, it returns -1 and leaves the buffer.
pub read_lem :
    (fs : Fs) (h i n : ℕ) (buf : Array ℕ)
    → IsValid fs
    → h < max_open_files
    → (fs.file_handle_array h).inode_number ≡ some i
    → i < num_inodes
    → ((fs.file_handle_array h).offset + n ≤ (fs.inode i).file_size
        → (buf' : Array ℕ) × (read h buf (pos n) fs ≡ ok (pos 0, buf'))
          × ((k : ℕ)
              → buf' k ≡ (
                  if ltb k n
                  then byte fs.block (fs.inode i) ((fs.file_handle_array h).offset + k)
                  else buf k)))
      × ((fs.inode i).file_size < (fs.file_handle_array h).offset + n
          → read h buf (pos n) fs ≡ ok (negsuc 0, buf))
unfolding read read_inode
read_lem fs h i n buf v lt e lt' = (
  λ inside.
      let (buf', loop, same) =
        read_loop_lem fs fs.superblock.datablock_freelist (fs.inode i) n (v.small i lt')
          (λ k. v.held i k lt') n 0 (fs.file_handle_array h).offset buf (omega arith)
          (omega arith) in
      (
        buf',
        rw
            (
              lt→ltb h max_open_files lt,
              e,
              lt→ltb i num_inodes lt',
              goes_beyond_no (fs.file_handle_array h).offset n (fs.inode i).file_size inside,
              loop,
            )
            refl,
        λ k. ground (arith, same k),
      ),
  λ beyond.
      rw
        (
          lt→ltb h max_open_files lt,
          e,
          lt→ltb i num_inodes lt',
          goes_beyond_yes (fs.file_handle_array h).offset n (fs.inode i).file_size beyond,
        )
        refl,
)
