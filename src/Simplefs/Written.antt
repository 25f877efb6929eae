-- ===== src/Simplefs/Written.antt =====
-- What `simplefs_write` does on a valid disk.
use mathlib.Core.Path.{subst}
use os_modules.Prelude.{
  ℕ, zero, suc, ◌+◌, ◌-◌, ◌*◌, ◌≤◌, ◌<◌, ◌≡◌, refl, sym, ap, ◌∙◌, some, arith, ◌⊎◌, inl, inr, false,
  ltb, lt→ltb, dec_lt,
}
use os_modules.Prelude.Array.{Array, update}
use os_modules.Prelude.Int.{ℤ, pos, negsuc}
use os_modules.Prelude.Result.{Result, ok, ◌>>=◌}
use os_modules.Simplefs.Disk.{
  Fs, Inode, Filehandle, block_size, num_inodes, max_file_size, max_open_files, used_mark,
  read_inode, write_inode, put_inode,
}
use os_modules.Simplefs.Access.{Written, reached, no_block, write_loop, write_back, write}
use os_modules.Simplefs.Valid.{IsValid, Valid}
use os_modules.Simplefs.Parts.{Valid-Parts, Parts-Valid}
use os_modules.Simplefs.Reading.{goes_beyond_no}
use os_modules.Simplefs.Appended.{Appended, Appended-refl, Appended-trans}
use os_modules.Simplefs.Writing.{Ready, IsFull}
use os_modules.Simplefs.Rounds.{round_lem}

-- Behind a return from the loop.
pub no_block_stays :
    (junk buf : Array ℕ) (n fuel : ℕ) (fs : Fs)
    → write_loop junk buf n fuel (no_block fs) ≡ ok (no_block fs)
unfolding write_loop
no_block_stays junk buf n zero fs = refl
no_block_stays junk buf n (suc fuel) fs = refl

module _ (junk buf : Array ℕ) (n : ℕ) (a : Array Inode) (im : Array ℕ) (handles : Array Filehandle)
    (i : ℕ) where
  -- The loop ends with all bytes written, or finds no free block.
  Finished : (copied : ℕ) → Inode → Fs → Result Written → Type 0
  Finished copied x fs w =
      (s : ℕ) × (x' : Inode) × (fs' : Fs) × (copied + s ≡ n)
      × (w ≡ ok (reached n x' fs'))
      × Ready a im handles i x' fs'
      × Appended a i buf copied s fs.block x fs'.block x'

  Stuck : Result Written → Type 0
  Stuck w = (fs' : Fs) × (w ≡ ok (no_block fs')) × IsFull fs' × (fs'.inode ≡ a)

  -- The rounds behind one that ends at `x'` and `fs'`.
  continued :
      (fuel copied s : ℕ) (x x' : Inode) (fs fs' : Fs)
      → (write_loop junk buf n (suc fuel) (reached copied x fs)
          ≡ write_loop junk buf n fuel (reached (copied + s) x' fs'))
      → Appended a i buf copied s fs.block x fs'.block x'
      → Finished (copied + s) x' fs' (write_loop junk buf n fuel (reached (copied + s) x' fs'))
        ⊎ Stuck (write_loop junk buf n fuel (reached (copied + s) x' fs'))
      → Finished copied x fs (write_loop junk buf n (suc fuel) (reached copied x fs))
        ⊎ Stuck (write_loop junk buf n (suc fuel) (reached copied x fs))
  unfolding Finished Stuck
  continued fuel copied s x x' fs fs' e p (inl (t, x'', fs'', total, e', ready, p')) =
      inl (s + t, x'', fs'', omega arith, e ∙ e', ready, Appended-trans p p')
  continued fuel copied s x x' fs fs' e p (inr (fs'', e', full, same)) =
      inr (fs'', e ∙ e', full, same)

  module _ (used : im i ≡ used_mark) where
    loop_lem :
        (fuel copied : ℕ) (x : Inode) (fs : Fs)
        → copied ≤ n
        → n ≤ copied + fuel
        → x.file_size + (n - copied) ≤ max_file_size * block_size
        → Ready a im handles i x fs
        → Finished copied x fs (write_loop junk buf n fuel (reached copied x fs))
          ⊎ Stuck (write_loop junk buf n fuel (reached copied x fs))
    unfolding write_loop Finished Stuck
    loop_lem zero copied x fs le enough room ready = inl (
      0,
      x,
      fs,
      omega arith,
      ap (λ c. ok (reached c x fs)) (omega arith),
      ready,
      Appended-refl fs.block x copied,
    )
    loop_lem (suc fuel) copied x fs le enough room ready = elim (dec_lt copied n) [
      | no done ↦
          let at_end : copied ≡ n = omega arith in
          let stop : ltb copied n ≡ false = ground arith in
          inl (
            0,
            x,
            fs,
            omega arith,
            rw (write_loop, stop) (ap (λ c. ok (reached c x fs)) at_end),
            ready,
            Appended-refl fs.block x copied,
          )
      | yes more ↦ elim (round_lem junk buf n copied x fs used more (omega arith) ready) [
        | inl (s, x', fs', e, some_bytes, fits, ready', p) ↦
            continued fuel copied s x x' fs fs' (rw (write_loop, lt→ltb copied n more, e) refl) p (
              loop_lem fuel (copied + s) x' fs' fits (omega arith) (omega (arith, p.size_eq))
                ready')
        | inr (full, e) ↦ inr (
          fs,
          rw (write_loop, lt→ltb copied n more, e) (no_block_stays junk buf n fuel fs),
          full,
          ready.inode_eq,
        )
      ]
    ]

-- The bytes are behind the end of the file, and nothing else has changed.
abbrev pub Wrote : (i n : ℕ) (buf : Array ℕ) (fs : Fs) → Result (ℤ × Fs) → Type 0
Wrote i n buf fs w =
    (x' : Inode) × (fs' : Fs) × (w ≡ ok (pos 0, fs'))
    × IsValid fs'
    × (fs'.inode ≡ update fs.inode i x')
    × (fs'.superblock.inode_freelist ≡ fs.superblock.inode_freelist)
    × (fs'.file_handle_array ≡ fs.file_handle_array)
    × Appended fs.inode i buf 0 n fs.block (fs.inode i) fs'.block x'

-- The disk has become full, and the table of inodes is what it was.
abbrev pub RanFull : Fs → Result (ℤ × Fs) → Type 0
RanFull fs w = (fs' : Fs) × (w ≡ ok (negsuc 0, fs')) × IsFull fs' × (fs'.inode ≡ fs.inode)

-- The inode is written back.
back-Valid :
    {a : Array Inode} {im : Array ℕ} {handles : Array Filehandle} {i : ℕ} {x : Inode} (fs : Fs)
    → Ready a im handles i x fs
    → IsValid (put_inode i x fs)
back-Valid {a} {im} {handles} {i} {x} fs r =
    subst
      (λ a'. Valid (update a' i x) fs.superblock.inode_freelist fs.superblock.datablock_freelist)
      (sym r.inode_eq)
      (subst (λ im'. Valid (update a i x) im' fs.superblock.datablock_freelist) (sym r.mark_eq)
        (Parts-Valid r.parts))

module _ (junk : Array ℕ) (fs : Fs) (h i n : ℕ) (buf : Array ℕ) (v : IsValid fs)
    (is_handle : h < max_open_files) (opened : (fs.file_handle_array h).inode_number ≡ some i)
    (is_inode : i < num_inodes) where
  pub write-loop_eq :
      (fs.file_handle_array h).offset + n ≤ max_file_size * block_size
      → write junk h buf (pos n) fs
        ≡ (write_loop junk buf n n (reached 0 (fs.inode i) fs) >>= write_back (some i))
  unfolding write read_inode
  write-loop_eq room =
      rw
        (
          lt→ltb h max_open_files is_handle,
          opened,
          lt→ltb i num_inodes is_inode,
          goes_beyond_no (fs.file_handle_array h).offset n (max_file_size * block_size) room,
        )
        refl

  -- On a valid disk, through a handle open on an inode in use, when neither the offset nor the size
  -- of the file goes beyond 256 with the `n` new bytes: the write returns 0, the bytes stand behind
  -- the old end of the file, every other byte of every file is as it was, and the disk is valid with
  -- the same inodes in use and the same handles; or it returns -1, the data blocks are all in use and
  -- the table of inodes is as it was.
  pub write_lem :
      fs.superblock.inode_freelist i ≡ used_mark
      → (fs.file_handle_array h).offset + n ≤ max_file_size * block_size
      → (fs.inode i).file_size + n ≤ max_file_size * block_size
      → Wrote i n buf fs (write junk h buf (pos n) fs) ⊎ RanFull fs (write junk h buf (pos n) fs)
  unfolding Finished Stuck write_back write_inode
  write_lem used room size_room =
      elim (loop_lem junk buf n fs.inode fs.superblock.inode_freelist fs.file_handle_array i used n
        0 (fs.inode i) fs (omega arith) (omega arith) (omega arith)
        (record {
          inode_eq = refl;
          mark_eq = refl;
          handles_eq = refl;
          parts = Valid-Parts is_inode v;
        })) [
          | inl (s, x', fs', total, e, r, p) ↦ inl (
            x',
            put_inode i x' fs',
            write-loop_eq room ∙ rw (e, lt→ltb i num_inodes is_inode) refl,
            back-Valid fs' r,
            ap (λ a. update a i x') r.inode_eq,
            r.mark_eq,
            r.handles_eq,
            subst (λ m. Appended fs.inode i buf 0 m fs.block (fs.inode i) fs'.block x')
                (omega arith) p,
          )
          | inr (fs', e, full, same) ↦ inr (fs', write-loop_eq room ∙ rw e refl, full, same)
        ]
