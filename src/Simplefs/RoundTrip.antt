-- ===== src/Simplefs/RoundTrip.antt =====
-- Writing through an open file, and reading the bytes back.
use os_modules.Prelude.{ℕ, ◌+◌, ◌*◌, ◌≤◌, ◌<◌, ◌≡◌, ap, ◌∙◌, some, arith, ◌⊎◌, inl, inr, lt→ltb}
use os_modules.Prelude.Array.{Array, update_self}
use os_modules.Prelude.Int.{ℤ, pos}
use os_modules.Prelude.Result.{Result, ok}
use os_modules.Simplefs.Disk.{Fs, block_size, num_inodes, max_file_size, max_open_files, used_mark}
use os_modules.Simplefs.Access.{write, read}
use os_modules.Simplefs.Valid.{IsValid}
use os_modules.Simplefs.Reading.{read_lem}
use os_modules.Simplefs.Written.{Wrote, RanFull, write_lem}

module _ (junk : Array ℕ) (fs : Fs) (h i n : ℕ) (buf : Array ℕ) (v : IsValid fs)
    (is_handle : h < max_open_files) (opened : (fs.file_handle_array h).inode_number ≡ some i)
    (is_inode : i < num_inodes)
    (at_end : (fs.file_handle_array h).offset ≡ (fs.inode i).file_size) where
  -- The bytes can be read from the disk `fs'`.
  pub ReadsBack : Result (ℤ × Fs) → Type 0
  ReadsBack w =
      (fs' : Fs) × (w ≡ ok (pos 0, fs'))
      × ((old : Array ℕ)
          → (new : Array ℕ) × (read h old (pos n) fs' ≡ ok (pos 0, new))
            × ((k : ℕ) → k < n → new k ≡ buf k))

  read_back : (w : Result (ℤ × Fs)) → Wrote i n buf fs w → ReadsBack w
  unfolding ReadsBack
  read_back w (x', fs', e, v', inodes, marks, handles, p) =
      let handle_eq = ap (λ a. a h) handles in
      let ino_eq = ap (λ a. a i) inodes ∙ update_self fs.inode i x' in
      let off_eq : (fs'.file_handle_array h).offset ≡ (fs.inode i).file_size =
        ap (λ f. f.offset) handle_eq ∙ at_end in
      let size_eq : (fs'.inode i).file_size ≡ (fs.inode i).file_size + n =
        ap (λ x. x.file_size) ino_eq ∙ p.size_eq in
      (
        fs',
        e,
        λ old.
            let (new, e', same) =
              (read_lem fs' h i n old v' is_handle (ap (λ f. f.inode_number) handle_eq ∙ opened)
                  is_inode).0
                (omega arith) in
            (
              new,
              e',
              λ k lt.
                  same k ∙ rw (lt→ltb k n lt, off_eq, ino_eq) (p.added k lt ∙ ap buf (omega arith)),
            ),
      )

  -- On a valid disk, through a handle open on an inode in use with its offset at the end of the file,
  -- when the size with the `n` new bytes is at most 256: a write returns 0, and a read of `n` bytes
  -- through the same handle then returns 0 with the written bytes; or the write returns -1 and the
  -- data blocks are all in use.
  pub read-write :
      fs.superblock.inode_freelist i ≡ used_mark
      → (fs.inode i).file_size + n ≤ max_file_size * block_size
      → ReadsBack (write junk h buf (pos n) fs) ⊎ RanFull fs (write junk h buf (pos n) fs)
  read-write used room =
      elim (write_lem junk fs h i n buf v is_handle opened is_inode used (omega (arith, at_end))
        room) [
          | inl wrote ↦ inl (read_back (write junk h buf (pos n) fs) wrote)
          | inr full ↦ inr full
        ]
