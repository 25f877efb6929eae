-- ===== src/Simplefs/Handles.antt =====
-- Opening, closing and seeking: the table of open files.
use mathlib.Core.Path.{subst}
use os_modules.Prelude.{
  ℕ, zero, suc, ◌+◌, ◌≤◌, ◌<◌, ◌≡◌, ◌≢◌, refl, ap, ◌∙◌, Option, none, some, List, arith, lt→ltb,
  ◌⊎◌, inl, inr, Option-cases, Bool-cases, false, ◌||◌,
}
use os_modules.Prelude.Search.{IsFirst, IsFirst-none, IsFirst-here, IsFirst-later}
use os_modules.Prelude.Array.{Array, update, update_self, update_ne}
use os_modules.Prelude.Int.{ℤ, pos, negsuc, pos_part, ◌+ℤ◌, ◌≤ℤ◌, ltb_ℤ}
use os_modules.Prelude.Result.{ok}
use os_modules.Simplefs.Disk.{Fs, Filehandle, num_inodes, max_open_files, read_inode}
use os_modules.Simplefs.Ops.{
  get_inode_num, find_handle, get_file_handle_idx, set_handle, open_at, open_file, close,
}
use os_modules.Simplefs.Access.{seek}
use os_modules.Simplefs.Names.{IsFound}
use os_modules.Simplefs.Deleting.{get_inode_num-IsFound}

-- The first free handle from `i` on, or none when all are taken.
abbrev pub IsFreeHandle : Array Filehandle → (left i : ℕ) → Option ℕ → Type 0
IsFreeHandle a = IsFirst (λ k. (a k).inode_number ≡ none)

pub find_handle-IsFreeHandle :
    (a : Array Filehandle) (left i : ℕ) → IsFreeHandle a left i (find_handle a left i)
unfolding find_handle
find_handle-IsFreeHandle a zero i = IsFirst-none (λ k. (a k).inode_number ≡ none) i
find_handle-IsFreeHandle a (suc left) i = elim (Option-cases (a i).inode_number) [
  | inl e ↦ rw (find_handle, e) (IsFirst-here (λ k. (a k).inode_number ≡ none) left i e)
  | inr (m, e) ↦
      rw (find_handle, e)
        (IsFirst-later (λ k. (a k).inode_number ≡ none) left i (find_handle a left (i + 1))
          (λ e'. cc (e, e')) (find_handle-IsFreeHandle a left (i + 1)))
]

module _ (filename : List ℕ) (fs : Fs) where
  -- Opening a file returns the lowest free handle, now at offset 0 of the first inode with the name;
  -- or no inode has the name or no handle is free, it returns -1 and nothing changes.
  pub open_file_lem :
      ((i : ℕ) × (h : ℕ) × IsFound filename fs.inode num_inodes 0 (some i)
        × IsFreeHandle fs.file_handle_array max_open_files 0 (some h)
        × (open_file filename fs
            ≡ (some h, set_handle h (record { offset = 0; inode_number = some i }) fs)))
      ⊎ ((IsFound filename fs.inode num_inodes 0 none
            ⊎ IsFreeHandle fs.file_handle_array max_open_files 0 none)
          × (open_file filename fs ≡ (none, fs)))
  unfolding open_file open_at get_file_handle_idx
  open_file_lem =
      let name = get_inode_num-IsFound filename fs in
      let free_one = find_handle-IsFreeHandle fs.file_handle_array max_open_files 0 in
      elim (Option-cases (get_inode_num filename fs)) [
        | inl e ↦
            inr
              (inl (subst (IsFound filename fs.inode num_inodes 0) e name), rw (open_file, e) refl)
        | inr (i, e) ↦ elim (Option-cases (find_handle fs.file_handle_array max_open_files 0)) [
          | inl e' ↦ inr (
            inr (subst (IsFreeHandle fs.file_handle_array max_open_files 0) e' free_one),
            rw (open_file, e, get_file_handle_idx, e') refl,
          )
          | inr (h, e') ↦ inl (
            i,
            h,
            subst (IsFound filename fs.inode num_inodes 0) e name,
            subst (IsFreeHandle fs.file_handle_array max_open_files 0) e' free_one,
            rw (open_file, e, get_file_handle_idx, e') refl,
          )
        ]
      ]

  -- The handle `h` of `fs'` is freed, and otherwise the result is `fs`.
  Closed : (h : ℕ) (fs' : Fs) → Type 0
  Closed h fs' =
      (fs'' : Fs) × (close h fs' ≡ ok fs'')
      × ((fs''.file_handle_array h).inode_number ≡ none)
      × ((k : ℕ) → h ≢ k → fs''.file_handle_array k ≡ fs.file_handle_array k)
      × (fs''.inode ≡ fs.inode)
      × (fs''.superblock ≡ fs.superblock)
      × (fs''.block ≡ fs.block)

  close-set_handle : (h : ℕ) (f : Filehandle) → h < max_open_files → Closed h (set_handle h f fs)
  unfolding Closed close
  close-set_handle h f lt =
      let free_one : Filehandle = record { offset = 0; inode_number = none } in
      let table = update fs.file_handle_array h f in
      (
        set_handle h free_one (set_handle h f fs),
        rw (lt→ltb h max_open_files lt) refl,
        ap (λ g. g.inode_number) (update_self table h free_one),
        λ k ne. update_ne table h k free_one ne ∙ update_ne fs.file_handle_array h k f ne,
        refl,
        refl,
        refl,
      )

  -- Closing the handle that opening a file has returned frees it, and the disk and every other handle
  -- are as they were before the file was opened.
  pub close-open :
      (h : ℕ) (fs' : Fs)
      → open_file filename fs ≡ (some h, fs')
      → (fs'' : Fs) × (close h fs' ≡ ok fs'')
        × ((fs''.file_handle_array h).inode_number ≡ none)
        × ((k : ℕ) → h ≢ k → fs''.file_handle_array k ≡ fs.file_handle_array k)
        × (fs''.inode ≡ fs.inode)
        × (fs''.superblock ≡ fs.superblock)
        × (fs''.block ≡ fs.block)
  unfolding Closed
  close-open h fs' opened = elim open_file_lem [
    | inl (i, h', f, g, e) ↦
        let handle : Filehandle = record { offset = 0; inode_number = some i } in
        let same : h' ≡ h = cc (opened, e) in
        let same_fs : set_handle h' handle fs ≡ fs' = cc (opened, e) in
        subst (Closed h) same_fs (
          subst (λ t. Closed t (set_handle h' handle fs)) same
            (close-set_handle h' handle (omega (arith, g.1))))
    | inr (f, e) ↦ absurd (cc (opened, e))
  ]

-- An offset that stays inside the file.
in_file :
    (t : ℤ) (s : ℕ)
    → (ltb_ℤ t (pos 0) || ltb_ℤ (pos s) t) ≡ false
    → (pos (pos_part t) ≡ t) × (pos_part t ≤ s)
in_file (pos n) s e = (refl, ground arith)
in_file (negsuc n) s e = absurd (ground arith)

-- Through an open handle, seeking returns 0 and moves the offset by `nseek` to a place inside the
-- file or at its end, with every other handle as it was; or that place would be outside, it returns
-- -1 and nothing changes.
pub seek_lem :
    (fs : Fs) (h i : ℕ) (nseek : ℤ)
    → h < max_open_files
    → (fs.file_handle_array h).inode_number ≡ some i
    → i < num_inodes
    → ((fs' : Fs) × (seek h nseek fs ≡ ok (pos 0, fs'))
        × (pos (fs'.file_handle_array h).offset ≡ pos (fs.file_handle_array h).offset +ℤ nseek)
        × ((fs'.file_handle_array h).offset ≤ (fs.inode i).file_size)
        × ((fs'.file_handle_array h).inode_number ≡ some i)
        × ((k : ℕ) → h ≢ k → fs'.file_handle_array k ≡ fs.file_handle_array k))
      ⊎ ((seek h nseek fs ≡ ok (negsuc 0, fs))
          × ¬ (
              (pos 0 ≤ℤ pos (fs.file_handle_array h).offset +ℤ nseek)
              × (pos (fs.file_handle_array h).offset +ℤ nseek ≤ℤ pos (fs.inode i).file_size)))
unfolding seek read_inode
seek_lem fs h i nseek lt opened lt' =
    let to = pos (fs.file_handle_array h).offset +ℤ nseek in
    let handle = record (fs.file_handle_array h) { offset = pos_part to } in
    let self = update_self fs.file_handle_array h handle in
    elim (Bool-cases (ltb_ℤ to (pos 0) || ltb_ℤ (pos (fs.inode i).file_size) to)) [
      | inl leaves ↦ inr (
        rw (lt→ltb h max_open_files lt, opened, lt→ltb i num_inodes lt', leaves) refl,
        λ within. ground arith,
      )
      | inr stays ↦ inl (
        record fs { file_handle_array = update fs.file_handle_array h handle },
        rw (lt→ltb h max_open_files lt, opened, lt→ltb i num_inodes lt', stays) refl,
        ap (λ f. pos f.offset) self ∙ (in_file to (fs.inode i).file_size stays).0,
        rw self (in_file to (fs.inode i).file_size stays).1,
        rw self opened,
        λ k ne. update_ne fs.file_handle_array h k handle ne,
      )
    ]
