-- ===== src/Simplefs/Creating.antt =====
-- `simplefs_create`, and the new file found by its name.
use mathlib.Core.Path.{subst}
use os_modules.Prelude.{
  ℕ, ◌<◌, ◌≡◌, ◌≢◌, refl, sym, ap, ◌∙◌, Option, none, some, List, arith, lt→ltb, ◌⊎◌, inl, inr,
  Option-cases,
}
use os_modules.Prelude.Array.{update, update_self, update_ne}
use os_modules.Prelude.Text.{length, string, take}
use os_modules.Prelude.Result.{ok}
use os_modules.Simplefs.Disk.{
  Fs, Inode, num_inodes, used_mark, read_inode, write_inode, put_inode, set_inode_mark, alloc_inode,
  take_inode, first_free,
}
use os_modules.Simplefs.Ops.{
  max_name_strlen, name_of, size_bytes, get_inode_num, fill_in, create, set_handle, open_at,
  open_file, get_file_handle_idx,
}
use os_modules.Simplefs.Valid.{IsValid}
use os_modules.Simplefs.Parts.{Parts, Valid-Parts, Parts-Valid}
use os_modules.Simplefs.Free.{IsFirstFree, first_free-IsFirstFree}
use os_modules.Simplefs.Names.{IsFound, IsNamed, string-take}
use os_modules.Simplefs.Deleting.{get_inode_num-IsFound, get_inode_num-eq}

-- The inode that the file is put into.
abbrev pub named : (filename : List ℕ) → Inode → Inode
named filename ino = record ino { name = take max_name_strlen filename; status = used_mark }

abbrev pub created : (filename : List ℕ) (i : ℕ) → Fs → Fs
created filename i fs = put_inode i (named filename (fs.inode i)) (set_inode_mark i used_mark fs)

pub created-IsValid :
    (filename : List ℕ) (i : ℕ) (fs : Fs)
    → i < num_inodes
    → IsValid fs
    → IsValid (created filename i fs)
created-IsValid filename i fs lt v =
    let p = Valid-Parts lt v in
    let parts : Parts fs.inode i (named filename (fs.inode i))
        (update fs.superblock.inode_freelist i used_mark) fs.superblock.datablock_freelist =
      record {
        small = p.small;
        held = p.held;
        bare = p.bare;
        own = p.own;
        apart = p.apart;
        empty = λ u. absurd (u (update_self fs.superblock.inode_freelist i used_mark));
        others_small = p.others_small;
        others_held = p.others_held;
        others_bare = p.others_bare;
        others_own = p.others_own;
        others_empty = λ j h ne u.
            p.others_empty j h ne
              (λ e. u (update_ne fs.superblock.inode_freelist i j used_mark ne ∙ e));
      } in
    Parts-Valid parts

module _ (filename : List ℕ) (fs : Fs) (v : IsValid fs) where
  -- On a valid disk, creating a file puts it into the lowest free inode, with no bytes, and the disk
  -- stays valid; when no inode is free, it returns -1 and leaves the disk.
  pub create_lem :
      ((i : ℕ) × IsFirstFree fs.superblock.inode_freelist num_inodes 0 (some i)
        × (create filename fs ≡ ok (some i, created filename i fs))
        × IsValid (created filename i fs)
        × (((created filename i fs).inode i).file_size ≡ 0))
      ⊎ (IsFirstFree fs.superblock.inode_freelist num_inodes 0 none
          × (create filename fs ≡ ok (none, fs)))
  unfolding create alloc_inode take_inode fill_in read_inode write_inode
  create_lem =
      let search = first_free-IsFirstFree fs.superblock.inode_freelist num_inodes 0 in
      elim (Option-cases (first_free fs.superblock.inode_freelist num_inodes 0)) [
        | inl e ↦
            inr (subst (IsFirstFree fs.superblock.inode_freelist num_inodes 0) e search, rw e refl)
        | inr (i, e) ↦
            let first = subst (IsFirstFree fs.superblock.inode_freelist num_inodes 0) e search in
            let lt : i < num_inodes = omega (arith, first.1) in
            let free_one : fs.superblock.inode_freelist i ≢ used_mark =
              λ u. omega (arith, first.2, u) in
            inl (
              i,
              first,
              rw (e, lt→ltb i num_inodes lt) refl,
              created-IsValid filename i fs lt v,
              ap (λ x. x.file_size) (update_self fs.inode i (named filename (fs.inode i)))
                  ∙ v.empty i lt free_one,
            )
      ]

  module _ (absent : get_inode_num filename fs ≡ none)
      (ends : length (string filename) < length filename)
      (short : length (string filename) < max_name_strlen) where
    has_name : (ino : Inode) → IsNamed filename (named filename ino)
    unfolding name_of
    has_name ino = string-take filename (size_bytes ino.file_size) max_name_strlen ends short

    found_new : (i : ℕ) → i < num_inodes → get_inode_num filename (created filename i fs) ≡ some i
    found_new i lt =
        let none_named =
          subst (IsFound filename fs.inode num_inodes 0) absent
            (get_inode_num-IsFound filename fs) in
        get_inode_num-eq filename (created filename i fs) (
          omega arith,
          omega arith,
          subst (IsNamed filename) (sym (update_self fs.inode i (named filename (fs.inode i))))
              (has_name (fs.inode i)),
          λ k lo hi e. none_named k lo (omega arith) (
              subst (IsNamed filename)
                (update_ne fs.inode i k (named filename (fs.inode i)) (λ q. omega (arith, q))) e),
        )

    open_created :
        (h i : ℕ)
        → i < num_inodes
        → get_file_handle_idx fs ≡ some h
        → open_file filename (created filename i fs) ≡ (
          some h,
          set_handle h (record { offset = 0; inode_number = some i }) (created filename i fs),
        )
    unfolding open_file open_at get_file_handle_idx
    open_created h i lt free_handle = rw (open_file, found_new i lt, free_handle) refl

    -- On a valid disk, when no inode has the name, the name has fewer than 8 characters before its
    -- end, a handle is free and `simplefs_create` returns the inode `i`: opening the name returns that
    -- handle, at offset 0 of inode `i`.
    pub open-create :
        (h i : ℕ) (fs' : Fs)
        → get_file_handle_idx fs ≡ some h
        → create filename fs ≡ ok (some i, fs')
        → open_file filename fs'
          ≡ (some h, set_handle h (record { offset = 0; inode_number = some i }) fs')
    open-create h i fs' free_handle made = elim create_lem [
      | inr (full, e) ↦ absurd (cc (made, e))
      | inl (i', first, e, v', zero_size) ↦
          let new : Option ℕ × Fs = (some i', created filename i' fs) in
          let returned : Option ℕ × Fs = (some i, fs') in
          let same : new ≡ returned = cc (made, e) in
          subst
            (λ r.
              open_file filename r.1
              ≡ (some h, set_handle h (record { offset = 0; inode_number = r.0 }) r.1))
            same (open_created h i' (omega (arith, first.1)) free_handle)
    ]
