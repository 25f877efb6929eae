-- ===== src/Simplefs/Deleting.antt =====
-- `simplefs_delete` by the name of a file, once and twice.
use mathlib.Core.Path.{subst}
use os_modules.Prelude.{
  ℕ, zero, suc, ◌+◌, ◌<◌, ◌≡◌, refl, sym, ap, ◌∙◌, Option, none, some, List, arith, lt→ltb,
}
use os_modules.Prelude.Search.{IsFirst-unique}
use os_modules.Prelude.Array.{update_self, update_at}
use os_modules.Prelude.Text.{length, string}
use os_modules.Prelude.Result.{ok, fault, assertion, ◌>>=◌}
use os_modules.Simplefs.Disk.{
  Fs, Inode, num_inodes, max_file_size, used_mark, free_mark, read_inode, free_inode, freed_inode,
}
use os_modules.Simplefs.Ops.{
  name_of, size_bytes, get_inode_num, free_block_at, free_blocks, delete_inode, delete,
}
use os_modules.Simplefs.Valid.{IsValid}
use os_modules.Simplefs.Names.{IsFound, find_name-IsFound, IsNamed, string-++}
use os_modules.Simplefs.Removing.{Removed, no_blocks, delete_inode_lem}

-- What the number that `get_inode_num` returns means.
pub get_inode_num-IsFound :
    (filename : List ℕ) (fs : Fs)
    → IsFound filename fs.inode num_inodes 0 (get_inode_num filename fs)
unfolding get_inode_num
get_inode_num-IsFound filename fs = find_name-IsFound filename fs.inode num_inodes 0

pub get_inode_num-eq :
    (filename : List ℕ) (fs : Fs) {o : Option ℕ}
    → IsFound filename fs.inode num_inodes 0 o
    → get_inode_num filename fs ≡ o
get_inode_num-eq filename fs {o} f =
    IsFirst-unique (λ k. IsNamed filename (fs.inode k)) num_inodes 0 (get_inode_num filename fs) o
      (get_inode_num-IsFound filename fs) f

free_blocks-none :
    (ino : Inode)
    → ((k : ℕ) → ino.direct_blocks k ≡ none)
    → (left k : ℕ) (fs : Fs) → free_blocks ino left k fs ≡ ok fs
unfolding free_blocks free_block_at
free_blocks-none ino bare zero k fs = refl
free_blocks-none ino bare (suc left) k fs =
    rw (free_blocks, bare k) (free_blocks-none ino bare left (k + 1) fs)

module _ (filename : List ℕ) (fs : Fs) (i : ℕ) (v : IsValid fs)
    (used : fs.superblock.inode_freelist i ≡ used_mark)
    (found : get_inode_num filename fs ≡ some i) where
  is_found : IsFound filename fs.inode num_inodes 0 (some i)
  is_found =
      subst (IsFound filename fs.inode num_inodes 0) found (get_inode_num-IsFound filename fs)

  -- On a valid disk, deleting a file that is found on an inode in use passes every assertion. The disk stays valid, the inode and the blocks of the file
  -- are free, and no other inode, no byte of a block and no file handle changes.
  pub delete_lem : (fs' : Fs) × (delete filename fs ≡ ok fs') × Removed i fs fs'
  unfolding delete
  delete_lem =
      let (fs', e, r) = delete_inode_lem fs i v (omega (arith, is_found.1)) used in
      (fs', rw (delete, found) e, r)

  module _ (ends : length (string (fs.inode i).name) < length (fs.inode i).name) (fs' : Fs)
      (r : Removed i fs fs') where
    same_name : (k : ℕ) → name_of (fs'.inode k) ≡ name_of (fs.inode k)
    unfolding name_of
    same_name k =
        ap (λ a. name_of (a k)) r.inode_eq
        ∙ update_at (λ x. name_of x ≡ name_of (fs.inode k)) fs.inode i k
            (λ e.
              string-++ (fs.inode i).name (size_bytes 0) ends
              ∙ sym (string-++ (fs.inode i).name (size_bytes (fs.inode i).file_size) ends)
              ∙ ap (λ t. name_of (fs.inode t)) e)
            (λ ne. refl)

    still_found : get_inode_num filename fs' ≡ some i
    still_found = get_inode_num-eq filename fs' (
      omega arith,
      is_found.1,
      same_name i ∙ is_found.2,
      λ k lo hi e. is_found.3 k lo hi (sym (same_name k) ∙ e),
    )

    now_free : fs'.superblock.inode_freelist i ≡ free_mark
    now_free = ap (λ m. m i) r.marks_eq ∙ update_self fs.superblock.inode_freelist i free_mark

    now_bare : (k : ℕ) → (fs'.inode i).direct_blocks k ≡ none
    now_bare k =
        ap (λ a. (a i).direct_blocks k) r.inode_eq
        ∙ ap (λ x. x.direct_blocks k) (update_self fs.inode i (freed_inode (fs.inode i)))
        ∙ no_blocks fs i v (omega (arith, is_found.1)) k

    second_delete : delete filename fs' ≡ fault assertion
    unfolding delete delete_inode read_inode free_inode
    second_delete =
        rw
          (
            delete,
            still_found,
            lt→ltb i num_inodes (omega (arith, is_found.1)),
            free_blocks-none (fs'.inode i) now_bare max_file_size 0 fs',
            now_free,
          )
          refl

  -- On a valid disk, when a file that is found on an inode in use has a name that ends inside the
  -- inode, deleting it twice fails an assertion: the freed inode keeps its name.
  pub delete_twice :
      length (string (fs.inode i).name) < length (fs.inode i).name
      → (delete filename fs >>= delete filename) ≡ fault assertion
  delete_twice ends = let (fs', e, r) = delete_lem in rw e (second_delete ends fs' r)
