-- ===== src/Simplefs/Ops.antt =====
-- simplefs-ops.c. Memory is an array of bytes: `buf` is what the caller's pointer points to.
use os_modules.Prelude.{
  ℕ, zero, suc, ◌+◌, ◌/◌, ◌%◌, Option, none, some, List, [], ◌∷◌, ◌++◌, ltb, if◌then◌else◌,
}
use os_modules.Prelude.Array.{Array, update}
use os_modules.Prelude.Text.{take, string, same_string}
use os_modules.Prelude.Result.{Result, ok, ◌>>=◌, ◌>>◌, within}
use os_modules.Simplefs.Disk.{
  Fs, Inode, Filehandle, num_inodes, max_file_size, max_open_files, used_mark, alloc_inode,
  read_inode, write_inode, free_inode, free_data_block,
}

-- The length of a name in an inode.
abbrev pub max_name_strlen : ℕ
max_name_strlen = 8

-- The bytes of the `int` file_size, which stand behind the name: they end a name of 8 characters.
abbrev pub size_bytes : ℕ → List ℕ
size_bytes n = n % 256 ∷ n / 256 % 256 ∷ n / 65536 % 256 ∷ n / 16777216 % 256 ∷ []

-- The name of an inode as strcmp reads it.
unfoldable pub name_of : Inode → List ℕ
unfolding string
name_of ino = string (ino.name ++ size_bytes ino.file_size)

-- The loop of `get_inode_num`.
unfoldable pub find_name : (filename : List ℕ) → Array Inode → (left i : ℕ) → Option ℕ
unfolding name_of same_string string
find_name filename inode zero i = none
find_name filename inode (suc left) i =
    let rest = find_name filename inode left (i + 1) in
    if same_string (name_of (inode i)) (string filename) then some i else rest

unfoldable pub get_inode_num : (filename : List ℕ) → Fs → Option ℕ
unfolding find_name
get_inode_num filename fs = find_name filename fs.inode num_inodes 0

unfoldable pub find_handle : Array Filehandle → (left i : ℕ) → Option ℕ
find_handle handles zero i = none
find_handle handles (suc left) i =
    let rest = find_handle handles left (i + 1) in
    elim (handles i).inode_number [ none ↦ some i | some _ ↦ rest ]

unfoldable pub get_file_handle_idx : Fs → Option ℕ
unfolding find_handle
get_file_handle_idx fs = find_handle fs.file_handle_array max_open_files 0

unfoldable pub fill_in : (filename : List ℕ) → Option ℕ × Fs → Result (Option ℕ × Fs)
unfolding read_inode write_inode
fill_in filename (none, fs) = ok (none, fs)
fill_in filename (some i, fs) = do
  ino ← read_inode (some i) fs
  fs' ← write_inode i (record ino { name = take max_name_strlen filename; status = used_mark }) fs
  ok (some i, fs')

-- The name is copied by `sizeof(filename)` bytes: the size of a pointer, 8.
unfoldable pub create : (filename : List ℕ) → Fs → Result (Option ℕ × Fs)
unfolding alloc_inode fill_in
create filename fs = fill_in filename (alloc_inode fs)

-- A round of the loop of `simplefs_delete`.
unfoldable pub free_block_at : Option ℕ → Fs → Result Fs
unfolding free_data_block
free_block_at none fs = ok fs
free_block_at (some b) fs = free_data_block b fs

unfoldable pub free_blocks : Inode → (left i : ℕ) → Fs → Result Fs
unfolding free_block_at
free_blocks ino zero i fs = ok fs
free_blocks ino (suc left) i fs =
    free_block_at (ino.direct_blocks i) fs >>= free_blocks ino left (i + 1)

unfoldable pub delete_inode : Option ℕ → Fs → Result Fs
unfolding read_inode free_blocks free_inode
delete_inode none fs = ok fs
delete_inode (some i) fs = do
  ino ← read_inode (some i) fs
  fs' ← free_blocks ino max_file_size 0 fs
  free_inode i fs'

unfoldable pub delete : (filename : List ℕ) → Fs → Result Fs
unfolding get_inode_num delete_inode
delete filename fs = delete_inode (get_inode_num filename fs) fs

abbrev pub set_handle : ℕ → Filehandle → Fs → Fs
set_handle h handle fs = record fs { file_handle_array = update fs.file_handle_array h handle }

unfoldable pub open_at : (inode_num file_handle : Option ℕ) → Fs → Option ℕ × Fs
unfolding update
open_at none _ fs = (none, fs)
open_at (some i) none fs = (none, fs)
open_at (some i) (some h) fs =
    (some h, set_handle h (record { offset = 0; inode_number = some i }) fs)

unfoldable pub open_file : (filename : List ℕ) → Fs → Option ℕ × Fs
unfolding get_inode_num get_file_handle_idx open_at
open_file filename fs = open_at (get_inode_num filename fs) (get_file_handle_idx fs) fs

unfoldable pub close : (file_handle : ℕ) → Fs → Result Fs
unfolding update
close h fs =
    within (ltb h max_open_files)
    >> ok (set_handle h (record { offset = 0; inode_number = none }) fs)
