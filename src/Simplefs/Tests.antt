-- ===== src/Simplefs/Tests.antt =====
-- simplefs on a small disk: one file `a`, open as handle 0.
mod Large
use os_modules.Prelude.{
  ℕ, ◌+◌, ◌≤◌, ◌<◌, ◌≡◌, refl, none, some, List, [], ◌∷◌, arith, ◌⊎◌, ltb, if◌then◌else◌,
}
use os_modules.Prelude.Array.{Array, update, fill}
use os_modules.Prelude.Text.{string, same_string, length}
use os_modules.Prelude.Int.{pos, negsuc}
use os_modules.Prelude.Result.{ok, fault, out_of_bounds}
use os_modules.Simplefs.Disk.{
  Fs, Inode, num_inodes, format_disk, set_block_mark, put_inode, used_mark, first_free, take_inode,
  alloc_inode, read_inode, write_inode,
}
use os_modules.Simplefs.Ops.{
  name_of, find_name, get_inode_num, find_handle, get_file_handle_idx, fill_in, create, delete,
  set_handle, open_file,
}
use os_modules.Simplefs.Access.{read, write}
use os_modules.Simplefs.Valid.{IsValid, byte, format_disk-IsValid}
use os_modules.Simplefs.Parts.{Parts, Valid-Parts, Parts-Valid}
use os_modules.Simplefs.Grow.{longer, with_block, grow_new}
use os_modules.Simplefs.Free.{IsFirstFree}
use os_modules.Simplefs.Removing.{Removed}
use os_modules.Simplefs.Reading.{read_lem}
use os_modules.Simplefs.Writing.{IsFull}
use os_modules.Simplefs.Written.{Wrote, RanFull, write_lem}
use os_modules.Simplefs.RoundTrip.{ReadsBack, read-write}
use os_modules.Simplefs.Deleting.{delete_lem}
use os_modules.Simplefs.Creating.{created, created-IsValid, create_lem, open-create}
use os_modules.Simplefs.Overrun.{write_overrun}

abbrev name_a : List ℕ
name_a = b'a' ∷ 0 ∷ 0 ∷ 0 ∷ 0 ∷ 0 ∷ 0 ∷ 0 ∷ []

-- A disk file of zero bytes, and handles at 0 as static data is.
abbrev zeros : Fs
zeros = record {
  superblock = record { inode_freelist = λ _. 0; datablock_freelist = λ _. 0 };
  inode = λ _. record { status = 0; name = []; file_size = 0; direct_blocks = λ _. some 0 };
  block = λ _ _. 0;
  file_handle_array = λ _. record { offset = 0; inode_number = some 0 };
}

abbrev empty_disk : Fs
empty_disk = format_disk (0 ∷ 0 ∷ 0 ∷ 0 ∷ 0 ∷ 0 ∷ 0 ∷ []) zeros

abbrev one_file : Fs
one_file = created name_a 0 empty_disk

abbrev pub one_open : Fs
one_open = set_handle 0 (record { offset = 0; inode_number = some 0 }) one_file

abbrev pub hello : Array ℕ
hello k = if ltb k 5 then b'h' + k else 0

formatted-IsValid : IsValid empty_disk
formatted-IsValid = format_disk-IsValid (0 ∷ 0 ∷ 0 ∷ 0 ∷ 0 ∷ 0 ∷ 0 ∷ []) zeros

one_file-IsValid : IsValid one_file
one_file-IsValid = created-IsValid name_a 0 empty_disk (omega arith) formatted-IsValid

one_open-IsValid : IsValid one_open
one_open-IsValid = one_file-IsValid

pub one_open-used : one_open.superblock.inode_freelist 0 ≡ used_mark
unfolding update format_disk
one_open-used = refl

one_open-offset : (one_open.file_handle_array 0).offset + 100 ≤ 256
unfolding update format_disk
one_open-offset = omega arith

one_open-size : (one_open.inode 0).file_size + 100 ≤ 256
unfolding update format_disk
one_open-size = omega arith

one_open-handle : (one_open.file_handle_array 0).inode_number ≡ some 0
unfolding update format_disk
one_open-handle = refl

write_lem_example :
    Wrote 0 100 hello one_open (write hello 0 hello (pos 100) one_open)
    ⊎ RanFull one_open (write hello 0 hello (pos 100) one_open)
write_lem_example =
    write_lem hello one_open 0 0 100 hello one_open-IsValid (omega arith) one_open-handle
      (omega arith) one_open-used one_open-offset one_open-size

-- The file with the first three bytes of `hello`, in block 0.
abbrev short_inode : Inode
short_inode = longer 3 (with_block 0 (one_open.inode 0))

abbrev short_file : Fs
short_file = record (put_inode 0 short_inode (set_block_mark 0 used_mark one_open)) {
  block = update one_open.block 0 hello;
}

pub one_open-Parts :
    Parts one_open.inode 0
      (one_open.inode 0)
      one_open.superblock.inode_freelist
      one_open.superblock.datablock_freelist
one_open-Parts = Valid-Parts (omega arith) one_open-IsValid

short_file-IsValid : IsValid short_file
unfolding update format_disk fill
short_file-IsValid = Parts-Valid (
    grow_new one_open-Parts one_open-used {b = 0} (omega arith) refl {s = 3} refl (omega arith)
      (omega arith) (omega arith))

short_file-handle : (short_file.file_handle_array 0).inode_number ≡ some 0
unfolding update format_disk
short_file-handle = refl

short_file-used : short_file.superblock.inode_freelist 0 ≡ used_mark
unfolding update format_disk
short_file-used = refl

read_lem_example :
    ((short_file.file_handle_array 0).offset + 2 ≤ (short_file.inode 0).file_size
      → (buf' : Array ℕ) × (read 0 (λ _. 0) (pos 2) short_file ≡ ok (pos 0, buf'))
        × ((k : ℕ)
            → buf' k ≡ (
                if ltb k 2
                then byte short_file.block
                    (short_file.inode 0)
                    ((short_file.file_handle_array 0).offset + k)
                else 0)))
    × ((short_file.inode 0).file_size < (short_file.file_handle_array 0).offset + 2
        → read 0 (λ _. 0) (pos 2) short_file ≡ ok (negsuc 0, λ _. 0))
read_lem_example =
    read_lem short_file 0 0 2 (λ _. 0) short_file-IsValid (omega arith) short_file-handle
      (omega arith)

one_open-at_end : (one_open.file_handle_array 0).offset ≡ (one_open.inode 0).file_size
unfolding update format_disk
one_open-at_end = refl

read-write_example :
    ReadsBack hello one_open 0 0 100 hello one_open-IsValid
      (omega arith)
      one_open-handle
      (omega arith)
      one_open-at_end
      (write hello 0 hello (pos 100) one_open)
    ⊎ RanFull one_open (write hello 0 hello (pos 100) one_open)
read-write_example =
    read-write hello one_open 0 0 100 hello one_open-IsValid (omega arith) one_open-handle
      (omega arith) one_open-at_end one_open-used one_open-size

short_file-found : get_inode_num name_a short_file ≡ some 0
unfolding update format_disk get_inode_num find_name name_of same_string string
short_file-found = refl

delete_lem_example : (fs' : Fs) × (delete name_a short_file ≡ ok fs') × Removed 0 short_file fs'
delete_lem_example =
    delete_lem name_a short_file 0 short_file-IsValid short_file-used short_file-found

short_name : length (string (short_file.inode 0).name) < length (short_file.inode 0).name
unfolding update format_disk string
short_name = omega arith

create_lem_example :
    ((i : ℕ) × IsFirstFree empty_disk.superblock.inode_freelist num_inodes 0 (some i)
      × (create name_a empty_disk ≡ ok (some i, created name_a i empty_disk))
      × IsValid (created name_a i empty_disk)
      × (((created name_a i empty_disk).inode i).file_size ≡ 0))
    ⊎ (IsFirstFree empty_disk.superblock.inode_freelist num_inodes 0 none
        × (create name_a empty_disk ≡ ok (none, empty_disk)))
create_lem_example = create_lem name_a empty_disk formatted-IsValid

empty_disk-absent : get_inode_num name_a empty_disk ≡ none
unfolding update fill format_disk get_inode_num find_name name_of same_string string
empty_disk-absent = refl

name_a-ends : length (string name_a) < length name_a
unfolding string
name_a-ends = omega arith

name_a-short : length (string name_a) < 8
unfolding string
name_a-short = omega arith

empty_disk-handle : get_file_handle_idx empty_disk ≡ some 0
unfolding update fill format_disk get_file_handle_idx find_handle
empty_disk-handle = refl

create_a : create name_a empty_disk ≡ ok (some 0, one_file)
unfolding create alloc_inode take_inode first_free fill_in read_inode write_inode update fill
    format_disk
create_a = refl

open-create_example :
    open_file name_a one_file
    ≡ (some 0, set_handle 0 (record { offset = 0; inode_number = some 0 }) one_file)
open-create_example =
    open-create name_a empty_disk formatted-IsValid empty_disk-absent name_a-ends name_a-short 0 0
      one_file empty_disk-handle create_a

-- A file of the largest size, in blocks 0 to 3.
