-- ===== src/Simplefs/Tests/Large.antt =====
-- simplefs on a small disk: a file of 256 bytes.
use os_modules.Prelude.{ℕ, ◌+◌, ◌≤◌, ◌≡◌, refl, some, arith, ◌⊎◌}
use os_modules.Prelude.Array.{update, fill}
use os_modules.Prelude.Int.{pos, negsuc}
use os_modules.Prelude.Result.{ok, fault, out_of_bounds}
use os_modules.Simplefs.Disk.{Fs, Inode, format_disk, set_block_mark, put_inode, used_mark}
use os_modules.Simplefs.Access.{write}
use os_modules.Simplefs.Valid.{IsValid}
use os_modules.Simplefs.Parts.{Parts-Valid}
use os_modules.Simplefs.Grow.{longer, with_block, grow_new}
use os_modules.Simplefs.Writing.{IsFull}
use os_modules.Simplefs.Overrun.{write_overrun}
use os_modules.Simplefs.Tests.{one_open, hello, one_open-used, one_open-Parts}

abbrev grown : ℕ → Inode → Inode
grown b x = longer 64 (with_block b x)

abbrev large_inode : Inode
large_inode = grown 3 (grown 2 (grown 1 (grown 0 (one_open.inode 0))))

abbrev large_file : Fs
large_file = put_inode 0 large_inode (
    set_block_mark 3 used_mark (
      set_block_mark 2 used_mark
        (set_block_mark 1 used_mark (set_block_mark 0 used_mark one_open))))

large_file-IsValid : IsValid large_file
unfolding update format_disk fill
large_file-IsValid =
    let p0 =
      grow_new one_open-Parts one_open-used {b = 0} (omega arith) refl {s = 64} refl (omega arith)
        (omega arith) (omega arith) in
    let p1 =
      grow_new p0 one_open-used {b = 1} (omega arith) refl {s = 64} refl (omega arith) (omega arith)
        (omega arith) in
    let p2 =
      grow_new p1 one_open-used {b = 2} (omega arith) refl {s = 64} refl (omega arith) (omega arith)
        (omega arith) in
    Parts-Valid (
      grow_new p2 one_open-used {b = 3} (omega arith) refl {s = 64} refl (omega arith) (omega arith)
        (omega arith))

large_file-handle : (large_file.file_handle_array 0).inode_number ≡ some 0
unfolding update format_disk
large_file-handle = refl

large_file-size : (large_file.inode 0).file_size ≡ 256
unfolding update format_disk fill
large_file-size = refl

large_file-offset : (large_file.file_handle_array 0).offset + 1 ≤ 256
unfolding update format_disk
large_file-offset = omega arith

write_overrun_example :
    (write hello 0 hello (pos 1) large_file ≡ fault out_of_bounds)
    ⊎ (IsFull large_file × (write hello 0 hello (pos 1) large_file ≡ ok (negsuc 0, large_file)))
write_overrun_example =
    write_overrun hello large_file 0 0 0 hello large_file-IsValid (omega arith) large_file-handle
      (omega arith) large_file-size large_file-offset
