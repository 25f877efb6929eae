-- ===== src/Sync/Rwlock/ReaderPref.antt =====
-- rwlock-reader-pref.cpp: a reader waits only while a thread writes. This version has no counter of
-- waiting writers and leaves that of the other one alone.
pub mod Safe
mod Tests
use os_modules.Prelude.{Bool, not, List, [], ◌∷◌, if◌then◌else◌}
use os_modules.Prelude.Int.{pos, negsuc, ◌+ℤ◌, ◌-ℤ◌, eqb_ℤ}
use os_modules.Sync.Rwlock.Code.{Lock, Wake, signal_write, broadcast_read, Code}

unfoldable pub initialize : Lock → Lock
initialize l = record l { resource_cnt = pos 0 }

unfoldable pub reader_waits : Lock → Bool
reader_waits l = eqb_ℤ l.resource_cnt (negsuc 0)

unfoldable pub reader_enters : Lock → Lock
unfolding ◌+ℤ◌
reader_enters l = record l { resource_cnt = l.resource_cnt +ℤ pos 1 }

unfoldable pub reader_unlock : Lock → Lock × List Wake
unfolding ◌-ℤ◌
reader_unlock l =
    let l' : Lock = record l { resource_cnt = l.resource_cnt -ℤ pos 1 } in
    (l', if eqb_ℤ l'.resource_cnt (pos 0) then signal_write ∷ [] else [])

unfoldable pub writer_waits : Lock → Bool
writer_waits l = not (eqb_ℤ l.resource_cnt (pos 0))

unfoldable pub writer_enters : Lock → Lock
writer_enters l = record l { resource_cnt = negsuc 0 }

unfoldable pub writer_unlock : Lock → Lock × List Wake
writer_unlock l = (record l { resource_cnt = pos 0 }, broadcast_read ∷ signal_write ∷ [])

abbrev pub reader_pref : Code
reader_pref = record {
  init = initialize;
  reader_waits = reader_waits;
  reader_enters = reader_enters;
  reader_unlock = reader_unlock;
  writer_calls = λ l. l;
  writer_waits = writer_waits;
  writer_enters = writer_enters;
  writer_unlock = writer_unlock;
}
