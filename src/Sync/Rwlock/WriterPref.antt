-- ===== src/Sync/Rwlock/WriterPref.antt =====
-- rwlock-writer-pref.cpp: a reader waits while a thread writes, and while a writer waits.
pub mod Safe
mod Tests
use os_modules.Prelude.{◌+◌, ◌-◌, Bool, not, ◌||◌, List, [], ◌∷◌, ltb, if◌then◌else◌}
use os_modules.Prelude.Int.{pos, negsuc, ◌+ℤ◌, ◌-ℤ◌, eqb_ℤ}
use os_modules.Sync.Rwlock.Code.{Lock, Wake, signal_write, broadcast_read, Code}

-- `waiting_writers` is 0 from the start of the program, and the function does not write it.
unfoldable pub initialize : Lock → Lock
initialize l = record l { resource_cnt = pos 0 }

unfoldable pub reader_waits : Lock → Bool
reader_waits l = eqb_ℤ l.resource_cnt (negsuc 0) || ltb 0 l.waiting_writers

unfoldable pub reader_enters : Lock → Lock
unfolding ◌+ℤ◌
reader_enters l = record l { resource_cnt = l.resource_cnt +ℤ pos 1 }

unfoldable pub reader_unlock : Lock → Lock × List Wake
unfolding ◌-ℤ◌
reader_unlock l =
    let l' : Lock = record l { resource_cnt = l.resource_cnt -ℤ pos 1 } in
    (l', if eqb_ℤ l'.resource_cnt (pos 0) then signal_write ∷ [] else [])

unfoldable pub writer_calls : Lock → Lock
writer_calls l = record l { waiting_writers = l.waiting_writers + 1 }

unfoldable pub writer_waits : Lock → Bool
writer_waits l = not (eqb_ℤ l.resource_cnt (pos 0))

-- The counter is at least 1 here, since the caller has counted itself.
unfoldable pub writer_enters : Lock → Lock
writer_enters l = record { resource_cnt = negsuc 0; waiting_writers = l.waiting_writers - 1 }

unfoldable pub writer_unlock : Lock → Lock × List Wake
writer_unlock l = (
  record l { resource_cnt = pos 0 },
  if ltb 0 l.waiting_writers then signal_write ∷ [] else broadcast_read ∷ [],
)

abbrev pub writer_pref : Code
writer_pref = record {
  init = initialize;
  reader_waits = reader_waits;
  reader_enters = reader_enters;
  reader_unlock = reader_unlock;
  writer_calls = writer_calls;
  writer_waits = writer_waits;
  writer_enters = writer_enters;
  writer_unlock = writer_unlock;
}
