-- ===== src/Sync/Zemaphore/Tests.antt =====
-- zemaphore.c: three threads on a semaphore of value 0, of which two sleep and the third goes up.
use os_modules.Prelude.{◌≤◌, ◌≡◌, refl, arith}
use os_modules.Prelude.Array.{update}
use os_modules.Sync.Threads.{count}
use os_modules.Sync.Zemaphore.{zem_init, zem_waits, zem_up}
use os_modules.Sync.Zemaphore.System.{
  asleep, woken, System, sleeps, ups_and_wakes, Reach, begin, next, start,
}
use os_modules.Sync.Zemaphore.Waiting.{is_woken, asleep_awaited}

abbrev two_asleep : System
two_asleep = record (start 3 0) { pc = update (update (start 3 0).pc 0 asleep) 1 asleep }

two_asleep-Reach : Reach 3 0 two_asleep
unfolding zem_init zem_waits update
two_asleep-Reach =
    next (next begin (sleeps 0 (omega arith) refl refl)) (sleeps 1 (omega arith) refl refl)

abbrev one_woken : System
one_woken = record { zem = zem_up two_asleep.zem; pc = update two_asleep.pc 1 woken }

one_woken-Reach : Reach 3 0 one_woken
unfolding zem_init update
one_woken-Reach = next two_asleep-Reach (ups_and_wakes 2 1 (omega arith) refl (omega arith) refl)

zero_asleep : one_woken.pc 0 ≡ asleep
unfolding update
zero_asleep = refl

asleep_awaited_example : one_woken.zem.accesses ≤ count is_woken 3 one_woken.pc
asleep_awaited_example = asleep_awaited 3 one_woken-Reach 0 (omega arith) zero_asleep
