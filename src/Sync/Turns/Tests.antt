-- ===== src/Sync/Turns/Tests.antt =====
-- The first thread prints while the second waits, and wakes it.
use os_modules.Prelude.{ℕ, ◌≤◌, ◌<◌, ◌≡◌, ◌⊎◌, refl, [], ◌∷◌, arith}
use os_modules.Prelude.Array.{update}
use os_modules.Sync.Zemaphore.{zem_init, zem_waits, zem_down, zem_up}
use os_modules.Sync.Turns.{
  at_down, State, successor, wake, start, downs, prints, ups, moves, asleep, Act, act_down,
  act_print, act_up, sleeps, Reach, begin, act, idle,
}
use os_modules.Sync.Turns.Invariant.{turns}
use os_modules.Sync.Turns.Order.{Finished, Reach-turns, Reach-ends}

abbrev one_waits : State
one_waits = moves 1 asleep start

abbrev passed : State
passed = downs 0 one_waits

abbrev one_woken : State
one_woken = ups 0 (prints 0 passed)

one_woken-Reach : Reach 3 one_woken
unfolding moves downs prints start update zem_init zem_waits
one_woken-Reach =
    let waits = idle begin (sleeps 1 (omega arith) refl (omega arith) refl) in
    let passes = act waits (act_down 0 (omega arith) refl (omega arith) refl) in
    let printed = act passes (act_print 0 (omega arith) refl) in
    act printed (act_up 0 (omega arith) refl)

woken : one_woken.pc 1 ≡ at_down
unfolding moves downs prints ups wake successor start update zem_init zem_waits zem_down zem_up
woken = refl

Reach-turns_example : one_woken.printed ≡ 0 ∷ []
unfolding turns
Reach-turns_example = Reach-turns one_woken-Reach

Reach-ends_example :
    (3 ≤ 90)
    × (((◌≡◌ {A = ℕ} 3 90) × Finished one_woken) ⊎ ((3 < 90) × (s' : State) × Act one_woken s'))
Reach-ends_example = Reach-ends one_woken-Reach
