-- ===== src/Sync/Handshake/Tests.antt =====
-- The second thread sleeps, is woken by main, and prints first.
use os_modules.Prelude.{ℕ, ◌≤◌, ◌<◌, ◌≡◌, ◌⊎◌, refl, [], ◌∷◌, arith}
use os_modules.Prelude.Array.{Array, update}
use os_modules.Sync.Zemaphore.{zem_init, zem_waits, zem_up}
use os_modules.Sync.Handshake.{
  from_main, from_thread, at_down, asleep, State, start, main_prints, to_one, main_ups,
  thread_downs, thread_prints, Act, act_main_prints, act_main_ups, act_downs, act_prints, sleeps,
  Reach, begin, act, idle,
}
use os_modules.Sync.Handshake.Invariant.{log}
use os_modules.Sync.Handshake.Ends.{Joined, Reach-handshake}

abbrev one_sleeps : State
one_sleeps = record start { thread = update start.thread 1 asleep }

abbrev one_woken : State
one_woken = main_ups 0 (update one_sleeps.thread 1 at_down) (main_prints 0 one_sleeps)

abbrev one_prints : State
one_prints = thread_prints 1 (thread_downs 1 one_woken)

one_prints-Reach : Reach 4 one_prints
unfolding start main_prints main_ups thread_downs thread_prints update zem_init zem_waits zem_up
one_prints-Reach =
    let waits = idle begin (sleeps 1 (omega arith) refl refl) in
    let printed = act waits (act_main_prints 0 refl) in
    let woken = act printed (act_main_ups 0 _ refl (to_one 1 (omega arith) refl refl)) in
    let passed = act woken (act_downs 1 (omega arith) refl refl) in
    act passed (act_prints 1 (omega arith) refl)

one_prints_printed : one_prints.printed ≡ from_main 0 ∷ from_thread 2 ∷ []
unfolding start main_prints main_ups thread_downs thread_prints
one_prints_printed = refl

Reach-handshake_example :
    (who : Array ℕ) × (one_prints.printed ≡ log who 2)
    × (4 ≤ 13)
    × (((◌≡◌ {A = ℕ} 4 13) × Joined who one_prints) ⊎ ((4 < 13) × (s' : State) × Act one_prints s'))
Reach-handshake_example = Reach-handshake one_prints-Reach
