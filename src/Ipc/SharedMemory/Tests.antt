-- ===== src/Ipc/SharedMemory/Tests.antt =====
-- The first message, up to its print by the consumer.
use os_modules.Prelude.{ℕ, ◌≤◌, ◌<◌, ◌≡◌, ◌⊎◌, refl, [], ◌∷◌, arith}
use os_modules.Prelude.Array.{fill_in}
use os_modules.Ipc.SharedMemory.{
  places, zeros, free_str, str, at_if, State, start, next_round, write_str, send, receive, print,
  Step, leaves_while, writes, sends, receives, prints, Reach, begin, next,
}
use os_modules.Ipc.SharedMemory.Window.{log}
use os_modules.Ipc.SharedMemory.Delivery.{Delivered, Reach-log, Reach-delivers}

place_zero_free : (start 7).ptr 0 ≡ free_str
unfolding start
place_zero_free = fill_in (λ _. zeros) 0 places free_str 0 (omega arith) (omega arith)

abbrev one_sent : State
one_sent = send (write_str (record (start 7) { producer = at_if }))

abbrev one_printed : State
one_printed = print (receive 0 [] one_sent)

one_printed-Reach : Reach 7 5 one_printed
unfolding start next_round write_str send receive print
one_printed-Reach =
    let tested = next begin (leaves_while refl (omega arith) place_zero_free) in
    let written = next tested (writes refl place_zero_free) in
    let sent = next written (sends refl) in
    let received = next sent (receives 0 [] refl (omega arith) refl) in next received (prints refl)

Reach-log_example : one_printed.printed ≡ (str, 0) ∷ []
unfolding log start next_round write_str send receive print
Reach-log_example = Reach-log one_printed-Reach

Reach-delivers_example :
    (5 ≤ 6000)
    × (((◌≡◌ {A = ℕ} 5 6000) × Delivered one_printed)
        ⊎ ((5 < 6000) × (t : State) × Step one_printed t))
Reach-delivers_example = Reach-delivers one_printed-Reach
