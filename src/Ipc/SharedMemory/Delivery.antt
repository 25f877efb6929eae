-- ===== src/Ipc/SharedMemory/Delivery.antt =====
-- my_shm_posix_prod.c, my_shm_posix_cons.c: every message is printed, once and in order.
use mathlib.Core.Path.{subst}
use os_modules.Prelude.{
  ℕ, ◌+◌, ◌-◌, ◌*◌, ◌%◌, ◌≤◌, ◌<◌, ◌≡◌, refl, sym, ap, ◌∙◌, [], dec_lt, inl, inr, ◌⊎◌, arith,
}
use os_modules.Ipc.SharedMemory.{
  places, messages, ProducerPc, at_while, at_if, at_write, ConsumerPc, at_read, at_printf,
  at_sprintf, State, start, next_round, write_str, send, receive, print, free_place, Step,
  leaves_while, writes, skips, sends, receives, finds_end, prints, frees, Reach, begin, next,
}
use os_modules.Ipc.SharedMemory.Window.{numbers, log, room-free, numbers-none, numbers-suc}
use os_modules.Ipc.SharedMemory.Steps.{
  producer_steps, consumer_steps, begun, received, shown, Inv, start-Inv, leaves_while-Inv,
  write_str-Inv, send-Inv, receive-Inv, print-Inv, free_place-Inv, if-free,
}

-- The state after `n` steps.
After : (n : ℕ) → State → Type 0
After n s =
    (p : ProducerPc) × (c : ConsumerPc) × Inv s p c
    × (n ≡ 3 * s.cnt + producer_steps p + 3 * s.consumer_cnt + consumer_steps c)

Step-After : {s t : State} (n : ℕ) → Step s t → After n s → After (n + 1) t
unfolding After write_str send next_round receive print free_place
Step-After {s} n (leaves_while at more is_free) (p, c, r, e) =
    let here : p ≡ at_while = sym r.producer_eq ∙ at in
    (
      at_if,
      c,
      leaves_while-Inv s c (subst (λ p. Inv s p c) here r) more is_free,
      omega (arith, e, ap producer_steps here),
    )
Step-After {s} n (writes at is_free) (p, c, r, e) =
    let here : p ≡ at_if = sym r.producer_eq ∙ at in
    (
      at_write,
      c,
      write_str-Inv s c (subst (λ p. Inv s p c) here r),
      omega (arith, e, ap producer_steps here),
    )
Step-After {s} n (skips at in_use) (p, c, r, e) =
    let here : p ≡ at_if = sym r.producer_eq ∙ at in
    absurd (in_use (if-free s c (subst (λ p. Inv s p c) here r)))
Step-After {s} n (sends at) (p, c, r, e) =
    let here : p ≡ at_write = sym r.producer_eq ∙ at in
    (
      at_while,
      c,
      send-Inv s c (subst (λ p. Inv s p c) here r),
      omega (arith, e, ap producer_steps here),
    )
Step-After {s} n (receives k rest at more full) (p, c, r, e) =
    let here : c ≡ at_read = sym r.consumer_eq ∙ at in
    (
      p,
      at_printf,
      receive-Inv s p k rest (subst (Inv s p) here r) full,
      omega (arith, e, ap consumer_steps here),
    )
Step-After {s} n (finds_end at more empty over) (p, c, r, e) =
    let here : c ≡ at_read = sym r.consumer_eq ∙ at in
    let all_received = numbers-none _ _ (sym r.fifo_eq ∙ empty) in
    absurd (omega (arith, r.sent, all_received, ap received here))
Step-After {s} n (prints at) (p, c, r, e) =
    let here : c ≡ at_printf = sym r.consumer_eq ∙ at in
    (
      p,
      at_sprintf,
      print-Inv s p (subst (Inv s p) here r),
      omega (arith, e, ap consumer_steps here),
    )
Step-After {s} n (frees at) (p, c, r, e) =
    let here : c ≡ at_sprintf = sym r.consumer_eq ∙ at in
    (
      p,
      at_read,
      free_place-Inv s p (subst (Inv s p) here r),
      omega (arith, e, ap consumer_steps here),
    )

Reach-After : {itr n : ℕ} {s : State} → Reach itr n s → After n s
unfolding After start
Reach-After {itr} begin = (at_while, at_read, start-Inv itr, refl)
Reach-After (next {n} r step) = Step-After n step (Reach-After r)

-- In every reachable state the consumer has printed the messages in order, each with the whole string and the
-- number of its place, and no message twice.
pub Reach-log :
    {itr n : ℕ} {s : State} → Reach itr n s → s.printed ≡ log (s.consumer_cnt + shown s.consumer)
unfolding After
Reach-log {s = s} r =
    let (p, c, inv, e) = Reach-After r in
    inv.printed_eq ∙ ap (λ c. log (s.consumer_cnt + shown c)) (sym inv.consumer_eq)

-- The consumer has work when a message is not yet freed.
consumer-Step :
    (s : State) (p : ProducerPc) (c : ConsumerPc)
    → Inv s p c
    → s.consumer_cnt < s.cnt
    → (t : State) × Step s t
consumer-Step s p at_read r more =
    let first = s.consumer_cnt + 0 in
    let (rest, full) = numbers-suc (s.cnt - first) first (omega arith) in
    (
      receive (first % places) rest s,
      receives (first % places) rest r.consumer_eq (omega (arith, r.cnt_le)) (r.fifo_eq ∙ full),
    )
consumer-Step s p at_printf r more = (print s, prints r.consumer_eq)
consumer-Step s p at_sprintf r more = (free_place s, frees r.consumer_eq)

-- The producer can go on when the next place is free.
producer-Step :
    (s : State) (p : ProducerPc) (c : ConsumerPc)
    → Inv s p c
    → s.cnt < messages
    → s.cnt < s.consumer_cnt + places
    → (t : State) × Step s t
producer-Step s at_while c r more room =
    let is_free = room-free s.ptr s.consumer_cnt (s.cnt + 0) r.window (omega arith) in
    let here : s.itr ≡ (s.cnt + 0) % places = omega (arith, r.itr_eq) in
    (_, leaves_while r.producer_eq more (ap s.ptr here ∙ is_free))
producer-Step s at_if c r more room = (write_str s, writes r.producer_eq (if-free s c r))
producer-Step s at_write c r more room = (send s, sends r.producer_eq)

producer_steps-le : (p : ProducerPc) → producer_steps p ≤ 2 * begun p
producer_steps-le at_while = omega arith
producer_steps-le at_if = omega arith
producer_steps-le at_write = omega arith

consumer_steps-le : (c : ConsumerPc) → consumer_steps c ≤ 2 * received c
consumer_steps-le at_read = omega arith
consumer_steps-le at_printf = omega arith
consumer_steps-le at_sprintf = omega arith

-- All messages are printed, and nothing is left in the fifo.
abbrev pub Delivered : State → Type 0
Delivered s = (s.printed ≡ log messages) × (s.fifo ≡ [])

at_end-Delivered :
    (s : State) (p : ProducerPc) (c : ConsumerPc)
    → Inv s p c
    → s.consumer_cnt ≡ messages
    → Delivered s
unfolding numbers
at_end-Delivered s p at_read r e =
    let nothing_left : s.cnt - (s.consumer_cnt + 0) ≡ 0 = omega (arith, r.cnt_le) in
    (
      r.printed_eq ∙ ap log (omega arith),
      r.fifo_eq ∙ ap (λ n. numbers n (s.consumer_cnt + 0)) nothing_left,
    )
at_end-Delivered s p at_printf r e = absurd (omega (arith, r.sent, r.cnt_le))
at_end-Delivered s p at_sprintf r e = absurd (omega (arith, r.sent, r.cnt_le))

-- A reachable state is reached after at most 6000 steps, 3 for each message and program. After 6000 steps
-- all messages are printed and the fifo is empty, and before some program can go on.
pub Reach-delivers :
    {itr n : ℕ} {s : State}
    → Reach itr n s
    → (n ≤ 6000) × (((n ≡ 6000) × Delivered s) ⊎ ((n < 6000) × (t : State) × Step s t))
unfolding After
Reach-delivers {itr} {n} {s} r = let (p, c, inv, e) = Reach-After r in goes_on p c inv e
  where
    bound :
        (p : ProducerPc) (c : ConsumerPc)
        → Inv s p c
        → n ≡ 3 * s.cnt + producer_steps p + 3 * s.consumer_cnt + consumer_steps c
        → n ≤ 6000
    bound p c inv e =
        omega (arith, e, inv.cnt_le, inv.sent, producer_steps-le p, consumer_steps-le c)

    goes_on :
        (p : ProducerPc) (c : ConsumerPc)
        → Inv s p c
        → n ≡ 3 * s.cnt + producer_steps p + 3 * s.consumer_cnt + consumer_steps c
        → (n ≤ 6000) × (((n ≡ 6000) × Delivered s) ⊎ ((n < 6000) × (t : State) × Step s t))
    goes_on p c inv e =
        let le = producer_steps-le p in
        let le' = consumer_steps-le c in
        elim (dec_lt s.consumer_cnt s.cnt) [
          | yes more ↦
              let (t, step) = consumer-Step s p c inv more in
              (bound p c inv e, inr (omega (arith, e, inv.cnt_le, inv.sent, le, le'), t, step))
          | no none_left ↦ elim (dec_lt s.cnt messages) [
            | yes more ↦
                let (t, step) = producer-Step s p c inv more (omega arith) in
                (bound p c inv e, inr (omega (arith, e, inv.cnt_le, inv.sent, le, le'), t, step))
            | no over ↦
                let delivered = at_end-Delivered s p c inv (omega (arith, inv.cnt_le)) in
                (bound p c inv e, inl (omega (arith, e, inv.cnt_le, inv.sent, le, le'), delivered))
          ]
        ]
