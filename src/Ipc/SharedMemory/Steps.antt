-- ===== src/Ipc/SharedMemory/Steps.antt =====
-- my_shm_posix_prod.c, my_shm_posix_cons.c: what holds in every reachable state.
use mathlib.Core.Path.{ap₂, subst}
use os_modules.Prelude.{
  ℕ, suc, ◌+◌, ◌-◌, ◌%◌, ◌≤◌, ◌<◌, ◌≡◌, ◌≢◌, refl, sym, ap, ◌∙◌, List, [], ◌∷◌, ◌++◌, arith,
}
use os_modules.Prelude.Array.{update}
use os_modules.Ipc.SharedMemory.{
  places, messages, free_str, str, ProducerPc, at_while, at_if, at_write, ConsumerPc, at_read,
  at_printf, at_sprintf, State, start, next_round, write_str, send, receive, print, free_place,
}
use os_modules.Ipc.SharedMemory.Window.{
  numbers, log, Window, start-Window, Window-write, Window-free, Window-room, room-free,
  numbers-snoc, numbers-first,
}

abbrev pub begun : ProducerPc → ℕ
begun at_while = 0
begun _ = 1

abbrev pub written : ProducerPc → ℕ
written at_write = 1
written _ = 0

abbrev pub producer_steps : ProducerPc → ℕ
producer_steps at_while = 0
producer_steps at_if = 1
producer_steps at_write = 2

abbrev pub received : ConsumerPc → ℕ
received at_read = 0
received _ = 1

abbrev pub shown : ConsumerPc → ℕ
shown at_sprintf = 1
shown _ = 0

abbrev pub consumer_steps : ConsumerPc → ℕ
consumer_steps at_read = 0
consumer_steps at_printf = 1
consumer_steps at_sprintf = 2

-- `p` and `c` are where the programs stand.
pub record Inv (s : State) (p : ProducerPc) (c : ConsumerPc) : Type 0 where
  pub producer_eq : s.producer ≡ p
  pub consumer_eq : s.consumer ≡ c
  pub window : Window s.ptr s.consumer_cnt (s.cnt + written p)
  pub itr_eq : s.itr ≡ s.cnt % places
  pub cnt_le : s.cnt + begun p ≤ messages
  pub room : s.cnt + begun p ≤ s.consumer_cnt + places
  pub sent : s.consumer_cnt + received c ≤ s.cnt
  pub fifo_eq :
      s.fifo ≡ numbers (s.cnt - (s.consumer_cnt + received c)) (s.consumer_cnt + received c)
  pub consumer_itr_eq : c ≢ at_read → s.consumer_itr ≡ s.consumer_cnt % places
  pub printed_eq : s.printed ≡ log (s.consumer_cnt + shown c)

pub start-Inv : (consumer_itr : ℕ) → Inv (start consumer_itr) at_while at_read
unfolding start numbers log
start-Inv consumer_itr = record {
  producer_eq = refl;
  consumer_eq = refl;
  window = start-Window;
  itr_eq = refl;
  cnt_le = omega arith;
  room = omega arith;
  sent = omega arith;
  fifo_eq = refl;
  consumer_itr_eq = λ ne. absurd (ne refl);
  printed_eq = refl;
}

pub leaves_while-Inv :
    (s : State) (c : ConsumerPc)
    → Inv s at_while c
    → s.cnt < messages
    → s.ptr s.itr ≡ free_str
    → Inv (record s { producer = at_if }) at_if c
leaves_while-Inv s c r more is_free =
    let here : s.ptr ((s.cnt + 0) % places) ≡ free_str =
      ap s.ptr (omega (arith, r.itr_eq)) ∙ is_free in
    record {
      producer_eq = refl;
      consumer_eq = r.consumer_eq;
      window = r.window;
      itr_eq = r.itr_eq;
      cnt_le = omega arith;
      room = omega (arith, Window-room s.ptr s.consumer_cnt (s.cnt + 0) r.window here);
      sent = r.sent;
      fifo_eq = r.fifo_eq;
      consumer_itr_eq = r.consumer_itr_eq;
      printed_eq = r.printed_eq;
    }

pub write_str-Inv : (s : State) (c : ConsumerPc) → Inv s at_if c → Inv (write_str s) at_write c
unfolding write_str
write_str-Inv s c r =
    let here : (s.cnt + 0) % places ≡ s.itr = omega (arith, r.itr_eq) in
    let w = Window-write s.ptr s.consumer_cnt (s.cnt + 0) r.window (omega (arith, r.room)) in
    record {
      producer_eq = refl;
      consumer_eq = r.consumer_eq;
      window =
          subst (λ k. Window (update s.ptr k str) s.consumer_cnt (s.cnt + 1)) here
            (subst (Window (update s.ptr ((s.cnt + 0) % places) str) s.consumer_cnt) (omega arith)
              w);
      itr_eq = r.itr_eq;
      cnt_le = r.cnt_le;
      room = r.room;
      sent = r.sent;
      fifo_eq = r.fifo_eq;
      consumer_itr_eq = r.consumer_itr_eq;
      printed_eq = r.printed_eq;
    }

pub send-Inv : (s : State) (c : ConsumerPc) → Inv s at_write c → Inv (send s) at_while c
unfolding send next_round
send-Inv s c r =
    let first = s.consumer_cnt + received c in
    let count = s.cnt - first in
    let last : s.itr ≡ (first + count) % places = omega (arith, r.itr_eq, r.sent) in
    record {
      producer_eq = refl;
      consumer_eq = r.consumer_eq;
      window = subst (Window s.ptr s.consumer_cnt) (omega arith) r.window;
      itr_eq = ground (arith, r.itr_eq, r.cnt_le);
      cnt_le = omega (arith, r.cnt_le);
      room = omega (arith, r.room);
      sent = omega (arith, r.sent);
      fifo_eq =
          ap (λ l. l ++ (s.itr ∷ [])) r.fifo_eq
          ∙ (ap (λ k. numbers count first ++ (k ∷ [])) last
              ∙ (numbers-snoc count first ∙ ap (λ n. numbers n first) (omega (arith, r.sent))));
      consumer_itr_eq = r.consumer_itr_eq;
      printed_eq = r.printed_eq;
    }

pub receive-Inv :
    (s : State) (p : ProducerPc) (k : ℕ) (rest : List ℕ)
    → Inv s p at_read
    → s.fifo ≡ k ∷ rest
    → Inv (receive k rest s) p at_printf
unfolding receive
receive-Inv s p k rest r e =
    let first = s.consumer_cnt + 0 in
    let (n, count, head, tail) = numbers-first (s.cnt - first) first k rest (sym r.fifo_eq ∙ e) in
    record {
      producer_eq = r.producer_eq;
      consumer_eq = refl;
      window = r.window;
      itr_eq = r.itr_eq;
      cnt_le = r.cnt_le;
      room = r.room;
      sent = omega arith;
      fifo_eq = tail ∙ ap₂ numbers (omega arith) (omega arith);
      consumer_itr_eq = λ ne. omega arith;
      printed_eq = r.printed_eq;
    }

pub print-Inv : (s : State) (p : ProducerPc) → Inv s p at_printf → Inv (print s) p at_sprintf
unfolding print log
print-Inv s p r =
    let at : s.consumer_itr ≡ s.consumer_cnt % places = r.consumer_itr_eq (λ e. cc) in
    let before : s.consumer_cnt + 0 ≡ s.consumer_cnt = omega arith in
    let after : suc s.consumer_cnt ≡ s.consumer_cnt + 1 = omega arith in
    let shows : s.ptr s.consumer_itr ≡ str =
      ap s.ptr at ∙ r.window.used s.consumer_cnt (omega arith) (omega (arith, r.sent)) in
    record {
      producer_eq = r.producer_eq;
      consumer_eq = refl;
      window = r.window;
      itr_eq = r.itr_eq;
      cnt_le = r.cnt_le;
      room = r.room;
      sent = r.sent;
      fifo_eq = r.fifo_eq;
      consumer_itr_eq = λ ne. at;
      printed_eq =
          ap (λ l. l ++ ((s.ptr s.consumer_itr, s.consumer_itr) ∷ []))
            (r.printed_eq ∙ ap log before)
          ∙ (ap₂ (λ c k. log s.consumer_cnt ++ ((c, k) ∷ [])) shows at ∙ ap log after);
    }

pub free_place-Inv :
    (s : State) (p : ProducerPc) → Inv s p at_sprintf → Inv (free_place s) p at_read
unfolding free_place
free_place-Inv s p r =
    let at : s.consumer_itr ≡ s.consumer_cnt % places = r.consumer_itr_eq (λ e. cc) in
    record {
      producer_eq = r.producer_eq;
      consumer_eq = refl;
      window =
          subst (λ k. Window (update s.ptr k free_str) (s.consumer_cnt + 1) (s.cnt + written p))
            (sym at)
            (Window-free s.ptr s.consumer_cnt (s.cnt + written p) r.window (omega (arith, r.sent)));
      itr_eq = r.itr_eq;
      cnt_le = r.cnt_le;
      room = omega (arith, r.room);
      sent = omega (arith, r.sent);
      fifo_eq = r.fifo_eq ∙ ap (λ k. numbers (s.cnt - k) k) (omega arith);
      consumer_itr_eq = λ ne. absurd (ne refl);
      printed_eq = r.printed_eq ∙ ap log (omega arith);
    }

-- At the if the place is still free.
pub if-free : (s : State) (c : ConsumerPc) → Inv s at_if c → s.ptr s.itr ≡ free_str
if-free s c r =
    ap s.ptr (omega (arith, r.itr_eq))
    ∙ room-free s.ptr s.consumer_cnt (s.cnt + 0) r.window (omega (arith, r.room))
