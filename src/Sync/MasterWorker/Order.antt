-- ===== src/Sync/MasterWorker/Order.antt =====
-- master-worker.c: the items in the buffer, in order.
use native.Mathlib.Nat.{mod-add-mod, mod-eq-sub-mod, mod-eq_of_lt, mod-lt, zero-mod}
use os_modules.Prelude.{
  ℕ, ◌+◌, ◌-◌, ◌%◌, ◌≤◌, ◌<◌, ◌≡◌, ◌≢◌, refl, sym, ap, ◌∙◌, false, ◌&&◌, ltb, arith, ℕ_discrete,
  dec_lt,
}
use os_modules.Prelude.Array.{Array, update, update_self, update_ne}
use os_modules.Prelude.Int.{ℤ, pos, ◌+ℤ◌, ◌-ℤ◌, eqb_ℤ}
use os_modules.Sync.MasterWorker.{
  Shared, start_shared, master_waits, worker_waits, produce, consume,
}
use os_modules.Sync.MasterWorker.System.{
  System, Step, master_enters, master_ends, master_sleeps, master_wakes, master_produces,
  worker_enters, worker_ends, worker_sleeps, worker_wakes, worker_consumes, Reach, begin, next,
}

-- Two places less than the size of the buffer apart differ.
mod-ne : (m j d : ℕ) → 0 < m → 0 < d → d < m → (j + d) % m ≢ j % m
mod-ne m j d pm pd lt e =
    let r_lt = mod-lt j pm in
    let sum : (j % m + d) % m ≡ j % m = mod-add-mod j m d ∙ e in
    elim (dec_lt (j % m + d) m) [
      | yes small ↦ omega (arith, sym (mod-eq_of_lt small) ∙ sum)
      | no large ↦
          let wrapped : j % m + d - m < m = omega (arith, r_lt) in
          let back =
            sym (mod-eq_of_lt wrapped)
            ∙ sym (mod-eq-sub-mod {n = j % m + d} {m = m} (omega arith))
            ∙ sum in
          omega (arith, r_lt, back)
    ]

not_full :
    (p c m t : ℕ) (z : ℤ)
    → z ≡ pos p -ℤ pos c
    → (eqb_ℤ z (pos m) && ltb p t) ≡ false
    → p < t
    → c ≤ p
    → p ≢ c + m
unfolding ◌-ℤ◌
not_full p c m t z e goes lt le full =
    let goes' : (eqb_ℤ (pos p -ℤ pos c) (pos m) && ltb p t) ≡ false =
      ap (λ y. eqb_ℤ y (pos m) && ltb p t) (sym e) ∙ goes in
    ground arith

size_up : (p c : ℕ) → (pos p -ℤ pos c) +ℤ pos 1 ≡ pos (p + 1) -ℤ pos c
unfolding ◌-ℤ◌ ◌+ℤ◌
size_up p c = ground arith

size_down : (p c : ℕ) → (pos p -ℤ pos c) -ℤ pos 1 ≡ pos p -ℤ pos (c + 1)
unfolding ◌-ℤ◌ ◌+ℤ◌
size_down p c = ground arith

module _ (total_items max_buf_size : ℕ) where
  -- The counters and positions agree; and while neither counter has gone beyond the number of items,
  -- the buffer holds the items between the two, in order.
  pub record Ordered (s : Shared) : Type 0 where
    pub add_eq : s.add ≡ s.item_to_produce % max_buf_size
    pub rem_eq : s.rem ≡ s.item_to_consume % max_buf_size
    pub size_eq : s.curr_buf_size ≡ pos s.item_to_produce -ℤ pos s.item_to_consume
    pub order :
        s.item_to_produce ≤ total_items
        → s.item_to_consume ≤ total_items
        → s.item_to_consume ≤ s.item_to_produce
    pub room :
        s.item_to_produce ≤ total_items
        → s.item_to_consume ≤ total_items
        → s.item_to_produce ≤ s.item_to_consume + max_buf_size
    pub items :
        s.item_to_produce ≤ total_items
        → s.item_to_consume ≤ total_items
        → (j : ℕ) → s.item_to_consume ≤ j
        → j < s.item_to_produce
        → s.buffer (j % max_buf_size) ≡ j

  module _ (pos_size : 0 < max_buf_size) where
    start-Ordered : (junk : Array ℕ) → Ordered (start_shared junk)
    unfolding start_shared ◌-ℤ◌
    start-Ordered junk = record {
      add_eq = sym (zero-mod max_buf_size);
      rem_eq = sym (zero-mod max_buf_size);
      size_eq = refl;
      order = λ p c. omega arith;
      room = λ p c. omega arith;
      items = λ p c j lo hi. absurd (omega arith);
    }

    next_place : (a p : ℕ) → a ≡ p % max_buf_size → (a + 1) % max_buf_size ≡ (p + 1) % max_buf_size
    next_place a p e = ap (λ x. (x + 1) % max_buf_size) e ∙ mod-add-mod p max_buf_size 1

    apart :
        (s : Shared)
        → Ordered s
        → master_waits total_items max_buf_size s ≡ false
        → s.item_to_produce + 1 ≤ total_items
        → s.item_to_consume ≤ total_items
        → (j : ℕ) → s.item_to_consume ≤ j
        → j < s.item_to_produce
        → s.add ≢ j % max_buf_size
    unfolding master_waits
    apart s o goes p c j lo hi e =
        let le = o.order (omega arith) c in
        let not_at_end =
          not_full s.item_to_produce s.item_to_consume max_buf_size total_items s.curr_buf_size
            o.size_eq goes (omega arith) le in
        let near = o.room (omega arith) c in
        let distance : j + (s.item_to_produce - j) ≡ s.item_to_produce = omega arith in
        mod-ne max_buf_size j (s.item_to_produce - j) pos_size (omega arith) (omega arith)
          (ap (λ t. t % max_buf_size) distance ∙ sym o.add_eq ∙ e)

    not_empty :
        (s : Shared)
        → Ordered s
        → worker_waits total_items max_buf_size s ≡ false
        → s.item_to_produce ≤ total_items
        → s.item_to_consume + 1 ≤ total_items
        → s.item_to_produce ≢ s.item_to_consume
    unfolding worker_waits ◌-ℤ◌
    not_empty s o goes p c e =
        let goes' : (eqb_ℤ (pos s.item_to_produce -ℤ pos s.item_to_consume) (pos 0)
              && ltb s.item_to_consume total_items)
            ≡ false =
          ap (λ y. eqb_ℤ y (pos 0) && ltb s.item_to_consume total_items) (sym o.size_eq) ∙ goes in
        ground arith

    produce-Ordered :
        (s : Shared)
        → Ordered s
        → master_waits total_items max_buf_size s ≡ false
        → Ordered (produce total_items max_buf_size s)
    unfolding produce master_waits
    produce-Ordered s o goes = record {
      add_eq = next_place s.add s.item_to_produce o.add_eq;
      rem_eq = o.rem_eq;
      size_eq = ap (λ z. z +ℤ pos 1) o.size_eq ∙ size_up s.item_to_produce s.item_to_consume;
      order = λ p c. omega (arith, o.order (omega arith) c);
      room = λ p c.
          let le = o.order (omega arith) c in
          omega (
            arith,
            o.room (omega arith) c,
            not_full s.item_to_produce s.item_to_consume max_buf_size total_items s.curr_buf_size
                o.size_eq goes (omega arith) le,
          );
      items = λ p c j lo hi. elim (ℕ_discrete s.item_to_produce j) [
        | yes new ↦
            ap (update s.buffer s.add s.item_to_produce)
              (ap (λ t. t % max_buf_size) (sym new) ∙ sym o.add_eq)
            ∙ update_self s.buffer s.add s.item_to_produce
            ∙ new
        | no old ↦
            update_ne s.buffer s.add (j % max_buf_size) s.item_to_produce
              (apart s o goes p c j lo (omega arith))
            ∙ o.items (omega arith) c j lo (omega arith)
      ];
    }

    consume-Ordered :
        (s : Shared)
        → Ordered s
        → worker_waits total_items max_buf_size s ≡ false
        → Ordered (consume total_items max_buf_size s).1
    unfolding consume worker_waits
    consume-Ordered s o goes = record {
      add_eq = o.add_eq;
      rem_eq = next_place s.rem s.item_to_consume o.rem_eq;
      size_eq = ap (λ z. z -ℤ pos 1) o.size_eq ∙ size_down s.item_to_produce s.item_to_consume;
      order = λ p c.
          let le = o.order p (omega arith) in omega (arith, not_empty s o goes p (omega arith));
      room = λ p c. omega (arith, o.room p (omega arith));
      items = λ p c j lo hi. o.items p (omega arith) j (omega arith) hi;
    }

    module _ (num_masters num_workers : ℕ) (junk : Array ℕ) where
      Step-Ordered :
          {s t : System}
          → Step total_items max_buf_size num_masters num_workers s t
          → Ordered s.shared
          → Ordered t.shared
      Step-Ordered (master_enters i lt at test) o = o
      Step-Ordered (master_ends i lt at test) o = o
      Step-Ordered (master_sleeps i lt at test) o = o
      Step-Ordered (master_wakes i lt at) o = o
      Step-Ordered {s} (master_produces i lt at test) o = produce-Ordered s.shared o test
      Step-Ordered (worker_enters i lt at test) o = o
      Step-Ordered (worker_ends i lt at test) o = o
      Step-Ordered (worker_sleeps i lt at test) o = o
      Step-Ordered (worker_wakes i lt at) o = o
      Step-Ordered {s} (worker_consumes i lt at test) o = consume-Ordered s.shared o test

      -- With a buffer of at least one place: in every reachable state the positions are the counters
      -- modulo the size of the buffer and curr_buf_size is the difference of the counters; and while
      -- neither counter has gone beyond the number of items, no more are consumed than produced, no
      -- more are waiting than fit, and the buffer holds the waiting ones in order.
      pub Reach-Ordered :
          {s : System}
          → Reach total_items max_buf_size num_masters num_workers junk s
          → Ordered s.shared
      Reach-Ordered begin = start-Ordered junk
      Reach-Ordered (next r st) = Step-Ordered st (Reach-Ordered r)
