-- ===== src/Ipc/SharedMemory/Window.antt =====
-- my_shm_posix_prod.c, my_shm_posix_cons.c: the places in use are those of the messages from the consumer's to the
-- producer's, at most 512.
use os_modules.Prelude.{
  ℕ, zero, suc, ◌+◌, ◌%◌, ◌≤◌, ◌<◌, ◌≡◌, ◌≢◌, refl, sym, ap, ◌∙◌, List, [], ◌∷◌, ◌++◌, ℕ_discrete,
  dec_lt, arith,
}
use os_modules.Prelude.Array.{Array, update, update_ne, update_at, fill, fill_in}
use os_modules.Ipc.SharedMemory.{places, Content, free_str, str, zeros}

-- The numbers of the places of `n` messages, from message `k` on.
unfoldable pub numbers : (n k : ℕ) → List ℕ
numbers zero k = []
numbers (suc n) k = (k % places) ∷ numbers n (k + 1)

-- What the consumer prints for the first `n` messages.
unfoldable pub log : (n : ℕ) → List (Content × ℕ)
log zero = []
log (suc n) = log n ++ ((str, n % places) ∷ [])

-- Messages `from` to `to` stand in their places, and the other places are free.
pub record Window (ptr : Array Content) (from to : ℕ) : Type 0 where
  pub used : (k : ℕ) → from ≤ k → k < to → ptr (k % places) ≡ str
  pub unused :
      (j : ℕ) → j < places → ((k : ℕ) → from ≤ k → k < to → k % places ≢ j) → ptr j ≡ free_str
  pub ordered : from ≤ to
  pub small : to ≤ from + places

pub start-Window : Window (fill (λ _. zeros) 0 places free_str) 0 0
start-Window = record {
  used = λ k lo hi. absurd (omega arith);
  unused = λ j lt none. fill_in (λ _. zeros) 0 places free_str j (omega arith) (omega arith);
  ordered = omega arith;
  small = omega arith;
}

-- The producer writes the next message, when its place is free.
pub Window-write :
    (ptr : Array Content) (from to : ℕ)
    → Window ptr from to
    → to < from + places
    → Window (update ptr (to % places) str) from (to + 1)
Window-write ptr from to w room = record {
  used = λ k lo hi.
      update_at (λ c. c ≡ str) ptr (to % places) (k % places) (λ e. refl)
        (λ ne. w.used k lo (omega arith));
  unused = λ j lt none.
      update_ne ptr (to % places) j str (none to w.ordered (omega arith))
      ∙ w.unused j lt (λ k lo hi. none k lo (omega arith));
  ordered = omega (arith, w.ordered);
  small = omega arith;
}

-- The consumer frees the place of the first message.
pub Window-free :
    (ptr : Array Content) (from to : ℕ)
    → Window ptr from to
    → from < to
    → Window (update ptr (from % places) free_str) (from + 1) to
Window-free ptr from to w more = record {
  used = λ k lo hi.
      update_ne ptr (from % places) (k % places) free_str (omega (arith, w.small))
      ∙ w.used k (omega arith) hi;
  unused = λ j lt none.
      update_at (λ c. c ≡ free_str) ptr (from % places) j (λ e. refl)
        (λ ne. w.unused j lt (λ k lo hi. elim (ℕ_discrete k from) [
          | yes e ↦ λ at. ne (ap (λ m. m % places) (sym e) ∙ at)
          | no later ↦ none k (omega arith) hi
        ]));
  ordered = omega arith;
  small = omega (arith, w.small);
}

-- A place that is free has room for the message.
pub Window-room :
    (ptr : Array Content) (from to : ℕ)
    → Window ptr from to
    → ptr (to % places) ≡ free_str
    → to < from + places
Window-room ptr from to w is_free = elim (dec_lt to (from + places)) [
  | yes room ↦ room
  | no none_left ↦
      let same_place : to % places ≡ from % places = omega (arith, w.small) in
      let in_use : ptr (to % places) ≡ str =
        ap ptr same_place ∙ w.used from (omega arith) (omega arith) in
      absurd (cc (in_use, is_free))
]

-- With room for a message its place is free.
pub room-free :
    (ptr : Array Content) (from to : ℕ)
    → Window ptr from to
    → to < from + places
    → ptr (to % places) ≡ free_str
room-free ptr from to w room = w.unused (to % places) (omega arith) (λ k lo hi. omega arith)

pub numbers-snoc : (n k : ℕ) → numbers n k ++ (((k + n) % places) ∷ []) ≡ numbers (suc n) k
unfolding numbers
numbers-snoc zero k = ap (λ m. (m % places) ∷ []) (omega arith)
numbers-snoc (suc n) k =
    ap (λ l. (k % places) ∷ l)
      (ap (λ m. numbers n (k + 1) ++ ((m % places) ∷ [])) (omega arith) ∙ numbers-snoc n (k + 1))

pub numbers-first :
    (n k j : ℕ) (rest : List ℕ)
    → numbers n k ≡ j ∷ rest
    → (n' : ℕ) × (n ≡ suc n') × (j ≡ k % places) × (rest ≡ numbers n' (k + 1))
unfolding numbers
numbers-first zero k j rest e = absurd cc
numbers-first (suc n) k j rest e = (n, refl, cc, cc)

pub numbers-none : (n k : ℕ) → numbers n k ≡ [] → n ≡ 0
unfolding numbers
numbers-none zero k e = refl
numbers-none (suc n) k e = absurd cc

pub numbers-suc : (n k : ℕ) → 0 < n → (rest : List ℕ) × (numbers n k ≡ (k % places) ∷ rest)
unfolding numbers
numbers-suc zero k h = absurd (omega arith)
numbers-suc (suc n) k h = (numbers n (k + 1), refl)
