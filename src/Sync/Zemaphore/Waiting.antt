-- ===== src/Sync/Zemaphore/Waiting.antt =====
-- zemaphore.c: no thread waits for a free access with nobody on the way.
use os_modules.Prelude.{ℕ, ◌≤◌, ◌<◌, ◌≡◌, ◌≢◌, ◌⊎◌, inl, inr, refl, ap, Bool, true, false, arith}
use os_modules.Prelude.Array.{update}
use os_modules.Sync.Threads.{count, count_moved, count_zero, count_pos}
use os_modules.Sync.Zemaphore.{zem_waits, zem_down, zem_up}
use os_modules.Sync.Zemaphore.System.{
  Pc, outside, asleep, woken, System, at_test, Step, sleeps, passes, ups_and_wakes, ups_alone,
  wakes_by_itself, Reach, begin, next,
}

abbrev pub is_asleep : Pc → Bool
is_asleep asleep = true
is_asleep _ = false

abbrev pub is_woken : Pc → Bool
is_woken woken = true
is_woken _ = false

module _ (n : ℕ) where
  -- When a thread sleeps, there is a woken thread for each access that is left.
  abbrev pub Awaited : System → Type 0
  Awaited s = (count is_asleep n s.pc ≡ 0) ⊎ (s.zem.accesses ≤ count is_woken n s.pc)

  -- A thread at the test that goes on.
  pass-Awaited :
      (s : System) (i : ℕ)
      → i < n
      → (q : Pc) → s.pc i ≡ q
      → at_test q ≡ true
      → zem_waits s.zem ≡ false
      → Awaited s
      → Awaited (record { zem = zem_down s.zem; pc = update s.pc i outside })
  unfolding zem_down zem_waits
  pass-Awaited s i lt outside at test goes (inl none_asleep) =
      inl (omega (arith, none_asleep, count_moved is_asleep n s.pc i outside outside lt at))
  pass-Awaited s i lt outside at test goes (inr enough) =
      inr (omega (arith, enough, count_moved is_woken n s.pc i outside outside lt at))
  pass-Awaited s i lt woken at test goes (inl none_asleep) =
      inl (omega (arith, none_asleep, count_moved is_asleep n s.pc i woken outside lt at))
  pass-Awaited s i lt woken at test goes (inr enough) =
      inr (ground (arith, enough, count_moved is_woken n s.pc i woken outside lt at))
  pass-Awaited s i lt asleep at test goes w = absurd (cc test)

  Step-Awaited : {s t : System} → Step n s t → Awaited s → Awaited t
  unfolding zem_up zem_waits
  Step-Awaited {s} (sleeps i lt test waits) w = inr (ground (arith, waits))
  Step-Awaited {s} (passes i lt test goes) w = pass-Awaited s i lt (s.pc i) refl test goes w
  Step-Awaited {s} (ups_and_wakes i j lt at lt' at') w = elim w [
    | inl none_asleep ↦
        inl (omega (arith, none_asleep, count_moved is_asleep n s.pc j asleep woken lt' at'))
    | inr enough ↦ inr (omega (arith, enough, count_moved is_woken n s.pc j asleep woken lt' at'))
  ]
  Step-Awaited {s} (ups_alone i lt at alone) w =
      inl (count_zero is_asleep n s.pc (λ j hj. not_asleep (s.pc j) (alone j hj)))
    where
      not_asleep : (q : Pc) → q ≢ asleep → is_asleep q ≡ false
      not_asleep outside ne = refl
      not_asleep woken ne = refl
      not_asleep asleep ne = absurd (ne refl)
  Step-Awaited {s} (wakes_by_itself i lt at) w = elim w [
    | inl none_asleep ↦
        inl (omega (arith, none_asleep, count_moved is_asleep n s.pc i asleep woken lt at))
    | inr enough ↦ inr (omega (arith, enough, count_moved is_woken n s.pc i asleep woken lt at))
  ]

  Reach-Awaited : {value : ℕ} {s : System} → Reach n value s → Awaited s
  Reach-Awaited begin = inl (count_zero is_asleep n (λ _. outside) (λ i lt. refl))
  Reach-Awaited (next r st) = Step-Awaited st (Reach-Awaited r)

  -- In every reachable state in which a thread sleeps in `zem_down`, at least as many threads are woken
  -- and come to the test as accesses are left: no wake-up is lost.
  pub asleep_awaited :
      {value : ℕ} {s : System}
      → Reach n value s
      → (i : ℕ) → i < n
      → s.pc i ≡ asleep
      → s.zem.accesses ≤ count is_woken n s.pc
  asleep_awaited {s = s} r i lt at = elim (Reach-Awaited r) [
    | inl none_asleep ↦
        absurd (omega (arith, none_asleep, count_pos is_asleep n s.pc i lt (ap is_asleep at)))
    | inr enough ↦ enough
  ]
