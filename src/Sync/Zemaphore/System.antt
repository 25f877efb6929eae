-- ===== src/Sync/Zemaphore/System.antt =====
-- `n` threads that call zem_down and zem_up, interleaved in any order.
use os_modules.Prelude.{ℕ, ◌<◌, ◌≡◌, ◌≢◌, Bool, true, false}
use os_modules.Prelude.Array.{Array, update}
use os_modules.Sync.Zemaphore.{Zem, zem_init, zem_waits, zem_down, zem_up}

-- One that is woken has still to take the lock and test again.
pub data Pc : Type 0 where
  outside asleep woken : Pc

pub record System : Type 0 where
  pub zem : Zem
  pub pc : Array Pc

-- A thread that comes to the test in `zem_down`.
abbrev pub at_test : Pc → Bool
at_test outside = true
at_test asleep = false
at_test woken = true

module _ (n : ℕ) where
  -- A signal wakes one thread that waits, if any does.
  pub data Step (s : System) : System → Type 0 where
    sleeps :
        (i : ℕ)
        → i < n
        → at_test (s.pc i) ≡ true
        → zem_waits s.zem ≡ true
        → Step s (record s { pc = update s.pc i asleep })
    passes :
        (i : ℕ)
        → i < n
        → at_test (s.pc i) ≡ true
        → zem_waits s.zem ≡ false
        → Step s (record { zem = zem_down s.zem; pc = update s.pc i outside })
    ups_and_wakes :
        (i j : ℕ)
        → i < n
        → s.pc i ≡ outside
        → j < n
        → s.pc j ≡ asleep
        → Step s (record { zem = zem_up s.zem; pc = update s.pc j woken })
    ups_alone :
        (i : ℕ)
        → i < n
        → s.pc i ≡ outside
        → ((j : ℕ) → j < n → s.pc j ≢ asleep)
        → Step s (record s { zem = zem_up s.zem })
    wakes_by_itself :
        (i : ℕ) → i < n → s.pc i ≡ asleep → Step s (record s { pc = update s.pc i woken })

  abbrev pub start : (value : ℕ) → System
  start value = record { zem = zem_init value; pc = λ _. outside }

  pub data Reach (value : ℕ) : System → Type 0 where
    begin : Reach value (start value)
    next : {s t : System} → Reach value s → Step s t → Reach value t
