-- ===== src/Sync/Rwlock/Trial/Calls.antt =====
-- test-reader-pref.cpp, test-writer-pref.cpp: the wake-up calls, and the threads that they wake.
use os_modules.Prelude.{ℕ, ◌≡◌, ◌≢◌, ◌⊎◌, refl, sym, ap, ◌∙◌, inl, inr, List, arith}
use os_modules.Prelude.Array.{Array, update, update_at}
use os_modules.Sync.Rwlock.Code.{Wake}
use os_modules.Sync.Rwlock.System.{
  Pc, idle, asleep_reader, woken_reader, asleep_writer, woken_writer, wake_reader, Woken, done,
  broadcast, signal_one, signal_none,
}
use os_modules.Sync.Rwlock.Trial.{
  Role, reader, writer, Stage, outside, inside, acquired, released, finished, Does, stays, waits,
}
use os_modules.Sync.Rwlock.Trial.Fits.{Fits}

-- What a wake-up call does to a thread.
abbrev pub WokenOne : Pc → Pc → Type 0
WokenOne p p' =
    (p' ≡ p)
    ⊎ ((p ≡ asleep_reader) × (p' ≡ woken_reader))
    ⊎ ((p ≡ asleep_writer) × (p' ≡ woken_writer))

WokenOne-trans : (p p' p'' : Pc) → WokenOne p p' → WokenOne p' p'' → WokenOne p p''
WokenOne-trans p p' p'' h h' = ground arith

wake_reader-WokenOne : (p : Pc) → WokenOne p (wake_reader p)
wake_reader-WokenOne p = ground arith

pub Woken-WokenOne :
    {n : ℕ} {ws : List Wake} {pc pc' : Array Pc}
    → Woken n ws pc pc'
    → (i : ℕ) → WokenOne (pc i) (pc' i)
Woken-WokenOne done i = inl refl
Woken-WokenOne {pc = pc} {pc' = pc'} (broadcast wk) i =
    WokenOne-trans (pc i) (wake_reader (pc i)) (pc' i) (wake_reader-WokenOne (pc i))
      (Woken-WokenOne wk i)
Woken-WokenOne {pc = pc} {pc' = pc'} (signal_one j lt e wk) i =
    WokenOne-trans (pc i) (update pc j woken_writer i) (pc' i)
      (update_at (WokenOne (pc i)) pc j i (λ same. inr (inr (ap pc (sym same) ∙ e, refl)))
        (λ ne. inl refl))
      (Woken-WokenOne wk i)
Woken-WokenOne (signal_none none wk) i = Woken-WokenOne wk i

pub idle-WokenOne : (p : Pc) → WokenOne idle p → p ≡ idle
idle-WokenOne p h = ground arith

pub idle-outside :
    (ro : Role) (p : Pc) (st : Stage) → Fits ro p st → p ≡ idle → st ≢ finished → st ≡ outside
idle-outside ro p outside f e ne = refl
idle-outside ro p finished f e ne = absurd (ne refl)
idle-outside (reader k) p inside f e ne = absurd (ground arith)
idle-outside (writer k) p inside f e ne = absurd (ground arith)
idle-outside (reader k) p acquired f e ne = absurd (ground arith)
idle-outside (writer k) p acquired f e ne = absurd (ground arith)
idle-outside (reader k) p released f e ne = absurd (ground arith)
idle-outside (writer k) p released f e ne = absurd (ground arith)

-- A thread that is woken while another gives the lock back.
pub woken-Does :
    (ro : Role) (p p' : Pc) (st : Stage) → Fits ro p st → WokenOne p p' → Does ro p p' st st
woken-Does ro p p' st f (inl e) = stays e refl
woken-Does (reader k) p p' outside f (inr h) = waits (ground arith) refl refl
woken-Does (writer k) p p' outside f (inr h) = waits (ground arith) refl refl
woken-Does (reader k) p p' inside f (inr h) = absurd (ground arith)
woken-Does (writer k) p p' inside f (inr h) = absurd (ground arith)
woken-Does (reader k) p p' acquired f (inr h) = absurd (ground arith)
woken-Does (writer k) p p' acquired f (inr h) = absurd (ground arith)
woken-Does (reader k) p p' released f (inr h) = absurd (ground arith)
woken-Does (writer k) p p' released f (inr h) = absurd (ground arith)
woken-Does ro p p' finished f (inr h) = absurd (ground arith)
