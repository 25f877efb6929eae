-- ===== src/Sync/MasterWorker/Over.antt =====
-- master-worker.c: the end of the threads but one.
use os_modules.Prelude.{ℕ, zero, suc, ◌<◌, ◌≡◌, ◌⊎◌, sym, ap, ◌∙◌, inl, inr, arith}
use os_modules.Prelude.Array.{Array}
use os_modules.Sync.MasterWorker.Signals.{
  Point, waiting, ended, SignalSystem, SignalStep, master_enters, master_ends, master_sleeps,
  master_produces, master_signals, master_signals_none, worker_enters, worker_ends, worker_sleeps,
  worker_consumes, worker_signals, worker_signals_none,
}

-- The end of the master and of worker 0.
pub record Over (s : SignalSystem) : Type 0 where
  pub master : s.master 0 ≡ ended
  pub worker : s.worker 0 ≡ ended
  pub other : s.worker 1 ≡ waiting

only_ended : (f : Array Point) {p : Point} → f 0 ≡ ended → (i : ℕ) → i < 1 → f i ≡ p → p ≡ ended
only_ended f over i lt e = let zero : i ≡ 0 = omega arith in cc (ap f zero, over, e)

ended_or_waits :
    (f : Array Point) {p : Point}
    → f 0 ≡ ended
    → f 1 ≡ waiting
    → (i : ℕ) → i < 2
    → f i ≡ p
    → (p ≡ ended) ⊎ (p ≡ waiting)
ended_or_waits f over waits zero lt e = inl (sym e ∙ over)
ended_or_waits f over waits (suc zero) lt e = inr (sym e ∙ waits)
ended_or_waits f over waits (suc (suc i)) lt e = absurd (omega arith)

module _ (total_items max_buf_size : ℕ) where
  pub no_step :
      (s : SignalSystem) {t : SignalSystem}
      → Over s
      → ¬ (SignalStep total_items max_buf_size 1 2 s t)
  no_step s o (master_enters i lt at more) = cc (only_ended s.master o.master i lt at)
  no_step s o (master_ends i lt at none) = cc (only_ended s.master o.master i lt at)
  no_step s o (master_sleeps i lt at full) = cc (only_ended s.master o.master i lt at)
  no_step s o (master_produces i lt at room) = cc (only_ended s.master o.master i lt at)
  no_step s o (master_signals i j lt lt' at at') = cc (only_ended s.master o.master i lt at)
  no_step s o (master_signals_none i lt at none) = cc (only_ended s.master o.master i lt at)
  no_step s o (worker_enters i lt at more) =
      ground (arith, ended_or_waits s.worker o.worker o.other i lt at)
  no_step s o (worker_ends i lt at none) =
      ground (arith, ended_or_waits s.worker o.worker o.other i lt at)
  no_step s o (worker_sleeps i lt at empty) =
      ground (arith, ended_or_waits s.worker o.worker o.other i lt at)
  no_step s o (worker_consumes i lt at item) =
      ground (arith, ended_or_waits s.worker o.worker o.other i lt at)
  no_step s o (worker_signals i j lt lt' at at') =
      ground (arith, ended_or_waits s.worker o.worker o.other i lt at)
  no_step s o (worker_signals_none i lt at none) =
      ground (arith, ended_or_waits s.worker o.worker o.other i lt at)
