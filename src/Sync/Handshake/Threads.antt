-- ===== src/Sync/Handshake/Threads.antt =====
-- test-zem.c: the thread that goes on behind zem_down, and those that wait.
use mathlib.Core.Path.{subst}
use os_modules.Prelude.{ℕ, ◌+◌, ◌<◌, ◌≡◌, ◌⊎◌, refl, sym, ap, ◌∙◌, inl, inr, [], ◌∷◌, ◌++◌, arith}
use os_modules.Prelude.Array.{Array, update, update_self, update_ne, update_at}
use os_modules.Sync.Zemaphore.{zem_waits, zem_up}
use os_modules.Sync.Handshake.{
  num_threads, from_thread, MainPc, to_down, in_wait, ThreadPc, at_down, asleep, at_up, over, State,
  thread_prints, thread_ups, wake_main, Idle, main_sleeps, main_wakes, sleeps, wakes,
}
use os_modules.Sync.Handshake.Invariant.{
  Phase, printing, upping, offered, prints, ups, answered, joined, offer, answer, passed, MainAt,
  LastAt, Waits, Waits-at_print, Waits-at_up, Waits-over, IsNew, Inv, Waits-IsNew,
}
use os_modules.Sync.Handshake.Moves.{log-thread}

wake_main-to_down :
    (k : ℕ) (p : MainPc) → (p ≡ to_down k) ⊎ (p ≡ in_wait k) → wake_main p ≡ to_down k
unfolding wake_main
wake_main-to_down k p (inl e) = rw e refl
wake_main-to_down k p (inr e) = rw e refl

main_sleeps-MainAt :
    (p : Phase) (k j : ℕ) → MainAt p k (to_down j) → answer p ≡ 0 → MainAt p k (in_wait j)
main_sleeps-MainAt printing k j at h = absurd cc
main_sleeps-MainAt upping k j at h = absurd cc
main_sleeps-MainAt answered k j at h = absurd cc
main_sleeps-MainAt joined k j at h = absurd (cc (at.0))
main_sleeps-MainAt offered k j at h = ground arith
main_sleeps-MainAt prints k j at h = ground arith
main_sleeps-MainAt ups k j at h = ground arith

main_wakes-MainAt : (p : Phase) (k j : ℕ) → MainAt p k (in_wait j) → MainAt p k (to_down j)
main_wakes-MainAt printing k j at = absurd cc
main_wakes-MainAt upping k j at = absurd cc
main_wakes-MainAt answered k j at = absurd cc
main_wakes-MainAt joined k j at = absurd (cc (at.0))
main_wakes-MainAt offered k j at = ground arith
main_wakes-MainAt prints k j at = ground arith
main_wakes-MainAt ups k j at = ground arith

-- A thread that waits has not passed last.
last-moves : (p : Phase) (q q' : ThreadPc) → LastAt p q → Waits q → LastAt p q'
last-moves prints q q' at w = absurd (Waits-at_print (subst Waits at w))
last-moves ups q q' at w = absurd (Waits-at_up (subst Waits at w))
last-moves answered q q' at w = absurd (Waits-over (subst Waits at w))
last-moves printing q q' at w = tt
last-moves upping q q' at w = tt
last-moves offered q q' at w = tt
last-moves joined q q' at w = tt

module _ {s : State} {who : Array ℕ} {k : ℕ} where
  -- The thread that has passed last moves, and the others stay.
  moved-overs :
      {p : Phase} (q : ThreadPc)
      → Inv s who k p
      → passed p ≡ 1
      → (j : ℕ) → j < k
      → update s.thread (who k) q (who j) ≡ over
  moved-overs q inv one j h =
      let (lt, new) = inv.threads k (omega arith) in
      update_ne s.thread (who k) (who j) q (λ e. new j h (sym e)) ∙ inv.overs j h

  moved-waiting :
      {p : Phase} (q : ThreadPc)
      → Inv s who k p
      → passed p ≡ 1
      → (i : ℕ) → i < num_threads
      → IsNew who (k + 1) i
      → Waits (update s.thread (who k) q i)
  moved-waiting q inv one i lt new =
      update_at Waits s.thread (who k) i (λ e. absurd (new k (omega arith) e))
        (λ ne. inv.waiting i lt (λ j h. new j (omega arith)))

  pub thread_prints-Inv : Inv s who k prints → Inv (thread_prints (who k) s) who k ups
  unfolding thread_prints
  thread_prints-Inv inv = record {
    main_at = inv.main_at;
    child_eq = inv.child_eq;
    parent_eq = inv.parent_eq;
    last_at = update_self s.thread (who k) at_up;
    overs = moved-overs at_up inv refl;
    waiting = moved-waiting at_up inv refl;
    threads = inv.threads;
    awake = λ e. absurd cc;
    printed_eq = ap (λ l. l ++ (from_thread (who k + 1) ∷ [])) inv.printed_eq ∙ log-thread who k;
    bound = inv.bound;
  }

  pub thread_ups-Inv : Inv s who k ups → Inv (thread_ups (who k) s) who k answered
  unfolding thread_ups zem_up
  thread_ups-Inv inv = record {
    main_at = wake_main-to_down k s.main_pc inv.main_at;
    child_eq = inv.child_eq;
    parent_eq = omega (arith, inv.parent_eq);
    last_at = update_self s.thread (who k) over;
    overs = moved-overs over inv refl;
    waiting = moved-waiting over inv refl;
    threads = inv.threads;
    awake = λ e. absurd cc;
    printed_eq = inv.printed_eq;
    bound = inv.bound;
  }

  -- Main waits, or wakes up by itself.
  main_waits-Inv :
      (p : Phase) (q : MainPc)
      → Inv s who k p
      → MainAt p k q
      → Inv (record s { main_pc = q }) who k p
  main_waits-Inv p q inv at = record {
    main_at = at;
    child_eq = inv.child_eq;
    parent_eq = inv.parent_eq;
    last_at = inv.last_at;
    overs = inv.overs;
    waiting = inv.waiting;
    threads = inv.threads;
    awake = inv.awake;
    printed_eq = inv.printed_eq;
    bound = inv.bound;
  }

  -- A thread waits, or wakes up by itself.
  waits-Inv :
      (p : Phase) (i : ℕ) (q : ThreadPc)
      → Inv s who k p
      → Waits (s.thread i)
      → Waits q
      → (offer p ≡ 1 → q ≡ at_down)
      → Inv (record s { thread = update s.thread i q }) who k p
  waits-Inv p i q inv w w' down = record {
    main_at = inv.main_at;
    child_eq = inv.child_eq;
    parent_eq = inv.parent_eq;
    last_at =
        update_at (LastAt p) s.thread i (who k)
          (λ e. last-moves p (s.thread (who k)) q inv.last_at (subst Waits (ap s.thread e) w))
          (λ ne. inv.last_at);
    overs = λ j h.
        update_ne s.thread i (who j) q (λ e. Waits-IsNew inv i w j h (sym e)) ∙ inv.overs j h;
    waiting = λ i' lt new. update_at Waits s.thread i i' (λ e. w') (λ ne. inv.waiting i' lt new);
    threads = inv.threads;
    awake = λ one.
        let (i', lt, new, at) = inv.awake one in
        (i', lt, new, update_at (λ q. q ≡ at_down) s.thread i i' (λ e. down one) (λ ne. at));
    printed_eq = inv.printed_eq;
    bound = inv.bound;
  }

  pub Idle-Inv : {s' : State} (p : Phase) → Idle s s' → Inv s who k p → Inv s' who k p
  unfolding zem_waits
  Idle-Inv p (main_sleeps j at none) inv =
      main_waits-Inv p (in_wait j) inv (
        main_sleeps-MainAt p k j (subst (MainAt p k) at inv.main_at)
          (ground (arith, inv.parent_eq)))
  Idle-Inv p (main_wakes j at) inv =
      main_waits-Inv p (to_down j) inv (main_wakes-MainAt p k j (subst (MainAt p k) at inv.main_at))
  Idle-Inv p (sleeps i lt at none) inv =
      waits-Inv p i asleep inv (inl at) (inr refl) (λ one. absurd (ground (arith, inv.child_eq)))
  Idle-Inv p (wakes i lt at) inv = waits-Inv p i at_down inv (inr at) (inl refl) (λ one. refl)
