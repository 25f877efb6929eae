-- ===== src/Sync/Handshake/Moves.antt =====
-- test-zem.c: every step keeps what holds.
use mathlib.Core.Path.{subst, ap₂}
use os_modules.Prelude.{
  ℕ, zero, suc, ◌+◌, ◌*◌, ◌/◌, ◌%◌, ◌≤◌, ◌<◌, ◌≡◌, refl, sym, ap, ◌∙◌, inl, inr, [], ◌∷◌, ◌++◌,
  ℕ_discrete, arith,
}
use os_modules.Prelude.Array.{Array, update, update_self, update_ne, update_at}
use os_modules.Sync.Zemaphore.{zem_down, zem_up}
use os_modules.Sync.Handshake.{
  num_threads, from_main, from_thread, ThreadPc, at_down, at_print, over, State, main_prints,
  main_ups, main_downs, Signal, to_one, to_none, thread_downs,
}
use os_modules.Sync.Handshake.Invariant.{
  printing, upping, offered, prints, answered, joined, Waits, line_at, log, IsNew, some-IsNew, Inv,
  Waits-IsNew,
}

-- The lines_after of the first threads do not change with a later one.
log-update : (who : Array ℕ) (k i m : ℕ) → m ≤ 2 * k + 1 → log (update who k i) m ≡ log who m
unfolding log line_at
log-update who k i zero h = refl
log-update who k i (suc m) h =
    let same : (m % 2 ≡ 1 → update who k i (m / 2) ≡ who (m / 2)) =
      λ odd. update_ne who k (m / 2) i (omega arith) in
    ap₂ (λ l x. l ++ (x ∷ [])) (log-update who k i m (omega arith)) (ground (arith, same))

log-snoc : (who : Array ℕ) (m m' : ℕ) → m' ≡ suc m → log who m ++ (line_at who m ∷ []) ≡ log who m'
unfolding log
log-snoc who m m' e = ap (log who) (sym e)

line_at-main : (who : Array ℕ) (k : ℕ) → line_at who (2 * k + 0) ≡ from_main k
unfolding line_at
line_at-main who k =
    let half : (2 * k + 0) / 2 ≡ k = omega arith in ground (arith, ap from_main half)

line_at-thread : (who : Array ℕ) (k : ℕ) → line_at who (2 * k + 1) ≡ from_thread (who k + 1)
unfolding line_at
line_at-thread who k =
    let half : (2 * k + 1) / 2 ≡ k = omega arith in
    ground (arith, ap (λ j. from_thread (who j + 1)) half)

log-main : (who : Array ℕ) (k : ℕ) → log who (2 * k + 0) ++ (from_main k ∷ []) ≡ log who (2 * k + 1)
log-main who k =
    ap (λ x. log who (2 * k + 0) ++ (x ∷ [])) (sym (line_at-main who k))
    ∙ log-snoc who _ _ (omega arith)

pub log-thread :
    (who : Array ℕ) (k : ℕ)
    → log who (2 * k + 1) ++ (from_thread (who k + 1) ∷ []) ≡ log who (2 * k + 2)
log-thread who k =
    ap (λ x. log who (2 * k + 1) ++ (x ∷ [])) (sym (line_at-thread who k))
    ∙ log-snoc who _ _ (omega arith)

-- A new thread comes behind the first `k`.
threads-update :
    (who : Array ℕ) (k i : ℕ)
    → i < num_threads
    → IsNew who k i
    → ((j : ℕ) → j < k → (who j < num_threads) × IsNew who j (who j))
    → (j : ℕ) → j < k + 1
    → (update who k i j < num_threads) × IsNew (update who k i) j (update who k i j)
threads-update who k i lt new old j h = elim (ℕ_discrete k j) [
  | yes e ↦
      let at : update who k i j ≡ i = ap (update who k i) (sym e) ∙ update_self who k i in
      (
        rw at lt,
        λ j' h' e'. new j' (omega arith) (sym (update_ne who k j' i (omega arith)) ∙ (e' ∙ at)),
      )
  | no ne ↦
      let at : update who k i j ≡ who j = update_ne who k j i ne in
      let (in_range, is_new) = old j (omega arith) in
      (
        rw at in_range,
        λ j' h' e'. is_new j' h' (sym (update_ne who k j' i (omega arith)) ∙ (e' ∙ at)),
      )
]

module _ {s : State} {who : Array ℕ} {k : ℕ} where
  pub prints-upping : Inv s who k printing → k < num_threads → Inv (main_prints k s) who k upping
  unfolding main_prints
  prints-upping inv more = record {
    main_at = ground arith;
    child_eq = inv.child_eq;
    parent_eq = inv.parent_eq;
    last_at = tt;
    overs = inv.overs;
    waiting = inv.waiting;
    threads = inv.threads;
    awake = λ e. absurd cc;
    printed_eq = ap (λ l. l ++ (from_main k ∷ [])) inv.printed_eq ∙ log-main who k;
    bound = omega arith;
  }

  pub prints-joined : Inv s who k printing → k ≡ num_threads → Inv (main_prints k s) who k joined
  unfolding main_prints
  prints-joined inv last = record {
    main_at = (ground arith, last);
    child_eq = inv.child_eq;
    parent_eq = inv.parent_eq;
    last_at = tt;
    overs = inv.overs;
    waiting = inv.waiting;
    threads = inv.threads;
    awake = λ e. absurd cc;
    printed_eq = ap (λ l. l ++ (from_main k ∷ [])) inv.printed_eq ∙ log-main who k;
    bound = omega (arith, inv.bound);
  }

  pub main_ups-Inv :
      {thread : Array ThreadPc}
      → Inv s who k upping
      → Signal s.thread thread
      → Inv (main_ups k thread s) who k offered
  unfolding main_ups zem_up
  main_ups-Inv inv (to_one i lt at e) = record {
    main_at = inl refl;
    child_eq = omega (arith, inv.child_eq);
    parent_eq = inv.parent_eq;
    last_at = tt;
    overs = λ j lt'.
        ap (λ f. f (who j)) e
        ∙ update_at (λ q. q ≡ over) s.thread i (who j) (λ same. cc (same, at, inv.overs j lt'))
            (λ ne. inv.overs j lt');
    waiting = λ i' lt' new.
        subst (λ f. Waits (f i')) (sym e)
          (update_at Waits s.thread i i' (λ same. inl refl) (λ ne. inv.waiting i' lt' new));
    threads = inv.threads;
    awake = λ one.
        (i, lt, Waits-IsNew inv i (inr at), ap (λ f. f i) e ∙ update_self s.thread i at_down);
    printed_eq = inv.printed_eq;
    bound = inv.bound;
  }
  main_ups-Inv inv (to_none none e) =
      let (i, lt, new) = some-IsNew who k (omega (arith, inv.bound)) in
      let at : s.thread i ≡ at_down = elim (inv.waiting i lt (λ j h. new j (omega arith))) [
        | inl down ↦ down
        | inr sleeping ↦ absurd (none i lt sleeping)
      ] in
      record {
        main_at = inl refl;
        child_eq = omega (arith, inv.child_eq);
        parent_eq = inv.parent_eq;
        last_at = tt;
        overs = λ j lt'. ap (λ f. f (who j)) e ∙ inv.overs j lt';
        waiting = λ i' lt' new. subst (λ f. Waits (f i')) (sym e) (inv.waiting i' lt' new);
        threads = inv.threads;
        awake = λ one. (i, lt, new, ap (λ f. f i) e ∙ at);
        printed_eq = inv.printed_eq;
        bound = inv.bound;
      }

  pub main_downs-Inv : Inv s who k answered → Inv (main_downs k s) who (k + 1) printing
  unfolding main_downs zem_down
  main_downs-Inv inv = record {
    main_at = refl;
    child_eq = inv.child_eq;
    parent_eq = omega (arith, inv.parent_eq);
    last_at = tt;
    overs = λ j lt. elim (ℕ_discrete j k) [
      | yes last ↦ rw last inv.last_at
      | no before ↦ inv.overs j (omega arith)
    ];
    waiting = λ i lt new. inv.waiting i lt (λ j h. new j (omega arith));
    threads = λ j lt. inv.threads j (omega arith);
    awake = λ e. absurd cc;
    printed_eq = inv.printed_eq ∙ ap (log who) (omega arith);
    bound = omega (arith, inv.bound);
  }

  pub thread_downs-Inv :
      (i : ℕ)
      → i < num_threads
      → s.thread i ≡ at_down
      → Inv s who k offered
      → Inv (thread_downs i s) (update who k i) k prints
  unfolding thread_downs zem_down
  thread_downs-Inv i lt at inv =
      let new : IsNew who k i = Waits-IsNew inv i (inl at) in
      let same : (j : ℕ) → j < k → update who k i j ≡ who j =
        λ j h. update_ne who k j i (omega arith) in
      record {
        main_at = inv.main_at;
        child_eq = omega (arith, inv.child_eq);
        parent_eq = inv.parent_eq;
        last_at = rw (update_self who k i) (update_self s.thread i at_print);
        overs = λ j h.
            ap (update s.thread i at_print) (same j h)
            ∙ (update_ne s.thread i (who j) at_print (λ e. new j h (sym e)) ∙ inv.overs j h);
        waiting = λ i' lt' new'.
            update_at Waits s.thread i i'
              (λ e. absurd (new' k (omega arith) (update_self who k i ∙ e)))
              (λ ne. inv.waiting i' lt' (λ j h e. new' j (omega arith) (same j (omega arith) ∙ e)));
        threads = threads-update who k i lt new (λ j h. inv.threads j (omega arith));
        awake = λ e. absurd cc;
        printed_eq = inv.printed_eq ∙ sym (log-update who k i (2 * k + 1) (omega arith));
        bound = inv.bound;
      }
