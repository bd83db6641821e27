-- ===== src/Concurrency/ThreadPool/Drain.antt =====
-- `StopAndJoinWorkers`: how the workers of a stopped pool come to their end.
use watchlist.Prelude.{
  ℕ, zero, suc, ◌+◌, ◌*◌, ◌≤◌, Bool, true, false, List, [], ◌∷◌, ◌++◌, ◌≡◌, ◌⊎◌, inl, inr, refl,
  sym, ap, ◌∙◌, arith, append-nil, length, map, count,
}
use watchlist.Storage.Item.{ok, Done}
use watchlist.Concurrency.ThreadPool.{
  Worker, waiting, running, exited, ThreadPool, turn, turn_at, worker_turn, stop_workers,
  create_explicit,
}
use watchlist.Concurrency.ThreadPool.Order.{
  Action, turned, stopped, History, act, act_on, in_work, InOrder, act-InOrder, act_on-InOrder,
}
use watchlist.Concurrency.ThreadPool.Created.{
  fresh, has_exited, IsSound, act-IsSound, act_on-IsSound, create_explicit_lem,
}

module _ {T : Type 0} where
  -- The worker with this index is there and has not exited.
  unfoldable pub is_live : ℕ → List (Worker T) → Bool
  is_live i [] = false
  is_live zero (waiting ∷ ws) = true
  is_live zero (running t ∷ ws) = true
  is_live zero (exited ∷ ws) = false
  is_live (suc i) (w ∷ ws) = is_live i ws

  weight : Worker T → ℕ
  weight waiting = 1
  weight (running t) = 2
  weight exited = 0

  weights : List (Worker T) → ℕ
  unfolding weight
  weights [] = 0
  weights (w ∷ ws) = weight w + weights ws

  -- The turns that the workers of a stopped pool still have: two for each task in the queue, one more
  -- for each worker that has not exited, and one for each task that is being executed.
  unfoldable pub turns_left : ThreadPool T → ℕ
  unfolding weights
  turns_left p = 2 * length p.tasks + weights p.workers

  unfoldable pub have_exited : List (Worker T) → Bool
  have_exited [] = true
  have_exited (exited ∷ ws) = have_exited ws
  have_exited (waiting ∷ ws) = false
  have_exited (running t ∷ ws) = false

  turn_at-weights :
      (i : ℕ) (ts : List T) (ws : List (Worker T))
      → is_live i ws ≡ true
      → 2 * length ts + weights ws
        ≡ suc (2 * length (turn_at i true ts ws).left + weights (turn_at i true ts ws).workers)
  unfolding is_live turn_at turn weights weight
  turn_at-weights i ts [] l = absurd cc
  turn_at-weights zero [] (waiting ∷ ws) l = omega arith
  turn_at-weights zero (t ∷ ts) (waiting ∷ ws) l = omega arith
  turn_at-weights zero ts (running t ∷ ws) l = omega arith
  turn_at-weights zero ts (exited ∷ ws) l = absurd cc
  turn_at-weights (suc i) ts (w ∷ ws) l = omega (arith, turn_at-weights i ts ws l)

  -- Every turn of the schedule is one of a worker that has not exited.
  abbrev pub AreLive : List ℕ → ThreadPool T → Type 0
  AreLive [] p = Unit
  AreLive (i ∷ is) p = (is_live i p.workers ≡ true) × AreLive is (worker_turn i p)

  abbrev pub turns : List ℕ → List (Action T)
  turns is = map turned is

  spent_lem :
      (is : List ℕ) (h : History T)
      → h.pool.stop ≡ true
      → AreLive is h.pool
      → length is + turns_left (act_on (turns is) h).pool ≡ turns_left h.pool
  unfolding act_on act turns_left worker_turn
  spent_lem [] h s l = omega arith
  spent_lem (i ∷ is) h s l = omega (arith, spent_lem is (act (turned i) h) s l.1, step)
    where
      step : turns_left h.pool ≡ suc (turns_left (worker_turn i h.pool))
      step = rw s (turn_at-weights i h.pool.tasks h.pool.workers l.0)

  some_live : (ws : List (Worker T)) → (have_exited ws ≡ true) ⊎ ((i : ℕ) × (is_live i ws ≡ true))
  unfolding have_exited is_live
  some_live [] = inl refl
  some_live (waiting ∷ ws) = inr (0, refl)
  some_live (running t ∷ ws) = inr (0, refl)
  some_live (exited ∷ ws) = elim (some_live ws) [ inl e ↦ inl e | inr (i, l) ↦ inr (suc i, l) ]

  exited_lem :
      (ws : List (Worker T))
      → have_exited ws ≡ true
      → (weights ws ≡ 0) × (in_work ws ≡ []) × (1 ≤ length ws → has_exited ws ≡ true)
  unfolding have_exited weights weight in_work has_exited
  exited_lem [] e = (refl, refl, λ l. absurd (omega arith))
  exited_lem (waiting ∷ ws) e = absurd cc
  exited_lem (running t ∷ ws) e = absurd cc
  exited_lem (exited ∷ ws) e = let (w, i, x) = exited_lem ws e in (omega arith, i, λ l. refl)

  weightless : (ws : List (Worker T)) → weights ws ≡ 0 → have_exited ws ≡ true
  unfolding weights weight have_exited
  weightless [] e = refl
  weightless (waiting ∷ ws) e = absurd (omega arith)
  weightless (running t ∷ ws) e = absurd (omega arith)
  weightless (exited ∷ ws) e = weightless ws (omega arith)

  -- The joins return: a schedule of turns has used up as many turns as it has, it can go on until
  -- none is left, and then every worker has exited and has left no task behind.
  pub record IsDraining (is : List ℕ) (before after : History T) : Type 0 where
    pub spent : length is + turns_left after.pool ≡ turns_left before.pool
    pub goes_on : (turns_left after.pool ≡ 0) ⊎ ((i : ℕ) × (is_live i after.pool.workers ≡ true))
    pub joined : turns_left after.pool ≡ 0 → have_exited after.pool.workers ≡ true
    pub complete :
        have_exited after.pool.workers ≡ true
        → (after.taken ≡ after.accepted)
          × ((p : T → Bool) → count p after.finished ≡ count p after.accepted)

  draining_lem :
      (is : List ℕ) (before after : History T)
      → length is + turns_left after.pool ≡ turns_left before.pool
      → IsSound after.pool
      → InOrder after
      → IsDraining is before after
  unfolding turns_left
  draining_lem is before after spent s o = record {
    spent = spent;
    goes_on = elim (some_live after.pool.workers) [
      | inl e ↦
          inl
            (let (w, _, _) = exited_lem after.pool.workers e in omega (arith, ap length (empty e)))
      | inr found ↦ inr found
    ];
    joined = λ e. weightless after.pool.workers (omega arith);
    complete = λ e.
        let taken : after.taken ≡ after.accepted =
          sym
            (o.order ∙ ap (λ (x : List T). after.taken ++ x) (empty e) ∙ append-nil after.taken) in
        (taken, λ p. done_with p e taken);
  }
    where
      done_with :
          (p : T → Bool)
          → have_exited after.pool.workers ≡ true
          → after.taken ≡ after.accepted
          → count p after.finished ≡ count p after.accepted
      done_with p e taken =
          let (_, idle, _) = exited_lem after.pool.workers e in
          let none_in : count p (in_work after.pool.workers) ≡ 0 = rw idle (unfold count in refl) in
          omega (arith, o.each p, ap (count p) taken, none_in)

      empty : have_exited after.pool.workers ≡ true → after.pool.tasks ≡ []
      empty e = let (_, _, x) = exited_lem after.pool.workers e in (s.drained (x s.some_worker)).1

-- Whatever happened to a pool before its stop, every schedule of the workers' turns after it is finite,
-- with a bound that is known at the stop; as long as a turn is left, some worker can have it, so that
-- the joins are not blocked; and when all workers have exited, every task that was ever accepted was
-- taken in the order of acceptance and was finished, each as often as it was accepted.
pub stop_workers-IsDraining :
    {T : Type 0} (thread_factory : ℕ → Done) (thread_count : ℕ) (p : ThreadPool T)
    → create_explicit thread_factory thread_count ≡ ok p
    → (before : List (Action T)) (is : List ℕ)
    → AreLive is (stop_workers (act_on before (fresh p)).pool)
    → IsDraining is
        (act stopped (act_on before (fresh p)))
        (act_on (turns is) (act stopped (act_on before (fresh p))))
unfolding act stop_workers
stop_workers-IsDraining f n p c before is l =
    let (sound, order) = create_explicit_lem f n p c in
    let reached : History _ = act_on before (fresh p) in
    let h : History _ = act stopped (act_on before (fresh p)) in
    let sound' = act-IsSound stopped reached (act_on-IsSound before (fresh p) sound) in
    let order' = act-InOrder stopped reached (act_on-InOrder before (fresh p) order) in
    draining_lem is h (act_on (turns is) h) (spent_lem is h refl l)
      (act_on-IsSound (turns is) h sound') (act_on-InOrder (turns is) h order')
