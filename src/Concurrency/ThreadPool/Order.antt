-- ===== src/Concurrency/ThreadPool/Order.antt =====
-- What the pool does with the tasks that it accepts, in every interleaving.
use watchlist.Prelude.{
  ℕ, zero, suc, ◌+◌, Bool, true, false, List, [], ◌∷◌, ◌++◌, ◌≡◌, refl, sym, ap, ◌∙◌, arith,
  append-nil, append_assoc, count, count-append, Bool-cases, inl, inr,
}
use watchlist.Storage.Item.{ok, err, Done}
use watchlist.Concurrency.ThreadPool.{
  Worker, waiting, running, exited, ThreadPool, turn, turn_at, worker_turn, enqueue, stop_workers,
}

pub data Action (T : Type 0) : Type 0 where
  enqueued : T → Action T
  turned : ℕ → Action T
  stopped : Action T

-- A pool with the tasks that it accepted, that its workers took and that they finished, each in the
-- order in which it happened.
pub record History (T : Type 0) : Type 0 where
  pub pool : ThreadPool T
  pub accepted : List T
  pub taken : List T
  pub finished : List T

module _ {T : Type 0} where
  abbrev pub accepted_by : Done → T → List T
  accepted_by (ok _) t = t ∷ []
  accepted_by (err e) t = []

  unfoldable pub act : Action T → History T → History T
  act (enqueued t) h = record h {
    pool = (enqueue t h.pool).1;
    accepted = h.accepted ++ accepted_by (enqueue t h.pool).0 t;
  }
  act (turned i) h =
      let t = turn_at i h.pool.stop h.pool.tasks h.pool.workers in
      record h {
        pool = worker_turn i h.pool;
        taken = h.taken ++ t.taken;
        finished = h.finished ++ t.finished;
      }
  act stopped h = record h { pool = stop_workers h.pool }

  unfoldable pub act_on : List (Action T) → History T → History T
  act_on [] h = h
  act_on (a ∷ as') h = act_on as' (act a h)

  -- The tasks in the hands of the workers.
  unfoldable pub in_work : List (Worker T) → List T
  in_work [] = []
  in_work (running t ∷ ws) = t ∷ in_work ws
  in_work (waiting ∷ ws) = in_work ws
  in_work (exited ∷ ws) = in_work ws

  pub turn_at-left :
      (i : ℕ) (stop : Bool) (ts : List T) (ws : List (Worker T))
      → (turn_at i stop ts ws).taken ++ (turn_at i stop ts ws).left ≡ ts
  unfolding turn_at turn
  turn_at-left i stop ts [] = refl
  turn_at-left zero stop [] (waiting ∷ ws) = refl
  turn_at-left zero stop (t ∷ ts) (waiting ∷ ws) = refl
  turn_at-left zero stop ts (running t ∷ ws) = refl
  turn_at-left zero stop ts (exited ∷ ws) = refl
  turn_at-left (suc i) stop ts (w ∷ ws) = turn_at-left i stop ts ws

  pub count-turn_at :
      (p : T → Bool) (i : ℕ) (stop : Bool) (ts : List T) (ws : List (Worker T))
      → count p (in_work ws) + count p (turn_at i stop ts ws).taken
        ≡ count p (turn_at i stop ts ws).finished + count p (in_work (turn_at i stop ts ws).workers)
  unfolding turn_at turn in_work count
  count-turn_at p i stop ts [] = refl
  count-turn_at p zero true [] (waiting ∷ ws) = omega arith
  count-turn_at p zero false [] (waiting ∷ ws) = omega arith
  count-turn_at p zero stop (t ∷ ts) (waiting ∷ ws) = omega arith
  count-turn_at p zero stop ts (running t ∷ ws) = omega arith
  count-turn_at p zero stop ts (exited ∷ ws) = omega arith
  count-turn_at p (suc i) stop ts (running t ∷ ws) = omega (arith, count-turn_at p i stop ts ws)
  count-turn_at p (suc i) stop ts (waiting ∷ ws) = count-turn_at p i stop ts ws
  count-turn_at p (suc i) stop ts (exited ∷ ws) = count-turn_at p i stop ts ws

  -- The tasks were taken in the order in which they were accepted, each once, the others wait in the
  -- queue, and a task that was taken is finished or in the hands of a worker.
  pub record InOrder (h : History T) : Type 0 where
    pub order : h.accepted ≡ h.taken ++ h.pool.tasks
    pub each :
        (p : T → Bool) → count p h.taken ≡ count p h.finished + count p (in_work h.pool.workers)

  enqueue_lem :
      (t : T) (p : ThreadPool T)
      → (p.tasks ++ accepted_by (enqueue t p).0 t ≡ (enqueue t p).1.tasks)
        × ((enqueue t p).1.workers ≡ p.workers)
  unfolding enqueue
  enqueue_lem t p = elim (Bool-cases p.stop) [
    | inl e ↦ rw e (append-nil p.tasks, refl)
    | inr e ↦ rw e (refl, refl)
  ]

  pub act-InOrder : (a : Action T) (h : History T) → InOrder h → InOrder (act a h)
  unfolding act worker_turn stop_workers
  act-InOrder (enqueued t) h o = record {
    order =
        ap (λ (x : List T). x ++ accepted_by (enqueue t h.pool).0 t) o.order
        ∙ append_assoc h.taken h.pool.tasks _
        ∙ ap (λ (x : List T). h.taken ++ x) (enqueue_lem t h.pool).0;
    each = λ p. omega (
      arith,
      o.each p,
      ap (λ (ws : List (Worker T)). count p (in_work ws)) (enqueue_lem t h.pool).1,
    );
  }
  act-InOrder (turned i) h o = record {
    order =
        o.order
        ∙ ap (λ (x : List T). h.taken ++ x)
            (sym (turn_at-left i h.pool.stop h.pool.tasks h.pool.workers))
        ∙ sym (append_assoc h.taken _ _);
    each = λ p. omega (
      arith,
      o.each p,
      count-append p h.taken,
      count-append p h.finished,
      count-turn_at p i h.pool.stop h.pool.tasks h.pool.workers,
    );
  }
  act-InOrder stopped h o = record { order = o.order; each = o.each }

  pub act_on-InOrder : (as' : List (Action T)) (h : History T) → InOrder h → InOrder (act_on as' h)
  unfolding act_on
  act_on-InOrder [] h o = o
  act_on-InOrder (a ∷ as') h o = act_on-InOrder as' (act a h) (act-InOrder a h o)
