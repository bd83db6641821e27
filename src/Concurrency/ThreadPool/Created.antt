-- ===== src/Concurrency/ThreadPool/Created.antt =====
-- A pool that the constructor made, and what its workers can rely on from then on.
use watchlist.Prelude.{
  ℕ, zero, suc, ◌+◌, ◌≤◌, Bool, true, false, List, [], ◌∷◌, ◌++◌, ◌≡◌, refl, ◌∙◌, arith, Bool-cases,
  inl, inr, length, length-append, count, ◌==◌,
}
use watchlist.Storage.Item.{Result, ok, err, Done}
use watchlist.Concurrency.ThreadPool.{
  Worker, waiting, running, exited, ThreadPool, turn, turn_at, worker_turn, enqueue, stop_workers,
  make_workers, create, pool_of, create_explicit, create_counted, validate_explicit_thread_count,
}
use watchlist.Concurrency.ThreadPool.Order.{
  Action, enqueued, turned, stopped, History, act, act_on, in_work, InOrder, turn_at-left,
}

module _ {T : Type 0} where
  abbrev pub fresh : ThreadPool T → History T
  fresh p = record { pool = p; accepted = []; taken = []; finished = [] }

  unfoldable pub has_exited : List (Worker T) → Bool
  has_exited [] = false
  has_exited (exited ∷ ws) = true
  has_exited (waiting ∷ ws) = has_exited ws
  has_exited (running t ∷ ws) = has_exited ws

  -- A worker exits only from an empty queue that takes no more tasks.
  pub record IsSound (p : ThreadPool T) : Type 0 where
    pub some_worker : 1 ≤ length p.workers
    pub drained : has_exited p.workers ≡ true → (p.stop ≡ true) × (p.tasks ≡ [])

  length-turn_at :
      (i : ℕ) (stop : Bool) (ts : List T) (ws : List (Worker T))
      → length (turn_at i stop ts ws).workers ≡ length ws
  unfolding turn_at
  length-turn_at i stop ts [] = refl
  length-turn_at zero stop ts (w ∷ ws) = refl
  length-turn_at (suc i) stop ts (w ∷ ws) = omega (arith, length-turn_at i stop ts ws)

  nothing_left : (xs ys : List T) → xs ++ ys ≡ [] → ys ≡ []
  nothing_left [] ys e = e
  nothing_left (x ∷ xs) ys e = absurd cc

  -- A turn after which some worker has exited leaves nothing in the queue.
  drained-turn_at :
      (i : ℕ) (stop : Bool) (ts : List T) (ws : List (Worker T))
      → (has_exited ws ≡ true → (stop ≡ true) × (ts ≡ []))
      → has_exited (turn_at i stop ts ws).workers ≡ true
      → (stop ≡ true) × ((turn_at i stop ts ws).left ≡ [])
  unfolding turn_at turn has_exited
  drained-turn_at i stop ts [] h e = absurd cc
  drained-turn_at zero true [] (waiting ∷ ws) h e = (refl, refl)
  drained-turn_at zero false [] (waiting ∷ ws) h e = absurd (ground (arith, h))
  drained-turn_at zero stop (t ∷ ts) (waiting ∷ ws) h e = absurd (ground (arith, h))
  drained-turn_at zero stop ts (running t ∷ ws) h e = h e
  drained-turn_at zero stop ts (exited ∷ ws) h e = h e
  drained-turn_at (suc i) stop ts (running t ∷ ws) h e = drained-turn_at i stop ts ws h e
  drained-turn_at (suc i) stop ts (waiting ∷ ws) h e = drained-turn_at i stop ts ws h e
  drained-turn_at (suc i) stop ts (exited ∷ ws) h e =
      ((h refl).0, nothing_left _ _ (turn_at-left i stop ts ws ∙ (h refl).1))

  enqueue-IsSound : (t : T) (p : ThreadPool T) → IsSound p → IsSound (enqueue t p).1
  unfolding enqueue
  enqueue-IsSound t p s = elim (Bool-cases p.stop) [
    | inl e ↦ simp e (record { some_worker = s.some_worker; drained = s.drained })
    | inr e ↦ simp e (record {
      some_worker = s.some_worker;
      drained = λ x. absurd (ground (arith, s.drained x));
    })
  ]

  pub act-IsSound : (a : Action T) (h : History T) → IsSound h.pool → IsSound (act a h).pool
  unfolding act worker_turn stop_workers
  act-IsSound (enqueued t) h s = enqueue-IsSound t h.pool s
  act-IsSound (turned i) h s = record {
    some_worker =
        omega (arith, s.some_worker, length-turn_at i h.pool.stop h.pool.tasks h.pool.workers);
    drained = drained-turn_at i h.pool.stop h.pool.tasks h.pool.workers s.drained;
  }
  act-IsSound stopped h s = record {
    some_worker = s.some_worker;
    drained = λ e. (refl, (s.drained e).1);
  }

  pub act_on-IsSound :
      (as' : List (Action T)) (h : History T) → IsSound h.pool → IsSound (act_on as' h).pool
  unfolding act_on
  act_on-IsSound [] h s = s
  act_on-IsSound (a ∷ as') h s = act_on-IsSound as' (act a h) (act-IsSound a h s)

  -- Workers that wait, all of them.
  unfoldable pub all_wait : List (Worker T) → Bool
  all_wait [] = true
  all_wait (waiting ∷ ws) = all_wait ws
  all_wait (exited ∷ ws) = false
  all_wait (running t ∷ ws) = false

  all_wait-append :
      (ws : List (Worker T)) → all_wait ws ≡ true → all_wait (ws ++ waiting ∷ []) ≡ true
  unfolding all_wait
  all_wait-append [] h = refl
  all_wait-append (waiting ∷ ws) h = all_wait-append ws h
  all_wait-append (exited ∷ ws) h = absurd cc
  all_wait-append (running t ∷ ws) h = absurd cc

  make_workers-all_wait :
      (f : ℕ → Done) (n i : ℕ) (made ws : List (Worker T))
      → all_wait made ≡ true
      → make_workers f n i made ≡ ok ws
      → (all_wait ws ≡ true) × (length ws ≡ length made + n)
  unfolding make_workers
  make_workers-all_wait f zero i made ws a h = ground arith
  make_workers-all_wait f (suc n) i made ws a h =
      after (f i)
        (make_workers-all_wait f n (suc i) (made ++ waiting ∷ []) ws (all_wait-append made a)) h
    where
      after :
          (r : Done)
          → (make_workers f n (suc i) (made ++ waiting ∷ []) ≡ ok ws
              → (all_wait ws ≡ true) × (length ws ≡ length (made ++ waiting ∷ []) + n))
          → elim r [ ok _ ↦ make_workers f n (suc i) (made ++ waiting ∷ []) | err e ↦ err e ]
            ≡ ok ws
          → (all_wait ws ≡ true) × (length ws ≡ length made + suc n)
      after (ok _) rest e =
          let (w, l) = rest e in (w, omega (arith, length-append made (waiting ∷ [])))
      after (err x) rest e = absurd cc

  all_wait-idle :
      (ws : List (Worker T)) → all_wait ws ≡ true → (has_exited ws ≡ false) × (in_work ws ≡ [])
  unfolding all_wait has_exited in_work
  all_wait-idle [] h = (refl, refl)
  all_wait-idle (waiting ∷ ws) h = all_wait-idle ws h
  all_wait-idle (exited ∷ ws) h = absurd cc
  all_wait-idle (running t ∷ ws) h = absurd cc

  made_lem :
      (n : ℕ) (r : Result (List (Worker T))) (p : ThreadPool T)
      → ((ws : List (Worker T)) → r ≡ ok ws → (all_wait ws ≡ true) × (length ws ≡ n))
      → 1 ≤ n
      → pool_of r ≡ ok p
      → IsSound p × InOrder (fresh p)
  unfolding pool_of
  made_lem n (err e) p h l q = absurd cc
  made_lem n (ok ws) p h l q =
      let (w, size) = h ws refl in
      let (unexited, idle) = all_wait-idle ws w in
      let e : record { workers = ws; tasks = []; stop = false } ≡ p = ground (arith, q) in
      rw (← e) (
        record { some_worker = omega arith; drained = λ x. absurd cc },
        record { order = refl; each = λ f. unfold count in rw idle refl },
      )

  pub create_explicit_lem :
      (f : ℕ → Done) (n : ℕ) (p : ThreadPool T)
      → create_explicit f n ≡ ok p
      → IsSound p × InOrder (fresh p)
  unfolding create_explicit create_counted create validate_explicit_thread_count
  create_explicit_lem f zero p h = absurd cc
  create_explicit_lem f (suc n) p h =
      made_lem (suc n) (make_workers f (suc n) 0 []) p
        (λ ws e.
          let (w, size) = make_workers-all_wait f (suc n) 0 [] ws (unfold all_wait in refl) e in
          (w, omega arith))
        (omega arith) (rw some_threads at h)
    where
      some_threads : (suc n == 0) ≡ false
      some_threads = ground arith
