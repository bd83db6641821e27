-- ===== src/DeviceStorageService/Worker/Order.antt =====
-- The queue, the worker and the results against a sequential account: every batch is executed once,
-- in the order of submission, on the database that the batch before it left.
use mathlib.Core.Path.{subst}
use watchlist.Prelude.{
  true, Bool-cases, inl, inr, List, [], ◌∷◌, ◌++◌, ◌≡◌, refl, sym, ap, ◌∙◌, arith, append-nil,
  append_assoc, Bytes,
}
use watchlist.Storage.Interface.{IDatabase}
use watchlist.DeviceStorageService.{DeviceStorageResult, failed, execute}
use watchlist.DeviceStorageService.Worker.{
  Batch, ExecutionMode, owned_thread, calling_thread, Phase, Service, push_result, submit,
  poll_results, request_stop, twice, start_run, wrong_mode, run_on_calling_thread, take_front,
  take_batch, run_batch, work_in, work,
}

-- What a result is about: a batch, or a refused call of `Run`.
pub data Entry : Type 0 where
  ran : Batch → Entry
  refused : Bytes → Entry

abbrev pub batches : List Entry → List Batch
batches [] = []
batches (ran b ∷ es) = b ∷ batches es
batches (refused m ∷ es) = batches es

-- What the clients and the worker may do next, in any order.
pub data Action : Type 0 where
  submits : Batch → Action
  polls stops runs runs_calling works : Action

module _ (d : IDatabase) where
  -- The sequential account of the entries.
  abbrev pub database_after : List Entry → d.State → d.State
  database_after [] db = db
  database_after (ran b ∷ es) db = database_after es (execute d b db).1
  database_after (refused m ∷ es) db = database_after es db

  abbrev pub outcomes : List Entry → d.State → List DeviceStorageResult
  outcomes [] db = []
  outcomes (ran b ∷ es) db = (execute d b db).0 ∷ outcomes es (execute d b db).1
  outcomes (refused m ∷ es) db = failed m ∷ outcomes es db

  -- The service with what its clients have seen: the batches given to it, the results polled from it,
  -- and what each result so far was about.
  pub record Trace : Type 0 where
    pub service : Service d.State
    pub submitted : List Batch
    pub delivered : List DeviceStorageResult
    pub log : List Entry

  abbrev add_batch : Batch → List Batch → List Batch
  add_batch [] bs = bs
  add_batch (c ∷ cs) bs = bs ++ (c ∷ cs) ∷ []

  abbrev worked : Phase → List Entry → List Entry
  worked (Phase.executing b) log = log ++ ran b ∷ []
  worked _ log = log

  abbrev refusal : ExecutionMode → Bytes
  refusal owned_thread = wrong_mode
  refusal calling_thread = twice

  unfoldable pub act : Action → Trace → Trace
  act (submits b) t = record t { service = submit b t.service; submitted = add_batch b t.submitted }
  act polls t = record t {
    service = (poll_results t.service).1;
    delivered = t.delivered ++ (poll_results t.service).0;
  }
  act stops t = record t { service = request_stop t.service }
  act runs t = record t { service = start_run t.service; log = t.log ++ refused twice ∷ [] }
  act runs_calling t = record t {
    service = run_on_calling_thread t.service;
    log = t.log ++ refused (refusal t.service.execution_mode) ∷ [];
  }
  act works t = record t { service = work d t.service; log = worked t.service.phase t.log }

  unfoldable pub act_all : List Action → Trace → Trace
  act_all [] t = t
  act_all (a ∷ as') t = act_all as' (act a t)

  abbrev current : Phase → List Batch
  current (Phase.executing b) = b ∷ []
  current _ = []

  abbrev IsRunning : Phase → Type 0
  IsRunning Phase.idle = ⊥
  IsRunning Phase.initializing = ⊥
  IsRunning _ = Unit

  pub record InOrder (db : d.State) (t : Trace) : Type 0 where
    pub started : t.service.run_started ≡ true
    pub running : IsRunning t.service.phase
    pub queue : t.submitted ≡ batches t.log ++ (current t.service.phase ++ t.service.commands)
    pub results : t.delivered ++ t.service.results ≡ outcomes t.log db
    pub database : t.service.database ≡ database_after t.log db

  batches-append : (es fs : List Entry) → batches (es ++ fs) ≡ batches es ++ batches fs
  batches-append [] fs = refl
  batches-append (ran b ∷ es) fs = ap (◌∷◌ b) (batches-append es fs)
  batches-append (refused m ∷ es) fs = batches-append es fs

  database_after-append :
      (es fs : List Entry) (db : d.State)
      → database_after (es ++ fs) db ≡ database_after fs (database_after es db)
  database_after-append [] fs db = refl
  database_after-append (ran b ∷ es) fs db = database_after-append es fs _
  database_after-append (refused m ∷ es) fs db = database_after-append es fs db

  outcomes-append :
      (es fs : List Entry) (db : d.State)
      → outcomes (es ++ fs) db ≡ outcomes es db ++ outcomes fs (database_after es db)
  outcomes-append [] fs db = refl
  outcomes-append (ran b ∷ es) fs db =
      ap (◌∷◌ (execute d b db).0) (outcomes-append es fs (execute d b db).1)
  outcomes-append (refused m ∷ es) fs db = ap (◌∷◌ (failed m)) (outcomes-append es fs db)

  -- One more entry whose result is pushed behind the others.
  results-append :
      (e : Entry) (r : DeviceStorageResult) (log : List Entry) (db : d.State)
      (delivered results : List DeviceStorageResult)
      → delivered ++ results ≡ outcomes log db
      → outcomes (e ∷ []) (database_after log db) ≡ r ∷ []
      → delivered ++ (results ++ r ∷ []) ≡ outcomes (log ++ e ∷ []) db
  results-append e r log db delivered results h k =
      sym (append_assoc delivered results (r ∷ []))
      ∙ ap (λ (rs : List DeviceStorageResult). rs ++ r ∷ []) h
      ∙ ap (λ (rs : List DeviceStorageResult). outcomes log db ++ rs) (sym k)
      ∙ sym (outcomes-append log (e ∷ []) db)

  submits-InOrder :
      (b : Batch) {db : d.State} (t : Trace) → InOrder db t → InOrder db (act (submits b) t)
  unfolding act submit
  submits-InOrder [] t h = h
  submits-InOrder (c ∷ cs) t h = record {
    started = h.started;
    running = h.running;
    queue =
        ap (λ (bs : List Batch). bs ++ (c ∷ cs) ∷ []) h.queue
        ∙ append_assoc (batches t.log) (current t.service.phase ++ t.service.commands)
            ((c ∷ cs) ∷ [])
        ∙ ap (λ (bs : List Batch). batches t.log ++ bs)
            (append_assoc (current t.service.phase) t.service.commands ((c ∷ cs) ∷ []));
    results = h.results;
    database = h.database;
  }

  polls-InOrder : {db : d.State} (t : Trace) → InOrder db t → InOrder db (act polls t)
  unfolding act poll_results
  polls-InOrder t h = record {
    started = h.started;
    running = h.running;
    queue = h.queue;
    results = append-nil (t.delivered ++ t.service.results) ∙ h.results;
    database = h.database;
  }

  -- A refused call of `Run` adds its result and nothing else.
  refused-InOrder :
      (m : Bytes) {db : d.State} (t : Trace)
      → InOrder db t
      → InOrder db
          (record t { service = push_result (failed m) t.service; log = t.log ++ refused m ∷ [] })
  refused-InOrder m {db} t h = record {
    started = h.started;
    running = h.running;
    queue = rw (batches-append t.log (refused m ∷ []), append-nil) h.queue;
    results =
        results-append (refused m) (failed m) t.log db t.delivered t.service.results h.results refl;
    database = rw (database_after-append t.log (refused m ∷ []) db) h.database;
  }

  start_run-again :
      (s : Service d.State) → s.run_started ≡ true → start_run s ≡ push_result (failed twice) s
  unfolding start_run
  start_run-again s e = ground arith

  run_on_calling_thread-again :
      (s : Service d.State)
      → s.run_started ≡ true
      → run_on_calling_thread s ≡ push_result (failed (refusal s.execution_mode)) s
  unfolding run_on_calling_thread
  run_on_calling_thread-again s e = ground (arith, start_run-again s e)

  take_front-InOrder :
      (bs : List Batch) {db : d.State} (t : Trace)
      → t.service.phase ≡ Phase.waiting
      → t.service.commands ≡ bs
      → InOrder db t
      → InOrder db (record t { service = take_front bs t.service })
  unfolding take_front
  take_front-InOrder [] t p e h =
      let queue =
        subst (λ x. t.submitted ≡ batches t.log ++ (current x ++ t.service.commands)) p h.queue in
      elim (Bool-cases t.service.stop_requested) [
        | inl stop ↦ rw stop (record {
          started = h.started;
          running = tt;
          queue = queue;
          results = h.results;
          database = h.database;
        })
        | inr go ↦ rw go (record {
          started = h.started;
          running = h.running;
          queue = h.queue;
          results = h.results;
          database = h.database;
        })
      ]
  take_front-InOrder (b ∷ bs) t p e h =
      let front : current t.service.phase ++ t.service.commands ≡ b ∷ bs =
        ap (λ (x : Phase). current x ++ t.service.commands) p ∙ e in
      record {
        started = h.started;
        running = tt;
        queue = subst (λ x. t.submitted ≡ batches t.log ++ x) front h.queue;
        results = h.results;
        database = h.database;
      }

  work_in-InOrder :
      (p : Phase) {db : d.State} (t : Trace)
      → t.service.phase ≡ p
      → InOrder db t
      → InOrder db (record t { service = work_in d p t.service; log = worked p t.log })
  unfolding work_in take_batch run_batch
  work_in-InOrder Phase.idle t e h = h
  work_in-InOrder Phase.initializing t e h = absurd (subst IsRunning e h.running)
  work_in-InOrder Phase.waiting t e h = take_front-InOrder t.service.commands t e refl h
  work_in-InOrder (Phase.executing b) {db} t e h = record {
    started = h.started;
    running = tt;
    queue =
        subst (λ x. t.submitted ≡ batches t.log ++ (current x ++ t.service.commands)) e h.queue
        ∙ sym (append_assoc (batches t.log) (b ∷ []) t.service.commands)
        ∙ ap (λ (bs : List Batch). bs ++ t.service.commands)
            (sym (batches-append t.log (ran b ∷ [])));
    results =
        results-append (ran b) (execute d b t.service.database).0 t.log db t.delivered
          t.service.results h.results
          (ap (λ (x : d.State). (execute d b x).0 ∷ []) (sym h.database));
    database =
        ap (λ (x : d.State). (execute d b x).1) h.database
        ∙ sym (database_after-append t.log (ran b ∷ []) db);
  }
  work_in-InOrder Phase.exited t e h = h

  act-InOrder : (a : Action) {db : d.State} (t : Trace) → InOrder db t → InOrder db (act a t)
  unfolding act work request_stop
  act-InOrder (submits b) t h = submits-InOrder b t h
  act-InOrder polls t h = polls-InOrder t h
  act-InOrder stops t h = record {
    started = h.started;
    running = h.running;
    queue = h.queue;
    results = h.results;
    database = h.database;
  }
  act-InOrder runs t h = rw (start_run-again t.service h.started) (refused-InOrder twice t h)
  act-InOrder runs_calling t h =
      rw (run_on_calling_thread-again t.service h.started)
        (refused-InOrder (refusal t.service.execution_mode) t h)
  act-InOrder works t h = work_in-InOrder t.service.phase t refl h

  -- After any interleaving of submissions, polls, stop requests, further calls of `Run` and steps of
  -- the worker, the submitted batches are those executed, the one in execution and those queued, in
  -- the order of submission; the results delivered and still held are those of executing the batches
  -- one after the other on the database that was there first; and the database is what that leaves.
  pub act_all-InOrder :
      (as' : List Action) {db : d.State} (t : Trace) → InOrder db t → InOrder db (act_all as' t)
  unfolding act_all
  act_all-InOrder [] t h = h
  act_all-InOrder (a ∷ as') t h = act_all-InOrder as' (act a t) (act-InOrder a t h)
