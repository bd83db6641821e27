-- ===== src/Messaging/MqttService/Pending/Answered.antt =====
-- The callbacks of the listeners of src/Watchlist/Messaging/MqttService.cpp: each counts once, and the
-- wait for them ends.
use watchlist.Prelude.{
  ℕ, ◌-◌, ◌≤◌, ◌<◌, Bool, true, false, Option, List, [], ◌∷◌, ◌≡◌, refl, ◌∙◌, arith, if◌then◌else◌,
  is_empty, Bool-cases, inl, inr, Bytes, ◌==◌,
}
use watchlist.AppState.{AppState}
use watchlist.Messaging.MqttService.{
  Library, Handlers, OperationListener, Impl, Application, initial_impl, complete_operation,
  is_pending, erase_found,
}
use watchlist.Messaging.MqttService.Operations.{
  operation_failed, operation_succeeded, wait_for_pending_operations,
}
use watchlist.Messaging.MqttService.Events.{
  Event, listener_failed, listener_succeeded, step, run_events,
}
use watchlist.Messaging.MqttService.Invariants.{KeptByHandlers, when-keeps, report_error-keeps}
use watchlist.Messaging.MqttService.Invariants.Steps.{run_events-keeps}
use watchlist.Messaging.MqttService.Pending.{
  occurs, occurs-erase_found, is_pending-occurs, IsTracked, IsDone, parts-IsTracked, parts-IsDone,
  initial-IsTracked,
}

-- A callback of the listener at an address.
abbrev pub Answers : ℕ → {l : Library} {h : Handlers} → Event l h → Type 0
Answers x (listener_failed address operation token) = address ≡ x
Answers x (listener_succeeded address) = address ≡ x
Answers x _ = ⊥

module _ {l : Library} {h : Handlers} (a : Application l h) (x : ℕ) where
  -- The callback of an operation that is done finds nothing.
  complete_operation-IsDone :
      (text : Bytes) (s : Impl l h) → IsDone x s → complete_operation l h a x text s ≡ s
  unfolding complete_operation
  complete_operation-IsDone text s d =
      let absent : is_pending x s.pending_operations ≡ false =
        is_pending-occurs x s.pending_operations ∙ rw (d.1) refl in
      rw absent refl

  complete_operation_then-IsDone :
      (u : KeptByHandlers a (IsDone x)) (text : Bytes) (s : Impl l h)
      → IsTracked s
      → x < s.next_listener
      → IsDone x (complete_operation l h a x text s)
  unfolding complete_operation
  complete_operation_then-IsDone u text s m known =
      elim (Bool-cases (is_pending x s.pending_operations)) [
        | inr absent ↦ rw absent (known, ground (arith, is_pending-occurs x s.pending_operations))
        | inl found ↦ rw found (
            when-keeps a (IsDone x) u (parts-IsDone a x) (is_empty text) s' _ erased
              (report_error-keeps a (IsDone x) u (parts-IsDone a x) text false s' erased))
      ]
    where
      s' : Impl l h
      s' = record s { pending_operations = erase_found x s.pending_operations }

      erased : IsDone x s'
      erased = (known, ground (arith, m.once x, occurs-erase_found x x s.pending_operations))

  answered-IsDone :
      (u : KeptByHandlers a (IsDone x)) (e : Event l h) (s : Impl l h)
      → Answers x e
      → IsTracked s
      → x < s.next_listener
      → IsDone x (step l h a e s)
  unfolding step operation_failed operation_succeeded
  answered-IsDone u (listener_failed address operation token) s same m known =
      rw same (complete_operation_then-IsDone u _ s m known)
  answered-IsDone u (listener_succeeded address) s same m known =
      rw same (complete_operation_then-IsDone u [] s m known)
  answered-IsDone u _ s same m known = absurd same

  IsDone-ignores : (e : Event l h) (s : Impl l h) → Answers x e → IsDone x s → step l h a e s ≡ s
  unfolding step operation_failed operation_succeeded
  IsDone-ignores (listener_failed address operation token) s same d =
      rw same (complete_operation-IsDone _ s d)
  IsDone-ignores (listener_succeeded address) s same d = rw same (complete_operation-IsDone [] s d)
  IsDone-ignores _ s same d = absurd same

  -- Where the handlers keep the addresses of listeners distinct and do not bring back one that is done:
  -- after any history of a new service, when a listener that was tracked has been called once, then
  -- after anything else that happens another call of it, of success or of failure, changes nothing. So
  -- the outcome of an operation is reported at most once.
  pub complete_operation-once :
      (tracked : KeptByHandlers a IsTracked) (done : KeptByHandlers a (IsDone x))
      (before between : List (Event l h)) (first second : Event l h)
      (app_state : Option (AppState h.Outbound)) (world : l.World)
      → Answers x first
      → Answers x second
      → x < (run_events l h a before (initial_impl l h app_state world)).next_listener
      → let s =
          run_events l h a between
            (step l h a first (run_events l h a before (initial_impl l h app_state world))) in
        step l h a second s ≡ s
  complete_operation-once tracked done before between first second app_state world f g known =
      let s : Impl l h = run_events l h a before (initial_impl l h app_state world) in
      let m : IsTracked s =
        run_events-keeps a IsTracked tracked (parts-IsTracked a) before _
          (initial-IsTracked a app_state world) in
      IsDone-ignores second _ g (
        run_events-keeps a (IsDone x) done (parts-IsDone a x) between (step l h a first s)
          (answered-IsDone done first s f m known))

-- Calls of listeners, each of success.
unfoldable pub all_succeed : {l : Library} {h : Handlers} → List ℕ → List (Event l h)
all_succeed [] = []
all_succeed (x ∷ xs) = listener_succeeded x ∷ all_succeed xs

abbrev pub listed : ℕ → List ℕ → Bool
listed x [] = false
listed x (y ∷ ys) = if y == x then true else listed x ys

module _ {l : Library} {h : Handlers} (a : Application l h) where
  succeeded-occurs :
      (y : ℕ) (s : Impl l h)
      → (x : ℕ)
      → occurs x (step l h a (listener_succeeded y) s).pending_operations
        ≡ occurs x s.pending_operations - (if y == x then 1 else 0)
  unfolding step operation_succeeded complete_operation
  succeeded-occurs y s x =
      ground (
        arith,
        is_pending-occurs y s.pending_operations,
        occurs-erase_found x y s.pending_operations,
      )

  all_succeed-occurs :
      (xs : List ℕ) (s : Impl l h) (x : ℕ)
      → occurs x s.pending_operations ≤ 1
      → (listed x xs ≡ false → occurs x s.pending_operations ≡ 0)
      → occurs x (run_events l h a (all_succeed xs) s).pending_operations ≡ 0
  unfolding run_events all_succeed
  all_succeed-occurs [] s x once waits = waits refl
  all_succeed-occurs (y ∷ ys) s x once waits =
      all_succeed-occurs ys (step l h a (listener_succeeded y) s) x
        (ground (arith, succeeded-occurs y s x))
        (λ e. ground (arith, succeeded-occurs y s x, waits))

  none-occurs : (os : List OperationListener) → ((x : ℕ) → occurs x os ≡ 0) → is_empty os ≡ true
  none-occurs [] e = refl
  none-occurs (o ∷ os) e = absurd (let i = e o.address in unfold occurs in ground (arith, i))

  -- After any history of a new service, once every listener that is pending has been called with
  -- success, in any order and with any other calls of listeners between, the wait for pending
  -- operations returns true.
  pub all_succeed-wait :
      (tracked : KeptByHandlers a IsTracked) (before : List (Event l h)) (xs : List ℕ)
      (app_state : Option (AppState h.Outbound)) (world : l.World)
      → ((x : ℕ)
          → is_pending x
              (run_events l h a before (initial_impl l h app_state world)).pending_operations
            ≡ true
          → listed x xs ≡ true)
      → wait_for_pending_operations l h a (
          run_events l h a
            (all_succeed xs)
            (run_events l h a before (initial_impl l h app_state world)))
        ≡ true
  unfolding wait_for_pending_operations
  all_succeed-wait tracked before xs app_state world all =
      let s : Impl l h = run_events l h a before (initial_impl l h app_state world) in
      let m : IsTracked s =
        run_events-keeps a IsTracked tracked (parts-IsTracked a) before _
          (initial-IsTracked a app_state world) in
      none-occurs _ (λ x.
        all_succeed-occurs xs s x (m.once x)
          (λ e. ground (arith, is_pending-occurs x s.pending_operations, all x)))
