-- ===== src/Messaging/MqttService/Pending.antt =====
-- The operations of src/Watchlist/Messaging/MqttService.cpp that wait for their callback.
pub mod Answered
use watchlist.Prelude.{
  ℕ, ◌+◌, ◌-◌, ◌≤◌, ◌<◌, Bool, true, false, Option, List, [], ◌∷◌, ◌++◌, ◌≡◌, refl, ◌∙◌, arith,
  if◌then◌else◌, is_empty, Bool-cases, inl, inr, Bytes, ltb, ◌==◌,
}
use watchlist.AppState.{AppState}
use watchlist.Messaging.MqttService.{
  Library, Handlers, OperationListener, Impl, Application, initial_impl, track_operation,
  cancel_operation, complete_operation, is_pending, erase_found, erase_listener,
}
use watchlist.Messaging.MqttService.Operations.{
  operation_failed, operation_succeeded, wait_for_pending_operations,
}
use watchlist.Messaging.MqttService.Events.{
  Event, listener_failed, listener_succeeded, step, run_events,
}
use watchlist.Messaging.MqttService.Invariants.{
  KeptByHandlers, KeptByParts, when-keeps, report_error-keeps,
}
use watchlist.Messaging.MqttService.Invariants.Steps.{run_events-keeps}

-- How often an address is pending.
unfoldable pub occurs : ℕ → List OperationListener → ℕ
occurs x [] = 0
occurs x (o ∷ os) = (if o.address == x then 1 else 0) + occurs x os

occurs-append :
    (x : ℕ) (os : List OperationListener) (o : OperationListener)
    → occurs x (os ++ o ∷ []) ≡ occurs x os + (if o.address == x then 1 else 0)
unfolding occurs
occurs-append x [] o = ground arith
occurs-append x (p ∷ os) o = ground (arith, occurs-append x os o)

pub occurs-erase_found :
    (x y : ℕ) (os : List OperationListener)
    → occurs x (erase_found y os) ≡ occurs x os - (if y == x then 1 else 0)
unfolding occurs erase_found
occurs-erase_found x y [] = ground arith
occurs-erase_found x y (o ∷ os) = ground (arith, occurs-erase_found x y os)

occurs-erase_listener :
    (x y : ℕ) (os : List OperationListener)
    → occurs x (erase_listener y os) ≡ (if y == x then 0 else occurs x os)
unfolding occurs erase_listener
occurs-erase_listener x y [] = ground arith
occurs-erase_listener x y (o ∷ os) = ground (arith, occurs-erase_listener x y os)

pub is_pending-occurs :
    (x : ℕ) (os : List OperationListener) → is_pending x os ≡ ltb 0 (occurs x os)
unfolding occurs is_pending
is_pending-occurs x [] = refl
is_pending-occurs x (o ∷ os) = ground (arith, is_pending-occurs x os)

-- No address is pending twice, and the addresses to come are not pending.
pub record IsTracked {l : Library} {h : Handlers} (s : Impl l h) : Type 0 where
  pub once : (x : ℕ) → occurs x s.pending_operations ≤ 1
  pub fresh : (x : ℕ) → s.next_listener ≤ x → occurs x s.pending_operations ≡ 0

-- An operation that was tracked and is pending no more.
abbrev pub IsDone : ℕ → {l : Library} {h : Handlers} → Impl l h → Type 0
IsDone x s = (x < s.next_listener) × (occurs x s.pending_operations ≡ 0)

module _ {l : Library} {h : Handlers} (a : Application l h) where
  occurs-track :
      (x : ℕ) (operation : Bytes) (s : Impl l h)
      → occurs x (track_operation l h a operation s).1.pending_operations
        ≡ occurs x s.pending_operations + (if s.next_listener == x then 1 else 0)
  unfolding track_operation
  occurs-track x operation s = occurs-append x s.pending_operations _

  pub parts-IsTracked : KeptByParts a IsTracked
  unfolding track_operation cancel_operation
  parts-IsTracked = record {
    world_keeps = λ w s m. record { once = m.once; fresh = m.fresh };
    client_keeps = λ c s m. record { once = m.once; fresh = m.fresh };
    subscriptions_keep = λ x s m. record { once = m.once; fresh = m.fresh };
    status_handler_keeps = λ f s m. record { once = m.once; fresh = m.fresh };
    error_handler_keeps = λ f s m. record { once = m.once; fresh = m.fresh };
    shutting_down_keeps = λ b s m. record { once = m.once; fresh = m.fresh };
    track_keeps = λ operation s m. record {
      once = λ x. ground (arith, m.once x, m.fresh x, occurs-track x operation s);
      fresh = λ x le. ground (arith, m.fresh x, occurs-track x operation s);
    };
    cancel_keeps = λ address s m. record {
      once = λ x. ground (arith, m.once x, occurs-erase_listener x address s.pending_operations);
      fresh = λ x le.
          ground (arith, m.fresh x le, occurs-erase_listener x address s.pending_operations);
    };
    erase_keeps = λ address s m. record {
      once = λ x. ground (arith, m.once x, occurs-erase_found x address s.pending_operations);
      fresh =
          λ x le. ground (arith, m.fresh x le, occurs-erase_found x address s.pending_operations);
    };
    clear_keeps = λ s m. record {
      once = λ x. unfold occurs in omega arith;
      fresh = λ x le. unfold occurs in refl;
    };
    show_keeps = λ changed detail s m. record { once = m.once; fresh = m.fresh };
  }

  pub parts-IsDone : (x : ℕ) → KeptByParts a (IsDone x)
  unfolding track_operation cancel_operation
  parts-IsDone x = record {
    world_keeps = λ w s m. m;
    client_keeps = λ c s m. m;
    subscriptions_keep = λ x s m. m;
    status_handler_keeps = λ f s m. m;
    error_handler_keeps = λ f s m. m;
    shutting_down_keeps = λ b s m. m;
    track_keeps = λ operation s m. (omega arith, ground (arith, occurs-track x operation s));
    cancel_keeps =
        λ address s m. (m.0, ground (arith, occurs-erase_listener x address s.pending_operations));
    erase_keeps =
        λ address s m. (m.0, ground (arith, occurs-erase_found x address s.pending_operations));
    clear_keeps = λ s m. (m.0, unfold occurs in refl);
    show_keeps = λ changed detail s m. m;
  }

  pub initial-IsTracked :
      (app_state : Option (AppState h.Outbound)) (w : l.World)
      → IsTracked (initial_impl l h app_state w)
  unfolding occurs
  initial-IsTracked app_state w = record { once = λ x. omega arith; fresh = λ x le. refl }
