-- ===== src/Messaging/MqttService/Quiet.antt =====
-- The shutdown of src/Watchlist/Messaging/MqttService.cpp: what `Disconnect` reaches stays, whatever
-- callbacks arrive late, until a `Connect` opens another connection.
use watchlist.Prelude.{
  true, false, ◌||◌, Option, none, some, List, [], ◌∷◌, ◌≡◌, refl, arith, All, is_empty, Bool-cases,
  inl, inr, Bytes,
}
use watchlist.Prelude.Int.{ℤ, pos, ltb_ℤ}
use watchlist.AppState.{AppState}
use watchlist.Messaging.MqttService.{
  offline, initial_impl, is_connected_status, Library, Handlers, Impl, Application,
}
use watchlist.Messaging.MqttService.Operations.{
  subscribe, unsubscribe, publish, set_status_handler, set_error_handler, operation_failed,
  operation_succeeded, register, publish_client, wait_for_pending_operations,
}
use watchlist.Messaging.MqttService.Connection.{
  connect, disconnect, on_connected, connection_lost, on_failure, on_success, handle_connected,
  is_connected, lifecycle,
}
use watchlist.Messaging.MqttService.Events.{
  Event, connects, subscribes, unsubscribes, publishes, disconnects, sets_status_handler,
  sets_error_handler, client_connected, client_lost, message, attempt_failed, attempt_succeeded,
  listener_failed, listener_succeeded, library_moves, opens, is_connectable, step, run_events,
}
use watchlist.Messaging.MqttService.Stages.{
  quiet, Reached, KeepsStages, report_error-Reached, complete_operation-Reached,
  message_arrived-Reached,
}
use watchlist.Messaging.MqttService.Owned.Steps.{disconnect-quiet, run_events-owned}

module _ {l : Library} {h : Handlers} (a : Application l h) (k : KeepsStages a) where
  abbrev State : Type 0
  State = Impl l h

  rest_offline : (s : State) → Reached quiet s → is_connected_status s.status ≡ false
  rest_offline s r = rw (r.3) refl

  subscribe-quiet :
      (topic : Bytes) (handler : Option h.Message) (s : State)
      → Reached quiet s
      → Reached quiet (subscribe l h a topic handler s)
  unfolding subscribe register
  subscribe-quiet topic handler s r = elim (Bool-cases (is_empty topic)) [
    | inl e ↦ rw e (report_error-Reached a k quiet _ false s r)
    | inr e ↦ rw e (registered handler)
  ]
    where
      registered : (handler : Option h.Message) → Reached quiet (register l h a topic handler s)
      registered none = report_error-Reached a k quiet _ false s r
      registered (some f) = rw (rest_offline s r) r

  unsubscribe-quiet :
      (topic : Bytes) (s : State) → Reached quiet s → Reached quiet (unsubscribe l h a topic s)
  unfolding unsubscribe
  unsubscribe-quiet topic s r = elim (Bool-cases (is_empty topic)) [
    | inl e ↦ rw e (report_error-Reached a k quiet _ false s r)
    | inr e ↦ rw (e, rest_offline s r) r
  ]

  publish-quiet :
      (topic payload : Bytes) (s : State)
      → Reached quiet s
      → Reached quiet (publish l h a topic payload s)
  unfolding publish publish_client
  publish-quiet topic payload s r = elim (Bool-cases (is_empty topic)) [
    | inl e ↦ rw e (report_error-Reached a k quiet _ false s r)
    | inr e ↦ rw e (unsent s.client (r.1))
  ]
    where
      unsent :
          (c : Option l.Client) → c ≡ none → Reached quiet (publish_client l h a c topic payload s)
      unsent none e = report_error-Reached a k quiet _ false s r
      unsent (some c) e = absurd cc

  -- A `Connect` with arguments that it refuses.
  connect-quiet :
      (host : Bytes) (port : ℤ) (client_id : Bytes) (s : State)
      → is_connectable host port client_id ≡ false
      → Reached quiet s
      → Reached quiet (connect l h a host port client_id s)
  unfolding connect
  connect-quiet host port client_id s refused r = elim (Bool-cases (is_empty host)) [
    | inl e ↦ rw e (report_error-Reached a k quiet _ true s r)
    | inr e ↦ elim (Bool-cases (ltb_ℤ port (pos 1) || ltb_ℤ (pos 65535) port)) [
      | inl f ↦ rw (e, f) (report_error-Reached a k quiet _ true s r)
      | inr f ↦ elim (Bool-cases (is_empty client_id)) [
        | inl g ↦ rw (e, f, g) (report_error-Reached a k quiet _ true s r)
        | inr g ↦ absurd (ground (arith, refused))
      ]
    ]
  ]

  step-quiet :
      (e : Event l h) (s : State)
      → opens e ≡ false
      → Reached quiet s
      → Reached quiet (step l h a e s)
  unfolding step set_status_handler set_error_handler on_connected on_success handle_connected
      connection_lost on_failure operation_failed operation_succeeded
  step-quiet (connects host port client_id) s o r = connect-quiet host port client_id s o r
  step-quiet (subscribes topic handler) s o r = subscribe-quiet topic handler s r
  step-quiet (unsubscribes topic) s o r = unsubscribe-quiet topic s r
  step-quiet (publishes topic payload) s o r = publish-quiet topic payload s r
  step-quiet disconnects s o r = disconnect-quiet a k s (λ e. r.2)
  step-quiet (sets_status_handler handler) s o r = r
  step-quiet (sets_error_handler handler) s o r = r
  step-quiet (client_connected cause) s o r = rw (r.0) (refl, r.1, r.2, r.3)
  step-quiet (client_lost cause) s o r = rw (r.0) (refl, r.1, r.2, r.3)
  step-quiet (message topic payload) s o r = message_arrived-Reached a k quiet topic payload s r
  step-quiet (attempt_failed token) s o r = report_error-Reached a k quiet _ true s r
  step-quiet attempt_succeeded s o r = rw (r.0) (refl, r.1, r.2, r.3)
  step-quiet (listener_failed address operation token) s o r =
      complete_operation-Reached a k quiet address _ s r
  step-quiet (listener_succeeded address) s o r =
      complete_operation-Reached a k quiet address [] s r
  step-quiet (library_moves world) s o r = r

  run_events-quiet :
      (es : List (Event l h)) (s : State)
      → All (λ e. opens e ≡ false) es
      → Reached quiet s
      → Reached quiet (run_events l h a es s)
  unfolding run_events
  run_events-quiet [] s o r = r
  run_events-quiet (e ∷ es) s o r = run_events-quiet es (step l h a e s) o.1 (step-quiet e s o.0 r)

  -- Where the application's handlers do not connect or disconnect: after any history of the service,
  -- once `Disconnect` has returned, and through whatever else happens short of a `Connect` with
  -- acceptable arguments (late callbacks of the client, messages, calls of the other methods), the
  -- service is offline and not connected, it holds no client, and no operation is pending, so that a
  -- wait for pending operations returns true.
  pub disconnect-IsFinal :
      (before late : List (Event l h)) (app_state : Option (AppState h.Outbound)) (world : l.World)
      → All (λ e. opens e ≡ false) late
      → let s =
          run_events l h a late
            (disconnect l h a (run_events l h a before (initial_impl l h app_state world))) in
        (lifecycle l h a s ≡ offline)
        × (is_connected l h a s ≡ false)
        × (s.client ≡ none)
        × (wait_for_pending_operations l h a s ≡ true)
  unfolding lifecycle is_connected wait_for_pending_operations
  disconnect-IsFinal before late app_state world o =
      let s : State = run_events l h a before (initial_impl l h app_state world) in
      final (run_events l h a late (disconnect l h a s)) (
        run_events-quiet late (disconnect l h a s) o
          (disconnect-quiet a k s (run_events-owned a k before _ (λ _. refl))))
    where
      final :
          (s : State)
          → Reached quiet s
          → (s.status ≡ offline)
            × (is_connected l h a s ≡ false)
            × (s.client ≡ none)
            × (is_empty s.pending_operations ≡ true)
      final s r = (r.3, rw (rest_offline s r) refl, r.1, rw (r.2) refl)
