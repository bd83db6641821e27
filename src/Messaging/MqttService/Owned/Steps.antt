-- ===== src/Messaging/MqttService/Owned/Steps.antt =====
-- `Connect`, `Disconnect` and every event of src/Watchlist/Messaging/MqttService.cpp, for the client and
-- the pending operations.
use watchlist.Prelude.{
  true, false, ◌||◌, Option, none, some, List, [], ◌∷◌, ◌≡◌, refl, is_empty, Bool-cases, inl, inr,
  Bytes,
}
use watchlist.Prelude.Int.{ℤ, pos, ltb_ℤ}
use watchlist.Messaging.MqttService.{
  offline, connecting, reconnecting, disconnecting, mqtt_exception, std_exception, Attempt, Library,
  Handlers, Impl, Application, set_status,
}
use watchlist.Messaging.MqttService.Operations.{
  set_status_handler, set_error_handler, operation_failed, operation_succeeded,
}
use watchlist.Messaging.MqttService.Connection.{
  connect, disconnect, on_connected, connection_lost, on_failure, on_success, release_held,
  release_client, disconnecting_from, caught, attempt, start_connection, is_active,
}
use watchlist.Messaging.MqttService.Events.{
  Event, connects, subscribes, unsubscribes, publishes, disconnects, sets_status_handler,
  sets_error_handler, client_connected, client_lost, message, attempt_failed, attempt_succeeded,
  listener_failed, listener_succeeded, library_moves, step, run_events,
}
use watchlist.Messaging.MqttService.Stages.{
  owned, shut, quiet, Reached, KeepsStages, call_status-Reached, report_error-Reached,
  complete_operation-Reached, message_arrived-Reached,
}
use watchlist.Messaging.MqttService.Owned.{
  release_client-settled, void, handle_connected-owned, subscribe-owned, unsubscribe-owned,
  publish-owned,
}

module _ {l : Library} {h : Handlers} (a : Application l h) (k : KeepsStages a) where
  abbrev State : Type 0
  State = Impl l h

  attempt-owned :
      (host : Bytes) (port : ℤ) (client_id : Bytes) (s : State)
      → Reached owned s
      → Reached owned (attempt l h a host port client_id s)
  unfolding attempt caught
  attempt-owned host port client_id s o = created (l.create _ client_id s.world)
    where
      start : (c : l.Client) → State → State
      start c s = caught l h a (λ _ s'. s') (l.connect c s.world) (record s { client = some c })

      started :
          (c : l.Client) (x : Attempt (Unit {0}) × l.World) (s : State)
          → Reached owned (caught l h a (λ _ s'. s') x (record s { client = some c }))
      started c (Attempt.returned _, w) s = void refl
      started c (mqtt_exception what, w) s = report_error-Reached a k owned _ true _ (void refl)
      started c (std_exception what, w) s = report_error-Reached a k owned _ true _ (void refl)

      created : (x : Attempt l.Client × l.World) → Reached owned (caught l h a start x s)
      created (Attempt.returned c, w) = started c (l.connect c w) (record s { world = w })
      created (mqtt_exception what, w) = report_error-Reached a k owned _ true _ o
      created (std_exception what, w) = report_error-Reached a k owned _ true _ o

  release_held-owned :
      (c : l.Client) (s : State) → s.client ≡ none → Reached owned (release_held l h a (some c) s)
  unfolding release_held
  release_held-owned c s e = λ f. refl

  release_client-owned : (s : State) → Reached owned s → Reached owned (release_client l h a s)
  unfolding release_client release_held
  release_client-owned s o = held s.client refl
    where
      held :
          (c : Option l.Client)
          → s.client ≡ c
          → Reached owned (release_held l h a c (record s { client = none }))
      held none f = λ _. o f
      held (some c) f = λ _. refl

  pub connect-owned :
      (host : Bytes) (port : ℤ) (client_id : Bytes) (s : State)
      → Reached owned s
      → Reached owned (connect l h a host port client_id s)
  unfolding connect start_connection set_status
  connect-owned host port client_id s o = elim (Bool-cases (is_empty host)) [
    | inl e ↦ rw e (report_error-Reached a k owned _ true s o)
    | inr e ↦ elim (Bool-cases (ltb_ℤ port (pos 1) || ltb_ℤ (pos 65535) port)) [
      | inl f ↦ rw (e, f) (report_error-Reached a k owned _ true s o)
      | inr f ↦ elim (Bool-cases (is_empty client_id)) [
        | inl g ↦ rw (e, f, g) (report_error-Reached a k owned _ true s o)
        | inr g ↦ elim (Bool-cases (is_active s.status)) [
          | inl i ↦ rw (e, f, g, i) o
          | inr i ↦
              rw (e, f, g, i)
                (attempt-owned host port client_id _ (
                  call_status-Reached a k owned _ connecting _ _
                    (release_client-owned (record s { shutting_down = false }) o)))
        ]
      ]
    ]
  ]

  pub disconnect-quiet : (s : State) → Reached owned s → Reached quiet (disconnect l h a s)
  unfolding disconnect set_status
  disconnect-quiet s o = finish (told s.client refl)
    where
      s' : State
      s' = record s { shutting_down = true }

      told :
          (c : Option l.Client)
          → s.client ≡ c
          → Reached shut (disconnecting_from l h a c s')
            × Reached owned (disconnecting_from l h a c s')
      told none e = unfold disconnecting_from in (refl, o)
      told (some c) e =
          unfold disconnecting_from set_status in
          (
            call_status-Reached a k shut s.status_handler disconnecting _ _ refl,
            call_status-Reached a k owned s.status_handler disconnecting _ _ o,
          )

      finish :
          Reached shut (disconnecting_from l h a s.client s')
            × Reached owned (disconnecting_from l h a s.client s')
          → Reached quiet (disconnect l h a s)
      finish (e, f) =
          let r = release_client-settled a k _ e f in
          call_status-Reached a k quiet _ offline _ _ (r.0, r.1, r.2, refl)

  pub step-owned : (e : Event l h) (s : State) → Reached owned s → Reached owned (step l h a e s)
  unfolding step set_status_handler set_error_handler on_connected on_success connection_lost
      set_status on_failure operation_failed operation_succeeded
  step-owned (connects host port client_id) s o = connect-owned host port client_id s o
  step-owned (subscribes topic handler) s o = subscribe-owned a k topic handler s o
  step-owned (unsubscribes topic) s o = unsubscribe-owned a k topic s o
  step-owned (publishes topic payload) s o = publish-owned a k topic payload s o
  step-owned disconnects s o = λ _. (disconnect-quiet s o).2
  step-owned (sets_status_handler handler) s o = o
  step-owned (sets_error_handler handler) s o = o
  step-owned (client_connected cause) s o = handle_connected-owned a k _ s o
  step-owned (client_lost cause) s o = elim (Bool-cases s.shutting_down) [
    | inl e ↦ rw e o
    | inr e ↦ rw e (call_status-Reached a k owned _ reconnecting _ _ o)
  ]
  step-owned (message topic payload) s o = message_arrived-Reached a k owned topic payload s o
  step-owned (attempt_failed token) s o = report_error-Reached a k owned _ true s o
  step-owned attempt_succeeded s o = handle_connected-owned a k _ s o
  step-owned (listener_failed address operation token) s o =
      complete_operation-Reached a k owned address _ s o
  step-owned (listener_succeeded address) s o = complete_operation-Reached a k owned address [] s o
  step-owned (library_moves world) s o = o

  pub run_events-owned :
      (es : List (Event l h)) (s : State) → Reached owned s → Reached owned (run_events l h a es s)
  unfolding run_events
  run_events-owned [] s o = o
  run_events-owned (e ∷ es) s o = run_events-owned es (step l h a e s) (step-owned e s o)
