-- ===== src/Messaging/MqttService/Owned.antt =====
-- Without a client, src/Watchlist/Messaging/MqttService.cpp has no pending operation: only an operation
-- that a client was handed is tracked, and the release of the client clears them.
pub mod Steps
use watchlist.Prelude.{
  ℕ, Bool, true, false, ◌||◌, Option, none, some, List, [], ◌∷◌, ◌≡◌, refl, is_empty, Bool-cases,
  inl, inr, Bytes,
}
use watchlist.Prelude.Int.{ℤ, pos, ltb_ℤ}
use watchlist.Messaging.MqttService.{
  offline, connecting, connected, reconnecting, disconnecting, mqtt_exception, std_exception,
  is_connected_status, Attempt, Answer, answered, Library, delivery_qos, Handlers, Impl,
  Application, call_status, set_status, hand_over, submitted, track_operation, show,
}
use watchlist.Messaging.MqttService.Operations.{
  subscribe, unsubscribe, publish, set_status_handler, set_error_handler, operation_failed,
  operation_succeeded, register, publish_client, unsubscribe_client, subscribe_client,
}
use watchlist.Messaging.MqttService.Connection.{
  connect, disconnect, on_connected, connection_lost, on_failure, on_success, disconnected,
  release_held, release_client, disconnecting_from, handle_connected, caught, attempt,
  start_connection, subscribe_all, topics_of, is_active,
}
use watchlist.Messaging.MqttService.Events.{
  Event, connects, subscribes, unsubscribes, publishes, disconnects, sets_status_handler,
  sets_error_handler, client_connected, client_lost, message, attempt_failed, attempt_succeeded,
  listener_failed, listener_succeeded, library_moves, step, run_events,
}
use watchlist.Messaging.MqttService.Stages.{
  Stage, owned, holding, shut, released, settled, quiet, Reached, KeepsStages, call_status-Reached,
  report_error-Reached, complete_operation-Reached, message_arrived-Reached,
}

-- While a client is held, what holds without one is void.
pub void : {C P : Type 0} {x : Option C} {c : C} → x ≡ some c → x ≡ none → P
void e f = absurd cc

module _ {l : Library} {h : Handlers} (a : Application l h) (k : KeepsStages a) where
  abbrev pub State : Type 0
  State = Impl l h

  disconnected-Reached :
      (g : Stage l) (x : Answer Bool × l.World) (s : State)
      → ((w : l.World) → Reached g (record s { world = w }))
      → Reached g (disconnected l h a x s)
  unfolding disconnected
  disconnected-Reached g (answered true, w) s r = r w
  disconnected-Reached g (answered false, w) s r = report_error-Reached a k g _ false _ (r w)
  disconnected-Reached g (Answer.threw what, w) s r = report_error-Reached a k g _ false _ (r w)

  release_held-settled :
      (c : l.Client) (s : State)
      → s.shutting_down ≡ true
      → s.client ≡ none
      → Reached settled (release_held l h a (some c) s)
  unfolding release_held
  release_held-settled c s e f = elim (Bool-cases (l.is_connected c s.world)) [
    | inl up ↦ rw up (
        let r : Reached released (disconnected l h a (l.disconnect c s.world) s) =
          disconnected-Reached released (l.disconnect c s.world) s (λ w. (e, f)) in
        (r.0, r.1, refl))
    | inr down ↦ rw down (e, f, refl)
  ]

  pub release_client-settled :
      (s : State)
      → s.shutting_down ≡ true
      → Reached owned s
      → Reached settled (release_client l h a s)
  unfolding release_client
  release_client-settled s e o = held s.client refl
    where
      held :
          (c : Option l.Client)
          → s.client ≡ c
          → Reached settled (release_held l h a c (record s { client = none }))
      held none f = unfold release_held in (e, refl, o f)
      held (some c) f = release_held-settled c (record s { client = none }) e refl

  -- An operation that the held client is handed, or fails to be handed.
  hand_over-holding :
      (c : l.Client) (operation : Bytes) (call : ℕ → l.World → Answer (Unit {0}) × l.World)
      (failure : Bytes → Bytes) (s : State)
      → s.client ≡ some c
      → (hand_over l h a operation call failure s).client ≡ some c
  unfolding hand_over track_operation
  hand_over-holding c operation call failure s e = ended (call s.next_listener s.world)
    where
      s' : State
      s' = (track_operation l h a operation s).1

      ended :
          (x : Answer (Unit {0}) × l.World)
          → (submitted l h a s.next_listener failure x s').client ≡ some c
      ended (answered _, w) = unfold submitted in e
      ended (Answer.threw what, w) =
          unfold submitted in report_error-Reached a k (holding c) (failure what) false _ e

  subscribe_client-holding :
      (c : l.Client) (topic : Bytes) (s : State)
      → s.client ≡ some c
      → (subscribe_client l h a (some c) topic s).client ≡ some c
  unfolding subscribe_client
  subscribe_client-holding c topic s e =
      hand_over-holding c _ (l.subscribe c topic delivery_qos) _ s e

  subscribe_all-none : (topics : List Bytes) (s : State) → subscribe_all l h a none topics s ≡ s
  unfolding subscribe_all subscribe_client
  subscribe_all-none [] s = refl
  subscribe_all-none (topic ∷ topics) s = subscribe_all-none topics s

  subscribe_all-holding :
      (c : l.Client) (topics : List Bytes) (s : State)
      → s.client ≡ some c
      → (subscribe_all l h a (some c) topics s).client ≡ some c
  unfolding subscribe_all
  subscribe_all-holding c [] s e = e
  subscribe_all-holding c (topic ∷ topics) s e =
      subscribe_all-holding c topics _ (subscribe_client-holding c topic s e)

  pub handle_connected-owned :
      (detail : Bytes) (s : State)
      → Reached owned s
      → Reached owned (handle_connected l h a detail s)
  unfolding handle_connected
  handle_connected-owned detail s o =
      elim (Bool-cases (s.shutting_down || is_connected_status s.status)) [
        | inl e ↦ rw e o
        | inr e ↦ rw e (resubscribed s.client refl)
      ]
    where
      s' : State
      s' = record s { status = connected; app_state = show (some connected) detail s.app_state }

      resubscribed :
          (client : Option l.Client)
          → s.client ≡ client
          → Reached owned (
              subscribe_all l h a client
                (topics_of s.subscriptions)
                (call_status l h a s.status_handler connected detail s'))
      resubscribed none e =
          rw subscribe_all-none
            (call_status-Reached a k owned s.status_handler connected detail s' o)
      resubscribed (some c) e = void (
          subscribe_all-holding c (topics_of s.subscriptions) _
            (call_status-Reached a k (holding c) s.status_handler connected detail s' e))

  pub subscribe-owned :
      (topic : Bytes) (handler : Option h.Message) (s : State)
      → Reached owned s
      → Reached owned (subscribe l h a topic handler s)
  unfolding subscribe register
  subscribe-owned topic handler s o = elim (Bool-cases (is_empty topic)) [
    | inl e ↦ rw e (report_error-Reached a k owned _ false s o)
    | inr e ↦ rw e (registered handler)
  ]
    where
      asked :
          (c : Option l.Client) (s : State)
          → s.client ≡ c
          → Reached owned s
          → Reached owned (subscribe_client l h a c topic s)
      asked none s e o = unfold subscribe_client in o
      asked (some c) s e o = void (subscribe_client-holding c topic s e)

      registered : (handler : Option h.Message) → Reached owned (register l h a topic handler s)
      registered none = report_error-Reached a k owned _ false s o
      registered (some f) = elim (Bool-cases (is_connected_status s.status)) [
        | inl e ↦ rw e (asked s.client _ refl o)
        | inr e ↦ rw e o
      ]

  pub unsubscribe-owned :
      (topic : Bytes) (s : State) → Reached owned s → Reached owned (unsubscribe l h a topic s)
  unfolding unsubscribe unsubscribe_client
  unsubscribe-owned topic s o = elim (Bool-cases (is_empty topic)) [
    | inl e ↦ rw e (report_error-Reached a k owned _ false s o)
    | inr e ↦ elim (Bool-cases (is_connected_status s.status)) [
      | inl f ↦ rw (e, f) (asked s.client _ refl o)
      | inr f ↦ rw (e, f) o
    ]
  ]
    where
      asked :
          (c : Option l.Client) (s : State)
          → s.client ≡ c
          → Reached owned s
          → Reached owned (unsubscribe_client l h a c topic s)
      asked none s e o = o
      asked (some c) s e o = void (hand_over-holding c _ _ _ s e)

  publish-owned :
      (topic payload : Bytes) (s : State)
      → Reached owned s
      → Reached owned (publish l h a topic payload s)
  unfolding publish publish_client
  publish-owned topic payload s o = elim (Bool-cases (is_empty topic)) [
    | inl e ↦ rw e (report_error-Reached a k owned _ false s o)
    | inr e ↦ rw e (handed s.client refl)
  ]
    where
      handed :
          (c : Option l.Client)
          → s.client ≡ c
          → Reached owned (publish_client l h a c topic payload s)
      handed none e = report_error-Reached a k owned _ false s o
      handed (some c) e = void (hand_over-holding c _ _ _ s e)
