-- ===== src/Messaging/MqttService/Invariants.antt =====
-- What every event of src/Watchlist/Messaging/MqttService.cpp keeps, from what its parts keep: the
-- assignments under the mutex, and the calls of the application's handlers.
pub mod Steps
use watchlist.Prelude.{
  ℕ, Bool, true, false, not, ◌&&◌, ◌||◌, Option, none, some, List, [], ◌∷◌, ◌≡◌, ◌⊎◌, refl,
  if◌then◌else◌, is_empty, value_or, Bool-cases, inl, inr, Bytes,
}
use watchlist.Prelude.Int.{ℤ, pos, ltb_ℤ}
use watchlist.AppState.{Outcome, returned, threw, threw_unknown}
use watchlist.Messaging.MqttService.{
  LifecycleStatus, offline, connecting, connected, reconnecting, disconnecting, error,
  is_connected_status, Attempt, mqtt_exception, std_exception, Answer, answered, Library,
  delivery_qos, retain_messages, Handlers, Impl, Application, show, call_status, call_error,
  set_status, hand_over, submitted, track_operation, cancel_operation, report_error,
  complete_operation, is_pending, erase_found, erase_listener,
}
use watchlist.Messaging.MqttService.Operations.{
  subscribe, unsubscribe, publish, set_status_handler, set_error_handler, message_arrived,
  operation_failed, operation_succeeded, after_message, deliver, register, publish_client,
  unsubscribe_client, subscribe_client, handlers_for,
}
use watchlist.Messaging.MqttService.Connection.{
  connect, disconnect, on_connected, connection_lost, on_failure, on_success, disconnected,
  release_held, release_client, disconnecting_from, handle_connected, caught, attempt,
  start_connection, subscribe_all, topics_of, is_active,
}
use watchlist.Messaging.MqttService.Events.{
  Event, connects, subscribes, unsubscribes, publishes, disconnects, sets_status_handler,
  sets_error_handler, client_connected, client_lost, message, attempt_failed, attempt_succeeded,
  listener_failed, listener_succeeded, library_moves, step, run_events,
}

module _ {l : Library} {h : Handlers} (a : Application l h) (P : Impl l h → Type 0) where
  -- Every call of a handler keeps it.
  pub record KeptByHandlers : Type 0 where
    pub status_keeps :
        (handler : h.Status) (status : LifecycleStatus) (detail : Bytes) (s : Impl l h)
        → P s
        → P (a.invoke_status handler status detail s).1
    pub error_keeps :
        (handler : h.Error) (text : Bytes) (s : Impl l h)
        → P s
        → P (a.invoke_error handler text s).1
    pub message_keeps :
        (handler : h.Message) (topic payload : Bytes) (s : Impl l h)
        → P s
        → P (a.invoke_message handler topic payload s).1

  -- Every assignment of the service keeps it.
  pub record KeptByParts : Type 0 where
    pub world_keeps : (w : l.World) (s : Impl l h) → P s → P (record s { world = w })
    pub client_keeps : (c : Option l.Client) (s : Impl l h) → P s → P (record s { client = c })
    pub subscriptions_keep :
        (m : List (Bytes × h.Message)) (s : Impl l h) → P s → P (record s { subscriptions = m })
    pub status_handler_keeps :
        (f : Option h.Status) (s : Impl l h) → P s → P (record s { status_handler = f })
    pub error_handler_keeps :
        (f : Option h.Error) (s : Impl l h) → P s → P (record s { error_handler = f })
    pub shutting_down_keeps : (b : Bool) (s : Impl l h) → P s → P (record s { shutting_down = b })
    pub track_keeps :
        (operation : Bytes) (s : Impl l h) → P s → P (track_operation l h a operation s).1
    pub cancel_keeps : (address : ℕ) (s : Impl l h) → P s → P (cancel_operation l h a address s)
    pub erase_keeps :
        (address : ℕ) (s : Impl l h)
        → P s
        → P (record s { pending_operations = erase_found address s.pending_operations })
    pub clear_keeps : (s : Impl l h) → P s → P (record s { pending_operations = [] })
    pub show_keeps :
        (changed : Option LifecycleStatus) (detail : Bytes) (s : Impl l h)
        → P s
        → P (record s {
          status = value_or changed s.status;
          app_state = show changed detail s.app_state;
        })

module _ {l : Library} {h : Handlers} (a : Application l h) (P : Impl l h → Type 0)
    (u : KeptByHandlers a P) (p : KeptByParts a P) where
  abbrev State : Type 0
  State = Impl l h

  call_error-keeps :
      (f : Option h.Error) (text : Bytes) (s : State) → P s → P (call_error l h a f text s)
  unfolding call_error
  call_error-keeps none text s r = r
  call_error-keeps (some f) text s r = u.error_keeps f text s r

  call_status-keeps :
      (f : Option h.Status) (status : LifecycleStatus) (detail : Bytes) (s : State)
      → P s
      → P (call_status l h a f status detail s)
  unfolding call_status
  call_status-keeps none status detail s r = r
  call_status-keeps (some f) status detail s r = u.status_keeps f status detail s r

  pub set_status-keeps :
      (status : LifecycleStatus) (detail : Bytes) (s : State)
      → P s
      → P (set_status l h a status detail s)
  unfolding set_status
  set_status-keeps status detail s r =
      call_status-keeps s.status_handler status detail _ (p.show_keeps (some status) detail s r)

  pub report_error-keeps :
      (text : Bytes) (changes : Bool) (s : State) → P s → P (report_error l h a text changes s)
  unfolding report_error
  report_error-keeps text changes s r =
      call_error-keeps s.error_handler text _ (shown (not s.shutting_down && changes))
    where
      shown :
          (b : Bool)
          → P (record s {
            status = if b then error else s.status;
            app_state = show (if b then some error else none) text s.app_state;
          })
      shown true = p.show_keeps (some error) text s r
      shown false = p.show_keeps none text s r

  hand_over-keeps :
      (operation : Bytes) (call : ℕ → l.World → Answer (Unit {0}) × l.World)
      (failure : Bytes → Bytes) (s : State)
      → P s
      → P (hand_over l h a operation call failure s)
  unfolding hand_over
  hand_over-keeps operation call failure s r =
      let (listener, s') = track_operation l h a operation s in
      ended listener.address (call listener.address s'.world) s' (p.track_keeps operation s r)
    where
      ended :
          (address : ℕ) (x : Answer (Unit {0}) × l.World) (s : State)
          → P s
          → P (submitted l h a address failure x s)
      ended address (answered _, w) s r = unfold submitted in p.world_keeps w s r
      ended address (Answer.threw what, w) s r =
          unfold submitted in
          report_error-keeps (failure what) false _ (p.cancel_keeps address _ (p.world_keeps w s r))

  subscribe_client-keeps :
      (c : Option l.Client) (topic : Bytes) (s : State) → P s → P (subscribe_client l h a c topic s)
  unfolding subscribe_client
  subscribe_client-keeps none topic s r = r
  subscribe_client-keeps (some c) topic s r =
      hand_over-keeps _ (l.subscribe c topic delivery_qos) _ s r

  subscribe_all-keeps :
      (c : Option l.Client) (topics : List Bytes) (s : State)
      → P s
      → P (subscribe_all l h a c topics s)
  unfolding subscribe_all
  subscribe_all-keeps c [] s r = r
  subscribe_all-keeps c (topic ∷ topics) s r =
      subscribe_all-keeps c topics _ (subscribe_client-keeps c topic s r)

  pub when-keeps : (b : Bool) (s t : State) → P s → P t → P (if b then s else t)
  when-keeps true s t r q = r
  when-keeps false s t r q = q

  pub handle_connected-keeps :
      (detail : Bytes) (s : State) → P s → P (handle_connected l h a detail s)
  unfolding handle_connected
  handle_connected-keeps detail s r =
      when-keeps (s.shutting_down || is_connected_status s.status) s _ r (
        subscribe_all-keeps s.client (topics_of s.subscriptions) _ (
          call_status-keeps s.status_handler connected detail _
            (p.show_keeps (some connected) detail s r)))

  pub connection_lost-keeps : (cause : Bytes) (s : State) → P s → P (connection_lost l h a cause s)
  unfolding connection_lost
  connection_lost-keeps cause s r =
      when-keeps s.shutting_down s _ r (set_status-keeps reconnecting _ s r)

  pub subscribe-keeps :
      (topic : Bytes) (f : Option h.Message) (s : State) → P s → P (subscribe l h a topic f s)
  unfolding subscribe register
  subscribe-keeps topic f s r =
      when-keeps (is_empty topic) _ _ (report_error-keeps _ false s r) (registered f)
    where
      registered : (f : Option h.Message) → P (register l h a topic f s)
      registered none = report_error-keeps _ false s r
      registered (some f) =
          when-keeps (is_connected_status s.status) _ _
            (subscribe_client-keeps s.client topic _ (p.subscriptions_keep _ s r))
            (p.subscriptions_keep _ s r)

  pub unsubscribe-keeps : (topic : Bytes) (s : State) → P s → P (unsubscribe l h a topic s)
  unfolding unsubscribe unsubscribe_client
  unsubscribe-keeps topic s r = when-keeps (is_empty topic) _ _ (report_error-keeps _ false s r) (
      when-keeps (is_connected_status s.status) _ _ (asked s.client _ (p.subscriptions_keep _ s r))
        (p.subscriptions_keep _ s r))
    where
      asked : (c : Option l.Client) (s : State) → P s → P (unsubscribe_client l h a c topic s)
      asked none s r = r
      asked (some c) s r = hand_over-keeps _ (l.unsubscribe c topic) _ s r

  pub publish-keeps : (topic payload : Bytes) (s : State) → P s → P (publish l h a topic payload s)
  unfolding publish publish_client
  publish-keeps topic payload s r =
      when-keeps (is_empty topic) _ _ (report_error-keeps _ false s r) (handed s.client)
    where
      handed : (c : Option l.Client) → P (publish_client l h a c topic payload s)
      handed none = report_error-keeps _ false s r
      handed (some c) =
          hand_over-keeps _ (l.publish c topic payload delivery_qos retain_messages) _ s r
