-- ===== src/Messaging/MqttService/Invariants/Steps.antt =====
-- Completions, messages, the release of the client, `Connect`, `Disconnect`, and every event of
-- src/Watchlist/Messaging/MqttService.cpp, from what the parts keep.
use watchlist.Prelude.{
  ℕ, Bool, true, false, ◌||◌, Option, none, some, List, [], ◌∷◌, if◌then◌else◌, is_empty, Bytes,
}
use watchlist.Prelude.Int.{ℤ, pos, ltb_ℤ}
use watchlist.AppState.{Outcome, returned, threw, threw_unknown}
use watchlist.Messaging.MqttService.{
  offline, connecting, disconnecting, Attempt, mqtt_exception, std_exception, Answer, answered,
  Library, Handlers, Impl, Application, report_error, complete_operation, is_pending,
}
use watchlist.Messaging.MqttService.Operations.{
  set_status_handler, set_error_handler, message_arrived, operation_failed, operation_succeeded,
  after_message, deliver, handlers_for,
}
use watchlist.Messaging.MqttService.Connection.{
  connect, disconnect, on_connected, on_failure, on_success, disconnected, release_held,
  release_client, disconnecting_from, caught, attempt, start_connection, is_active,
}
use watchlist.Messaging.MqttService.Events.{
  Event, connects, subscribes, unsubscribes, publishes, disconnects, sets_status_handler,
  sets_error_handler, client_connected, client_lost, message, attempt_failed, attempt_succeeded,
  listener_failed, listener_succeeded, library_moves, step, run_events,
}
use watchlist.Messaging.MqttService.Invariants.{
  KeptByHandlers, KeptByParts, report_error-keeps, set_status-keeps, handle_connected-keeps,
  connection_lost-keeps, subscribe-keeps, unsubscribe-keeps, publish-keeps, when-keeps,
}

module _ {l : Library} {h : Handlers} (a : Application l h) (P : Impl l h → Type 0)
    (u : KeptByHandlers a P) (p : KeptByParts a P) where
  abbrev State : Type 0
  State = Impl l h

  reports :
      (text : Bytes) (changes : Bool) (s : State) → P s → P (report_error l h a text changes s)
  reports = report_error-keeps a P u p

  either : (b : Bool) (s t : State) → P s → P t → P (if b then s else t)
  either = when-keeps a P u p

  complete_operation-keeps :
      (address : ℕ) (text : Bytes) (s : State) → P s → P (complete_operation l h a address text s)
  unfolding complete_operation
  complete_operation-keeps address text s r =
      let erased = p.erase_keeps address s r in
      either (is_pending address s.pending_operations) _ s
        (either (is_empty text) _ _ erased (reports text false _ erased)) r

  deliver-keeps :
      (handlers : List h.Message) (topic payload : Bytes) (s : State)
      → P s
      → P (deliver l h a handlers topic payload s)
  unfolding deliver
  deliver-keeps [] topic payload s r = r
  deliver-keeps (handler ∷ handlers) topic payload s r =
      deliver-keeps handlers topic payload _ (
        after (a.invoke_message handler topic payload s)
          (u.message_keeps handler topic payload s r))
    where
      after : (x : Outcome × State) → P x.1 → P (after_message l h a topic x)
      after (returned, s) r = unfold after_message in r
      after (threw what, s) r = unfold after_message in reports _ false s r
      after (threw_unknown, s) r = unfold after_message in reports _ false s r

  message_arrived-keeps :
      (topic payload : Bytes) (s : State) → P s → P (message_arrived l h a topic payload s)
  unfolding message_arrived
  message_arrived-keeps topic payload s r =
      either (is_empty (handlers_for topic s.subscriptions)) _ _ (reports _ false s r)
        (deliver-keeps (handlers_for topic s.subscriptions) topic payload s r)

  disconnected-keeps : (x : Answer Bool × l.World) (s : State) → P s → P (disconnected l h a x s)
  unfolding disconnected
  disconnected-keeps (answered true, w) s r = p.world_keeps w s r
  disconnected-keeps (answered false, w) s r = reports _ false _ (p.world_keeps w s r)
  disconnected-keeps (Answer.threw what, w) s r = reports _ false _ (p.world_keeps w s r)

  release_client-keeps : (s : State) → P s → P (release_client l h a s)
  unfolding release_client
  release_client-keeps s r = held s.client (record s { client = none }) (p.client_keeps none s r)
    where
      held : (c : Option l.Client) (s : State) → P s → P (release_held l h a c s)
      held none s r = unfold release_held in r
      held (some c) s r =
          unfold release_held in
          p.clear_keeps _ (
            p.world_keeps _ _ (
              either (l.is_connected c s.world) _ s
                (disconnected-keeps (l.disconnect c s.world) s r) r))

  caught-keeps :
      {A : Type 0} (f : A → State → State) (x : Attempt A × l.World) (s : State)
      → ((y : A) (s : State) → P s → P (f y s))
      → P s
      → P (caught l h a f x s)
  unfolding caught
  caught-keeps f (Attempt.returned y, w) s g r = g y _ (p.world_keeps w s r)
  caught-keeps f (mqtt_exception what, w) s g r = reports _ true _ (p.world_keeps w s r)
  caught-keeps f (std_exception what, w) s g r = reports _ true _ (p.world_keeps w s r)

  connect-keeps :
      (host : Bytes) (port : ℤ) (client_id : Bytes) (s : State)
      → P s
      → P (connect l h a host port client_id s)
  unfolding connect start_connection attempt
  connect-keeps host port client_id s r = either (is_empty host) _ _ (reports _ true s r) (
      either (ltb_ℤ port (pos 1) || ltb_ℤ (pos 65535) port) _ _ (reports _ true s r) (
        either (is_empty client_id) _ _ (reports _ true s r) (
          either (is_active s.status) s _ r (
            caught-keeps _ (l.create _ client_id _) _
              (λ c t q.
                caught-keeps _ (l.connect c t.world) _ (λ _ _ r. r) (p.client_keeps (some c) t q))
              (set_status-keeps a P u p connecting _ _
                (release_client-keeps _ (p.shutting_down_keeps false s r)))))))

  disconnect-keeps : (s : State) → P s → P (disconnect l h a s)
  unfolding disconnect
  disconnect-keeps s r =
      set_status-keeps a P u p offline _ _
        (release_client-keeps _ (told s.client _ (p.shutting_down_keeps true s r)))
    where
      told : (c : Option l.Client) (s : State) → P s → P (disconnecting_from l h a c s)
      told none s r = unfold disconnecting_from in r
      told (some c) s r = unfold disconnecting_from in set_status-keeps a P u p disconnecting _ s r

  pub step-keeps : (e : Event l h) (s : State) → P s → P (step l h a e s)
  unfolding step set_status_handler set_error_handler on_connected on_success on_failure
      operation_failed operation_succeeded
  step-keeps (connects host port client_id) s r = connect-keeps host port client_id s r
  step-keeps (subscribes topic f) s r = subscribe-keeps a P u p topic f s r
  step-keeps (unsubscribes topic) s r = unsubscribe-keeps a P u p topic s r
  step-keeps (publishes topic payload) s r = publish-keeps a P u p topic payload s r
  step-keeps disconnects s r = disconnect-keeps s r
  step-keeps (sets_status_handler f) s r = p.status_handler_keeps f s r
  step-keeps (sets_error_handler f) s r = p.error_handler_keeps f s r
  step-keeps (client_connected cause) s r = handle_connected-keeps a P u p _ s r
  step-keeps (client_lost cause) s r = connection_lost-keeps a P u p cause s r
  step-keeps (message topic payload) s r = message_arrived-keeps topic payload s r
  step-keeps (attempt_failed token) s r = reports _ true s r
  step-keeps attempt_succeeded s r = handle_connected-keeps a P u p _ s r
  step-keeps (listener_failed address operation token) s r = complete_operation-keeps address _ s r
  step-keeps (listener_succeeded address) s r = complete_operation-keeps address [] s r
  step-keeps (library_moves world) s r = p.world_keeps world s r

  pub run_events-keeps : (es : List (Event l h)) (s : State) → P s → P (run_events l h a es s)
  unfolding run_events
  run_events-keeps [] s r = r
  run_events-keeps (e ∷ es) s r = run_events-keeps es (step l h a e s) (step-keeps e s r)
