-- ===== src/Messaging/MqttService/Events.antt =====
-- Everything that happens to the service of src/Watchlist/Messaging/MqttService.cpp, in any order: the
-- calls of its methods, the callbacks of the client library, and the library's own work between them.
use watchlist.Prelude.{ℕ, Bool, false, not, ◌&&◌, ◌||◌, Option, List, [], ◌∷◌, is_empty, Bytes}
use watchlist.Prelude.Int.{ℤ, pos, ltb_ℤ}
use watchlist.Messaging.MqttService.{Library, Handlers, Token, Impl, Application}
use watchlist.Messaging.MqttService.Operations.{
  subscribe, unsubscribe, publish, set_status_handler, set_error_handler, message_arrived,
  operation_failed, operation_succeeded,
}
use watchlist.Messaging.MqttService.Connection.{
  connect, disconnect, on_connected, connection_lost, on_failure, on_success,
}

module _ (l : Library) (h : Handlers) where
  pub data Event : Type 0 where
    connects : Bytes → ℤ → Bytes → Event
    subscribes : Bytes → Option h.Message → Event
    unsubscribes : Bytes → Event
    publishes : Bytes → Bytes → Event
    disconnects : Event
    sets_status_handler : Option h.Status → Event
    sets_error_handler : Option h.Error → Event
    client_connected : Bytes → Event
    client_lost : Bytes → Event
    message : Bytes → Bytes → Event
    attempt_failed : Token → Event
    attempt_succeeded : Event
    listener_failed : ℕ → Bytes → Token → Event
    listener_succeeded : ℕ → Event
    library_moves : l.World → Event

-- The arguments that `Connect` goes on with.
abbrev pub is_connectable : Bytes → ℤ → Bytes → Bool
is_connectable host port client_id =
    not (is_empty host)
    && not (ltb_ℤ port (pos 1) || ltb_ℤ (pos 65535) port)
    && not (is_empty client_id)

module _ {l : Library} {h : Handlers} where
  -- An event that may open a connection.
  abbrev pub opens : Event l h → Bool
  opens (connects host port client_id) = is_connectable host port client_id
  opens _ = false

module _ (l : Library) (h : Handlers) (a : Application l h) where
  unfoldable pub step : Event l h → Impl l h → Impl l h
  step (connects host port client_id) s = connect l h a host port client_id s
  step (subscribes topic handler) s = subscribe l h a topic handler s
  step (unsubscribes topic) s = unsubscribe l h a topic s
  step (publishes topic payload) s = publish l h a topic payload s
  step disconnects s = disconnect l h a s
  step (sets_status_handler handler) s = set_status_handler l h a handler s
  step (sets_error_handler handler) s = set_error_handler l h a handler s
  step (client_connected cause) s = on_connected l h a cause s
  step (client_lost cause) s = connection_lost l h a cause s
  step (message topic payload) s = message_arrived l h a topic payload s
  step (attempt_failed token) s = on_failure l h a token s
  step attempt_succeeded s = on_success l h a s
  step (listener_failed address operation token) s =
      operation_failed l h a address operation token s
  step (listener_succeeded address) s = operation_succeeded l h a address s
  step (library_moves world) s = record s { world = world }

  unfoldable pub run_events : List (Event l h) → Impl l h → Impl l h
  run_events [] s = s
  run_events (e ∷ es) s = run_events es (step e s)
