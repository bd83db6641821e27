-- ===== src/Messaging/MqttService/Examples.antt =====
-- A client library that accepts everything, handlers of an application, and the theorems at them.
use watchlist.Prelude.{
  format_int, ℕ, true, false, none, some, List, [], ◌∷◌, ◌++◌, ◌≡◌, refl, map, arith, Bytes, bytes,
  erase,
}
use watchlist.Prelude.Int.{pos}
use watchlist.AppState.{returned, threw, initial}
use watchlist.Messaging.MqttService.{
  offline, Attempt, answered, Library, Handlers, Token, Impl, Application, initial_impl, is_pending,
  status_text, call_status, set_status, report_error, hand_over,
}
use watchlist.Messaging.MqttService.Operations.{
  message_arrived, publish, subscribe, wait_for_pending_operations,
}
use watchlist.Messaging.MqttService.Connection.{
  connect, disconnect, on_connected, topics_of, is_connected, lifecycle,
}
use watchlist.Messaging.MqttService.Events.{
  Event, connects, subscribes, publishes, client_connected, client_lost, listener_failed,
  listener_succeeded, attempt_failed, step, run_events,
}
use watchlist.Messaging.MqttService.Stages.{
  Stage, owned, holding, shut, released, settled, quiet, Reached, KeepsStages,
}
use watchlist.Messaging.MqttService.Invariants.{KeptByHandlers}
use watchlist.Messaging.MqttService.Mirrors.{Shows, run_events-Mirrors}
use watchlist.Messaging.MqttService.Pending.{IsTracked}
use watchlist.Messaging.MqttService.Pending.Answered.{
  complete_operation-once, all_succeed, all_succeed-wait, listed,
}
use watchlist.Messaging.MqttService.Quiet.{disconnect-IsFinal}
use watchlist.Messaging.MqttService.Routing.{Chosen, Observer, message_arrived-seen}
use watchlist.Messaging.MqttService.Run.{Round, event, stop, Progressed, run}
use watchlist.Messaging.MqttService.Run.Ends.{run-Progressed}

-- The filters that were asked for, and the messages that handlers were called with.
record Broker : Type 0 where
  filters : List (Bytes × Unit {0})
  delivered : List (Bytes × Bytes × Bytes)

abbrev library : Library
library = record {
  Client = Unit {0};
  World = Broker;
  create = λ uri id w. (Attempt.returned tt, w);
  connect = λ c w. (Attempt.returned tt, w);
  subscribe = λ c topic qos x w. (answered tt, record w { filters = (topic, tt) ∷ w.filters });
  unsubscribe = λ c topic x w. (answered tt, record w { filters = erase topic w.filters });
  publish = λ c topic payload qos retain x w. (answered tt, w);
  is_connected = λ c w. true;
  disconnect = λ c w. (answered false, w);
  disable_callbacks = λ c w. w;
}

abbrev handlers : Handlers
handlers = record { Outbound = Unit {0}; Message = Bytes; Status = Unit {0}; Error = Unit {0} }

abbrev TestService : Type 0
TestService = Impl library handlers

-- A message handler is known by its name, notes what it gets and throws.
abbrev application : Application library handlers
application = record {
  invoke_message = λ f topic payload s. (
    threw f,
    record s {
      world = record s.world { delivered = s.world.delivered ++ (f, topic, payload) ∷ [] };
    },
  );
  invoke_status = λ f status detail s. (returned, s);
  invoke_error = λ f text s. (returned, s);
}

abbrev broker : Broker
broker = record { filters = []; delivered = [] }

abbrev history : List (Event library handlers)
history =
    subscribes (bytes "acks/+") (some (bytes "any"))
    ∷ connects (bytes "localhost") (pos 1883) (bytes "me")
    ∷ client_connected []
    ∷ publishes (bytes "requests") (bytes "{}")
    ∷ subscribes (bytes "acks/me") (some (bytes "mine"))
    ∷ []

abbrev failure : Token
failure = record { error_message = bytes "lost"; return_code = pos 3 }

abbrev late : List (Event library handlers)
late =
    client_connected []
    ∷ client_lost []
    ∷ attempt_failed failure
    ∷ publishes (bytes "requests") (bytes "{}")
    ∷ listener_failed 1 (bytes "MQTT publish to requests") failure
    ∷ []

messages_keep :
    (g : Stage library) (w : Broker) (s : TestService)
    → Reached g s
    → Reached g (record s { world = w })
messages_keep owned w s r = r
messages_keep (holding c) w s r = r
messages_keep shut w s r = r
messages_keep released w s r = r
messages_keep settled w s r = r
messages_keep quiet w s r = r

keeps : KeepsStages application
keeps = record {
  status_keeps = λ g f status detail s r. r;
  error_keeps = λ g f text s r. r;
  message_keeps = λ g f topic payload s r. messages_keep g _ s r;
}

disconnect-IsFinal_example :
    let s = run_events library handlers application late (
      disconnect library handlers application (
        run_events library handlers application history
          (initial_impl library handlers (some initial) broker))) in
    (lifecycle library handlers application s ≡ offline)
    × (is_connected library handlers application s ≡ false)
    × (s.client ≡ none)
    × (wait_for_pending_operations library handlers application s ≡ true)
disconnect-IsFinal_example =
    disconnect-IsFinal application keeps history late (some initial) broker
      (refl, (refl, (refl, (refl, (refl, tt)))))

run_events-Mirrors_example :
    let s =
      run_events library handlers application history
        (initial_impl library handlers (some initial) broker) in
    Shows s.app_state (lifecycle library handlers application s)
run_events-Mirrors_example =
    run_events-Mirrors application
      (record {
        status_keeps = λ f status detail s m. m;
        error_keeps = λ f text s m. m;
        message_keeps = λ f topic payload s m. m;
      })
      history (some initial) broker shown
  where
    shown : Shows {H = Unit {0}} (some initial) offline
    shown = unfold status_text bytes in refl

-- The subscription at the connection, the publication, and the subscription while connected.
abbrev served : TestService
served =
    run_events library handlers application history
      (initial_impl library handlers (some initial) broker)

history_tracks : served.next_listener ≡ 3
unfolding run_events step subscribe connect on_connected publish hand_over call_status set_status
    report_error bytes format_int topics_of
history_tracks = refl

history_asks : served.world.filters ≡ (bytes "acks/me", tt) ∷ (bytes "acks/+", tt) ∷ []
unfolding run_events step subscribe connect on_connected publish hand_over call_status set_status
    report_error bytes format_int topics_of
history_asks = refl

IsTracked-keeps : KeptByHandlers application IsTracked
IsTracked-keeps = record {
  status_keeps = λ f status detail s m. m;
  error_keeps = λ f text s m. m;
  message_keeps = λ f topic payload s m. record { once = m.once; fresh = m.fresh };
}

complete_operation-once_example :
    let s =
      run_events library handlers application late
        (step library handlers application (listener_succeeded 1) served) in
    step library handlers application
      (listener_failed 1 (bytes "MQTT publish to requests") failure)
      s
    ≡ s
complete_operation-once_example =
    complete_operation-once application 1 IsTracked-keeps
      (record {
        status_keeps = λ f status detail s m. m;
        error_keeps = λ f text s m. m;
        message_keeps = λ f topic payload s m. m;
      })
      history late (listener_succeeded 1)
      (listener_failed 1 (bytes "MQTT publish to requests") failure) (some initial) broker refl refl
      (omega (arith, history_tracks))

pending_listed :
    (x : ℕ) → is_pending x served.pending_operations ≡ true → listed x (2 ∷ 0 ∷ 1 ∷ []) ≡ true
unfolding run_events step subscribe connect on_connected publish hand_over call_status set_status
    report_error bytes format_int topics_of is_pending
pending_listed x e = ground arith

all_succeed-wait_example :
    wait_for_pending_operations library handlers application
      (run_events library handlers application (all_succeed (2 ∷ 0 ∷ 1 ∷ [])) served)
    ≡ true
all_succeed-wait_example =
    all_succeed-wait application IsTracked-keeps history (2 ∷ 0 ∷ 1 ∷ []) (some initial) broker
      pending_listed

abbrev noted : Observer application
noted = record {
  seen = λ s. s.world.delivered;
  message_seen = λ f topic payload s. refl;
  error_seen = λ f text s. refl;
  report_seen = λ status x s. refl;
}

message_arrived-seen_example :
    (fs : List Bytes) × Chosen (bytes "acks/me") served.subscriptions fs
    × ((message_arrived library handlers application
          (bytes "acks/me")
          (bytes "ok")
          served).world.delivered
        ≡ served.world.delivered ++ map (λ f. (f, bytes "acks/me", bytes "ok")) fs)
message_arrived-seen_example =
    message_arrived-seen application noted (bytes "acks/me") (bytes "ok") served

abbrev rounds : List (Round library handlers)
rounds =
    record {
      settling = event (attempt_failed failure) ∷ [];
      waiting = [];
      backing_off = [];
      serving = [];
    }
    ∷ record {
      settling = [];
      waiting = event (client_connected []) ∷ [];
      backing_off = [];
      serving = event (client_lost []) ∷ stop ∷ [];
    }
    ∷ []

run-Progressed_example : Progressed library handlers application (
    run library handlers application (bytes "localhost") (pos 1883) (bytes "me") rounds (record {
      service =
          run_events library handlers application []
            (initial_impl library handlers (some initial) broker);
      stop_requested = false;
      retry_delay = 1;
    }))
run-Progressed_example =
    run-Progressed application keeps (bytes "localhost") (pos 1883) (bytes "me") [] rounds false
      (some initial) broker
