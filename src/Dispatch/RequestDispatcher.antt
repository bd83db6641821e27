-- ===== src/Dispatch/RequestDispatcher.antt =====
-- src/Watchlist/Dispatch/RequestDispatcher.hpp and RequestDispatcher.cpp. The parameters are the JSON
-- library, the SQLite library, and the publisher of acknowledgements; `now` is the time that `MakeAck`
-- reads. A call that throws returns the state that it left.
pub mod Acknowledged
pub mod Handled
pub mod Tasks
pub mod Answered
mod Examples
use watchlist.Prelude.{
  ℕ, Bool, true, false, not, ◌||◌, Option, none, some, List, [], ◌∷◌, ◌++◌, value_or, if◌then◌else◌,
  Bytes, bytes, equal,
}
use watchlist.AppState.{AppState, add_received, add_activity, add_ack}
use watchlist.Storage.Item.{
  Failure, validation_error, schema_error, logic_error, invalid_argument, sqlite_error,
  runtime_error, foreign, Result, ok, err, Done,
}
use watchlist.Concurrency.ThreadPool.{ThreadPool, enqueue}
use watchlist.Messaging.Types.{
  MessageType, MqttRequest, MqttAck, ParseResult, to_string, is_valid_client_id,
}
use watchlist.Messaging.Json.{JsonLibrary}
use watchlist.Messaging.Serialize.{serialize_ack, make_ack}
use watchlist.Messaging.Parse.{parse_request}
use watchlist.Dispatch.KeyValueStore.{KvSqlite, and_then, open_store, initialize_store, upsert}

-- The dispatcher with what it refers to: the pool, the database file, the application state if there
-- is one, and the transport of the publisher. `answered` is a trace that the program does not keep:
-- the acknowledgements that were recorded, in their order.
pub record RequestDispatcher (H File Transport : Type 0) : Type 0 where
  pub runtime : ThreadPool MqttRequest
  pub database : File
  pub app_state : Option (AppState H)
  pub transport : Transport
  pub accepting : Bool

-- `std::function` with its target, or without one.
abbrev pub AckPublisher : Type 0 → Type 0
AckPublisher Transport = Option (MqttRequest → MqttAck → Transport → Done × Transport)

-- The classes that derive from `std::runtime_error`.
unfoldable pub is_runtime_error : Failure → Bool
is_runtime_error (runtime_error m) = true
is_runtime_error (schema_error m) = true
is_runtime_error (sqlite_error m) = true
is_runtime_error (validation_error f m) = false
is_runtime_error (logic_error m) = false
is_runtime_error (invalid_argument m) = false
is_runtime_error foreign = false

-- The request that carries an acknowledgement for a payload without one.
abbrev pub route : ParseResult → MqttRequest
route p = record {
  id = p.request_id;
  type = MessageType.execute_script;
  created_utc = [];
  source_client_id = p.source_client_id;
  script_name = none;
  device_id = none;
  payload = none;
  command = none;
  key = none;
  value = none;
  prompt = none;
}

abbrev pub on_state :
    {H : Type 0} → (AppState H → AppState H) → Option (AppState H) → Option (AppState H)
on_state f none = none
on_state f (some s) = some (f s)

module _ {H File Transport : Type 0} (publisher : AckPublisher Transport) where
  publish_with :
      AckPublisher Transport
      → MqttRequest
      → MqttAck
      → RequestDispatcher H File Transport
      → Done × RequestDispatcher H File Transport
  publish_with none request ack s = (ok tt, s)
  publish_with (some send) request ack s =
      if is_valid_client_id request.source_client_id
      then (let (sent, t) = send request ack s.transport in (sent, record s { transport = t }))
      else (ok tt, s)

  unfoldable pub record_and_publish_ack :
      MqttRequest
      → MqttAck
      → RequestDispatcher H File Transport
      → Done × RequestDispatcher H File Transport
  unfolding publish_with
  record_and_publish_ack request ack s =
      publish_with publisher request ack
        (record s { app_state = on_state (add_ack (serialize_ack ack)) s.app_state })

  -- `Dispatch`, without the future that its caller discards.
  unfoldable pub dispatch :
      MqttRequest → RequestDispatcher H File Transport → Done × RequestDispatcher H File Transport
  dispatch request s =
      if not s.accepting
      then (err (runtime_error (bytes "RequestDispatcher is not accepting requests")), s)
      else let queued =
          bytes "Queued " ++ (to_string request.type ++ (bytes " request " ++ request.id)) in
        let (accepted, runtime) = enqueue request s.runtime in
        (
          accepted,
          record s { runtime = runtime; app_state = on_state (add_activity queued) s.app_state },
        )

  unfoldable pub stop_accepting :
      RequestDispatcher H File Transport → RequestDispatcher H File Transport
  stop_accepting s = record s { accepting = false }

  -- `return false` after an acknowledgement, which is not reached when its publication threw.
  pub refuse :
      Done × RequestDispatcher H File Transport → Result Bool × RequestDispatcher H File Transport
  refuse (ok _, s) = (ok false, s)
  refuse (err e, s) = (err e, s)

  shutting_down :
      Bytes
      → MqttRequest
      → RequestDispatcher H File Transport
      → Result Bool × RequestDispatcher H File Transport
  unfolding refuse
  shutting_down now request s = refuse (
      record_and_publish_ack request
        (make_ack now request.id (bytes "error") (bytes "server shutting down")) s)

  -- The `try` block and its `catch` clause.
  after_dispatch :
      Bytes
      → MqttRequest
      → Done × RequestDispatcher H File Transport
      → Result Bool × RequestDispatcher H File Transport
  unfolding shutting_down
  after_dispatch now request (ok _, s) = (ok true, s)
  after_dispatch now request (err e, s) =
      if is_runtime_error e then shutting_down now request s else (err e, s)

  handle_parsed :
      Bytes
      → ParseResult
      → Option MqttRequest
      → RequestDispatcher H File Transport
      → Result Bool × RequestDispatcher H File Transport
  unfolding after_dispatch
  handle_parsed now p none s =
      refuse
        (record_and_publish_ack (route p) (make_ack now p.request_id (bytes "error") p.error) s)
  handle_parsed now p (some request) s =
      if not s.accepting
      then shutting_down now request s
      else after_dispatch now request (dispatch request s)

  unfoldable pub handle_incoming_payload :
      JsonLibrary
      → Bytes
      → Bytes
      → RequestDispatcher H File Transport
      → Result Bool × RequestDispatcher H File Transport
  unfolding handle_parsed
  handle_incoming_payload j now payload s =
      let p = parse_request j payload in
      handle_parsed now p p.request
        (record s { app_state = on_state (add_received payload) s.app_state })

-- The handlers that a worker calls.
abbrev pub has_text : Option Bytes → Bytes → Bool
has_text none text = false
has_text (some s) text = equal s text

unfoldable pub execute_script : Bytes → MqttRequest → MqttAck
execute_script now request =
    if not (has_text request.script_name (bytes "script1"))
    then make_ack now request.id (bytes "error") (bytes "script is not allowlisted")
    else make_ack now request.id (bytes "ok") (bytes "script1 executed")

unfoldable pub send_to_device : Bytes → MqttRequest → MqttAck
send_to_device now request =
    make_ack now request.id (bytes "ok")
      (bytes "sent payload to " ++ value_or request.device_id (bytes "device"))

unfoldable pub cmd_to_device : Bytes → MqttRequest → MqttAck
cmd_to_device now request = make_ack now request.id (bytes "ok") (
    bytes "sent command '"
    ++ (value_or request.command []
        ++ (bytes "' to " ++ value_or request.device_id (bytes "device"))))

unfoldable pub query_ai_prompt : Bytes → MqttRequest → MqttAck
query_ai_prompt now request =
    make_ack now request.id (bytes "ok") (bytes "AI prompt queued: " ++ value_or request.prompt [])

module _ (q : KvSqlite) where
  acknowledged : MqttAck → Done × q.File → Result MqttAck × q.File
  acknowledged ack (ok _, f) = (ok ack, f)
  acknowledged ack (err e, f) = (err e, f)

  -- The parser lets a request of this type through only with a key and a value, so that the
  -- dereferences are defined; `[]` stands for what they would read without.
  unfoldable pub store_database_value : Bytes → MqttRequest → q.File → Result MqttAck × q.File
  unfolding acknowledged
  store_database_value now request f =
      let key = value_or request.key [] in
      let value = value_or request.value [] in
      acknowledged
        (make_ack now request.id (bytes "ok") (bytes "stored key '" ++ (key ++ bytes "'")))
        (and_then q (and_then q (open_store q f) (initialize_store q)) (upsert q key value))

  execute_kind : MessageType → Bytes → MqttRequest → q.File → Result MqttAck × q.File
  unfolding store_database_value
  execute_kind MessageType.execute_script now request f = (ok (execute_script now request), f)
  execute_kind MessageType.send_to_device now request f = (ok (send_to_device now request), f)
  execute_kind MessageType.cmd_to_device now request f = (ok (cmd_to_device now request), f)
  execute_kind MessageType.store_database_value now request f = store_database_value now request f
  execute_kind MessageType.query_ai_prompt now request f = (ok (query_ai_prompt now request), f)

  unfoldable pub execute_worker_request : Bytes → MqttRequest → q.File → Result MqttAck × q.File
  unfolding execute_kind
  execute_worker_request now request f = execute_kind request.type now request f

  module _ {H Transport : Type 0} (publisher : AckPublisher Transport) where
    acknowledge :
        MqttRequest
        → Result MqttAck × q.File
        → RequestDispatcher H q.File Transport
        → Done × RequestDispatcher H q.File Transport
    acknowledge request (ok ack, f) s =
        record_and_publish_ack publisher request ack (record s { database = f })
    acknowledge request (err e, f) s = (err e, record s { database = f })

    -- The task that `Dispatch` enqueues. What it throws ends up in a future that nobody reads.
    unfoldable pub run_task :
        Bytes
        → MqttRequest
        → RequestDispatcher H q.File Transport
        → Done × RequestDispatcher H q.File Transport
    unfolding acknowledge
    run_task now request s = acknowledge request (execute_worker_request now request s.database) s
