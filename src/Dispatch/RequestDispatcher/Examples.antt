-- ===== src/Dispatch/RequestDispatcher/Examples.antt =====
-- A server with one worker that gets a good request and a text that is none.
use watchlist.Prelude.{ℕ, true, false, some, List, [], ◌∷◌, ◌++◌, refl, Bytes, bytes, lookup}
use watchlist.AppState
use watchlist.AppState.{AppState, add_received}
use watchlist.Storage.Item.{ok, Done}
use watchlist.Concurrency.ThreadPool.{waiting}
use watchlist.Messaging.Types.{MqttRequest, MqttAck}
use watchlist.Messaging.Parse.{parse_request}
use watchlist.Messaging.Examples.FlatJson.{flat_json}
use watchlist.Dispatch.KeyValueStore.{KvSqlite}
use watchlist.Dispatch.RequestDispatcher.{
  RequestDispatcher, AckPublisher, on_state, handle_incoming_payload,
}
use watchlist.Dispatch.RequestDispatcher.Handled.{Outcome, handle_incoming_payload-Outcome}
use watchlist.Dispatch.RequestDispatcher.Tasks.{Logs}
use watchlist.Dispatch.RequestDispatcher.Answered.{
  Step, incoming, turned, stopped_accepting, pool_stopped, Served,
}

abbrev table : KvSqlite
table = record {
  File = List (Bytes × Bytes);
  open_or_create = λ f. (ok tt, f);
  create_table = λ f. (ok tt, f);
  insert_or_update = λ k v f. (ok tt, (k, v) ∷ f);
  select_value = λ k f. ok (lookup k f);
}

abbrev Sent : Type 0
Sent = List (MqttRequest × MqttAck)

abbrev send : MqttRequest → MqttAck → Sent → Done × Sent
send r a sent = (ok tt, sent ++ (r, a) ∷ [])

abbrev publisher : AckPublisher Sent
publisher = some send

log : Logs send
log = record { sent = λ t. t; sent_lem = λ r a t. refl }

abbrev idle : RequestDispatcher ℕ table.File Sent
idle = record {
  runtime = record { workers = waiting ∷ []; tasks = []; stop = false };
  database = [];
  app_state = some AppState.initial;
  transport = [];
  accepting = true;
}

abbrev payload : Bytes
payload =
    bytes
      "{\"id\":\"7\",\"type\":\"store_database_value\",\"created_utc\":\"t\",\"source_client_id\":\"c\",\"key\":\"k\",\"value\":\"v\"}"

abbrev now : Bytes
now = bytes "2024-01-01T00:00:00Z"

handle_incoming_payload-Outcome_example :
    Outcome publisher now
      (parse_request flat_json payload)
      (on_state (add_received payload) idle.app_state)
      idle
      (handle_incoming_payload publisher flat_json now payload idle)
handle_incoming_payload-Outcome_example =
    handle_incoming_payload-Outcome publisher flat_json now payload idle

abbrev steps : List Step
steps =
    incoming now payload
    ∷ incoming now (bytes "[")
    ∷ turned now 0
    ∷ stopped_accepting
    ∷ incoming now payload
    ∷ pool_stopped
    ∷ turned now 0
    ∷ turned now 0
    ∷ []

abbrev start : Served table ℕ Sent
start = record { server = idle; received = []; lost = [] }
