-- ===== src/Dispatch/RequestDispatcher/Answered.antt =====
-- What becomes of all payloads, in every interleaving of the transport's thread, the workers and the
-- shutdown.
use watchlist.Prelude.{ℕ, ◌+◌, Bool, List, [], ◌∷◌, ◌++◌, ◌≡◌, count, All, Bytes}
use watchlist.Concurrency.ThreadPool.{ThreadPool, turn_at, worker_turn, stop_workers}
use watchlist.Concurrency.ThreadPool.Order.{in_work}
use watchlist.Messaging.Types.{MqttRequest, MqttAck}
use watchlist.AppState.{AppState}
use watchlist.Storage.Item.{Done}
use watchlist.Messaging.Json.{JsonLibrary}
use watchlist.Messaging.Parse.{parse_request}
use watchlist.Dispatch.KeyValueStore.{KvSqlite}
use watchlist.Dispatch.RequestDispatcher.{
  RequestDispatcher, AckPublisher, handle_incoming_payload, stop_accepting,
}
use watchlist.Dispatch.RequestDispatcher.Tasks.{
  on_id, on_pair, on_sent, Logs, IsStore, run_finished,
}

-- The steps of the server; `now` is the time that a step reads. A payload is handled in one step, and
-- so is what a task does, when the worker is at its end.
pub data Step : Type 0 where
  incoming : Bytes → Bytes → Step
  turned : Bytes → ℕ → Step
  stopped_accepting : Step
  pool_stopped : Step

module _ (q : KvSqlite) where
  -- A server with the client's id and the id that were read from each payload so far, and the requests
  -- that were lost.
  pub record Served (H Transport : Type 0) : Type 0 where
    pub server : RequestDispatcher H q.File Transport
    pub received : List (Bytes × Bytes)
    pub lost : List MqttRequest

  module _ {H Transport : Type 0} (publisher : AckPublisher Transport) where
    module _ (j : JsonLibrary) where
      unfoldable pub serve : Step → Served H Transport → Served H Transport
      serve (incoming now payload) r =
          let p = parse_request j payload in
          record r {
            server = (handle_incoming_payload publisher j now payload r.server).1;
            received = r.received ++ (p.source_client_id, p.request_id) ∷ [];
          }
      serve (turned now i) r =
          let pool = r.server.runtime in
          let (lost, s) =
            run_finished q publisher now (turn_at i pool.stop pool.tasks pool.workers).finished
              (record r.server { runtime = worker_turn i pool }) in
          record r { server = s; lost = r.lost ++ lost }
      serve stopped_accepting r = record r { server = stop_accepting publisher r.server }
      serve pool_stopped r = record r {
        server = record r.server { runtime = stop_workers r.server.runtime };
      }

      unfoldable pub serve_all : List Step → Served H Transport → Served H Transport
      serve_all [] r = r
      serve_all (t ∷ ts) r = serve_all ts (serve t r)

module _ (q : KvSqlite) {H Transport : Type 0}
    (send : MqttRequest → MqttAck → Transport → Done × Transport) (log : Logs send) where
  -- For every test of a client's id with an id of its requests: as many acknowledgements were
  -- published as payloads with a valid client id were received, less the requests of such clients
  -- that wait, are in work or were lost; and what was lost is a store request.
  pub record IsAnswered (r : Served q H Transport) : Type 0 where
    pub each :
        (p : Bytes → Bytes → Bool)
        → count (on_pair p) r.received
          ≡ count (on_sent p) (log.sent r.server.transport)
            + count (on_id p) r.server.runtime.tasks
            + count (on_id p) (in_work r.server.runtime.workers)
            + count (on_id p) r.lost
    pub only_stores : All IsStore r.lost
