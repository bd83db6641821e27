-- ===== src/Dispatch/RequestDispatcher/Tasks.antt =====
-- What the tasks that `Dispatch` of src/Watchlist/Dispatch/RequestDispatcher.cpp enqueues do to the
-- server.
use watchlist.Prelude.{
  ◌+◌, Bool, ◌&&◌, some, List, [], ◌∷◌, ◌++◌, ◌≡◌, refl, ◌∙◌, arith, count, count-append, All,
  All-append, Bytes,
}
use watchlist.Storage.Item.{ok, err, Done, Result}
use watchlist.Messaging.Types.{MessageType, MqttRequest, MqttAck, is_valid_client_id}
use watchlist.Messaging.Serialize.{make_ack}
use watchlist.Dispatch.KeyValueStore.{KvSqlite}
use watchlist.Dispatch.RequestDispatcher.{
  RequestDispatcher, AckPublisher, execute_worker_request, execute_kind, execute_script,
  send_to_device, cmd_to_device, query_ai_prompt, store_database_value, acknowledged, acknowledge,
  run_task,
}
use watchlist.Dispatch.RequestDispatcher.Acknowledged.{
  Delivered, no_publisher, no_address, published, record_and_publish_ack-IsAnsweredWith,
}

-- The requests and acknowledgements that a publisher got, in their order, can be read from its
-- transport.
pub record Logs {Transport : Type 0} (send : MqttRequest → MqttAck → Transport → Done × Transport)
    : Type 0 where
  pub sent : Transport → List (MqttRequest × MqttAck)
  pub sent_lem :
      (r : MqttRequest) (a : MqttAck) (t : Transport) → sent (send r a t).1 ≡ sent t ++ (r, a) ∷ []

-- A test of a client's id together with the id of one of its requests, which holds only of a client
-- that can be answered: on what was received, on a request, and on what was published.
abbrev pub on_pair : (Bytes → Bytes → Bool) → Bytes × Bytes → Bool
on_pair p (client, id) = is_valid_client_id client && p client id

abbrev pub on_id : (Bytes → Bytes → Bool) → MqttRequest → Bool
on_id p r = is_valid_client_id r.source_client_id && p r.source_client_id r.id

-- What was published is counted whatever its client's id is.
abbrev pub on_sent : (Bytes → Bytes → Bool) → MqttRequest × MqttAck → Bool
on_sent p (r, a) = p r.source_client_id a.request_id

abbrev pub IsStore : MqttRequest → Type 0
IsStore r = r.type ≡ MessageType.store_database_value

module _ (q : KvSqlite) where
  -- A request whose task threw before there was an acknowledgement.
  abbrev pub lost_in : MqttRequest → Result MqttAck → List MqttRequest
  lost_in r (ok ack) = []
  lost_in r (err e) = r ∷ []

  -- Every acknowledgement of a worker has the id of its request, and only a store request can throw.
  IsAbout : MqttRequest → Result MqttAck → Type 0
  IsAbout r (ok ack) = ack.request_id ≡ r.id
  IsAbout r (err e) = r.type ≡ MessageType.store_database_value

  acknowledged-IsAbout :
      (r : MqttRequest) (a : MqttAck) (m : Done × q.File)
      → a.request_id ≡ r.id
      → r.type ≡ MessageType.store_database_value
      → IsAbout r (acknowledged q a m).0
  unfolding acknowledged IsAbout
  acknowledged-IsAbout r a (ok _, f) e t = e
  acknowledged-IsAbout r a (err x, f) e t = t

  execute_kind-IsAbout :
      (k : MessageType) (now : Bytes) (r : MqttRequest) (f : q.File)
      → r.type ≡ k
      → IsAbout r (execute_kind q k now r f).0
  unfolding execute_kind IsAbout execute_script send_to_device cmd_to_device query_ai_prompt
      store_database_value make_ack
  execute_kind-IsAbout MessageType.execute_script now r f e = ground arith
  execute_kind-IsAbout MessageType.send_to_device now r f e = refl
  execute_kind-IsAbout MessageType.cmd_to_device now r f e = refl
  execute_kind-IsAbout MessageType.query_ai_prompt now r f e = refl
  execute_kind-IsAbout MessageType.store_database_value now r f e =
      acknowledged-IsAbout r _ _ refl e

  module _ {H Transport : Type 0} (publisher : AckPublisher Transport) where
    -- The tasks that a turn finished, run one after the other, with those that were lost.
    unfoldable pub run_finished :
        Bytes
        → List MqttRequest
        → RequestDispatcher H q.File Transport
        → List MqttRequest × RequestDispatcher H q.File Transport
    run_finished now [] s = ([], s)
    run_finished now (t ∷ ts) s =
        let (lost, s') = run_finished now ts (run_task q publisher now t s).1 in
        (lost_in t (execute_worker_request q now t s.database).0 ++ lost, s')

-- An acknowledgement that is delivered with the id of its request counts as that request.
pub count-Delivered :
    {Transport : Type 0} (send : MqttRequest → MqttAck → Transport → Done × Transport)
    (log : Logs send) (p : Bytes → Bytes → Bool) (r : MqttRequest) (a : MqttAck) (t : Transport)
    (m : Done × Transport)
    → a.request_id ≡ r.id
    → Delivered (some send) r a t m
    → count (on_sent p) (log.sent m.1) ≡ count (on_sent p) (log.sent t) + count (on_id p) (r ∷ [])
unfolding count
count-Delivered send log p r a t m e (no_publisher none_is h) = cc
count-Delivered send log p r a t m e (no_address invalid h) = rw (h, invalid) (omega arith)
count-Delivered send log p r a t m e (published f is_f valid h) =
    let same : f ≡ send = cc in
    rw (h, same, log.sent_lem r a t, count-append (on_sent p) (log.sent t) ((r, a) ∷ []), valid, e)
      refl

module _ (q : KvSqlite) {H Transport : Type 0}
    (send : MqttRequest → MqttAck → Transport → Done × Transport) (log : Logs send) where
  pub record RunsTask (ts lost : List MqttRequest) (s s' : RequestDispatcher H q.File Transport)
      : Type 0 where
    pub same_runtime : s'.runtime ≡ s.runtime
    pub each :
        (p : Bytes → Bytes → Bool)
        → count (on_sent p) (log.sent s'.transport) + count (on_id p) lost
          ≡ count (on_sent p) (log.sent s.transport) + count (on_id p) ts
    pub only_stores : All IsStore lost

  acknowledge-RunsTask :
      (t : MqttRequest) (m : Result MqttAck × q.File) (s : RequestDispatcher H q.File Transport)
      → IsAbout q t m.0
      → RunsTask (t ∷ []) (lost_in q t m.0) s (acknowledge q (some send) t m s).1
  unfolding acknowledge IsAbout count
  acknowledge-RunsTask t (ok ack, f) s about =
      let h = record_and_publish_ack-IsAnsweredWith (some send) t ack (record s { database = f }) in
      record {
        same_runtime = h.same_runtime;
        each = λ p. omega (arith, count-Delivered send log p t ack s.transport _ about h.delivered);
        only_stores = tt;
      }
  acknowledge-RunsTask t (err e, f) s about = record {
    same_runtime = refl;
    each = λ p. refl;
    only_stores = (about, tt);
  }

  pub run_finished-RunsTask :
      (now : Bytes) (ts : List MqttRequest) (s : RequestDispatcher H q.File Transport)
      → RunsTask ts
          (run_finished q (some send) now ts s).0
          s
          (run_finished q (some send) now ts s).1
  unfolding run_finished run_task execute_worker_request count
  run_finished-RunsTask now [] s = record {
    same_runtime = refl;
    each = λ p. refl;
    only_stores = tt;
  }
  run_finished-RunsTask now (t ∷ ts) s =
      let m = execute_worker_request q now t s.database in
      let one = acknowledge-RunsTask t m s (execute_kind-IsAbout q t.type now t s.database refl) in
      let more = run_finished-RunsTask now ts (acknowledge q (some send) t m s).1 in
      record {
        same_runtime = more.same_runtime ∙ one.same_runtime;
        each = λ p. omega (
          arith,
          one.each p,
          more.each p,
          count-append (on_id p) (lost_in q t m.0)
              (run_finished q (some send) now ts (acknowledge q (some send) t m s).1).0,
        );
        only_stores = All-append IsStore (lost_in q t m.0) _ one.only_stores more.only_stores;
      }
