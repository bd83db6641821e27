-- ===== src/Dispatch/RequestDispatcher/Acknowledged.antt =====
-- What becomes of an acknowledgement in src/Watchlist/Dispatch/RequestDispatcher.cpp.
use watchlist.Prelude.{Bool, true, false, Option, none, some, ◌≡◌, refl, ap, Bool-cases, inl, inr}
use watchlist.Storage.Item.{ok, err, Done, Result}
use watchlist.AppState.{AppState, add_ack}
use watchlist.Messaging.Types.{MqttRequest, MqttAck, is_valid_client_id}
use watchlist.Messaging.Serialize.{serialize_ack}
use watchlist.Dispatch.RequestDispatcher.{
  RequestDispatcher, AckPublisher, on_state, publish_with, record_and_publish_ack, refuse,
}

module _ {Transport : Type 0} (publisher : AckPublisher Transport) where
  -- What becomes of an acknowledgement at the transport: without a publisher, or without a client id
  -- that is fit for a topic, nothing; else the publisher gets it once, with the request, and its result
  -- is the result.
  pub data Delivered (request : MqttRequest) (ack : MqttAck) (t : Transport) (r : Done × Transport)
      : Type 0 where
    no_publisher : publisher ≡ none → r ≡ (ok tt, t) → Delivered request ack t r
    no_address :
        is_valid_client_id request.source_client_id ≡ false
        → r ≡ (ok tt, t)
        → Delivered request ack t r
    published :
        (send : MqttRequest → MqttAck → Transport → Done × Transport)
        → publisher ≡ some send
        → is_valid_client_id request.source_client_id ≡ true
        → r ≡ send request ack t
        → Delivered request ack t r

-- What the call returns after an acknowledgement whose publication ended so.
pub IsRefusal : Done → Result Bool → Type 0
IsRefusal (ok _) r = r ≡ ok false
IsRefusal (err e) r = r ≡ err e

module _ {H File Transport : Type 0} (publisher : AckPublisher Transport) where
  -- The pool, the flag and the database are as before, the acknowledgement was recorded in the
  -- application state `log`, and it was delivered to the transport as it was before.
  pub record IsAnsweredWith (request : MqttRequest) (ack : MqttAck) (log : Option (AppState H))
      (before after : RequestDispatcher H File Transport) (d : Done) : Type 0 where
    pub same_runtime : after.runtime ≡ before.runtime
    pub same_accepting : after.accepting ≡ before.accepting
    pub same_database : after.database ≡ before.database
    pub recorded : after.app_state ≡ on_state (add_ack (serialize_ack ack)) log
    pub delivered : Delivered publisher request ack before.transport (d, after.transport)

  publish_with-Delivered :
      (o : AckPublisher Transport) (r : MqttRequest) (a : MqttAck)
      (s : RequestDispatcher H File Transport)
      → publisher ≡ o
      → let m = publish_with publisher o r a s in
        (m.1 ≡ record s { transport = m.1.transport })
        × Delivered publisher r a s.transport (m.0, m.1.transport)
  unfolding publish_with
  publish_with-Delivered none r a s e = (refl, no_publisher e refl)
  publish_with-Delivered (some send) r a s e =
      elim (Bool-cases (is_valid_client_id r.source_client_id)) [
        | inl v ↦ rw v (refl, published send e v refl)
        | inr v ↦ rw v (refl, no_address v refl)
      ]

  pub record_and_publish_ack-IsAnsweredWith :
      (r : MqttRequest) (a : MqttAck) (s : RequestDispatcher H File Transport)
      → IsAnsweredWith r a s.app_state s
          (record_and_publish_ack publisher r a s).1
          (record_and_publish_ack publisher r a s).0
  unfolding record_and_publish_ack
  record_and_publish_ack-IsAnsweredWith r a s =
      let (same, delivered) = publish_with-Delivered publisher r a _ refl in
      record {
        same_runtime = ap (λ (x : RequestDispatcher H File Transport). x.runtime) same;
        same_accepting = ap (λ (x : RequestDispatcher H File Transport). x.accepting) same;
        same_database = ap (λ (x : RequestDispatcher H File Transport). x.database) same;
        recorded = ap (λ (x : RequestDispatcher H File Transport). x.app_state) same;
        delivered = delivered;
      }

  refuse-same :
      (m : Done × RequestDispatcher H File Transport)
      → ((refuse publisher m).1 ≡ m.1) × IsRefusal m.0 (refuse publisher m).0
  unfolding refuse IsRefusal
  refuse-same (ok _, s) = (refl, refl)
  refuse-same (err e, s) = (refl, refl)

  -- The state in which the application state is `log`.
  abbrev pub with_log :
      Option (AppState H) → RequestDispatcher H File Transport → RequestDispatcher H File Transport
  with_log log s = record s { app_state = log }

  pub refuse-IsAnsweredWith :
      (r : MqttRequest) (a : MqttAck) (log : Option (AppState H))
      (s : RequestDispatcher H File Transport)
      → let m = record_and_publish_ack publisher r a (with_log log s) in
        IsRefusal m.0 (refuse publisher m).0 × IsAnsweredWith r a log s (refuse publisher m).1 m.0
  refuse-IsAnsweredWith r a log s =
      let m = record_and_publish_ack publisher r a (with_log log s) in
      let h = record_and_publish_ack-IsAnsweredWith r a (with_log log s) in
      let (same, refusal) = refuse-same m in
      (
        refusal,
        rw same (record {
          same_runtime = h.same_runtime;
          same_accepting = h.same_accepting;
          same_database = h.same_database;
          recorded = h.recorded;
          delivered = h.delivered;
        }),
      )
