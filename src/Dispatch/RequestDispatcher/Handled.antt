-- ===== src/Dispatch/RequestDispatcher/Handled.antt =====
-- What becomes of one payload.
use watchlist.Prelude.{
  Bool, true, false, not, if◌then◌else◌, ◌&&◌, Option, none, some, [], ◌∷◌, ◌++◌, ◌≡◌, ◌⊎◌, refl,
  arith, Bool-cases, inl, inr, Bytes, bytes,
}
use watchlist.Storage.Item.{ok, err, Done, Result, runtime_error}
use watchlist.Concurrency.ThreadPool.{ThreadPool, enqueue}
use watchlist.AppState.{AppState, add_received, add_activity}
use watchlist.Messaging.Types.{to_string, MqttRequest, ParseResult}
use watchlist.Messaging.Json.{JsonLibrary}
use watchlist.Messaging.Serialize.{make_ack}
use watchlist.Messaging.Parse.{parse_request}
use watchlist.Messaging.Parse.Validation.{IsComplete, IsVerdict, parse_request-IsVerdict}
use watchlist.Dispatch.RequestDispatcher.{
  RequestDispatcher, AckPublisher, on_state, route, dispatch, shutting_down, after_dispatch,
  handle_parsed, handle_incoming_payload, is_runtime_error,
}
use watchlist.Dispatch.RequestDispatcher.Acknowledged.{
  IsAnsweredWith, IsRefusal, with_log, refuse-IsAnsweredWith,
}

enqueue_when :
    (request : MqttRequest) (pool : ThreadPool MqttRequest)
    → ((pool.stop ≡ true)
        × (enqueue request pool
            ≡ (err (runtime_error (bytes "ThreadPoolManager is stopped")), pool)))
      ⊎ ((pool.stop ≡ false)
          × (enqueue request pool ≡ (ok tt, record pool { tasks = pool.tasks ++ request ∷ [] })))
unfolding enqueue
enqueue_when request pool = elim (Bool-cases pool.stop) [
  | inl e ↦ inl (e, ground (arith, e))
  | inr e ↦ inr (e, ground (arith, e))
]

-- The line that `Dispatch` writes.
abbrev queued_line : MqttRequest → Bytes
queued_line request =
    bytes "Queued " ++ (to_string request.type ++ (bytes " request " ++ request.id))

module _ {H File Transport : Type 0} (publisher : AckPublisher Transport) where
  -- The outcome of a payload. `p` is what the parser made of it, and `heard` the application state
  -- in which the payload is recorded as received.
  pub data Outcome (now : Bytes) (p : ParseResult) (heard : Option (AppState H))
      (s : RequestDispatcher H File Transport)
      (r : Result Bool × RequestDispatcher H File Transport) : Type 0 where
    queued :
        (request : MqttRequest)
        → p.request ≡ some request
        → p.request_id ≡ request.id
        → p.source_client_id ≡ request.source_client_id
        → IsComplete request
        → s.accepting ≡ true
        → s.runtime.stop ≡ false
        → r ≡ (
          ok true,
          record s {
            runtime = record s.runtime { tasks = s.runtime.tasks ++ request ∷ [] };
            app_state = on_state (add_activity (queued_line request)) heard;
          },
        )
        → Outcome now p heard s r
    rejected :
        (d : Done)
        → p.request ≡ none
        → IsRefusal d r.0
        → IsAnsweredWith publisher
            (route p)
            (make_ack now p.request_id (bytes "error") p.error)
            heard
            s
            r.1
            d
        → Outcome now p heard s r
    too_late :
        (d : Done) (request : MqttRequest)
        → p.request ≡ some request
        → p.request_id ≡ request.id
        → p.source_client_id ≡ request.source_client_id
        → (s.accepting && not s.runtime.stop) ≡ false
        → IsRefusal d r.0
        → IsAnsweredWith publisher request
            (make_ack now request.id (bytes "error") (bytes "server shutting down"))
            (if s.accepting then on_state (add_activity (queued_line request)) heard else heard)
            s
            r.1
            d
        → Outcome now p heard s r

  shutting_down-Outcome :
      (now : Bytes) (p : ParseResult) (request : MqttRequest) (heard log : Option (AppState H))
      (s : RequestDispatcher H File Transport)
      → p.request ≡ some request
      → p.request_id ≡ request.id
      → p.source_client_id ≡ request.source_client_id
      → (s.accepting && not s.runtime.stop) ≡ false
      → (if s.accepting then on_state (add_activity (queued_line request)) heard else heard) ≡ log
      → Outcome now p heard s (shutting_down publisher now request (with_log publisher log s))
  unfolding shutting_down
  shutting_down-Outcome now p request heard log s e i c l g =
      let (refusal, answer) =
        refuse-IsAnsweredWith publisher request
          (make_ack now request.id (bytes "error") (bytes "server shutting down")) log s in
      too_late _ request e i c l refusal (rw g answer)

  dispatch_open :
      (request : MqttRequest) (s : RequestDispatcher H File Transport)
      → s.accepting ≡ true
      → dispatch publisher request s ≡ (
        (enqueue request s.runtime).0,
        record s {
          runtime = (enqueue request s.runtime).1;
          app_state = on_state (add_activity (queued_line request)) s.app_state;
        },
      )
  unfolding dispatch
  dispatch_open request s a = ground (arith, a)

  dispatch-Outcome :
      (now : Bytes) (p : ParseResult) (request : MqttRequest) (heard : Option (AppState H))
      (s : RequestDispatcher H File Transport)
      → p.request ≡ some request
      → p.request_id ≡ request.id
      → p.source_client_id ≡ request.source_client_id
      → IsComplete request
      → s.accepting ≡ true
      → Outcome now p heard s (
          after_dispatch publisher now request
            (dispatch publisher request (with_log publisher heard s)))
  unfolding after_dispatch is_runtime_error
  dispatch-Outcome now p request heard s e i c complete a = elim (enqueue_when request s.runtime) [
    | inl (stop, refused) ↦
        simp (dispatch_open request (with_log publisher heard s) a, refused)
          (shutting_down-Outcome now p request heard _ s e i c (ground arith) (rw a refl))
    | inr (go, accepted) ↦
        simp (dispatch_open request (with_log publisher heard s) a, accepted)
          (queued request e i c complete a go refl)
  ]

  handle_parsed_open :
      (now : Bytes) (p : ParseResult) (request : MqttRequest)
      (s : RequestDispatcher H File Transport)
      → s.accepting ≡ true
      → handle_parsed publisher now p (some request) s
        ≡ after_dispatch publisher now request (dispatch publisher request s)
  unfolding handle_parsed
  handle_parsed_open now p request s a = ground (arith, a)

  handle_parsed_closed :
      (now : Bytes) (p : ParseResult) (request : MqttRequest)
      (s : RequestDispatcher H File Transport)
      → s.accepting ≡ false
      → handle_parsed publisher now p (some request) s ≡ shutting_down publisher now request s
  unfolding handle_parsed
  handle_parsed_closed now p request s a = ground (arith, a)

  handle_parsed-Outcome :
      (now : Bytes) (p : ParseResult) (o : Option MqttRequest) (heard : Option (AppState H))
      (s : RequestDispatcher H File Transport)
      → p.request ≡ o
      → IsVerdict o p
      → Outcome now p heard s (handle_parsed publisher now p o (with_log publisher heard s))
  unfolding handle_parsed
  handle_parsed-Outcome now p none heard s e v =
      let (refusal, answer) =
        refuse-IsAnsweredWith publisher (route p)
          (make_ack now p.request_id (bytes "error") p.error) heard s in
      rejected _ e refusal answer
  handle_parsed-Outcome now p (some request) heard s e v =
      let (complete, _, i, c) = v in
      elim (Bool-cases s.accepting) [
        | inl a ↦
            rw (handle_parsed_open now p request (with_log publisher heard s) a)
              (dispatch-Outcome now p request heard s e i c complete a)
        | inr a ↦
            rw (handle_parsed_closed now p request (with_log publisher heard s) a)
              (shutting_down-Outcome now p request heard heard s e i c (rw a refl) (rw a refl))
      ]

  -- A payload is recorded in the application state as received, and has one of three outcomes. A
  -- complete request that arrives while the dispatcher and the pool take work is put at the end of the
  -- pool's queue with an activity line, nothing else changes, and the call returns true. A payload
  -- without a complete request leaves the queue, the flag and the database as they were, and is
  -- answered by an error acknowledgement with the id and the error of the parser. A complete request
  -- that comes after `StopAccepting` or after the stop of the pool is answered in the same way, with
  -- the text of a server that shuts down. Such an answer is recorded in the application state, and the
  -- publisher gets it once, if there is a publisher and the client id is valid, and not at all if not;
  -- the call then returns false, or throws what the publisher threw.
  pub handle_incoming_payload-Outcome :
      (j : JsonLibrary) (now payload : Bytes) (s : RequestDispatcher H File Transport)
      → Outcome now
          (parse_request j payload)
          (on_state (add_received payload) s.app_state)
          s
          (handle_incoming_payload publisher j now payload s)
  unfolding handle_incoming_payload
  handle_incoming_payload-Outcome j now payload s =
      let p : ParseResult = parse_request j payload in
      handle_parsed-Outcome now p p.request _ s refl (parse_request-IsVerdict j payload)
