-- ===== src/Concurrency/EventLoopGenerator/Producers.antt =====
-- `consume_sequence` of src/Utils/Concurrency/EventLoopGenerator.hpp, the thread of a producer, and the
-- interleavings of all threads.
use watchlist.Prelude.{
  ℕ, zero, suc, Bool, true, false, Option, none, some, List, [], ◌∷◌, ◌++◌, if◌then◌else◌, Bytes,
  ◌==◌,
}
use watchlist.Concurrency.EventLoopGenerator.{
  EventStatus, executed, failed, SubmissionStatus, accepted, submission_stopped,
  submission_exhausted, SequenceStatus, sequence_cancelled, sequence_failed, EventResult,
  SubmissionResult, SequenceResult, Producer, EventLoopGenerator, schedule_event, take_event,
  settle_event, process_event_sequence, close_admission, request_stops,
}

abbrev pub is_accepted : SubmissionStatus → Bool
is_accepted accepted = true
is_accepted submission_stopped = false
is_accepted submission_exhausted = false

abbrev pub is_thrown : {E : Type 0} → Option E → SequenceStatus → SequenceStatus
is_thrown none status = status
is_thrown (some e) status = sequence_failed

abbrev pub step_status : SequenceStatus → EventStatus → SequenceStatus
step_status status failed = sequence_failed
step_status status executed = status
step_status sequence_failed _ = sequence_failed
step_status status _ = sequence_cancelled

module _ {A E : Type 0} where
  unfoldable pub after_submission :
      List (Bytes × A)
      → Producer A E
      → SubmissionResult A E × EventLoopGenerator A E
      → Producer A E × EventLoopGenerator A E
  after_submission rest p (r, s) =
      let p' = record p { generator = rest; submissions = p.submissions ++ r ∷ [] } in
      if is_accepted r.status
      then (p', s)
      else (record p' { status = sequence_cancelled; generating = false }, s)

  -- One round of the loop over the generator.
  unfoldable pub generate :
      List (Bytes × A)
      → Producer A E
      → EventLoopGenerator A E
      → Producer A E × EventLoopGenerator A E
  generate [] p s = (
    record p {
      generating = false;
      status = is_thrown p.throws p.status;
      producer_exception = p.throws;
    },
    s,
  )
  generate ((name, action) ∷ rest) p s =
      if p.stop_requested
      then (record p { status = sequence_cancelled; generating = false }, s)
      else after_submission rest p (schedule_event name action s)

  -- The value of a promise, once it was given.
  unfoldable pub find_settled : ℕ → List (EventResult A E) → Option (EventResult A E)
  find_settled id [] = none
  find_settled id (r ∷ rs) = if r.id == id then some r else find_settled id rs

  unfoldable pub value_of : SubmissionResult A E → List (EventResult A E) → Option (EventResult A E)
  unfolding find_settled
  value_of r settled = elim r.completion [ some v ↦ some v | none ↦ find_settled r.id settled ]

  -- `get` of every completion: none while one of them is not ready.
  unfoldable pub get_all :
      List (SubmissionResult A E) → List (EventResult A E) → Option (List (EventResult A E))
  unfolding value_of
  get_all [] settled = some []
  get_all (r ∷ rs) settled =
      let rest = get_all rs settled in
      elim (value_of r settled) [
        | none ↦ none
        | some v ↦ elim rest [ none ↦ none | some vs ↦ some (v ∷ vs) ]
      ]

  unfoldable pub final_status : SequenceStatus → List (EventResult A E) → SequenceStatus
  final_status status [] = status
  final_status status (r ∷ rs) = final_status (step_status status r.status) rs

  unfoldable pub settle_producer :
      Producer A E → Option (SequenceResult A E) → Option (List (EventResult A E)) → Producer A E
  unfolding final_status
  settle_producer p (some r) values = p
  settle_producer p none none = p
  settle_producer p none (some vs) = record p {
    completion = some (record {
      status = final_status p.status vs;
      events = vs;
      producer_exception = p.producer_exception;
    });
  }

  -- A step of one producer: it generates, or waits for its completions and settles.
  unfoldable pub produce :
      Producer A E → EventLoopGenerator A E → Producer A E × EventLoopGenerator A E
  produce p s =
      if p.generating
      then generate p.generator p s
      else (settle_producer p p.completion (get_all p.submissions s.settled), s)

  -- The producer at an index.
  unfoldable pub produce_at :
      ℕ
      → List (Producer A E)
      → EventLoopGenerator A E
      → List (Producer A E) × EventLoopGenerator A E
  unfolding produce
  produce_at i [] s = ([], s)
  produce_at zero (p ∷ ps) s = let (p', s') = produce p s in (p' ∷ ps, s')
  produce_at (suc i) (p ∷ ps) s = let (ps', s') = produce_at i ps s in (p ∷ ps', s')

  unfoldable pub with_producers :
      List (Producer A E) × EventLoopGenerator A E → EventLoopGenerator A E
  with_producers (ps, s) = record s { producers = ps }

module _ (A E : Type 0) where
  pub data Action : Type 0 where
    schedules : Bytes → A → Action
    processes : List (Bytes × A) → Option E → Action
    takes : Action
    settles : Option E → Action
    produces : ℕ → Action
    closes : Action
    stops_producers : Action

module _ {A E : Type 0} where
  unfoldable pub act : Action A E → EventLoopGenerator A E → EventLoopGenerator A E
  unfolding with_producers
  act (schedules name action) s = (schedule_event name action s).1
  act (processes generator throws) s = (process_event_sequence generator throws s).1
  act takes s = take_event s.worker s
  act (settles thrown) s = settle_event thrown s.worker s
  act (produces i) s = with_producers (produce_at i s.producers s)
  act closes s = close_admission s
  act stops_producers s = request_stops s

  unfoldable pub act_all : List (Action A E) → EventLoopGenerator A E → EventLoopGenerator A E
  unfolding act
  act_all [] s = s
  act_all (a ∷ later) s = act_all later (act a s)
