-- ===== src/Concurrency/EventLoopGenerator.antt =====
-- src/Utils/Concurrency/EventLoopGenerator.hpp. `A` is the type of actions and `E` that of exceptions. An
-- action of the model is one critical section of the queue's mutex, or the work between two of them, so
-- that a list of actions is an interleaving; how the call of an event's action ends is chosen there. A
-- generator is the list of what it yields, and whether it throws at its end. A future is the id of its
-- event, with its value if the submission was rejected; `settled` holds the values that promises were
-- given, in the order in which they were.
pub mod Producers
pub mod Order
pub mod Drain
pub mod Generated
pub mod Gathered
pub mod Sequence
mod Examples
use watchlist.Prelude.{
  ℕ, zero, suc, ◌+◌, ◌-◌, ◌^◌, Bool, true, false, not, ◌&&◌, Option, none, some, List, [], ◌∷◌,
  ◌++◌, if◌then◌else◌, is_empty, Bytes, ◌==◌,
}

pub data EventStatus : Type 0 where
  executed failed rejected_stopped rejected_id_exhausted : EventStatus

pub data SubmissionStatus : Type 0 where
  accepted submission_stopped submission_exhausted : SubmissionStatus

pub data SequenceStatus : Type 0 where
  sequence_completed sequence_cancelled sequence_failed : SequenceStatus

abbrev pub max_event_id : ℕ
max_event_id = 2 ^ 64 - 1

module _ (A E : Type 0) where
  pub record GeneratedEvent : Type 0 where
    pub id : ℕ
    pub name : Bytes
    pub action : A

  pub record EventResult : Type 0 where
    pub id : ℕ
    pub status : EventStatus
    pub exception : Option E

  pub record SubmissionResult : Type 0 where
    pub id : ℕ
    pub status : SubmissionStatus
    -- The value of a completion that was set at once.
    pub completion : Option EventResult

  pub record SequenceResult : Type 0 where
    pub status : SequenceStatus
    pub events : List EventResult
    pub producer_exception : Option E

  -- The worker before its critical section, in the call of an action, and after its return.
  pub data Worker : Type 0 where
    waiting : Worker
    running : GeneratedEvent → Worker
    exited : Worker

  -- A producer thread: what its generator has left to yield, and what it throws at the end.
  pub record Producer : Type 0 where
    pub generator : List (Bytes × A)
    pub throws : Option E
    pub stop_requested : Bool
    pub generating : Bool
    pub submissions : List SubmissionResult
    pub status : SequenceStatus
    pub producer_exception : Option E
    pub completion : Option SequenceResult

  pub record EventLoopGenerator : Type 0 where
    pub events : List GeneratedEvent
    pub last_issued_event_id : ℕ
    pub accepting : Bool
    pub worker : Worker
    pub producers : List Producer
    pub settled : List EventResult

abbrev pub outcome : {E : Type 0} → Option E → EventStatus
outcome none = executed
outcome (some e) = failed

module _ {A E : Type 0} where
  abbrev pub initial_generator_loop : ℕ → EventLoopGenerator A E
  initial_generator_loop last = record {
    events = [];
    last_issued_event_id = last;
    accepting = true;
    worker = waiting;
    producers = [];
    settled = [];
  }

  abbrev rejection : EventStatus → Option (EventResult A E)
  rejection status = some (record { id = 0; status = status; exception = none })

  unfoldable pub issue :
      Bytes → A → EventLoopGenerator A E → SubmissionResult A E × EventLoopGenerator A E
  issue name action s =
      let id = suc s.last_issued_event_id in
      (
        record { id = id; status = accepted; completion = none },
        record s {
          last_issued_event_id = id;
          events = s.events ++ record { id = id; name = name; action = action } ∷ [];
        },
      )

  unfoldable pub schedule_event :
      Bytes → A → EventLoopGenerator A E → SubmissionResult A E × EventLoopGenerator A E
  schedule_event name action s =
      if not s.accepting
      then (
        record { id = 0; status = submission_stopped; completion = rejection rejected_stopped },
        s,
      )
      else if s.last_issued_event_id == max_event_id
      then (
        record {
          id = 0;
          status = submission_exhausted;
          completion = rejection rejected_id_exhausted;
        },
        s,
      )
      else issue name action s

  unfoldable pub take_front :
      List (GeneratedEvent A E) → Bool → EventLoopGenerator A E → EventLoopGenerator A E
  take_front [] accepting s = if accepting then s else record s { worker = exited }
  take_front (e ∷ es) accepting s = record s { events = es; worker = running e }

  -- The worker's critical section.
  unfoldable pub take_event : Worker A E → EventLoopGenerator A E → EventLoopGenerator A E
  unfolding take_front
  take_event waiting s = take_front s.events s.accepting s
  take_event (running e) s = s
  take_event exited s = s

  -- The action of the running event returns, or throws.
  unfoldable pub settle_event :
      Option E → Worker A E → EventLoopGenerator A E → EventLoopGenerator A E
  settle_event thrown waiting s = s
  settle_event thrown (running e) s = record s {
    worker = waiting;
    settled = s.settled ++ record { id = e.id; status = outcome thrown; exception = thrown } ∷ [];
  }
  settle_event thrown exited s = s

  -- `process_event_sequence`: the new producer, or none. Its future is that of the producer.
  unfoldable pub process_event_sequence :
      List (Bytes × A)
      → Option E
      → EventLoopGenerator A E
      → Option (SequenceResult A E) × EventLoopGenerator A E
  process_event_sequence generator throws s =
      if not s.accepting
      then (
        some (record { status = sequence_cancelled; events = []; producer_exception = none }),
        s,
      )
      else (
        none,
        record s {
          producers =
              s.producers
              ++ record {
                generator = generator;
                throws = throws;
                stop_requested = false;
                generating = true;
                submissions = [];
                status = sequence_completed;
                producer_exception = none;
                completion = none;
              }
                ∷ [];
        },
      )

  -- The two halves of `shutdown` under its mutexes: admission closes, and producers are told to stop.
  unfoldable pub close_admission : EventLoopGenerator A E → EventLoopGenerator A E
  close_admission s = record s { accepting = false }

  unfoldable pub stop_all : List (Producer A E) → List (Producer A E)
  stop_all [] = []
  stop_all (p ∷ ps) = record p { stop_requested = true } ∷ stop_all ps

  unfoldable pub request_stops : EventLoopGenerator A E → EventLoopGenerator A E
  unfolding stop_all
  request_stops s = record s { producers = stop_all s.producers }
