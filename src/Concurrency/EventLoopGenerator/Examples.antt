-- ===== src/Concurrency/EventLoopGenerator/Examples.antt =====
-- A run of the generator loop, and its theorems at that run. An exception is a number.
use watchlist.Prelude.{
  ℕ, ◌+◌, ◌-◌, ◌≤◌, Option, ◌++◌, none, some, List, [], ◌∷◌, ◌≡◌, refl, arith, length, bytes,
}
use watchlist.Concurrency.EventLoopGenerator.{
  SequenceStatus, sequence_failed, exited, Producer, EventLoopGenerator, initial_generator_loop,
  max_event_id, schedule_event, issue, take_event, take_front, settle_event, process_event_sequence,
}
use watchlist.Concurrency.EventLoopGenerator.Producers.{
  Action, schedules, processes, takes, settles, produces, closes, act, act_all, produce_at, produce,
  generate, after_submission, with_producers, settle_producer, get_all, value_of, find_settled,
  final_status,
}
use watchlist.Concurrency.EventLoopGenerator.Order.Acts.{act_all-issued}
use watchlist.Concurrency.EventLoopGenerator.Order.{numbers, settled_ids, line}
use watchlist.Concurrency.EventLoopGenerator.Drain.{rounds, closes-drains}

-- A submission, a sequence of two events, and the worker, which executes two of them; one throws.
abbrev before : List (Action (Unit {0}) ℕ)
before =
    schedules (bytes "one") tt
    ∷ processes ((bytes "two", tt) ∷ (bytes "three", tt) ∷ []) none
    ∷ produces 0
    ∷ takes
    ∷ produces 0
    ∷ settles none
    ∷ takes
    ∷ settles (some 7)
    ∷ []

abbrev busy : EventLoopGenerator (Unit {0}) ℕ
busy = act_all before (initial_generator_loop 40)

abbrev two_outcomes : List (Option ℕ)
two_outcomes = none ∷ some 9 ∷ []

busy_ids : line busy ≡ 41 ∷ 42 ∷ 43 ∷ []
unfolding act_all act schedule_event issue take_event take_front settle_event process_event_sequence
    bytes with_producers produce_at produce generate after_submission
busy_ids = refl

one_left : length busy.events ≤ length two_outcomes
unfolding act_all act schedule_event issue take_event take_front settle_event process_event_sequence
    bytes with_producers produce_at produce generate after_submission
one_left = omega arith

-- At the largest id a submission is rejected.
exhausted :
    (act_all before (initial_generator_loop (max_event_id - 1))).last_issued_event_id ≡ max_event_id
unfolding act_all act schedule_event issue take_event take_front settle_event process_event_sequence
    bytes with_producers produce_at produce generate after_submission
exhausted = refl

two_settled : settled_ids busy.settled ≡ 41 ∷ 42 ∷ []
unfolding act_all act schedule_event issue take_event take_front settle_event process_event_sequence
    bytes with_producers produce_at produce generate after_submission
two_settled = refl

act_all-issued_example :
    (n : ℕ) × (busy.last_issued_event_id ≡ 40 + n)
    × (40 + n ≤ max_event_id)
    × (line busy ≡ numbers 40 n)
act_all-issued_example = act_all-issued 40 before (omega arith)

closes-drains_example :
    let s = act_all (closes ∷ settles none ∷ rounds two_outcomes) busy in
    (s.worker ≡ exited)
    × (s.events ≡ [])
    × ((n : ℕ) × (s.last_issued_event_id ≡ 40 + n) × (settled_ids s.settled ≡ numbers 40 n))
closes-drains_example = closes-drains 40 before none two_outcomes (omega arith) one_left

-- Both events of the sequence are settled, and its generator has ended.
abbrev after : List (Action (Unit {0}) ℕ)
after = before ++ produces 0 ∷ takes ∷ settles none ∷ []

abbrev settled_statuses : List (Producer (Unit {0}) ℕ) → List (Option SequenceStatus)
settled_statuses [] = []
settled_statuses (p ∷ ps) =
    elim p.completion [ none ↦ none | some r ↦ some r.status ] ∷ settled_statuses ps

-- The next step of the producer settles the sequence as failed, as one of its events has failed.
sequence_fails :
    settled_statuses (act_all (after ++ produces 0 ∷ []) (initial_generator_loop 40)).producers
    ≡ some sequence_failed ∷ []
unfolding act_all act schedule_event issue take_event take_front settle_event process_event_sequence
    bytes with_producers produce_at produce generate after_submission settle_producer get_all
    value_of find_settled final_status
sequence_fails = refl
