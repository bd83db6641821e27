-- ===== src/Concurrency/EventLoopGenerator/Sequence.antt =====
-- The result of a sequence in `consume_sequence` of src/Utils/Concurrency/EventLoopGenerator.hpp.
use watchlist.Prelude.{true, ◌++◌, ◌≢◌, none, some, List, [], ◌∷◌, ◌≡◌, ◌⊎◌, ◌↔◌, All}
use watchlist.Concurrency.EventLoopGenerator.{
  executed, accepted, sequence_completed, sequence_failed, EventResult, SubmissionResult,
  SequenceResult, Producer, EventLoopGenerator,
}
use watchlist.Concurrency.EventLoopGenerator.Gathered.{Gathered, Waits, AnyFailed}

module _ {A E : Type 0} where
  -- How a sequence ends. The generator yields no more, and nothing was thrown: the sequence has
  -- completed exactly if every event was executed, and failed exactly if one failed. The generator
  -- threw: the sequence has failed, with that exception. Or the producer was told to stop, or its last
  -- submission was rejected: the sequence has not completed, and failed exactly if an event failed.
  pub data Ends (p : Producer A E) (r : SequenceResult A E) : Type 0 where
    yielded_all :
        p.generator ≡ []
        → p.throws ≡ none
        → r.producer_exception ≡ none
        → ((r.status ≡ sequence_completed) ↔ All (λ v. v.status ≡ executed) r.events)
        → ((r.status ≡ sequence_failed) ↔ AnyFailed r.events)
        → Ends p r
    generator_threw :
        (e : E)
        → p.generator ≡ []
        → p.throws ≡ some e
        → r.producer_exception ≡ some e
        → r.status ≡ sequence_failed
        → Ends p r
    cut_short :
        ((p.stop_requested ≡ true)
          ⊎ ((front : List (SubmissionResult A E)) × (last : SubmissionResult A E) × (p.submissions
                ≡ front ++ last ∷ [])
              × (last.status ≢ accepted)))
        → r.producer_exception ≡ none
        → r.status ≢ sequence_completed
        → ((r.status ≡ sequence_failed) ↔ AnyFailed r.events)
        → Ends p r

  -- What a step of a producer does: it generates; its future has its value; an event that it waits for
  -- is not settled; or the future gets its value.
  pub data Settles (p : Producer A E) (settled : List (EventResult A E)) (p' : Producer A E)
      : Type 0 where
    generates : p.generating ≡ true → Settles p settled p'
    is_complete : (r : SequenceResult A E) → p.completion ≡ some r → p' ≡ p → Settles p settled p'
    waits : p.completion ≡ none → Waits p.submissions settled → p' ≡ p → Settles p settled p'
    completes :
        (r : SequenceResult A E)
        → p.completion ≡ none
        → p' ≡ record p { completion = some r }
        → Gathered p.submissions settled r.events
        → Ends p r
        → Settles p settled p'
