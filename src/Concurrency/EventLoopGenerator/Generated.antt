-- ===== src/Concurrency/EventLoopGenerator/Generated.antt =====
-- How the generation of a sequence in `consume_sequence` of src/Utils/Concurrency/EventLoopGenerator.hpp
-- has ended.
pub mod Acts
use watchlist.Prelude.{
  ℕ, zero, suc, Bool, true, false, Option, none, some, List, [], ◌∷◌, ◌++◌, ◌≡◌, ◌≢◌, refl, ap, sym,
  ◌∙◌, if◌then◌else◌, Bool-cases, inl, inr, arith, All, All-append, Bytes,
}
use watchlist.Concurrency.EventLoopGenerator.{
  SubmissionStatus, accepted, sequence_completed, sequence_cancelled, sequence_failed, EventResult,
  SubmissionResult, SequenceResult, Producer, EventLoopGenerator, Worker, GeneratedEvent,
  initial_generator_loop, schedule_event, issue, process_event_sequence, take_event, take_front,
  settle_event, close_admission, request_stops, stop_all,
}
use watchlist.Concurrency.EventLoopGenerator.Producers.{
  is_accepted, is_thrown, settle_producer, get_all, generate, after_submission, produce, produce_at,
  with_producers, Action, schedules, processes, takes, settles, produces, closes, stops_producers,
  act, act_all,
}

not_accepted : (x : SubmissionStatus) → is_accepted x ≡ false → x ≢ accepted
not_accepted x e same = let yes : is_accepted x ≡ true = ap is_accepted same in cc (e, yes)

module _ {A E : Type 0} where
  -- How generation has ended, if it has: the generator yields no more and threw nothing; it threw; the
  -- producer was told to stop; or the last submission was rejected.
  pub data HowGenerated (p : Producer A E) : Type 0 where
    underway :
        p.generating ≡ true
        → p.status ≡ sequence_completed
        → p.producer_exception ≡ none
        → p.completion ≡ none
        → HowGenerated p
    finished :
        p.generating ≡ false
        → p.generator ≡ []
        → p.throws ≡ none
        → p.status ≡ sequence_completed
        → p.producer_exception ≡ none
        → HowGenerated p
    threw :
        (e : E)
        → p.generating ≡ false
        → p.generator ≡ []
        → p.throws ≡ some e
        → p.status ≡ sequence_failed
        → p.producer_exception ≡ some e
        → HowGenerated p
    told_to_stop :
        p.generating ≡ false
        → p.stop_requested ≡ true
        → p.status ≡ sequence_cancelled
        → p.producer_exception ≡ none
        → HowGenerated p
    refused :
        (front : List (SubmissionResult A E)) (r : SubmissionResult A E)
        → p.generating ≡ false
        → p.submissions ≡ front ++ r ∷ []
        → r.status ≢ accepted
        → p.status ≡ sequence_cancelled
        → p.producer_exception ≡ none
        → HowGenerated p

  ended-HowGenerated :
      (p : Producer A E) (o : Option E)
      → p.throws ≡ o
      → p.generator ≡ []
      → p.status ≡ sequence_completed
      → HowGenerated
          (record p { generating = false; status = is_thrown o p.status; producer_exception = o })
  ended-HowGenerated p none t g c = finished refl g t c refl
  ended-HowGenerated p (some e) t g c = threw e refl g t refl refl

  after_submission-HowGenerated :
      (rest : List (Bytes × A)) (p : Producer A E)
      (m : SubmissionResult A E × EventLoopGenerator A E)
      → p.generating ≡ true
      → p.status ≡ sequence_completed
      → p.producer_exception ≡ none
      → p.completion ≡ none
      → HowGenerated (after_submission rest p m).0
  unfolding after_submission
  after_submission-HowGenerated rest p (r, s) g c n w = submitted (is_accepted r.status) refl
    where
      p' : Producer A E
      p' = record p { generator = rest; submissions = p.submissions ++ r ∷ [] }

      submitted :
          (b : Bool)
          → is_accepted r.status ≡ b
          → let m : Producer A E × EventLoopGenerator A E =
              if b
              then (p', s)
              else (record p' { status = sequence_cancelled; generating = false }, s) in
            HowGenerated m.0
      submitted true e = underway g c n w
      submitted false e = refused p.submissions r refl refl (not_accepted r.status e) refl n

  generate-HowGenerated :
      (xs : List (Bytes × A)) (p : Producer A E) (s : EventLoopGenerator A E)
      → p.generator ≡ xs
      → p.generating ≡ true
      → p.status ≡ sequence_completed
      → p.producer_exception ≡ none
      → p.completion ≡ none
      → HowGenerated (generate xs p s).0
  unfolding generate
  generate-HowGenerated [] p s e g c n w = ended-HowGenerated p p.throws refl e c
  generate-HowGenerated ((name, action) ∷ rest) p s e g c n w = stopped p.stop_requested refl
    where
      stopped :
          (b : Bool)
          → p.stop_requested ≡ b
          → let m : Producer A E × EventLoopGenerator A E =
              if b
              then (record p { status = sequence_cancelled; generating = false }, s)
              else after_submission rest p (schedule_event name action s) in
            HowGenerated m.0
      stopped true r = told_to_stop refl r refl n
      stopped false r = after_submission-HowGenerated rest p _ g c n w

  -- The value of the future does not change how generation has ended.
  settle_producer-HowGenerated :
      (p : Producer A E) (o : Option (SequenceResult A E)) (v : Option (List (EventResult A E)))
      → p.generating ≡ false
      → HowGenerated p
      → HowGenerated (settle_producer p o v)
  unfolding settle_producer
  settle_producer-HowGenerated p (some r) v e h = h
  settle_producer-HowGenerated p none none e h = h
  settle_producer-HowGenerated p none (some vs) e (underway g _ _ _) = cc
  settle_producer-HowGenerated p none (some vs) e (finished g l t c n) = finished g l t c n
  settle_producer-HowGenerated p none (some vs) e (threw x g l t c n) = threw x g l t c n
  settle_producer-HowGenerated p none (some vs) e (told_to_stop g r c n) = told_to_stop g r c n
  settle_producer-HowGenerated p none (some vs) e (refused front r g l a c n) =
      refused front r g l a c n

  pub ended_producing :
      (p : Producer A E) (s : EventLoopGenerator A E)
      → p.generating ≡ false
      → (produce p s).0 ≡ settle_producer p p.completion (get_all p.submissions s.settled)
  unfolding produce
  ended_producing p s e = ground (arith, e)

  is_generating :
      (p : Producer A E) (s : EventLoopGenerator A E)
      → p.generating ≡ true
      → (produce p s).0 ≡ (generate p.generator p s).0
  unfolding produce
  is_generating p s e = ground (arith, e)

  produce-HowGenerated :
      (p : Producer A E) (s : EventLoopGenerator A E)
      → HowGenerated p
      → HowGenerated (produce p s).0
  produce-HowGenerated p s h = elim (Bool-cases p.generating) [
    | inl e ↦ generates e h
    | inr e ↦ rw (ended_producing p s e) (settle_producer-HowGenerated p _ _ e h)
  ]
    where
      generates : p.generating ≡ true → HowGenerated p → HowGenerated (produce p s).0
      generates e (underway g c n w) =
          rw (is_generating p s e) (generate-HowGenerated p.generator p s refl g c n w)
      generates e (finished g _ _ _ _) = cc
      generates e (threw _ g _ _ _ _) = cc
      generates e (told_to_stop g _ _ _) = cc
      generates e (refused _ _ g _ _ _ _) = cc
