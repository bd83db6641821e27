-- ===== src/Concurrency/EventLoopGenerator/Generated/Acts.antt =====
-- How the generation of the sequences has ended, in every run of the threads around
-- src/Utils/Concurrency/EventLoopGenerator.hpp.
use watchlist.Prelude.{
  ℕ, zero, suc, Bool, true, false, Option, List, [], ◌∷◌, ◌≡◌, refl, Bool-cases, inl, inr, arith,
  All, All-append, Bytes,
}
use watchlist.Concurrency.EventLoopGenerator.{
  Producer, EventLoopGenerator, Worker, GeneratedEvent, initial_generator_loop, schedule_event,
  issue, process_event_sequence, take_event, take_front, settle_event, close_admission,
  request_stops, stop_all,
}
use watchlist.Concurrency.EventLoopGenerator.Producers.{
  produce_at, with_producers, Action, schedules, processes, takes, settles, produces, closes,
  stops_producers, act, act_all,
}
use watchlist.Concurrency.EventLoopGenerator.Generated.{
  HowGenerated, underway, finished, threw, told_to_stop, refused, produce-HowGenerated,
}

module _ {A E : Type 0} where
  produce_at-HowGenerated :
      (i : ℕ) (ps : List (Producer A E)) (s : EventLoopGenerator A E)
      → All HowGenerated ps
      → All HowGenerated (produce_at i ps s).0
  unfolding produce_at
  produce_at-HowGenerated i [] s h = h
  produce_at-HowGenerated zero (p ∷ ps) s h = (produce-HowGenerated p s h.0, h.1)
  produce_at-HowGenerated (suc i) (p ∷ ps) s h = (h.0, produce_at-HowGenerated i ps s h.1)

  stop_all-HowGenerated :
      (ps : List (Producer A E)) → All HowGenerated ps → All HowGenerated (stop_all ps)
  unfolding stop_all
  stop_all-HowGenerated [] h = h
  stop_all-HowGenerated (p ∷ ps) h = (stopped h.0, stop_all-HowGenerated ps h.1)
    where
      stopped : HowGenerated p → HowGenerated (record p { stop_requested = true })
      stopped (underway g c n w) = underway g c n w
      stopped (finished g l t c n) = finished g l t c n
      stopped (threw x g l t c n) = threw x g l t c n
      stopped (told_to_stop g r c n) = told_to_stop g refl c n
      stopped (refused front r g l a c n) = refused front r g l a c n

  schedule_event-producers :
      (name : Bytes) (action : A) (s : EventLoopGenerator A E)
      → (schedule_event name action s).1.producers ≡ s.producers
  unfolding schedule_event issue
  schedule_event-producers name action s = ground arith

  take_front-producers :
      (es : List (GeneratedEvent A E)) (b : Bool) (s : EventLoopGenerator A E)
      → (take_front es b s).producers ≡ s.producers
  unfolding take_front
  take_front-producers [] true s = refl
  take_front-producers [] false s = refl
  take_front-producers (e ∷ es) b s = refl

  take_event-producers :
      (w : Worker A E) (s : EventLoopGenerator A E) → (take_event w s).producers ≡ s.producers
  unfolding take_event
  take_event-producers Worker.waiting s = take_front-producers s.events s.accepting s
  take_event-producers (Worker.running e) s = refl
  take_event-producers Worker.exited s = refl

  settle_event-producers :
      (thrown : Option E) (w : Worker A E) (s : EventLoopGenerator A E)
      → (settle_event thrown w s).producers ≡ s.producers
  unfolding settle_event
  settle_event-producers thrown Worker.waiting s = refl
  settle_event-producers thrown (Worker.running e) s = refl
  settle_event-producers thrown Worker.exited s = refl

  act-HowGenerated :
      (a : Action A E) (s : EventLoopGenerator A E)
      → All HowGenerated s.producers
      → All HowGenerated (act a s).producers
  unfolding act with_producers close_admission request_stops process_event_sequence
  act-HowGenerated (schedules name action) s h = rw (schedule_event-producers name action s) h
  act-HowGenerated (processes generator throws) s h = elim (Bool-cases s.accepting) [
    | inl e ↦ rw e (All-append HowGenerated s.producers _ h (underway refl refl refl refl, tt))
    | inr e ↦ rw e h
  ]
  act-HowGenerated takes s h = rw (take_event-producers s.worker s) h
  act-HowGenerated (settles thrown) s h = rw (settle_event-producers thrown s.worker s) h
  act-HowGenerated (produces i) s h = produce_at-HowGenerated i s.producers s h
  act-HowGenerated closes s h = h
  act-HowGenerated stops_producers s h = stop_all-HowGenerated s.producers h

  all-HowGenerated :
      (xs : List (Action A E)) (s : EventLoopGenerator A E)
      → All HowGenerated s.producers
      → All HowGenerated (act_all xs s).producers
  unfolding act_all
  all-HowGenerated [] s h = h
  all-HowGenerated (a ∷ xs) s h = all-HowGenerated xs (act a s) (act-HowGenerated a s h)

  pub act_all-HowGenerated :
      (start : ℕ) (xs : List (Action A E))
      → All HowGenerated (act_all xs (initial_generator_loop start)).producers
  act_all-HowGenerated start xs = all-HowGenerated xs (initial_generator_loop start) tt
