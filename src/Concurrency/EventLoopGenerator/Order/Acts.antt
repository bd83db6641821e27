-- ===== src/Concurrency/EventLoopGenerator/Order/Acts.antt =====
-- Every action of the threads around src/Utils/Concurrency/EventLoopGenerator.hpp keeps the order of the ids.
use watchlist.Prelude.{
  ℕ, zero, suc, ◌+◌, ◌≤◌, Bool, true, false, List, [], ◌∷◌, ◌≡◌, refl, arith, if◌then◌else◌,
  Bool-cases, inl, inr, Bytes,
}
use watchlist.Concurrency.EventLoopGenerator.{
  SubmissionResult, Producer, EventLoopGenerator, initial_generator_loop, max_event_id,
  sequence_cancelled, schedule_event, process_event_sequence, close_admission, request_stops,
}
use watchlist.Concurrency.EventLoopGenerator.Producers.{
  is_accepted, settle_producer, get_all, generate, after_submission, produce, produce_at,
  with_producers, Action, schedules, processes, takes, settles, produces, closes, stops_producers,
  act, act_all,
}
use watchlist.Concurrency.EventLoopGenerator.Order.{
  numbers, line, IsOrdered, schedule_event-IsOrdered, other_fields, take_event-IsOrdered,
  settle_event-IsOrdered,
}

module _ {A E : Type 0} where
  generate-IsOrdered :
      (start : ℕ) (xs : List (Bytes × A)) (p : Producer A E) (s : EventLoopGenerator A E)
      → IsOrdered start s
      → IsOrdered start (generate xs p s).1
  unfolding generate after_submission
  generate-IsOrdered start [] p s o = o
  generate-IsOrdered start ((name, action) ∷ rest) p s o = stopped p.stop_requested
    where
      x : SubmissionResult A E × EventLoopGenerator A E
      x = schedule_event name action s

      q : IsOrdered start x.1
      q = schedule_event-IsOrdered start name action s o

      submitted :
          (b : Bool) (p p' : Producer A E)
          → let r : Producer A E × EventLoopGenerator A E = if b then (p, x.1) else (p', x.1) in
            IsOrdered start r.1
      submitted true p p' = q
      submitted false p p' = q

      stopped :
          (b : Bool)
          → let r : Producer A E × EventLoopGenerator A E =
              if b
              then (record p { status = sequence_cancelled; generating = false }, s)
              else after_submission rest p x in
            IsOrdered start r.1
      stopped true = o
      stopped false = submitted (is_accepted x.0.status) _ _

  produce-IsOrdered :
      (start : ℕ) (p : Producer A E) (s : EventLoopGenerator A E)
      → IsOrdered start s
      → IsOrdered start (produce p s).1
  unfolding produce
  produce-IsOrdered start p s o = produced p.generating
    where
      produced :
          (b : Bool)
          → let r : Producer A E × EventLoopGenerator A E =
              if b
              then generate p.generator p s
              else (settle_producer p p.completion (get_all p.submissions s.settled), s) in
            IsOrdered start r.1
      produced true = generate-IsOrdered start p.generator p s o
      produced false = o

  produce_at-IsOrdered :
      (start i : ℕ) (ps : List (Producer A E)) (s : EventLoopGenerator A E)
      → IsOrdered start s
      → IsOrdered start (produce_at i ps s).1
  unfolding produce_at
  produce_at-IsOrdered start i [] s o = o
  produce_at-IsOrdered start zero (p ∷ ps) s o = produce-IsOrdered start p s o
  produce_at-IsOrdered start (suc i) (p ∷ ps) s o = produce_at-IsOrdered start i ps s o

  act-IsOrdered :
      (start : ℕ) (a : Action A E) (s : EventLoopGenerator A E)
      → IsOrdered start s
      → IsOrdered start (act a s)
  unfolding act with_producers close_admission request_stops process_event_sequence
  act-IsOrdered start (schedules name action) s o = schedule_event-IsOrdered start name action s o
  act-IsOrdered start (processes generator throws) s o = elim (Bool-cases s.accepting) [
    | inl e ↦ rw e (other_fields start _ true s (λ f. absurd cc) o)
    | inr e ↦ rw e (other_fields start s.producers false s (λ _. refl) o)
  ]
  act-IsOrdered start takes s o = take_event-IsOrdered start s o
  act-IsOrdered start (settles thrown) s o = settle_event-IsOrdered start thrown s o
  act-IsOrdered start (produces i) s o =
      let (ps, t) = produce_at i s.producers s in
      other_fields start ps t.accepting t (λ f. f) (produce_at-IsOrdered start i s.producers s o)
  act-IsOrdered start closes s o = other_fields start s.producers false s (λ _. refl) o
  act-IsOrdered start stops_producers s o = other_fields start _ s.accepting s (λ f. f) o

  pub act_all-IsOrdered :
      (start : ℕ) (xs : List (Action A E)) (s : EventLoopGenerator A E)
      → IsOrdered start s
      → IsOrdered start (act_all xs s)
  unfolding act_all
  act_all-IsOrdered start [] s o = o
  act_all-IsOrdered start (a ∷ xs) s o =
      act_all-IsOrdered start xs (act a s) (act-IsOrdered start a s o)

  pub initial-IsOrdered :
      (start : ℕ)
      → start ≤ max_event_id
      → IsOrdered {A = A} {E = E} start (initial_generator_loop start)
  initial-IsOrdered start fits = record {
    issued = 0;
    last_lem = omega arith;
    within_max = fits;
    line_lem = refl;
    over = λ e. absurd cc;
  }

  -- In every interleaving of submitters, producers, the worker and a shutdown, from a loop that was
  -- made with any last id: some number of ids was issued, one after the other from the next id on, and
  -- none beyond the largest 64-bit number; their events are settled, executed and queued in exactly
  -- this order, each once, and no other event is.
  pub act_all-issued :
      (start : ℕ) (xs : List (Action A E))
      → start ≤ max_event_id
      → let s = act_all xs (initial_generator_loop start) in
        (n : ℕ) × (s.last_issued_event_id ≡ start + n)
        × (start + n ≤ max_event_id)
        × (line s ≡ numbers start n)
  act_all-issued start xs fits =
      let o : IsOrdered start (act_all xs (initial_generator_loop start)) =
        act_all-IsOrdered start xs _ (initial-IsOrdered start fits) in
      (o.issued, o.last_lem, omega (arith, o.last_lem, o.within_max), o.line_lem)
