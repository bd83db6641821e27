-- ===== src/Concurrency/EventLoopGenerator/Order.antt =====
-- The ids of src/Utils/Concurrency/EventLoopGenerator.hpp: they are issued one after the other, and
-- events are executed in their order.
pub mod Acts
use mathlib.Core.Path.{subst}
use watchlist.Prelude.{
  ℕ, zero, suc, ◌+◌, ◌≤◌, Bool, true, false, not, Option, List, [], ◌∷◌, ◌++◌, ◌≡◌, ◌≢◌, ◌⊎◌, refl,
  sym, ap, ◌∙◌, arith, append_assoc, if◌then◌else◌, Bool-cases, inl, inr, Bytes, ◌==◌,
}
use watchlist.Concurrency.EventLoopGenerator.{
  GeneratedEvent, EventResult, SubmissionResult, Worker, waiting, running, exited, Producer,
  EventLoopGenerator, initial_generator_loop, max_event_id, issue, rejection, submission_stopped,
  submission_exhausted, rejected_stopped, rejected_id_exhausted, sequence_cancelled, schedule_event,
  take_front, take_event, settle_event, process_event_sequence, close_admission, request_stops,
}
use watchlist.Concurrency.EventLoopGenerator.Producers.{
  is_accepted, settle_producer, get_all, generate, after_submission, produce, produce_at,
  with_producers, Action, schedules, processes, takes, settles, produces, closes, stops_producers,
  act, act_all,
}

-- The ids after `start`, as many as were issued.
abbrev pub numbers : ℕ → ℕ → List ℕ
numbers start zero = []
numbers start (suc n) = numbers start n ++ suc (start + n) ∷ []

module _ {A E : Type 0} where
  abbrev pub queued_ids : List (GeneratedEvent A E) → List ℕ
  queued_ids [] = []
  queued_ids (e ∷ es) = e.id ∷ queued_ids es

  abbrev pub settled_ids : List (EventResult A E) → List ℕ
  settled_ids [] = []
  settled_ids (r ∷ rs) = r.id ∷ settled_ids rs

  abbrev pub held_ids : Worker A E → List ℕ
  held_ids waiting = []
  held_ids (running e) = e.id ∷ []
  held_ids exited = []

  -- The ids of the events that were settled, that is in execution and that wait, in this order.
  abbrev pub line : EventLoopGenerator A E → List ℕ
  line s = settled_ids s.settled ++ (held_ids s.worker ++ queued_ids s.events)

  pub record IsOrdered (start : ℕ) (s : EventLoopGenerator A E) : Type 0 where
    pub issued : ℕ
    pub last_lem : s.last_issued_event_id ≡ start + issued
    pub within_max : s.last_issued_event_id ≤ max_event_id
    pub line_lem : line s ≡ numbers start issued
    -- The worker returns from a closed loop without events.
    pub over : s.worker ≡ exited → (s.events ≡ []) × (s.accepting ≡ false)

  queued_ids-append :
      (es fs : List (GeneratedEvent A E)) → queued_ids (es ++ fs) ≡ queued_ids es ++ queued_ids fs
  queued_ids-append [] fs = refl
  queued_ids-append (e ∷ es) fs = ap (◌∷◌ e.id) (queued_ids-append es fs)

  settled_ids-append :
      (rs ts : List (EventResult A E)) → settled_ids (rs ++ ts) ≡ settled_ids rs ++ settled_ids ts
  settled_ids-append [] ts = refl
  settled_ids-append (r ∷ rs) ts = ap (◌∷◌ r.id) (settled_ids-append rs ts)

  schedule_event-cases :
      (name : Bytes) (action : A) (s : EventLoopGenerator A E)
      → ((schedule_event name action s).1 ≡ s)
        ⊎ ((s.accepting ≡ true)
            × (s.last_issued_event_id ≢ max_event_id)
            × (schedule_event name action s ≡ issue name action s))
  unfolding schedule_event
  schedule_event-cases name action s = closed s.accepting refl
    where
      full : EventLoopGenerator A E → SubmissionResult A E × EventLoopGenerator A E
      full s = (
        record {
          id = 0;
          status = submission_exhausted;
          completion = rejection rejected_id_exhausted;
        },
        s,
      )

      free :
          (b : Bool)
          → s.accepting ≡ true
          → (s.last_issued_event_id == max_event_id) ≡ b
          → ((if b then full s else issue name action s).1 ≡ s)
            ⊎ ((s.accepting ≡ true)
                × (s.last_issued_event_id ≢ max_event_id)
                × ((if b then full s else issue name action s) ≡ issue name action s))
      free true a e = inl refl
      free false a e = inr (a, (λ f. ground (arith, e, f)), refl)

      closed :
          (b : Bool)
          → s.accepting ≡ b
          → let r : SubmissionResult A E × EventLoopGenerator A E =
              if not b
              then (
                record {
                  id = 0;
                  status = submission_stopped;
                  completion = rejection rejected_stopped;
                },
                s,
              )
              else if s.last_issued_event_id == max_event_id
              then full s
              else issue name action s in
            (r.1 ≡ s)
            ⊎ ((s.accepting ≡ true)
                × (s.last_issued_event_id ≢ max_event_id)
                × (r ≡ issue name action s))
      closed true a = free (s.last_issued_event_id == max_event_id) a refl
      closed false a = inl refl

  issue-IsOrdered :
      (start : ℕ) (name : Bytes) (action : A) (s : EventLoopGenerator A E)
      → s.accepting ≡ true
      → s.last_issued_event_id ≢ max_event_id
      → IsOrdered start s
      → IsOrdered start (issue name action s).1
  unfolding issue
  issue-IsOrdered start name action s opened free o = record {
    over = λ e. let (f, shut) = o.over e in absurd cc;
    issued = suc o.issued;
    last_lem = omega (arith, o.last_lem);
    within_max = ground (arith, o.within_max, free);
    line_lem =
        ap (λ x. settled_ids s.settled ++ (held_ids s.worker ++ x)) (queued_ids-append s.events _)
        ∙ ap (λ x. settled_ids s.settled ++ x)
            (sym (append_assoc (held_ids s.worker) (queued_ids s.events) _))
        ∙ sym (append_assoc (settled_ids s.settled) (held_ids s.worker ++ queued_ids s.events) _)
        ∙ ap (λ x. x ++ suc s.last_issued_event_id ∷ []) o.line_lem
        ∙ ap (λ x. numbers start o.issued ++ suc x ∷ []) o.last_lem;
  }

  pub schedule_event-IsOrdered :
      (start : ℕ) (name : Bytes) (action : A) (s : EventLoopGenerator A E)
      → IsOrdered start s
      → IsOrdered start (schedule_event name action s).1
  schedule_event-IsOrdered start name action s o = elim (schedule_event-cases name action s) [
    | inl same ↦ subst (IsOrdered start) (sym same) o
    | inr (opened, free, e) ↦
        subst (λ r. IsOrdered start r.1) (sym e) (issue-IsOrdered start name action s opened free o)
  ]

  -- Neither the producers nor the flag stand in the order.
  pub other_fields :
      (start : ℕ) (ps : List (Producer A E)) (b : Bool) (s : EventLoopGenerator A E)
      → (s.accepting ≡ false → b ≡ false)
      → IsOrdered start s
      → IsOrdered start (record s { producers = ps; accepting = b })
  other_fields start ps b s c o = record {
    over = λ e. ((o.over e).0, c (o.over e).1);
    issued = o.issued;
    last_lem = o.last_lem;
    within_max = o.within_max;
    line_lem = o.line_lem;
  }

  pub take_event-IsOrdered :
      (start : ℕ) (s : EventLoopGenerator A E)
      → IsOrdered start s
      → IsOrdered start (take_event s.worker s)
  unfolding take_event
  take_event-IsOrdered start s o = took s.worker refl
    where
      front :
          (es : List (GeneratedEvent A E)) (b : Bool)
          → s.worker ≡ waiting
          → s.events ≡ es
          → s.accepting ≡ b
          → IsOrdered start (take_front es b s)
      front [] true w e c = unfold take_front in o
      front [] false w e c =
          unfold take_front in
          record {
            over = λ _. (e, c);
            issued = o.issued;
            last_lem = o.last_lem;
            within_max = o.within_max;
            line_lem =
                ap (λ x. settled_ids s.settled ++ (held_ids x ++ queued_ids s.events)) (sym w)
                ∙ o.line_lem;
          }
      front (v ∷ vs) b w e c =
          unfold take_front in
          record {
            over = λ x. absurd cc;
            issued = o.issued;
            last_lem = o.last_lem;
            within_max = o.within_max;
            line_lem =
                ap (λ x. settled_ids s.settled ++ queued_ids x) (sym e)
                ∙ ap (λ x. settled_ids s.settled ++ (held_ids x ++ queued_ids s.events)) (sym w)
                ∙ o.line_lem;
          }

      took : (w : Worker A E) → s.worker ≡ w → IsOrdered start (take_event w s)
      took waiting w = front s.events s.accepting w refl refl
      took (running v) w = o
      took exited w = o

  pub settle_event-IsOrdered :
      (start : ℕ) (thrown : Option E) (s : EventLoopGenerator A E)
      → IsOrdered start s
      → IsOrdered start (settle_event thrown s.worker s)
  unfolding settle_event
  settle_event-IsOrdered start thrown s o = settled s.worker refl
    where
      settled : (w : Worker A E) → s.worker ≡ w → IsOrdered start (settle_event thrown w s)
      settled waiting w = o
      settled (running v) w = record {
        over = λ x. absurd cc;
        issued = o.issued;
        last_lem = o.last_lem;
        within_max = o.within_max;
        line_lem =
            ap (λ x. x ++ queued_ids s.events) (settled_ids-append s.settled _)
            ∙ append_assoc (settled_ids s.settled) (v.id ∷ []) (queued_ids s.events)
            ∙ ap (λ x. settled_ids s.settled ++ (held_ids x ++ queued_ids s.events)) (sym w)
            ∙ o.line_lem;
      }
      settled exited w = o
