-- ===== src/Concurrency/EventLoopGenerator/Drain.antt =====
-- `shutdown` of src/Utils/Concurrency/EventLoopGenerator.hpp: the worker drains the queue and returns.
use watchlist.Prelude.{
  ℕ, suc, ◌+◌, ◌≤◌, Bool, true, false, Option, List, [], ◌∷◌, ◌++◌, ◌≡◌, ◌⊎◌, inl, inr, refl, sym,
  ap, ◌∙◌, arith, append-nil, length,
}
use watchlist.Concurrency.EventLoopGenerator.{
  GeneratedEvent, Worker, waiting, running, exited, EventLoopGenerator, initial_generator_loop,
  max_event_id, take_event, take_front, settle_event, close_admission,
}
use watchlist.Concurrency.EventLoopGenerator.Producers.{
  Action, takes, settles, closes, act, act_all,
}
use watchlist.Concurrency.EventLoopGenerator.Order.Acts.{act_all-IsOrdered, initial-IsOrdered}
use watchlist.Concurrency.EventLoopGenerator.Order.{
  numbers, settled_ids, held_ids, queued_ids, line, IsOrdered,
}

-- The worker's own steps: it takes an event and settles it, for each outcome, and takes once more.
abbrev pub rounds : {A E : Type 0} → List (Option E) → List (Action A E)
rounds [] = takes ∷ []
rounds (thrown ∷ later) = takes ∷ settles thrown ∷ rounds later

module _ {A E : Type 0} where
  -- Closed, with the worker not in an action, and at most so many events in the queue.
  record IsDraining (n : ℕ) (s : EventLoopGenerator A E) : Type 0 where
    shut : s.accepting ≡ false
    ready : (s.worker ≡ waiting) ⊎ ((s.worker ≡ exited) × (s.events ≡ []))
    few : length s.events ≤ n

  abbrev HasExited : EventLoopGenerator A E → Type 0
  HasExited s = (s.worker ≡ exited) × (s.events ≡ []) × (s.accepting ≡ false)

  takes-HasExited : (s : EventLoopGenerator A E) → HasExited s → HasExited (act takes s)
  unfolding act take_event
  takes-HasExited s h = taken s.worker h.0
    where
      taken : (w : Worker A E) → w ≡ exited → HasExited (take_event w s)
      taken waiting e = absurd cc
      taken (running v) e = absurd cc
      taken exited e = h

  settles-HasExited :
      (thrown : Option E) (s : EventLoopGenerator A E)
      → HasExited s
      → HasExited (act (settles thrown) s)
  unfolding act settle_event
  settles-HasExited thrown s h = settled s.worker h.0
    where
      settled : (w : Worker A E) → w ≡ exited → HasExited (settle_event thrown w s)
      settled waiting e = absurd cc
      settled (running v) e = absurd cc
      settled exited e = h

  -- A round executes an event, or the worker returns.
  takes-drains :
      (n : ℕ) (s : EventLoopGenerator A E)
      → IsDraining n s
      → HasExited (act takes s)
        ⊎ ((v : GeneratedEvent A E) × ((act takes s).worker ≡ running v)
            × (suc (length (act takes s).events) ≤ n)
            × ((act takes s).accepting ≡ false))
  unfolding act take_event
  takes-drains n s d = taken s.worker refl d.ready
    where
      front :
          (es : List (GeneratedEvent A E)) (b : Bool)
          → b ≡ false
          → s.events ≡ es
          → length es ≤ n
          → HasExited (take_front es b s)
            ⊎ ((v : GeneratedEvent A E) × ((take_front es b s).worker ≡ running v)
                × (suc (length (take_front es b s).events) ≤ n)
                × ((take_front es b s).accepting ≡ false))
      front [] true f e m = absurd cc
      front [] false f e m = unfold take_front in inl (refl, e, d.shut)
      front (v ∷ vs) b f e m = unfold take_front in inr (v, refl, m, d.shut)

      taken :
          (w : Worker A E)
          → s.worker ≡ w
          → (w ≡ waiting) ⊎ ((w ≡ exited) × (s.events ≡ []))
          → HasExited (take_event w s)
            ⊎ ((v : GeneratedEvent A E) × ((take_event w s).worker ≡ running v)
                × (suc (length (take_event w s).events) ≤ n)
                × ((take_event w s).accepting ≡ false))
      taken waiting w r = front s.events s.accepting d.shut refl d.few
      taken (running v) w r = absurd (ground arith)
      taken exited w (inl r) = absurd cc
      taken exited w (inr (_, e)) = inl (w, e, d.shut)

  rounds-HasExited :
      (xs : List (Option E)) (s : EventLoopGenerator A E)
      → HasExited s
      → HasExited (act_all (rounds xs) s)
  unfolding act_all
  rounds-HasExited [] s h = takes-HasExited s h
  rounds-HasExited (x ∷ xs) s h =
      rounds-HasExited xs _ (settles-HasExited x _ (takes-HasExited s h))

  settles-IsDraining :
      (n : ℕ) (thrown : Option E) (v : GeneratedEvent A E) (s : EventLoopGenerator A E)
      → s.worker ≡ running v
      → length s.events ≤ n
      → s.accepting ≡ false
      → IsDraining n (act (settles thrown) s)
  unfolding act settle_event
  settles-IsDraining n thrown v s w m c = settled s.worker w
    where
      settled : (w : Worker A E) → w ≡ running v → IsDraining n (settle_event thrown w s)
      settled waiting e = absurd cc
      settled (running u) e = record { shut = c; ready = inl refl; few = m }
      settled exited e = absurd cc

  rounds-drain :
      (xs : List (Option E)) (s : EventLoopGenerator A E)
      → IsDraining (length xs) s
      → HasExited (act_all (rounds xs) s)
  unfolding act_all
  rounds-drain [] s d = elim (takes-drains 0 s d) [
    | inl h ↦ h
    | inr (v, w, m, c) ↦ absurd (omega arith)
  ]
  rounds-drain (x ∷ xs) s d = elim (takes-drains (suc (length xs)) s d) [
    | inl h ↦ rounds-HasExited xs _ (settles-HasExited x _ h)
    | inr (v, w, m, c) ↦ rounds-drain xs _ (settles-IsDraining (length xs) x v _ w (omega arith) c)
  ]

  first-IsDraining :
      (start n : ℕ) (thrown : Option E) (s : EventLoopGenerator A E)
      → IsOrdered start s
      → length s.events ≤ n
      → IsDraining n (act (settles thrown) (act closes s))
  unfolding act settle_event close_admission
  first-IsDraining start n thrown s o m = settled s.worker refl
    where
      settled :
          (w : Worker A E)
          → s.worker ≡ w
          → IsDraining n (settle_event thrown w (record s { accepting = false }))
      settled waiting e = record { shut = refl; ready = inl e; few = m }
      settled (running v) e = record { shut = refl; ready = inl refl; few = m }
      settled exited e = record { shut = refl; ready = inr (e, (o.over e).0); few = m }

  -- After any history of a loop, once its admission is closed, the worker needs as many rounds as there
  -- are queued events, whatever their actions return or throw, to return with an empty queue, and then
  -- every id that was ever issued is settled, once each and in the order of the submissions.
  pub closes-drains :
      (start : ℕ) (before : List (Action A E)) (thrown : Option E) (xs : List (Option E))
      → start ≤ max_event_id
      → length (act_all before (initial_generator_loop {A = A} {E = E} start)).events ≤ length xs
      → let s =
          act_all
            (closes ∷ settles thrown ∷ rounds xs)
            (act_all before (initial_generator_loop {A = A} {E = E} start)) in
        (s.worker ≡ exited)
        × (s.events ≡ [])
        × ((n : ℕ) × (s.last_issued_event_id ≡ start + n)
            × (settled_ids s.settled ≡ numbers start n))
  unfolding act_all
  closes-drains start before thrown xs fits enough =
      let s : EventLoopGenerator A E = act_all before (initial_generator_loop start) in
      let o : IsOrdered start s = act_all-IsOrdered start before _ (initial-IsOrdered start fits) in
      let t : EventLoopGenerator A E = act_all (rounds xs) (act (settles thrown) (act closes s)) in
      let q : IsOrdered start t =
        act_all-IsOrdered start (closes ∷ settles thrown ∷ rounds xs) s o in
      let h : HasExited t =
        rounds-drain xs _ (first-IsDraining start (length xs) thrown s o enough) in
      (h.0, h.1, (q.issued, q.last_lem, all_settled t h ∙ q.line_lem))
    where
      all_settled : (t : EventLoopGenerator A E) → HasExited t → settled_ids t.settled ≡ line t
      all_settled t h =
          sym (append-nil (settled_ids t.settled))
          ∙ ap (λ es. settled_ids t.settled ++ queued_ids es) (sym h.1)
          ∙ ap (λ w. settled_ids t.settled ++ (held_ids w ++ queued_ids t.events)) (sym h.0)
