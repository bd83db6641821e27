-- ===== src/Concurrency/EventLoopGenerator/Gathered.antt =====
-- The results of events that `consume_sequence` of src/Utils/Concurrency/EventLoopGenerator.hpp gathers,
-- and the status that it makes of them.
use watchlist.Prelude.{Option, none, some, List, [], ◌∷◌, ◌≡◌, ◌⊎◌, ◌↔◌, inl, inr, refl, arith, All}
use watchlist.Concurrency.EventLoopGenerator.{
  EventStatus, executed, failed, SequenceStatus, sequence_completed, sequence_failed, EventResult,
  SubmissionResult,
}
use watchlist.Concurrency.EventLoopGenerator.Producers.{
  value_of, get_all, step_status, final_status,
}

step_status-completed :
    (status : SequenceStatus) (x : EventStatus)
    → (step_status status x ≡ sequence_completed) ↔ ((status ≡ sequence_completed) × (x ≡ executed))
step_status-completed sequence_completed executed = ground arith
step_status-completed _ _ = ground arith

step_status-failed :
    (status : SequenceStatus) (x : EventStatus)
    → (step_status status x ≡ sequence_failed) ↔ ((status ≡ sequence_failed) ⊎ (x ≡ failed))
step_status-failed sequence_completed executed = ground arith
step_status-failed _ _ = ground arith

module _ {A E : Type 0} where
  -- One value for each submission, in their order: the one it was rejected with, or the one that its
  -- event was settled with.
  abbrev pub Gathered :
      List (SubmissionResult A E) → List (EventResult A E) → List (EventResult A E) → Type 0
  Gathered [] settled [] = Unit
  Gathered [] settled (v ∷ vs) = ⊥
  Gathered (r ∷ rs) settled [] = ⊥
  Gathered (r ∷ rs) settled (v ∷ vs) = (value_of r settled ≡ some v) × Gathered rs settled vs

  -- A submission whose event is not settled.
  abbrev pub Waits : List (SubmissionResult A E) → List (EventResult A E) → Type 0
  Waits [] settled = ⊥
  Waits (r ∷ rs) settled = (value_of r settled ≡ none) ⊎ Waits rs settled

  abbrev pub Got :
      List (SubmissionResult A E)
      → List (EventResult A E)
      → Option (List (EventResult A E))
      → Type 0
  Got rs settled none = Waits rs settled
  Got rs settled (some vs) = Gathered rs settled vs

  pub get_all-Got :
      (rs : List (SubmissionResult A E)) (settled : List (EventResult A E))
      → Got rs settled (get_all rs settled)
  unfolding get_all
  get_all-Got [] settled = tt
  get_all-Got (r ∷ rs) settled =
      got (value_of r settled) refl (get_all rs settled) (get_all-Got rs settled)
    where
      got :
          (v : Option (EventResult A E))
          → value_of r settled ≡ v
          → (rest : Option (List (EventResult A E))) → Got rs settled rest
          → Got (r ∷ rs) settled (elim v [
            | none ↦ none
            | some v ↦ elim rest [ none ↦ none | some vs ↦ some (v ∷ vs) ]
          ])
      got none e rest g = inl e
      got (some v) e none g = inr g
      got (some v) e (some vs) g = (e, g)

  abbrev pub AnyFailed : List (EventResult A E) → Type 0
  AnyFailed [] = ⊥
  AnyFailed (v ∷ vs) = (v.status ≡ failed) ⊎ AnyFailed vs

  pub final_status-completed :
      (status : SequenceStatus) (vs : List (EventResult A E))
      → (final_status status vs ≡ sequence_completed)
        ↔ ((status ≡ sequence_completed) × All (λ v. v.status ≡ executed) vs)
  unfolding final_status
  final_status-completed status [] = ((λ e. (e, tt)), (λ p. p.0))
  final_status-completed status (v ∷ vs) =
      let (there, back) = final_status-completed (step_status status v.status) vs in
      let (split, join) = step_status-completed status v.status in
      (
        (λ e. ((split (there e).0).0, ((split (there e).0).1, (there e).1))),
        (λ p. back (join (p.0, p.1.0), p.1.1)),
      )

  pub final_status-failed :
      (status : SequenceStatus) (vs : List (EventResult A E))
      → (final_status status vs ≡ sequence_failed) ↔ ((status ≡ sequence_failed) ⊎ AnyFailed vs)
  unfolding final_status
  final_status-failed status [] = ((λ e. inl e), (λ p. elim p [ inl e ↦ e | inr b ↦ absurd b ]))
  final_status-failed status (v ∷ vs) =
      let (there, back) = final_status-failed (step_status status v.status) vs in
      let (split, join) = step_status-failed status v.status in
      (
        (λ e. elim (there e) [
          | inl f ↦ elim (split f) [ inl g ↦ inl g | inr x ↦ inr (inl x) ]
          | inr b ↦ inr (inr b)
        ]),
        (λ p. elim p [
          | inl g ↦ back (inl (join (inl g)))
          | inr q ↦ elim q [ inl x ↦ back (inl (join (inr x))) | inr b ↦ back (inr b) ]
        ]),
      )
