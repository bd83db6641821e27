-- ===== src/AppState/History.antt =====
-- The four logs against an unbounded history of events.
use watchlist.Prelude.{
  ℕ, ◌+◌, ◌-◌, min, Bool, true, false, List, [], ◌∷◌, ◌++◌, ◌≡◌, ap, ◌∙◌, arith, length, drop,
  length-append, length-drop, drop-append, drop-drop, append_assoc, append-nil, ltb, Bool-cases,
  inl, inr, if◌then◌else◌, Bytes,
}
use watchlist.AppState.{
  AppState, max_lines, add_bounded, add_outbound, add_received, add_ack, add_activity,
}

pub data Log : Type 0 where
  outbound received acks activity : Log

-- One call of an `Add...` operation.
pub record Event : Type 0 where
  pub log : Log
  pub line : Bytes

module _ {H : Type 0} where
  abbrev add_to : Log → Bytes → AppState H → AppState H
  add_to outbound = add_outbound
  add_to received = add_received
  add_to acks = add_ack
  add_to activity = add_activity

  abbrev pub lines_in : Log → AppState H → List Bytes
  lines_in outbound s = s.outbound
  lines_in received s = s.received
  lines_in acks s = s.acks
  lines_in activity s = s.activity

  -- Whatever threads make the calls, the mutex puts them in one order.
  unfoldable pub record_all : List Event → AppState H → AppState H
  record_all [] s = s
  record_all (e ∷ es) s = record_all es (add_to e.log e.line s)

abbrev same_log : Log → Log → Bool
same_log outbound outbound = true
same_log received received = true
same_log acks acks = true
same_log activity activity = true
same_log _ _ = false

-- Every line that was ever added to one log.
unfoldable pub history : Log → List Event → List Bytes
history l [] = []
history l (e ∷ es) = if same_log l e.log then e.line ∷ history l es else history l es

-- The newest lines, as many as the bound allows.
unfoldable pub newest : List Bytes → List Bytes
newest lines = drop (length lines - max_lines) lines

add_bounded-newest :
    (lines : List Bytes) (line : Bytes) → add_bounded lines line ≡ newest (lines ++ line ∷ [])
unfolding add_bounded newest
add_bounded-newest lines line = elim (Bool-cases (ltb max_lines (length (lines ++ line ∷ [])))) [
  | inl over ↦ rw over
  | inr fits ↦
      let none_dropped : length (lines ++ line ∷ []) - max_lines ≡ 0 = ground arith in
      rw (fits, none_dropped)
]

newest-newest : (xs : List Bytes) (x : Bytes) → newest (newest xs ++ x ∷ []) ≡ newest (xs ++ x ∷ [])
unfolding newest
newest-newest xs x =
    let k : ℕ = length xs - max_lines in
    let kept : length (drop k xs ++ x ∷ []) ≡ length xs - k + 1 =
      omega (arith, length-append (drop k xs) (x ∷ []), length-drop k xs) in
    let whole : length (xs ++ x ∷ []) ≡ length xs + 1 = omega (arith, length-append xs (x ∷ [])) in
    let shift : k + (length xs - k + 1 - max_lines) ≡ length xs + 1 - max_lines = omega arith in
    rw (kept, whole, ← drop-append k xs (x ∷ []) (omega arith), drop-drop) (rw shift)

add_bounded-after :
    (before : List Bytes) {now : List Bytes} (line : Bytes)
    → now ≡ newest before
    → add_bounded now line ≡ newest (before ++ line ∷ [])
add_bounded-after before line h =
    rw h (add_bounded-newest (newest before) line ∙ newest-newest before line)

module _ {H : Type 0} where
  lines_in-add_to :
      (l k : Log) (line : Bytes) (s : AppState H)
      → lines_in l (add_to k line s)
        ≡ (if same_log l k then add_bounded (lines_in l s) line else lines_in l s)
  unfolding add_outbound add_received add_ack add_activity
  lines_in-add_to outbound k line s = ground arith
  lines_in-add_to _ k line s = ground arith

  record_all-newest :
      (l : Log) (es : List Event) (before : List Bytes) (s : AppState H)
      → lines_in l s ≡ newest before
      → lines_in l (record_all es s) ≡ newest (before ++ history l es)
  unfolding record_all history
  record_all-newest l [] before s h = rw append-nil h
  record_all-newest l (e ∷ es) before s h =
      let s' : AppState H = add_to e.log e.line s in
      let step = lines_in-add_to l e.log e.line s in
      elim (Bool-cases (same_log l e.log)) [
        | inl same ↦ rw same (
            record_all-newest l es (before ++ e.line ∷ []) s'
              (step ∙ rw same (add_bounded-after before e.line h))
            ∙ ap newest (append_assoc before (e.line ∷ []) (history l es)))
        | inr other ↦ rw other (record_all-newest l es before s' (step ∙ rw other h))
      ]

  -- From a state whose log `l` is empty, after any calls of the four `Add...` operations, log `l`
  -- holds the newest lines, fifty at most, of those that were added to it, in the order of the calls.
  pub record_all-history :
      (l : Log) (es : List Event) (s : AppState H)
      → lines_in l s ≡ []
      → lines_in l (record_all es s) ≡ newest (history l es)
  record_all-history l es s h = record_all-newest l es [] s (unfold newest in h)

pub length-newest : (lines : List Bytes) → length (newest lines) ≡ min max_lines (length lines)
unfolding newest
length-newest lines = omega (arith, length-drop (length lines - max_lines) lines)
