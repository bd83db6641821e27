-- ===== src/Messaging/Topics/Decides.antt =====
-- Which topics a filter matches.
use watchlist.Prelude.{
  ℕ, zero, suc, ◌+◌, ◌<◌, Bool, true, false, not, ◌&&◌, Option, none, some, [], ◌∷◌, ◌++◌, ◌≡◌, ◌≢◌,
  ◌↔◌, ◌⊎◌, inl, inr, refl, sym, ap, ◌∙◌, arith, Bool-cases, length, length-append, if◌then◌else◌,
  has_value, Bytes, equal, equal_iff,
}
use watchlist.Storage.Address.{cut, contains}
use watchlist.Storage.Address.Pieces.{WasCut, cut-WasCut, cut-without, cut-append}
use watchlist.Messaging.Topics.{slash, topic_matches_loop, topic_matches}

abbrev IsLevel : Bytes → Type 0
IsLevel level = contains slash level ≡ false

abbrev AreSame : Bytes → Bytes → Type 0
AreSame f t = (f ≡ b'+' ∷ []) ⊎ (f ≡ t)

-- A level of the filter stands for the same level of the topic, `+` for any one level, and `#` at the
-- end for the levels that are left, of which there is at least one.
pub data Matches : Bytes → Bytes → Type 0 where
  everything : {filter topic : Bytes} → filter ≡ b'#' ∷ [] → Matches filter topic
  last :
      {filter topic : Bytes}
      → IsLevel filter
      → IsLevel topic
      → filter ≢ b'#' ∷ []
      → AreSame filter topic
      → Matches filter topic
  more :
      {filter topic : Bytes} (f filter_rest t topic_rest : Bytes)
      → IsLevel f
      → IsLevel t
      → f ≢ b'#' ∷ []
      → AreSame f t
      → filter ≡ f ++ (slash ∷ filter_rest)
      → topic ≡ t ++ (slash ∷ topic_rest)
      → Matches filter_rest topic_rest
      → Matches filter topic

-- A round, after both texts were cut.
round_from : ℕ → Bytes × Option Bytes → Bytes × Option Bytes → Bool
round_from fuel (f, fr) (t, tr) =
    if equal f (b'#' ∷ [])
    then not (has_value fr)
    else if not (equal f (b'+' ∷ [])) && not (equal f t)
    then false
    else elim fr [
      | none ↦ not (has_value tr)
      | some fr' ↦ elim tr [ none ↦ false | some tr' ↦ topic_matches_loop fuel fr' tr' ]
    ]

round_lem :
    (fuel : ℕ) (filter topic : Bytes)
    → topic_matches_loop (suc fuel) filter topic
      ≡ round_from fuel (cut slash filter) (cut slash topic)
unfolding topic_matches_loop round_from
round_lem fuel filter topic = refl

same_of : (f t : Bytes) → (not (equal f (b'+' ∷ [])) && not (equal f t)) ≡ false → AreSame f t
same_of f t h = elim (Bool-cases (equal f (b'+' ∷ []))) [
  | inl e ↦ inl ((equal_iff f (b'+' ∷ [])).0 e)
  | inr e ↦ inr ((equal_iff f t).0 (ground arith))
]

of_same : (f t : Bytes) → AreSame f t → (not (equal f (b'+' ∷ [])) && not (equal f t)) ≡ false
of_same f t (inl e) = let h = (equal_iff f (b'+' ∷ [])).1 e in ground (arith, h)
of_same f t (inr e) = let h = (equal_iff f t).1 e in ground (arith, h)

not_hash : (f : Bytes) → f ≢ b'#' ∷ [] → equal f (b'#' ∷ []) ≡ false
not_hash f n = elim (Bool-cases (equal f (b'#' ∷ []))) [
  | inl e ↦ absurd (n ((equal_iff f (b'#' ∷ [])).0 e))
  | inr e ↦ e
]

hash_not : (f : Bytes) → equal f (b'#' ∷ []) ≡ false → f ≢ b'#' ∷ []
hash_not f n e = let h = (equal_iff f (b'#' ∷ [])).1 e in cc

abbrev Loop : ℕ → Type 0
Loop fuel = (f t : Bytes) → topic_matches_loop fuel f t ≡ true → Matches f t

round_from-Matches :
    (fuel : ℕ) (filter topic : Bytes) (x y : Bytes × Option Bytes)
    → Loop fuel
    → WasCut slash filter x
    → WasCut slash topic y
    → round_from fuel x y ≡ true
    → Matches filter topic
unfolding round_from
round_from-Matches fuel filter topic (f, fr) (t, tr) loop a b h =
    elim (Bool-cases (equal f (b'#' ∷ []))) [
      | inl e ↦ hashed fr a (rw e at h) ((equal_iff f (b'#' ∷ [])).0 e)
      | inr e ↦ elim (Bool-cases (not (equal f (b'+' ∷ [])) && not (equal f t))) [
        | inl bad ↦ absurd (let h' = rw (e, bad) at h in cc)
        | inr good ↦ levels fr tr a b (rw (e, good) at h) (hash_not f e) (same_of f t good)
      ]
    ]
  where
    hashed :
        (fr : Option Bytes)
        → WasCut slash filter (f, fr)
        → not (has_value fr) ≡ true
        → f ≡ b'#' ∷ []
        → Matches filter topic
    hashed none a h e = everything (a.0 ∙ e)
    hashed (some r) a h e = absurd cc

    levels :
        (fr tr : Option Bytes)
        → WasCut slash filter (f, fr)
        → WasCut slash topic (t, tr)
        → elim fr [
          | none ↦ not (has_value tr)
          | some fr' ↦ elim tr [ none ↦ false | some tr' ↦ topic_matches_loop fuel fr' tr' ]
        ]
          ≡ true
        → f ≢ b'#' ∷ []
        → AreSame f t
        → Matches filter topic
    levels none none a b h n same = rw (a.0, b.0) (last a.1 b.1 n same)
    levels none (some tr') a b h n same = absurd cc
    levels (some fr') none a b h n same = absurd cc
    levels (some fr') (some tr') a b h n same =
        more f fr' t tr' a.1 b.1 n same a.0 b.0 (loop fr' tr' h)

level_loop_lem : (fuel : ℕ) → Loop fuel
unfolding topic_matches_loop
level_loop_lem zero f t h = absurd cc
level_loop_lem (suc fuel) f t h =
    round_from-Matches fuel f t (cut slash f) (cut slash t) (level_loop_lem fuel)
      (cut-WasCut slash f) (cut-WasCut slash t) (sym (round_lem fuel f t) ∙ h)

Matches-loop :
    (fuel : ℕ) (filter topic : Bytes)
    → length filter < fuel
    → Matches filter topic
    → topic_matches_loop fuel filter topic ≡ true
unfolding round_from
Matches-loop zero filter topic l m = absurd (omega arith)
Matches-loop (suc fuel) filter topic l (everything e) =
    rw e (unfold topic_matches_loop cut equal in refl)
Matches-loop (suc fuel) filter topic l (last a b n same) =
    round_lem fuel filter topic
    ∙ rw
        (
          cut-without slash filter a,
          cut-without slash topic b,
          not_hash filter n,
          of_same filter topic same,
        )
        refl
Matches-loop (suc fuel) filter topic l (more f fr t tr a b n same e e' m) =
    let size : length filter ≡ length f + suc (length fr) =
      ap length e ∙ length-append f (slash ∷ fr) in
    let later : topic_matches_loop fuel fr tr ≡ true = Matches-loop fuel fr tr (omega arith) m in
    let cut_f : cut slash filter ≡ (f, some fr) = ap (cut slash) e ∙ cut-append slash f fr a in
    let cut_t : cut slash topic ≡ (t, some tr) = ap (cut slash) e' ∙ cut-append slash t tr b in
    round_lem fuel filter topic ∙ rw (cut_f, cut_t, not_hash f n, of_same f t same) later

-- A filter matches a topic exactly when they agree level by level, where `+` stands for any one level,
-- and `#` as the last level for one or more levels.
pub topic_matches_iff :
    (filter topic : Bytes) → (topic_matches filter topic ≡ true) ↔ Matches filter topic
unfolding topic_matches
topic_matches_iff filter topic = (
  level_loop_lem (suc (length filter)) filter topic,
  Matches-loop (suc (length filter)) filter topic (omega arith),
)
