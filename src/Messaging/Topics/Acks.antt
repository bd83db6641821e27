-- ===== src/Messaging/Topics/Acks.antt =====
-- The topic of a client's acknowledgements, src/Watchlist/Messaging/MqttTopics.hpp, as a filter.
use watchlist.Prelude.{
  ℕ, zero, suc, ◌+◌, ◌<◌, true, false, Option, none, some, [], ◌∷◌, ◌++◌, ◌≡◌, ◌≢◌, ◌↔◌, inl, inr,
  refl, sym, ap, ◌∙◌, arith, length, length-append, Bytes, bytes, is_alnum, is_alpha, is_digit,
}
use watchlist.Storage.Address.{cut, contains}
use watchlist.Storage.Address.Pieces.{contains-append, WasCut, cut-WasCut}
use watchlist.Storage.Address.Decides.{contains-all_of}
use watchlist.Messaging.Types.{is_valid_client_id, is_client_id_byte, ack_topic_for_client}
use watchlist.Messaging.Topics.{slash, topic_matches}
use watchlist.Messaging.Topics.Decides.{Matches, everything, last, more, topic_matches_iff}

record IsPlain (filter : Bytes) : Type 0 where
  no_hash : contains b'#' filter ≡ false
  no_plus : contains b'+' filter ≡ false

IsPlain-parts : (f r : Bytes) → IsPlain (f ++ (slash ∷ r)) → IsPlain f × IsPlain r
unfolding contains
IsPlain-parts f r p =
    let h = sym (contains-append b'#' f (slash ∷ r)) ∙ p.no_hash in
    let k = sym (contains-append b'+' f (slash ∷ r)) ∙ p.no_plus in
    (
      record { no_hash = ground (arith, h); no_plus = ground (arith, k) },
      record { no_hash = ground (arith, h); no_plus = ground (arith, k) },
    )

Matches-plain : {filter topic : Bytes} → IsPlain filter → Matches filter topic → topic ≡ filter
unfolding contains
Matches-plain p (everything e) = absurd (let h = rw e at p.no_hash in cc)
Matches-plain p (last a b n (inl e)) = absurd (let h = rw e at p.no_plus in cc)
Matches-plain p (last a b n (inr e)) = sym e
Matches-plain {filter} {topic} p (more f fr t r a b n (inl plus) e e' m) =
    absurd (let h = rw plus at (IsPlain-parts f fr (rw e at p)).0.no_plus in cc)
Matches-plain {filter} {topic} p (more f fr t r a b n (inr same) e e' m) =
    let rest : r ≡ fr = Matches-plain (IsPlain-parts f fr (rw e at p)).1 m in
    e' ∙ rw (rest, ← same) (sym e)

plain-ne-hash : (f : Bytes) → IsPlain f → f ≢ b'#' ∷ []
unfolding contains
plain-ne-hash f p e = let h = rw e at p.no_hash in cc

plain-Matches : (fuel : ℕ) (f : Bytes) → length f < fuel → IsPlain f → Matches f f
plain-Matches zero f l p = absurd (omega arith)
plain-Matches (suc fuel) f l p = split (cut slash f) (cut-WasCut slash f) (plain-Matches fuel)
  where
    split :
        (x : Bytes × Option Bytes)
        → WasCut slash f x
        → ((r : Bytes) → length r < fuel → IsPlain r → Matches r r)
        → Matches f f
    split (part, none) w later = last (rw (w.0) w.1) (rw (w.0) w.1) (plain-ne-hash f p) (inr refl)
    split (part, some rest) w later =
        let size : length f ≡ length part + suc (length rest) =
          ap length w.0 ∙ length-append part (slash ∷ rest) in
        let (a, b) = IsPlain-parts part rest (rw w.0 at p) in
        more part rest part rest w.1 w.1 (plain-ne-hash part a) (inr refl) w.0 w.0
          (later rest (omega arith) b)

ack_topic-IsPlain :
    (client_id : Bytes)
    → is_valid_client_id client_id ≡ true
    → IsPlain (ack_topic_for_client client_id)
unfolding is_valid_client_id ack_topic_for_client is_client_id_byte is_alnum is_alpha is_digit
    contains bytes
ack_topic-IsPlain client_id v = record {
  no_hash =
      contains-append b'#' (bytes "watchlist/acks/") client_id
      ∙ contains-all_of b'#' is_client_id_byte client_id (λ c h. ground arith) (ground arith);
  no_plus =
      contains-append b'+' (bytes "watchlist/acks/") client_id
      ∙ contains-all_of b'+' is_client_id_byte client_id (λ c h. ground arith) (ground arith);
}

-- A client with a valid id that subscribes to its own acknowledgement topic receives the messages on
-- that topic and on no other.
pub topic_matches-ack_topic :
    (client_id topic : Bytes)
    → is_valid_client_id client_id ≡ true
    → (topic_matches (ack_topic_for_client client_id) topic ≡ true)
      ↔ (topic ≡ ack_topic_for_client client_id)
topic_matches-ack_topic client_id topic v =
    let plain = ack_topic-IsPlain client_id v in
    let mine : Bytes = ack_topic_for_client client_id in
    (
      λ h. Matches-plain plain ((topic_matches_iff mine topic).0 h),
      λ e. rw e (
          (topic_matches_iff mine mine).1
            (plain-Matches (suc (length mine)) mine (omega arith) plain)),
    )
