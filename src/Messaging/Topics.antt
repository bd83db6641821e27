-- ===== src/Messaging/Topics.antt =====
-- `TopicMatches` of src/Watchlist/Messaging/MqttService.cpp, which chooses the handlers of a message.
-- Each round takes a level off the filter, so that one more than its length is fuel enough.
pub mod Decides
pub mod Acks
use watchlist.Prelude.{
  ℕ, zero, suc, Bool, true, false, not, ◌&&◌, none, some, [], ◌∷◌, length, if◌then◌else◌, has_value,
  Bytes, bytes, equal,
}
use watchlist.Storage.Address.{cut}

abbrev pub slash : ℕ
slash = b'/'

unfoldable pub topic_matches_loop : ℕ → Bytes → Bytes → Bool
unfolding cut
topic_matches_loop zero filter topic = false
topic_matches_loop (suc fuel) filter topic =
    let (filter_level, filter_rest) = cut slash filter in
    let (topic_level, topic_rest) = cut slash topic in
    if equal filter_level (b'#' ∷ [])
    then not (has_value filter_rest)
    else if not (equal filter_level (b'+' ∷ [])) && not (equal filter_level topic_level)
    then false
    else elim filter_rest [
      | none ↦ not (has_value topic_rest)
      | some f ↦ elim topic_rest [ none ↦ false | some t ↦ topic_matches_loop fuel f t ]
    ]

unfoldable pub topic_matches : Bytes → Bytes → Bool
unfolding topic_matches_loop
topic_matches filter topic = topic_matches_loop (suc (length filter)) filter topic
