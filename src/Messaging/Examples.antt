-- ===== src/Messaging/Examples.antt =====
-- The parser and the serializer of src/Watchlist/Messaging/MqttMessages.cpp on one request, and the topics
-- of its client.
pub mod FlatJson
use watchlist.Prelude.{
  true, ◌↔◌, none, some, [], ◌∷◌, ◌≡◌, refl, arith, Bytes, bytes, equal, all_of,
}
use watchlist.Messaging.Topics.{topic_matches}
use watchlist.Messaging.Topics.Decides.{Matches, topic_matches_iff}
use watchlist.Messaging.Topics.Acks.{topic_matches-ack_topic}
use watchlist.Messaging.Types.{
  ack_topic_for_client, MessageType, MqttRequest, is_valid_client_id, to_string,
}
use watchlist.Messaging.Serialize.{serialize_request}
use watchlist.Messaging.Serialize.Grammar.{plain-IsUtf8, is_plain, is_writable}
use watchlist.Messaging.Parse.{parse_request}
use watchlist.Messaging.Parse.Validation.{IsComplete, IsVerdict, parse_request-IsVerdict}
use watchlist.Messaging.Parse.RoundTrip.{HasTexts, accepted, parse_request-serialize_request}
use watchlist.Messaging.Examples.FlatJson.{flat_json, flat_json-ReadsObjects}

abbrev request : MqttRequest
request = record {
  id = bytes "r-1";
  type = MessageType.query_ai_prompt;
  created_utc = bytes "2024-01-01T00:00:00Z";
  source_client_id = bytes "desk.2";
  script_name = none;
  device_id = none;
  payload = none;
  command = none;
  key = none;
  value = none;
  prompt = some (bytes "hi");
}

request-IsComplete : IsComplete request
unfolding bytes is_valid_client_id
request-IsComplete = record {
  id_given = λ e. cc;
  created_given = λ e. cc;
  client_valid = refl;
  fields_given = refl;
}

request-HasTexts : HasTexts request
unfolding bytes all_of is_plain is_writable to_string
request-HasTexts = record {
  encodable = (
    (refl, (refl, plain-IsUtf8 _ refl)),
    (
      (refl, (refl, plain-IsUtf8 _ refl)),
      (
        (refl, (refl, plain-IsUtf8 _ refl)),
        (
          (refl, (refl, plain-IsUtf8 _ refl)),
          (refl, (refl, (refl, (refl, (refl, (refl, ((refl, (refl, plain-IsUtf8 _ refl)), tt))))))),
        ),
      ),
    ),
  );
}

parse_request-serialize_request_example :
    parse_request flat_json (serialize_request request)
    ≡ accepted request (bytes "r-1") (bytes "desk.2")
parse_request-serialize_request_example =
    parse_request-serialize_request flat_json request flat_json-ReadsObjects request-IsComplete
      request-HasTexts

parse_request-IsVerdict_example :
    IsVerdict
      (parse_request flat_json (serialize_request request)).request
      (parse_request flat_json (serialize_request request))
parse_request-IsVerdict_example = parse_request-IsVerdict flat_json (serialize_request request)

topic_matches_iff_example :
    (topic_matches (bytes "home/+/#") (bytes "home/hall/lamp") ≡ true)
    ↔ Matches (bytes "home/+/#") (bytes "home/hall/lamp")
topic_matches_iff_example = topic_matches_iff (bytes "home/+/#") (bytes "home/hall/lamp")

desk_valid : is_valid_client_id (bytes "desk.2") ≡ true
unfolding bytes is_valid_client_id
desk_valid = refl

topic_matches-ack_topic_example :
    (topic_matches (ack_topic_for_client (bytes "desk.2")) (bytes "watchlist/acks/desk.1") ≡ true)
    ↔ (bytes "watchlist/acks/desk.1" ≡ ack_topic_for_client (bytes "desk.2"))
topic_matches-ack_topic_example =
    topic_matches-ack_topic (bytes "desk.2") (bytes "watchlist/acks/desk.1") desk_valid
