-- ===== src/Messaging/Parse/RoundTrip.antt =====
-- The parser reads back what the serializer writes.
use watchlist.Prelude.{
  true, false, Option, none, some, List, [], ◌∷◌, ◌≡◌, refl, ap, ◌∙◌, Bytes, bytes, equal, lookup,
  All,
}
use watchlist.Messaging.Types.{
  MessageType, MqttRequest, ParseResult, to_string, message_type_from_string,
}
use watchlist.Messaging.Json.{JsonLibrary, ReadsObjects, IsObjectOf, Holds}
use watchlist.Messaging.Serialize.{serialize_request}
use watchlist.Messaging.Serialize.Grammar.{
  members_of, request_fields, joined, serialize_request-joined,
}
use watchlist.Messaging.Serialize.Members.{
  IsEncodableField, members_of-encodable, AreTexts-members, MembersText-joined, are_distinct,
  HasDistinctNames-members, lookup-members_of, field,
}
use watchlist.Messaging.Parse.{
  json_string_value, string_of, is_not_string, first_non_string, non_string_envelope_field,
  envelope_fields, read_request, parsed, stringy, named, typed, checked, parse_request,
}
use watchlist.Messaging.Parse.Validation.{IsComplete, missing_required_field_iff}

-- Every type is found under its own name.
pub message_type_from_string-to_string :
    (t : MessageType) → message_type_from_string (to_string t) ≡ some t
unfolding message_type_from_string to_string equal bytes
message_type_from_string-to_string MessageType.execute_script = refl
message_type_from_string-to_string _ = refl

-- Every string of the request is UTF-8 without the control characters that the serializer does not
-- escape.
pub record HasTexts (r : MqttRequest) : Type 0 where
  pub encodable : All IsEncodableField (request_fields r)

distinct : (r : MqttRequest) → are_distinct (request_fields r) ≡ true
unfolding are_distinct equal bytes
distinct r = refl

abbrev pub accepted : MqttRequest → Bytes → Bytes → ParseResult
accepted r id client = record {
  request = some r;
  request_id = id;
  source_client_id = client;
  error = [];
}

module _ (j : JsonLibrary) where
  open j use {Value, parse, is_object, find, is_string, get}

  string_of-Holds : (o : Option Value) (s : Option Bytes) → Holds j o s → string_of j o ≡ s
  unfolding string_of
  string_of-Holds none none h = refl
  string_of-Holds none (some s) h = absurd h
  string_of-Holds (some w) none h = absurd h
  string_of-Holds (some w) (some s) h = rw (h.0, h.1)

  is_not_string-Holds :
      (o : Option Value) (s : Option Bytes) → Holds j o s → is_not_string j o ≡ false
  unfolding is_not_string
  is_not_string-Holds none none h = refl
  is_not_string-Holds none (some s) h = absurd h
  is_not_string-Holds (some w) none h = absurd h
  is_not_string-Holds (some w) (some s) h = rw h.0

  first_non_string-none :
      (v : Value) (fs : List Bytes)
      → ((name : Bytes) → is_not_string j (find v name) ≡ false)
      → first_non_string j v fs ≡ none
  unfolding first_non_string
  first_non_string-none v [] h = refl
  first_non_string-none v (f ∷ fs) h = rw (h f) (first_non_string-none v fs h)

  module _ (r : MqttRequest) (v : Value) (o : IsObjectOf j (members_of (request_fields r)) v) where
    value_of : (name : Bytes) → json_string_value j v name ≡ field name (request_fields r)
    unfolding json_string_value
    value_of name =
        string_of-Holds (find v name) (lookup name (members_of (request_fields r))) (o.holds name)
        ∙ lookup-members_of name (request_fields r) (distinct r)

    all_strings : non_string_envelope_field j v ≡ none
    unfolding non_string_envelope_field
    all_strings =
        first_non_string-none v envelope_fields
          (λ name. is_not_string-Holds (find v name) _ (o.holds name))

    fields_found :
        (json_string_value j v (bytes "id") ≡ some r.id)
        × (json_string_value j v (bytes "type") ≡ some (to_string r.type))
        × (json_string_value j v (bytes "created_utc") ≡ some r.created_utc)
        × (json_string_value j v (bytes "source_client_id") ≡ some r.source_client_id)
        × (json_string_value j v (bytes "script_name") ≡ r.script_name)
        × (json_string_value j v (bytes "device_id") ≡ r.device_id)
        × (json_string_value j v (bytes "payload") ≡ r.payload)
        × (json_string_value j v (bytes "command") ≡ r.command)
        × (json_string_value j v (bytes "key") ≡ r.key)
        × (json_string_value j v (bytes "value") ≡ r.value)
        × (json_string_value j v (bytes "prompt") ≡ r.prompt)
    unfolding field equal bytes
    fields_found = (
      value_of (bytes "id"),
      value_of (bytes "type"),
      value_of (bytes "created_utc"),
      value_of (bytes "source_client_id"),
      value_of (bytes "script_name"),
      value_of (bytes "device_id"),
      value_of (bytes "payload"),
      value_of (bytes "command"),
      value_of (bytes "key"),
      value_of (bytes "value"),
      value_of (bytes "prompt"),
    )

    read_request-same : read_request j v r.id r.source_client_id r.type ≡ r
    read_request-same =
        let (_, _, created, _, script, device, payload, command, key, value, prompt) =
          fields_found in
        rw (created, script, device, payload, command, key, value, prompt) refl

    parsed-same : IsComplete r → parsed j (some v) ≡ accepted r r.id r.source_client_id
    unfolding parsed
    parsed-same c =
        let (id, type, _, client, _, _, _, _, _, _, _) = fields_found in
        rw (o.object, all_strings, id, client, stringy)
          (rw (type, named, message_type_from_string-to_string r.type, typed)
            (rw (read_request-same, (missing_required_field_iff r).1 c, checked)
              (ap (λ (x : MqttRequest). accepted x r.id r.source_client_id) read_request-same)))

  -- On a library that reads the objects of RFC 8259, every complete request whose strings are UTF-8
  -- without unescaped control characters comes back from its serialized text as it was, with its ids
  -- and without an error.
  pub parse_request-serialize_request :
      (r : MqttRequest)
      → ReadsObjects j
      → IsComplete r
      → HasTexts r
      → parse_request j (serialize_request r) ≡ accepted r r.id r.source_client_id
  unfolding parse_request
  parse_request-serialize_request r reads c t =
      let good = members_of-encodable (request_fields r) t.encodable in
      let (v, read, o) =
        reads.reads (joined true (members_of (request_fields r))) (members_of (request_fields r))
          (MembersText-joined _ _ _ good) (HasDistinctNames-members (request_fields r) (distinct r))
          (AreTexts-members (members_of (request_fields r)) good) in
      rw (serialize_request-joined r, read) (parsed-same r v o c)
