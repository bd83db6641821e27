-- ===== src/Messaging/Parse/Validation.antt =====
-- Which requests get through the parser.
use watchlist.Prelude.{
  true, Option, none, some, List, [], ◌∷◌, ◌≡◌, ◌≢◌, ◌↔◌, refl, arith, has_value, Bytes, bytes, inl,
  inr, Bool-cases,
}
use watchlist.Messaging.Types.{
  MessageType, MqttRequest, ParseResult, message_type_from_string, is_valid_client_id,
}
use watchlist.Messaging.Json.{JsonLibrary}
use watchlist.Messaging.Parse.{
  missing_required_field, missing_for_type, json_string_value, non_string_envelope_field,
  first_non_string, read_request, checked, typed, named, stringy, parsed, parse_request,
  envelope_fields,
}

-- The optional fields that a type of message cannot do without.
abbrev pub HasFields : MessageType → MqttRequest → Type 0
HasFields MessageType.execute_script r = has_value r.script_name ≡ true
HasFields MessageType.send_to_device r =
    (has_value r.device_id ≡ true) × (has_value r.payload ≡ true)
HasFields MessageType.cmd_to_device r =
    (has_value r.device_id ≡ true) × (has_value r.command ≡ true)
HasFields MessageType.store_database_value r = (has_value r.key ≡ true) × (has_value r.value ≡ true)
HasFields MessageType.query_ai_prompt r = has_value r.prompt ≡ true

pub record IsComplete (r : MqttRequest) : Type 0 where
  pub id_given : r.id ≢ []
  pub created_given : r.created_utc ≢ []
  pub client_valid : is_valid_client_id r.source_client_id ≡ true
  pub fields_given : HasFields r.type r

missing_for_type_iff :
    (t : MessageType) (r : MqttRequest) → (missing_for_type t r ≡ none) ↔ HasFields t r
unfolding missing_for_type
missing_for_type_iff MessageType.execute_script r = (λ h. ground arith, λ h. ground arith)
missing_for_type_iff _ r = (λ h. ground arith, λ h. ground arith)

client_given : (id : Bytes) → is_valid_client_id id ≡ true → id ≢ []
unfolding is_valid_client_id
client_given id h = ground arith

pub missing_required_field_iff :
    (r : MqttRequest) → (missing_required_field r ≡ none) ↔ IsComplete r
unfolding missing_required_field
missing_required_field_iff r = (
  λ h. record {
    id_given = ground arith;
    created_given = ground arith;
    client_valid = ground arith;
    fields_given = (missing_for_type_iff r.type r).0 (ground arith);
  },
  λ c. ground (
    arith,
    c.id_given,
    client_given r.source_client_id c.client_valid,
    (missing_for_type_iff r.type r).1 c.fields_given,
  ),
)

-- A result of the parser is a complete request with no error, under the ids that are reported for
-- it, or no request and an error text.
abbrev pub IsVerdict : Option MqttRequest → ParseResult → Type 0
IsVerdict none p = p.error ≢ []
IsVerdict (some r) p =
    IsComplete r
    × (p.error ≡ [])
    × (p.request_id ≡ r.id)
    × (p.source_client_id ≡ r.source_client_id)

abbrev Verdict : ParseResult → Type 0
Verdict p = IsVerdict p.request p

missing_for_type-ne-nil :
    (t : MessageType) (r : MqttRequest) (e : Bytes) → missing_for_type t r ≡ some e → e ≢ []
unfolding missing_for_type bytes
missing_for_type-ne-nil MessageType.execute_script r e h = ground arith
missing_for_type-ne-nil _ r e h = ground arith

missing_required_field-ne-nil :
    (r : MqttRequest) (e : Bytes) → missing_required_field r ≡ some e → e ≢ []
unfolding missing_required_field bytes
missing_required_field-ne-nil r e h = ground (arith, missing_for_type-ne-nil r.type r e)

module _ (j : JsonLibrary) where
  open j use {Value, parse, is_object, find}

  checked-Verdict :
      (r : MqttRequest) (o : Option Bytes) → missing_required_field r ≡ o → Verdict (checked j r o)
  unfolding checked
  checked-Verdict r none e = ((missing_required_field_iff r).0 e, refl, refl, refl)
  checked-Verdict r (some m) e = missing_required_field-ne-nil r m e

  typed-Verdict :
      (v : Value) (id client name : Bytes) (o : Option MessageType)
      → Verdict (typed j v id client name o)
  unfolding typed
  typed-Verdict v id client name none = unfold bytes in λ h. cc
  typed-Verdict v id client name (some t) = checked-Verdict (read_request j v id client t) _ refl

  named-Verdict :
      (v : Value) (id client : Bytes) (o : Option Bytes) → Verdict (named j v id client o)
  unfolding named
  named-Verdict v id client none = unfold bytes in λ h. cc
  named-Verdict v id client (some name) =
      typed-Verdict v id client name (message_type_from_string name)

  first_non_string-ne-nil :
      (v : Value) (fs : List Bytes) (e : Bytes) → first_non_string j v fs ≡ some e → e ≢ []
  unfolding first_non_string bytes
  first_non_string-ne-nil v [] e h = cc
  first_non_string-ne-nil v (f ∷ fs) e h = ground (arith, first_non_string-ne-nil v fs e)

  stringy-Verdict :
      (v : Value) (id client : Bytes) (o : Option Bytes)
      → ((e : Bytes) → o ≡ some e → e ≢ [])
      → Verdict (stringy j v id client o)
  unfolding stringy
  stringy-Verdict v id client none h =
      named-Verdict v id client (json_string_value j v (bytes "type"))
  stringy-Verdict v id client (some e) h = h e refl

  parsed-Verdict : (o : Option Value) → Verdict (parsed j o)
  unfolding parsed
  parsed-Verdict none = unfold bytes in λ h. cc
  parsed-Verdict (some v) = elim (Bool-cases (is_object v)) [
    | inl yes' ↦ rw yes' (
        stringy-Verdict v _ _ (non_string_envelope_field j v) (λ e h.
          first_non_string-ne-nil v envelope_fields e (unfold non_string_envelope_field in h)))
    | inr no' ↦ rw no' (unfold bytes in λ h. cc)
  ]

  -- Whatever the JSON library makes of the text, the parser gives a request with an id, a time, a
  -- valid client id and the fields that its type needs, reports the request's own ids for it, and has
  -- no error text; or it gives no request and an error text.
  pub parse_request-IsVerdict :
      (text : Bytes) → IsVerdict (parse_request j text).request (parse_request j text)
  unfolding parse_request
  parse_request-IsVerdict text = parsed-Verdict (parse text)
