-- ===== src/Messaging/Parse.antt =====
-- `ParseRequest` of src/Watchlist/Messaging/MqttMessages.cpp, over the JSON library.
pub mod Validation
pub mod RoundTrip
use watchlist.Prelude.{
  Bool, true, false, not, ◌||◌, Option, none, some, List, [], ◌∷◌, ◌++◌, if◌then◌else◌, is_empty,
  value_or, has_value, Bytes, bytes,
}
use watchlist.Messaging.Types.{
  MessageType, MqttRequest, ParseResult, message_type_from_string, is_valid_client_id,
}
use watchlist.Messaging.Json.{JsonLibrary}

abbrev missing : Bytes → Option Bytes
missing name = some (bytes "missing required field: " ++ name)

-- The `switch` over the request's type.
missing_for_type : MessageType → MqttRequest → Option Bytes
missing_for_type MessageType.execute_script r =
    if not (has_value r.script_name) then missing (bytes "script_name") else none
missing_for_type MessageType.send_to_device r =
    if not (has_value r.device_id)
    then missing (bytes "device_id")
    else if not (has_value r.payload)
    then missing (bytes "payload")
    else none
missing_for_type MessageType.cmd_to_device r =
    if not (has_value r.device_id)
    then missing (bytes "device_id")
    else if not (has_value r.command)
    then missing (bytes "command")
    else none
missing_for_type MessageType.store_database_value r =
    if not (has_value r.key)
    then missing (bytes "key")
    else if not (has_value r.value)
    then missing (bytes "value")
    else none
missing_for_type MessageType.query_ai_prompt r =
    if not (has_value r.prompt) then missing (bytes "prompt") else none

unfoldable pub missing_required_field : MqttRequest → Option Bytes
unfolding missing_for_type
missing_required_field r =
    if is_empty r.id
    then missing (bytes "id")
    else if is_empty r.created_utc
    then missing (bytes "created_utc")
    else if is_empty r.source_client_id
    then missing (bytes "source_client_id")
    else if not (is_valid_client_id r.source_client_id)
    then some (bytes "invalid field: source_client_id")
    else missing_for_type r.type r

abbrev pub envelope_fields : List Bytes
envelope_fields =
    bytes "id"
    ∷ bytes "type"
    ∷ bytes "created_utc"
    ∷ bytes "source_client_id"
    ∷ bytes "script_name"
    ∷ bytes "device_id"
    ∷ bytes "payload"
    ∷ bytes "command"
    ∷ bytes "key"
    ∷ bytes "value"
    ∷ bytes "prompt"
    ∷ []

module _ (j : JsonLibrary) where
  open j use {Value, parse, is_object, find, is_string, get}

  string_of : Option Value → Option Bytes
  string_of none = none
  string_of (some found) = if not (is_string found) then none else some (get found)

  unfoldable pub json_string_value : Value → Bytes → Option Bytes
  unfolding string_of
  json_string_value json key = string_of (find json key)

  is_not_string : Option Value → Bool
  is_not_string none = false
  is_not_string (some found) = not (is_string found)

  -- The loop of `NonStringEnvelopeField` over the field names.
  first_non_string : Value → List Bytes → Option Bytes
  first_non_string json [] = none
  first_non_string json (field ∷ fields) =
      if is_not_string (find json field)
      then some (bytes "field must be a string: " ++ field)
      else first_non_string json fields

  unfoldable pub non_string_envelope_field : Value → Option Bytes
  unfolding first_non_string is_not_string
  non_string_envelope_field json = first_non_string json envelope_fields

  abbrev pub read_request : Value → Bytes → Bytes → MessageType → MqttRequest
  read_request object id client type = record {
    id = id;
    type = type;
    created_utc = value_or (json_string_value object (bytes "created_utc")) [];
    source_client_id = client;
    script_name = json_string_value object (bytes "script_name");
    device_id = json_string_value object (bytes "device_id");
    payload = json_string_value object (bytes "payload");
    command = json_string_value object (bytes "command");
    key = json_string_value object (bytes "key");
    value = json_string_value object (bytes "value");
    prompt = json_string_value object (bytes "prompt");
  }

  abbrev pub rejected : Bytes → Bytes → Bytes → ParseResult
  rejected id client error = record {
    request = none;
    request_id = id;
    source_client_id = client;
    error = error;
  }

  -- The last check, on the request that was read.
  checked : MqttRequest → Option Bytes → ParseResult
  checked r (some error) = rejected r.id r.source_client_id error
  checked r none = record {
    request = some r;
    request_id = r.id;
    source_client_id = r.source_client_id;
    error = [];
  }

  typed : Value → Bytes → Bytes → Bytes → Option MessageType → ParseResult
  unfolding checked
  typed object id client name none = rejected id client (bytes "unknown message type: " ++ name)
  typed object id client name (some type) =
      let r = read_request object id client type in checked r (missing_required_field r)

  named : Value → Bytes → Bytes → Option Bytes → ParseResult
  unfolding typed
  named object id client none = rejected id client (bytes "missing required field: type")
  named object id client (some name) = typed object id client name (message_type_from_string name)

  stringy : Value → Bytes → Bytes → Option Bytes → ParseResult
  unfolding named
  stringy object id client (some error) = rejected id client error
  stringy object id client none = named object id client (json_string_value object (bytes "type"))

  parsed : Option Value → ParseResult
  unfolding stringy
  parsed none = rejected [] [] (bytes "invalid JSON object")
  parsed (some object) =
      if not (is_object object)
      then rejected [] [] (bytes "invalid JSON object")
      else stringy object (value_or (json_string_value object (bytes "id")) [])
          (value_or (json_string_value object (bytes "source_client_id")) [])
          (non_string_envelope_field object)

  unfoldable pub parse_request : Bytes → ParseResult
  unfolding parsed
  parse_request json = parsed (parse json)
