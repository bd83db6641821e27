-- ===== src/Messaging/Serialize.antt =====
-- The serializers of src/Watchlist/Messaging/MqttMessages.cpp. A writer is the text of the
-- `std::ostringstream` with the flag `first`.
pub mod Grammar
pub mod Members
use watchlist.Prelude.{
  ℕ, Bool, true, false, Option, none, some, [], ◌∷◌, ◌++◌, ◌==◌, if◌then◌else◌, Bytes, bytes,
}
use watchlist.Messaging.Types.{MqttRequest, MqttAck, to_string}

unfoldable pub escape_char : ℕ → Bytes
escape_char c =
    if c == b'\\'
    then b'\\' ∷ b'\\' ∷ []
    else if c == b'"'
    then b'\\' ∷ b'"' ∷ []
    else if c == b'\n'
    then b'\\' ∷ b'n' ∷ []
    else if c == b'\r'
    then b'\\' ∷ b'r' ∷ []
    else if c == b'\t'
    then b'\\' ∷ b't' ∷ []
    else c ∷ []

unfoldable pub escape_json : Bytes → Bytes
unfolding escape_char
escape_json [] = []
escape_json (c ∷ cs) = escape_char c ++ escape_json cs

pub record Writer : Type 0 where
  pub stream : Bytes
  pub first : Bool

abbrev pub opened : Writer
opened = record { stream = b'{' ∷ []; first = true }

-- One member of the object, with its quotes and colon.
abbrev pub member : Bytes → Bytes → Bytes
member name value = b'"' ∷ (name ++ (b'"' ∷ b':' ∷ b'"' ∷ (escape_json value ++ b'"' ∷ [])))

unfoldable pub append_field : Bytes → Bytes → Writer → Writer
append_field name value w = record {
  stream = (if w.first then w.stream else w.stream ++ b',' ∷ []) ++ member name value;
  first = false;
}

unfoldable pub append_optional_field : Bytes → Option Bytes → Writer → Writer
append_optional_field name none w = w
append_optional_field name (some value) w = append_field name value w

unfoldable pub close : Writer → Bytes
close w = w.stream ++ b'}' ∷ []

unfoldable pub serialize_request : MqttRequest → Bytes
unfolding append_field append_optional_field close
serialize_request r =
    let w = append_field (bytes "id") r.id opened in
    let w = append_field (bytes "type") (to_string r.type) w in
    let w = append_field (bytes "created_utc") r.created_utc w in
    let w = append_field (bytes "source_client_id") r.source_client_id w in
    let w = append_optional_field (bytes "script_name") r.script_name w in
    let w = append_optional_field (bytes "device_id") r.device_id w in
    let w = append_optional_field (bytes "payload") r.payload w in
    let w = append_optional_field (bytes "command") r.command w in
    let w = append_optional_field (bytes "key") r.key w in
    let w = append_optional_field (bytes "value") r.value w in
    let w = append_optional_field (bytes "prompt") r.prompt w in close w

unfoldable pub serialize_ack : MqttAck → Bytes
unfolding append_field close
serialize_ack a =
    let w = append_field (bytes "request_id") a.request_id opened in
    let w = append_field (bytes "status") a.status w in
    let w = append_field (bytes "message") a.message w in
    let w = append_field (bytes "completed_utc") a.completed_utc w in close w

-- `now` is the time that `UtcNowIso8601` reads from the system clock.
unfoldable pub make_ack : Bytes → Bytes → Bytes → Bytes → MqttAck
make_ack now request_id status message = record {
  request_id = request_id;
  status = status;
  message = message;
  completed_utc = now;
}
