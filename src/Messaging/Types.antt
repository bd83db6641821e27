-- ===== src/Messaging/Types.antt =====
-- src/Watchlist/Messaging/MqttMessages.hpp and MqttTopics.hpp, with the functions of
-- src/Watchlist/Messaging/MqttMessages.cpp on message types and client ids.
use watchlist.Prelude.{
  ℕ, Bool, false, ◌||◌, Option, none, some, ◌++◌, length, ltb, ◌==◌, if◌then◌else◌, is_empty, Bytes,
  bytes, equal, all_of, is_alnum,
}

pub data MessageType : Type 0 where
  execute_script send_to_device cmd_to_device store_database_value query_ai_prompt : MessageType

pub record MqttRequest : Type 0 where
  pub id : Bytes
  pub type : MessageType
  pub created_utc : Bytes
  pub source_client_id : Bytes
  pub script_name : Option Bytes
  pub device_id : Option Bytes
  pub payload : Option Bytes
  pub command : Option Bytes
  pub key : Option Bytes
  pub value : Option Bytes
  pub prompt : Option Bytes

pub record MqttAck : Type 0 where
  pub request_id : Bytes
  pub status : Bytes
  pub message : Bytes
  pub completed_utc : Bytes

pub record ParseResult : Type 0 where
  pub request : Option MqttRequest
  pub request_id : Bytes
  pub source_client_id : Bytes
  pub error : Bytes

-- `ToString`
unfoldable pub to_string : MessageType → Bytes
to_string MessageType.execute_script = bytes "execute_script"
to_string MessageType.send_to_device = bytes "send_to_device"
to_string MessageType.cmd_to_device = bytes "cmd_to_device"
to_string MessageType.store_database_value = bytes "store_database_value"
to_string MessageType.query_ai_prompt = bytes "query_AI_prompt"

unfoldable pub message_type_from_string : Bytes → Option MessageType
message_type_from_string value =
    if equal value (bytes "execute_script")
    then some MessageType.execute_script
    else if equal value (bytes "send_to_device")
    then some MessageType.send_to_device
    else if equal value (bytes "cmd_to_device")
    then some MessageType.cmd_to_device
    else if equal value (bytes "store_database_value")
    then some MessageType.store_database_value
    else if equal value (bytes "query_AI_prompt")
    then some MessageType.query_ai_prompt
    else none

unfoldable pub is_client_id_byte : ℕ → Bool
unfolding is_alnum
is_client_id_byte c = is_alnum c || c == b'-' || c == b'_' || c == b'.'

unfoldable pub is_valid_client_id : Bytes → Bool
unfolding is_client_id_byte all_of
is_valid_client_id value =
    if is_empty value || ltb 128 (length value) then false else all_of is_client_id_byte value

abbrev pub requests_topic : Bytes
requests_topic = bytes "watchlist/requests"

unfoldable pub ack_topic_for_client : Bytes → Bytes
ack_topic_for_client client_id = bytes "watchlist/acks/" ++ client_id
