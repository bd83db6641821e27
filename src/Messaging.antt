-- ===== src/Messaging.antt =====
-- src/Watchlist/Messaging: the JSON envelopes, the topics, and the MQTT service.
pub mod Types
pub mod Serialize
pub mod Json
pub mod Parse
pub mod Topics
pub mod MqttService
pub mod Examples
