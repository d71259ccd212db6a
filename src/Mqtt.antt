-- ===== src/Mqtt.antt =====
-- mqtt_client.py: the configuration, the subscriptions and the messages of the broker.
pub mod Config
pub mod Client
pub mod Session
pub mod Queue
pub mod Topics
pub mod Requests
pub mod Delivery
