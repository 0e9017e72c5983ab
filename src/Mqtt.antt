-- ===== src/Mqtt.antt =====
-- The MQTT side of the program: the client and the service that owns it.
pub mod Client
pub mod Service
mod Tests
