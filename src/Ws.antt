-- ===== src/Ws.antt =====
-- The WebSocket side of the program: the server, and the service that bridges it to MQTT.
pub mod Topics
pub mod Service
pub mod Server
mod Tests
