-- ===== src/Cast.antt =====
-- The Chromecast module: modules/NexusChromecastModule/src/cast.
pub mod Proto
pub mod Socket
pub mod Channel
pub mod Device
pub mod Module
mod Tests
