-- ===== src/Modules.antt =====
-- The loading of modules.
mod Controller
pub mod Loader
pub mod Manager
pub mod Service
pub mod StateFile
mod Tests
