-- ===== src/Home.antt =====
-- The devices and rooms of the home: what the hub keeps, and the services in front of it.
pub mod Devices
pub mod Rooms
pub mod Result
pub mod DeviceService
pub mod DeviceController
pub mod RoomService
pub mod RoomController
mod Tests
