-- ===== src/Bindings.antt =====
-- ext/ruble/bindings: the classes that Ruby sees.
pub mod Service
pub mod Adapter
pub mod Shutdown
mod Device
pub mod Peripheral
pub mod Characteristic
pub mod Marking
pub mod Methods
pub mod Enums
pub mod Routing
pub mod Inspection
pub mod Startup
