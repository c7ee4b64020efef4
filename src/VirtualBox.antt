-- ===== src/VirtualBox.antt =====
-- Package virtualbox (provider/virtualbox/).
pub mod Run
pub mod Inventory
pub mod Create
pub mod Machines
pub mod InGuest
pub mod Network
pub mod Detect
pub mod Adapter
mod Tests
