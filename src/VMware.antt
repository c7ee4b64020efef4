-- ===== src/VMware.antt =====
-- Package vmware (provider/vmware/): Fusion and Workstation.
pub mod Vmx
pub mod Tools
pub mod Detect
pub mod Run
pub mod Config
pub mod Create
pub mod Inventory
pub mod Lifecycle
pub mod Guest
pub mod MakeIso
pub mod Adapter
mod Tests
