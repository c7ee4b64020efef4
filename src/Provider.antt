-- ===== src/Provider.antt =====
-- Package provider (provider/): the contract, its errors, the environment of child processes, the
-- host as the program sees it, and the commands that the package runs.
pub mod Contract
pub mod Errors
pub mod Env
pub mod Host
pub mod Patterns
pub mod RunCmd
pub mod Creds
pub mod Files
pub mod Specs
pub mod Ops
pub mod RepackIso
pub mod Memory
