-- ===== src/Artifact.antt =====
-- Package artifact (core/artifact/): OS images, their resolution and their download.
pub mod Catalog
pub mod Resolve
pub mod Registry
pub mod Summary
pub mod Requests
pub mod Web
pub mod HttpClient
pub mod Download
pub mod Extract
pub mod Fetch
