-- ===== src/Models.antt =====
-- docker/supersonic-model-manager: the manager of Triton's model repository.
pub mod Config
pub mod Artifacts
pub mod Validation
pub mod Names
pub mod Uploads
