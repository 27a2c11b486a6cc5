-- ===== src/Agentic.antt =====
-- The interface through which agents use the facility (docker/agentic-interface).
pub mod Regex
pub mod Scope
