-- ===== src/ScriptEvent.antt =====
-- internal/scriptevent: the engine that runs the published scripts of a character.
pub mod State
pub mod Agreement
pub mod Staging
pub mod Goods
pub mod Commit
pub mod Query
pub mod Engine
pub mod Begin
pub mod Examples
