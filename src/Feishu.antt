-- ===== src/Feishu.antt =====
-- The Feishu adapter: what becomes of a task's or a bug's row when a service has answered.
pub mod Attempt
pub mod Texts
pub mod Policy
pub mod Patch
pub mod Names
pub mod Metadata
pub mod Writeback
