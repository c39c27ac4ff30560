-- ===== src/Plugin.antt =====
-- The OpenClaw plugin.
pub mod Dispatch
