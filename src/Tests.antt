-- ===== src/Tests.antt =====
-- Tests on concrete inputs, and each theorem of the development at an input that meets its conditions.
mod Samples
mod Routing
mod Signals
mod Stores
mod Sessions
mod Lane
mod Services
mod Feishu
mod Tables
mod Yaml
mod Config
mod Projects
