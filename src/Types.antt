-- ===== src/Types.antt =====
-- The shared types of implementation/core/src/types.ts, in three groups. A field that may be null, or
-- that is read only through `??`, is an `Option`; free-form objects are `Fields`.
pub mod Routing
pub mod Signals
pub mod Session
