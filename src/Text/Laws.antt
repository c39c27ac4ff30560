-- ===== src/Text/Laws.antt =====
-- Laws of appending texts, for `simp`.
pub use text.Mathlib.TextLemmas.{nil-append, cons-append, append_assoc}

-- Moves appends to the right and takes the first character out.
pub ruleset text_laws = (nil-append, cons-append, append_assoc)
