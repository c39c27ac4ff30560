-- ===== src/Feishu/Patch/Noop.antt =====
-- The statuses that hold a row still.
use assistant_context_router.Prelude.{
  String, false, Option, some, none, ◌≡◌, ◌≢◌, inl, inr, Bool-cases,
}
use assistant_context_router.Text.{trim, trim_start, trim_end, is_space}
use assistant_context_router.Feishu.Texts.{Kind}
use assistant_context_router.Feishu.Patch.{
  WritebackPatch, should_noop_for_status, finished, is_action,
}

-- An archived row.
pub should_noop-archived :
    (kind : Kind) (action : Option String) (p : WritebackPatch)
    → should_noop_for_status kind action (some "Archived") p ≢ none
unfolding should_noop_for_status trim trim_start trim_end is_space
should_noop-archived Kind.task action p h =
    elim (Bool-cases (is_action action "review_resolution")) [
      | inl t ↦ let e = rw t at h in cc
      | inr f ↦ let e = rw f at h in cc
    ]
should_noop-archived Kind.bug action p h =
    elim (Bool-cases (is_action action "review_resolution")) [
      | inl t ↦ let e = rw t at h in cc
      | inr f ↦ let e = rw f at h in cc
    ]

-- A finished row, unless the action is a review resolution.
pub should_noop-finished :
    (kind : Kind) (action : Option String) (p : WritebackPatch)
    → is_action action "review_resolution" ≡ false
    → should_noop_for_status kind action (some (finished kind)) p ≢ none
unfolding should_noop_for_status trim trim_start trim_end is_space
should_noop-finished Kind.task action p f h = let e = rw f at h in cc
should_noop-finished Kind.bug action p f h = let e = rw f at h in cc
