-- ===== src/Feishu/Patch/Finality.antt =====
-- When a writeback finishes a row.
use assistant_context_router.Prelude.{
  String, Bool, true, false, Option, some, none, ◌≡◌, ◌≢◌, refl, sym, ◌∙◌, ap, ◌==◌, ◌⊎◌, ◌↔◌, inl,
  inr, arith, eq_iff, Bool-cases,
}
use assistant_context_router.Host.{Host}
use assistant_context_router.Types.Routing.{AcceptanceMode}
use assistant_context_router.Feishu.Texts.{Kind, ReviewDecision}
use assistant_context_router.Feishu.Patch.{
  PatchInput, WritebackPatch, is_action, input_action, decision_of, fix_result_of, went_wrong,
  asks_review, may_finalize, lacks_fix_result, derive_writeback_patch, finished, started,
  resolution_patch, failed_patch, review_patch, complete_patch, progress_patch, patch, review_like,
}

-- A reviewer has accepted the row.
abbrev pub IsAccepted : PatchInput → Type 0
IsAccepted input =
    (input_action input ≡ some "review_resolution")
    × (decision_of input ≡ some ReviewDecision.accepted)

-- The agent may finish its row by itself and does, with nothing wrong and nothing to review; of a bug
-- it says how it was fixed.
abbrev pub IsCompleted : Host → PatchInput → Type 0
IsCompleted host input =
    (input_action input ≡ some "complete")
    × (input.policy.acceptance_mode ≡ AcceptanceMode.agent_can_finalize)
    × (went_wrong input.service_result ≡ false)
    × (asks_review input ≡ false)
    × (lacks_fix_result input.kind (fix_result_of host input) ≡ false)

finished-other :
    (kind : Kind) (s : String)
    → (s == "Done") ≡ false
    → (s == "Fixed") ≡ false
    → ◌≡◌ {A = Option String} (some s) (some (finished kind))
    → ◌≡◌ {A = Bool} true false
finished-other Kind.task s h k e = ground (arith, eq_iff s "Done")
finished-other Kind.bug s h k e = ground (arith, eq_iff s "Fixed")

is_action-eq :
    (action : Option String) (name : String) → is_action action name ≡ true → action ≡ some name
is_action-eq none name h = cc
is_action-eq (some a) name h = ground (arith, eq_iff a name)

resolution_patch-finished :
    (input : PatchInput) (decision : Option ReviewDecision)
    → (resolution_patch input decision).status ≡ some (finished input.kind)
    → decision ≡ some ReviewDecision.accepted
unfolding resolution_patch failed_patch patch
resolution_patch-finished input (some ReviewDecision.accepted) h = refl
resolution_patch-finished input (some ReviewDecision.rejected) h =
    let e = finished-other input.kind "Todo" refl refl h in cc
resolution_patch-finished input none h = cc

review_patch-unfinished :
    (input : PatchInput) (b : Bool) → (review_patch input b).status ≢ some (finished input.kind)
unfolding review_patch patch
review_patch-unfinished input true h =
    let e = finished-other input.kind "Reviewing" refl refl h in cc
review_patch-unfinished input false h =
    let e = finished-other input.kind "Reviewing" refl refl h in cc

failed_patch-unfinished :
    (input : PatchInput) (next : String)
    → (failed_patch input next).status ≢ some (finished input.kind)
unfolding failed_patch patch
failed_patch-unfinished input next h = cc

complete_patch-finished :
    (host : Host) (input : PatchInput) (b : Bool)
    → (complete_patch host input b).status ≡ some (finished input.kind)
    → b ≡ true
unfolding complete_patch patch
complete_patch-finished host input true h = refl
complete_patch-finished host input false h =
    let e = finished-other input.kind "Reviewing" refl refl h in cc

progress_patch-unfinished :
    (input : PatchInput) → (progress_patch input).status ≢ some (finished input.kind)
unfolding progress_patch patch
progress_patch-unfinished input h = unstarted input.kind h
  where
    unstarted : (kind : Kind) → ◌≢◌ {A = Option String} (some (started kind)) (some (finished kind))
    unstarted Kind.task h = ground (arith, eq_iff "Doing" "Done")
    unstarted Kind.bug h = ground (arith, eq_iff "Fixing" "Fixed")

may_finalize-agent :
    (m : AcceptanceMode) → may_finalize m ≡ true → m ≡ AcceptanceMode.agent_can_finalize
may_finalize-agent AcceptanceMode.agent_can_finalize h = refl
may_finalize-agent AcceptanceMode.manual_acceptance h = cc

resolution_patch-accepted :
    (input : PatchInput)
    → (resolution_patch input (some ReviewDecision.accepted)).status ≡ some (finished input.kind)
unfolding resolution_patch patch
resolution_patch-accepted input = refl

complete_patch-agent :
    (host : Host) (input : PatchInput)
    → (complete_patch host input true).status ≡ some (finished input.kind)
unfolding complete_patch patch
complete_patch-agent host input = refl

unresolved :
    (action : Option String)
    → action ≡ some "complete"
    → is_action action "review_resolution" ≡ false
unresolved action h = ap (λ a. is_action a "review_resolution") h

not_true : (b : Bool) → ¬ (b ≡ true) → b ≡ false
not_true true h = elim (h refl) [ ]
not_true false h = refl

not_false : (b : Bool) → ¬ (b ≡ false) → b ≡ true
not_false true h = refl
not_false false h = elim (h refl) [ ]

module _ (host : Host) (input : PatchInput) where
  derive-resolution_patch :
      is_action (input_action input) "review_resolution" ≡ true
      → derive_writeback_patch host input ≡ resolution_patch input (decision_of input)
  unfolding derive_writeback_patch
  derive-resolution_patch h = rw h

  -- Whatever else the patch is, the status it gives is not the finished one.
  IsOpen : Type 0
  IsOpen = (derive_writeback_patch host input).status ≢ some (finished input.kind)

  module _ (r : is_action (input_action input) "review_resolution" ≡ false) where
    derive-failed_patch : went_wrong input.service_result ≡ true → IsOpen
    unfolding derive_writeback_patch IsOpen failed_patch patch
    derive-failed_patch w = rw r (rw w (failed_patch-unfinished input ""))

    derive-review_patch :
        went_wrong input.service_result ≡ false → asks_review input ≡ true → IsOpen
    unfolding derive_writeback_patch IsOpen
    derive-review_patch w a = rw r (rw w (rw a (review_patch-unfinished input (review_like input))))

    derive-progress_patch :
        went_wrong input.service_result ≡ false
        → asks_review input ≡ false
        → is_action (input_action input) "complete" ≡ false
        → IsOpen
    unfolding derive_writeback_patch IsOpen
    derive-progress_patch w a c = rw r (rw w (rw a (rw c (progress_patch-unfinished input))))

    derive-lacks_fix_result :
        went_wrong input.service_result ≡ false
        → asks_review input ≡ false
        → is_action (input_action input) "complete" ≡ true
        → lacks_fix_result input.kind (fix_result_of host input) ≡ true
        → IsOpen
    unfolding derive_writeback_patch IsOpen failed_patch patch
    derive-lacks_fix_result w a c l =
        rw r (rw w (rw a (rw c (rw l (failed_patch-unfinished input "")))))

    derive-complete_patch :
        went_wrong input.service_result ≡ false
        → asks_review input ≡ false
        → is_action (input_action input) "complete" ≡ true
        → lacks_fix_result input.kind (fix_result_of host input) ≡ false
        → derive_writeback_patch host input
          ≡ complete_patch host input (may_finalize input.policy.acceptance_mode)
    unfolding derive_writeback_patch
    derive-complete_patch w a c l = rw r (rw w (rw a (rw c (rw l))))

    -- What is left when the status is the finished one.
    derive-IsCompleted :
        (derive_writeback_patch host input).status ≡ some (finished input.kind)
        → IsCompleted host input
    unfolding IsOpen
    derive-IsCompleted h =
        let w = not_true (went_wrong input.service_result) (λ t. derive-failed_patch t h) in
        let a = not_true (asks_review input) (λ t. derive-review_patch w t h) in
        let c =
          not_false (is_action (input_action input) "complete")
            (λ f. derive-progress_patch w a f h) in
        let l =
          not_true (lacks_fix_result input.kind (fix_result_of host input))
            (λ t. derive-lacks_fix_result w a c t h) in
        let e = ap (λ (p : WritebackPatch). p.status) (derive-complete_patch w a c l) in
        let m =
          complete_patch-finished host input (may_finalize input.policy.acceptance_mode)
            (sym e ∙ h) in
        (
          is_action-eq (input_action input) "complete" c,
          may_finalize-agent input.policy.acceptance_mode m,
          w,
          a,
          l,
        )

  -- A row is put to its finished status by an accepted review resolution, or by an agent that may
  -- finish it and completes it with nothing wrong, nothing to review and, for a bug, a fix result; and
  -- in no other way.
  pub derive_writeback_patch-finished :
      ((derive_writeback_patch host input).status ≡ some (finished input.kind))
      ↔ (IsAccepted input ⊎ IsCompleted host input)
  derive_writeback_patch-finished = (finishes, finished_by)
    where
      finishes :
          (derive_writeback_patch host input).status ≡ some (finished input.kind)
          → IsAccepted input ⊎ IsCompleted host input
      finishes h = elim (Bool-cases (is_action (input_action input) "review_resolution")) [
        | inl t ↦ inl (
          is_action-eq (input_action input) "review_resolution" t,
          resolution_patch-finished input (decision_of input)
              (sym (ap (λ (p : WritebackPatch). p.status) (derive-resolution_patch t)) ∙ h),
        )
        | inr r ↦ inr (derive-IsCompleted r h)
      ]

      finished_by :
          IsAccepted input ⊎ IsCompleted host input
          → (derive_writeback_patch host input).status ≡ some (finished input.kind)
      finished_by (inl (t, d)) =
          ap (λ (p : WritebackPatch). p.status)
            (derive-resolution_patch (ap (λ a. is_action a "review_resolution") t))
          ∙ ap (λ o. (resolution_patch input o).status) d
          ∙ resolution_patch-accepted input
      finished_by (inr (c, m, w, a, l)) =
          ap (λ (p : WritebackPatch). p.status)
            (derive-complete_patch (unresolved (input_action input) c) w a
              (ap (λ o. is_action o "complete") c) l)
          ∙ ap (λ o. (complete_patch host input (may_finalize o)).status) m
          ∙ complete_patch-agent host input
