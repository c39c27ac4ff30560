-- ===== src/Feishu/Patch/Report.antt =====
-- The texts of a patch.
use assistant_context_router.Prelude.{
  Bool, true, false, Option, none, some, ◌≡◌, refl, sym, subst, inl, inr, Bool-cases, arith,
}
use assistant_context_router.Host.{Host}
use assistant_context_router.Feishu.Texts.{ReviewDecision, truncate_text}
use assistant_context_router.Feishu.Texts.Bounds.{
  IsWithin, truncate_text-IsWithin, build_execution_report-IsWithin, IsWithin-le,
}
use assistant_context_router.Feishu.Patch.{
  PatchInput, WritebackPatch, is_action, input_action, decision_of, fix_result_of, went_wrong,
  asks_review, review_like, may_finalize, lacks_fix_result, derive_writeback_patch,
  resolution_patch, failed_patch, review_patch, complete_patch, progress_patch, patch, summary_of,
  report_of, picked_summary, picked_evidence,
}

-- The summary and the report of a patch are those of its input.
abbrev Reports : PatchInput → WritebackPatch → Type 0
Reports input p = (p.summary ≡ summary_of input) × (p.execution_report ≡ report_of input)

resolution_patch-Reports :
    (input : PatchInput) (d : Option ReviewDecision) → Reports input (resolution_patch input d)
unfolding resolution_patch failed_patch patch
resolution_patch-Reports input (some ReviewDecision.accepted) = (refl, refl)
resolution_patch-Reports input (some ReviewDecision.rejected) = (refl, refl)
resolution_patch-Reports input none = (refl, refl)

review_patch-Reports : (input : PatchInput) (b : Bool) → Reports input (review_patch input b)
unfolding review_patch patch
review_patch-Reports input true = (refl, refl)
review_patch-Reports input false = (refl, refl)

complete_patch-Reports :
    (host : Host) (input : PatchInput) (b : Bool) → Reports input (complete_patch host input b)
unfolding complete_patch patch
complete_patch-Reports host input true = (refl, refl)
complete_patch-Reports host input false = (refl, refl)

progress_patch-Reports : (input : PatchInput) → Reports input (progress_patch input)
unfolding progress_patch patch
progress_patch-Reports input = (refl, refl)

derive-Reports :
    (host : Host) (input : PatchInput) → Reports input (derive_writeback_patch host input)
unfolding derive_writeback_patch failed_patch patch
derive-Reports host input = elim (Bool-cases (is_action (input_action input) "review_resolution")) [
  | inl t ↦ rw t (resolution_patch-Reports input (decision_of input))
  | inr r ↦ rw r (elim (Bool-cases (went_wrong input.service_result)) [
    | inl t ↦ rw t (refl, refl)
    | inr w ↦ rw w (elim (Bool-cases (asks_review input)) [
      | inl t ↦ rw t (review_patch-Reports input (review_like input))
      | inr a ↦ rw a (elim (Bool-cases (is_action (input_action input) "complete")) [
        | inr f ↦ rw f (progress_patch-Reports input)
        | inl c ↦ rw c (elim (Bool-cases (lacks_fix_result input.kind (fix_result_of host input))) [
          | inl t ↦ rw t (refl, refl)
          | inr l ↦
              rw l (complete_patch-Reports host input (may_finalize input.policy.acceptance_mode))
        ])
      ])
    ])
  ])
]

-- Whatever the texts of the service and the parameters, the summary of a patch is within 900
-- characters and its report within 1800.
pub derive_writeback_patch-IsWithin :
    (host : Host) (input : PatchInput)
    → IsWithin 900 (derive_writeback_patch host input).summary
      × IsWithin 1800 (derive_writeback_patch host input).execution_report
unfolding summary_of report_of
derive_writeback_patch-IsWithin host input =
    let (s, r) = derive-Reports host input in
    let evidence = truncate_text 1200 (picked_evidence input) in
    let short = truncate_text-IsWithin 900 (picked_summary input) in
    (
      subst (IsWithin 900) (sym s) short,
      subst (IsWithin 1800) (sym r) (
          build_execution_report-IsWithin (summary_of input) evidence
            (IsWithin-le 900 1800 (summary_of input) (omega arith) short)
            (IsWithin-le 1200 1800 evidence (omega arith)
              (truncate_text-IsWithin 1200 (picked_evidence input)))),
    )
