-- ===== src/Routing/Lane/Files.antt =====
-- Which projects share a lane file.
use text.Mathlib.TextLemmas.{append_cancel_right}
use assistant_context_router.Prelude.{◌≡◌, sym, ◌∙◌, true, false, String}
use assistant_context_router.Text.{all_chars}
use assistant_context_router.Text.Clean.{replace_runs-of_clean}
use assistant_context_router.Routing.Lane.{lane_char, sanitize_project_id, lane_file}

-- Two projects whose ids have only letters, digits and the characters . _ - share a lane file only
-- if they have the same id.
pub lane_file-injective :
    (p q : String)
    → all_chars lane_char p ≡ true
    → all_chars lane_char q ≡ true
    → lane_file p ≡ lane_file q
    → p ≡ q
unfolding lane_file sanitize_project_id
lane_file-injective p q clean_p clean_q same =
    sym (replace_runs-of_clean lane_char false p clean_p)
    ∙ append_cancel_right _ _ ".jsonl" same
    ∙ replace_runs-of_clean lane_char false q clean_q
