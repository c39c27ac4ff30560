-- ===== src/Feishu/Texts/Bounds.antt =====
-- The lengths of the texts that are written.
use Prim.Native.String.{[], ◌∷◌}
use mathlib.Core.List
use assistant_context_router.Prelude.{
  ℕ, zero, suc, String, Option, none, some, ◌≤◌, inl, inr, or_else, ◌<|>◌, arith, Bool-cases, not,
  ◌&&◌,
}
use assistant_context_router.Text.{text_length, slice_to, truthy, ◌⧺◌, join}
use assistant_context_router.Feishu.Texts.{truncate_text, build_execution_report, adds_nothing}

-- A text that is there is no longer than `n`.
abbrev pub IsWithin : ℕ → Option String → Type 0
IsWithin n none = Unit
IsWithin n (some s) = text_length s ≤ n

text_length-slice_to : (n : ℕ) (s : String) → text_length (slice_to n s) ≤ n
unfolding text_length slice_to
text_length-slice_to zero s = omega arith
text_length-slice_to (suc n) [] = omega arith
text_length-slice_to (suc n) (c ∷ s) = omega (arith, text_length-slice_to n s)

pub truncate_text-IsWithin : (n : ℕ) (text : Option String) → IsWithin n (truncate_text n text)
unfolding truncate_text
truncate_text-IsWithin n none = tt
truncate_text-IsWithin n (some []) = tt
truncate_text-IsWithin n (some (c ∷ s)) = ground (arith, text_length-slice_to n (c ∷ s))

pub IsWithin-le : (m n : ℕ) (text : Option String) → m ≤ n → IsWithin m text → IsWithin n text
IsWithin-le m n none l h = tt
IsWithin-le m n (some s) l h = omega (arith, h)

-- A report of parts within 1800 is within 1800.
pub build_execution_report-IsWithin :
    (summary evidence : Option String)
    → IsWithin 1800 summary
    → IsWithin 1800 evidence
    → IsWithin 1800 (build_execution_report summary evidence)
unfolding build_execution_report
build_execution_report-IsWithin summary evidence hs he =
    elim (Bool-cases (not (truthy summary) && not (truthy evidence))) [
      | inl t ↦ rw t tt
      | inr f ↦ rw f (elim (Bool-cases (adds_nothing summary evidence)) [
        | inl t ↦ rw t (either summary evidence hs he)
        | inr g ↦ rw g (elim (Bool-cases (not (truthy summary))) [
          | inl t ↦ rw t he
          | inr k ↦ rw k (
              truncate_text-IsWithin 1800 (
                some (
                  join "\n\n" (
                    List.◌∷◌ ("执行结果：" ⧺ or_else summary "")
                      (List.◌∷◌ ("验证证据：" ⧺ or_else evidence "") List.[])))))
        ])
      ])
    ]
  where
    either : (s e : Option String) → IsWithin 1800 s → IsWithin 1800 e → IsWithin 1800 (s <|> e)
    either none e hs he = he
    either (some s) e hs he = hs
