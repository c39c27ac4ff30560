-- ===== src/Text/Clean.antt =====
-- Replacing the runs outside a class: what is left is in the class, and a text in the class stays.
use Prim.Native.Char.{code}
use Prim.Native.String.{[], ◌∷◌}
use assistant_context_router.Prelude.{
  ℕ, String, ◌≡◌, refl, Bool, true, false, arith, Bool-cases, inl, inr, ap,
}
use assistant_context_router.Text.{all_chars, replace_runs}

module _ (allowed : ℕ → Bool) where
  -- If the underscore is allowed, every code point of the result is.
  pub all_chars-replace_runs :
      (in_run : Bool) (s : String)
      → allowed 95 ≡ true
      → all_chars allowed (replace_runs allowed in_run s) ≡ true
  unfolding all_chars replace_runs
  all_chars-replace_runs in_run [] u = refl
  all_chars-replace_runs true (c ∷ s) u = elim (Bool-cases (allowed (code c))) [
    | inl yes_c ↦ rw (yes_c, yes_c, all_chars-replace_runs false s u) refl
    | inr no_c ↦ rw (no_c, all_chars-replace_runs true s u) refl
  ]
  all_chars-replace_runs false (c ∷ s) u = elim (Bool-cases (allowed (code c))) [
    | inl yes_c ↦ rw (yes_c, yes_c, all_chars-replace_runs false s u) refl
    | inr no_c ↦ rw (no_c, u, all_chars-replace_runs true s u) refl
  ]

  -- A text in the class is left alone.
  pub replace_runs-of_clean :
      (in_run : Bool) (s : String) → all_chars allowed s ≡ true → replace_runs allowed in_run s ≡ s
  unfolding all_chars replace_runs
  replace_runs-of_clean in_run [] h = refl
  replace_runs-of_clean in_run (c ∷ s) h = elim (Bool-cases (allowed (code c))) [
    | inl yes_c ↦ rw yes_c (ap (λ t. c ∷ t) (replace_runs-of_clean false s (rw yes_c at h)))
    | inr no_c ↦ absurd (ground arith)
  ]
