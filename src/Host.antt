-- ===== src/Host.antt =====
-- What the sources take from the JavaScript host and cannot be read here: the Unicode tables behind
-- `toLowerCase`, the collation behind `localeCompare`, the
-- digits of numbers, and the calendar behind `Date`. Each is a
-- field; what a theorem relies on is one of the predicates below, and stands among its hypotheses.
use Prim.Native.Nat.{Ordering}
use Prim.Native.Char.{Char, code}
use Prim.Native.String.{[], ◌∷◌}
use assistant_context_router.Prelude.{
  ℕ, String, Bool, true, false, Option, some, ◌≡◌, ltb, nat_eq, if◌then◌else◌,
}
use assistant_context_router.Text.{all_chars}

pub record Host : Type 0 where
  -- `s.toLowerCase()`
  pub to_lower : String → String
  -- The sign of `s.localeCompare(t)`.
  pub locale_compare : String → String → Ordering
  -- `new Date(ms).toISOString()`, for the dates that JavaScript has: beyond 8.64e15 ms the real call
  -- throws, which is outside the model.
  pub to_iso_string : ℕ → String
  -- `new Date(text).getTime()`, `none` for NaN.
  pub get_time : String → Option ℕ
  -- `String(n)`
  pub number_text : ℕ → String
  -- `String(Number(text))` for a text of digits with an optional sign and fraction.
  pub number_of : String → String

-- The lower-case letter below a capital, in two alphabets that run in step.
lower_in : String → String → Char → Char
lower_in (u ∷ us) (l ∷ ls) c =
    let rest = lower_in us ls c in if nat_eq (code c) (code u) then l else rest
lower_in _ _ c = c

unfoldable pub ascii_lower : String → String
unfolding lower_in
ascii_lower [] = []
ascii_lower (c ∷ s) =
    lower_in "ABCDEFGHIJKLMNOPQRSTUVWXYZ" "abcdefghijklmnopqrstuvwxyz" c ∷ ascii_lower s

-- On ASCII texts `toLowerCase` lowers the letters A to Z and nothing else.
abbrev pub LowersAscii : Host → Type 0
LowersAscii h = (s : String) → all_chars (λ c. ltb c 128) s ≡ true → h.to_lower s ≡ ascii_lower s

-- Parsing a printed date gives the date back, with dates taken as total.
abbrev pub ReadsDates : Host → Type 0
ReadsDates h = (t : ℕ) → h.get_time (h.to_iso_string t) ≡ some t

-- `localeCompare` never says "greater" both ways, and "not greater" is transitive.
abbrev pub not_after : Host → String → String → Bool
not_after h s t = elim (h.locale_compare s t) [ Ordering.gt ↦ false | _ ↦ true ]

pub record Collates (h : Host) : Type 0 where
  pub total : (s t : String) → not_after h s t ≡ false → not_after h t s ≡ true
  pub trans :
      (s t u : String) → not_after h s t ≡ true → not_after h t u ≡ true → not_after h s u ≡ true
