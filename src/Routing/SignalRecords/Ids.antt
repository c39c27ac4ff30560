-- ===== src/Routing/SignalRecords/Ids.antt =====
-- The ids of routing/signal-records.ts.
use assistant_context_router.Prelude.{
  String, ◌≡◌, refl, Bool, true, false, Option, none, some, List, [], ◌∷◌, ◌++◌, Bool-cases, inl,
  inr,
}
use assistant_context_router.Text.{is_empty, trim, join, replace_runs, all_chars, ◌⧺◌}
use assistant_context_router.Text.Clean.{all_chars-replace_runs}
use assistant_context_router.Routing.SignalRecords.{id_char, id_parts, stable_id, or_record}

-- A part that is null or blank.
abbrev pub is_blank : Option String → Bool
is_blank none = true
is_blank (some s) = is_empty (trim s)

id_parts-blank :
    (before : List (Option String)) (part : Option String) (after : List (Option String))
    → is_blank part ≡ true
    → id_parts (before ++ part ∷ after) ≡ id_parts (before ++ after)
unfolding id_parts
id_parts-blank [] none after b = refl
id_parts-blank [] (some s) after b = rw b
id_parts-blank (none ∷ before) part after b = id_parts-blank before part after b
id_parts-blank (some s ∷ before) part after b = rw (id_parts-blank before part after b)

-- An id does not see where a part is missing: leaving out a part that is null or blank, wherever it
-- stands, gives the same id.
pub stable_id-blank :
    (prefix : String) (before : List (Option String)) (part : Option String)
    (after : List (Option String))
    → is_blank part ≡ true
    → stable_id prefix (before ++ part ∷ after) ≡ stable_id prefix (before ++ after)
unfolding stable_id
stable_id-blank prefix before part after b = rw (id_parts-blank before part after b)

or_record-clean :
    (s : String)
    → all_chars id_char s ≡ true
    → (all_chars id_char (or_record s) ≡ true) × (is_empty (or_record s) ≡ false)
unfolding all_chars id_char
or_record-clean s h = elim (Bool-cases (is_empty s)) [
  | inl e ↦ rw e (refl, refl)
  | inr e ↦ rw e (h, e)
]

-- Every id is its prefix, a colon and a body that is not empty and made of letters, digits and the
-- characters . _ | : - only.
pub stable_id-body :
    (prefix : String) (parts : List (Option String))
    → (body : String) × (stable_id prefix parts ≡ prefix ⧺ ":" ⧺ body)
      × (all_chars id_char body ≡ true)
      × (is_empty body ≡ false)
unfolding stable_id
stable_id-body prefix parts =
    let cleaned = replace_runs id_char false (join "|" (id_parts parts)) in
    let clean =
      or_record-clean cleaned
        (all_chars-replace_runs id_char false (join "|" (id_parts parts)) refl) in
    (or_record cleaned, refl, clean.0, clean.1)
