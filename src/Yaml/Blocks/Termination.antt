-- ===== src/Yaml/Blocks/Termination.antt =====
-- Every text is parsed within the fuel that its lines give.
use assistant_context_router.Prelude.{
  ℕ, zero, suc, ◌+◌, ◌*◌, ◌≤◌, String, Option, some, List, [], ◌∷◌, ◌≡◌, refl, inl, inr, and_then,
  length, arith, Bool-cases, Option-cases,
}
use assistant_context_router.Text.{trim, is_empty}
use assistant_context_router.Value
use assistant_context_router.Value.{Value, Fields, Items, set_field}
use assistant_context_router.Host.{Host}
use assistant_context_router.Yaml.{scalar, indent_of, cleaned_lines}
use assistant_context_router.Yaml.Blocks.{
  parse_block, parse_sequence, parse_item, parse_mapping, parse_value, next_child_indent, key_value,
  inline_key_value, in_sequence, in_mapping, element_text, starts_sequence, fuel_for, parse_lines,
  parse_simple_yaml,
}

-- The call answers, and leaves no more than so many lines.
abbrev Answers : {A : Type 0} → Option (A × List String) → ℕ → Type 0
Answers {A} r n = (v : A) × (rest : List String) × (r ≡ some (v, rest)) × (length rest ≤ n)

Answers-and_then :
    {A B : Type 0} (r : Option (A × List String)) (f : A × List String → Option (B × List String))
    (m n : ℕ)
    → Answers r m
    → ((v : A) (rest : List String) → length rest ≤ m → Answers (f (v, rest)) n)
    → Answers (and_then r f) n
Answers-and_then r f m n (v, rest, e, l) h = rw e (h v rest l)

widened : {A : Type 0} (r : Option (A × List String)) (m n : ℕ) → Answers r m → m ≤ n → Answers r n
widened r m n (v, rest, e, l) k = (v, rest, e, omega (arith, l, k))

parse_value-Answers :
    (host : Host) (block : List String → ℕ → Option (Value × List String)) (text : String)
    (lines : List String) (parent : ℕ)
    → ((indent : ℕ) → Answers (block lines indent) (length lines))
    → Answers (parse_value host block text lines parent) (length lines)
unfolding parse_value
parse_value-Answers host block text lines parent h = elim (Bool-cases (is_empty text)) [
  | inr f ↦ rw (f, parse_value) (scalar host text, lines, refl, omega arith)
  | inl t ↦
      rw (t, parse_value)
        (elim (Option-cases (next_child_indent lines parent)) [
          | inl e ↦ rw e (Value.str "", lines, refl, omega arith)
          | inr (i, e) ↦ rw e (h i)
        ])
]

no_fuel : {A : Type 0} (n : ℕ) → n + 1 ≤ 0 → A
no_fuel n l = let x : ⊥ = omega (arith, l) in elim x [ ]

module _ (host : Host) where
  -- With enough fuel every parser answers.
  record Total (n : ℕ) : Type 0 where
    block :
        (lines : List String) (indent : ℕ)
        → 2 * length lines + 2 ≤ n
        → Answers (parse_block host n lines indent) (length lines)
    sequence :
        (lines : List String) (indent : ℕ)
        → 2 * length lines + 1 ≤ n
        → Answers (parse_sequence host n lines indent) (length lines)
    item :
        (lines : List String) (indent : ℕ) (fields : Fields)
        → 2 * length lines + 1 ≤ n
        → Answers (parse_item host n lines indent fields) (length lines)
    mapping :
        (lines : List String) (indent : ℕ) (fields : Fields)
        → 2 * length lines + 1 ≤ n
        → Answers (parse_mapping host n lines indent fields) (length lines)

  module _ (n : ℕ) (ih : Total n) where
    block-Answers :
        (lines : List String) (indent : ℕ)
        → 2 * length lines + 2 ≤ suc n
        → Answers (parse_block host (suc n) lines indent) (length lines)
    unfolding parse_block
    block-Answers lines indent l = elim (Bool-cases (starts_sequence lines)) [
      | inl t ↦
          rw (t, parse_block)
            (Answers-and_then (parse_sequence host n lines indent) _ (length lines) (length lines)
              (ih.sequence lines indent (omega (arith, l)))
              (λ vs rest k. (Value.arr vs, rest, refl, k)))
      | inr f ↦
          rw (f, parse_block)
            (Answers-and_then (parse_mapping host n lines indent Value.end) _ (length lines)
              (length lines) (ih.mapping lines indent Value.end (omega (arith, l)))
              (λ fs rest k. (Value.obj fs, rest, refl, k)))
    ]

    value-Answers :
        (text : String) (lines : List String) (parent : ℕ)
        → 2 * length lines + 2 ≤ n
        → Answers (parse_value host (parse_block host n) text lines parent) (length lines)
    value-Answers text lines parent l =
        parse_value-Answers host (parse_block host n) text lines parent (λ i. ih.block lines i l)

    sequence-Answers :
        (lines : List String) (indent : ℕ)
        → 2 * length lines + 1 ≤ suc n
        → Answers (parse_sequence host (suc n) lines indent) (length lines)
    unfolding parse_sequence
    sequence-Answers [] indent l = (Value.nil, [], refl, omega arith)
    sequence-Answers (line ∷ lines) indent l = elim (Bool-cases (in_sequence line indent)) [
      | inr f ↦ rw (f, parse_sequence) (Value.nil, line ∷ lines, refl, omega arith)
      | inl t ↦
          rw (t, parse_sequence)
            (elim (Option-cases (inline_key_value (element_text line))) [
              | inl e ↦ rw e (
                  Answers-and_then
                    (parse_value host (parse_block host n) (element_text line) lines indent) _
                    (length lines) (suc (length lines))
                    (value-Answers (element_text line) lines indent (omega (arith, l)))
                    (λ v l1 k1.
                      Answers-and_then (parse_sequence host n l1 indent) _ (length l1)
                        (suc (length lines)) (ih.sequence l1 indent (omega (arith, l, k1)))
                        (λ vs l2 k2. (Value.cons v vs, l2, refl, omega (arith, k1, k2)))))
              | inr ((k, text), e) ↦ rw e (
                  Answers-and_then (parse_value host (parse_block host n) text lines indent) _
                    (length lines) (suc (length lines))
                    (value-Answers text lines indent (omega (arith, l)))
                    (λ v l1 k1.
                      Answers-and_then
                        (parse_item host n l1 (indent + 2) (Value.field k v Value.end)) _
                        (length l1) (suc (length lines))
                        (ih.item l1 (indent + 2) (Value.field k v Value.end) (omega (arith, l, k1)))
                        (λ fs l2 k2.
                          Answers-and_then (parse_sequence host n l2 indent) _ (length l2)
                            (suc (length lines)) (ih.sequence l2 indent (omega (arith, l, k1, k2)))
                            (λ vs l3 k3. (
                              Value.cons (Value.obj fs) vs,
                              l3,
                              refl,
                              omega (arith, k1, k2, k3),
                            )))))
            ])
    ]

    item-Answers :
        (lines : List String) (indent : ℕ) (fields : Fields)
        → 2 * length lines + 1 ≤ suc n
        → Answers (parse_item host (suc n) lines indent fields) (length lines)
    unfolding parse_item
    item-Answers [] indent fields l = (fields, [], refl, omega arith)
    item-Answers (line ∷ lines) indent fields l = elim (Bool-cases (in_mapping line indent)) [
      | inr f ↦ rw (f, parse_item) (fields, line ∷ lines, refl, omega arith)
      | inl t ↦
          rw (t, parse_item)
            (elim (Option-cases (key_value (trim line))) [
              | inl e ↦ rw e (fields, line ∷ lines, refl, omega arith)
              | inr ((k, text), e) ↦ rw e (
                  Answers-and_then (parse_value host (parse_block host n) text lines indent) _
                    (length lines) (suc (length lines))
                    (value-Answers text lines indent (omega (arith, l)))
                    (λ v l1 k1.
                      widened (parse_item host n l1 indent (set_field k v fields)) (length l1)
                        (suc (length lines))
                        (ih.item l1 indent (set_field k v fields) (omega (arith, l, k1)))
                        (omega (arith, k1))))
            ])
    ]

    mapping-Answers :
        (lines : List String) (indent : ℕ) (fields : Fields)
        → 2 * length lines + 1 ≤ suc n
        → Answers (parse_mapping host (suc n) lines indent fields) (length lines)
    unfolding parse_mapping
    mapping-Answers [] indent fields l = (fields, [], refl, omega arith)
    mapping-Answers (line ∷ lines) indent fields l = elim (Bool-cases (in_mapping line indent)) [
      | inr f ↦ rw (f, parse_mapping) (fields, line ∷ lines, refl, omega arith)
      | inl t ↦
          rw (t, parse_mapping)
            (elim (Option-cases (key_value (trim line))) [
              | inl e ↦ rw e (
                  widened (parse_mapping host n lines indent fields) (length lines)
                    (suc (length lines)) (ih.mapping lines indent fields (omega (arith, l)))
                    (omega arith))
              | inr ((k, text), e) ↦ rw e (
                  Answers-and_then (parse_value host (parse_block host n) text lines indent) _
                    (length lines) (suc (length lines))
                    (value-Answers text lines indent (omega (arith, l)))
                    (λ v l1 k1.
                      widened (parse_mapping host n l1 indent (set_field k v fields)) (length l1)
                        (suc (length lines))
                        (ih.mapping l1 indent (set_field k v fields) (omega (arith, l, k1)))
                        (omega (arith, k1))))
            ])
    ]

  total : (n : ℕ) → Total n
  total zero = record {
    block = λ lines indent l. no_fuel (2 * length lines) (omega (arith, l));
    sequence = λ lines indent l. no_fuel (2 * length lines) l;
    item = λ lines indent fields l. no_fuel (2 * length lines) l;
    mapping = λ lines indent fields l. no_fuel (2 * length lines) l;
  }
  total (suc n) = record {
    block = block-Answers n (total n);
    sequence = sequence-Answers n (total n);
    item = item-Answers n (total n);
    mapping = mapping-Answers n (total n);
  }

  -- Two units of fuel for each line, and two more, are enough for every block: the parser answers, and
  -- never leaves more lines than it was given.
  pub parse_block-answers :
      (n : ℕ) (lines : List String) (indent : ℕ)
      → fuel_for (length lines) ≤ n
      → (v : Value) × (rest : List String) × (parse_block host n lines indent ≡ some (v, rest))
        × (length rest ≤ length lines)
  parse_block-answers n lines indent l = (total n).block lines indent l

  parse_lines-answers : (lines : List String) → (v : Value) × (parse_lines host lines ≡ some v)
  unfolding parse_lines
  parse_lines-answers [] = (Value.obj Value.end, refl)
  parse_lines-answers (line ∷ lines) =
      let (v, rest, e, k) =
        parse_block-answers (fuel_for (length (line ∷ lines))) (line ∷ lines) (indent_of line)
          (omega arith) in
      (v, rw e refl)

  -- Every text is parsed to a value: the parser comes to an end and never fails.
  pub parse_simple_yaml-answers :
      (input : String) → (v : Value) × (parse_simple_yaml host input ≡ some v)
  unfolding parse_simple_yaml
  parse_simple_yaml-answers input = parse_lines-answers (cleaned_lines input)
