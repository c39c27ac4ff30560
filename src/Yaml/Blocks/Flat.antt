-- ===== src/Yaml/Blocks/Flat.antt =====
-- Writing keys with their texts on lines, and parsing the lines.
use Prim.Native.Char.{Char, code}
use Prim.Native.String.{[], ◌∷◌}
use assistant_context_router.Prelude.{
  ℕ, zero, suc, ◌+◌, ◌≤◌, String, Bool, true, false, ◌&&◌, Option, some, List, ◌≡◌, refl, ◌∙◌, ap,
  map, length, nat_eq, arith, All, if◌then◌else◌,
}
use assistant_context_router.Text.{
  is_space, is_alnum, is_empty, all_chars, trim, trim_start, trim_end, starts_with,
}
use assistant_context_router.Value
use assistant_context_router.Value.{Value, Fields, set_field}
use assistant_context_router.Host.{Host}
use assistant_context_router.Yaml.{scalar, indent_of}
use assistant_context_router.Yaml.Blocks.{
  is_key_char, split_colon, key_value, is_element, parse_value, in_mapping, parse_mapping,
  parse_block, parse_lines, starts_sequence, fuel_for,
}

-- `key: text`
abbrev pub entry_line : String → String → String
entry_line [] text = ":" ∷ " " ∷ text
entry_line (c ∷ key) text = c ∷ entry_line key text

abbrev pub IsKey : String → Type 0
IsKey key = (is_empty key ≡ false) × (all_chars is_key_char key ≡ true)

-- Not blank, and with no space at either end.
abbrev pub IsTrimmed : String → Type 0
IsTrimmed text = (is_empty text ≡ false) × (trim_start text ≡ text) × (trim_end text ≡ text)

and_true : (a b : Bool) → (a && b) ≡ true → (a ≡ true) × (b ≡ true)
and_true true b h = (refl, h)
and_true false b h = (h, ground arith)

key_char-space : (c : ℕ) → is_key_char c ≡ true → is_space c ≡ false
unfolding is_space is_alnum
key_char-space c h = ground arith

key_char-blank : (c : ℕ) → is_key_char c ≡ true → nat_eq c b' ' ≡ false
unfolding is_alnum
key_char-blank c h = ground arith

key_char-colon : (c : ℕ) → is_key_char c ≡ true → nat_eq c b':' ≡ false
unfolding is_alnum
key_char-colon c h = ground arith

trim_end-cons :
    (c : Char) (s : String) → is_space (code c) ≡ false → trim_end s ≡ s → trim_end (c ∷ s) ≡ c ∷ s
unfolding trim_end
trim_end-cons c s n e = rw e (rw n (either (is_empty s)))
  where
    either : (b : Bool) → (if b && false then [] else c ∷ s) ≡ c ∷ s
    either true = refl
    either false = refl

trim_end-nonempty :
    (c : Char) (s : String) → is_empty s ≡ false → trim_end s ≡ s → trim_end (c ∷ s) ≡ c ∷ s
unfolding trim_end
trim_end-nonempty c s n e = rw e (rw n refl)

trim-key : (key : String) → all_chars is_key_char key ≡ true → trim_end key ≡ key
unfolding all_chars trim_end
trim-key [] h = refl
trim-key (c ∷ key) h =
    let (k, rest) = and_true (is_key_char (code c)) (all_chars is_key_char key) h in
    trim_end-cons c key (key_char-space (code c) k) (trim-key key rest)

entry_line-nonempty : (key text : String) → is_empty (entry_line key text) ≡ false
entry_line-nonempty [] text = refl
entry_line-nonempty (c ∷ key) text = refl

trim_end-entry_line :
    (key text : String) → IsTrimmed text → trim_end (entry_line key text) ≡ entry_line key text
trim_end-entry_line [] text (n, s, e) =
    trim_end-nonempty ":" (" " ∷ text) refl (trim_end-nonempty " " text n e)
trim_end-entry_line (c ∷ key) text t =
    trim_end-nonempty c (entry_line key text) (entry_line-nonempty key text)
      (trim_end-entry_line key text t)

trim_start-cons : (c : Char) (s : String) → is_key_char (code c) ≡ true → trim_start (c ∷ s) ≡ c ∷ s
unfolding trim_start
trim_start-cons c s k = rw (key_char-space (code c) k) refl

split_colon-entry_line :
    (key text : String)
    → all_chars is_key_char key ≡ true
    → split_colon (entry_line key text) ≡ some (key, " " ∷ text)
unfolding split_colon all_chars
split_colon-entry_line [] text h = refl
split_colon-entry_line (c ∷ key) text h =
    let (k, rest) = and_true (is_key_char (code c)) (all_chars is_key_char key) h in
    rw (key_char-colon (code c) k) (rw (split_colon-entry_line key text rest) refl)

trim-entry_line :
    (key text : String)
    → IsKey key
    → IsTrimmed text
    → (trim (entry_line key text) ≡ entry_line key text) × (indent_of (entry_line key text) ≡ 0)
unfolding trim indent_of all_chars
trim-entry_line [] text (n, h) t = elim (absurd_key n) [ ]
  where
    absurd_key : ◌≡◌ {A = Bool} true false → ⊥
    absurd_key e = cc
trim-entry_line (c ∷ key) text (n, h) t =
    let (k, rest) = and_true (is_key_char (code c)) (all_chars is_key_char key) h in
    let start = trim_start-cons c (entry_line key text) k in
    (ap trim_end start ∙ trim_end-entry_line (c ∷ key) text t, rw start (omega arith))

is_element-entry_line : (key text : String) → IsKey key → is_element (entry_line key text) ≡ false
unfolding starts_with all_chars
is_element-entry_line [] text (n, h) = cc
is_element-entry_line (c ∷ []) text (n, h) = ground arith
is_element-entry_line (c ∷ d ∷ key) text (n, h) =
    let (k, rest) = and_true (is_key_char (code c)) (all_chars is_key_char (d ∷ key)) h in
    let (l, more) = and_true (is_key_char (code d)) (all_chars is_key_char key) rest in
    rw (key_char-blank (code d) l) (never (nat_eq (code c) b'-'))
  where
    never : (b : Bool) → (b && false) ≡ false
    never true = refl
    never false = refl

trimmed_key :
    (c : Char) (key : String) → all_chars is_key_char (c ∷ key) ≡ true → trim (c ∷ key) ≡ c ∷ key
unfolding trim all_chars
trimmed_key c key h =
    let (k, rest) = and_true (is_key_char (code c)) (all_chars is_key_char key) h in
    ap trim_end (trim_start-cons c key k) ∙ trim-key (c ∷ key) h

trimmed_text : (text : String) → IsTrimmed text → trim (" " ∷ text) ≡ text
unfolding trim trim_start is_space
trimmed_text text (n, s, e) = ap trim_end s ∙ e

key_value-entry_line :
    (key text : String)
    → IsKey key
    → IsTrimmed text
    → key_value (entry_line key text) ≡ some (key, text)
unfolding key_value
key_value-entry_line [] text (n, h) t = cc
key_value-entry_line (c ∷ key) text (n, h) t =
    rw (split_colon-entry_line (c ∷ key) text h, key_value)
      (ap (λ (k : String). some (k, trim (" " ∷ text))) (trimmed_key c key h)
        ∙ ap (λ (v : String). some (c ∷ key, v)) (trimmed_text text t))

-- The keys with their scalars, in their order; a later text of a key takes the place of an earlier one.
abbrev pub collect : Host → List (String × String) → Fields → Fields
collect host List.[] fields = fields
collect host (List.◌∷◌ (key, text) entries) fields =
    collect host entries (set_field key (scalar host text) fields)

abbrev pub lines_of : List (String × String) → List String
lines_of entries = map (λ e. entry_line e.0 e.1) entries

abbrev pub IsEntry : String × String → Type 0
IsEntry e = IsKey e.0 × IsTrimmed e.1

length-lines_of : (entries : List (String × String)) → length (lines_of entries) ≡ length entries
length-lines_of List.[] = refl
length-lines_of (List.◌∷◌ e entries) = ap suc (length-lines_of entries)

module _ (host : Host) where
  parse_value-text :
      (text : String) (lines : List String) (block : List String → ℕ → Option (Value × List String))
      → is_empty text ≡ false
      → parse_value host block text lines 0 ≡ some (scalar host text, lines)
  unfolding parse_value
  parse_value-text text lines block h = rw (h, parse_value) refl

  parse_mapping-lines_of :
      (n : ℕ) (entries : List (String × String)) (fields : Fields)
      → length entries + 1 ≤ n
      → All IsEntry entries
      → parse_mapping host n (lines_of entries) 0 fields
        ≡ some (collect host entries fields, List.[])
  unfolding parse_mapping parse_value
  parse_mapping-lines_of zero entries fields l h = let x : ⊥ = omega (arith, l) in elim x [ ]
  parse_mapping-lines_of (suc n) List.[] fields l h = refl
  parse_mapping-lines_of (suc n) (List.◌∷◌ (key, text) entries) fields l ((k, t), hs) =
      let (same, column) = trim-entry_line key text k t in
      let member : in_mapping (entry_line key text) 0 ≡ true =
        rw (same, column, is_element-entry_line key text k) refl in
      let read : key_value (trim (entry_line key text)) ≡ some (key, text) =
        ap key_value same ∙ key_value-entry_line key text k t in
      rw (member, parse_mapping)
        (rw read (
          rw (parse_value-text text (lines_of entries) (parse_block host n) (t.0)) (
            parse_mapping-lines_of n entries (set_field key (scalar host text) fields)
              (omega (arith, l)) hs)))

  parse_block-lines_of :
      (n : ℕ) (key text : String) (entries : List (String × String))
      → length entries + 3 ≤ n
      → All IsEntry (List.◌∷◌ (key, text) entries)
      → parse_block host n (lines_of (List.◌∷◌ (key, text) entries)) 0
        ≡ some (Value.obj (collect host (List.◌∷◌ (key, text) entries) Value.end), List.[])
  unfolding parse_block
  parse_block-lines_of zero key text entries l h = let x : ⊥ = omega (arith, l) in elim x [ ]
  parse_block-lines_of (suc n) key text entries l ((k, t), hs) =
      let (same, column) = trim-entry_line key text k t in
      let dashless : starts_sequence (lines_of (List.◌∷◌ (key, text) entries)) ≡ false =
        rw same (is_element-entry_line key text k) in
      rw (dashless, parse_block)
        (rw
          (parse_mapping-lines_of n (List.◌∷◌ (key, text) entries) Value.end (omega (arith, l))
            ((k, t), hs))
          refl)

  -- Lines that are written for keys with texts, one line each, are parsed to an object that has each key
  -- with the scalar of its text, the later where a key comes twice, and nothing else.
  pub parse_lines-lines_of :
      (entries : List (String × String))
      → All IsEntry entries
      → parse_lines host (lines_of entries) ≡ some (Value.obj (collect host entries Value.end))
  unfolding parse_lines
  parse_lines-lines_of List.[] h = refl
  parse_lines-lines_of (List.◌∷◌ (key, text) entries) ((k, t), hs) =
      let (same, column) = trim-entry_line key text k t in
      let count = length-lines_of entries in
      let n = fuel_for (length (lines_of (List.◌∷◌ (key, text) entries))) in
      rw column
        (rw (parse_block-lines_of n key text entries (omega (arith, count)) ((k, t), hs)) refl)
