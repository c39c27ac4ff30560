-- ===== src/Projects/Scripts.antt =====
-- The distance of two texts is the least number of insertions, deletions and replacements that turn one
-- into the other.
use Prim.Native.Char.{Char, code}
use Prim.Native.String.{[], ◌∷◌}
use assistant_context_router.Prelude.{
  ℕ, suc, ◌+◌, ◌≤◌, String, true, List, ◌≡◌, refl, sym, ◌∙◌, ap, subst, inl, inr, ◌==◌, nat_eq,
  arith, ◌⊎◌, ltb, eq_iff, if◌then◌else◌, Bool-cases,
}
use assistant_context_router.Text.{is_empty, text_length}
use assistant_context_router.Projects.{
  least, substitution_cost, first_row, next_row, last_row, last_cell, levenshtein_distance,
}

-- Texts are read from their ends: each step accounts for a last character.
pub data Script : String → String → ℕ → Type 0 where
  nothing : Script [] [] 0
  keep :
      {x y : Char} {a b : String} {n : ℕ}
      → nat_eq (code x) (code y) ≡ true
      → Script a b n
      → Script (x ∷ a) (y ∷ b) n
  replace : {x y : Char} {a b : String} {n : ℕ} → Script a b n → Script (x ∷ a) (y ∷ b) (suc n)
  insert : {y : Char} {a b : String} {n : ℕ} → Script a b n → Script a (y ∷ b) (suc n)
  delete : {x : Char} {a b : String} {n : ℕ} → Script a b n → Script (x ∷ a) b (suc n)

-- The cells of the table, for texts read from their ends.
unfoldable distance : String → String → ℕ
distance [] b = text_length b
distance (x ∷ a) [] = suc (text_length a)
distance (x ∷ a) (y ∷ b) =
    least (least (suc (distance a (y ∷ b))) (suc (distance (x ∷ a) b)))
      (distance a b + substitution_cost x y)

least-left : (a b n : ℕ) → a ≤ n → least a b ≤ n
least-left a b n h = ground (arith, h)

least-right : (a b n : ℕ) → b ≤ n → least a b ≤ n
least-right a b n h = ground (arith, h)

distance-nil : (a : String) → distance a [] ≡ text_length a
unfolding distance text_length
distance-nil [] = refl
distance-nil (x ∷ a) = refl

-- One insertion or deletion changes the distance by at most one.
distance-insert : (y : Char) (a b : String) → distance a (y ∷ b) ≤ suc (distance a b)
unfolding distance text_length
distance-insert y [] b = omega arith
distance-insert y (x ∷ a) b = ground arith

distance-delete : (x : Char) (a b : String) → distance (x ∷ a) b ≤ suc (distance a b)
unfolding distance text_length
distance-delete x a [] = rw (distance-nil a) (omega arith)
distance-delete x a (y ∷ b) = ground arith

-- No script is shorter.
distance-least : {a b : String} {n : ℕ} → Script a b n → distance a b ≤ n
unfolding distance text_length
distance-least Script.nothing = omega arith
distance-least (Script.keep {x} {y} {a} {b} e s) =
    let ih = distance-least s in ground (arith, e, ih)
distance-least (Script.replace {x} {y} {a} {b} s) = let ih = distance-least s in ground (arith, ih)
distance-least (Script.insert {y} {a} {b} s) =
    omega (arith, distance-insert y a b, distance-least s)
distance-least (Script.delete {x} {a} {b} s) =
    omega (arith, distance-delete x a b, distance-least s)

least-cases : (a b : ℕ) → (least a b ≡ a) ⊎ (least a b ≡ b)
least-cases a b = elim (Bool-cases (ltb b a)) [ inl t ↦ inr (rw t refl) | inr f ↦ inl (rw f refl) ]

inserts : (b : String) → Script [] b (text_length b)
unfolding text_length
inserts [] = Script.nothing
inserts (y ∷ b) = Script.insert (inserts b)

deletes : (a : String) → Script a [] (text_length a)
unfolding text_length
deletes [] = Script.nothing
deletes (x ∷ a) = Script.delete (deletes a)

substitute :
    (x y : Char) (a b : String) (n : ℕ)
    → Script a b n
    → Script (x ∷ a) (y ∷ b) (n + substitution_cost x y)
substitute x y a b n s = elim (Bool-cases (nat_eq (code x) (code y))) [
  | inl t ↦ rw t (subst (Script (x ∷ a) (y ∷ b)) (omega arith) (Script.keep t s))
  | inr f ↦ rw f (subst (Script (x ∷ a) (y ∷ b)) (omega arith) (Script.replace s))
]

-- Some script has that length.
distance-attained : (a b : String) → Script a b (distance a b)
unfolding distance
distance-attained [] b = inserts b
distance-attained (x ∷ a) [] = deletes_all
  where
    deletes_all : Script (x ∷ a) [] (suc (text_length a))
    deletes_all = Script.delete (deletes a)
distance-attained (x ∷ a) (y ∷ b) =
    let d = suc (distance a (y ∷ b)) in
    let i = suc (distance (x ∷ a) b) in
    let s = distance a b + substitution_cost x y in
    let by_delete : Script (x ∷ a) (y ∷ b) d = Script.delete (distance-attained a (y ∷ b)) in
    let by_insert : Script (x ∷ a) (y ∷ b) i = Script.insert (distance-attained (x ∷ a) b) in
    let by_change : Script (x ∷ a) (y ∷ b) s =
      substitute x y a b (distance a b) (distance-attained a b) in
    elim (least-cases (least d i) s) [
      | inr e ↦ subst (Script (x ∷ a) (y ∷ b)) (sym e) by_change
      | inl e ↦ elim (least-cases d i) [
        | inl f ↦ subst (Script (x ∷ a) (y ∷ b)) (sym f ∙ sym e) by_delete
        | inr f ↦ subst (Script (x ∷ a) (y ∷ b)) (sym f ∙ sym e) by_insert
      ]
    ]

-- The characters of a text from its end.
abbrev pub onto : String → String → String
onto done [] = done
onto done (c ∷ s) = onto (c ∷ done) s

abbrev pub backwards : String → String
backwards s = onto [] s

-- The row of a text read so far, for the prefixes of the other from one on.
row_tail : String → String → String → List ℕ
unfolding distance
row_tail a done [] = List.[]
row_tail a done (y ∷ b) = List.◌∷◌ (distance a (y ∷ done)) (row_tail a (y ∷ done) b)

abbrev row_of : String → String → String → List ℕ
unfolding distance row_tail
row_of a done b = List.◌∷◌ (distance a done) (row_tail a done b)

first_row-row_of : (done b : String) → first_row (text_length done) b ≡ row_of [] done b
unfolding first_row row_tail distance text_length
first_row-row_of done [] = refl
first_row-row_of done (y ∷ b) = ap (List.◌∷◌ (text_length done)) (first_row-row_of (y ∷ done) b)

next_row-row_of :
    (x : Char) (a done b : String)
    → next_row x b (row_of a done b) (distance (x ∷ a) done) ≡ row_of (x ∷ a) done b
unfolding next_row row_tail distance
next_row-row_of x a done [] = refl
next_row-row_of x a done (y ∷ b) =
    ap (List.◌∷◌ (distance (x ∷ a) done)) (next_row-row_of x a (y ∷ done) b)

last_row-row_of :
    (a done b : String)
    → last_row a b (text_length done) (row_of done [] b) ≡ row_of (onto done a) [] b
unfolding last_row text_length
last_row-row_of [] done b = refl
last_row-row_of (x ∷ a) done b =
    ap (last_row a b (suc (text_length done))) (
      ap (next_row x b (row_of done [] b)) (sym (distance-nil (x ∷ done)))
      ∙ next_row-row_of x done [] b)
    ∙ last_row-row_of a (x ∷ done) b

last_cell-row_of : (a done b : String) → last_cell (row_of a done b) ≡ distance a (onto done b)
unfolding last_cell row_tail
last_cell-row_of a done [] = refl
last_cell-row_of a done (y ∷ b) = last_cell-row_of a (y ∷ done) b

-- The table's last cell is the distance of the texts read from their ends.
table-distance :
    (a b : String)
    → last_cell (last_row a b 0 (first_row 0 b)) ≡ distance (backwards a) (backwards b)
unfolding text_length
table-distance a b =
    ap (λ r. last_cell (last_row a b 0 r)) (first_row-row_of [] b)
    ∙ ap last_cell (last_row-row_of a [] b)
    ∙ last_cell-row_of (backwards a) [] b

text_length-onto : (done s : String) → text_length (onto done s) ≡ text_length s + text_length done
unfolding text_length
text_length-onto done [] = omega arith
text_length-onto done (c ∷ s) = omega (arith, text_length-onto (c ∷ done) s)

same : (a : String) → Script a a 0
same [] = Script.nothing
same (x ∷ a) = Script.keep (ground arith) (same a)

-- So the early returns agree with the table.
levenshtein-distance :
    (a b : String) → levenshtein_distance a b ≡ distance (backwards a) (backwards b)
unfolding levenshtein_distance distance text_length
levenshtein-distance a b = elim (Bool-cases (a == b)) [
  | inl t ↦ rw t (rw ((eq_iff a b).0 t) (omega (arith, distance-least (same (backwards b)))))
  | inr f ↦ rw f (unequal a b)
]
  where
    unequal :
        (a b : String)
        → (if is_empty a
            then text_length b
            else if is_empty b
            then text_length a
            else last_cell (last_row a b 0 (first_row 0 b)))
          ≡ distance (backwards a) (backwards b)
    unequal [] b = omega (arith, text_length-onto [] b)
    unequal (x ∷ a) [] =
        omega (arith, distance-nil (backwards (x ∷ a)), text_length-onto [] (x ∷ a))
    unequal (x ∷ a) (y ∷ b) = table-distance (x ∷ a) (y ∷ b)

-- The distance of two texts is the length of a shortest script: some script that turns one into the
-- other, read from their ends, has just so many insertions, deletions and replacements, and none has
-- fewer.
pub levenshtein_distance-shortest :
    (a b : String)
    → Script (backwards a) (backwards b) (levenshtein_distance a b)
      × ((n : ℕ) → Script (backwards a) (backwards b) n → levenshtein_distance a b ≤ n)
levenshtein_distance-shortest a b = (
  subst (Script (backwards a) (backwards b)) (sym (levenshtein-distance a b))
      (distance-attained (backwards a) (backwards b)),
  λ n s. omega (arith, levenshtein-distance a b, distance-least s),
)
