-- ===== src/Keyed.antt =====
-- Lists of records with an id: `findIndex` by the id, the write at the index, and `push`.
use mathlib.Core.Option.{some-injective}
use assistant_context_router.Prelude.{
  String, ◌≡◌, refl, false, Option, none, some, List, [], ◌∷◌, ◌++◌, All, ◌==◌, eq_iff,
  if◌then◌else◌, arith, Bool-cases, inl, inr, length, subst,
}

module _ {ℓ} {A : Type ℓ} (key : A → String) where
  -- The first record with the id.
  unfoldable pub find_by : String → List A → Option A
  find_by id [] = none
  find_by id (x ∷ xs) = if key x == id then some x else find_by id xs

  -- The write at the index of the first record with the id.
  unfoldable pub replace_by : String → A → List A → List A
  replace_by id v [] = []
  replace_by id v (x ∷ xs) = if key x == id then v ∷ xs else x ∷ replace_by id v xs

  -- No record has the id.
  abbrev pub IsFresh : String → List A → Type 0
  IsFresh id [] = Unit
  IsFresh id (x ∷ xs) = ((key x == id) ≡ false) × IsFresh id xs

  -- No two records share an id.
  abbrev pub IsDistinct : List A → Type 0
  IsDistinct [] = Unit
  IsDistinct (x ∷ xs) = IsFresh (key x) xs × IsDistinct xs

  pub find_by-key : (id : String) (xs : List A) {x : A} → find_by id xs ≡ some x → key x ≡ id
  unfolding find_by
  find_by-key id [] h = ground arith
  find_by-key id (y ∷ ys) {x} h = elim (Bool-cases (key y == id)) [
    | inl e ↦ ground (arith, eq_iff (key y) id)
    | inr e ↦ find_by-key id ys (rw e at h)
  ]

  pub All-find_by {κ} :
      (P : A → Type κ) (id : String) (xs : List A) {x : A} → All P xs → find_by id xs ≡ some x → P x
  unfolding find_by
  All-find_by P id [] p h = absurd (ground arith)
  All-find_by P id (y ∷ ys) {x} p h = elim (Bool-cases (key y == id)) [
    | inl e ↦ subst P (some-injective y x (rw e at h)) p.0
    | inr e ↦ All-find_by P id ys p.1 (rw e at h)
  ]

  pub find_by-replace_by :
      (id j : String) (v : A) (xs : List A) {x : A}
      → key v ≡ id
      → find_by id xs ≡ some x
      → find_by j (replace_by id v xs) ≡ (if id == j then some v else find_by j xs)
  unfolding find_by replace_by
  find_by-replace_by id j v [] e h = absurd (ground arith)
  find_by-replace_by id j v (y ∷ ys) e h = elim (Bool-cases (key y == id)) [
    | inl m ↦ rw (m, e, (eq_iff (key y) id).0 m) (ground arith)
    | inr m ↦
        rw (m, find_by-replace_by id j v ys e (rw m at h))
          (ground (arith, eq_iff (key y) id, eq_iff (key y) j, eq_iff id j))
  ]

  pub find_by-push :
      (j : String) (v : A) (xs : List A)
      → find_by (key v) xs ≡ none
      → find_by j (xs ++ v ∷ []) ≡ (if key v == j then some v else find_by j xs)
  unfolding find_by
  find_by-push j v [] h = refl
  find_by-push j v (y ∷ ys) h =
      ground
        (arith, eq_iff (key y) (key v), eq_iff (key y) j, eq_iff (key v) j, find_by-push j v ys)

  pub IsFresh-of_none : (id : String) (xs : List A) → find_by id xs ≡ none → IsFresh id xs
  unfolding find_by
  IsFresh-of_none id [] h = tt
  IsFresh-of_none id (y ∷ ys) h = elim (Bool-cases (key y == id)) [
    | inl e ↦ absurd (ground arith)
    | inr e ↦ (e, IsFresh-of_none id ys (rw e at h))
  ]

  IsFresh-replace_by :
      (i id : String) (v : A) (xs : List A)
      → key v ≡ id
      → IsFresh i xs
      → IsFresh i (replace_by id v xs)
  unfolding replace_by
  IsFresh-replace_by i id v [] e h = tt
  IsFresh-replace_by i id v (y ∷ ys) e h = elim (Bool-cases (key y == id)) [
    | inl m ↦ rw m (rw (e, ← ((eq_iff (key y) id).0 m)) h.0, h.1)
    | inr m ↦ rw m (h.0, IsFresh-replace_by i id v ys e h.1)
  ]

  pub IsDistinct-replace_by :
      (id : String) (v : A) (xs : List A)
      → key v ≡ id
      → IsDistinct xs
      → IsDistinct (replace_by id v xs)
  unfolding replace_by
  IsDistinct-replace_by id v [] e h = tt
  IsDistinct-replace_by id v (y ∷ ys) e h = elim (Bool-cases (key y == id)) [
    | inl m ↦ rw m (rw (e, ← ((eq_iff (key y) id).0 m)) h.0, h.1)
    | inr m ↦ rw m (IsFresh-replace_by (key y) id v ys e h.0, IsDistinct-replace_by id v ys e h.1)
  ]

  IsFresh-push :
      (i : String) (v : A) (xs : List A)
      → (key v == i) ≡ false
      → IsFresh i xs
      → IsFresh i (xs ++ v ∷ [])
  IsFresh-push i v [] n h = (n, tt)
  IsFresh-push i v (y ∷ ys) n h = (h.0, IsFresh-push i v ys n h.1)

  pub IsDistinct-push :
      (v : A) (xs : List A) → find_by (key v) xs ≡ none → IsDistinct xs → IsDistinct (xs ++ v ∷ [])
  unfolding find_by
  IsDistinct-push v [] f h = (tt, tt)
  IsDistinct-push v (y ∷ ys) f h = elim (Bool-cases (key y == key v)) [
    | inl m ↦ absurd (ground arith)
    | inr m ↦ (
      IsFresh-push (key y) v ys (ground (arith, eq_iff (key v) (key y), eq_iff (key y) (key v)))
          h.0,
      IsDistinct-push v ys (rw m at f) h.1,
    )
  ]

  pub All-replace_by {κ} :
      (P : A → Type κ) (id : String) (v : A) (xs : List A)
      → P v
      → All P xs
      → All P (replace_by id v xs)
  unfolding replace_by
  All-replace_by P id v [] p h = tt
  All-replace_by P id v (y ∷ ys) p h = elim (Bool-cases (key y == id)) [
    | inl m ↦ rw m (p, h.1)
    | inr m ↦ rw m (h.0, All-replace_by P id v ys p h.1)
  ]

  pub length-replace_by :
      (id : String) (v : A) (xs : List A) → length (replace_by id v xs) ≡ length xs
  unfolding replace_by
  length-replace_by id v [] = refl
  length-replace_by id v (y ∷ ys) = ground (arith, length-replace_by id v ys)
