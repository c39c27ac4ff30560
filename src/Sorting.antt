-- ===== src/Sorting.antt =====
-- `Array.prototype.sort` by a comparison: stable insertion sort, which every stable sort equals when
-- the comparison is total and transitive.
use mathlib.Core.Logic.Or
use mathlib.Core.List.{Mem, mem-cons, Mem-prop, not-mem-nil, Perm}
use mathlib.Core.List.Perm
use assistant_context_router.Prelude.{
  ◌≡◌, ◌↔◌, Bool, true, false, List, [], ◌∷◌, filter, All, if◌then◌else◌, Bool-cases, inl, inr, ap,
}

module _ {ℓ} {A : Type ℓ} (before : A → A → Bool) where
  pub insert : A → List A → List A
  insert x [] = x ∷ []
  insert x (y ∷ ys) = let rest = insert x ys in if before x y then x ∷ y ∷ ys else y ∷ rest

  -- `xs.sort(…)`, where `before x y` says that the comparison of x with y is not positive.
  unfoldable pub sort : List A → List A
  unfolding insert
  sort [] = []
  sort (x ∷ xs) = insert x (sort xs)

  -- Each element may stand before all that follow it.
  abbrev pub IsSorted : List A → Type ℓ
  IsSorted [] = Unit
  IsSorted (x ∷ xs) = All (λ y. before x y ≡ true) xs × IsSorted xs

  insert-perm : (x : A) (xs : List A) → Perm (insert x xs) (x ∷ xs)
  unfolding insert
  insert-perm x [] = Perm.refl (x ∷ [])
  insert-perm x (y ∷ ys) = elim (Bool-cases (before x y)) [
    | inl b ↦ rw b (Perm.refl (x ∷ y ∷ ys))
    | inr b ↦ rw b (Perm.trans (Perm.cons y (insert-perm x ys)) (Perm.swap x y ys))
  ]

  pub sort-perm : (xs : List A) → Perm (sort xs) xs
  unfolding sort
  sort-perm [] = Perm.refl []
  sort-perm (x ∷ xs) = Perm.trans (insert-perm x (sort xs)) (Perm.cons x (sort-perm xs))

  All-insert {κ} : (P : A → Type κ) (x : A) (xs : List A) → P x → All P xs → All P (insert x xs)
  unfolding insert
  All-insert P x [] p h = (p, tt)
  All-insert P x (y ∷ ys) p h = elim (Bool-cases (before x y)) [
    | inl b ↦ rw b (p, h)
    | inr b ↦ rw b (h.0, All-insert P x ys p h.1)
  ]

  pub All-sort {κ} : (P : A → Type κ) (xs : List A) → All P xs → All P (sort xs)
  unfolding sort
  All-sort P [] h = tt
  All-sort P (x ∷ xs) h = All-insert P x (sort xs) h.0 (All-sort P xs h.1)

  module _ (total : (x y : A) → before x y ≡ false → before y x ≡ true)
      (trans : (x y z : A) → before x y ≡ true → before y z ≡ true → before x z ≡ true) where
    All-before :
        (x y : A) (ys : List A)
        → before x y ≡ true
        → All (λ z. before y z ≡ true) ys
        → All (λ z. before x z ≡ true) ys
    All-before x y [] b h = tt
    All-before x y (z ∷ zs) b h = (trans x y z b h.0, All-before x y zs b h.1)

    insert-IsSorted : (x : A) (xs : List A) → IsSorted xs → IsSorted (insert x xs)
    unfolding insert
    insert-IsSorted x [] s = (tt, tt)
    insert-IsSorted x (y ∷ ys) s = elim (Bool-cases (before x y)) [
      | inl b ↦ rw b ((b, All-before x y ys b s.0), s)
      | inr b ↦
          rw b
            (All-insert (λ z. before y z ≡ true) x ys (total x y b) s.0, insert-IsSorted x ys s.1)
    ]

    -- By a total and transitive comparison the result is sorted.
    pub sort-IsSorted : (xs : List A) → IsSorted (sort xs)
    unfolding sort
    sort-IsSorted [] = tt
    sort-IsSorted (x ∷ xs) = insert-IsSorted x (sort xs) (sort-IsSorted xs)

-- What a filter keeps: the members that pass the test.
module _ {ℓ} {A : Type ℓ} (p : A → Bool) where
  not_kept : (a x : A) → p a ≡ true → a ≡ x → p x ≡ false → ⊥
  not_kept a x t e f = cc (ap p e)

  pub mem-filter : (a : A) (xs : List A) → Mem a (filter p xs) ↔ (Mem a xs × (p a ≡ true))
  mem-filter a [] = (λ m. absurd (not-mem-nil m), λ m. absurd (not-mem-nil m.0))
  mem-filter a (x ∷ xs) = elim (Bool-cases (p x)) [
    | inl b ↦ rw b (
      λ m.
          Or.elim (hlevel Mem-prop) (mem-cons.0 m) (λ e. (mem-cons.1 (Or.inl e), rw e b))
            (λ r. let k = (mem-filter a xs).0 r in (mem-cons.1 (Or.inr k.0), k.1)),
      λ m.
          Or.elim Mem-prop (mem-cons.0 m.0) (λ e. mem-cons.1 (Or.inl e))
            (λ r. mem-cons.1 (Or.inr ((mem-filter a xs).1 (r, m.1)))),
    )
    | inr b ↦ rw b (
      λ m. let k = (mem-filter a xs).0 m in (mem-cons.1 (Or.inr k.0), k.1),
      λ m.
          Or.elim Mem-prop (mem-cons.0 m.0) (λ e. absurd (not_kept a x m.1 e b))
            (λ r. (mem-filter a xs).1 (r, m.1)),
    )
  ]
