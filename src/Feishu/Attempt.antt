-- ===== src/Feishu/Attempt.antt =====
-- An asynchronous call's outcome in adapters/feishu/src: its value, or the text of the error it threw.
use assistant_context_router.Prelude.{
  String, Option, none, some, List, [], ◌∷◌, ◌≡◌, refl, ap, subst, All,
}

pub data Attempt {ℓ} (A : Type ℓ) : Type ℓ where
  returned : A → Attempt A
  thrown : String → Attempt A

infixl 5 ◌>>=◌ ◌>>◌
abbrev pub ◌>>=◌ {ℓ κ} : {A : Type ℓ} {B : Type κ} → Attempt A → (A → Attempt B) → Attempt B
◌>>=◌ (returned a) f = f a
◌>>=◌ (thrown e) f = thrown e

abbrev pub ◌>>◌ {ℓ κ} : {A : Type ℓ} {B : Type κ} → Attempt A → Attempt B → Attempt B
m >> k = m >>= λ _. k

-- `if (!value) throw new Error(message)`
abbrev pub expect {ℓ} : {A : Type ℓ} → String → Option A → Attempt A
expect message none = thrown message
expect message (some a) = returned a

-- The calls one after another, or all of them at once; the first error stands for all.
abbrev pub attempt_all {ℓ κ} :
    {A : Type ℓ} {B : Type κ} → (A → Attempt B) → List A → Attempt (List B)
attempt_all f [] = returned []
attempt_all f (a ∷ rest) = f a >>= λ b. attempt_all f rest >>= λ bs. returned (b ∷ bs)

-- What returns has not thrown on the way.
pub bind-returned {ℓ κ} :
    {A : Type ℓ} {B : Type κ} (m : Attempt A) (f : A → Attempt B) (b : B)
    → (m >>= f) ≡ returned b
    → (a : A) × (m ≡ returned a) × (f a ≡ returned b)
bind-returned (returned a) f b h = (a, refl, h)
bind-returned (thrown e) f b h = cc

pub returned_inj {ℓ} : {A : Type ℓ} (a b : A) → returned a ≡ returned b → a ≡ b
returned_inj {A} a b h = ap value_in h
  where
    value_in : Attempt A → A
    value_in (returned c) = c
    value_in (thrown e) = a

-- What each call guarantees of its value, all calls together guarantee of theirs.
pub attempt_all-All :
    {A B : Type 0} (f : A → Attempt B) (Q : A → Type 0) (P : B → Type 0)
    → ((a : A) (b : B) → Q a → f a ≡ returned b → P b)
    → (xs : List A) (ys : List B) → All Q xs
    → attempt_all f xs ≡ returned ys
    → All P ys
attempt_all-All f Q P h [] ys q e = subst (All P) (returned_inj [] ys e) tt
attempt_all-All f Q P h (x ∷ xs) ys (q, qs) e =
    let (b, e1, e2) =
      bind-returned (f x) (λ b. attempt_all f xs >>= λ bs. returned (b ∷ bs)) ys e in
    let (bs, e3, e4) = bind-returned (attempt_all f xs) (λ bs. returned (b ∷ bs)) ys e2 in
    subst (All P) (returned_inj (b ∷ bs) ys e4) (h x b q e1, attempt_all-All f Q P h xs bs qs e3)
