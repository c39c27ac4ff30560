-- ===== src/Value/Laws.antt =====
-- Reading a key of an object after a key is set or other fields are merged in.
use assistant_context_router.Prelude.{
  String, false, some, ◌≡◌, refl, ◌==◌, ◌<|>◌, inl, inr, eq_iff, eq_refl, arith, Bool-cases,
}
use assistant_context_router.Value.{Value, Fields, lookup, set_field, merge_fields}
use assistant_context_router.Value

pub lookup-set_field :
    (key : String) (v : Value) (fields : Fields) → lookup key (set_field key v fields) ≡ some v
unfolding lookup set_field
lookup-set_field key v Value.end = ground (arith, eq_refl key)
lookup-set_field key v (Value.field k w rest) =
    ground (arith, eq_refl key, eq_iff k key, lookup-set_field key v rest)

pub lookup-set_field_other :
    (key k : String) (v : Value) (fields : Fields)
    → (k == key) ≡ false
    → lookup key (set_field k v fields) ≡ lookup key fields
unfolding lookup set_field
lookup-set_field_other key k v Value.end h = ground arith
lookup-set_field_other key k v (Value.field j w rest) h =
    ground (arith, eq_iff j k, eq_iff k key, eq_iff j key, lookup-set_field_other key k v rest h)

pub lookup-merge_fields :
    (key : String) (updates fields : Fields)
    → lookup key (merge_fields updates fields) ≡ (lookup key updates <|> lookup key fields)
unfolding lookup merge_fields
lookup-merge_fields key Value.end fields = refl
lookup-merge_fields key (Value.field k v rest) fields = elim (Bool-cases (k == key)) [
  | inl t ↦ ground (arith, eq_iff k key, lookup-set_field key v (merge_fields rest fields))
  | inr f ↦ ground (
    arith,
    lookup-set_field_other key k v (merge_fields rest fields) f,
    lookup-merge_fields key rest fields,
  )
]
