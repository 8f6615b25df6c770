-- ===== src/Audit/Selection.antt =====
-- Laws of `select` and `delete`.
use verisearch.Prelude.{
  ◌+◌, Bool, true, false, not, Option, none, some, List, [], ◌∷◌, ◌++◌, length, Str, str_eq,
  str_eq_iff, ◌≡◌, refl, ap, ◌∙◌, arith, Bool-cases, inl, inr,
}
use verisearch.Audit.Tables.{Row, AuditEvent, select, row_of, names, event_of}

module _ {A : Type 0} where
  pub select-append :
      (p : A → Bool) (xs ys : List A) → select p (xs ++ ys) ≡ select p xs ++ select p ys
  unfolding select
  select-append p [] ys = refl
  select-append p (x ∷ xs) ys = elim (Bool-cases (p x)) [
    | inl chosen ↦ rw (chosen, select-append p xs ys)
    | inr other ↦ rw (other, select-append p xs ys)
  ]

  -- What is deleted and what is kept are all the rows.
  pub length-select :
      (p : A → Bool) (xs : List A)
      → length (select p xs) + length (select (λ x. not (p x)) xs) ≡ length xs
  unfolding select
  length-select p [] = refl
  length-select p (x ∷ xs) = elim (Bool-cases (p x)) [
    | inl chosen ↦ rw chosen (omega (arith, length-select p xs))
    | inr other ↦ rw other (omega (arith, length-select p xs))
  ]

  pub select-not : (p : A → Bool) (xs : List A) → select p (select (λ x. not (p x)) xs) ≡ []
  unfolding select
  select-not p [] = refl
  select-not p (x ∷ xs) = elim (Bool-cases (p x)) [
    | inl chosen ↦ rw chosen (select-not p xs)
    | inr other ↦ rw (other, other) (select-not p xs)
  ]

  -- Rows that exclude each other: deleting the ones keeps the others.
  pub select-other :
      (p q : A → Bool)
      → ((x : A) → q x ≡ true → p x ≡ false)
      → (xs : List A) → select q (select (λ x. not (p x)) xs) ≡ select q xs
  unfolding select
  select-other p q apart [] = refl
  select-other p q apart (x ∷ xs) = elim (Bool-cases (q x)) [
    | inl chosen ↦
        let e : p x ≡ false = apart x chosen in
        rw (e, chosen) (ap (λ r. x ∷ r) (select-other p q apart xs))
    | inr other ↦ elim (Bool-cases (p x)) [
      | inl dropped ↦ rw (dropped, other) (select-other p q apart xs)
      | inr kept ↦ rw (kept, other) (select-other p q apart xs)
    ]
  ]

tenants_apart : (s t u : Str) → str_eq u t ≡ false → str_eq s u ≡ true → str_eq s t ≡ false
tenants_apart s t u differ own = ap (λ x. str_eq x t) ((str_eq_iff s u).0 own) ∙ differ

pub rows_apart :
    (t u : Str) → str_eq u t ≡ false → (x : Row) → row_of u x ≡ true → row_of t x ≡ false
rows_apart t u differ x own = tenants_apart x.tenant_id t u differ own

names_apart :
    (t u : Str) → str_eq u t ≡ false → (o : Option Str) → names u o ≡ true → names t o ≡ false
names_apart t u differ none own = refl
names_apart t u differ (some s) own = tenants_apart s t u differ own

pub events_apart :
    {D : Type 0} (t u : Str)
    → str_eq u t ≡ false
    → (x : AuditEvent D) → event_of u x ≡ true
    → event_of t x ≡ false
events_apart t u differ x own = names_apart t u differ x.tenant_id own
