-- ===== src/Pipeline/Distinct.antt =====
-- What `dedup_transform` keeps.
use verisearch.Prelude.{
  Bool, true, false, ◌||◌, List, [], ◌∷◌, map, Str, str_eq, str_eq_iff, ◌≡◌, refl, sym, subst, ◌∙◌,
  Bool-cases, inl, inr,
}
use verisearch.Pipeline.Builtin.{is_in, dedup_from, dedup_transform}

module _ {R : Type 0} (value : R → Str) where
  -- No value stands twice, and none of those seen.
  abbrev pub DistinctFrom : List Str → List R → Type 0
  DistinctFrom seen [] = Unit
  DistinctFrom seen (r ∷ rs) = (is_in (value r) seen ≡ false) × DistinctFrom (value r ∷ seen) rs

  dedup_from-distinct :
      (seen : List Str) (rs : List R) → DistinctFrom seen (dedup_from value seen rs)
  unfolding dedup_from
  dedup_from-distinct seen [] = tt
  dedup_from-distinct seen (r ∷ rs) = elim (Bool-cases (is_in (value r) seen)) [
    | inl old ↦ rw old (dedup_from-distinct seen rs)
    | inr new ↦ rw new (new, dedup_from-distinct (value r ∷ seen) rs)
  ]

  -- A value that is seen or comes is seen or kept.
  dedup_from-is_in :
      (v : Str) (seen : List Str) (rs : List R)
      → (is_in v seen || is_in v (map value (dedup_from value seen rs)))
        ≡ (is_in v seen || is_in v (map value rs))
  unfolding dedup_from
  dedup_from-is_in v seen [] = refl
  dedup_from-is_in v seen (r ∷ rs) = elim (Bool-cases (is_in (value r) seen)) [
    | inl old ↦ rw old (
        dedup_from-is_in v seen rs
        ∙ absorbed (str_eq v (value r)) (is_in v seen) (is_in v (map value rs))
            (λ e. subst (λ k. is_in k seen ≡ true) (sym ((str_eq_iff v (value r)).0 e)) old))
    | inr new ↦ rw new (
        shifted (is_in v seen) (str_eq v (value r))
          (is_in v (map value (dedup_from value (value r ∷ seen) rs)))
        ∙ dedup_from-is_in v (value r ∷ seen) rs
        ∙ sym (shifted (is_in v seen) (str_eq v (value r)) (is_in v (map value rs))))
  ]
    where
      absorbed : (a s b : Bool) → (a ≡ true → s ≡ true) → (s || b) ≡ (s || (a || b))
      absorbed true true b h = refl
      absorbed true false b h = let q : false ≡ true = h refl in cc
      absorbed false s b h = refl

      shifted : (s a b : Bool) → (s || (a || b)) ≡ ((a || s) || b)
      shifted true true b = refl
      shifted true false b = refl
      shifted false true b = refl
      shifted false false b = refl

  -- `dedup_transform` keeps the results with values that differ, and loses no value.
  pub dedup_transform-distinct :
      (results : List R)
      → DistinctFrom [] (dedup_transform value results)
        × ((v : Str)
            → is_in v (map value (dedup_transform value results)) ≡ is_in v (map value results))
  unfolding dedup_transform
  dedup_transform-distinct results =
      (dedup_from-distinct [] results, λ v. dedup_from-is_in v [] results)
