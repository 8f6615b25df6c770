-- ===== src/Prelude/Dict.antt =====
-- A Python dict with text keys, in insertion order.
use mathlib.Core.Path.{◌≡◌, refl, sym, subst}
use mathlib.Core.Logic.{inl, inr}
use mathlib.Core.List.{List, [], ◌∷◌}
use mathlib.Core.Option.{Option, none, some}
use native.Mathlib.Omega.{arith}
use verisearch.Prelude.Tests.{if◌then◌else◌, if_property, Bool-cases}
use verisearch.Prelude.Lists.{All}
use verisearch.Prelude.Text.{Str, str_eq, str_eq_iff}

abbrev pub Dict {ℓ} : Type ℓ → Type ℓ
Dict V = List (Str × V)

module _ {ℓ} {V : Type ℓ} where
  -- `d.get(k)`
  abbrev pub lookup : Str → Dict V → Option V
  lookup k [] = none
  lookup k ((j, v) ∷ d) = let rest = lookup k d in if str_eq j k then some v else rest

  -- `d[k] = v`
  abbrev pub insert : Str → V → Dict V → Dict V
  insert k v [] = (k, v) ∷ []
  insert k v ((j, w) ∷ d) =
      let rest = insert k v d in if str_eq j k then (j, v) ∷ d else (j, w) ∷ rest

  -- `d.pop(k, None)`
  abbrev pub remove : Str → Dict V → Dict V
  remove k [] = []
  remove k ((j, w) ∷ d) = let rest = remove k d in if str_eq j k then rest else (j, w) ∷ rest

  pub lookup-insert :
      (k j : Str) (v : V) (d : Dict V)
      → lookup j (insert k v d) ≡ (if str_eq k j then some v else lookup j d)
  lookup-insert k j v [] = refl
  lookup-insert k j v ((i, w) ∷ d) =
      ground (arith, lookup-insert k j v d, str_eq_iff k j, str_eq_iff i k, str_eq_iff i j)

  pub lookup-remove :
      (k j : Str) (d : Dict V) → lookup j (remove k d) ≡ (if str_eq k j then none else lookup j d)
  lookup-remove k j [] = ground arith
  lookup-remove k j ((i, w) ∷ d) =
      ground (arith, lookup-remove k j d, str_eq_iff k j, str_eq_iff i k, str_eq_iff i j)

  -- A property of every value is kept by an insertion and holds of what is found.
  pub All-insert {κ} :
      (P : V → Type κ) (k : Str) (v : V) (d : Dict V)
      → P v
      → All (λ e. P e.1) d
      → All (λ e. P e.1) (insert k v d)
  All-insert P k v [] p h = (p, tt)
  All-insert P k v ((j, w) ∷ d) p h =
      if_property (All (λ e. P e.1)) (str_eq j k) ((j, v) ∷ d) ((j, w) ∷ insert k v d)
        (λ _. (p, h.1)) (λ _. (h.0, All-insert P k v d p h.1))

  pub All-lookup {κ} :
      (P : V → Type κ) (k : Str) (v : V) (d : Dict V)
      → All (λ e. P e.1) d
      → lookup k d ≡ some v
      → P v
  All-lookup P k v [] h e = cc
  All-lookup P k v ((j, w) ∷ d) h e = elim (Bool-cases (str_eq j k)) [
    | inl here ↦ let q : w ≡ v = ground arith in subst P q h.0
    | inr later ↦ All-lookup P k v d h.1 (rw later at e)
  ]

module _ {ℓ κ} {V : Type ℓ} (P : Str × V → Type κ) where
  -- A property of every entry.
  pub All-insert_entry : (k : Str) (v : V) (d : Dict V) → P (k, v) → All P d → All P (insert k v d)
  All-insert_entry k v [] p h = (p, tt)
  All-insert_entry k v ((j, w) ∷ d) p h =
      if_property (All P) (str_eq j k) ((j, v) ∷ d) ((j, w) ∷ insert k v d)
        (λ e. (subst (λ i. P (i, v)) (sym ((str_eq_iff j k).0 e)) p, h.1))
        (λ _. (h.0, All-insert_entry k v d p h.1))

  pub All-remove : (k : Str) (d : Dict V) → All P d → All P (remove k d)
  All-remove k [] h = tt
  All-remove k ((j, w) ∷ d) h =
      if_property (All P) (str_eq j k) (remove k d) ((j, w) ∷ remove k d) (λ _. All-remove k d h.1)
        (λ _. (h.0, All-remove k d h.1))

  pub All-lookup_entry : (k : Str) (v : V) (d : Dict V) → All P d → lookup k d ≡ some v → P (k, v)
  All-lookup_entry k v [] h e = cc
  All-lookup_entry k v ((j, w) ∷ d) h e = elim (Bool-cases (str_eq j k)) [
    | inl here ↦
        let q : w ≡ v = ground arith in
        subst (λ u. P (k, u)) q (subst (λ i. P (i, w)) ((str_eq_iff j k).0 here) h.0)
    | inr later ↦ All-lookup_entry k v d h.1 (rw later at e)
  ]
