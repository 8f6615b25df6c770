-- ===== src/Auth/Matches.antt =====
-- Which row a token matches, before and behind a rotation.
use verisearch.Prelude.{
  ℕ, Bool, true, false, ◌||◌, Option, none, some, List, [], ◌∷◌, ◌++◌, any, if◌then◌else◌, Str,
  str_eq, str_eq_iff, ◌≡◌, inl, inr, refl, sym, ap, ◌∙◌, Bool-cases,
}
use verisearch.Auth.Keys.{KeyRow, candidates_in, first_match}
use verisearch.Auth.Rotation.{is_rotated, revoke_rows}

abbrev pub revoked_row : Str → Str → ℕ → ℕ → KeyRow → KeyRow
revoked_row tenant prefix now grace r =
    if is_rotated tenant prefix r
    then record r { revoked_at = some now; rotation_grace_seconds = grace }
    else r

abbrev pub on_found : (KeyRow → KeyRow) → Option KeyRow → Option KeyRow
on_found f none = none
on_found f (some r) = some (f r)

pub candidates_in-append :
    (p : Str) (xs ys : List KeyRow)
    → candidates_in p (xs ++ ys) ≡ candidates_in p xs ++ candidates_in p ys
unfolding candidates_in
candidates_in-append p [] ys = refl
candidates_in-append p (x ∷ xs) ys = elim (Bool-cases (str_eq x.key_prefix p)) [
  | inl here ↦ rw (here, candidates_in-append p xs ys)
  | inr other ↦ rw (other, candidates_in-append p xs ys)
]

revoked_row-key_prefix :
    (tenant prefix : Str) (now grace : ℕ) (r : KeyRow)
    → (revoked_row tenant prefix now grace r).key_prefix ≡ r.key_prefix
revoked_row-key_prefix tenant prefix now grace r = elim (Bool-cases (is_rotated tenant prefix r)) [
  | inl yes' ↦ rw yes'
  | inr no' ↦ rw no'
]

revoked_row-key_hash :
    (tenant prefix : Str) (now grace : ℕ) (r : KeyRow)
    → (revoked_row tenant prefix now grace r).key_hash ≡ r.key_hash
revoked_row-key_hash tenant prefix now grace r = elim (Bool-cases (is_rotated tenant prefix r)) [
  | inl yes' ↦ rw yes'
  | inr no' ↦ rw no'
]

found_later : (b c : Bool) → c ≡ true → (b || c) ≡ true
found_later true c e = refl
found_later false c e = e

module _ (verify : Str → Str → Bool) (token : Str) where
  pub first_match-append :
      (xs ys : List KeyRow) (r : KeyRow)
      → first_match verify token xs ≡ some r
      → first_match verify token (xs ++ ys) ≡ some r
  unfolding first_match
  first_match-append [] ys r e = cc
  first_match-append (x ∷ xs) ys r e = elim (Bool-cases (verify x.key_hash token)) [
    | inl here ↦ rw here (rw here at e)
    | inr other ↦ rw other (first_match-append xs ys r (rw other at e))
  ]

  pub first_match-append_none :
      (xs ys : List KeyRow)
      → first_match verify token xs ≡ none
      → first_match verify token (xs ++ ys) ≡ first_match verify token ys
  unfolding first_match
  first_match-append_none [] ys e = refl
  first_match-append_none (x ∷ xs) ys e = elim (Bool-cases (verify x.key_hash token)) [
    | inl here ↦ let q : some x ≡ none = rw here at e in cc
    | inr other ↦ rw other (first_match-append_none xs ys (rw other at e))
  ]

  -- The rotation changes the row that is found, and not which one is found.
  pub first_match-revoke_rows :
      (tenant prefix p : Str) (now grace : ℕ) (rows : List KeyRow)
      → first_match verify token (candidates_in p (revoke_rows tenant prefix now grace rows))
        ≡ on_found
            (revoked_row tenant prefix now grace)
            (first_match verify token (candidates_in p rows))
  unfolding first_match candidates_in revoke_rows
  first_match-revoke_rows tenant prefix p now grace [] = refl
  first_match-revoke_rows tenant prefix p now grace (r ∷ rows) =
      let same_prefix = revoked_row-key_prefix tenant prefix now grace r in
      let same_hash = revoked_row-key_hash tenant prefix now grace r in
      let rest = first_match-revoke_rows tenant prefix p now grace rows in
      elim (Bool-cases (str_eq r.key_prefix p)) [
        | inr other ↦ rw (same_prefix, other) rest
        | inl here ↦ elim (Bool-cases (verify r.key_hash token)) [
          | inl found ↦ rw (same_prefix, here, same_hash, found)
          | inr passed ↦ rw (same_prefix, here, same_hash, passed) rest
        ]
      ]

  -- A row that is found, not revoked and the tenant's, is one that the UPDATE changes.
  pub any-is_rotated :
      (tenant prefix : Str) (rows : List KeyRow) (r : KeyRow)
      → first_match verify token (candidates_in prefix rows) ≡ some r
      → r.tenant_id ≡ tenant
      → r.revoked_at ≡ none
      → (is_rotated tenant prefix r ≡ true) × (any (is_rotated tenant prefix) rows ≡ true)
  unfolding first_match candidates_in
  any-is_rotated tenant prefix [] r e own live = cc
  any-is_rotated tenant prefix (x ∷ rows) r e own live =
      elim (Bool-cases (str_eq x.key_prefix prefix)) [
        | inr other ↦ later (any-is_rotated tenant prefix rows r (rw other at e) own live)
        | inl here ↦ elim (Bool-cases (verify x.key_hash token)) [
          | inr passed ↦
              later (any-is_rotated tenant prefix rows r (rw passed at (rw here at e)) own live)
          | inl found ↦
              let q : some x ≡ some r = rw found at (rw here at e) in
              let s : x ≡ r = cc in
              let hit : is_rotated tenant prefix x ≡ true = rw (
                here,
                (str_eq_iff x.tenant_id tenant).1 (ap (λ k. k.tenant_id) s ∙ own),
                ap (λ k. k.revoked_at) s ∙ live,
              ) in
              (ap (is_rotated tenant prefix) (sym s) ∙ hit, rw hit)
        ]
      ]
    where
      later :
          (is_rotated tenant prefix r ≡ true) × (any (is_rotated tenant prefix) rows ≡ true)
          → (is_rotated tenant prefix r ≡ true) × (any (is_rotated tenant prefix) (x ∷ rows) ≡ true)
      later h =
          (h.0, found_later (is_rotated tenant prefix x) (any (is_rotated tenant prefix) rows) h.1)
