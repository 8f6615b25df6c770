-- ===== src/Auth/Keys.antt =====
-- The table `api_keys` that backend/auth reads and writes, and the decision on a token, from
-- backend/auth/service.py. Times are microseconds. Argon2 is a parameter.
use verisearch.Prelude.{
  ℕ, ◌+◌, ◌*◌, Bool, false, Option, none, some, List, [], ◌∷◌, ltb, if◌then◌else◌, Str, str_eq,
}

-- A row of `api_keys`.
pub record KeyRow : Type 0 where
  pub api_key_id : Str
  pub tenant_id : Str
  pub key_prefix : Str
  pub key_hash : Str
  pub expires_at : Option ℕ
  pub revoked_at : Option ℕ
  pub rotation_grace_seconds : ℕ

abbrev pub second : ℕ
second = 1000000

-- `_fetch_candidates_from_db`: the rows of a prefix, in the order of the table.
unfoldable pub candidates_in : Str → List KeyRow → List KeyRow
candidates_in prefix [] = []
candidates_in prefix (r ∷ rows) =
    let rest = candidates_in prefix rows in if str_eq r.key_prefix prefix then r ∷ rest else rest

-- `AuthError.code`
pub data ErrorCode : Type 0 where
  missing_token invalid_token expired_token revoked_token : ErrorCode

-- `AuthResult` or `AuthError`; an error carries the tenant that the audit event names.
pub data Outcome : Type 0 where
  authenticated : (tenant_id api_key_id : Str) → Outcome
  refused : ErrorCode → Option Str → Outcome

-- Step h: a key is revoked when its grace period is over.
abbrev pub is_revoked : ℕ → KeyRow → Bool
is_revoked now row = elim row.revoked_at [
  | none ↦ false
  | some at ↦ ltb (at + row.rotation_grace_seconds * second) now
]

-- Step g
abbrev pub has_expired : ℕ → KeyRow → Bool
has_expired now row = elim row.expires_at [ none ↦ false | some at ↦ ltb at now ]

-- Steps g, h and i: what `authenticate` answers for the row that matches.
unfoldable pub judge : ℕ → KeyRow → Outcome
judge now row =
    if has_expired now row
    then refused expired_token (some row.tenant_id)
    else if is_revoked now row
    then refused revoked_token (some row.tenant_id)
    else authenticated row.tenant_id row.api_key_id

-- `verify` is `_verify_token` for a hash and a token.
module _ (verify : Str → Str → Bool) where
  -- Step e: the first candidate whose hash the token verifies against.
  unfoldable pub first_match : Str → List KeyRow → Option KeyRow
  first_match token [] = none
  first_match token (r ∷ rows) =
      let rest = first_match token rows in if verify r.key_hash token then some r else rest

  -- Steps e to i
  unfoldable pub decide : ℕ → Str → List KeyRow → Outcome
  unfolding first_match judge
  decide now token rows = elim (first_match token rows) [
    | none ↦ refused invalid_token none
    | some row ↦ judge now row
  ]
