-- ===== src/Auth/Rotation.antt =====
-- backend/auth/key_management.py: `KeyManagementService`. What `_generate_api_key`, the hasher and
-- `uuid4` return is an argument, and so is the time.
use verisearch.Prelude.{
  ℕ, ◌&&◌, ◌||◌, Bool, Option, none, some, List, [], ◌∷◌, ◌++◌, ltb, any, if◌then◌else◌, Str,
  str_eq,
}
use verisearch.Auth.Keys.{KeyRow}
use verisearch.Auth.Cache.{is_absent}
use verisearch.Auth.Service.{AuthService, invalidate_cache_for_prefix}

-- An argument `rotation_grace_seconds`: an integer, `below_zero n` for -(n + 1).
pub data Grace : Type 0 where
  seconds : ℕ → Grace
  below_zero : ℕ → Grace

-- `validate_rotation_grace_seconds`
unfoldable pub validate_rotation_grace_seconds : Grace → Option ℕ
validate_rotation_grace_seconds (seconds n) = if ltb n 1 || ltb 86400 n then none else some n
validate_rotation_grace_seconds (below_zero n) = none

-- A new key: what is drawn at random, and its hash.
pub record Fresh : Type 0 where
  pub api_key_id : Str
  pub plaintext : Str
  pub prefix : Str
  pub hash : Str

-- `RotationResult`
pub record RotationResult : Type 0 where
  pub new_api_key_id : Str
  pub new_key_plaintext : Str
  pub new_key_prefix : Str
  pub old_key_revoked_at : ℕ
  pub rotation_grace_seconds : ℕ

pub data Rotated : Type 0 where
  rotated : RotationResult → Rotated
  validation_error : Rotated
  key_not_found : Rotated

abbrev pub result_of : Fresh → ℕ → ℕ → RotationResult
result_of new now grace = record {
  new_api_key_id = new.api_key_id;
  new_key_plaintext = new.plaintext;
  new_key_prefix = new.prefix;
  old_key_revoked_at = now;
  rotation_grace_seconds = grace;
}

-- The WHERE clause of the UPDATE.
abbrev pub is_rotated : Str → Str → KeyRow → Bool
is_rotated tenant prefix r =
    str_eq r.key_prefix prefix && str_eq r.tenant_id tenant && is_absent r.revoked_at

-- The UPDATE
unfoldable pub revoke_rows : Str → Str → ℕ → ℕ → List KeyRow → List KeyRow
revoke_rows tenant prefix now grace [] = []
revoke_rows tenant prefix now grace (r ∷ rows) =
    (if is_rotated tenant prefix r
      then record r { revoked_at = some now; rotation_grace_seconds = grace }
      else r)
    ∷ revoke_rows tenant prefix now grace rows

-- The row of the INSERT.
abbrev pub new_row : Str → Fresh → Option ℕ → ℕ → KeyRow
new_row tenant new expires_at grace = record {
  api_key_id = new.api_key_id;
  tenant_id = tenant;
  key_prefix = new.prefix;
  key_hash = new.hash;
  expires_at = expires_at;
  revoked_at = none;
  rotation_grace_seconds = grace;
}

-- `rotate_key`, with the table and an auth service over it, which was given to the
-- `KeyManagementService` (`linked`) or not. The transaction is undone where no row matches.
unfoldable pub rotate_key :
    Bool
    → Str
    → Str
    → Grace
    → Fresh
    → ℕ
    → List KeyRow
    → AuthService
    → Rotated × List KeyRow × AuthService
unfolding validate_rotation_grace_seconds revoke_rows invalidate_cache_for_prefix
rotate_key linked tenant old_prefix grace new now db svc =
    elim (validate_rotation_grace_seconds grace) [
      | none ↦ (validation_error, db, svc)
      | some g ↦
          if any (is_rotated tenant old_prefix) db
          then (
            rotated (result_of new now g),
            revoke_rows tenant old_prefix now g db ++ new_row tenant new none g ∷ [],
            if linked then invalidate_cache_for_prefix old_prefix svc else svc,
          )
          else (key_not_found, db, svc)
    ]

-- `create_key`
unfoldable pub create_key : Str → Grace → Option ℕ → Fresh → ℕ → List KeyRow → Rotated × List KeyRow
unfolding validate_rotation_grace_seconds
create_key tenant grace expires_at new now db = elim (validate_rotation_grace_seconds grace) [
  | none ↦ (validation_error, db)
  | some g ↦ (rotated (result_of new now g), db ++ new_row tenant new expires_at g ∷ [])
]
