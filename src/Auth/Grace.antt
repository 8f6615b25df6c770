-- ===== src/Auth/Grace.antt =====
-- Which keys authenticate after a rotation, and for how long.
use verisearch.Prelude.{
  ℕ, ◌+◌, ◌*◌, Bool, true, false, none, some, List, [], ◌∷◌, ◌++◌, ltb, any, if◌then◌else◌, Str,
  str_eq, str_eq_iff, ◌≡◌, ◌⊎◌, ◌≤◌, ◌<◌, All, inl, inr, refl, ap, ◌∙◌,
}
use verisearch.Auth.Keys.{
  KeyRow, second, candidates_in, refused, authenticated, revoked_token, judge, first_match, decide,
}
use verisearch.Auth.Service.{
  Host, AuthService, answered, usable, presented, authenticate, invalidate_cache_for_prefix,
}
use verisearch.Auth.Propagation.{
  answer, Call, authenticate_all, authenticate-authenticate_all,
  authenticate-invalidate_cache_for_prefix,
}
use verisearch.Auth.Rotation.{
  Grace, validate_rotation_grace_seconds, Fresh, Rotated, rotated, result_of, is_rotated,
  revoke_rows, new_row, rotate_key,
}
use verisearch.Auth.Matches.{
  revoked_row, on_found, candidates_in-append, first_match-append, first_match-append_none,
  first_match-revoke_rows, any-is_rotated,
}

abbrev succeeded :
    Bool
    → Str
    → Str
    → ℕ
    → Fresh
    → ℕ
    → List KeyRow
    → AuthService
    → Rotated × List KeyRow × AuthService
succeeded linked tenant prefix g new now db svc = (
  rotated (result_of new now g),
  revoke_rows tenant prefix now g db ++ new_row tenant new none g ∷ [],
  if linked then invalidate_cache_for_prefix prefix svc else svc,
)

rotate_key-succeeded :
    (linked : Bool) (tenant prefix : Str) (grace : Grace) (g : ℕ) (new : Fresh) (now : ℕ)
    (db : List KeyRow) (svc : AuthService)
    → validate_rotation_grace_seconds grace ≡ some g
    → any (is_rotated tenant prefix) db ≡ true
    → rotate_key linked tenant prefix grace new now db svc
      ≡ succeeded linked tenant prefix g new now db svc
unfolding rotate_key
rotate_key-succeeded linked tenant prefix grace g new now db svc valid some_row =
    rw (rotate_key, valid) (rw some_row)

-- What makes an auth service follow the table after a rotation: the rotation invalidates its cache, or
-- all that the cache holds is too old by the time of the call.
abbrev pub Follows : Bool → ℕ → ℕ → AuthService → Type 0
Follows linked t tick svc =
    (linked ≡ true) ⊎ (All (λ e. e.1.expires_at ≤ t) svc.cache.store × (t < tick))

authenticate-Follows :
    (host : Host) (linked : Bool) (db : List KeyRow) (t : ℕ) (cs : List Call) (svc : AuthService)
    (token prefix header request_id resource : Str) (tick now : ℕ)
    → presented host header ≡ usable token prefix
    → Follows linked t tick svc
    → (authenticate host header request_id resource db tick now (
        authenticate_all host db cs
          (if linked then invalidate_cache_for_prefix prefix svc else svc))).0
      ≡ answered svc.emitter now request_id resource (answer host (presented host header) db now)
unfolding invalidate_cache_for_prefix
authenticate-Follows host true db t cs svc token prefix header request_id resource tick now shown
      h =
    authenticate-invalidate_cache_for_prefix host db cs svc token prefix header request_id resource
      tick now shown
authenticate-Follows host false db t cs svc token prefix header request_id resource tick now shown
      (inr h) =
    authenticate-authenticate_all host db t cs svc header request_id resource tick now h.0 h.1
authenticate-Follows host false db t cs svc token prefix header request_id resource tick now shown
      (inl given) =
    absurd (cc)

-- The old key after a rotation at time `at`, where the key has no expiry of its own, and behind any
-- calls of `authenticate` since: until the grace period is over it authenticates, and from then on it is
-- refused as revoked, unless the emitter refuses the event of that: then `authenticate` raises. The
-- rotation was given the auth service, or else every entry that the cache held at the rotation expires
-- before the call.
pub authenticate-rotate_key :
    (host : Host) (linked : Bool) (tenant prefix : Str) (grace : Grace) (g : ℕ) (new : Fresh)
    (at : ℕ) (db : List KeyRow) (svc : AuthService) (t : ℕ) (cs : List Call)
    (token header request_id resource : Str) (r : KeyRow) (tick now : ℕ)
    → validate_rotation_grace_seconds grace ≡ some g
    → presented host header ≡ usable token prefix
    → first_match host.verify token (candidates_in prefix db) ≡ some r
    → r.tenant_id ≡ tenant
    → r.revoked_at ≡ none
    → r.expires_at ≡ none
    → Follows linked t tick svc
    → (authenticate host header request_id resource
        (rotate_key linked tenant prefix grace new at db svc).1
        tick
        now
        (authenticate_all host
          (rotate_key linked tenant prefix grace new at db svc).1
          cs
          (rotate_key linked tenant prefix grace new at db svc).2)).0
      ≡ answered svc.emitter now request_id resource (
          if ltb (at + g * second) now
          then refused revoked_token (some tenant)
          else authenticated tenant r.api_key_id)
unfolding answer
authenticate-rotate_key host linked tenant prefix grace g new at db svc t cs token header request_id
      resource r tick now valid shown found own live lasting follows =
    let hit = any-is_rotated host.verify token tenant prefix db r found own live in
    let after : List KeyRow = revoke_rows tenant prefix at g db in
    let rows : List KeyRow = after ++ new_row tenant new none g ∷ [] in
    let row : KeyRow = record r { revoked_at = some at; rotation_grace_seconds = g } in
    let turned : revoked_row tenant prefix at g r ≡ row = rw hit.0 in
    let still : first_match host.verify token (candidates_in prefix rows) ≡ some row =
      ap (first_match host.verify token)
        (candidates_in-append prefix after (new_row tenant new none g ∷ []))
      ∙ first_match-append host.verify token (candidates_in prefix after)
          (candidates_in prefix (new_row tenant new none g ∷ [])) row
          (first_match-revoke_rows host.verify token tenant prefix prefix at g db
            ∙ ap (on_found (revoked_row tenant prefix at g)) found
            ∙ ap some turned) in
    ap
      (λ p.
        (authenticate host header request_id resource p.1 tick now
          (authenticate_all host p.1 cs p.2)).0)
      (rotate_key-succeeded linked tenant prefix grace g new at db svc valid hit.1)
    ∙ authenticate-Follows host linked rows t cs svc token prefix header request_id resource tick
        now shown follows
    ∙ ap (λ p. answered svc.emitter now request_id resource (answer host p rows now)) shown
    ∙ ap (answered svc.emitter now request_id resource) (judged (candidates_in prefix rows) still)
  where
    judged :
        (rows : List KeyRow)
        → first_match host.verify token rows
          ≡ some (record r { revoked_at = some at; rotation_grace_seconds = g })
        → decide host.verify now token rows ≡ (
            if ltb (at + g * second) now
            then refused revoked_token (some tenant)
            else authenticated tenant r.api_key_id)
    judged rows e = unfold decide judge in rw (decide, e) (rw (lasting, own))

-- The new key after a successful rotation: the table accepts its token for the tenant at any time, if
-- the token verifies against its hash and against that of no other row.
pub answer-rotate_key :
    (host : Host) (linked : Bool) (tenant prefix : Str) (grace : Grace) (g : ℕ) (new : Fresh)
    (at : ℕ) (db : List KeyRow) (svc : AuthService) (now : ℕ)
    → validate_rotation_grace_seconds grace ≡ some g
    → any (is_rotated tenant prefix) db ≡ true
    → host.verify new.hash new.plaintext ≡ true
    → first_match host.verify new.plaintext (candidates_in new.prefix db) ≡ none
    → answer host
        (usable new.plaintext new.prefix)
        (rotate_key linked tenant prefix grace new at db svc).1
        now
      ≡ authenticated tenant new.api_key_id
unfolding answer
answer-rotate_key host linked tenant prefix grace g new at db svc now valid some_row verifies
      alone =
    let after : List KeyRow = revoke_rows tenant prefix at g db in
    let added : List KeyRow = new_row tenant new none g ∷ [] in
    let here : str_eq new.prefix new.prefix ≡ true = (str_eq_iff new.prefix new.prefix).1 refl in
    let others : first_match host.verify new.plaintext (candidates_in new.prefix after) ≡ none =
      first_match-revoke_rows host.verify new.plaintext tenant prefix new.prefix at g db
      ∙ ap (on_found (revoked_row tenant prefix at g)) alone in
    let last : first_match host.verify new.plaintext (candidates_in new.prefix (after ++ added))
        ≡ some (new_row tenant new none g) =
      ap (first_match host.verify new.plaintext) (candidates_in-append new.prefix after added)
      ∙ first_match-append_none host.verify new.plaintext (candidates_in new.prefix after)
          (candidates_in new.prefix added) others
      ∙ unfold first_match candidates_in in rw (here, verifies) in
    ap (λ p. decide host.verify now new.plaintext (candidates_in new.prefix p.1))
      (rotate_key-succeeded linked tenant prefix grace g new at db svc valid some_row)
    ∙ unfold decide judge in rw (decide, last)
