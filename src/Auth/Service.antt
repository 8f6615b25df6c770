-- ===== src/Auth/Service.antt =====
-- backend/auth/service.py: `AuthService`.
use verisearch.Prelude.{
  ℕ, ◌||◌, Bool, true, not, Option, none, some, List, [], ◌∷◌, ◌++◌, ltb, all, ◌==◌, if◌then◌else◌,
  is_empty, length, Str, str_eq, codes,
}
use verisearch.Auth.Keys.{
  KeyRow, candidates_in, ErrorCode, missing_token, invalid_token, Outcome, authenticated, refused,
  decide,
}
use verisearch.Auth.Cache.{TtlCache, get, put, invalidate}

-- `str.lower` and `str.strip`, and `_verify_token`.
pub record Host : Type 0 where
  pub lower : Str → Str
  pub strip : Str → Str
  pub verify : Str → Str → Bool

-- An `auth_failure` audit event.
pub record Failure : Type 0 where
  pub error_code : ErrorCode
  pub tenant_id : Option Str
  pub request_id : Str
  pub resource : Str

-- `AuthService`, with the events that its emitter took. The emitter says at a time whether its `emit`
-- returns for an event, rather than raise; `none` where the service has no emitter.
pub record AuthService : Type 0 where
  pub cache : TtlCache
  pub emitter : Option (ℕ → Failure → Bool)
  pub audit : List Failure

-- The text before the first character `c` and the text behind it, where there is one.
unfoldable pub split_at : ℕ → Str → Option (Str × Str)
split_at c [] = none
split_at c (d ∷ s) =
    let rest = split_at c s in
    if d == c then some ([], s) else elim rest [ none ↦ none | some (a, b) ↦ some (d ∷ a, b) ]

-- `_extract_prefix`
unfoldable pub extract_prefix : Str → Option Str
unfolding split_at
extract_prefix token = elim (split_at b'_' token) [
  | none ↦ none
  | some (prefix, random_part) ↦
      if ltb (length prefix) 8 || ltb 12 (length prefix) then none else some prefix
]

-- Step b: `auth_header.split(" ", 1)` and its tests.
unfoldable pub bearer_token : Host → Str → Option Str
unfolding split_at
bearer_token host header = elim (split_at b' ' header) [
  | none ↦ none
  | some (scheme, rest) ↦
      if not (str_eq (host.lower scheme) (codes "bearer")) || is_empty (host.strip rest)
      then none
      else some (host.strip rest)
]

-- `_get_candidates`; `db` is the table
unfoldable pub get_candidates : Str → List KeyRow → ℕ → TtlCache → List KeyRow × TtlCache
unfolding get put candidates_in
get_candidates prefix db tick c = elim (get prefix tick c).0 [
  | some rows ↦ (rows, (get prefix tick c).1)
  | none ↦
      (candidates_in prefix db, put prefix (candidates_in prefix db) tick (get prefix tick c).1)
]

-- The failures of `_emit_auth_failure` for an outcome.
abbrev pub failures : Str → Str → Outcome → List Failure
failures request_id resource (authenticated tenant_id api_key_id) = []
failures request_id resource (refused code tenant_id) =
    record {
      error_code = code;
      tenant_id = tenant_id;
      request_id = request_id;
      resource = resource;
    }
    ∷ []

-- Whether the calls of `emit` for some failures return, where there is an emitter.
abbrev pub emits : Option (ℕ → Failure → Bool) → ℕ → List Failure → Bool
emits none now events = true
emits (some emit) now events = all (emit now) events

-- What `authenticate` returns for an outcome; `none` where the emitter raises.
abbrev pub answered : Option (ℕ → Failure → Bool) → ℕ → Str → Str → Outcome → Option Outcome
answered emitter now request_id resource outcome =
    if emits emitter now (failures request_id resource outcome) then some outcome else none

-- The log of an emitter, if there is one, with what is emitted for an outcome.
abbrev pub logged : Option (ℕ → Failure → Bool) → ℕ → List Failure → List Failure → List Failure
logged none now events audit = audit
logged (some emit) now events audit = if all (emit now) events then audit ++ events else audit

-- What the header presents: a token with its prefix, or the code of the error that it leads to.
pub data Presented : Type 0 where
  unusable : ErrorCode → Presented
  usable : (token prefix : Str) → Presented

abbrev pub with_prefix : Str → Option Str → Presented
with_prefix token none = unusable invalid_token
with_prefix token (some prefix) = usable token prefix

abbrev pub with_token : Option Str → Presented
with_token none = unusable missing_token
with_token (some token) = with_prefix token (extract_prefix token)

-- Steps a to c; `header` is empty where there is none.
unfoldable pub presented : Host → Str → Presented
unfolding bearer_token extract_prefix
presented host header =
    if is_empty header then unusable missing_token else with_token (bearer_token host header)

-- What `authenticate` answers, and the cache that it leaves.
unfoldable pub verdict_on : Host → Presented → List KeyRow → ℕ → ℕ → TtlCache → Outcome × TtlCache
unfolding get_candidates decide
verdict_on host (unusable code) db tick now c = (refused code none, c)
verdict_on host (usable token prefix) db tick now c = (
  decide host.verify now token (get_candidates prefix db tick c).0,
  (get_candidates prefix db tick c).1,
)

-- `authenticate`, at a reading of the monotonic clock and a time; `none` is the exception of the
-- emitter.
unfoldable pub authenticate :
    Host → Str → Str → Str → List KeyRow → ℕ → ℕ → AuthService → Option Outcome × AuthService
unfolding presented verdict_on
authenticate host header request_id resource db tick now svc =
    let (outcome, cache) = verdict_on host (presented host header) db tick now svc.cache in
    (
      answered svc.emitter now request_id resource outcome,
      record svc {
        cache = cache;
        audit = logged svc.emitter now (failures request_id resource outcome) svc.audit;
      },
    )

-- `revoke_key` and `invalidate_cache_for_prefix`
unfoldable pub invalidate_cache_for_prefix : Str → AuthService → AuthService
unfolding invalidate
invalidate_cache_for_prefix prefix svc = record svc { cache = invalidate prefix svc.cache }

-- `authorize`
unfoldable pub authorize : Str → Str → Bool
authorize tenant_id resource_tenant_id = str_eq tenant_id resource_tenant_id

-- `raise_if_cross_tenant`; `none` is `ResourceNotFoundError`
unfoldable pub raise_if_cross_tenant : Str → Str → Option (Unit {0})
unfolding authorize
raise_if_cross_tenant tenant_id resource_tenant_id =
    if authorize tenant_id resource_tenant_id then some tt else none
