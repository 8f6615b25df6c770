-- ===== src/Auth/Failures.antt =====
-- The audit events of failed authentications.
use verisearch.Prelude.{
  ℕ, Bool, true, false, Option, none, some, List, [], ◌∷◌, ◌++◌, append-nil, ◌⊎◌, if_property,
  is_empty, Str, ◌≡◌, inl, inr, refl, Bool-cases, Option-cases,
}
use verisearch.Auth.Keys.{
  KeyRow, ErrorCode, missing_token, invalid_token, expired_token, revoked_token, Outcome,
  authenticated, refused, judge, has_expired, is_revoked, first_match, decide,
}
use verisearch.Auth.Cache.{TtlCache}
use verisearch.Auth.Service.{
  Host, Failure, AuthService, failures, answered, logged, Presented, unusable, usable, with_prefix,
  with_token, bearer_token, extract_prefix, presented, get_candidates, verdict_on, authenticate,
}

-- The tenant is known exactly where a key matched.
abbrev pub IsAttributed : ErrorCode → Option Str → Type 0
IsAttributed missing_token tenant = tenant ≡ none
IsAttributed invalid_token tenant = tenant ≡ none
IsAttributed expired_token tenant = (t : Str) × (tenant ≡ some t)
IsAttributed revoked_token tenant = (t : Str) × (tenant ≡ some t)

-- The event of a failure.
abbrev failure : Str → Str → ErrorCode → Option Str → Failure
failure request_id resource code tenant_id = record {
  error_code = code;
  tenant_id = tenant_id;
  request_id = request_id;
  resource = resource;
}

-- What `authenticate` does about an outcome: the answer, and the log behind it. A success is returned and
-- logs nothing. A failure is returned with one event where the emitter takes that, and otherwise nothing
-- is returned or logged.
abbrev pub Reports :
    (Failure → Bool) → Str → Str → Outcome → List Failure → Option Outcome → List Failure → Type 0
Reports emit request_id resource (authenticated tenant_id api_key_id) before answer after =
    (answer ≡ some (authenticated tenant_id api_key_id)) × (after ≡ before)
Reports emit request_id resource (refused code tenant_id) before answer after =
    IsAttributed code tenant_id
    × (((emit (failure request_id resource code tenant_id) ≡ true)
          × (answer ≡ some (refused code tenant_id))
          × (after ≡ before ++ failure request_id resource code tenant_id ∷ []))
        ⊎ ((emit (failure request_id resource code tenant_id) ≡ false)
            × (answer ≡ none)
            × (after ≡ before)))

abbrev IsFair : Outcome → Type 0
IsFair (authenticated tenant_id api_key_id) = Unit
IsFair (refused code tenant_id) = IsAttributed code tenant_id

judge-IsFair : (now : ℕ) (r : KeyRow) → IsFair (judge now r)
unfolding judge
judge-IsFair now r = elim (Bool-cases (has_expired now r)) [
  | inl over ↦ rw over (r.tenant_id, refl)
  | inr lasts ↦ elim (Bool-cases (is_revoked now r)) [
    | inl ended ↦ rw (lasts, ended) (r.tenant_id, refl)
    | inr kept ↦ rw (lasts, kept) tt
  ]
]

decide-IsFair :
    (verify : Str → Str → Bool) (now : ℕ) (token : Str) (rows : List KeyRow)
    → IsFair (decide verify now token rows)
unfolding decide
decide-IsFair verify now token rows = elim (Option-cases (first_match verify token rows)) [
  | inl missed ↦ rw (decide, missed) refl
  | inr (r, found) ↦ rw (decide, found) (judge-IsFair now r)
]

-- What a header that is of no use leads to is an error before any key is looked up.
abbrev IsEarly : Presented → Type 0
IsEarly (unusable code) = IsAttributed code none
IsEarly (usable token prefix) = Unit

with_prefix-IsEarly : (token : Str) (o : Option Str) → IsEarly (with_prefix token o)
with_prefix-IsEarly token none = refl
with_prefix-IsEarly token (some prefix) = tt

with_token-IsEarly : (o : Option Str) → IsEarly (with_token o)
with_token-IsEarly none = refl
with_token-IsEarly (some token) = with_prefix-IsEarly token (extract_prefix token)

presented-IsEarly : (host : Host) (header : Str) → IsEarly (presented host header)
unfolding presented
presented-IsEarly host header =
    if_property IsEarly (is_empty header) (unusable missing_token)
      (with_token (bearer_token host header)) (λ _. refl)
      (λ _. with_token-IsEarly (bearer_token host header))

verdict_on-IsFair :
    (host : Host) (p : Presented) (db : List KeyRow) (tick now : ℕ) (c : TtlCache)
    → IsEarly p
    → IsFair (verdict_on host p db tick now c).0
unfolding verdict_on
verdict_on-IsFair host (unusable code) db tick now c h = h
verdict_on-IsFair host (usable token prefix) db tick now c h =
    decide-IsFair host.verify now token (get_candidates prefix db tick c).0

reported :
    (emit : ℕ → Failure → Bool) (now : ℕ) (request_id resource : Str) (o : Outcome)
    (audit : List Failure)
    → IsFair o
    → Reports
        (emit now)
        request_id
        resource
        o
        audit
        (answered (some emit) now request_id resource o)
        (logged (some emit) now (failures request_id resource o) audit)
reported emit now request_id resource (authenticated tenant_id api_key_id) audit h =
    (refl, append-nil audit)
reported emit now request_id resource (refused code tenant_id) audit h =
    elim (Bool-cases (emit now (failure request_id resource code tenant_id))) [
      | inl taken ↦ (h, inl (taken, rw taken, rw taken))
      | inr barred ↦ (h, inr (barred, rw barred, rw barred))
    ]

-- `authenticate` with an emitter, beside the outcome that it has for the same call without one, which it
-- always has. A success is returned as it is and nothing is logged. For a failure, one event with its code,
-- the request and the resource is logged and the failure returned, where the emitter takes the event;
-- where the emitter refuses it, `authenticate` raises, and nothing is logged. The event names a tenant
-- exactly where a key matched, which is where the key is expired or revoked.
pub authenticate-Reports :
    (host : Host) (header request_id resource : Str) (db : List KeyRow) (tick now : ℕ)
    (svc : AuthService) (emit : ℕ → Failure → Bool)
    → svc.emitter ≡ some emit
    → (o : Outcome) × ((authenticate host header request_id resource db tick now
          (record svc { emitter = none })).0
        ≡ some o)
      × Reports
          (emit now)
          request_id
          resource
          o
          svc.audit
          (authenticate host header request_id resource db tick now svc).0
          (authenticate host header request_id resource db tick now svc).1.audit
unfolding authenticate
authenticate-Reports host header request_id resource db tick now svc emit given =
    let o : Outcome = (verdict_on host (presented host header) db tick now svc.cache).0 in
    (
      o,
      refl,
      rw given (
          reported emit now request_id resource o svc.audit (
            verdict_on-IsFair host (presented host header) db tick now svc.cache
              (presented-IsEarly host header))),
    )
