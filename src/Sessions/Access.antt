-- ===== src/Sessions/Access.antt =====
-- Who is given a session by `_get_session`.
use verisearch.Prelude.{
  ℕ, ◌<◌, true, false, some, leb, Str, str_eq, str_eq_iff, ◌≡◌, ◌↔◌, ◌⊎◌, refl, ap, subst, arith,
  Bool-cases, Option-cases, inl, inr,
}
use verisearch.Prelude.Dict.{lookup}
use verisearch.Sessions.Store.{
  SessionState, active, is_active, Session, is_expired, expires_at, Service, ok, session_not_found,
  admit, get_session,
}

-- The session of the tenant that asks, active and not past its time.
pub record IsOpen (tenant : Str) (now : ℕ) (s : Session) : Type 0 where
  pub owned : s.tenant_id ≡ tenant
  pub live : s.state ≡ active
  pub in_time : now < expires_at s

is_active-active : (s : SessionState) → is_active s ≡ true → s ≡ active
is_active-active active e = refl
is_active-active _ e = cc

admit-IsOpen :
    (tenant : Str) (now : ℕ) (s : Session) → IsOpen tenant now s → admit tenant now s ≡ ok s
unfolding is_expired
admit-IsOpen tenant now s h =
    let own : str_eq s.tenant_id tenant ≡ true = (str_eq_iff s.tenant_id tenant).1 h.owned in
    let act : is_active s.state ≡ true = ap is_active h.live in
    let late : leb (expires_at s) now ≡ false = early h.in_time in rw (own, act, late)
  where
    early : now < expires_at s → leb (expires_at s) now ≡ false
    early t = ground arith

-- A session that is there is admitted, or it is reported as one that is missing.
admit-cases :
    (tenant : Str) (now : ℕ) (s : Session)
    → admit tenant now s ≡ session_not_found ⊎ (admit tenant now s ≡ ok s × IsOpen tenant now s)
unfolding is_expired
admit-cases tenant now s = elim (Bool-cases (str_eq s.tenant_id tenant)) [
  | inr other ↦ inl (rw other)
  | inl own ↦ elim (Bool-cases (is_active s.state)) [
    | inr closed ↦ inl (rw (own, closed))
    | inl act ↦ elim (Bool-cases (leb (expires_at s) now)) [
      | inl late ↦ inl (rw (own, act, late))
      | inr early ↦ inr (
        rw (own, act, early),
        record {
          owned = (str_eq_iff s.tenant_id tenant).0 own;
          live = is_active-active s.state act;
          in_time = ground arith;
        },
      )
    ]
  ]
]

pub get_session-cases :
    (id tenant : Str) (now : ℕ) (svc : Service)
    → get_session id tenant now svc ≡ session_not_found
      ⊎ ((s : Session) × (get_session id tenant now svc ≡ ok s)
          × (lookup id svc.sessions ≡ some s × IsOpen tenant now s))
unfolding get_session
get_session-cases id tenant now svc = elim (Option-cases (lookup id svc.sessions)) [
  | inl missing ↦ inl (rw (get_session, missing))
  | inr (s, there) ↦ elim (admit-cases tenant now s) [
    | inl refused ↦ inl (rw (get_session, there) refused)
    | inr (taken, admitted) ↦ inr (s, rw (get_session, there) taken, (there, admitted))
  ]
]

-- `_get_session` returns the stored session exactly when the tenant that asks owns it, it is active,
-- and its time has not passed.
pub get_session_iff :
    (id tenant : Str) (now : ℕ) (svc : Service) (s : Session)
    → (get_session id tenant now svc ≡ ok s)
      ↔ (lookup id svc.sessions ≡ some s × IsOpen tenant now s)
unfolding get_session
get_session_iff id tenant now svc s =
    (given, λ h. rw (get_session, h.0) (admit-IsOpen tenant now s h.1))
  where
    given :
        get_session id tenant now svc ≡ ok s → lookup id svc.sessions ≡ some s × IsOpen tenant now s
    given e = elim (get_session-cases id tenant now svc) [
      | inl refused ↦ cc
      | inr (t, taken, found) ↦
          let q : t ≡ s = cc in
          subst (λ u. lookup id svc.sessions ≡ some u × IsOpen tenant now u) q found
    ]
