-- ===== src/Sessions/Sweep.antt =====
-- What `expire_sweep` changes.
use verisearch.Prelude.{
  ℕ, Bool, true, false, Option, none, some, List, [], ◌∷◌, ◌++◌, append-nil, map, if◌then◌else◌,
  Str, str_eq, ◌≡◌, refl, ap, ◌∙◌, Bool-cases, inl, inr,
}
use verisearch.Prelude.Dict.{Dict, lookup}
use verisearch.Sessions.Memory.{cleared}
use verisearch.Sessions.Store.{
  Session, expired, is_active, is_expired, is_due, Expiry, Service, swept, due_ids, due_events,
  expire_sweep,
}

-- What the sweep makes of one session.
unfoldable pub closed_if_due : ℕ → Session → Session
unfolding is_expired
closed_if_due now s = if is_due now s then record s { state = expired; memory = cleared } else s

unfoldable pub on_found : (Session → Session) → Option Session → Option Session
on_found f none = none
on_found f (some s) = some (f s)

pub lookup-swept :
    (now : ℕ) (id : Str) (d : Dict Session)
    → lookup id (swept now d) ≡ on_found (closed_if_due now) (lookup id d)
unfolding swept on_found closed_if_due
lookup-swept now id [] = refl
lookup-swept now id ((j, s) ∷ d) = elim (Bool-cases (str_eq j id)) [
  | inl here ↦ rw here
  | inr later ↦ rw later (lookup-swept now id d)
]

-- A session that is not active is left alone.
pub closed_if_due-closed :
    (now : ℕ) (s : Session) → is_active s.state ≡ false → closed_if_due now s ≡ s
unfolding closed_if_due
closed_if_due-closed now s h = rw h

pub closed_if_due-due :
    (now : ℕ) (s : Session) → is_due now s ≡ true → is_active (closed_if_due now s).state ≡ false
unfolding closed_if_due
closed_if_due-due now s h = rw h

-- A session that has been swept is not due.
pub is_due-closed_if_due : (now : ℕ) (s : Session) → is_due now (closed_if_due now s) ≡ false
unfolding closed_if_due is_expired
is_due-closed_if_due now s = elim (Bool-cases (is_due now s)) [
  | inl due ↦ rw due
  | inr kept ↦ rw kept kept
]

due_ids-swept : (now : ℕ) (d : Dict Session) → due_ids now (swept now d) ≡ []
unfolding swept due_ids closed_if_due
due_ids-swept now [] = refl
due_ids-swept now ((j, s) ∷ d) = rw (is_due-closed_if_due now s, due_ids-swept now d)

due_events-swept :
    (accepts : Expiry → Bool) (now : ℕ) (d : Dict Session)
    → due_events accepts now (swept now d) ≡ []
unfolding swept due_events closed_if_due
due_events-swept accepts now [] = refl
due_events-swept accepts now ((j, s) ∷ d) =
    rw (is_due-closed_if_due now s, due_events-swept accepts now d)

swept-swept : (now : ℕ) (d : Dict Session) → swept now (swept now d) ≡ swept now d
unfolding swept closed_if_due
swept-swept now [] = refl
swept-swept now ((j, s) ∷ d) = rw (is_due-closed_if_due now s, swept-swept now d)

-- A second sweep at the same time finds nothing: it returns no ids and changes neither the sessions
-- nor the audit log.
pub expire_sweep-twice :
    (accepts : Expiry → Bool) (now : ℕ) (svc : Service)
    → expire_sweep accepts now (expire_sweep accepts now svc).1
      ≡ ([], (expire_sweep accepts now svc).1)
unfolding expire_sweep
expire_sweep-twice accepts now svc = rw (
  due_ids-swept now svc.sessions,
  due_events-swept accepts now svc.sessions,
  swept-swept now svc.sessions,
  append-nil (svc.audit ++ due_events accepts now svc.sessions),
)

audited :
    (now : ℕ) (d : Dict Session)
    → map (λ e. e.session_id) (due_events (λ _. true) now d) ≡ due_ids now d
unfolding due_events due_ids
audited now [] = refl
audited now ((j, s) ∷ d) = elim (Bool-cases (is_due now s)) [
  | inl due ↦ rw (due, audited now d)
  | inr kept ↦ rw (kept, audited now d)
]

map-append : (f : Expiry → Str) (xs ys : List Expiry) → map f (xs ++ ys) ≡ map f xs ++ map f ys
map-append f [] ys = refl
map-append f (x ∷ xs) ys = rw (map-append f xs ys)

-- An audit log that takes every event gains one event for each id that the sweep returns, in order.
pub expire_sweep-audited :
    (now : ℕ) (svc : Service)
    → map (λ e. e.session_id) (expire_sweep (λ _. true) now svc).1.audit
      ≡ map (λ e. e.session_id) svc.audit ++ (expire_sweep (λ _. true) now svc).0
unfolding expire_sweep
expire_sweep-audited now svc =
    map-append (λ e. e.session_id) svc.audit (due_events (λ _. true) now svc.sessions)
    ∙ ap (λ ids. map (λ e. e.session_id) svc.audit ++ ids) (audited now svc.sessions)
