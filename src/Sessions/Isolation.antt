-- ===== src/Sessions/Isolation.antt =====
-- What a tenant's calls do to a session that is not its own, and to one that is closed.
use verisearch.Prelude.{
  ℕ, Bool, true, false, Option, none, some, List, Str, str_eq, str_eq_iff, ◌≡◌, refl, ap, subst,
  ◌∙◌, Bool-cases, Option-cases, inl, inr,
}
use verisearch.Prelude.Dict.{Dict, lookup, insert, lookup-insert}
use verisearch.Sessions.Memory.{Citation, cleared}
use verisearch.Sessions.Store.{
  Session, deleted, is_active, is_due, Expiry, Service, Days, ok, session_not_found, valid_days,
  create, get_session, add_to_memory, delete_session, expire_sweep, swept, add_citations,
  add_doc_ids,
}
use verisearch.Sessions.Access.{IsOpen, get_session-cases}
use verisearch.Sessions.Sweep.{
  lookup-swept, on_found, closed_if_due-closed, closed_if_due, closed_if_due-due,
}
use verisearch.Sessions.Steps.{
  Operation, creating, adding, deleting, sweeping, perform, IsFresh, Leads, done, next,
}

-- The tenant for which a call is made; the sweep is made for none.
unfoldable pub caller : Operation → Option Str
caller (creating id tenant r now) = some tenant
caller (adding id tenant cs ds now) = some tenant
caller (deleting id tenant now) = some tenant
caller (sweeping accepts now) = none

insert_elsewhere :
    (id j : Str) (s t : Session) (d : Dict Session)
    → (id ≡ j → ⊥)
    → lookup j d ≡ some s
    → lookup j (insert id t d) ≡ some s
insert_elsewhere id j s t d other there = elim (Bool-cases (str_eq id j)) [
  | inl same ↦ absurd (other ((str_eq_iff id j).0 same))
  | inr apart ↦ rw (lookup-insert id j t d, apart) there
]

-- A session that the tenant cannot open.
abbrev IsShut : Str → ℕ → Session → Type 0
IsShut tenant now s = IsOpen tenant now s → ⊥

lookup-create :
    (id tenant : Str) (r : Option Days) (now : ℕ) (svc : Service) (j : Str) (s : Session)
    → lookup id svc.sessions ≡ none
    → lookup j svc.sessions ≡ some s
    → lookup j (create id tenant r now svc).1.sessions ≡ some s
unfolding create
lookup-create id tenant r now svc j s fresh there = elim (Option-cases (valid_days r)) [
  | inl out ↦ rw (create, out) there
  | inr (n, e) ↦ rw (create, e) (insert_elsewhere id j s _ svc.sessions apart there)
]
  where
    apart : id ≡ j → ⊥
    apart q = let e : lookup j svc.sessions ≡ none = rw q at fresh in cc

-- The session that a call opened is another one than one that is shut.
opened_apart :
    (id j tenant : Str) (now : ℕ) (svc : Service) (s t : Session)
    → IsShut tenant now s
    → lookup j svc.sessions ≡ some s
    → lookup id svc.sessions ≡ some t
    → IsOpen tenant now t
    → id ≡ j
    → ⊥
opened_apart id j tenant now svc s t shut there found admitted q =
    let again : lookup j svc.sessions ≡ some t = rw q at found in
    let r : t ≡ s = cc in shut (subst (IsOpen tenant now) r admitted)

lookup-add_to_memory :
    (id tenant : Str) (cs : List Citation) (ds : List Str) (now : ℕ) (svc : Service) (j : Str)
    (s : Session)
    → IsShut tenant now s
    → lookup j svc.sessions ≡ some s
    → lookup j (add_to_memory id tenant cs ds now svc).1.sessions ≡ some s
unfolding add_to_memory
lookup-add_to_memory id tenant cs ds now svc j s shut there =
    elim (get_session-cases id tenant now svc) [
      | inl refused ↦ rw (add_to_memory, refused) there
      | inr (t, taken, (found, admitted)) ↦
          rw (add_to_memory, taken)
            (insert_elsewhere id j s
              (record t { memory = add_doc_ids ds (add_citations cs t.memory) }) svc.sessions
              (opened_apart id j tenant now svc s t shut there found admitted) there)
    ]

lookup-delete_session :
    (id tenant : Str) (now : ℕ) (svc : Service) (j : Str) (s : Session)
    → IsShut tenant now s
    → lookup j svc.sessions ≡ some s
    → lookup j (delete_session id tenant now svc).1.sessions ≡ some s
unfolding delete_session
lookup-delete_session id tenant now svc j s shut there =
    elim (get_session-cases id tenant now svc) [
      | inl refused ↦ rw (delete_session, refused) there
      | inr (t, taken, (found, admitted)) ↦
          rw (delete_session, taken)
            (insert_elsewhere id j s (record t { state = deleted; memory = cleared }) svc.sessions
              (opened_apart id j tenant now svc s t shut there found admitted) there)
    ]

-- A call made for a tenant, `create` at a fresh id, leaves the session of another tenant as it was.
pub perform-other_tenant :
    (o : Operation) (svc : Service) (tenant j : Str) (s : Session)
    → IsFresh o svc
    → caller o ≡ some tenant
    → lookup j svc.sessions ≡ some s
    → (s.tenant_id ≡ tenant → ⊥)
    → lookup j (perform o svc).sessions ≡ some s
unfolding perform caller
perform-other_tenant (creating id t r now) svc tenant j s fresh by there other =
    lookup-create id t r now svc j s fresh there
perform-other_tenant (adding id t cs ds now) svc tenant j s fresh by there other =
    lookup-add_to_memory id t cs ds now svc j s
      (λ o. other (let q : t ≡ tenant = cc in o.owned ∙ q)) there
perform-other_tenant (deleting id t now) svc tenant j s fresh by there other =
    lookup-delete_session id t now svc j s (λ o. other (let q : t ≡ tenant = cc in o.owned ∙ q))
      there
perform-other_tenant (sweeping accepts now) svc tenant j s fresh by there other = cc

not_open :
    (s : Session) → is_active s.state ≡ false → (tenant : Str) (now : ℕ) → IsShut tenant now s
not_open s closed tenant now o = let e : is_active s.state ≡ true = ap is_active o.live in cc

-- A closed session stays as it is.
perform-closed :
    (o : Operation) (svc : Service) (j : Str) (s : Session)
    → IsFresh o svc
    → lookup j svc.sessions ≡ some s
    → is_active s.state ≡ false
    → lookup j (perform o svc).sessions ≡ some s
unfolding perform expire_sweep on_found
perform-closed (creating id t r now) svc j s fresh there closed =
    lookup-create id t r now svc j s fresh there
perform-closed (adding id t cs ds now) svc j s fresh there closed =
    lookup-add_to_memory id t cs ds now svc j s (not_open s closed t now) there
perform-closed (deleting id t now) svc j s fresh there closed =
    lookup-delete_session id t now svc j s (not_open s closed t now) there
perform-closed (sweeping accepts now) svc j s fresh there closed =
    lookup-swept now j svc.sessions
    ∙ ap (on_found (closed_if_due now)) there
    ∙ ap some (closed_if_due-closed now s closed)

Leads-closed :
    {svc end : Service}
    → Leads svc end
    → (j : Str) (s : Session) → lookup j svc.sessions ≡ some s
    → is_active s.state ≡ false
    → lookup j end.sessions ≡ some s
Leads-closed done j s there closed = there
Leads-closed (next {svc} o fresh l) j s there closed =
    Leads-closed l j s (perform-closed o svc j s fresh there closed) closed

-- A session that is closed is missing for every tenant at every time.
closed-get_session :
    (j tenant : Str) (now : ℕ) (svc : Service) (s : Session)
    → lookup j svc.sessions ≡ some s
    → is_active s.state ≡ false
    → get_session j tenant now svc ≡ session_not_found
closed-get_session j tenant now svc s there closed = elim (get_session-cases j tenant now svc) [
  | inl refused ↦ refused
  | inr (t, taken, (found, admitted)) ↦
      let q : t ≡ s = cc in
      absurd (not_open s closed tenant now (subst (IsOpen tenant now) q admitted))
]

-- Once `delete_session` succeeds, whatever calls follow, with fresh ids for `create`, the session is
-- not found by any tenant at any time.
pub delete_session-gone :
    (id tenant : Str) (now : ℕ) (svc end : Service)
    → (delete_session id tenant now svc).0 ≡ ok tt
    → Leads (delete_session id tenant now svc).1 end
    → (anyone : Str) (later : ℕ) → get_session id anyone later end ≡ session_not_found
unfolding delete_session
delete_session-gone id tenant now svc end worked l anyone later =
    elim (get_session-cases id tenant now svc) [
      | inl refused ↦
          let e : session_not_found ≡ ok tt = rw (delete_session, refused) at worked in cc
      | inr (t, taken, (found, admitted)) ↦
          let u : Session = record t { state = deleted; memory = cleared } in
          let there : lookup id (delete_session id tenant now svc).1.sessions ≡ some u = rw (
            delete_session,
            taken,
            lookup-insert id id u svc.sessions,
            (str_eq_iff id id).1 refl,
          ) in
          closed-get_session id anyone later end u (Leads-closed l id u there refl) refl
    ]

-- A session that a sweep finds due is, whatever calls follow, with fresh ids for `create`, not found
-- by any tenant at any time.
pub expire_sweep-gone :
    (id : Str) (s : Session) (now : ℕ) (svc end : Service) (accepts : Expiry → Bool)
    → lookup id svc.sessions ≡ some s
    → is_due now s ≡ true
    → Leads (expire_sweep accepts now svc).1 end
    → (anyone : Str) (later : ℕ) → get_session id anyone later end ≡ session_not_found
unfolding expire_sweep on_found
expire_sweep-gone id s now svc end accepts there due l anyone later =
    let u : Session = closed_if_due now s in
    let found : lookup id (swept now svc.sessions) ≡ some u =
      lookup-swept now id svc.sessions ∙ ap (on_found (closed_if_due now)) there in
    let closed : is_active u.state ≡ false = closed_if_due-due now s due in
    closed-get_session id anyone later end u (Leads-closed l id u found closed) closed
