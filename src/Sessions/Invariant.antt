-- ===== src/Sessions/Invariant.antt =====
-- The bounds that every session keeps.
use verisearch.Prelude.{
  ℕ, ◌≤◌, true, false, Option, none, some, List, [], ◌∷◌, ◌++◌, if_property, Str, length, All, ◌≡◌,
  refl, sym, ap, subst, arith, Option-cases, inl, inr,
}
use verisearch.Prelude.Deque.{length-last}
use verisearch.Prelude.Dict.{Dict, All-insert, All-lookup}
use verisearch.Sessions.Memory.{Citation, Memory, cleared, add_doc_id}
use verisearch.Sessions.Store.{
  active, expired, deleted, is_active, Session, is_due, Service, Days, days, negative, ok,
  session_not_found, valid_days, create, get_memory, add_citations, add_doc_ids, add_to_memory,
  delete_session, swept, expire_sweep,
}
use verisearch.Sessions.Recency.{add_citations-citations, add_citations-doc_ids}
use verisearch.Sessions.Unique.{Distinct, add_doc_id-Distinct, length-add_doc_id}
use verisearch.Sessions.Access.{get_session-cases}
use verisearch.Sessions.Steps.{
  Operation, creating, adding, deleting, sweeping, perform, Leads, done, next,
}

-- The bounds of R8.2: 50 citations and 20 distinct document ids.
pub record IsBounded (m : Memory) : Type 0 where
  pub few_citations : length m.citations ≤ 50
  pub few_doc_ids : length m.doc_ids ≤ 20
  pub unique : Distinct m.doc_ids

pub record IsValid (s : Session) : Type 0 where
  pub bounded : IsBounded s.memory
  pub at_least_one_day : 1 ≤ s.retention_days
  pub at_most_ninety : s.retention_days ≤ 90
  pub forgotten : is_active s.state ≡ false → s.memory ≡ cleared

abbrev pub IsValidService : Service → Type 0
IsValidService svc = All (λ e. IsValid e.1) svc.sessions

cleared-IsBounded : IsBounded cleared
cleared-IsBounded = record { few_citations = omega arith; few_doc_ids = omega arith; unique = tt }

add_doc_ids-IsBounded : (ds : List Str) (m : Memory) → IsBounded m → IsBounded (add_doc_ids ds m)
unfolding add_doc_ids add_doc_id
add_doc_ids-IsBounded [] m h = h
add_doc_ids-IsBounded (d ∷ ds) m h = add_doc_ids-IsBounded ds (add_doc_id d m) (record {
  few_citations = h.few_citations;
  few_doc_ids = length-add_doc_id d m h.few_doc_ids;
  unique = add_doc_id-Distinct d m h.unique;
})

add_citations-IsBounded :
    (cs : List Citation) (m : Memory) → IsBounded m → IsBounded (add_citations cs m)
add_citations-IsBounded cs m h = record {
  few_citations =
      subst (λ xs. length xs ≤ 50) (sym (add_citations-citations cs m h.few_citations))
        (length-last 50 (m.citations ++ cs));
  few_doc_ids = subst (λ xs. length xs ≤ 20) (sym (add_citations-doc_ids cs m)) h.few_doc_ids;
  unique = subst Distinct (sym (add_citations-doc_ids cs m)) h.unique;
}

-- A retention that passes the check is from 1 to 90 days.
valid_days-range : (r : Option Days) (n : ℕ) → valid_days r ≡ some n → 1 ≤ n × n ≤ 90
unfolding valid_days
valid_days-range none n e = (ground arith, ground arith)
valid_days-range (some (days k)) n e = (ground arith, ground arith)
valid_days-range (some (negative k)) n e = cc

create-IsValid :
    (id tenant : Str) (r : Option Days) (now : ℕ) (svc : Service)
    → IsValidService svc
    → IsValidService (create id tenant r now svc).1
unfolding create
create-IsValid id tenant r now svc h = elim (Option-cases (valid_days r)) [
  | inl out ↦ rw (create, out) h
  | inr (n, e) ↦
      let s : Session = record {
        tenant_id = tenant;
        created_at = now;
        retention_days = n;
        state = active;
        memory = cleared;
      } in
      let v : IsValid s = record {
        bounded = cleared-IsBounded;
        at_least_one_day = (valid_days-range r n e).0;
        at_most_ninety = (valid_days-range r n e).1;
        forgotten = λ q. refl;
      } in
      rw (create, e) (All-insert IsValid id s svc.sessions v h)
]

add_to_memory-IsValid :
    (id tenant : Str) (cs : List Citation) (ds : List Str) (now : ℕ) (svc : Service)
    → IsValidService svc
    → IsValidService (add_to_memory id tenant cs ds now svc).1
unfolding add_to_memory
add_to_memory-IsValid id tenant cs ds now svc h = elim (get_session-cases id tenant now svc) [
  | inl refused ↦ rw (add_to_memory, refused) h
  | inr (s, taken, (there, admitted)) ↦
      let v : IsValid s = All-lookup IsValid id s svc.sessions h there in
      let m : Memory = add_doc_ids ds (add_citations cs s.memory) in
      let w : IsValid (record s { memory = m }) = record {
        bounded =
            add_doc_ids-IsBounded ds (add_citations cs s.memory)
              (add_citations-IsBounded cs s.memory v.bounded);
        at_least_one_day = v.at_least_one_day;
        at_most_ninety = v.at_most_ninety;
        forgotten = λ q. absurd (closed s q admitted.live);
      } in
      rw (add_to_memory, taken) (All-insert IsValid id (record s { memory = m }) svc.sessions w h)
]
  where
    closed : (s : Session) → is_active s.state ≡ false → s.state ≡ active → ⊥
    closed s q live = let e : is_active s.state ≡ true = ap is_active live in cc

delete_session-IsValid :
    (id tenant : Str) (now : ℕ) (svc : Service)
    → IsValidService svc
    → IsValidService (delete_session id tenant now svc).1
unfolding delete_session
delete_session-IsValid id tenant now svc h = elim (get_session-cases id tenant now svc) [
  | inl refused ↦ rw (delete_session, refused) h
  | inr (s, taken, (there, admitted)) ↦
      let v : IsValid s = All-lookup IsValid id s svc.sessions h there in
      let t : Session = record s { state = deleted; memory = cleared } in
      let w : IsValid t = record {
        bounded = cleared-IsBounded;
        at_least_one_day = v.at_least_one_day;
        at_most_ninety = v.at_most_ninety;
        forgotten = λ q. refl;
      } in
      rw (delete_session, taken) (All-insert IsValid id t svc.sessions w h)
]

swept-IsValid :
    (now : ℕ) (d : Dict Session) → All (λ e. IsValid e.1) d → All (λ e. IsValid e.1) (swept now d)
unfolding swept
swept-IsValid now [] h = tt
swept-IsValid now ((id, s) ∷ d) h = (
  if_property IsValid (is_due now s) (record s { state = expired; memory = cleared }) s
      (λ _. record {
        bounded = cleared-IsBounded;
        at_least_one_day = h.0.at_least_one_day;
        at_most_ninety = h.0.at_most_ninety;
        forgotten = λ q. refl;
      })
      (λ _. h.0),
  swept-IsValid now d h.1,
)

-- Every call keeps the sessions valid: at most 50 citations and 20 distinct document ids, a
-- retention from 1 to 90 days, and an empty memory once a session is expired or deleted.
pub perform-IsValid :
    (o : Operation) (svc : Service) → IsValidService svc → IsValidService (perform o svc)
unfolding perform expire_sweep
perform-IsValid (creating id tenant r now) svc h = create-IsValid id tenant r now svc h
perform-IsValid (adding id tenant cs ds now) svc h = add_to_memory-IsValid id tenant cs ds now svc h
perform-IsValid (deleting id tenant now) svc h = delete_session-IsValid id tenant now svc h
perform-IsValid (sweeping accepts now) svc h = swept-IsValid now svc.sessions h

Leads-IsValid : {svc end : Service} → Leads svc end → IsValidService svc → IsValidService end
Leads-IsValid done h = h
Leads-IsValid (next {svc} o fresh l) h = Leads-IsValid l (perform-IsValid o svc h)

abbrev pub empty_service : Service
empty_service = record { sessions = []; audit = [] }

-- After any calls from the empty service, with fresh ids for `create`, the memory that `get_memory` returns holds at most 50
-- citations and at most 20 document ids, no id twice.
pub get_memory-IsBounded :
    (id tenant : Str) (now : ℕ) (svc : Service) (m : Memory)
    → Leads empty_service svc
    → get_memory id tenant now svc ≡ ok m
    → IsBounded m
unfolding get_memory
get_memory-IsBounded id tenant now svc m l e = elim (get_session-cases id tenant now svc) [
  | inl refused ↦ let q : session_not_found ≡ ok m = rw (get_memory, refused) at e in cc
  | inr (s, taken, (there, admitted)) ↦
      let q : ok s.memory ≡ ok m = rw (get_memory, taken) at e in
      let r : s.memory ≡ m = cc in
      subst IsBounded r (All-lookup IsValid id s svc.sessions (Leads-IsValid l tt) there).bounded
]
