-- ===== src/Sessions/Tests.antt =====
-- The theorems on sessions at a concrete service.
use verisearch.Prelude.{ℕ, Bool, true, some, [], ◌∷◌, ◌++◌, last, map, codes, ◌≡◌, ◌↔◌, refl, arith}
use verisearch.Prelude.Deque.{append_bounded}
use verisearch.Prelude.Dict.{lookup}
use verisearch.Sessions.Memory.{Citation, Memory, add_citation, add_doc_id, remove_first}
use verisearch.Sessions.Store.{
  Session, active, Service, days, ok, session_not_found, create, valid_days, add_citations,
  add_doc_ids, get_session, get_memory, add_to_memory, delete_session, expire_sweep, is_due,
  is_expired, Expiry,
}
use verisearch.Sessions.Steps.{Operation, creating, adding, deleting, perform, Leads, done, next}
use verisearch.Sessions.Access.{IsOpen, get_session_iff}
use verisearch.Sessions.Invariant.{
  IsBounded, IsValidService, perform-IsValid, get_memory-IsBounded, empty_service,
}
use verisearch.Sessions.Sweep.{expire_sweep-audited}
use verisearch.Sessions.Isolation.{
  caller, perform-other_tenant, delete_session-gone, expire_sweep-gone,
}
use verisearch.Sessions.Adding.{by_last_use, get_memory-add_to_memory}

abbrev cite : ℕ → Citation
cite n = record {
  document_id = codes "d";
  version = 1;
  answer_start = n;
  answer_end = n;
  source_start = 0;
  source_end = 9;
}

abbrev remembered : Memory
remembered = record { citations = cite 1 ∷ []; doc_ids = codes "d" ∷ codes "e" ∷ [] }

abbrev session : Session
session = record {
  tenant_id = codes "acme";
  created_at = 0;
  retention_days = 1;
  state = active;
  memory = remembered;
}

abbrev service : Service
service = record { sessions = (codes "s1", session) ∷ []; audit = [] }

abbrev accept_all : Expiry → Bool
accept_all e = true

remembered-IsBounded : IsBounded remembered
remembered-IsBounded = record {
  few_citations = omega arith;
  few_doc_ids = omega arith;
  unique = (((λ e. ground arith), tt), (tt, tt));
}

abbrev adding_one : Operation
adding_one = adding (codes "s1") (codes "acme") (cite 2 ∷ []) (codes "d" ∷ []) 5

abbrev created : Service
created = perform (creating (codes "s1") (codes "acme") (some (days 3)) 0) empty_service

abbrev filled : Service
filled = perform adding_one created

filled-Leads : Leads empty_service filled
filled-Leads =
    next (creating (codes "s1") (codes "acme") (some (days 3)) 0) refl (next adding_one tt done)

get_session_iff_example :
    (get_session (codes "s1") (codes "acme") 7 service ≡ ok session)
    ↔ (lookup (codes "s1") service.sessions ≡ some session × IsOpen (codes "acme") 7 session)
get_session_iff_example = get_session_iff (codes "s1") (codes "acme") 7 service session

perform-IsValid_example : IsValidService created
perform-IsValid_example =
    perform-IsValid (creating (codes "s1") (codes "acme") (some (days 3)) 0) empty_service tt

filled_memory :
    get_memory (codes "s1") (codes "acme") 6 filled
    ≡ ok (record { citations = cite 2 ∷ []; doc_ids = codes "d" ∷ [] })
unfolding get_memory get_session perform create valid_days add_to_memory add_citations add_doc_ids
    add_citation add_doc_id append_bounded remove_first
filled_memory = refl

get_memory-IsBounded_example :
    IsBounded (record { citations = cite 2 ∷ []; doc_ids = codes "d" ∷ [] })
get_memory-IsBounded_example =
    get_memory-IsBounded (codes "s1") (codes "acme") 6 filled
      (record { citations = cite 2 ∷ []; doc_ids = codes "d" ∷ [] }) filled-Leads filled_memory

readable : get_memory (codes "s1") (codes "acme") 5 service ≡ ok remembered
unfolding get_memory get_session
readable = refl

get_memory-add_to_memory_example :
    get_memory
      (codes "s1")
      (codes "acme")
      5
      (add_to_memory (codes "s1") (codes "acme") (cite 2 ∷ []) (codes "d" ∷ []) 5 service).1
    ≡ ok (record {
      citations = last 50 ((cite 1 ∷ []) ++ (cite 2 ∷ []));
      doc_ids = last 20 (by_last_use (codes "d" ∷ codes "e" ∷ []) (codes "d" ∷ []));
    })
get_memory-add_to_memory_example =
    get_memory-add_to_memory (codes "s1") (codes "acme") (cite 2 ∷ []) (codes "d" ∷ []) 5 service
      remembered readable remembered-IsBounded

perform-other_tenant_example :
    lookup (codes "s1") (perform (deleting (codes "s1") (codes "evil") 5) service).sessions
    ≡ some session
unfolding caller
perform-other_tenant_example =
    perform-other_tenant (deleting (codes "s1") (codes "evil") 5) service (codes "evil")
      (codes "s1") session tt refl refl (λ e. ground arith)

deletion_works : (delete_session (codes "s1") (codes "acme") 5 service).0 ≡ ok tt
unfolding delete_session get_session
deletion_works = refl

delete_session-gone_example :
    get_session
      (codes "s1")
      (codes "acme")
      6
      (delete_session (codes "s1") (codes "acme") 5 service).1
    ≡ session_not_found
delete_session-gone_example =
    delete_session-gone (codes "s1") (codes "acme") 5 service
      (delete_session (codes "s1") (codes "acme") 5 service).1 deletion_works done (codes "acme") 6

one_day_over : is_due 86400000000 session ≡ true
unfolding is_expired
one_day_over = refl

expire_sweep-gone_example :
    get_session (codes "s1") (codes "acme") 6 (expire_sweep accept_all 86400000000 service).1
    ≡ session_not_found
expire_sweep-gone_example =
    expire_sweep-gone (codes "s1") session 86400000000 service
      (expire_sweep accept_all 86400000000 service).1 accept_all refl one_day_over done
      (codes "acme") 6

expire_sweep-audited_example :
    map (λ e. e.session_id) (expire_sweep accept_all 86400000000 service).1.audit
    ≡ map (λ e. e.session_id) service.audit ++ (expire_sweep accept_all 86400000000 service).0
expire_sweep-audited_example = expire_sweep-audited 86400000000 service
