-- ===== src/Sessions/Steps.antt =====
-- The calls that change a `SessionService`, one after the other.
use verisearch.Prelude.{ℕ, Bool, Option, none, List, Str, ◌≡◌}
use verisearch.Prelude.Dict.{lookup}
use verisearch.Sessions.Memory.{Citation}
use verisearch.Sessions.Store.{
  Expiry, Service, Days, create, add_to_memory, delete_session, expire_sweep,
}

pub data Operation : Type 0 where
  creating : Str → Str → Option Days → ℕ → Operation
  adding : Str → Str → List Citation → List Str → ℕ → Operation
  deleting : Str → Str → ℕ → Operation
  sweeping : (Expiry → Bool) → ℕ → Operation

unfoldable pub perform : Operation → Service → Service
unfolding create add_to_memory delete_session expire_sweep
perform (creating id tenant retention now) svc = (create id tenant retention now svc).1
perform (adding id tenant citations doc_ids now) svc =
    (add_to_memory id tenant citations doc_ids now svc).1
perform (deleting id tenant now) svc = (delete_session id tenant now svc).1
perform (sweeping accepts now) svc = (expire_sweep accepts now svc).1

-- `uuid4` returns an id that no session has.
abbrev pub IsFresh : Operation → Service → Type 0
IsFresh (creating id tenant retention now) svc = lookup id svc.sessions ≡ none
IsFresh _ svc = Unit

-- Some calls lead from the first service to the second.
pub data Leads : Service → Service → Type 0 where
  done : {svc : Service} → Leads svc svc
  next :
      {svc end : Service} (o : Operation)
      → IsFresh o svc
      → Leads (perform o svc) end
      → Leads svc end
