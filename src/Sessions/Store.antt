-- ===== src/Sessions/Store.antt =====
-- backend/session_store/service.py: `SessionService`, and `Session` of models.py. Times are
-- microseconds; a method that reads the clock takes the time as an argument.
use verisearch.Prelude.{
  ℕ, ◌+◌, ◌*◌, Bool, true, false, ◌&&◌, ◌||◌, not, Option, none, some, List, [], ◌∷◌, ◌++◌, ltb,
  leb, if◌then◌else◌, Str, str_eq,
}
use verisearch.Prelude.Dict.{Dict, lookup, insert}
use verisearch.Sessions.Memory.{Citation, Memory, cleared, add_citation, add_doc_id}

-- `SessionState`
pub data SessionState : Type 0 where
  active expired deleted : SessionState

abbrev pub is_active : SessionState → Bool
is_active active = true
is_active _ = false

-- `Session`
pub record Session : Type 0 where
  pub tenant_id : Str
  pub created_at : ℕ
  pub retention_days : ℕ
  pub state : SessionState
  pub memory : Memory

abbrev pub day : ℕ
day = 86400000000

-- `expires_at`
abbrev pub expires_at : Session → ℕ
expires_at s = s.created_at + s.retention_days * day

-- `is_expired`
unfoldable pub is_expired : Session → ℕ → Bool
is_expired s now = if is_active s.state then leb (expires_at s) now else true

-- A `session_expired` audit event.
pub record Expiry : Type 0 where
  pub session_id : Str
  pub tenant_id : Str
  pub at : ℕ

-- `SessionService`, with the events that the audit log has taken.
pub record Service : Type 0 where
  pub sessions : Dict Session
  pub audit : List Expiry

-- An argument `retention_days`: an integer, `negative n` for -(n + 1).
pub data Days : Type 0 where
  days : ℕ → Days
  negative : ℕ → Days

-- How a method ends.
pub data Result (A : Type 0) : Type 0 where
  ok : A → Result A
  session_not_found : Result A
  invalid_request : Result A

abbrev pub default_retention_days : ℕ
default_retention_days = 14

-- The default, and the check of the range from 1 to 90.
unfoldable pub valid_days : Option Days → Option ℕ
valid_days none = some default_retention_days
valid_days (some (days n)) = if ltb n 1 || ltb 90 n then none else some n
valid_days (some (negative n)) = none

-- `create`, at the id that `uuid4` returns
unfoldable pub create : Str → Str → Option Days → ℕ → Service → Result Str × Service
unfolding valid_days
create id tenant retention now svc = elim (valid_days retention) [
  | none ↦ (invalid_request, svc)
  | some n ↦ (
    ok id,
    record svc {
      sessions =
          insert id
            (record {
              tenant_id = tenant;
              created_at = now;
              retention_days = n;
              state = active;
              memory = cleared;
            })
            svc.sessions;
    },
  )
]

-- `_get_session`, the tests on a session that is there
abbrev pub admit : Str → ℕ → Session → Result Session
admit tenant now s =
    if not (str_eq s.tenant_id tenant)
    then session_not_found
    else if not (is_active s.state)
    then session_not_found
    else if is_expired s now
    then session_not_found
    else ok s

-- `_get_session`
unfoldable pub get_session : Str → Str → ℕ → Service → Result Session
unfolding is_expired
get_session id tenant now svc = elim (lookup id svc.sessions) [
  | none ↦ session_not_found
  | some s ↦ admit tenant now s
]

-- `get_memory`
unfoldable pub get_memory : Str → Str → ℕ → Service → Result Memory
unfolding get_session
get_memory id tenant now svc = elim (get_session id tenant now svc) [
  | ok s ↦ ok s.memory
  | session_not_found ↦ session_not_found
  | invalid_request ↦ invalid_request
]

-- The loops of `add_to_memory`.
unfoldable pub add_citations : List Citation → Memory → Memory
unfolding add_citation
add_citations [] m = m
add_citations (c ∷ cs) m = add_citations cs (add_citation c m)

unfoldable pub add_doc_ids : List Str → Memory → Memory
unfolding add_doc_id
add_doc_ids [] m = m
add_doc_ids (d ∷ ds) m = add_doc_ids ds (add_doc_id d m)

-- A change of the session object that the store holds under `id`.
abbrev pub put : Str → Session → Service → Service
put id s svc = record svc { sessions = insert id s svc.sessions }

-- `add_to_memory`
unfoldable pub add_to_memory :
    Str → Str → List Citation → List Str → ℕ → Service → Result (Unit {0}) × Service
unfolding get_session add_citations add_doc_ids
add_to_memory id tenant citations doc_ids now svc = elim (get_session id tenant now svc) [
  | ok s ↦ (
    ok tt,
    put id (record s { memory = add_doc_ids doc_ids (add_citations citations s.memory) }) svc,
  )
  | session_not_found ↦ (session_not_found, svc)
  | invalid_request ↦ (invalid_request, svc)
]

-- `delete_session`
unfoldable pub delete_session : Str → Str → ℕ → Service → Result (Unit {0}) × Service
unfolding get_session
delete_session id tenant now svc = elim (get_session id tenant now svc) [
  | ok s ↦ (ok tt, put id (record s { state = deleted; memory = cleared }) svc)
  | session_not_found ↦ (session_not_found, svc)
  | invalid_request ↦ (invalid_request, svc)
]

-- `session_exists`
unfoldable pub session_exists : Str → Str → ℕ → Service → Bool
unfolding get_session
session_exists id tenant now svc = elim (get_session id tenant now svc) [
  | ok s ↦ true
  | session_not_found ↦ false
  | invalid_request ↦ false
]

-- The test of `expire_sweep` on one session.
abbrev pub is_due : ℕ → Session → Bool
is_due now s = is_active s.state && is_expired s now

-- The sessions that `expire_sweep` leaves.
unfoldable pub swept : ℕ → Dict Session → Dict Session
unfolding is_expired
swept now [] = []
swept now ((id, s) ∷ rest) =
    (id, if is_due now s then record s { state = expired; memory = cleared } else s)
    ∷ swept now rest

-- The ids that `expire_sweep` returns.
unfoldable pub due_ids : ℕ → Dict Session → List Str
unfolding is_expired
due_ids now [] = []
due_ids now ((id, s) ∷ rest) =
    let later = due_ids now rest in if is_due now s then id ∷ later else later

-- The audit events of `expire_sweep`. `accepts` is false of an event for which the audit log raises,
-- and of every event where there is no audit log.
unfoldable pub due_events : (Expiry → Bool) → ℕ → Dict Session → List Expiry
unfolding is_expired
due_events accepts now [] = []
due_events accepts now ((id, s) ∷ rest) =
    let later = due_events accepts now rest in
    let event : Expiry = record { session_id = id; tenant_id = s.tenant_id; at = now } in
    if is_due now s && accepts event then event ∷ later else later

-- `expire_sweep`
unfoldable pub expire_sweep : (Expiry → Bool) → ℕ → Service → List Str × Service
unfolding swept due_ids due_events
expire_sweep accepts now svc = (
  due_ids now svc.sessions,
  record {
    sessions = swept now svc.sessions;
    audit = svc.audit ++ due_events accepts now svc.sessions;
  },
)
