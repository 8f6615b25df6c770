-- ===== src/Audit/Deletion.antt =====
-- backend/audit_log/deletion.py: `TenantDeletionService` over the audit log. Each statement commits by
-- itself, as asyncpg has it outside a transaction; of the statements, only the SELECT of `legal_hold_until`, the
-- DELETE on `audit_events` and the INSERT of an event fail. `uuid` is `uuid.UUID`.
use verisearch.Prelude.{
  ℕ, ◌+◌, Bool, true, false, not, Option, none, some, List, [], ◌++◌, map, ltb, if◌then◌else◌,
  length, Str, str_eq, codes,
}
use verisearch.Prelude.Dict.{lookup}
use verisearch.Audit.Tables.{
  pending_deletion, deleted, Tenant, Database, select, delete, row_of, event_of, set_deletion_state,
}
use verisearch.Audit.Log.{
  Emitted, done, value_error, audit_log_unavailable, Write, emit, delete_events,
}

-- The `detail` of the two events.
pub data Detail : Type 0 where
  requested_of : Str → Detail
  completed_of : Str → ℕ → ℕ → Detail

-- `DeletionResult`. Each preserved record has the reason `retention_required`.
pub record DeletionResult : Type 0 where
  pub tenant_id : Str
  pub is_completed : Bool
  pub records_deleted : ℕ
  pub records_preserved_legal_hold : ℕ
  pub preserved_records : List Str

-- How a call ends. `malformed_id` is the ValueError of `uuid.UUID`, and `database_error` the error of a
-- statement.
pub data Answer : Type 0 where
  ok : DeletionResult → Answer
  resource_not_found : Answer
  unwritten : Emitted → Answer
  malformed_id : Answer
  database_error : Answer

-- The test of `requesting_tenant_id`.
abbrev pub is_foreign : Str → Option Str → Bool
is_foreign tenant none = false
is_foreign tenant (some requesting) = not (str_eq requesting tenant)

-- `f"tenant/{tenant_id}"`
abbrev pub resource_of : Str → Str
resource_of tenant = codes "tenant/" ++ tenant

-- A call goes on behind an event that was written.
abbrev pub behind :
    Emitted × Database Detail
    → (Database Detail → Answer × Database Detail)
    → Answer × Database Detail
behind (done, db) f = f db
behind (value_error, db) f = (unwritten value_error, db)
behind (audit_log_unavailable, db) f = (unwritten audit_log_unavailable, db)

-- `request_deletion`
unfoldable pub request_deletion :
    (Str → Option Str) → Write → Str → Str → Option Str → Database Detail → Answer × Database Detail
unfolding emit set_deletion_state
request_deletion uuid write tenant request_id requesting db =
    if is_foreign tenant requesting
    then (resource_not_found, db)
    else behind
        (emit uuid write (codes "deletion_requested") (some tenant) tenant (resource_of tenant)
          request_id (requested_of tenant) db)
        (λ db'. elim (uuid tenant) [
          | none ↦ (malformed_id, db')
          | some id ↦ (
            ok (record {
              tenant_id = tenant;
              is_completed = false;
              records_deleted = 0;
              records_preserved_legal_hold = 0;
              preserved_records = [];
            }),
            set_deletion_state id pending_deletion db',
          )
        ])

abbrev pub lasts : ℕ → Option Tenant → Bool
lasts now none = false
lasts now (some t) = elim t.legal_hold_until [ none ↦ false | some until ↦ ltb now until ]

-- `_check_legal_hold`; `none` is the error of the database where there is no such column
abbrev pub check_legal_hold : Str → ℕ → Database Detail → Option Bool
check_legal_hold id now db =
    if db.has_legal_hold_column then some (lasts now (lookup id db.tenants)) else none

-- `_delete_tenant_data`
unfoldable pub delete_tenant_data : Str → Database Detail → ℕ × Database Detail
unfolding delete
delete_tenant_data tenant db =
    let (a, sessions) = delete (row_of tenant) db.sessions in
    let (b, research_jobs) = delete (row_of tenant) db.research_jobs in
    let (c, metering_events) = delete (row_of tenant) db.metering_events in
    let (d, pipelines) = delete (row_of tenant) db.pipelines in
    let (e, citations) = delete (row_of tenant) db.citations in
    (
      a + b + c + d + e,
      record db {
        sessions = sessions;
        research_jobs = research_jobs;
        metering_events = metering_events;
        pipelines = pipelines;
        citations = citations;
      },
    )

-- `_get_audit_entry_ids`
abbrev pub get_audit_entry_ids : Str → Database Detail → List Str
get_audit_entry_ids tenant db =
    map (λ event. event.audit_id) (select (event_of tenant) db.audit_events)

-- `_count_audit_entries`
abbrev pub count_audit_entries : Str → Database Detail → ℕ
count_audit_entries tenant db = length (select (event_of tenant) db.audit_events)

-- The end of `execute_deletion`: the new state of the tenant, and the event.
unfoldable pub complete :
    (Str → Option Str)
    → Write
    → (tenant id request_id : Str) → ℕ
    → ℕ
    → List Str
    → Database Detail
    → Answer × Database Detail
unfolding emit set_deletion_state
complete uuid write tenant id request_id deleted_count preserved records db =
    behind
      (emit uuid write (codes "deletion_completed") (some tenant) (codes "system")
        (resource_of tenant) request_id (completed_of tenant deleted_count preserved)
        (set_deletion_state id deleted db))
      (λ db'. (
        ok (record {
          tenant_id = tenant;
          is_completed = true;
          records_deleted = deleted_count;
          records_preserved_legal_hold = preserved;
          preserved_records = records;
        }),
        db',
      ))

-- What `execute_deletion` does behind the check of the legal hold.
unfoldable pub delete_held :
    (Str → Option Str)
    → Write
    → (tenant id request_id : Str) → Database Detail
    → Bool
    → Answer × Database Detail
unfolding delete_tenant_data delete_events complete
delete_held uuid write tenant id request_id db hold =
    let (n, db') = delete_tenant_data id db in
    if hold
    then complete uuid write tenant id request_id n (count_audit_entries id db')
        (get_audit_entry_ids id db') db'
    else elim (delete_events (event_of id) db') [
      | none ↦ (database_error, db')
      | some (m, db'') ↦ complete uuid write tenant id request_id (n + m) 0 [] db''
    ]

-- `execute_deletion`, at the time `now` of the check of the legal hold.
unfoldable pub execute_deletion :
    (Str → Option Str)
    → Write
    → ℕ
    → Str
    → Str
    → Option Str
    → Database Detail
    → Answer × Database Detail
unfolding delete_held
execute_deletion uuid write now tenant request_id requesting db =
    if is_foreign tenant requesting then (resource_not_found, db) else elim (uuid tenant) [
      | none ↦ (malformed_id, db)
      | some id ↦ elim (check_legal_hold id now db) [
        | none ↦ (database_error, db)
        | some hold ↦ delete_held uuid write tenant id request_id db hold
      ]
    ]
