-- ===== src/Audit/Tests.antt =====
-- The theorems on deletion at two tenants, one of them under legal hold.
use verisearch.Prelude.{
  true, false, not, if◌then◌else◌, length, ◌==◌, Option, none, some, [], ◌∷◌, ◌++◌, Str, codes, ◌≡◌,
  refl,
}
use verisearch.Audit.Tables.{Row, AuditEvent, active, Database, select, row_of}
use verisearch.Audit.Log.{Write}
use verisearch.Audit.Deletion.{
  Detail, requested_of, database_error, request_deletion, check_legal_hold, execute_deletion,
}
use verisearch.Audit.Partition.{data_rows}
use verisearch.Audit.Requested.{requested_event, execute_deletion-request_deletion}

abbrev row : Str → Str → Row
row id tenant = record { id = id; tenant_id = tenant }

abbrev request : Str
request = codes "request-0123456789"

abbrev event : Str → Str → AuditEvent Detail
event id tenant = record {
  audit_id = id;
  tenant_id = some tenant;
  actor = tenant;
  action = codes "deletion_requested";
  resource = codes "tenant";
  timestamp_utc = 3;
  request_id = request;
  detail = requested_of tenant;
}

-- The ids of the two tenants, and a `uuid.UUID` that knows an id by its length.
abbrev held_tenant : Str
held_tenant = codes "00000000-0000-4000-8000-000000000001"

abbrev free_tenant : Str
free_tenant = codes "00000000-0000-4000-8000-000000000002"

abbrev uuid : Str → Option Str
uuid s = if length s == 36 then some s else none

-- A database with the trigger and with the column of the legal hold.
abbrev database : Database Detail
database = record {
  tenants =
      (held_tenant, record { legal_hold_until = some 100; deletion_state = active })
      ∷ (free_tenant, record { legal_hold_until = some 5; deletion_state = active })
      ∷ [];
  sessions = row (codes "s1") held_tenant ∷ row (codes "s2") free_tenant ∷ [];
  research_jobs = row (codes "j1") free_tenant ∷ [];
  metering_events = [];
  pipelines = row (codes "p1") held_tenant ∷ [];
  citations = [];
  audit_events = event (codes "a1") held_tenant ∷ event (codes "a2") free_tenant ∷ [];
  has_legal_hold_column = true;
  rejects_delete = true;
}

abbrev write : Write
write = record { audit_id = codes "a3"; now = 9; arrives = true }

-- The database as the migrations make it.
abbrev migrated : Database Detail
migrated = record database { has_legal_hold_column = false }

unfound : ¬ (check_legal_hold free_tenant 9 migrated ≡ some true)
unfound e = cc

execute_deletion-request_deletion_example :
    (end : Database Detail) × (execute_deletion uuid write 9 free_tenant request none
        (request_deletion uuid write free_tenant request (some free_tenant) migrated).1
      ≡ (database_error, end))
    × (end.audit_events
        ≡ migrated.audit_events ++ requested_event write free_tenant free_tenant request ∷ [])
    × (data_rows end ≡ (
        if migrated.has_legal_hold_column
        then select (λ x. not (row_of free_tenant x)) (data_rows migrated)
        else data_rows migrated))
execute_deletion-request_deletion_example =
    execute_deletion-request_deletion uuid write free_tenant free_tenant request (some free_tenant)
      migrated refl refl refl refl write 9 request none refl unfound refl

-- The same, where the column is there: the rows of the tenant are gone.
execute_deletion-request_deletion_column :
    (end : Database Detail) × (execute_deletion uuid write 9 free_tenant request none
        (request_deletion uuid write free_tenant request (some free_tenant) database).1
      ≡ (database_error, end))
    × (length (data_rows end) ≡ 2)
unfolding execute_deletion request_deletion
execute_deletion-request_deletion_column = (_, refl, refl)
