-- ===== src/Audit/Executed.antt =====
-- `execute_deletion` as a whole.
use verisearch.Prelude.{ℕ, true, false, not, Option, some, Str, ◌≡◌}
use verisearch.Audit.Tables.{AuditEvent, Database, select, event_of}
use verisearch.Audit.Log.{Write, is_valid_request_id}
use verisearch.Audit.Deletion.{Detail, is_foreign, delete_tenant_data}
use verisearch.Audit.Partition.{completed_event}

module _ (uuid : Str → Option Str) (write : Write) (now : ℕ) (t u request_id : Str)
    (requesting : Option Str) (db : Database Detail) (known : uuid t ≡ some u)
    (arrives : write.arrives ≡ true) (valid : is_valid_request_id request_id ≡ true)
    (domestic : is_foreign t requesting ≡ false) where
  abbrev data_deleted : Database Detail
  data_deleted = (delete_tenant_data u db).1

  -- The event of a deletion with these counts.
  abbrev written : ℕ → ℕ → AuditEvent Detail
  written = completed_event write t u request_id

  -- The database once the events of the tenant are deleted as well.
  abbrev all_deleted : Database Detail
  all_deleted = record data_deleted {
    audit_events = select (λ e. not (event_of u e)) db.audit_events;
  }
