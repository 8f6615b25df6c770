-- ===== src/Audit/Log.antt =====
-- backend/audit_log/service.py: `AuditLogService`. Whether an INSERT is done in time, the id of the event
-- and the clock are arguments, and so is `uuid.UUID`: it gives the id of a string, in one form, or raises
-- ValueError (`none`). Times are microseconds.
use verisearch.Prelude.{
  ℕ, ◌+◌, ◌*◌, ◌&&◌, ◌||◌, Bool, not, Option, none, some, [], ◌∷◌, ◌++◌, ltb, if◌then◌else◌,
  is_empty, length, Str,
}
use verisearch.Audit.Tables.{AuditEvent, Database, select, delete}

-- How a call ends.
pub data Emitted : Type 0 where
  done value_error audit_log_unavailable : Emitted

-- What happens to one event on its way: its id, its time, and whether the database takes it.
pub record Write : Type 0 where
  pub audit_id : Str
  pub now : ℕ
  pub arrives : Bool

-- `_validate_request_id`
abbrev pub is_valid_request_id : Str → Bool
is_valid_request_id request_id = not (ltb (length request_id) 16 || ltb 64 (length request_id))

-- `uuid.UUID(tenant_id) if tenant_id is not None else None`
abbrev pub parsed : (Str → Option Str) → Option Str → Option (Option Str)
parsed uuid none = some none
parsed uuid (some tenant) = elim (uuid tenant) [ none ↦ none | some id ↦ some (some id) ]

abbrev pub day : ℕ
day = 24 * 60 * 60 * 1000000

module _ {D : Type 0} where
  -- `_insert`
  unfoldable pub insert_event : Bool → AuditEvent D → Database D → Emitted × Database D
  insert_event arrives event db =
      if arrives
      then (done, record db { audit_events = db.audit_events ++ event ∷ [] })
      else (audit_log_unavailable, db)

  -- `append`, of an entry with the id that its row gets.
  unfoldable pub append :
      (Str → Option Str) → Bool → AuditEvent D → Database D → Emitted × Database D
  unfolding insert_event
  append uuid arrives entry db =
      if is_valid_request_id entry.request_id
      then elim (parsed uuid entry.tenant_id) [
        | none ↦ (value_error, db)
        | some id ↦ insert_event arrives (record entry { tenant_id = id }) db
      ]
      else (value_error, db)

  -- `emit`
  unfoldable pub emit :
      (Str → Option Str)
      → Write
      → Str
      → Option Str
      → Str
      → Str
      → Str
      → D
      → Database D
      → Emitted × Database D
  unfolding insert_event
  emit uuid write action tenant_id actor resource request_id detail db =
      if is_valid_request_id request_id
      then elim (parsed uuid tenant_id) [
        | none ↦ (value_error, db)
        | some id ↦
            insert_event write.arrives
              (record {
                audit_id = write.audit_id;
                tenant_id = id;
                actor = actor;
                action = action;
                resource = resource;
                timestamp_utc = write.now;
                request_id = request_id;
                detail = detail;
              })
              db
      ]
      else (value_error, db)

  -- DELETE on `audit_events`: the trigger rejects it as soon as there is a row to delete; `none` is the
  -- error of the database.
  unfoldable pub delete_events : (AuditEvent D → Bool) → Database D → Option (ℕ × Database D)
  unfolding delete
  delete_events p db =
      let (n, kept) = delete p db.audit_events in
      if db.rejects_delete && not (is_empty (select p db.audit_events))
      then none
      else some (n, record db { audit_events = kept })

  -- `cleanup_expired`; `none` is `AuditLogUnavailableError`
  unfoldable pub cleanup_expired : ℕ → ℕ → Database D → Option (ℕ × Database D)
  unfolding delete_events
  cleanup_expired retention_days now db =
      delete_events (λ event. ltb (event.timestamp_utc + retention_days * day) now) db

-- The test of `__init__` on `retention_days`, for a number that is not negative.
abbrev pub is_valid_retention : ℕ → Bool
is_valid_retention retention_days = not (ltb retention_days 365 || ltb 2555 retention_days)
