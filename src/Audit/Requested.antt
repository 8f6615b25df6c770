-- ===== src/Audit/Requested.antt =====
-- `execute_deletion` after a request for deletion.
use verisearch.Prelude.{
  ℕ, Bool, true, false, not, Option, none, some, List, [], ◌∷◌, ◌++◌, is_empty, Str, str_eq,
  str_eq_iff, codes, ◌≡◌, Bool-cases, if◌then◌else◌, refl, ap, ◌∙◌, Option-cases, inl, inr,
}
use verisearch.Prelude.Dict.{lookup, insert, lookup-insert}
use verisearch.Audit.Tables.{
  AuditEvent, DeletionState, pending_deletion, Database, select, delete, row_of, event_of,
  set_deletion_state,
}
use verisearch.Audit.Log.{Write, is_valid_request_id, insert_event, emit, delete_events}
use verisearch.Audit.Deletion.{
  Detail, requested_of, database_error, is_foreign, request_deletion, lasts, check_legal_hold,
  delete_held, delete_tenant_data, execute_deletion, resource_of,
}
use verisearch.Audit.Selection.{select-append}
use verisearch.Audit.Partition.{data_rows, data_rows-delete_tenant_data, set_deletion_state-audit}

-- The check of the legal hold does not change with a request for deletion.
check_legal_hold-set_deletion_state :
    (u : Str) (now : ℕ) (state : DeletionState) (db : Database Detail)
    → check_legal_hold u now (set_deletion_state u state db) ≡ check_legal_hold u now db
unfolding set_deletion_state
check_legal_hold-set_deletion_state u now state db = elim (Option-cases (lookup u db.tenants)) [
  | inl missing ↦ rw (set_deletion_state, missing, missing)
  | inr (x, found) ↦
      let own : str_eq u u ≡ true = (str_eq_iff u u).1 refl in
      let again : lookup u (insert u (record x { deletion_state = state }) db.tenants)
          ≡ some (record x { deletion_state = state }) =
        lookup-insert u u (record x { deletion_state = state }) db.tenants ∙ rw own in
      rw (set_deletion_state, found, again)
]

set_deletion_state-schema :
    (u : Str) (state : DeletionState) (db : Database Detail)
    → ((set_deletion_state u state db).rejects_delete ≡ db.rejects_delete)
      × ((set_deletion_state u state db).has_legal_hold_column ≡ db.has_legal_hold_column)
unfolding set_deletion_state
set_deletion_state-schema u state db = elim (Option-cases (lookup u db.tenants)) [
  | inl missing ↦ (rw (set_deletion_state, missing), rw (set_deletion_state, missing))
  | inr (x, found) ↦ (rw (set_deletion_state, found), rw (set_deletion_state, found))
]

-- The event of a request for deletion.
abbrev pub requested_event : Write → (t id request_id : Str) → AuditEvent Detail
requested_event write t id request_id = record {
  audit_id = write.audit_id;
  tenant_id = some id;
  actor = t;
  action = codes "deletion_requested";
  resource = resource_of t;
  timestamp_utc = write.now;
  request_id = request_id;
  detail = requested_of t;
}

module _ (uuid : Str → Option Str) (write : Write) (t u request_id : Str) (requesting : Option Str)
    (db : Database Detail) (known : uuid t ≡ some u) (arrives : write.arrives ≡ true)
    (valid : is_valid_request_id request_id ≡ true)
    (domestic : is_foreign t requesting ≡ false) where
  abbrev logged : Database Detail
  logged = record db { audit_events = db.audit_events ++ requested_event write t u request_id ∷ [] }

  abbrev requested : Database Detail
  requested = set_deletion_state u pending_deletion logged

  request_deletion-requested :
      (request_deletion uuid write t request_id requesting db).1 ≡ requested
  unfolding request_deletion emit insert_event
  request_deletion-requested = rw (request_deletion, domestic, valid, known, arrives)

  -- Where the trigger is in place, a DELETE of the events of a tenant that has one is an error.
  delete_events-none :
      (db' : Database Detail)
      → db'.rejects_delete ≡ true
      → db'.audit_events ≡ db.audit_events ++ requested_event write t u request_id ∷ []
      → delete_events (event_of u) db' ≡ none
  unfolding delete_events delete
  delete_events-none db' rejects events =
      let own : event_of u (requested_event write t u request_id) ≡ true =
        (str_eq_iff u u).1 refl in
      let last : select (event_of u) (requested_event write t u request_id ∷ [])
          ≡ requested_event write t u request_id ∷ [] =
        unfold select in rw own in
      let found : select (event_of u) db'.audit_events
          ≡ select (event_of u) db.audit_events ++ requested_event write t u request_id ∷ [] =
        ap (select (event_of u)) events
        ∙ select-append (event_of u) db.audit_events (requested_event write t u request_id ∷ [])
        ∙ ap (λ r. select (event_of u) db.audit_events ++ r) last in
      let full : is_empty (select (event_of u) db'.audit_events) ≡ false =
        ap is_empty found ∙ not_empty (select (event_of u) db.audit_events) in
      rw (delete_events, rejects, full)
    where
      not_empty :
          (es : List (AuditEvent Detail))
          → is_empty (es ++ requested_event write t u request_id ∷ []) ≡ false
      not_empty [] = refl
      not_empty (e ∷ es) = refl

  -- Where the trigger on `audit_events` is in place, and the tenant is not found under legal hold at
  -- `now`: after a request for deletion with a UUID whose event the database took, with a valid request id
  -- and by the tenant itself or without a tenant, `execute_deletion` at `now` ends with the error of the
  -- database, for any request of the same kind. All events are left, that of the request included. Where
  -- there is no column `legal_hold_until`, all rows of the five tables are left as well; where there is
  -- one, those of the tenant are gone by then, and all others left.
  pub execute_deletion-request_deletion :
      (write' : Write) (now : ℕ) (request_id' : Str) (requesting' : Option Str)
      → db.rejects_delete ≡ true
      → ¬ (check_legal_hold u now db ≡ some true)
      → is_foreign t requesting' ≡ false
      → (end : Database Detail) × (execute_deletion uuid write' now t request_id' requesting'
            (request_deletion uuid write t request_id requesting db).1
          ≡ (database_error, end))
        × (end.audit_events ≡ db.audit_events ++ requested_event write t u request_id ∷ [])
        × (data_rows end ≡ (
            if db.has_legal_hold_column
            then select (λ x. not (row_of u x)) (data_rows db)
            else data_rows db))
  execute_deletion-request_deletion write' now request_id' requesting' rejects free domestic' =
      let start =
        ap (execute_deletion uuid write' now t request_id' requesting')
          request_deletion-requested in
      let schema = set_deletion_state-schema u pending_deletion logged in
      let kept = set_deletion_state-audit u pending_deletion logged in
      let same_check = check_legal_hold-set_deletion_state u now pending_deletion logged in
      elim (Bool-cases db.has_legal_hold_column) [
        | inr absent ↦ (
          requested,
          start ∙ unchecked requested (same_check ∙ rw absent),
          kept.0,
          kept.1 ∙ rw absent,
        )
        | inl there ↦
            let end = (delete_tenant_data u requested).1 in
            let same_events : end.audit_events ≡ requested.audit_events =
              unfold delete_tenant_data in refl in
            let same_trigger : end.rejects_delete ≡ requested.rejects_delete =
              unfold delete_tenant_data in refl in
            let guarded : end.rejects_delete ≡ true = same_trigger ∙ schema.0 ∙ rejects in
            let events = same_events ∙ kept.0 in
            (
              end,
              start
                  ∙ stopped requested
                      (same_check
                        ∙ unheld (check_legal_hold u now db) free (lasts now (lookup u db.tenants))
                            (rw there))
                      (delete_events-none end guarded events),
              events,
              data_rows-delete_tenant_data u requested
                  ∙ ap (select (λ x. not (row_of u x))) kept.1
                  ∙ rw there,
            )
      ]
    where
      unheld : (o : Option Bool) → ¬ (o ≡ some true) → (b : Bool) → o ≡ some b → o ≡ some false
      unheld o free true e = absurd (free e)
      unheld o free false e = e

      unchecked :
          (db' : Database Detail)
          → check_legal_hold u now db' ≡ none
          → execute_deletion uuid write' now t request_id' requesting' db' ≡ (database_error, db')
      unchecked db' failed =
          unfold execute_deletion in rw (execute_deletion, domestic', known, failed)

      stopped :
          (db' : Database Detail)
          → check_legal_hold u now db' ≡ some false
          → delete_events (event_of u) (delete_tenant_data u db').1 ≡ none
          → execute_deletion uuid write' now t request_id' requesting' db'
            ≡ (database_error, (delete_tenant_data u db').1)
      stopped db' lifted refused =
          unfold execute_deletion delete_held in
          rw (execute_deletion, domestic', known, lifted, refused)
