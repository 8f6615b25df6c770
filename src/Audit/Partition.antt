-- ===== src/Audit/Partition.antt =====
-- What `execute_deletion` deletes, and what it keeps.
use verisearch.Prelude.{
  ℕ, ◌+◌, Bool, true, false, not, Option, some, List, [], ◌∷◌, ◌++◌, append-nil, if◌then◌else◌,
  length, length-append, Str, str_eq, codes, ◌≡◌, refl, sym, ap, ◌∙◌, arith, Bool-cases,
  Option-cases, ◌⊎◌, inl, inr,
}
use verisearch.Prelude.Dict.{lookup}
use verisearch.Audit.Tables.{
  Row, AuditEvent, DeletionState, deleted, Database, select, delete, row_of, event_of,
  set_deletion_state,
}
use verisearch.Audit.Log.{Write, is_valid_request_id, insert_event, emit}
use verisearch.Audit.Deletion.{
  Detail, completed_of, DeletionResult, ok, delete_tenant_data, get_audit_entry_ids, complete,
  resource_of,
}
use verisearch.Audit.Selection.{
  select-append, length-select, select-not, select-other, rows_apart, events_apart,
}

-- The rows of the five tables.
abbrev pub data_rows : Database Detail → List Row
data_rows db =
    db.sessions ++ (db.research_jobs ++ (db.metering_events ++ (db.pipelines ++ db.citations)))

pub data_rows-delete_tenant_data :
    (t : Str) (db : Database Detail)
    → data_rows (delete_tenant_data t db).1 ≡ select (λ x. not (row_of t x)) (data_rows db)
unfolding delete_tenant_data delete
data_rows-delete_tenant_data t db =
    let p : Row → Bool = λ x. not (row_of t x) in
    sym (
      select-append p db.sessions
        (db.research_jobs ++ (db.metering_events ++ (db.pipelines ++ db.citations)))
      ∙ ap (λ r. select p db.sessions ++ r)
          (select-append p db.research_jobs (db.metering_events ++ (db.pipelines ++ db.citations))
            ∙ ap (λ r. select p db.research_jobs ++ r)
                (select-append p db.metering_events (db.pipelines ++ db.citations)
                  ∙ ap (λ r. select p db.metering_events ++ r)
                      (select-append p db.pipelines db.citations))))

-- The rows that are counted and the rows that are left are all the rows.
pub length-delete_tenant_data :
    (t : Str) (db : Database Detail)
    → (delete_tenant_data t db).0 + length (data_rows (delete_tenant_data t db).1)
      ≡ length (data_rows db)
unfolding delete_tenant_data delete
length-delete_tenant_data t db =
    let p = row_of t in
    let kept : List Row → List Row = select (λ x. not (p x)) in
    omega (
      arith,
      length-select p db.sessions,
      length-select p db.research_jobs,
      length-select p db.metering_events,
      length-select p db.pipelines,
      length-select p db.citations,
      length-append (kept db.sessions) (
          kept db.research_jobs
          ++ (kept db.metering_events ++ (kept db.pipelines ++ kept db.citations))),
      length-append (kept db.research_jobs)
          (kept db.metering_events ++ (kept db.pipelines ++ kept db.citations)),
      length-append (kept db.metering_events) (kept db.pipelines ++ kept db.citations),
      length-append (kept db.pipelines) (kept db.citations),
      length-append db.sessions
          (db.research_jobs ++ (db.metering_events ++ (db.pipelines ++ db.citations))),
      length-append db.research_jobs (db.metering_events ++ (db.pipelines ++ db.citations)),
      length-append db.metering_events (db.pipelines ++ db.citations),
      length-append db.pipelines db.citations,
    )

-- The event that `execute_deletion` writes at its end.
abbrev pub completed_event : Write → (t id request_id : Str) → ℕ → ℕ → AuditEvent Detail
completed_event write t id request_id n preserved = record {
  audit_id = write.audit_id;
  tenant_id = some id;
  actor = codes "system";
  action = codes "deletion_completed";
  resource = resource_of t;
  timestamp_utc = write.now;
  request_id = request_id;
  detail = completed_of t n preserved;
}

-- The database behind `complete`, where the event is written.
abbrev pub completed_db :
    Write → (t id request_id : Str) → ℕ → ℕ → Database Detail → Database Detail
completed_db write t id request_id n preserved db =
    let db' = set_deletion_state id deleted db in
    record db' {
      audit_events = db'.audit_events ++ completed_event write t id request_id n preserved ∷ [];
    }

abbrev pub result_of : Str → ℕ → ℕ → List Str → DeletionResult
result_of t n preserved records = record {
  tenant_id = t;
  is_completed = true;
  records_deleted = n;
  records_preserved_legal_hold = preserved;
  preserved_records = records;
}

pub complete-ok :
    (uuid : Str → Option Str) (write : Write) (t id request_id : Str) (n preserved : ℕ)
    (records : List Str) (db : Database Detail)
    → uuid t ≡ some id
    → write.arrives ≡ true
    → is_valid_request_id request_id ≡ true
    → complete uuid write t id request_id n preserved records db
      ≡ (ok (result_of t n preserved records), completed_db write t id request_id n preserved db)
unfolding complete emit insert_event
complete-ok uuid write t id request_id n preserved records db known arrives valid =
    rw (valid, known, arrives)

pub set_deletion_state-audit :
    (t : Str) (state : DeletionState) (db : Database Detail)
    → ((set_deletion_state t state db).audit_events ≡ db.audit_events)
      × (data_rows (set_deletion_state t state db) ≡ data_rows db)
unfolding set_deletion_state
set_deletion_state-audit t state db = elim (Option-cases (lookup t db.tenants)) [
  | inl missing ↦ (rw (set_deletion_state, missing), rw (set_deletion_state, missing))
  | inr (x, found) ↦ (rw (set_deletion_state, found), rw (set_deletion_state, found))
]

-- The rows of a tenant, and the events, with and without those that a deletion has left.
abbrev pub left_events : Bool → Str → Database Detail → List (AuditEvent Detail)
left_events hold t db =
    if hold then db.audit_events else select (λ e. not (event_of t e)) db.audit_events

-- What a deletion of the data of tenant `t` has done to `db`, where it held back the events or not.
pub record Partitioned (t : Str) (hold : Bool) (event : AuditEvent Detail) (r : DeletionResult)
    (db db' : Database Detail) : Type 0 where
  pub gone : select (row_of t) (data_rows db') ≡ []
  pub others :
      (u : Str)
      → str_eq u t ≡ false
      → select (row_of u) (data_rows db') ≡ select (row_of u) (data_rows db)
  pub own_events :
      select (event_of t) db'.audit_events
      ≡ (if hold then select (event_of t) db.audit_events else []) ++ event ∷ []
  pub other_events :
      (u : Str)
      → str_eq u t ≡ false
      → select (event_of u) db'.audit_events ≡ select (event_of u) db.audit_events
  pub counted :
      r.records_deleted + length (data_rows db') + length db'.audit_events
      ≡ length (data_rows db) + length db.audit_events + 1
  pub preserved : r.preserved_records ≡ (if hold then get_audit_entry_ids t db else [])

module _ (t : Str) (event : AuditEvent Detail) (own : event_of t event ≡ true) where
  select-last :
      (es : List (AuditEvent Detail))
      → select (event_of t) (es ++ event ∷ []) ≡ select (event_of t) es ++ event ∷ []
  select-last es =
      let chosen : select (event_of t) (event ∷ []) ≡ event ∷ [] = unfold select in rw own in
      select-append (event_of t) es (event ∷ []) ∙ ap (λ r. select (event_of t) es ++ r) chosen

  other_last :
      (u : Str)
      → str_eq u t ≡ false
      → (es : List (AuditEvent Detail))
      → select (event_of u) (es ++ event ∷ []) ≡ select (event_of u) es
  other_last u differ es =
      let e : event_of u event ≡ false = not_other (Bool-cases (event_of u event)) in
      let dropped : select (event_of u) (event ∷ []) ≡ [] = unfold select in rw e in
      select-append (event_of u) es (event ∷ [])
      ∙ ap (λ r. select (event_of u) es ++ r) dropped
      ∙ append-nil (select (event_of u) es)
    where
      not_other : (event_of u event ≡ true) ⊎ (event_of u event ≡ false) → event_of u event ≡ false
      not_other (inl same) = let h = events_apart t u differ event same in cc
      not_other (inr other) = other

  pub build :
      (hold : Bool) (r : DeletionResult) (db db' : Database Detail)
      → data_rows db' ≡ select (λ x. not (row_of t x)) (data_rows db)
      → db'.audit_events ≡ left_events hold t db ++ event ∷ []
      → r.records_deleted + length (data_rows db') + length (left_events hold t db)
        ≡ length (data_rows db) + length db.audit_events
      → r.preserved_records ≡ (if hold then get_audit_entry_ids t db else [])
      → Partitioned t hold event r db db'
  build hold r db db' rows events counts records = record {
    gone = ap (select (row_of t)) rows ∙ select-not (row_of t) (data_rows db);
    others = λ u differ.
        ap (select (row_of u)) rows
        ∙ select-other (row_of t) (row_of u) (rows_apart t u differ) (data_rows db);
    own_events =
        ap (select (event_of t)) events
        ∙ select-last (left_events hold t db)
        ∙ ap (λ es. es ++ event ∷ []) (own_left hold);
    other_events = λ u differ.
        ap (select (event_of u)) events
        ∙ other_last u differ (left_events hold t db)
        ∙ other_left u differ hold;
    counted =
        omega (arith, counts, ap length events, length-append (left_events hold t db) (event ∷ []));
    preserved = records;
  }
    where
      own_left :
          (hold : Bool)
          → select (event_of t) (left_events hold t db)
            ≡ (if hold then select (event_of t) db.audit_events else [])
      own_left true = refl
      own_left false = select-not (event_of t) db.audit_events

      other_left :
          (u : Str)
          → str_eq u t ≡ false
          → (hold : Bool)
          → select (event_of u) (left_events hold t db) ≡ select (event_of u) db.audit_events
      other_left u differ true = refl
      other_left u differ false =
          select-other (event_of t) (event_of u) (events_apart t u differ) db.audit_events
