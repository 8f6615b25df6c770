-- ===== src/Audit/Tables.antt =====
-- The tables that backend/audit_log works on. A table is the list of its rows, all of which
-- the role of the connection sees and may delete; the ids of tenants are UUIDs in one form,
-- which `uuid.UUID` leads to.
use verisearch.Prelude.{
  ℕ, Bool, false, not, Option, none, some, List, [], ◌∷◌, if◌then◌else◌, length, Str, str_eq,
}
use verisearch.Prelude.Dict.{Dict, lookup, insert}

-- A row of `sessions`, `research_jobs`, `metering_events`, `pipelines` or `citations`.
pub record Row : Type 0 where
  pub id : Str
  pub tenant_id : Str

-- A row of `audit_events`; `D` is the type of `detail`.
pub record AuditEvent (D : Type 0) : Type 0 where
  pub audit_id : Str
  pub tenant_id : Option Str
  pub actor : Str
  pub action : Str
  pub resource : Str
  pub timestamp_utc : ℕ
  pub request_id : Str
  pub detail : D

-- `tenants.deletion_state`
pub data DeletionState : Type 0 where
  active pending_deletion deleted : DeletionState

-- The columns of `tenants` that are read; the first counts only in a database that has it.
pub record Tenant : Type 0 where
  pub legal_hold_until : Option ℕ
  pub deletion_state : DeletionState

-- The tables; whether `tenants` has the column `legal_hold_until`, which no file of migrations/ creates; and
-- whether the trigger of migrations/008_create_audit_events.sql that rejects DELETE on `audit_events` is
-- in place.
pub record Database (D : Type 0) : Type 0 where
  pub tenants : Dict Tenant
  pub sessions : List Row
  pub research_jobs : List Row
  pub metering_events : List Row
  pub pipelines : List Row
  pub citations : List Row
  pub audit_events : List (AuditEvent D)
  pub has_legal_hold_column : Bool
  pub rejects_delete : Bool

module _ {A : Type 0} where
  -- The rows that a WHERE clause selects.
  unfoldable pub select : (A → Bool) → List A → List A
  select p [] = []
  select p (x ∷ xs) = let rest = select p xs in if p x then x ∷ rest else rest

  -- DELETE, with the number of rows deleted.
  unfoldable pub delete : (A → Bool) → List A → ℕ × List A
  unfolding select
  delete p xs = (length (select p xs), select (λ x. not (p x)) xs)

abbrev pub row_of : Str → Row → Bool
row_of tenant row = str_eq row.tenant_id tenant

abbrev pub names : Str → Option Str → Bool
names tenant none = false
names tenant (some t) = str_eq t tenant

abbrev pub event_of : {D : Type 0} → Str → AuditEvent D → Bool
event_of tenant event = names tenant event.tenant_id

-- `UPDATE tenants SET deletion_state = … WHERE tenant_id = …`
unfoldable pub set_deletion_state : {D : Type 0} → Str → DeletionState → Database D → Database D
set_deletion_state tenant state db = elim (lookup tenant db.tenants) [
  | none ↦ db
  | some t ↦ record db { tenants = insert tenant (record t { deletion_state = state }) db.tenants }
]
