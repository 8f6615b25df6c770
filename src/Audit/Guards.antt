-- ===== src/Audit/Guards.antt =====
-- backend/audit_log/guards.py: an action that is audited before it runs; and what service.py says of the
-- methods and the triggers of the log.
use verisearch.Prelude.{
  Bool, false, Option, none, some, List, [], ◌∷◌, map, all, any, Str, str_eq, codes, ◌≡◌,
  Bool-cases, Option-cases, inl, inr,
}
use verisearch.Audit.Tables.{Database}
use verisearch.Audit.Log.{
  Emitted, done, value_error, audit_log_unavailable, Write, is_valid_request_id, parsed, emit,
  insert_event,
}

-- The keyword arguments that `require_audit` looks up; `none` is one that is not given.
pub record Arguments (D : Type 0) : Type 0 where
  pub tenant_id : Option Str
  pub actor : Option Str
  pub resource : Option Str
  pub request_id : Option Str
  pub detail : Option D

abbrev or_else : {A : Type 0} → A → Option A → A
or_else default none = default
or_else default (some a) = a

module _ {D : Type 0} (uuid : Str → Option Str) (empty : D) where
  -- `audit_or_block`; `empty` is `{}`, and `uuid` is `uuid.UUID`
  unfoldable pub audit_or_block :
      Write → Str → Option Str → Str → Str → Str → Option D → Database D → Emitted × Database D
  unfolding emit
  audit_or_block write action tenant_id actor resource request_id detail db =
      emit uuid write action tenant_id actor resource request_id (or_else empty detail) db

  -- A function that is called once the audit entry is written.
  abbrev guarded :
      {A : Type 0}
      → Emitted × Database D
      → (Database D → A × Database D)
      → (Emitted × Option A) × Database D
  guarded (done, db) fn = let (a, db') = fn db in ((done, some a), db')
  guarded (value_error, db) fn = ((value_error, none), db)
  guarded (audit_log_unavailable, db) fn = ((audit_log_unavailable, none), db)

  -- The wrapper of `require_audit(action=…)` around `fn`, with the default names of the arguments.
  unfoldable pub require_audit :
      {A : Type 0}
      → Write
      → Str
      → Arguments D
      → (Database D → A × Database D)
      → Database D
      → (Emitted × Option A) × Database D
  unfolding audit_or_block
  require_audit write action given fn db =
      guarded
        (audit_or_block write action given.tenant_id (or_else (codes "unknown") given.actor)
          (or_else (codes "unknown") given.resource)
          (or_else (codes "unknown-request-id-pad") given.request_id) given.detail db)
        fn

  -- Where the database does not take the event, the action does not run and nothing changes.
  require_audit-unavailable :
      {A : Type 0} (write : Write) (action : Str) (given : Arguments D)
      (fn : Database D → A × Database D) (db : Database D)
      → write.arrives ≡ false
      → ((require_audit write action given fn db).0.1 ≡ none)
        × ((require_audit write action given fn db).1 ≡ db)
  unfolding require_audit audit_or_block emit insert_event
  require_audit-unavailable write action given fn db lost =
      elim (Bool-cases
        (is_valid_request_id (or_else (codes "unknown-request-id-pad") given.request_id))) [
          | inl valid ↦ elim (Option-cases (parsed uuid given.tenant_id)) [
            | inl malformed ↦ (rw (valid, malformed), rw (valid, malformed))
            | inr (id, known) ↦ (rw (valid, known, lost), rw (valid, known, lost))
          ]
          | inr invalid ↦ (rw invalid, rw invalid)
        ]

-- `_BLOCKED_MUTATION_METHODS`
abbrev pub blocked_mutation_methods : List Str
blocked_mutation_methods = map codes (
    "update" ∷ "delete" ∷ "modify" ∷ "remove" ∷ "edit" ∷ "patch" ∷ "upsert" ∷ "replace" ∷ "truncate"
    ∷ "drop" ∷ "purge" ∷ "overwrite" ∷ "set" ∷ "put" ∷ [])

-- `__getattr__`, for a name that the class does not have: whether it raises `ImmutableAuditLogError`,
-- rather than `AttributeError`.
abbrev pub is_blocked : Str → Bool
is_blocked name = any (str_eq name) blocked_mutation_methods

abbrev expected_triggers : List Str
expected_triggers = map codes ("trg_audit_events_no_update" ∷ "trg_audit_events_no_delete" ∷ [])

-- `verify_immutability`, of the triggers that the database reports: its field `immutable`.
abbrev pub verify_immutability : List Str → Bool
verify_immutability found = all (λ name. any (str_eq name) found) expected_triggers
