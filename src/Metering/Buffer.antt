-- ===== src/Metering/Buffer.antt =====
-- backend/rate_limiter/metering_buffer.py: `DurableMeteringBuffer`. The event type is a parameter, and
-- so are the database and the emitter of audit events.
use verisearch.Prelude.{
  ℕ, suc, ◌*◌, Bool, true, false, not, ◌&&◌, List, [], ◌∷◌, ◌++◌, leb, length, if◌then◌else◌,
  is_empty,
}
use verisearch.Prelude.Deque.{append_bounded, drop_first}

-- A `metering_delivery_degraded` audit event.
pub record Degraded : Type 0 where
  pub buffer_size : ℕ
  pub buffer_max_size : ℕ

-- `DurableMeteringBuffer`, with the audit events that the emitter has taken.
pub record Buffer (E : Type 0) : Type 0 where
  pub max_size : ℕ
  pub events : List E
  pub audit_emitted : Bool
  pub audits : List Degraded

-- `fill_ratio >= 0.8`: the quotient of two integers compares with 0.8 as the fractions do, where
-- `max_size` is below 10 ^ 15. The ratio of a buffer without room is 1.
abbrev pub is_degraded : ℕ → ℕ → Bool
is_degraded max_size size = leb (4 * max_size) (5 * size)

module _ {E : Type 0} where
  -- `__init__`
  abbrev pub new_buffer : ℕ → Buffer E
  new_buffer n = record { max_size = n; events = []; audit_emitted = false; audits = [] }

  -- `_emit_degraded_audit`. `emits` is false of an audit event for which the emitter raises, and of
  -- every one where there is no emitter.
  unfoldable pub emit_degraded_audit : (Degraded → Bool) → Buffer E → Buffer E
  emit_degraded_audit emits b =
      let event : Degraded = record {
        buffer_size = length b.events;
        buffer_max_size = b.max_size;
      } in
      if emits event then record b { audits = b.audits ++ event ∷ [] } else b

  -- `buffer_event`
  unfoldable pub buffer_event : (Degraded → Bool) → E → Buffer E → Buffer E
  unfolding append_bounded emit_degraded_audit
  buffer_event emits e b =
      let c : Buffer E = record b { events = append_bounded b.max_size b.events e } in
      if not c.audit_emitted && is_degraded c.max_size (length c.events)
      then emit_degraded_audit emits (record c { audit_emitted = true })
      else c

  module _ {D : Type 0} (execute : E → D → Bool × D) where
    -- The loop of `flush`: the count, the events that stay, and the database. `execute` is false
    -- where acquiring the connection or the insertion raises.
    unfoldable pub drain : List E → D → ℕ × List E × D
    drain [] db = (0, [], db)
    drain (e ∷ es) db =
        let rest = drain es (execute e db).1 in
        if (execute e db).0 then (suc rest.0, rest.1, rest.2) else (0, e ∷ es, (execute e db).1)

    -- `flush`
    unfoldable pub flush : Buffer E → D → ℕ × Buffer E × D
    unfolding drain
    flush b db =
        let out = drain b.events db in
        (
          out.0,
          record b {
            events = out.1;
            audit_emitted = if is_empty out.1 then false else b.audit_emitted;
          },
          out.2,
        )

  -- A flush interrupted while it awaits the insertion of the front event: what it does afterwards to
  -- the buffer it then finds, with `popleft`.
  unfoldable pub pop_written : Buffer E → Buffer E
  pop_written b = record b { events = drop_first b.events }
