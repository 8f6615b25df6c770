-- ===== src/Research/Events.antt =====
-- backend/research_agent/events.py: `EventBuffer` and `EventEmitter`. The payload of an event is a
-- parameter; the time of a call is an argument, in seconds.
use verisearch.Prelude.{
  ℕ, suc, ◌+◌, Bool, true, false, not, Option, none, some, List, [], ◌∷◌, ◌++◌, ltb, leb,
  if◌then◌else◌, is_empty, Str,
}
use verisearch.Prelude.Dict.{Dict, lookup, insert, remove}

-- `EventType`
pub data EventType : Type 0 where
  plan_updated step_started step_completed citation report_chunk done error : EventType

abbrev pub is_terminal : EventType → Bool
is_terminal done = true
is_terminal error = true
is_terminal _ = false

-- `ResearchEvent`, without the time of its emission.
pub record ResearchEvent (P : Type 0) : Type 0 where
  pub event_id : ℕ
  pub job_id : Str
  pub type : EventType
  pub payload : P

-- `EventBuffer`
pub record EventBuffer (P : Type 0) : Type 0 where
  pub retention_seconds : ℕ
  pub buffers : Dict (List (ResearchEvent P))
  pub terminal_times : Dict ℕ

-- `EventEmitter`
pub record EventEmitter (P : Type 0) : Type 0 where
  pub buffer : EventBuffer P
  pub counters : Dict ℕ

-- A counter, 0 where there is none, which is also `get_last_event_id`.
abbrev pub count_of : Option ℕ → ℕ
count_of none = 0
count_of (some n) = n

module _ {P : Type 0} where
  -- The list of a job, empty where there is none.
  abbrev pub or_empty : Option (List (ResearchEvent P)) → List (ResearchEvent P)
  or_empty none = []
  or_empty (some events) = events

  -- `buffer and event_id <= buffer[-1].event_id`
  unfoldable pub reaches : ℕ → List (ResearchEvent P) → Bool
  reaches event_id [] = false
  reaches event_id (e ∷ []) = leb event_id e.event_id
  reaches event_id (e ∷ f ∷ es) = reaches event_id (f ∷ es)

  -- `append`; `none` is the ValueError of an id that is not greater than the last one.
  unfoldable pub append : ResearchEvent P → ℕ → EventBuffer P → Option (EventBuffer P)
  unfolding reaches
  append e now b =
      let buffer = or_empty (lookup e.job_id b.buffers) in
      if reaches e.event_id buffer
      then none
      else some (record b {
        buffers = insert e.job_id (buffer ++ e ∷ []) b.buffers;
        terminal_times =
            if is_terminal e.type then insert e.job_id now b.terminal_times else b.terminal_times;
      })

  -- The events with an id greater than `last_event_id`.
  unfoldable pub later_than : ℕ → List (ResearchEvent P) → List (ResearchEvent P)
  later_than last_event_id [] = []
  later_than last_event_id (e ∷ es) =
      let rest = later_than last_event_id es in
      if ltb last_event_id e.event_id then e ∷ rest else rest

  -- `replay`
  unfoldable pub replay : Str → Option ℕ → EventBuffer P → List (ResearchEvent P)
  unfolding later_than
  replay job_id none b = or_empty (lookup job_id b.buffers)
  replay job_id (some last_event_id) b =
      later_than last_event_id (or_empty (lookup job_id b.buffers))

  -- The loop of `cleanup_expired` over the terminal times, with the ids that it returns.
  unfoldable pub sweep : ℕ → Dict ℕ → EventBuffer P → List Str × EventBuffer P
  sweep now [] b = ([], b)
  sweep now ((job_id, terminal_time) ∷ rest) b =
      let kept = sweep now rest b in
      let gone = sweep now rest (record b {
        buffers = remove job_id b.buffers;
        terminal_times = remove job_id b.terminal_times;
      }) in
      if ltb (terminal_time + b.retention_seconds) now then (job_id ∷ gone.0, gone.1) else kept

  -- `cleanup_expired`
  unfoldable pub cleanup_expired : ℕ → EventBuffer P → List Str × EventBuffer P
  unfolding sweep
  cleanup_expired now b = sweep now b.terminal_times b

  -- `has_job`
  abbrev pub has_job : Str → EventBuffer P → Bool
  has_job job_id b = not (is_empty (or_empty (lookup job_id b.buffers)))

  -- The part of `emit` under the lock of the emitter: the next id.
  unfoldable pub take_id : Str → EventEmitter P → ℕ × EventEmitter P
  take_id job_id em =
      let event_id = suc (count_of (lookup job_id em.counters)) in
      (event_id, record em { counters = insert job_id event_id em.counters })

  abbrev pub stored : EventEmitter P → Option (EventBuffer P) → Option (EventEmitter P)
  stored em none = none
  stored em (some b) = some (record em { buffer = b })

  -- `emit`, where no other call comes between its two parts.
  unfoldable pub emit : Str → EventType → P → ℕ → EventEmitter P → Option (EventEmitter P)
  unfolding take_id append
  emit job_id kind payload now em =
      let (event_id, em') = take_id job_id em in
      stored em' (
        append (record { event_id = event_id; job_id = job_id; type = kind; payload = payload }) now
          em'.buffer)
