-- ===== src/Research/Turns.antt =====
-- Two calls of `emit` for one job at once: `emit` takes its id under the lock of the emitter, and
-- stores its event after it has given that lock up.
use verisearch.Prelude.{
  ℕ, suc, ◌≤◌, Bool, true, false, Option, none, some, List, [], ◌∷◌, ◌++◌, leb, if◌then◌else◌, Str,
  str_eq_iff, ◌≡◌, refl, ap, ◌∙◌, arith,
}
use verisearch.Prelude.Dict.{lookup, insert, lookup-insert}
use verisearch.Research.Events.{
  EventType, is_terminal, ResearchEvent, EventBuffer, EventEmitter, or_empty, reaches, append,
  count_of, take_id,
}

module _ {P : Type 0} where
  abbrev is_stored : Option (EventBuffer P) → Bool
  is_stored none = false
  is_stored (some b) = true

  abbrev buffer_or : EventBuffer P → Option (EventBuffer P) → EventBuffer P
  buffer_or kept none = kept
  buffer_or kept (some b) = b

  -- Two calls take their ids in one order and store their events in the other: whether the first call
  -- returns, whether the second does, and the emitter behind them. A call whose `append` raises leaves the
  -- buffer as it is, and the other call still runs.
  unfoldable pub crossed :
      Str → EventType × P → EventType × P → ℕ → EventEmitter P → Bool × Bool × EventEmitter P
  unfolding take_id append
  crossed job first second now em =
      let (i, em1) = take_id job em in
      let (j, em2) = take_id job em1 in
      let e : ResearchEvent P = record {
        event_id = i;
        job_id = job;
        type = first.0;
        payload = first.1;
      } in
      let f : ResearchEvent P = record {
        event_id = j;
        job_id = job;
        type = second.0;
        payload = second.1;
      } in
      let late = append f now em2.buffer in
      let early = append e now (buffer_or em2.buffer late) in
      (
        is_stored early,
        is_stored late,
        record em2 { buffer = buffer_or (buffer_or em2.buffer late) early },
      )

  pub reaches-snoc :
      (k : ℕ) (es : List (ResearchEvent P)) (e : ResearchEvent P)
      → reaches k (es ++ e ∷ []) ≡ leb k e.event_id
  unfolding reaches
  reaches-snoc k [] e = refl
  reaches-snoc k (x ∷ []) e = refl
  reaches-snoc k (x ∷ y ∷ es) e = reaches-snoc k (y ∷ es) e

  -- The event of a call that took the id `n` for a job.
  abbrev pub event_with : ℕ → Str → EventType × P → ResearchEvent P
  event_with n job call = record { event_id = n; job_id = job; type = call.0; payload = call.1 }

  -- The buffer with one more event of a job.
  abbrev grown : ResearchEvent P → ℕ → EventBuffer P → EventBuffer P
  grown e now b = record b {
    buffers = insert e.job_id (or_empty (lookup e.job_id b.buffers) ++ e ∷ []) b.buffers;
    terminal_times =
        if is_terminal e.type then insert e.job_id now b.terminal_times else b.terminal_times;
  }

  events-grown :
      (e : ResearchEvent P) (now : ℕ) (b : EventBuffer P)
      → or_empty (lookup e.job_id (grown e now b).buffers)
        ≡ or_empty (lookup e.job_id b.buffers) ++ e ∷ []
  events-grown e now b =
      let events = or_empty (lookup e.job_id b.buffers) ++ e ∷ [] in
      let found : lookup e.job_id (insert e.job_id events b.buffers) ≡ some events =
        lookup-insert e.job_id e.job_id events b.buffers
        ∙ rw ((str_eq_iff e.job_id e.job_id).1 refl) in
      ap or_empty found

  append-grown :
      (e : ResearchEvent P) (now : ℕ) (b : EventBuffer P)
      → reaches e.event_id (or_empty (lookup e.job_id b.buffers)) ≡ false
      → append e now b ≡ some (grown e now b)
  unfolding append
  append-grown e now b fits = rw fits

  -- Behind the event of a later id, that of an earlier one is refused.
  append-none :
      (n m : ℕ) (job : Str) (first second : EventType × P) (now : ℕ) (b : EventBuffer P)
      → n ≤ m
      → append (event_with n job first) now (grown (event_with m job second) now b) ≡ none
  unfolding append
  append-none n m job first second now b order =
      let over : reaches n (or_empty (lookup job (grown (event_with m job second) now b).buffers))
          ≡ true =
        ap (reaches n) (events-grown (event_with m job second) now b)
        ∙ reaches-snoc n (or_empty (lookup job b.buffers)) (event_with m job second)
        ∙ (let e : leb n m ≡ true = ground arith in e) in
      rw over

  reaches-suc :
      (k : ℕ) (es : List (ResearchEvent P)) → reaches k es ≡ false → reaches (suc k) es ≡ false
  unfolding reaches
  reaches-suc k [] h = refl
  reaches-suc k (e ∷ []) h = ground arith
  reaches-suc k (e ∷ f ∷ es) h = reaches-suc k (f ∷ es) h

  -- Of two calls for one job that cross, at an emitter whose next id for the job is above that of the last
  -- event of the job: the call that took its id first raises and its event is not stored; the other returns,
  -- and its event, with the second of the two ids, is the one that the events of the job gain.
  pub crossed-loses :
      (job : Str) (first second : EventType × P) (now : ℕ) (em : EventEmitter P)
      → reaches (suc (count_of (lookup job em.counters))) (or_empty (lookup job em.buffer.buffers))
        ≡ false
      → ((crossed job first second now em).0 ≡ false)
        × ((crossed job first second now em).1 ≡ true)
        × (or_empty (lookup job (crossed job first second now em).2.buffer.buffers)
            ≡ or_empty (lookup job em.buffer.buffers)
              ++ event_with (suc (suc (count_of (lookup job em.counters)))) job second ∷ [])
  unfolding crossed take_id
  crossed-loses job first second now em fits =
      let n = count_of (lookup job em.counters) in
      let m = count_of (lookup job (insert job (suc n) em.counters)) in
      let counts : lookup job (insert job (suc n) em.counters) ≡ some (suc n) =
        lookup-insert job job (suc n) em.counters ∙ rw ((str_eq_iff job job).1 refl) in
      let next : m ≡ suc n = ap count_of counts in
      let f = event_with (suc m) job second in
      let clear : reaches (suc m) (or_empty (lookup job em.buffer.buffers)) ≡ false =
        ap (λ (k : ℕ). reaches (suc k) (or_empty (lookup job em.buffer.buffers))) next
        ∙ reaches-suc (suc n) (or_empty (lookup job em.buffer.buffers)) fits in
      let late : append f now em.buffer ≡ some (grown f now em.buffer) =
        append-grown f now em.buffer clear in
      let early : append (event_with (suc n) job first) now (grown f now em.buffer) ≡ none =
        append-none (suc n) (suc m) job first second now em.buffer (omega (arith, next)) in
      (
        rw (late, early),
        rw late,
        rw (late, early)
            (events-grown f now em.buffer
              ∙ ap
                  (λ (k : ℕ).
                    or_empty (lookup job em.buffer.buffers) ++ event_with (suc k) job second ∷ [])
                  next),
      )
