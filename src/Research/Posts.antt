-- ===== src/Research/Posts.antt =====
-- A stream that can take the next event and is not over.
use verisearch.Prelude.{
  ℕ, suc, true, false, some, List, [], ◌∷◌, ◌++◌, All, All-append, leb, if◌then◌else◌, Str, str_eq,
  str_eq_iff, ◌≡◌, refl, ap, ◌∙◌, arith,
}
use verisearch.Prelude.Dict.{lookup, insert, lookup-insert}
use verisearch.Research.Events.{
  EventType, plan_updated, is_terminal, ResearchEvent, EventEmitter, or_empty, reaches, append,
  count_of, emit,
}
use verisearch.Research.Turns.{reaches-snoc}
use verisearch.Research.Execution.{Payload, post}

abbrev pub events_of : Str → EventEmitter Payload → List (ResearchEvent Payload)
events_of job em = or_empty (lookup job em.buffer.buffers)

-- The next id of a job is above that of its last event.
abbrev pub Fits : Str → EventEmitter Payload → Type 0
Fits job em = reaches (suc (count_of (lookup job em.counters))) (events_of job em) ≡ false

abbrev pub event : Str → EventType → Payload → EventEmitter Payload → ResearchEvent Payload
event job kind payload em = record {
  event_id = suc (count_of (lookup job em.counters));
  job_id = job;
  type = kind;
  payload = payload;
}

-- The emitter once it has taken an event.
abbrev after_post : Str → EventType → Payload → ℕ → EventEmitter Payload → EventEmitter Payload
after_post job kind payload now em = record {
  counters = insert job (suc (count_of (lookup job em.counters))) em.counters;
  buffer = record {
    retention_seconds = em.buffer.retention_seconds;
    buffers = insert job (events_of job em ++ event job kind payload em ∷ []) em.buffer.buffers;
    terminal_times =
        if is_terminal kind
        then insert job now em.buffer.terminal_times
        else em.buffer.terminal_times;
  };
}

-- `emit` takes an event that fits, at the end of the events of its job, and the next event fits.
pub post-Fits :
    (job : Str) (kind : EventType) (payload : Payload) (now : ℕ) (em : EventEmitter Payload)
    → Fits job em
    → (em' : EventEmitter Payload) × (post job kind payload now em ≡ (true, em'))
      × Fits job em'
      × (events_of job em' ≡ events_of job em ++ event job kind payload em ∷ [])
unfolding post emit append
post-Fits job kind payload now em fits =
    let em' = after_post job kind payload now em in
    let n = suc (count_of (lookup job em.counters)) in
    let own : str_eq job job ≡ true = (str_eq_iff job job).1 refl in
    let events = events_of job em ++ event job kind payload em ∷ [] in
    let found : lookup job (insert job events em.buffer.buffers) ≡ some events =
      lookup-insert job job events em.buffer.buffers ∙ rw own in
    let held : events_of job em' ≡ events = ap or_empty found in
    let counts : count_of (lookup job em'.counters) ≡ n = ap count_of (
      let e : lookup job (insert job n em.counters) ≡ some n =
        lookup-insert job job n em.counters ∙ rw own in
      e) in
    let next : leb (suc n) n ≡ false = ground arith in
    (
      em',
      rw fits,
      ap (λ k. reaches (suc k) (events_of job em')) counts
          ∙ ap (reaches (suc n)) held
          ∙ reaches-snoc (suc n) (events_of job em) (event job kind payload em)
          ∙ next,
      held,
    )

abbrev pub Going : ResearchEvent Payload → Type 0
Going e = is_terminal e.type ≡ false

-- A stream that starts with the plan, and in which no later event is terminal.
abbrev pub Begun : List (ResearchEvent Payload) → Type 0
Begun [] = ⊥
Begun (e ∷ es) = (e.type ≡ plan_updated) × All Going es

pub Begun-snoc :
    (es : List (ResearchEvent Payload)) (e : ResearchEvent Payload)
    → Begun es
    → Going e
    → Begun (es ++ e ∷ [])
Begun-snoc [] e h g = absurd h
Begun-snoc (x ∷ es) e (h, k) g = (h, All-append _ es (e ∷ []) k (g, tt))

abbrev pub Live : Str → EventEmitter Payload → Type 0
Live job em = Fits job em × Begun (events_of job em)
