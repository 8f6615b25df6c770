-- ===== src/DeadLetters/Queue.antt =====
-- backend/indexer/dlq.py: `DeadLetterQueue`. Times are seconds in the units of a clock that is an
-- argument; it may go back.
use verisearch.Prelude.{
  ℕ, ◌+◌, Bool, true, false, Option, none, some, List, [], ◌∷◌, ◌++◌, ltb, if◌then◌else◌, is_empty,
  length, last, Str, codes,
}
use verisearch.Prelude.Dict.{Dict, lookup, insert, remove}

-- `RetryState`
pub record RetryState : Type 0 where
  pub attempt_count : ℕ
  pub attempt_timestamps : List ℕ
  pub last_error : Option Str

-- `DLQEntry`
pub record DlqEntry : Type 0 where
  pub document_id : Option Str
  pub source_url : Str
  pub failure_reason : Str
  pub attempts : ℕ
  pub routed_at : ℕ

abbrev pub min_retry_spacing_seconds : ℕ
min_retry_spacing_seconds = 60

abbrev pub max_retry_attempts : ℕ
max_retry_attempts = 3

-- `DeadLetterQueue`
pub record DeadLetterQueue : Type 0 where
  pub retry_states : Dict RetryState
  pub entries : List DlqEntry

-- `RetryState()`
abbrev pub no_attempts : RetryState
no_attempts = record { attempt_count = 0; attempt_timestamps = []; last_error = none }

-- The state of a key, and a new one where it has none.
abbrev pub state_or_new : Option RetryState → RetryState
state_or_new none = no_attempts
state_or_new (some s) = s

-- The changes of `record_attempt` to the state of the key.
abbrev pub attempted : Str → ℕ → RetryState → RetryState
attempted error now s = record {
  attempt_count = s.attempt_count + 1;
  attempt_timestamps = s.attempt_timestamps ++ now ∷ [];
  last_error = some error;
}

-- `record_attempt`
unfoldable pub record_attempt : Str → Str → ℕ → DeadLetterQueue → DeadLetterQueue
record_attempt key error now q = record q {
  retry_states =
      insert key (attempted error now (state_or_new (lookup key q.retry_states))) q.retry_states;
}

-- The loop over the pairs of consecutive timestamps.
unfoldable pub is_spaced : List ℕ → Bool
is_spaced [] = true
is_spaced (a ∷ []) = true
is_spaced (a ∷ b ∷ ts) =
    let rest = is_spaced (b ∷ ts) in if ltb b (a + min_retry_spacing_seconds) then false else rest

-- `should_route_to_dlq`, on the state of the key
unfoldable pub routable : RetryState → Bool
unfolding is_spaced
routable s =
    if ltb s.attempt_count max_retry_attempts
    then false
    else if ltb (length s.attempt_timestamps) max_retry_attempts
    then false
    else is_spaced (last max_retry_attempts s.attempt_timestamps)

-- `should_route_to_dlq`
unfoldable pub should_route_to_dlq : Str → DeadLetterQueue → Bool
unfolding routable
should_route_to_dlq key q = elim (lookup key q.retry_states) [ none ↦ false | some s ↦ routable s ]

-- `state.last_error or "unknown"`
abbrev pub reason : Option Str → Str
reason none = codes "unknown"
reason (some e) = if is_empty e then codes "unknown" else e

-- `route_to_dlq`
unfoldable pub route_to_dlq :
    Str → Option Str → Str → ℕ → DeadLetterQueue → DlqEntry × DeadLetterQueue
route_to_dlq key document_id source_url now q =
    let s = state_or_new (lookup key q.retry_states) in
    let entry : DlqEntry = record {
      document_id = document_id;
      source_url = source_url;
      failure_reason = reason s.last_error;
      attempts = s.attempt_count;
      routed_at = now;
    } in
    (entry, record { retry_states = remove key q.retry_states; entries = q.entries ++ entry ∷ [] })

-- `clear_retry_state`
unfoldable pub clear_retry_state : Str → DeadLetterQueue → DeadLetterQueue
clear_retry_state key q = record q { retry_states = remove key q.retry_states }
