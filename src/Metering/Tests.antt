-- ===== src/Metering/Tests.antt =====
-- The theorems on the metering buffer at a buffer of numbers, and a database that takes three rows.
use verisearch.Prelude.{
  ℕ, ◌+◌, Bool, true, false, List, [], ◌∷◌, ◌++◌, ltb, length, last, if◌then◌else◌, ◌≡◌, refl,
  arith,
}
use verisearch.Metering.Buffer.{Buffer, new_buffer, buffer_event, flush, pop_written}
use verisearch.Metering.Flush.{Flushed, flush-Flushed}
use verisearch.Metering.Level.{buffer_all, bit, IsLevelled, buffer_all-events, buffer_all-audits}
use verisearch.Metering.Race.{pop_written-buffer_event}

abbrev take_three : ℕ → List ℕ → Bool × List ℕ
take_three e rows = if ltb (length rows) 3 then (true, rows ++ e ∷ []) else (false, rows)

abbrev four : Buffer ℕ
four = record { max_size = 5; events = 1 ∷ 2 ∷ 3 ∷ 4 ∷ []; audit_emitted = true; audits = [] }

abbrev full : Buffer ℕ
full = record { max_size = 2; events = 1 ∷ 2 ∷ []; audit_emitted = true; audits = [] }

flush-Flushed_example :
    Flushed take_three four.events []
      (flush take_three four []).0
      (flush take_three four []).1.events
      (flush take_three four []).2
flush-Flushed_example = flush-Flushed take_three four []

buffer_all-events_example :
    (buffer_all (λ _. true) (5 ∷ 6 ∷ []) four).events ≡ last 5 (four.events ++ (5 ∷ 6 ∷ []))
buffer_all-events_example = buffer_all-events (λ _. true) (5 ∷ 6 ∷ []) four (omega arith)

abbrev empty : Buffer ℕ
empty = new_buffer 2

abbrev arrivals : List ℕ
arrivals = 7 ∷ 8 ∷ 9 ∷ []

fresh-IsLevelled : IsLevelled (empty)
fresh-IsLevelled = record { within = omega arith; flag = refl }

buffer_all-audits_example :
    IsLevelled (buffer_all (λ _. true) arrivals empty)
    × (length (buffer_all (λ _. true) arrivals empty).audits + bit false
        ≡ 0 + bit (buffer_all (λ _. true) arrivals empty).audit_emitted)
buffer_all-audits_example = buffer_all-audits arrivals empty fresh-IsLevelled

pop_written-buffer_event_example :
    (pop_written (buffer_event (λ _. true) 3 full)).events
    ≡ (if ltb 2 2 then 2 ∷ [] ++ 3 ∷ [] else [] ++ 3 ∷ [])
pop_written-buffer_event_example =
    pop_written-buffer_event (λ _. true) 1 2 3 [] full refl (omega arith)
