-- ===== src/DeadLetters/Tests.antt =====
-- The theorems on the dead-letter queue at an empty queue.
use verisearch.Prelude.{
  ◌+◌, ◌≤◌, true, false, none, [], ◌∷◌, ◌++◌, if◌then◌else◌, str_eq, codes, ◌≡◌, ◌↔◌, refl, arith,
}
use verisearch.DeadLetters.Queue.{DeadLetterQueue, should_route_to_dlq, route_to_dlq}
use verisearch.DeadLetters.Routing.{
  attempts_at, should_route_to_dlq-few, should_route_to_dlq-attempts_at, should_route-route_to_dlq,
}

abbrev queue : DeadLetterQueue
queue = record { retry_states = []; entries = [] }

should_route_to_dlq-few_example :
    should_route_to_dlq (codes "u") (attempts_at (codes "u") (codes "timeout") (0 ∷ 60 ∷ []) queue)
    ≡ false
should_route_to_dlq-few_example =
    should_route_to_dlq-few (codes "u") (codes "timeout") (0 ∷ 60 ∷ []) queue refl (omega arith)

should_route_to_dlq-attempts_at_example :
    (should_route_to_dlq
        (codes "u")
        (attempts_at (codes "u") (codes "timeout") ((5 ∷ []) ++ (10 ∷ 70 ∷ 130 ∷ [])) queue)
      ≡ true)
    ↔ (10 + 60 ≤ 70 × 70 + 60 ≤ 130)
should_route_to_dlq-attempts_at_example =
    should_route_to_dlq-attempts_at (codes "u") (codes "timeout") (5 ∷ []) 10 70 130 queue refl

should_route-route_to_dlq_example :
    should_route_to_dlq (codes "v") (route_to_dlq (codes "u") none (codes "u") 7 queue).1
    ≡ (if str_eq (codes "u") (codes "v") then false else should_route_to_dlq (codes "v") queue)
should_route-route_to_dlq_example =
    should_route-route_to_dlq (codes "u") (codes "v") none (codes "u") 7 queue
