-- ===== src/DeadLetters/Routing.antt =====
-- When a document is routed to the dead-letter queue.
use verisearch.Prelude.{
  ℕ, suc, ◌+◌, ◌-◌, ◌≤◌, true, false, Option, none, some, List, [], ◌∷◌, ◌++◌, append_assoc,
  append-nil, Bool-cases, inl, inr, ltb, if◌then◌else◌, length, length-append, drop,
  drop-length-append, Str, str_eq, str_eq_iff, ◌≡◌, ◌↔◌, refl, sym, ap, ◌∙◌, arith,
}
use verisearch.Prelude.Dict.{lookup, lookup-insert, lookup-remove}
use verisearch.DeadLetters.Queue.{
  RetryState, DeadLetterQueue, state_or_new, no_attempts, attempted, record_attempt, is_spaced,
  routable, should_route_to_dlq, route_to_dlq,
}

-- `record_attempt` of one key at each time in turn.
unfoldable pub attempts_at : Str → Str → List ℕ → DeadLetterQueue → DeadLetterQueue
unfolding record_attempt
attempts_at key error [] q = q
attempts_at key error (t ∷ ts) q = attempts_at key error ts (record_attempt key error t q)

-- The state after some attempts.
abbrev after : Str → List ℕ → RetryState → RetryState
after error ts s = record {
  attempt_count = s.attempt_count + length ts;
  attempt_timestamps = s.attempt_timestamps ++ ts;
  last_error = some error;
}

abbrev retries : ℕ → List ℕ → Option Str → RetryState
retries n xs e = record { attempt_count = n; attempt_timestamps = xs; last_error = e }

state_ext :
    (n m : ℕ) (xs ys : List ℕ) (e f : Option Str)
    → n ≡ m
    → xs ≡ ys
    → e ≡ f
    → retries n xs e ≡ retries m ys f
state_ext n m xs ys e f p q r i = record {
  attempt_count = p i;
  attempt_timestamps = q i;
  last_error = r i;
}

lookup-record_attempt :
    (key error : Str) (t : ℕ) (q : DeadLetterQueue)
    → lookup key (record_attempt key error t q).retry_states
      ≡ some (attempted error t (state_or_new (lookup key q.retry_states)))
unfolding record_attempt
lookup-record_attempt key error t q =
    let s = attempted error t (state_or_new (lookup key q.retry_states)) in
    rw (lookup-insert key key s q.retry_states, (str_eq_iff key key).1 refl)

lookup-attempts_at :
    (key error : Str) (ts : List ℕ) (q : DeadLetterQueue) (s : RetryState)
    → lookup key q.retry_states ≡ some s
    → s.last_error ≡ some error
    → lookup key (attempts_at key error ts q).retry_states ≡ some (after error ts s)
unfolding attempts_at
lookup-attempts_at key error [] q s e f =
    e
    ∙ ap some (
        state_ext s.attempt_count (s.attempt_count + 0) s.attempt_timestamps
          (s.attempt_timestamps ++ []) s.last_error (some error) (omega arith)
          (sym (append-nil s.attempt_timestamps)) f)
lookup-attempts_at key error (t ∷ ts) q s e f =
    lookup-attempts_at key error ts (record_attempt key error t q) (attempted error t s)
      (lookup-record_attempt key error t q ∙ ap (λ o. some (attempted error t (state_or_new o))) e)
      refl
    ∙ ap some (
        state_ext (s.attempt_count + 1 + length ts) (s.attempt_count + suc (length ts))
          (s.attempt_timestamps ++ (t ∷ []) ++ ts) (s.attempt_timestamps ++ (t ∷ ts)) (some error)
          (some error) (omega arith) (append_assoc s.attempt_timestamps (t ∷ []) ts) refl)

-- The state of a key that had none, after its first attempts.
lookup-first_attempts :
    (key error : Str) (t : ℕ) (ts : List ℕ) (q : DeadLetterQueue)
    → lookup key q.retry_states ≡ none
    → lookup key (attempts_at key error (t ∷ ts) q).retry_states
      ≡ some (record {
        attempt_count = 1 + length ts;
        attempt_timestamps = t ∷ ts;
        last_error = some error;
      })
unfolding attempts_at
lookup-first_attempts key error t ts q e =
    lookup-attempts_at key error ts (record_attempt key error t q) (attempted error t no_attempts)
      (lookup-record_attempt key error t q ∙ ap (λ o. some (attempted error t (state_or_new o))) e)
      refl

should_route-found :
    (key : Str) (q : DeadLetterQueue) (s : RetryState)
    → lookup key q.retry_states ≡ some s
    → should_route_to_dlq key q ≡ routable s
unfolding should_route_to_dlq
should_route-found key q s e = rw (should_route_to_dlq, e)

too_few : (s : RetryState) → s.attempt_count ≤ 2 → routable s ≡ false
unfolding routable
too_few s h = let e : ltb s.attempt_count 3 ≡ true = ground arith in rw e

-- With fewer than three attempts a document is not routed.
pub should_route_to_dlq-few :
    (key error : Str) (ts : List ℕ) (q : DeadLetterQueue)
    → lookup key q.retry_states ≡ none
    → length ts ≤ 2
    → should_route_to_dlq key (attempts_at key error ts q) ≡ false
unfolding should_route_to_dlq attempts_at
should_route_to_dlq-few key error [] q e h = rw (should_route_to_dlq, e)
should_route_to_dlq-few key error (t ∷ ts) q e h =
    should_route-found key (attempts_at key error (t ∷ ts) q)
      (record {
        attempt_count = 1 + length ts;
        attempt_timestamps = t ∷ ts;
        last_error = some error;
      })
      (lookup-first_attempts key error t ts q e)
    ∙ too_few
        (record {
          attempt_count = 1 + length ts;
          attempt_timestamps = t ∷ ts;
          last_error = some error;
        })
        (omega arith)

-- Whether the last three of many timestamps are spaced.
routable-three :
    (ts : List ℕ) (a b c n : ℕ) (e : Option Str)
    → n ≡ length ts + 3
    → routable
        (record { attempt_count = n; attempt_timestamps = ts ++ a ∷ b ∷ c ∷ []; last_error = e })
      ≡ is_spaced (a ∷ b ∷ c ∷ [])
unfolding routable
routable-three ts a b c n e h =
    let m : length (ts ++ a ∷ b ∷ c ∷ []) ≡ length ts + 3 = length-append ts (a ∷ b ∷ c ∷ []) in
    let p : ltb n 3 ≡ false = enough n h in
    let q : ltb (length (ts ++ a ∷ b ∷ c ∷ [])) 3 ≡ false =
      enough (length (ts ++ a ∷ b ∷ c ∷ [])) m in
    let r : length (ts ++ a ∷ b ∷ c ∷ []) - 3 ≡ length ts = omega (arith, m) in
    rw (p, q)
      (ap (λ (k : ℕ). is_spaced (drop k (ts ++ a ∷ b ∷ c ∷ []))) r
        ∙ ap is_spaced (drop-length-append ts (a ∷ b ∷ c ∷ [])))
  where
    enough : (n : ℕ) → n ≡ length ts + 3 → ltb n 3 ≡ false
    enough n e = ground arith

three_spaced : (a b c : ℕ) → (is_spaced (a ∷ b ∷ c ∷ []) ≡ true) ↔ (a + 60 ≤ b × b + 60 ≤ c)
unfolding is_spaced
three_spaced a b c = ground arith

attempts-routable :
    (key error : Str) (ts : List ℕ) (a b c : ℕ) (q : DeadLetterQueue)
    → lookup key q.retry_states ≡ none
    → should_route_to_dlq key (attempts_at key error (ts ++ a ∷ b ∷ c ∷ []) q)
      ≡ is_spaced (a ∷ b ∷ c ∷ [])
attempts-routable key error [] a b c q e =
    should_route-found key (attempts_at key error (a ∷ b ∷ c ∷ []) q) _
      (lookup-first_attempts key error a (b ∷ c ∷ []) q e)
    ∙ routable-three [] a b c 3 (some error) refl
attempts-routable key error (t ∷ ts) a b c q e =
    should_route-found key (attempts_at key error (t ∷ ts ++ a ∷ b ∷ c ∷ []) q) _
      (lookup-first_attempts key error t (ts ++ a ∷ b ∷ c ∷ []) q e)
    ∙ routable-three (t ∷ ts) a b c (1 + length (ts ++ a ∷ b ∷ c ∷ [])) (some error)
        (omega (arith, length-append ts (a ∷ b ∷ c ∷ [])))

-- A document that had no attempts and then at least three is routed exactly if each of the last two
-- attempts came 60 seconds or more after the one before it.
pub should_route_to_dlq-attempts_at :
    (key error : Str) (ts : List ℕ) (a b c : ℕ) (q : DeadLetterQueue)
    → lookup key q.retry_states ≡ none
    → (should_route_to_dlq key (attempts_at key error (ts ++ a ∷ b ∷ c ∷ []) q) ≡ true)
      ↔ (a + 60 ≤ b × b + 60 ≤ c)
should_route_to_dlq-attempts_at key error ts a b c q e =
    let same = attempts-routable key error ts a b c q e in
    (λ h. (three_spaced a b c).0 (sym same ∙ h), λ h. same ∙ (three_spaced a b c).1 h)

-- After `route_to_dlq` the key is not routed again, and every other key is as it was.
pub should_route-route_to_dlq :
    (key other : Str) (document_id : Option Str) (source_url : Str) (now : ℕ) (q : DeadLetterQueue)
    → should_route_to_dlq other (route_to_dlq key document_id source_url now q).1
      ≡ (if str_eq key other then false else should_route_to_dlq other q)
unfolding should_route_to_dlq route_to_dlq
should_route-route_to_dlq key other document_id source_url now q =
    elim (Bool-cases (str_eq key other)) [
      | inl same ↦ rw (should_route_to_dlq, lookup-remove key other q.retry_states, same)
      | inr apart ↦ rw (should_route_to_dlq, lookup-remove key other q.retry_states, apart)
    ]
