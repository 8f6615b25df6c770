-- ===== src/Research/Replay.antt =====
-- What a client that reconnects is sent.
use verisearch.Prelude.{
  ℕ, suc, ◌+◌, ◌-◌, ◌≤◌, ◌<◌, true, false, Option, none, some, List, [], ◌∷◌, ◌++◌, append-nil,
  append_assoc, ltb, if◌then◌else◌, length, length-append, drop, drop-nil, Str, str_eq, str_eq_iff,
  ◌≡◌, refl, sym, ap, subst, ◌∙◌, arith, Bool-cases, inl, inr,
}
use verisearch.Prelude.Dict.{lookup, insert, lookup-insert}
use verisearch.Research.Events.{
  EventType, is_terminal, ResearchEvent, EventEmitter, or_empty, reaches, append, later_than,
  replay, count_of, take_id, emit,
}

-- The arguments of a call of `emit`.
pub record Emission (P : Type 0) : Type 0 where
  pub job_id : Str
  pub type : EventType
  pub payload : P
  pub now : ℕ

module _ {P : Type 0} where
  -- `emit` for each emission in turn; `none` if one of them raises.
  unfoldable pub emit_all : List (Emission P) → EventEmitter P → Option (EventEmitter P)
  unfolding emit
  emit_all [] em = some em
  emit_all (m ∷ ms) em = elim (emit m.job_id m.type m.payload m.now em) [
    | none ↦ none
    | some em' ↦ emit_all ms em'
  ]

  -- The emissions for one job.
  unfoldable pub of_job : Str → List (Emission P) → List (Emission P)
  of_job job [] = []
  of_job job (m ∷ ms) = let rest = of_job job ms in if str_eq m.job_id job then m ∷ rest else rest

  abbrev event_at : ℕ → Str → Emission P → ResearchEvent P
  event_at n job m = record { event_id = n; job_id = job; type = m.type; payload = m.payload }

  -- The events of some emissions for one job, with the ids after `n`.
  unfoldable pub numbered : ℕ → Str → List (Emission P) → List (ResearchEvent P)
  numbered n job [] = []
  numbered n job (m ∷ ms) = event_at (suc n) job m ∷ numbered (suc n) job ms

  of_job-append :
      (job : Str) (xs ys : List (Emission P))
      → of_job job (xs ++ ys) ≡ of_job job xs ++ of_job job ys
  unfolding of_job
  of_job-append job [] ys = refl
  of_job-append job (x ∷ xs) ys = elim (Bool-cases (str_eq x.job_id job)) [
    | inl mine ↦ rw (mine, of_job-append job xs ys)
    | inr other ↦ rw (other, of_job-append job xs ys)
  ]

  numbered-snoc :
      (n : ℕ) (job : Str) (xs : List (Emission P)) (m : Emission P)
      → numbered n job (xs ++ m ∷ [])
        ≡ numbered n job xs ++ event_at (suc (n + length xs)) job m ∷ []
  unfolding numbered
  numbered-snoc n job [] m =
      ap (λ k. event_at (suc k) job m ∷ []) (let e : n ≡ n + 0 = omega arith in e)
  numbered-snoc n job (x ∷ xs) m =
      ap (λ r. event_at (suc n) job x ∷ r) (numbered-snoc (suc n) job xs m)
      ∙ ap (λ k. event_at (suc n) job x ∷ (numbered (suc n) job xs ++ event_at (suc k) job m ∷ []))
          (let e : suc n + length xs ≡ n + suc (length xs) = omega arith in e)

  reaches-numbered :
      (n k : ℕ) (job : Str) (xs : List (Emission P))
      → n + length xs < k
      → reaches k (numbered n job xs) ≡ false
  unfolding reaches numbered
  reaches-numbered n k job [] h = refl
  reaches-numbered n k job (x ∷ []) h = ground arith
  reaches-numbered n k job (x ∷ y ∷ ys) h = reaches-numbered (suc n) k job (y ∷ ys) (omega arith)

  later_than-all :
      (n k : ℕ) (job : Str) (xs : List (Emission P))
      → k ≤ n
      → later_than k (numbered n job xs) ≡ numbered n job xs
  unfolding later_than numbered
  later_than-all n k job [] h = refl
  later_than-all n k job (x ∷ xs) h =
      let e : ltb k (suc n) ≡ true = ground arith in
      rw e (ap (λ r. event_at (suc n) job x ∷ r) (later_than-all (suc n) k job xs (omega arith)))

  later_than-numbered :
      (n k : ℕ) (job : Str) (xs : List (Emission P))
      → n ≤ k
      → later_than k (numbered n job xs) ≡ drop (k - n) (numbered n job xs)
  unfolding later_than numbered
  later_than-numbered n k job [] h = sym (drop-nil (k - n))
  later_than-numbered n k job (x ∷ xs) h = elim (Bool-cases (ltb k (suc n))) [
    | inl at_end ↦
        let e : k - n ≡ 0 = ground arith in
        later_than-all n k job (x ∷ xs) (ground arith)
        ∙ ap (λ (d : ℕ). drop d (numbered n job (x ∷ xs))) (sym e)
    | inr passed ↦
        let e : k - n ≡ suc (k - suc n) = ground arith in
        rw passed (
          later_than-numbered (suc n) k job xs (ground arith)
          ∙ ap (λ (d : ℕ). drop d (event_at (suc n) job x ∷ numbered (suc n) job xs)) (sym e))
  ]

  -- The emitter holds the events of the emissions so far, job by job, and has counted them.
  abbrev Holds : List (Emission P) → EventEmitter P → Type 0
  Holds ms em =
      (j : Str)
      → (or_empty (lookup j em.buffer.buffers) ≡ numbered 0 j (of_job j ms))
        × (count_of (lookup j em.counters) ≡ length (of_job j ms))

  -- The emitter after one more emission.
  abbrev after_emit : Emission P → EventEmitter P → EventEmitter P
  after_emit m em =
      let n = suc (count_of (lookup m.job_id em.counters)) in
      let events = or_empty (lookup m.job_id em.buffer.buffers) ++ event_at n m.job_id m ∷ [] in
      record {
        counters = insert m.job_id n em.counters;
        buffer = record {
          retention_seconds = em.buffer.retention_seconds;
          buffers = insert m.job_id events em.buffer.buffers;
          terminal_times =
              if is_terminal m.type
              then insert m.job_id m.now em.buffer.terminal_times
              else em.buffer.terminal_times;
        };
      }

  emit-Holds :
      (ms : List (Emission P)) (m : Emission P) (em : EventEmitter P)
      → Holds ms em
      → emit m.job_id m.type m.payload m.now em ≡ some (after_emit m em)
  unfolding emit take_id append
  emit-Holds ms m em h =
      let n = count_of (lookup m.job_id em.counters) in
      let fits : reaches (suc n) (or_empty (lookup m.job_id em.buffer.buffers)) ≡ false =
        ap (reaches (suc n)) (h m.job_id).0
        ∙ reaches-numbered 0 (suc n) m.job_id (of_job m.job_id ms)
            (omega (arith, (h m.job_id).1)) in
      rw fits

  after_emit-Holds :
      (ms : List (Emission P)) (m : Emission P) (em : EventEmitter P)
      → Holds ms em
      → Holds (ms ++ m ∷ []) (after_emit m em)
  after_emit-Holds ms m em h j =
      let n = suc (count_of (lookup m.job_id em.counters)) in
      let events = or_empty (lookup m.job_id em.buffer.buffers) ++ event_at n m.job_id m ∷ [] in
      let split = of_job-append j ms (m ∷ []) in
      elim (Bool-cases (str_eq m.job_id j)) [
        | inr other ↦
            let same : of_job j (ms ++ m ∷ []) ≡ of_job j ms =
              split ∙ (unfold of_job in rw other (append-nil (of_job j ms))) in
            let kept : lookup j (insert m.job_id events em.buffer.buffers)
                ≡ lookup j em.buffer.buffers =
              lookup-insert m.job_id j events em.buffer.buffers ∙ rw other in
            let counts : lookup j (insert m.job_id n em.counters) ≡ lookup j em.counters =
              lookup-insert m.job_id j n em.counters ∙ rw other in
            (
              ap or_empty kept ∙ (h j).0 ∙ ap (numbered 0 j) (sym same),
              ap count_of counts ∙ (h j).1 ∙ ap length (sym same),
            )
        | inl mine ↦
            let q : m.job_id ≡ j = (str_eq_iff m.job_id j).0 mine in
            let more : of_job j (ms ++ m ∷ []) ≡ of_job j ms ++ m ∷ [] =
              split ∙ (unfold of_job in rw mine) in
            let counted : count_of (lookup m.job_id em.counters) ≡ length (of_job j ms) =
              ap (λ k. count_of (lookup k em.counters)) q ∙ (h j).1 in
            let put : lookup j (insert m.job_id events em.buffer.buffers) ≡ some events =
              lookup-insert m.job_id j events em.buffer.buffers ∙ rw mine in
            let counts : lookup j (insert m.job_id n em.counters) ≡ some n =
              lookup-insert m.job_id j n em.counters ∙ rw mine in
            (
              ap or_empty put
                  ∙ ap (λ es. es ++ event_at n m.job_id m ∷ [])
                      (ap (λ k. or_empty (lookup k em.buffer.buffers)) q ∙ (h j).0)
                  ∙ ap (λ k. numbered 0 j (of_job j ms) ++ event_at n k m ∷ []) q
                  ∙ ap (λ (k : ℕ). numbered 0 j (of_job j ms) ++ event_at k j m ∷ [])
                      (let e : n ≡ suc (0 + length (of_job j ms)) = omega (arith, counted) in e)
                  ∙ sym (numbered-snoc 0 j (of_job j ms) m)
                  ∙ ap (numbered 0 j) (sym more),
              ap count_of counts
                  ∙ omega (arith, counted, ap length more, length-append (of_job j ms) (m ∷ [])),
            )
      ]

  emit_all-Holds :
      (before ms : List (Emission P)) (em : EventEmitter P)
      → Holds before em
      → (end : EventEmitter P) × (emit_all ms em ≡ some end) × Holds (before ++ ms) end
  unfolding emit_all
  emit_all-Holds before [] em h = (em, refl, subst (λ xs. Holds xs em) (sym (append-nil before)) h)
  emit_all-Holds before (m ∷ ms) em h =
      let (end, runs, holds) =
        emit_all-Holds (before ++ m ∷ []) ms (after_emit m em) (after_emit-Holds before m em h) in
      (
        end,
        rw (emit_all, emit-Holds before m em h) runs,
        subst (λ xs. Holds xs end) (append_assoc before (m ∷ []) ms) holds,
      )

  abbrev pub fresh_emitter : ℕ → EventEmitter P
  fresh_emitter retention = record {
    buffer = record { retention_seconds = retention; buffers = []; terminal_times = [] };
    counters = [];
  }

  -- From a fresh emitter, calls of `emit` one after the other raise nothing, and `replay` of a job then
  -- gives the events of its emissions in order, numbered from 1, less the first k for a last id of k:
  -- no event twice, none missed, and none of another job.
  pub replay-emit_all :
      (retention k : ℕ) (job : Str) (ms : List (Emission P))
      → (end : EventEmitter P) × (emit_all ms (fresh_emitter retention) ≡ some end)
        × (replay job (some k) end.buffer ≡ drop k (numbered 0 job (of_job job ms)))
  unfolding replay
  replay-emit_all retention k job ms =
      let (end, runs, holds) =
        emit_all-Holds [] ms (fresh_emitter retention)
          (λ j. (unfold of_job numbered in refl, unfold of_job in refl)) in
      (
        end,
        runs,
        ap (later_than k) (holds job).0
            ∙ later_than-numbered 0 k job (of_job job ms) (omega arith)
            ∙ ap (λ (d : ℕ). drop d (numbered 0 job (of_job job ms)))
                (let e : k - 0 ≡ k = omega arith in e),
      )
