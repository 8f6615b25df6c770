-- ===== src/Metering/Race.antt =====
-- An event that arrives while `flush` awaits the insertion of the front event: between
-- `self._buffer[0]` and `self._buffer.popleft()` the coroutine gives way, and `buffer_event` takes no lock.
use verisearch.Prelude.{
  ℕ, suc, ◌+◌, ◌≤◌, Bool, true, false, List, [], ◌∷◌, ◌++◌, ltb, length, length-append,
  if◌then◌else◌, ◌≡◌, sym, subst, ap, ◌∙◌, arith, Bool-cases, inl, inr,
}
use verisearch.Prelude.Deque.{append_bounded, drop_first}
use verisearch.Metering.Buffer.{Buffer, Degraded, buffer_event, pop_written}
use verisearch.Metering.Level.{buffer_event-events}

-- Where the buffer has room, `popleft` removes the event that was written. Where it is full, the new
-- event has already pushed that one out, and `popleft` removes the next one, which was not written.
pub pop_written-buffer_event :
    {E : Type 0} (emits : Degraded → Bool) (written next new : E) (es : List E) (b : Buffer E)
    → b.events ≡ written ∷ next ∷ es
    → length b.events ≤ b.max_size
    → (pop_written (buffer_event emits new b)).events
      ≡ (if ltb (length b.events) b.max_size then next ∷ es ++ new ∷ [] else es ++ new ∷ [])
unfolding pop_written append_bounded
pop_written-buffer_event emits written next new es b front h =
    ap drop_first (buffer_event-events emits new b)
    ∙ ap (λ xs. drop_first (append_bounded b.max_size xs new)) front
    ∙ popped b.max_size (subst (λ xs. length xs ≤ b.max_size) front h)
    ∙ ap (λ xs. if ltb (length xs) b.max_size then next ∷ es ++ new ∷ [] else es ++ new ∷ [])
        (sym front)
  where
    roomy :
        (n m : ℕ)
        → m ≡ length es + 1
        → ltb (suc (suc (length es))) n ≡ true
        → ltb n (suc (suc m)) ≡ false
    roomy n m e r = ground arith

    crowded :
        (n m : ℕ)
        → m ≡ length es + 1
        → ltb (suc (suc (length es))) n ≡ false
        → suc (suc (length es)) ≤ n
        → ltb n (suc (suc m)) ≡ true
    crowded n m e r k = ground arith

    popped :
        (n : ℕ)
        → length (written ∷ next ∷ es) ≤ n
        → drop_first (append_bounded n (written ∷ next ∷ es) new)
          ≡ (if ltb (length (written ∷ next ∷ es)) n then next ∷ es ++ new ∷ [] else es ++ new ∷ [])
    popped n k = elim (Bool-cases (ltb (length (written ∷ next ∷ es)) n)) [
      | inl room ↦
          let fits : ltb n (length (written ∷ next ∷ es ++ new ∷ [])) ≡ false =
            roomy n (length (es ++ new ∷ [])) (length-append es (new ∷ [])) room in
          rw (room, fits)
      | inr full ↦
          let over : ltb n (length (written ∷ next ∷ es ++ new ∷ [])) ≡ true =
            crowded n (length (es ++ new ∷ [])) (length-append es (new ∷ [])) full k in
          rw (full, over)
    ]
