-- ===== src/Metering/Level.antt =====
-- The level of the buffer, the events it keeps, and the audit event at 80 percent.
use verisearch.Prelude.{
  ℕ, min, suc, ◌+◌, ◌≤◌, Bool, true, false, not, ◌&&◌, List, [], ◌∷◌, ◌++◌, append-nil,
  append_assoc, length, length-append, last, if◌then◌else◌, if_property, ◌≡◌, refl, sym, ap, subst,
  ◌∙◌, arith,
}
use verisearch.Prelude.Deque.{
  append_bounded, append_bounded-eq-last, length-last, last-append, last-whole,
  length-append_bounded,
}
use verisearch.Metering.Buffer.{Buffer, Degraded, is_degraded, emit_degraded_audit, buffer_event}

abbrev pub bit : Bool → ℕ
bit b = if b then 1 else 0

-- The flag stays right where the level does not cross the line.
flag_kept :
    (f : Bool) (n k m : ℕ)
    → k ≤ n
    → m ≡ min n (suc k)
    → f ≡ is_degraded n k
    → (not f && is_degraded n m) ≡ false
    → f ≡ is_degraded n m
flag_kept true n k m h e g c = ground arith
flag_kept false n k m h e g c = sym c

flag_unset : (f c : Bool) → (not f && c) ≡ true → f ≡ false
flag_unset true c e = cc
flag_unset false c e = refl

flag_due : (f c : Bool) → (not f && c) ≡ true → true ≡ c
flag_due true c e = cc
flag_due false c e = sym e

module _ {E : Type 0} where
  -- `buffer_event` for each event in turn.
  unfoldable pub buffer_all : (Degraded → Bool) → List E → Buffer E → Buffer E
  unfolding buffer_event
  buffer_all emits [] b = b
  buffer_all emits (e ∷ es) b = buffer_all emits es (buffer_event emits e b)

  -- The buffer after an event was appended.
  abbrev appended : E → Buffer E → Buffer E
  appended e b = record b { events = append_bounded b.max_size b.events e }

  abbrev crosses : E → Buffer E → Bool
  crosses e b =
      not b.audit_emitted && is_degraded b.max_size (length (append_bounded b.max_size b.events e))

  -- What holds of the three ways that `buffer_event` ends holds of it.
  buffer_event-cases {κ} :
      (P : Buffer E → Type κ) (emits : Degraded → Bool) (e : E) (b : Buffer E)
      → (crosses e b ≡ false → P (appended e b))
      → (crosses e b ≡ true
          → (d : Degraded)
          → P (record (appended e b) { audit_emitted = true; audits = b.audits ++ d ∷ [] }))
      → (crosses e b ≡ true
          → (d : Degraded) → emits d ≡ false
          → P (record (appended e b) { audit_emitted = true }))
      → P (buffer_event emits e b)
  unfolding buffer_event emit_degraded_audit
  buffer_event-cases P emits e b quiet told silent =
      let c : Buffer E = record (appended e b) { audit_emitted = true } in
      let d : Degraded = record { buffer_size = length c.events; buffer_max_size = c.max_size } in
      if_property P (crosses e b) (emit_degraded_audit emits c) (appended e b)
        (λ t.
          if_property P (emits d) (record c { audits = b.audits ++ d ∷ [] }) c (λ _. told t d)
            (λ f. silent t d f))
        quiet

  pub buffer_event-events :
      (emits : Degraded → Bool) (e : E) (b : Buffer E)
      → (buffer_event emits e b).events ≡ append_bounded b.max_size b.events e
  buffer_event-events emits e b =
      buffer_event-cases (λ c. c.events ≡ append_bounded b.max_size b.events e) emits e b
        (λ _. refl) (λ _ _. refl) (λ _ _ _. refl)

  buffer_event-max_size :
      (emits : Degraded → Bool) (e : E) (b : Buffer E)
      → (buffer_event emits e b).max_size ≡ b.max_size
  buffer_event-max_size emits e b =
      buffer_event-cases (λ c. c.max_size ≡ b.max_size) emits e b (λ _. refl) (λ _ _. refl)
        (λ _ _ _. refl)

  -- Events are buffered without a flush: the buffer holds the most recent ones, up to its size.
  pub buffer_all-events :
      (emits : Degraded → Bool) (es : List E) (b : Buffer E)
      → length b.events ≤ b.max_size
      → (buffer_all emits es b).events ≡ last b.max_size (b.events ++ es)
  unfolding buffer_all
  buffer_all-events emits [] b h =
      sym (ap (last b.max_size) (append-nil b.events) ∙ last-whole b.max_size b.events h)
  buffer_all-events emits (e ∷ es) b h =
      let n : ℕ = b.max_size in
      let c : Buffer E = buffer_event emits e b in
      let one : c.events ≡ last n (b.events ++ e ∷ []) =
        buffer_event-events emits e b ∙ append_bounded-eq-last n b.events e h in
      let same : c.max_size ≡ n = buffer_event-max_size emits e b in
      let short : length c.events ≤ n =
        subst (λ ys. length ys ≤ n) (sym one) (length-last n (b.events ++ e ∷ [])) in
      buffer_all-events emits es c (subst (λ k. length c.events ≤ k) (sym same) short)
      ∙ ap (λ k. last k (c.events ++ es)) same
      ∙ ap (λ ys. last n (ys ++ es)) one
      ∙ last-append n (b.events ++ e ∷ []) es
      ∙ ap (last n) (append_assoc b.events (e ∷ []) es)

  -- The flag says that the level is at 80 percent or more.
  pub record IsLevelled (b : Buffer E) : Type 0 where
    pub within : length b.events ≤ b.max_size
    pub flag : b.audit_emitted ≡ is_degraded b.max_size (length b.events)

  -- The audit events and the flag go together, where every audit event is taken.
  abbrev Steady : Buffer E → Buffer E → Type 0
  Steady b c =
      IsLevelled c × (length c.audits + bit b.audit_emitted ≡ length b.audits + bit c.audit_emitted)

  buffer_event-Steady :
      (e : E) (b : Buffer E) → IsLevelled b → Steady b (buffer_event (λ _. true) e b)
  buffer_event-Steady e b h =
      buffer_event-cases (Steady b) (λ _. true) e b
        (λ still. (
          record {
            within = fits;
            flag =
                flag_kept b.audit_emitted b.max_size (length b.events)
                  (length (appended e b).events) h.within size h.flag still;
          },
          refl,
        ))
        (λ now d. (
          record {
            within = fits;
            flag =
                flag_due b.audit_emitted (is_degraded b.max_size (length (appended e b).events))
                  now;
          },
          one_event d (
              flag_unset b.audit_emitted (is_degraded b.max_size (length (appended e b).events))
                now),
        ))
        (λ _ _ f. absurd (let q : true ≡ false = f in cc))
    where
      size : length (appended e b).events ≡ min b.max_size (suc (length b.events))
      size = length-append_bounded b.max_size b.events e h.within

      fits : length (appended e b).events ≤ b.max_size
      fits = omega (arith, size)

      one_event :
          (d : Degraded)
          → b.audit_emitted ≡ false
          → length (b.audits ++ d ∷ []) + bit b.audit_emitted ≡ length b.audits + bit true
      one_event d u = rw u (omega (arith, length-append b.audits (d ∷ [])))

  -- From a level at which the flag is right, where every audit event is taken, buffering emits one audit event if the level comes to
  -- 80 percent from below, and none otherwise, however many events come; the flag stays right.
  pub buffer_all-audits :
      (es : List E) (b : Buffer E)
      → IsLevelled b
      → IsLevelled (buffer_all (λ _. true) es b)
        × (length (buffer_all (λ _. true) es b).audits + bit b.audit_emitted
            ≡ length b.audits + bit (buffer_all (λ _. true) es b).audit_emitted)
  unfolding buffer_all
  buffer_all-audits [] b h = (h, refl)
  buffer_all-audits (e ∷ es) b h =
      let c : Buffer E = buffer_event (λ _. true) e b in
      let first = buffer_event-Steady e b h in
      let more = buffer_all-audits es c first.0 in
      (
        more.0,
        total (length (buffer_all (λ _. true) es c).audits) (length b.audits) (length c.audits)
            (bit b.audit_emitted) (bit c.audit_emitted)
            (bit (buffer_all (λ _. true) es c).audit_emitted) more.1 first.1,
      )
    where
      total : (x y z p q r : ℕ) → x + q ≡ z + r → z + p ≡ y + q → x + p ≡ y + r
      total x y z p q r e f = omega arith
