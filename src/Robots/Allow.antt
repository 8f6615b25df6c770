-- ===== src/Robots/Allow.antt =====
-- What `Allow` lines do in `_parse_robots_txt`, and the patterns of the rules that it returns.
use verisearch.Prelude.{
  false, ◌&&◌, ◌||◌, not, List, [], ◌∷◌, ◌++◌, map, if◌then◌else◌, Str, is_empty, ◌≡◌, refl, ap,
  arith, All, All-append, ◌⊎◌, inl, inr, Option-cases, Bool-cases,
}
use verisearch.Robots.Rules.{Rule}
use verisearch.Robots.Parse.{
  Host, Progress, Directive, user_agent, disallow, allow, crawl_delay, other, step, steps,
  final_rules, start, read_line, parse_robots_txt, group_rules, default_agents,
}

abbrev NotEmpty : Str → Type 0
NotEmpty s = is_empty s ≡ false

-- No pattern of a rule is empty.
abbrev pub HasPatterns : List Rule → Type 0
HasPatterns = All (λ rule. All NotEmpty rule.1)

module _ {F : Type 0} (host : Host F) where
  record IsClean (p : Progress F) : Type 0 where
    saved : HasPatterns p.rules
    current : All NotEmpty p.disallows

  group_rules-HasPatterns :
      (agents disallows : List Str)
      → All NotEmpty disallows
      → HasPatterns (group_rules host agents disallows)
  group_rules-HasPatterns [] disallows h = tt
  group_rules-HasPatterns (a ∷ agents) disallows h = (h, group_rules-HasPatterns agents disallows h)

  flushed :
      (p : Progress F) → IsClean p → HasPatterns (p.rules ++ group_rules host p.agents p.disallows)
  flushed p h =
      All-append _ p.rules (group_rules host p.agents p.disallows) h.saved
        (group_rules-HasPatterns p.agents p.disallows h.current)

  step-IsClean : (p : Progress F) (d : Directive) → IsClean p → IsClean (step host p d)
  unfolding step
  step-IsClean p (user_agent v) h =
      elim (Bool-cases
        (not (is_empty p.agents) && (not (is_empty p.disallows) || not (is_empty p.allows)))) [
          | inl full ↦ rw full (record { saved = flushed p h; current = tt })
          | inr going ↦ rw going (record { saved = h.saved; current = h.current })
        ]
  step-IsClean p (disallow v) h = elim (Bool-cases (is_empty v)) [
    | inl blank ↦ rw blank (record { saved = h.saved; current = h.current })
    | inr good ↦ rw good (record {
      saved = h.saved;
      current = All-append NotEmpty p.disallows (v ∷ []) h.current (good, tt);
    })
  ]
  step-IsClean p (allow v) h = record { saved = h.saved; current = h.current }
  step-IsClean p (crawl_delay v) h = elim (Option-cases (host.float v)) [
    | inl bad ↦ rw (bad, step) h
    | inr (d, good) ↦ rw (good, step) (record { saved = h.saved; current = h.current })
  ]
  step-IsClean p other h = h

  steps-IsClean : (p : Progress F) (ds : List Directive) → IsClean p → IsClean (steps host p ds)
  unfolding steps
  steps-IsClean p [] h = h
  steps-IsClean p (d ∷ ds) h = steps-IsClean (step host p d) ds (step-IsClean p d h)

  -- No rule that is parsed has an empty pattern.
  pub parse_robots_txt-HasPatterns : (content : Str) → HasPatterns (parse_robots_txt host content).0
  unfolding parse_robots_txt final_rules
  parse_robots_txt-HasPatterns content =
      let p = steps host (start host) (map (read_line host) (host.splitlines content)) in
      let h : IsClean p =
        steps-IsClean (start host) (map (read_line host) (host.splitlines content))
          (record { saved = tt; current = tt }) in
      elim (Bool-cases (not (is_empty p.agents) && not (is_empty p.disallows))) [
        | inl full ↦ rw full (flushed p h)
        | inr none_left ↦ rw none_left h.saved
      ]

  disallow_pending :
      {A : Type 0} (v : Str) (disallows : List Str)
      → A ⊎ (is_empty disallows ≡ false)
      → A ⊎ (is_empty (if is_empty v then disallows else disallows ++ v ∷ []) ≡ false)
  disallow_pending v disallows (inl a) = inl a
  disallow_pending [] disallows (inr h) = inr h
  disallow_pending (c ∷ v) [] (inr h) = inr refl
  disallow_pending (c ∷ v) (d ∷ disallows) (inr h) = inr refl

  allow_pending :
      {B : Type 0} (v : Str) {xs ys : List Str} → (xs ≡ ys) ⊎ B → (xs ++ v ∷ [] ≡ ys ++ v ∷ []) ⊎ B
  allow_pending v (inl e) = inl (ap (λ zs. zs ++ (v ∷ [])) e)
  allow_pending v (inr b) = inr b

  -- Two states of the loop that differ in the allowed paths only, behind a disallowed one.
  record SameRules (p q : Progress F) : Type 0 where
    rules : p.rules ≡ q.rules
    agents : p.agents ≡ q.agents
    disallows : p.disallows ≡ q.disallows
    pending : (p.allows ≡ q.allows) ⊎ (is_empty p.disallows ≡ false)

  step-SameRules :
      (p q : Progress F) (d : Directive) → SameRules p q → SameRules (step host p d) (step host q d)
  unfolding step
  step-SameRules p q (user_agent v) h = record {
    rules = ground arith;
    agents = ground arith;
    disallows = ground arith;
    pending = ground arith;
  }
  step-SameRules p q (disallow v) h = record {
    rules = h.rules;
    agents = ap default_agents h.agents;
    disallows = ap (λ ds. if is_empty v then ds else ds ++ (v ∷ [])) h.disallows;
    pending = disallow_pending v p.disallows h.pending;
  }
  step-SameRules p q (allow v) h = record {
    rules = h.rules;
    agents = ap default_agents h.agents;
    disallows = h.disallows;
    pending = allow_pending v h.pending;
  }
  step-SameRules p q (crawl_delay v) h = elim (Option-cases (host.float v)) [
    | inl bad ↦ rw (bad, step) h
    | inr (d, good) ↦
        rw (good, step)
          (record {
            rules = h.rules;
            agents = h.agents;
            disallows = h.disallows;
            pending = h.pending;
          })
  ]
  step-SameRules p q other h = h

  steps-SameRules :
      (p q : Progress F) (ds : List Directive)
      → SameRules p q
      → final_rules host (steps host p ds) ≡ final_rules host (steps host q ds)
  unfolding steps final_rules
  steps-SameRules p q [] h = ground (arith, h.rules, h.agents, h.disallows)
  steps-SameRules p q (d ∷ ds) h =
      steps-SameRules (step host p d) (step host q d) ds (step-SameRules p q d h)

  default_agents_again :
      (agents : List Str) → is_empty agents ≡ false → default_agents agents ≡ agents
  default_agents_again [] h = cc
  default_agents_again (a ∷ agents) h = refl

  -- In a group that names an agent and has a disallowed path, an `Allow` line has no effect: whatever
  -- lines follow, the rules are those of the text without it.
  pub final_rules-allow :
      (p : Progress F) (path : Str) (ds : List Directive)
      → is_empty p.agents ≡ false
      → is_empty p.disallows ≡ false
      → final_rules host (steps host p (allow path ∷ ds)) ≡ final_rules host (steps host p ds)
  unfolding steps
  final_rules-allow p path ds named held = steps-SameRules (step host p (allow path)) p ds (
      unfold step in
      record {
        rules = refl;
        agents = default_agents_again p.agents named;
        disallows = refl;
        pending = inr held;
      })
