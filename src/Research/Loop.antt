-- ===== src/Research/Loop.antt =====
-- What the loop of Research/Executor keeps: the stream of its job can take the next event and is not
-- over, and the counters of the tracker are within its budget.
use verisearch.Prelude.{
  ℕ, suc, ◌+◌, ◌≤◌, Bool, true, false, Option, none, some, List, [], ◌∷◌, leb, length, Str, ◌≡◌,
  refl, sym, ap, subst, ◌∙◌, arith, Bool-cases, Option-cases, inl, inr,
}
use verisearch.Research.Events.{
  EventType, step_started, step_completed, citation, report_chunk, is_terminal,
}
use verisearch.Research.Budget.{BudgetConfig, BudgetTracker, BudgetExceededError, check}
use verisearch.Research.Planner.{PlanStep, ResearchPlan, Text}
use verisearch.Research.Execution.{
  Payload, cited, chunk, Doc, ResearchCitation, World, Execution, Outcome, returned, exceeded,
  raised, Action, ◌>>=◌, and_then, modify, get, check_budget, send,
}
use verisearch.Research.Tools.{execute_step}
use verisearch.Research.Executor.{
  step_recorded, cited_more, retrieved_more, reported_more, send_citations, send_chunk, run_step,
  run_steps, execute_plan,
}
use verisearch.Research.Posts.{events_of, event, post-Fits, Begun, Begun-snoc, Live}

-- The counters leave room for `a` steps and `b` tool calls.
abbrev pub Room : BudgetConfig → ℕ → ℕ → BudgetTracker → Type 0
Room c a b t =
    (t.config ≡ c) × (t.steps_used + a ≤ c.max_steps) × (t.tool_calls_used + b ≤ c.max_tool_calls)

abbrev pub Good : Str → BudgetConfig → ℕ → ℕ → Execution → Type 0
Good job c a b s = Live job s.emitter × Room c a b s.tracker

-- An action that ends in a good state: by returning, or by an exceeded budget.
abbrev pub Ends : {A : Type 0} → Str → BudgetConfig → ℕ → ℕ → Outcome A × Execution → Type 0
Ends job c a b (returned x, s) = Good job c a b s
Ends job c a b (exceeded e, s) = Good job c 0 0 s
Ends job c a b (raised, s) = ⊥

module _ (job : Str) (c : BudgetConfig) where
  record Keeps {A : Type 0} (a b a' b' : ℕ) (m : Action A) : Type 0 where
    pub run : (s : Execution) → Good job c a b s → Ends job c a' b' (m s)

  Ends-bind :
      {A B : Type 0} (a b a' b' : ℕ) (r : Outcome A × Execution) (f : A → Action B)
      → Ends job c a b r
      → ((x : A) → Keeps a b a' b' (f x))
      → Ends job c a' b' (and_then r f)
  Ends-bind a b a' b' (returned x, s) f h k = (k x).run s h
  Ends-bind a b a' b' (exceeded e, s) f h k = h
  Ends-bind a b a' b' (raised, s) f h k = absurd h

  Keeps-bind :
      {A B : Type 0} (a b a' b' a'' b'' : ℕ) (m : Action A) (f : A → Action B)
      → Keeps a b a' b' m
      → ((x : A) → Keeps a' b' a'' b'' (f x))
      → Keeps a b a'' b'' (m >>= f)
  unfolding ◌>>=◌
  Keeps-bind a b a' b' a'' b'' m f h k = record {
    run = λ s g. Ends-bind a' b' a'' b'' (m s) f (h.run s g) k;
  }

  Room-more :
      (t : BudgetTracker)
      → Room c 0 0 t
      → leb t.config.max_steps t.steps_used ≡ false
      → leb t.config.max_tool_calls t.tool_calls_used ≡ false
      → Room c 1 1 t
  Room-more t (same, p, q) steps calls =
      let e : leb c.max_steps t.steps_used ≡ false =
        ap (λ b. leb b.max_steps t.steps_used) (sym same) ∙ steps in
      let f : leb c.max_tool_calls t.tool_calls_used ≡ false =
        ap (λ b. leb b.max_tool_calls t.tool_calls_used) (sym same) ∙ calls in
      (same, room_of _ _ e, room_of _ _ f)
    where
      room_of : (m n : ℕ) → leb m n ≡ false → n + 1 ≤ m
      room_of m n h = ground arith

  abbrev passes : Option BudgetExceededError → Bool
  passes none = true
  passes (some e) = false

  check-Room :
      (elapsed : ℕ) (t : BudgetTracker) → Room c 0 0 t → check elapsed t ≡ none → Room c 1 1 t
  unfolding check
  check-Room elapsed t g h =
      let p : passes (check elapsed t) ≡ true = ap passes h in
      elim (Bool-cases (leb t.config.max_steps t.steps_used)) [
        | inl over ↦ let e : passes (check elapsed t) ≡ false = rw over in cc
        | inr steps ↦ elim (Bool-cases (leb t.config.max_duration_ms elapsed)) [
          | inl late ↦ let e : passes (check elapsed t) ≡ false = rw (steps, late) in cc
          | inr timely ↦ elim (Bool-cases (leb t.config.max_tool_calls t.tool_calls_used)) [
            | inl over ↦ let e : passes (check elapsed t) ≡ false = rw (steps, timely, over) in cc
            | inr calls ↦ Room-more t g steps calls
          ]
        ]
      ]

  check_budget-Keeps : (elapsed : ℕ) → Keeps 0 0 1 1 (check_budget elapsed)
  unfolding check_budget
  check_budget-Keeps elapsed = record {
    run = λ s g. elim (Option-cases (check elapsed s.tracker)) [
      | inl passed ↦
          let e : check_budget elapsed s ≡ (returned tt, s) = rw (check_budget, passed) in
          subst (Ends job c 1 1) (sym e) (g.0, check-Room elapsed s.tracker g.1 passed)
      | inr (x, stopped) ↦
          let e : check_budget elapsed s ≡ (exceeded x, s) = rw (check_budget, stopped) in
          subst (Ends job c 1 1) (sym e) g
    ];
  }

  send-Keeps :
      (a b : ℕ) (kind : EventType) (payload : Payload) (now : ℕ)
      → is_terminal kind ≡ false
      → Keeps a b a b (send job kind payload now)
  unfolding send
  send-Keeps a b kind payload now going = record {
    run = λ s g.
        let (em', sent, fits, held) = post-Fits job kind payload now s.emitter g.0.0 in
        let begun : Begun (events_of job em') =
          subst Begun (sym held)
            (Begun-snoc (events_of job s.emitter) (event job kind payload s.emitter) g.0.1 going) in
        rw sent ((fits, begun), g.1);
  }

  modify-Keeps :
      (a b a' b' : ℕ) (f : Execution → Execution)
      → ((s : Execution) → Good job c a b s → Good job c a' b' (f s))
      → Keeps a b a' b' (modify f)
  modify-Keeps a b a' b' f h = record { run = h }

  execute_step-Keeps :
      (text : Text) (world : World) (i : ℕ) (step : PlanStep) (docs : List Doc)
      → Keeps 1 1 1 0 (execute_step text world i step docs)
  unfolding execute_step ◌>>=◌
  execute_step-Keeps text world i step docs = record {
    run = λ s g. (g.0, (g.1.0, g.1.1, omega (arith, g.1.2)));
  }

  send_citations-Keeps :
      (now : ℕ) (cs : List ResearchCitation) → Keeps 0 0 0 0 (send_citations job now cs)
  unfolding send_citations
  send_citations-Keeps now [] = record { run = λ s g. g }
  send_citations-Keeps now (x ∷ cs) =
      Keeps-bind 0 0 0 0 0 0 _ _ (send-Keeps 0 0 citation (cited x) now refl)
        (λ _. send_citations-Keeps now cs)

  get-Keeps : (a b : ℕ) → Keeps a b a b get
  get-Keeps a b = record { run = λ s g. g }

  send_chunk-Keeps : (now : ℕ) (text : Str) → Keeps 0 0 0 0 (send_chunk job now text)
  unfolding send_chunk
  send_chunk-Keeps now [] = record { run = λ s g. g }
  send_chunk-Keeps now (x ∷ xs) =
      Keeps-bind 0 0 0 0 0 0 _ _ (modify-Keeps 0 0 0 0 (reported_more (x ∷ xs)) (λ s g. g)) λ _.
        Keeps-bind 0 0 0 0 0 0 _ _ (get-Keeps 0 0)
          λ s. send-Keeps 0 0 report_chunk (chunk (x ∷ xs) (length s.report_chunks)) now refl

  module _ (text : Text) (world : World) where
    recorded : (s : Execution) → Good job c 1 0 s → Good job c 0 0 (step_recorded s)
    recorded s (live, (same, p, q)) = (live, (same, omega (arith, p), q))

    run_step-Keeps : (i : ℕ) (step : PlanStep) → Keeps 0 0 0 0 (run_step text world job i step)
    unfolding run_step
    run_step-Keeps i step = Keeps-bind 0 0 1 1 0 0 _ _ (check_budget-Keeps (world.elapsed i)) λ _.
        Keeps-bind 1 1 1 1 0 0 _ _ (send-Keeps 1 1 step_started _ (world.now i) refl) λ _.
          Keeps-bind 1 1 1 1 0 0 _ _ (get-Keeps 1 1) λ s.
            Keeps-bind 1 1 1 0 0 0 _ _ (execute_step-Keeps text world i step s.retrieved_docs)
              λ result.
                Keeps-bind 1 0 0 0 0 0 _ _ (modify-Keeps 1 0 0 0 step_recorded recorded) λ _.
                  Keeps-bind 0 0 0 0 0 0 _ _
                    (modify-Keeps 0 0 0 0 (cited_more result.citations) (λ s g. g))
                    λ _.
                      Keeps-bind 0 0 0 0 0 0 _ _
                        (send_citations-Keeps (world.now i) result.citations)
                        λ _.
                          Keeps-bind 0 0 0 0 0 0 _ _
                            (modify-Keeps 0 0 0 0 (retrieved_more result.results) (λ s g. g))
                            λ _.
                              Keeps-bind 0 0 0 0 0 0 _ _
                                (send_chunk-Keeps (world.now i) result.text)
                                λ _. send-Keeps 0 0 step_completed _ (world.now i) refl

    run_steps-Keeps :
        (i : ℕ) (steps : List PlanStep) → Keeps 0 0 0 0 (run_steps text world job i steps)
    unfolding run_steps
    run_steps-Keeps i [] = record { run = λ s g. g }
    run_steps-Keeps i (step ∷ steps) =
        Keeps-bind 0 0 0 0 0 0 _ _ (run_step-Keeps i step) (λ _. run_steps-Keeps (suc i) steps)

    -- From a good state, the executor ends in a good one.
    pub execute_plan-Ends :
        (plan : ResearchPlan) (s : Execution)
        → Good job c 0 0 s
        → Ends job c 0 0 (execute_plan text world job plan s)
    unfolding execute_plan
    execute_plan-Ends plan =
        (Keeps-bind 0 0 0 0 0 0 _ _ (run_steps-Keeps 0 plan.steps)
          λ _. Keeps-bind 0 0 0 0 0 0 _ _ (get-Keeps 0 0) λ s. record { run = λ t g. g }).run
