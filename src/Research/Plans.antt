-- ===== src/Research/Plans.antt =====
-- The plans that the planner makes.
use verisearch.Prelude.{
  ℕ, ◌≤◌, min, true, false, Option, none, some, List, [], ◌∷◌, leb, ltb, ltb→le, ◌&&◌, is_empty,
  length, length-take, take, Str, ◌≡◌, refl, arith, Bool-cases, inl, inr,
}
use verisearch.Research.Planner.{
  ResearchPlan, validate, Text, StepData, decompose_goal, generate_plan, heuristic_decompose,
  steps_of,
}

decompose_goal-some :
    (text : Text) (most : ℕ) (answer : Option (List StepData)) (goal : Str)
    → is_empty (decompose_goal text most answer goal) ≡ false
unfolding decompose_goal heuristic_decompose steps_of
decompose_goal-some text most none goal = refl
decompose_goal-some text most (some []) goal = refl
decompose_goal-some text most (some (d ∷ ds)) goal = refl

not_empty : {A : Type 0} (xs : List A) → is_empty xs ≡ false → 1 ≤ length xs
not_empty [] h = ground arith
not_empty (x ∷ xs) h = omega arith

in_bounds : (n : ℕ) → 1 ≤ n → n ≤ 32 → (leb 1 n && leb n 32) ≡ true
in_bounds n lower upper = ground arith

cut_bounds : (k n m : ℕ) → 1 ≤ k → 1 ≤ n → m ≡ min (min k 32) n → (1 ≤ m) × (m ≤ k) × (m ≤ 32)
cut_bounds k n m h g e = (omega arith, omega arith, omega arith)

under_bounds : (k n : ℕ) → ltb (min k 32) n ≡ false → (n ≤ k) × (n ≤ 32)
under_bounds k n h = let e : n ≤ min k 32 = ltb→le _ _ h in (omega arith, omega arith)

-- A planner for one step or more makes a plan for every goal and every answer of the language model,
-- well formed or not, or none: it has a step, and as many steps as the planner allows, at most 32.
pub generate_plan-bounds :
    (text : Text) (max_steps : ℕ) (answer : Option (List StepData)) (job_id goal : Str)
    → 1 ≤ max_steps
    → (plan : ResearchPlan) × (generate_plan text max_steps answer job_id goal ≡ some plan)
      × (plan.job_id ≡ job_id)
      × (1 ≤ length plan.steps)
      × (length plan.steps ≤ max_steps)
      × (length plan.steps ≤ 32)
unfolding generate_plan
generate_plan-bounds text max_steps answer job_id goal positive =
    let most = min max_steps 32 in
    let steps = decompose_goal text most answer goal in
    let filled = decompose_goal-some text most answer goal in
    let some_step : 1 ≤ length steps = not_empty steps filled in
    elim (Bool-cases (ltb most (length steps))) [
      | inl over ↦
          let plan : ResearchPlan = record { job_id = job_id; steps = take most steps } in
          let (lower, fits, upper) =
            cut_bounds max_steps (length steps) (length (take most steps)) positive some_step
              (length-take most steps) in
          let valid : validate plan ≡ true = in_bounds (length (take most steps)) lower upper in
          (plan, rw (filled, over, valid), refl, lower, fits, upper)
      | inr under ↦
          let plan : ResearchPlan = record { job_id = job_id; steps = steps } in
          let (fits, upper) = under_bounds max_steps (length steps) under in
          let valid : validate plan ≡ true = in_bounds (length steps) some_step upper in
          (plan, rw (filled, under, valid), refl, some_step, fits, upper)
    ]
