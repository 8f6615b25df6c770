-- ===== src/Research/Planner.antt =====
-- backend/research_agent/planner.py: `ResearchPlanner`, with `PlanStep` and `ResearchPlan` of
-- models.py. What `_llm_decompose` reads from the language model is a parameter, as are the ids of
-- the steps and the decimal text of a number.
use verisearch.Prelude.{
  ℕ, zero, suc, ◌+◌, ◌/◌, min, ◌&&◌, Bool, Option, none, some, List, [], ◌∷◌, ◌++◌, leb, ltb,
  if◌then◌else◌, is_empty, length, take, Str, str_eq, codes,
}

-- `StepType`
pub data StepType : Type 0 where
  sub_query retrieval read synthesis : StepType

-- `PlanStep`. The only key of `inputs` is "goal".
pub record PlanStep : Type 0 where
  pub step_id : Str
  pub type : StepType
  pub description : Str
  pub goal : Option Str

-- `ResearchPlan`, without its time.
pub record ResearchPlan : Type 0 where
  pub job_id : Str
  pub steps : List PlanStep

-- `ResearchPlan.validate`
abbrev pub validate : ResearchPlan → Bool
validate plan = leb 1 (length plan.steps) && leb (length plan.steps) 32

-- What Python provides.
pub record Text : Type 0 where
  -- The ids of the steps of a plan, one for each place.
  pub uuid : ℕ → Str
  -- `str` of a number.
  pub str : ℕ → Str

-- An element of the list that the language model answers; `none` is a missing key, and a description is
-- a text.
pub record StepData : Type 0 where
  pub type : Option Str
  pub description : Option Str

-- `type_map.get(…)`
unfoldable pub type_map : Option Str → StepType
type_map none = retrieval
type_map (some name) =
    if str_eq name (codes "sub_query")
    then sub_query
    else if str_eq name (codes "read")
    then read
    else if str_eq name (codes "synthesis")
    then synthesis
    else retrieval

abbrev or_blank : Option Str → Str
or_blank none = []
or_blank (some s) = s

module _ (text : Text) where
  open text use {uuid, str}

  -- The loop of `_llm_decompose` over `steps_data`, from the place `i` on.
  unfoldable pub steps_of : ℕ → List StepData → List PlanStep
  unfolding type_map
  steps_of i [] = []
  steps_of i (d ∷ ds) =
      record {
        step_id = uuid i;
        type = type_map d.type;
        description = or_blank d.description;
        goal = none;
      }
      ∷ steps_of (suc i) ds

  -- The loop of `_heuristic_decompose`: the rounds from round `i` on, `n` of them.
  unfoldable pub rounds : ℕ → ℕ → List PlanStep
  rounds i zero = []
  rounds i (suc n) =
      record {
        step_id = uuid (1 + (i + i));
        type = retrieval;
        description = codes "Retrieve documents for sub-query " ++ str (suc i);
        goal = none;
      }
      ∷ record {
        step_id = uuid (2 + (i + i));
        type = read;
        description = codes "Analyze retrieved documents from round " ++ str (suc i);
        goal = none;
      }
      ∷ rounds (suc i) n

  abbrev pub num_retrieval_rounds : ℕ → ℕ → ℕ
  num_retrieval_rounds max_steps goal_length =
      if ltb goal_length 50
      then 1
      else if ltb goal_length 200
      then 2
      else if ltb goal_length 500
      then 3
      else min 4 (max_steps / 4)

  -- `_heuristic_decompose`, for the `_max_steps` of the planner.
  unfoldable pub heuristic_decompose : ℕ → Str → List PlanStep
  unfolding rounds
  heuristic_decompose max_steps research_goal =
      let n = num_retrieval_rounds max_steps (length research_goal) in
      record {
        step_id = uuid 0;
        type = sub_query;
        description = codes "Decompose research goal into sub-queries";
        goal = some (take 500 research_goal);
      }
      ∷ (rounds 0 n
          ++ record {
            step_id = uuid (1 + (n + n));
            type = synthesis;
            description = codes "Synthesize findings into final report";
            goal = none;
          }
            ∷ [])

  -- `_decompose_goal`. The answer is `none` without a key for the language model, and where
  -- `_llm_decompose` raises.
  unfoldable pub decompose_goal : ℕ → Option (List StepData) → Str → List PlanStep
  unfolding steps_of heuristic_decompose
  decompose_goal max_steps none research_goal = heuristic_decompose max_steps research_goal
  decompose_goal max_steps (some []) research_goal = heuristic_decompose max_steps research_goal
  decompose_goal max_steps (some (d ∷ ds)) research_goal = steps_of 0 (d ∷ ds)

  -- `generate_plan` of `ResearchPlanner(max_steps)`; `none` is `PlanGenerationError`.
  unfoldable pub generate_plan : ℕ → Option (List StepData) → Str → Str → Option ResearchPlan
  unfolding decompose_goal
  generate_plan max_steps answer job_id research_goal =
      let most = min max_steps 32 in
      let decomposed = decompose_goal most answer research_goal in
      let steps =
        if is_empty decomposed
        then record {
          step_id = uuid 0;
          type = retrieval;
          description = codes "Search for: " ++ take 200 research_goal;
          goal = none;
        }
          ∷ []
        else decomposed in
      let plan : ResearchPlan = record {
        job_id = job_id;
        steps = if ltb most (length steps) then take most steps else steps;
      } in
      if validate plan then some plan else none
