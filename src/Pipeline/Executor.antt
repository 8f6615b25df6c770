-- ===== src/Pipeline/Executor.antt =====
-- backend/pipeline_engine/executor.py
use verisearch.Prelude.{
  ℕ, Bool, true, false, Option, none, some, List, [], ◌∷◌, ◌++◌, ltb, leb, if◌then◌else◌, Str,
}
use verisearch.Prelude.Dict.{lookup}
use verisearch.Pipeline.Models.{
  StepType, filter, reranker, transform, Attempt, returned, timed_out, raised, PipelineStep,
  PipelineDefinition, StepWarning, step_not_found, step_timeout, ExecutionResult, PipelineRegistry,
}

-- `_TYPE_ORDER`
abbrev pub type_order : StepType → ℕ
type_order filter = 0
type_order reranker = 1
type_order transform = 2

module _ {C : Type 0} where
  abbrev pub order_of : PipelineStep C → ℕ
  order_of s = type_order s.type

  -- `sorted` by the type order, which is stable.
  unfoldable pub insert_step : PipelineStep C → List (PipelineStep C) → List (PipelineStep C)
  insert_step s [] = s ∷ []
  insert_step s (t ∷ ts) =
      let rest = insert_step s ts in if leb (order_of s) (order_of t) then s ∷ t ∷ ts else t ∷ rest

  -- `apply_type_ordering`
  unfoldable pub apply_type_ordering : List (PipelineStep C) → List (PipelineStep C)
  unfolding insert_step
  apply_type_ordering [] = []
  apply_type_ordering (s ∷ ss) = insert_step s (apply_type_ordering ss)

  -- The loop of `has_explicit_type_ordering`; `last_type_order` starts at -1, below every order, for
  -- which 0 serves as well.
  unfoldable pub is_ordered_from : ℕ → List (PipelineStep C) → Bool
  is_ordered_from last_type_order [] = true
  is_ordered_from last_type_order (s ∷ ss) =
      let rest = is_ordered_from (order_of s) ss in
      if ltb (order_of s) last_type_order then false else rest

  -- `has_explicit_type_ordering`
  unfoldable pub has_explicit_type_ordering : List (PipelineStep C) → Bool
  unfolding is_ordered_from
  has_explicit_type_ordering steps = is_ordered_from 0 steps

  -- The steps in the order of their execution.
  unfoldable pub execution_order : List (PipelineStep C) → List (PipelineStep C)
  unfolding has_explicit_type_ordering apply_type_ordering
  execution_order steps =
      if has_explicit_type_ordering steps then steps else apply_type_ordering steps

-- What the loop does with one attempt: the results and the warning that it leaves.
abbrev pub after_attempt :
    {R : Type 0} → Str → List R → Attempt R → Option (List R × List StepWarning)
after_attempt name current (returned results) = some (results, [])
after_attempt name current timed_out =
    some (current, record { code = step_timeout; step = name } ∷ [])
after_attempt name current raised = none

module _ {R C : Type 0} where
  -- One round of the loop.
  unfoldable pub run_step :
      PipelineRegistry R C → PipelineStep C → List R → Option (List R × List StepWarning)
  run_step registry step current = elim (lookup step.name registry) [
    | none ↦ some (current, record { code = step_not_found; step = step.name } ∷ [])
    | some entry ↦ after_attempt step.name current (entry.fn current step.config step.timeout_ms)
  ]

  -- The loop of `execute_pipeline`; `none` is an exception of a step.
  unfoldable pub run_steps :
      PipelineRegistry R C
      → List (PipelineStep C)
      → List R
      → List StepWarning
      → Option (ExecutionResult R)
  unfolding run_step
  run_steps registry [] current warnings = some (record { results = current; warnings = warnings })
  run_steps registry (step ∷ steps) current warnings = elim (run_step registry step current) [
    | none ↦ none
    | some (results, more) ↦ run_steps registry steps results (warnings ++ more)
  ]

  -- `execute_pipeline`
  unfoldable pub execute_pipeline :
      PipelineDefinition C → List R → PipelineRegistry R C → Option (ExecutionResult R)
  unfolding execution_order run_steps
  execute_pipeline pipeline candidates registry =
      run_steps registry (execution_order pipeline.steps) candidates []
