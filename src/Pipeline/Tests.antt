-- ===== src/Pipeline/Tests.antt =====
-- The theorems on pipelines at numbers as results, with a step that halves the list and one that is
-- too slow.
use verisearch.Prelude.{ℕ, ◌≤◌, List, [], ◌∷◌, length, All, Str, codes, ◌≡◌, refl}
use verisearch.Pipeline.Models.{
  StepType, filter, transform, Attempt, returned, timed_out, PipelineStep, step_timeout,
  ExecutionResult, PipelineRegistry, get_unknown_steps,
}
use verisearch.Pipeline.Executor.{
  execution_order, execute_pipeline, run_steps, run_step, has_explicit_type_ordering,
  is_ordered_from, apply_type_ordering, insert_step,
}
use verisearch.Pipeline.Service.{
  StepRequest, ok, execute, get_pipeline, create_pipeline, build_steps,
}
use verisearch.Pipeline.Steps.{Operation, creating, perform_all, perform}
use verisearch.Pipeline.Order.{by_type, execution_order-eq-by_type}
use verisearch.Pipeline.Warnings.{IsTimeout, execute-IsTimeout}

abbrev step : Str → StepType → PipelineStep ℕ
step name kind = record { name = name; type = kind; config = 0; timeout_ms = 2000 }

abbrev mixed : List (PipelineStep ℕ)
mixed = step (codes "slow") transform ∷ step (codes "cut") filter ∷ []

execution_order-eq-by_type_example : execution_order mixed ≡ by_type mixed
execution_order-eq-by_type_example = execution_order-eq-by_type mixed

abbrev cut : List ℕ → ℕ → ℕ → Attempt ℕ
cut results config timeout_ms = returned (config ∷ [])

abbrev slow : List ℕ → ℕ → ℕ → Attempt ℕ
slow results config timeout_ms = timed_out

abbrev registry : PipelineRegistry ℕ ℕ
registry =
    (codes "cut", record { step_type = filter; fn = cut })
    ∷ (codes "slow", record { step_type = transform; fn = slow })
    ∷ []

abbrev requested : List (StepRequest ℕ)
requested =
    record { name = codes "slow"; config = 0; timeout_ms = 50 }
    ∷ record { name = codes "cut"; config = 7; timeout_ms = 2000 }
    ∷ []

abbrev creation : List (Operation ℕ ℕ)
creation = creating (codes "p") (codes "acme") (codes "mine") requested ∷ []

abbrev outcome : ExecutionResult ℕ
outcome = record {
  results = 7 ∷ [];
  warnings = record { code = step_timeout; step = codes "slow" } ∷ [];
}

it_runs :
    execute
      (codes "p")
      (codes "acme")
      (1 ∷ 2 ∷ [])
      (perform_all creation (record { registry = registry; pipelines = [] }))
    ≡ ok outcome
unfolding execute get_pipeline execute_pipeline execution_order run_steps run_step
    has_explicit_type_ordering is_ordered_from apply_type_ordering insert_step perform_all perform
    create_pipeline get_unknown_steps build_steps
it_runs = refl

execute-IsTimeout_example : All IsTimeout outcome.warnings × (length outcome.warnings ≤ 20)
execute-IsTimeout_example =
    execute-IsTimeout creation registry (codes "p") (codes "acme") (1 ∷ 2 ∷ []) outcome it_runs
