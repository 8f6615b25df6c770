-- ===== src/Pipeline/Service.antt =====
-- backend/pipeline_engine/service.py: `PipelineService`.
use verisearch.Prelude.{
  ℕ, not, ◌||◌, Option, none, some, List, [], ◌∷◌, map, ltb, if◌then◌else◌, is_empty, length, Str,
  str_eq,
}
use verisearch.Prelude.Dict.{Dict, lookup, insert, remove}
use verisearch.Pipeline.Models.{
  StepType, filter, PipelineStep, PipelineDefinition, ExecutionResult, PipelineRegistry,
  get_unknown_steps, clamped,
}
use verisearch.Pipeline.Executor.{execute_pipeline}

-- `PipelineService`
pub record PipelineService (R C : Type 0) : Type 0 where
  pub registry : PipelineRegistry R C
  pub pipelines : Dict (PipelineDefinition C)

-- A step of a request, with the defaults for what it leaves out filled in.
pub record StepRequest (C : Type 0) : Type 0 where
  pub name : Str
  pub config : C
  pub timeout_ms : ℕ

-- How a method ends.
pub data Answer (A : Type 0) : Type 0 where
  ok : A → Answer A
  invalid_pipeline : Answer A
  unknown_pipeline_step : List Str → Answer A
  pipeline_not_found : Answer A
  step_raised : Answer A

abbrev pub finished : {R : Type 0} → Option (ExecutionResult R) → Answer (ExecutionResult R)
finished none = step_raised
finished (some result) = ok result

-- `list_pipelines`
unfoldable pub owned :
    {C : Type 0} → Str → Dict (PipelineDefinition C) → List (PipelineDefinition C)
owned tenant [] = []
owned tenant ((id, p) ∷ rest) =
    let later = owned tenant rest in if str_eq p.tenant_id tenant then p ∷ later else later

module _ {R C : Type 0} where
  -- `entry.step_type`, where the entry is there
  abbrev pub type_in : PipelineRegistry R C → Str → StepType
  type_in registry name = elim (lookup name registry) [
    | none ↦ filter
    | some entry ↦ entry.step_type
  ]

  -- The loop that builds the `PipelineStep` objects, after the names have been checked.
  unfoldable pub build_steps : PipelineRegistry R C → List (StepRequest C) → List (PipelineStep C)
  build_steps registry [] = []
  build_steps registry (s ∷ ss) =
      record {
        name = s.name;
        type = type_in registry s.name;
        config = s.config;
        timeout_ms = clamped s.timeout_ms;
      }
      ∷ build_steps registry ss

  -- The pipeline that `create_pipeline` stores.
  abbrev pub built :
      Str → Str → Str → List (StepRequest C) → PipelineRegistry R C → PipelineDefinition C
  built id tenant name steps registry = record {
    pipeline_id = id;
    tenant_id = tenant;
    name = name;
    steps = build_steps registry steps;
  }

  -- `create_pipeline`, at the id that `uuid4` returns
  unfoldable pub create_pipeline :
      Str
      → Str
      → Str
      → List (StepRequest C)
      → PipelineService R C
      → Answer (PipelineDefinition C) × PipelineService R C
  unfolding get_unknown_steps build_steps
  create_pipeline id tenant name steps svc =
      let unknown = get_unknown_steps (map (λ s. s.name) steps) svc.registry in
      let pipeline = built id tenant name steps svc.registry in
      if is_empty steps || ltb 20 (length steps)
      then (invalid_pipeline, svc)
      else if not (is_empty unknown)
      then (unknown_pipeline_step unknown, svc)
      else (ok pipeline, record svc { pipelines = insert id pipeline svc.pipelines })

  -- `get_pipeline`
  unfoldable pub get_pipeline : Str → Str → PipelineService R C → Answer (PipelineDefinition C)
  get_pipeline id tenant svc = elim (lookup id svc.pipelines) [
    | none ↦ pipeline_not_found
    | some p ↦ if not (str_eq p.tenant_id tenant) then pipeline_not_found else ok p
  ]

  -- `execute`
  unfoldable pub execute : Str → Str → List R → PipelineService R C → Answer (ExecutionResult R)
  unfolding get_pipeline execute_pipeline
  execute id tenant candidates svc = elim (get_pipeline id tenant svc) [
    | ok p ↦ finished (execute_pipeline p candidates svc.registry)
    | _ ↦ pipeline_not_found
  ]

  -- `delete_pipeline`
  unfoldable pub delete_pipeline :
      Str → Str → PipelineService R C → Answer (Unit {0}) × PipelineService R C
  delete_pipeline id tenant svc = elim (lookup id svc.pipelines) [
    | none ↦ (pipeline_not_found, svc)
    | some p ↦
        if not (str_eq p.tenant_id tenant)
        then (pipeline_not_found, svc)
        else (ok tt, record svc { pipelines = remove id svc.pipelines })
  ]

  abbrev pub list_pipelines : Str → PipelineService R C → List (PipelineDefinition C)
  list_pipelines tenant svc = owned tenant svc.pipelines
