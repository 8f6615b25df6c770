-- ===== src/Pipeline/Models.antt =====
-- backend/pipeline_engine/models.py, and `PipelineRegistry` of registry.py. The results and the
-- configurations are parameters; an id, and how long a step takes, are arguments.
use verisearch.Prelude.{
  ℕ, Bool, true, false, Option, none, some, List, [], ◌∷◌, map, max, min, if◌then◌else◌, Str,
}
use verisearch.Prelude.Dict.{Dict, lookup, insert}

-- `StepType`
pub data StepType : Type 0 where
  filter reranker transform : StepType

-- What a call of a step function within its timeout comes to.
pub data Attempt (R : Type 0) : Type 0 where
  returned : List R → Attempt R
  timed_out : Attempt R
  raised : Attempt R

-- `PipelineStep`
pub record PipelineStep (C : Type 0) : Type 0 where
  pub name : Str
  pub type : StepType
  pub config : C
  pub timeout_ms : ℕ

-- `PipelineDefinition`
pub record PipelineDefinition (C : Type 0) : Type 0 where
  pub pipeline_id : Str
  pub tenant_id : Str
  pub name : Str
  pub steps : List (PipelineStep C)

-- `StepWarning`, without the message
pub data Code : Type 0 where
  step_not_found step_timeout : Code

pub record StepWarning : Type 0 where
  pub code : Code
  pub step : Str

-- `ExecutionResult`
pub record ExecutionResult (R : Type 0) : Type 0 where
  pub results : List R
  pub warnings : List StepWarning

-- `StepRegistryEntry`; `fn` is `_execute_step_with_timeout` of the entry's function.
pub record StepRegistryEntry (R C : Type 0) : Type 0 where
  pub step_type : StepType
  pub fn : List R → C → ℕ → Attempt R

-- `PipelineRegistry`
abbrev pub PipelineRegistry : Type 0 → Type 0 → Type 0
PipelineRegistry R C = Dict (StepRegistryEntry R C)

abbrev pub is_some : {A : Type 0} → Option A → Bool
is_some none = false
is_some (some a) = true

module _ {R C : Type 0} where
  -- `register`
  abbrev pub register :
      Str → StepType → (List R → C → ℕ → Attempt R) → PipelineRegistry R C → PipelineRegistry R C
  register name kind fn registry = insert name (record { step_type = kind; fn = fn }) registry

  -- `exists`
  abbrev pub exists : Str → PipelineRegistry R C → Bool
  exists name registry = is_some (lookup name registry)

  -- `get_unknown_steps`
  unfoldable pub get_unknown_steps : List Str → PipelineRegistry R C → List Str
  get_unknown_steps [] registry = []
  get_unknown_steps (name ∷ names) registry =
      let rest = get_unknown_steps names registry in
      if exists name registry then rest else name ∷ rest

  -- `step_names`
  abbrev pub step_names : PipelineRegistry R C → List Str
  step_names registry = map (λ e. e.0) registry

-- `max(100, min(30000, timeout_ms))`, in `PipelineStep.__post_init__` and in `create_pipeline`; a
-- negative number is taken for 0, which gives the same.
abbrev pub clamped : ℕ → ℕ
clamped timeout_ms = max 100 (min 30000 timeout_ms)
