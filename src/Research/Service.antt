-- ===== src/Research/Service.antt =====
-- backend/research_agent/service.py: `ResearchAgentService`, without the sessions of the jobs. A job
-- runs inside `start_job`, as it does in the source.
use verisearch.Prelude.{
  ℕ, ◌&&◌, ◌||◌, Bool, true, false, not, Option, none, some, List, [], ◌∷◌, map, all, any, ltb,
  if◌then◌else◌, is_empty, length, Str, str_eq, codes, join,
}
use verisearch.Prelude.Dict.{Dict, lookup, insert}
use verisearch.Research.Events.{
  plan_updated, done, error, ResearchEvent, EventEmitter, or_empty, replay,
}
use verisearch.Research.Budget.{BudgetConfig}
use verisearch.Research.Planner.{PlanStep, ResearchPlan, Text, StepData, generate_plan}
use verisearch.Research.Execution.{
  ResearchCitation, Payload, plan_of, cited, chunk, uri_of, exceeded_of, internal_error,
  ResearchReport, World, Execution, Outcome, returned, exceeded, raised, post,
}
use verisearch.Research.Executor.{execute_plan}

-- `JobState`
pub data JobState : Type 0 where
  queued planning running succeeded failed budget_exceeded : JobState

-- What the service reads of an `output_schema`: its keys, its "type" if that is a string, and its
-- "required".
pub record Schema : Type 0 where
  pub keys : List Str
  pub type : Option Str
  pub required : List Str

-- `ResearchJob`, without its times and its session.
pub record ResearchJob : Type 0 where
  pub job_id : Str
  pub tenant_id : Str
  pub research_goal : Str
  pub output_schema : Option Schema
  pub budgets : BudgetConfig
  pub state : JobState
  pub plan : Option ResearchPlan
  pub report : Option ResearchReport
  pub steps_executed : ℕ
  pub tool_calls_made : ℕ

-- `ResearchAgentService`, with the `max_steps` of its planner.
pub record ResearchService : Type 0 where
  pub max_steps : ℕ
  pub emitter : EventEmitter Payload
  pub jobs : Dict ResearchJob

-- How a request ends.
pub data Answer (A : Type 0) : Type 0 where
  ok : A → Answer A
  invalid_request : Answer A
  job_not_found : Answer A
  crashed : Answer A

-- The parts of the world that a job meets: the language model, Python and the time of its last events.
pub record Surroundings : Type 0 where
  pub text : Text
  pub world : World
  pub answer : Option (List StepData)
  pub start : ℕ
  pub end : ℕ

-- `_validate_goal`
abbrev pub is_valid_goal : Str → Bool
is_valid_goal goal = not (is_empty goal || ltb 4096 (length goal))

abbrev valid_keywords : List Str
valid_keywords = map codes (
    "type" ∷ "properties" ∷ "items" ∷ "required" ∷ "enum" ∷ "const" ∷ "allOf" ∷ "anyOf" ∷ "oneOf"
    ∷ "not" ∷ "$schema" ∷ "$id" ∷ "$ref" ∷ "title" ∷ "description" ∷ "default" ∷ "examples"
    ∷ "minimum" ∷ "maximum" ∷ "minLength" ∷ "maxLength" ∷ "pattern" ∷ "format"
    ∷ "additionalProperties" ∷ "minItems" ∷ "maxItems" ∷ [])

-- `_validate_output_schema` of a dict.
unfoldable pub is_valid_schema : Option Schema → Bool
is_valid_schema none = true
is_valid_schema (some schema) =
    is_empty schema.keys || any (λ key. any (str_eq key) valid_keywords) schema.keys

-- `_validate_report_against_schema`, of a report that the executor made: its structured payload has the
-- keys "text" and "citations_count".
unfoldable pub conforms : Option Schema → Bool
conforms none = true
conforms (some schema) = elim schema.type [
  | none ↦ true
  | some kind ↦
      not (str_eq kind (codes "object"))
      || all (λ name. str_eq name (codes "text") || str_eq name (codes "citations_count"))
          schema.required
]

-- The loop over the events of a job whose budget is exceeded. The payload of an event goes with its type.
unfoldable pub partial_citations : List (ResearchEvent Payload) → List ResearchCitation
partial_citations [] = []
partial_citations (e ∷ es) =
    let rest = partial_citations es in elim e.payload [ cited c ↦ c ∷ rest | _ ↦ rest ]

unfoldable pub partial_text_parts : List (ResearchEvent Payload) → List Str
partial_text_parts [] = []
partial_text_parts (e ∷ es) =
    let rest = partial_text_parts es in
    elim e.payload [ chunk text ordinal ↦ text ∷ rest | _ ↦ rest ]

abbrev partial_report : Str → List (ResearchEvent Payload) → ResearchReport
partial_report job_id events = record {
  job_id = job_id;
  text = join (10 ∷ 10 ∷ []) (partial_text_parts events);
  citations = partial_citations events;
  is_partial = true;
}

-- A method that changes a job and the emitter, and whether it returns.
abbrev Run : Type 0
Run = Bool × ResearchJob × EventEmitter Payload

-- `except Exception as e:` around the execution.
unfoldable pub fail_job : ℕ → ResearchJob → EventEmitter Payload → Run
unfolding partial_text_parts partial_citations
fail_job now job em =
    let (sent, em') = post job.job_id error internal_error now em in
    (
      sent,
      record job {
        state = failed;
        report =
            some (record { job_id = job.job_id; text = []; citations = []; is_partial = true });
      },
      em',
    )

abbrev counted : Execution → ResearchJob → ResearchJob
counted s job = record job {
  steps_executed = s.tracker.steps_used;
  tool_calls_made = s.tracker.tool_calls_used;
}

-- The rest of `_execute_job`, once the plan has been executed.
unfoldable pub conclude : ℕ → ResearchJob → Outcome ResearchReport × Execution → Run
unfolding fail_job conforms
conclude now job (returned report, s) =
    let job' = counted s (record job { report = some report; state = succeeded }) in
    let (sent, em) = post job.job_id done (uri_of job.job_id) now s.emitter in
    if conforms job.output_schema
    then (if sent then (true, job', em) else fail_job now job' em)
    else fail_job now job s.emitter
conclude now job (exceeded e, s) =
    let (sent, em) = post job.job_id error (exceeded_of e) now s.emitter in
    let events = or_empty (lookup job.job_id s.emitter.buffer.buffers) in
    (
      sent,
      counted s (record job {
        state = budget_exceeded;
        report = some (partial_report job.job_id events);
      }),
      em,
    )
conclude now job (raised, s) = fail_job now job s.emitter

-- The executor of a job before its first step.
abbrev pub new_execution : BudgetConfig → EventEmitter Payload → Execution
new_execution budgets em = record {
  emitter = em;
  tracker = record { config = budgets; steps_used = 0; tool_calls_used = 0 };
  all_citations = [];
  report_chunks = [];
  retrieved_docs = [];
}

abbrev pub plan_payload : List PlanStep → Payload
plan_payload steps = plan_of (map (λ step. (step.step_id, step.type, step.description)) steps)

-- `_execute_job`, for a planner with this `max_steps`.
unfoldable pub execute_job : Surroundings → ℕ → ResearchJob → EventEmitter Payload → Run
unfolding conclude
execute_job around max_steps job em =
    elim (generate_plan around.text max_steps around.answer job.job_id job.research_goal) [
      | none ↦
          let (sent, em') = post job.job_id error internal_error around.start em in
          (sent, record job { state = failed }, em')
      | some plan ↦
          let (sent, em') =
            post job.job_id plan_updated (plan_payload plan.steps) around.start em in
          if sent
          then conclude around.end (record job { state = running; plan = some plan })
              (execute_plan around.text around.world job.job_id plan
                (new_execution job.budgets em'))
          else (false, record job { state = planning; plan = some plan }, em')
    ]

abbrev pub new_job : Str → Str → Str → Option Schema → BudgetConfig → ResearchJob
new_job job_id tenant_id research_goal output_schema budgets = record {
  job_id = job_id;
  tenant_id = tenant_id;
  research_goal = research_goal;
  output_schema = output_schema;
  budgets = budgets;
  state = queued;
  plan = none;
  report = none;
  steps_executed = 0;
  tool_calls_made = 0;
}

-- `start_job`, with the id that the job gets.
unfoldable pub start_job :
    Surroundings
    → Str
    → Str
    → Str
    → Option Schema
    → BudgetConfig
    → ResearchService
    → Answer Str × ResearchService
unfolding is_valid_schema execute_job
start_job around job_id tenant_id goal output_schema budgets service =
    let (returns, job, em) =
      execute_job around service.max_steps (new_job job_id tenant_id goal output_schema budgets)
        service.emitter in
    if is_valid_goal goal && is_valid_schema output_schema
    then (
      if returns then ok job_id else crashed,
      record service { emitter = em; jobs = insert job_id job service.jobs },
    )
    else (invalid_request, service)

-- `_get_job`
unfoldable pub get_job : Str → Str → ResearchService → Answer ResearchJob
get_job job_id tenant_id service = elim (lookup job_id service.jobs) [
  | none ↦ job_not_found
  | some job ↦ if str_eq job.tenant_id tenant_id then ok job else job_not_found
]

abbrev and_then : {A B : Type 0} → Answer A → (A → B) → Answer B
and_then (ok a) f = ok (f a)
and_then invalid_request f = invalid_request
and_then job_not_found f = job_not_found
and_then crashed f = crashed

abbrev report_of : Str → Option ResearchReport → ResearchReport
report_of job_id none = record { job_id = job_id; text = []; citations = []; is_partial = true }
report_of job_id (some report) = report

-- `get_report`
unfoldable pub get_report : Str → Str → ResearchService → Answer ResearchReport
unfolding get_job
get_report job_id tenant_id service =
    and_then (get_job job_id tenant_id service) (λ job. report_of job_id job.report)

-- `get_events`
unfoldable pub get_events :
    Str → Str → Option ℕ → ResearchService → Answer (List (ResearchEvent Payload))
unfolding get_job
get_events job_id tenant_id last_event_id service =
    and_then (get_job job_id tenant_id service)
      (λ job. replay job_id last_event_id service.emitter.buffer)

-- `get_job_state`
unfoldable pub get_job_state : Str → Str → ResearchService → Answer JobState
unfolding get_job
get_job_state job_id tenant_id service =
    and_then (get_job job_id tenant_id service) (λ job. job.state)
