-- ===== src/Research/Streams.antt =====
-- How a research job ends.
use verisearch.Prelude.{
  ℕ, suc, ◌≤◌, Bool, true, false, Option, none, some, List, [], ◌∷◌, ◌++◌, Str, str_eq, str_eq_iff,
  ◌≡◌, refl, sym, ap, subst, ◌∙◌, arith, Bool-cases, inl, inr,
}
use verisearch.Prelude.Dict.{lookup, insert, lookup-insert}
use verisearch.Research.Events.{
  EventType, plan_updated, done, error, ResearchEvent, EventEmitter, reaches, replay, count_of,
}
use verisearch.Research.Budget.{BudgetConfig}
use verisearch.Research.Plans.{generate_plan-bounds}
use verisearch.Research.Execution.{
  Payload, uri_of, exceeded_of, internal_error, ResearchReport, Execution, Outcome, returned,
  exceeded, raised, post,
}
use verisearch.Research.Posts.{events_of, Fits, event, post-Fits, Begun, Live}
use verisearch.Research.Loop.{Good, Ends, execute_plan-Ends}
use verisearch.Research.Service.{
  JobState, succeeded, failed, budget_exceeded, running, Schema, ResearchJob, ResearchService, ok,
  Surroundings, is_valid_goal, is_valid_schema, conforms, fail_job, conclude, new_execution,
  plan_payload, execute_job, new_job, start_job, get_job, get_events,
}

-- The last event of a job in each state that it can end in.
abbrev pub ends_with : JobState → EventType → Bool
ends_with succeeded done = true
ends_with failed error = true
ends_with budget_exceeded error = true
ends_with _ _ = false

-- A job that is over, and its stream: the plan, events that end nothing, and one that does.
pub record Over (id tenant : Str) (c : BudgetConfig) (job : ResearchJob) (em : EventEmitter Payload)
    : Type 0 where
  pub stream : List (ResearchEvent Payload)
  pub last : ResearchEvent Payload
  pub held : events_of id em ≡ stream ++ last ∷ []
  pub begun : Begun stream
  pub agrees : ends_with job.state last.type ≡ true
  pub of_tenant : job.tenant_id ≡ tenant
  pub steps : job.steps_executed ≤ c.max_steps
  pub calls : job.tool_calls_made ≤ c.max_tool_calls

abbrev Run : Type 0
Run = Bool × ResearchJob × EventEmitter Payload

-- A run that returns, with a job that is over.
abbrev Finishes : Str → Str → BudgetConfig → Run → Type 0
Finishes id tenant c run = (run.0 ≡ true) × Over id tenant c run.1 run.2

over-post :
    (tenant : Str) (c : BudgetConfig) (job : ResearchJob) (id : Str) (kind : EventType)
    (payload : Payload) (now : ℕ) (em : EventEmitter Payload)
    → Live id em
    → ends_with job.state kind ≡ true
    → job.tenant_id ≡ tenant
    → job.steps_executed ≤ c.max_steps
    → job.tool_calls_made ≤ c.max_tool_calls
    → Finishes id tenant c ((post id kind payload now em).0, job, (post id kind payload now em).1)
over-post tenant c job id kind payload now em live agrees owned steps calls =
    let (em', sent, fits, held) = post-Fits id kind payload now em live.0 in
    rw sent (
      refl,
      record {
        stream = events_of id em;
        last = event id kind payload em;
        held = held;
        begun = live.1;
        agrees = agrees;
        of_tenant = owned;
        steps = steps;
        calls = calls;
      },
    )

conclude-Finishes :
    (now : ℕ) (c : BudgetConfig) (job : ResearchJob) (r : Outcome ResearchReport × Execution)
    → job.steps_executed ≡ 0
    → job.tool_calls_made ≡ 0
    → Ends job.job_id c 0 0 r
    → Finishes job.job_id job.tenant_id c (conclude now job r)
unfolding conclude fail_job
conclude-Finishes now c job (returned report, s) no_steps no_calls (live, (same, p, q)) =
    elim (Bool-cases (conforms job.output_schema)) [
      | inl valid ↦
          let (em', sent, fits, held) =
            post-Fits job.job_id done (uri_of job.job_id) now s.emitter live.0 in
          rw (valid, sent)
            (
              refl,
              record {
                stream = events_of job.job_id s.emitter;
                last = event job.job_id done (uri_of job.job_id) s.emitter;
                held = held;
                begun = live.1;
                agrees = refl;
                of_tenant = refl;
                steps = omega (arith, p);
                calls = omega (arith, q);
              },
            )
      | inr invalid ↦ rw invalid (
          over-post job.tenant_id c _ job.job_id error internal_error now s.emitter live refl refl
            (omega (arith, no_steps)) (omega (arith, no_calls)))
    ]
conclude-Finishes now c job (exceeded e, s) no_steps no_calls (live, (same, p, q)) =
    over-post job.tenant_id c _ job.job_id error (exceeded_of e) now s.emitter live refl refl
      (omega (arith, p)) (omega (arith, q))
conclude-Finishes now c job (raised, s) no_steps no_calls bad = absurd bad

-- The job of a request, executed by a planner for one step or more with an id that has no events.
execute_job-Finishes :
    (around : Surroundings) (max_steps : ℕ) (id tenant goal : Str) (schema : Option Schema)
    (c : BudgetConfig) (em : EventEmitter Payload)
    → 1 ≤ max_steps
    → events_of id em ≡ []
    → Finishes id tenant c (execute_job around max_steps (new_job id tenant goal schema c) em)
unfolding execute_job
execute_job-Finishes around max_steps id tenant goal schema c em positive fresh =
    let (plan, planned, own, some_step, few, most) =
      generate_plan-bounds around.text max_steps around.answer id goal positive in
    let fits : Fits id em =
      ap (reaches (suc (count_of (lookup id em.counters)))) fresh ∙ (unfold reaches in refl) in
    let (em1, sent, fits1, held) =
      post-Fits id plan_updated (plan_payload plan.steps) around.start em fits in
    let first = event id plan_updated (plan_payload plan.steps) em in
    let shown : events_of id em1 ≡ first ∷ [] = held ∙ ap (λ es. es ++ first ∷ []) fresh in
    let begun : Begun (events_of id em1) = subst Begun (sym shown) (refl, tt) in
    let good : Good id c 0 0 (new_execution c em1) =
      ((fits1, begun), (refl, omega arith, omega arith)) in
    let job = record (new_job id tenant goal schema c) { state = running; plan = some plan } in
    rw (execute_job, planned, sent)
      (conclude-Finishes around.end c job _ refl refl
        (execute_plan-Ends id c around.text around.world plan (new_execution c em1) good))

-- What a tenant sees of its job once `start_job` has returned: a job that has ended within its budget
-- of steps and tool calls, and a stream of events that is the plan, events that end nothing, and an
-- event that ends the job as its state says.
pub record Ended (id tenant : Str) (c : BudgetConfig) (service : ResearchService) : Type 0 where
  pub job : ResearchJob
  pub stream : List (ResearchEvent Payload)
  pub last : ResearchEvent Payload
  pub found : get_job id tenant service ≡ ok job
  pub told : get_events id tenant none service ≡ ok (stream ++ last ∷ [])
  pub begun : Begun stream
  pub agrees : ends_with job.state last.type ≡ true
  pub steps : job.steps_executed ≤ c.max_steps
  pub calls : job.tool_calls_made ≤ c.max_tool_calls

get_job-insert :
    (id tenant : Str) (job : ResearchJob) (em : EventEmitter Payload) (service : ResearchService)
    → job.tenant_id ≡ tenant
    → get_job id tenant (record service { emitter = em; jobs = insert id job service.jobs })
      ≡ ok job
unfolding get_job
get_job-insert id tenant job em service owned =
    let own : str_eq id id ≡ true = (str_eq_iff id id).1 refl in
    let found : lookup id (insert id job service.jobs) ≡ some job =
      lookup-insert id id job service.jobs ∙ rw own in
    let mine : str_eq job.tenant_id tenant ≡ true = (str_eq_iff job.tenant_id tenant).1 owned in
    rw (get_job, found, mine)

module _ (around : Surroundings) (id tenant goal : Str) (schema : Option Schema)
    (budgets : BudgetConfig) (service : ResearchService) (positive : 1 ≤ service.max_steps)
    (valid_goal : is_valid_goal goal ≡ true) (valid_schema : is_valid_schema schema ≡ true)
    (fresh : events_of id service.emitter ≡ []) where
  abbrev executed : Run
  executed =
      execute_job around service.max_steps (new_job id tenant goal schema budgets) service.emitter

  abbrev after : ResearchService
  after = record service { emitter = executed.2; jobs = insert id executed.1 service.jobs }

  finishes : Finishes id tenant budgets executed
  finishes =
      execute_job-Finishes around service.max_steps id tenant goal schema budgets service.emitter
        positive fresh

  starts : start_job around id tenant goal schema budgets service ≡ (ok id, after)
  unfolding start_job
  starts = rw (valid_goal, valid_schema, finishes.0)

  found_job : get_job id tenant after ≡ ok executed.1
  found_job = get_job-insert id tenant executed.1 executed.2 service finishes.1.of_tenant

  -- With a planner for one step or more, a valid goal, a valid schema or none, and an id that has no
  -- events yet, `start_job` returns the id, whatever steps the language model answers, and whatever the
  -- retriever and the clock do.
  -- The tenant then sees a job that has ended, with at most `max_steps` steps executed and at most
  -- `max_tool_calls` tool calls made, and a stream that starts with the plan and has one event after it
  -- that ends the job, the last: `done` where the job has succeeded, `error` where it has failed or
  -- exceeded its budget.
  pub start_job-Ended :
      (end : ResearchService) × (start_job around id tenant goal schema budgets service
        ≡ (ok id, end))
      × Ended id tenant budgets end
  unfolding get_events replay
  start_job-Ended =
      let over = finishes.1 in
      (
        after,
        starts,
        record {
          job = executed.1;
          stream = over.stream;
          last = over.last;
          found = found_job;
          told = rw found_job (ap ok over.held);
          begun = over.begun;
          agrees = over.agrees;
          steps = over.steps;
          calls = over.calls;
        },
      )
