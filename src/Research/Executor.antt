-- ===== src/Research/Executor.antt =====
-- backend/research_agent/executor.py: the loop of `ResearchExecutor.execute_plan`.
use verisearch.Prelude.{
  ℕ, suc, false, List, [], ◌∷◌, ◌++◌, if◌then◌else◌, is_empty, length, Str, codes, join,
}
use verisearch.Research.Events.{step_started, step_completed, citation, report_chunk}
use verisearch.Research.Budget.{record_step}
use verisearch.Research.Planner.{PlanStep, ResearchPlan, Text}
use verisearch.Research.Execution.{
  Doc, ResearchCitation, started_of, cited, chunk, completed_of, ResearchReport, World, Execution,
  Action, ◌>>=◌, ◌>>◌, pure, modify, get, check_budget, send,
}
use verisearch.Research.Tools.{execute_step}

-- `self._budget.record_step()`
abbrev pub step_recorded : Execution → Execution
step_recorded s = record s { tracker = record_step s.tracker }

abbrev pub cited_more : List ResearchCitation → Execution → Execution
cited_more citations s = record s { all_citations = s.all_citations ++ citations }

abbrev pub retrieved_more : List Doc → Execution → Execution
retrieved_more docs s = record s { retrieved_docs = s.retrieved_docs ++ docs }

abbrev pub reported_more : Str → Execution → Execution
reported_more text s = record s { report_chunks = s.report_chunks ++ text ∷ [] }

-- The events of the citations of one step.
unfoldable pub send_citations : Str → ℕ → List ResearchCitation → Action (Unit {0})
send_citations job_id now [] = pure tt
send_citations job_id now (c ∷ cs) =
    send job_id citation (cited c) now >> send_citations job_id now cs

-- `if result.text: …`
unfoldable pub send_chunk : Str → ℕ → Str → Action (Unit {0})
send_chunk job_id now [] = pure tt
send_chunk job_id now (c ∷ cs) = do
  modify (reported_more (c ∷ cs))
  s ← get
  send job_id report_chunk (chunk (c ∷ cs) (length s.report_chunks)) now

module _ (text : Text) (world : World) (job_id : Str) where
  -- One round of the loop, for the step at the place `i`.
  unfoldable pub run_step : ℕ → PlanStep → Action (Unit {0})
  unfolding send_citations send_chunk
  run_step i step = do
    check_budget (world.elapsed i)
    send job_id step_started (started_of step.step_id step.type) (world.now i)
    s ← get
    result ← execute_step text world i step s.retrieved_docs
    modify step_recorded
    modify (cited_more result.citations)
    send_citations job_id (world.now i) result.citations
    modify (retrieved_more result.results)
    send_chunk job_id (world.now i) result.text
    send job_id step_completed (completed_of step.step_id step.type) (world.now i)

  -- The loop, from the place `i` on.
  unfoldable pub run_steps : ℕ → List PlanStep → Action (Unit {0})
  unfolding run_step
  run_steps i [] = pure tt
  run_steps i (step ∷ steps) = run_step i step >> run_steps (suc i) steps

  -- `execute_plan`
  unfoldable pub execute_plan : ResearchPlan → Action ResearchReport
  unfolding run_steps
  execute_plan plan = do
    run_steps 0 plan.steps
    s ← get
    pure (record {
      job_id = job_id;
      text =
          if is_empty s.report_chunks
          then codes "Research complete."
          else join (10 ∷ 10 ∷ []) s.report_chunks;
      citations = s.all_citations;
      is_partial = false;
    })
