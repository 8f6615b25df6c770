-- ===== src/Research/Tests.antt =====
-- The theorems on research jobs at a planner for four steps, a retriever that finds nothing, and a
-- budget of two steps.
use verisearch.Prelude.{
  ℕ, true, false, Option, none, some, List, [], ◌∷◌, ◌++◌, drop, Str, codes, ◌≡◌, refl, arith,
}
use verisearch.Research.Events.{
  EventType, plan_updated, step_started, done, EventEmitter, replay, or_empty, reaches,
}
use verisearch.Research.Replay.{
  Emission, emit_all, of_job, numbered, fresh_emitter, replay-emit_all,
}
use verisearch.Prelude.Dict.{lookup}
use verisearch.Research.Turns.{crossed, event_with, crossed-loses}
use verisearch.Research.Budget.{BudgetConfig}
use verisearch.Research.Planner.{Text, generate_plan}
use verisearch.Research.Execution.{post, check_budget, send, ◌>>=◌}
use verisearch.Research.Tools.{execute_step}
use verisearch.Research.Executor.{execute_plan}
use verisearch.Research.Service.{
  Schema, ResearchService, ok, Surroundings, start_job, get_job_state, budget_exceeded,
  is_valid_schema,
}
use verisearch.Research.Streams.{Ended, start_job-Ended}

abbrev emission : Str → EventType → ℕ → Emission ℕ
emission job kind payload = record { job_id = job; type = kind; payload = payload; now = 5 }

abbrev emissions : List (Emission ℕ)
emissions =
    emission (codes "a") plan_updated 1
    ∷ emission (codes "b") plan_updated 2
    ∷ emission (codes "a") step_started 3
    ∷ emission (codes "a") done 4
    ∷ []

replay-emit_all_example :
    (end : EventEmitter ℕ) × (emit_all emissions (fresh_emitter 3600) ≡ some end)
    × (replay (codes "a") (some 1) end.buffer
        ≡ drop 1 (numbered 0 (codes "a") (of_job (codes "a") emissions)))
replay-emit_all_example = replay-emit_all 3600 1 (codes "a") emissions

crossed-loses_example :
    ((crossed {P = ℕ} (codes "a") (step_started, 1) (done, 2) 7 (fresh_emitter 3600)).0 ≡ false)
    × ((crossed {P = ℕ} (codes "a") (step_started, 1) (done, 2) 7 (fresh_emitter 3600)).1 ≡ true)
    × (or_empty (
          lookup
            (codes "a")
            (crossed {P = ℕ}
              (codes "a")
              (step_started, 1)
              (done, 2)
              7
              (fresh_emitter 3600)).2.buffer.buffers)
        ≡ [] ++ event_with 2 (codes "a") (done, 2) ∷ [])
unfolding reaches
crossed-loses_example =
    crossed-loses (codes "a") (step_started, 1) (done, 2) 7 (fresh_emitter 3600) refl

abbrev text : Text
text = record { uuid = λ i. i ∷ []; str = λ n. n ∷ [] }

abbrev around : Surroundings
around = record {
  text = text;
  world = record {
    elapsed = λ i. i;
    now = λ i. i;
    search = λ i query. none;
    fallback = λ i. codes "d";
  };
  answer = none;
  start = 0;
  end = 9;
}

abbrev budgets : BudgetConfig
budgets = record { max_steps = 2; max_duration_ms = 1000; max_tool_calls = 9 }

abbrev service : ResearchService
service = record { max_steps = 4; emitter = fresh_emitter 3600; jobs = [] }

abbrev schema : Option Schema
schema = some (record { keys = codes "type" ∷ []; type = some (codes "object"); required = [] })

schema_valid : is_valid_schema schema ≡ true
unfolding is_valid_schema
schema_valid = refl

start_job-Ended_example :
    (end : ResearchService) × (start_job around
        (codes "j")
        (codes "acme")
        (codes "Why?")
        schema
        budgets
        service
      ≡ (ok (codes "j"), end))
    × Ended (codes "j") (codes "acme") budgets end
start_job-Ended_example =
    start_job-Ended around (codes "j") (codes "acme") (codes "Why?") schema budgets service
      (omega arith) refl schema_valid refl

-- The budget of two steps ends the job of the example.
it_stops :
    get_job_state
      (codes "j")
      (codes "acme")
      (start_job around (codes "j") (codes "acme") (codes "Why?") schema budgets service).1
    ≡ ok budget_exceeded
unfolding start_job get_job_state generate_plan post execute_plan ◌>>=◌ check_budget send
    execute_step
it_stops = refl
