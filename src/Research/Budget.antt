-- ===== src/Research/Budget.antt =====
-- backend/research_agent/budget.py: `BudgetTracker`. The milliseconds since `start` are an argument;
-- the clock does not read 0 after `start`.
use verisearch.Prelude.{ℕ, suc, Option, none, some, leb, if◌then◌else◌}

-- `BudgetConfig`
pub record BudgetConfig : Type 0 where
  pub max_steps : ℕ
  pub max_duration_ms : ℕ
  pub max_tool_calls : ℕ

-- `BudgetTracker`
pub record BudgetTracker : Type 0 where
  pub config : BudgetConfig
  pub steps_used : ℕ
  pub tool_calls_used : ℕ

-- `BudgetExceededError.reason`
pub data Reason : Type 0 where
  of_steps of_duration of_tool_calls : Reason

-- `BudgetExceededError`
pub record BudgetExceededError : Type 0 where
  pub reason : Reason
  pub current_value : ℕ
  pub limit : ℕ

-- `check`, once `start` has been called; `none` where it returns.
unfoldable pub check : ℕ → BudgetTracker → Option BudgetExceededError
check elapsed t =
    if leb t.config.max_steps t.steps_used
    then some
        (record { reason = of_steps; current_value = t.steps_used; limit = t.config.max_steps })
    else if leb t.config.max_duration_ms elapsed
    then some
        (record { reason = of_duration; current_value = elapsed; limit = t.config.max_duration_ms })
    else if leb t.config.max_tool_calls t.tool_calls_used
    then some (record {
      reason = of_tool_calls;
      current_value = t.tool_calls_used;
      limit = t.config.max_tool_calls;
    })
    else none

-- `record_step`
abbrev pub record_step : BudgetTracker → BudgetTracker
record_step t = record t { steps_used = suc t.steps_used }

-- `record_tool_call`
abbrev pub record_tool_call : BudgetTracker → BudgetTracker
record_tool_call t = record t { tool_calls_used = suc t.tool_calls_used }
