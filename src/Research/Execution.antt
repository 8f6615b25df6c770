-- ===== src/Research/Execution.antt =====
-- backend/research_agent/executor.py: the state that a `ResearchExecutor` changes, and its methods as
-- functions of that state. The ids of the citations and the scores of the documents, which decide
-- nothing, are left out.
use verisearch.Prelude.{ℕ, Bool, true, false, Option, none, some, List, if◌then◌else◌, Str}
use verisearch.Research.Events.{EventType, EventEmitter, take_id, emit}
use verisearch.Research.Budget.{BudgetTracker, BudgetExceededError, check}
use verisearch.Research.Planner.{StepType}

-- A document that the retriever found.
pub record Doc : Type 0 where
  pub document_id : Str
  pub version : ℕ
  pub url : Str
  pub title : Str
  pub cleaned_text : Str

-- `ResearchCitation`
pub record ResearchCitation : Type 0 where
  pub document_id : Str
  pub version : ℕ
  pub answer_start : ℕ
  pub answer_end : ℕ
  pub source_start : ℕ
  pub source_end : ℕ

-- The payloads of the events, one constructor for each set of keys; the text of a message is left out.
pub data Payload : Type 0 where
  plan_of : List (Str × StepType × Str) → Payload
  started_of : Str → StepType → Payload
  cited : ResearchCitation → Payload
  chunk : Str → ℕ → Payload
  completed_of : Str → StepType → Payload
  uri_of : Str → Payload
  exceeded_of : BudgetExceededError → Payload
  internal_error : Payload

-- `ResearchReport`, without its structured payload.
pub record ResearchReport : Type 0 where
  pub job_id : Str
  pub text : Str
  pub citations : List ResearchCitation
  pub is_partial : Bool

-- `ToolCallResult`, without the name of the tool.
pub record ToolCallResult : Type 0 where
  pub results : List Doc
  pub citations : List ResearchCitation
  pub text : Str

-- What happens around the step at each place of the plan.
pub record World : Type 0 where
  -- The milliseconds since the start of the job, at the check before the step.
  pub elapsed : ℕ → ℕ
  -- The time in seconds of the events of the step.
  pub now : ℕ → ℕ
  -- The documents for a query; `none` without a retriever, and where it raises.
  pub search : ℕ → Str → Option (List Doc)
  -- The id of the document that is made up where there is no retriever.
  pub fallback : ℕ → Str

-- The state that `execute_plan` changes: the emitter, the tracker and its local lists.
pub record Execution : Type 0 where
  pub emitter : EventEmitter Payload
  pub tracker : BudgetTracker
  pub all_citations : List ResearchCitation
  pub report_chunks : List Str
  pub retrieved_docs : List Doc

-- How a call ends. `raised` is any exception but `BudgetExceededError`.
pub data Outcome (A : Type 0) : Type 0 where
  returned : A → Outcome A
  exceeded : BudgetExceededError → Outcome A
  raised : Outcome A

abbrev pub Action : Type 0 → Type 0
Action A = Execution → Outcome A × Execution

abbrev pub and_then :
    {A B : Type 0} → Outcome A × Execution → (A → Action B) → Outcome B × Execution
and_then (returned a, s) f = f a s
and_then (exceeded e, s) f = (exceeded e, s)
and_then (raised, s) f = (raised, s)

infixl 5 ◌>>=◌ ◌>>◌
unfoldable pub ◌>>=◌ : {A B : Type 0} → Action A → (A → Action B) → Action B
◌>>=◌ m f s = and_then (m s) f

abbrev pub ◌>>◌ : {A B : Type 0} → Action A → Action B → Action B
m >> k = m >>= λ _. k

abbrev pub pure : {A : Type 0} → A → Action A
pure a s = (returned a, s)

abbrev pub modify : (Execution → Execution) → Action (Unit {0})
modify f s = (returned tt, f s)

abbrev pub get : Action Execution
get s = (returned s, s)

-- `self._budget.check()`
unfoldable pub check_budget : ℕ → Action (Unit {0})
unfolding check
check_budget elapsed s = elim (check elapsed s.tracker) [
  | none ↦ (returned tt, s)
  | some e ↦ (exceeded e, s)
]

-- `EventEmitter.emit`, with whether it returns. An id that the emitter took stays taken when it raises.
unfoldable pub post :
    Str → EventType → Payload → ℕ → EventEmitter Payload → Bool × EventEmitter Payload
unfolding emit take_id
post job_id kind payload now em = elim (emit job_id kind payload now em) [
  | none ↦ (false, (take_id job_id em).1)
  | some em' ↦ (true, em')
]

-- `self._emitter.emit(…)`
unfoldable pub send : Str → EventType → Payload → ℕ → Action (Unit {0})
unfolding post
send job_id kind payload now s =
    let (sent, em) = post job_id kind payload now s.emitter in
    (if sent then returned tt else raised, record s { emitter = em })
