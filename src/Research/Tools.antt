-- ===== src/Research/Tools.antt =====
-- backend/research_agent/executor.py: the tools of `ResearchExecutor`. The retriever is a parameter.
use verisearch.Prelude.{
  ℕ, min, Option, none, some, List, [], ◌∷◌, ◌++◌, map, if◌then◌else◌, is_empty, length, take, last,
  Str, codes, join,
}
use verisearch.Research.Planner.{StepType, sub_query, retrieval, read, synthesis, PlanStep, Text}
use verisearch.Research.Execution.{
  Doc, ResearchCitation, ToolCallResult, World, Action, modify, pure, ◌>>◌,
}
use verisearch.Research.Budget.{record_tool_call}

abbrev goal_or : Str → Option Str → Str
goal_or default none = default
goal_or default (some goal) = goal

-- `_execute_sub_query`, without its tool call.
unfoldable pub execute_sub_query : PlanStep → ToolCallResult
execute_sub_query step = record {
  results = [];
  citations = [];
  text = codes "Identified sub-queries for: " ++ take 100 (goal_or step.description step.goal);
}

-- `_execute_retrieval`, without its tool call.
unfoldable pub execute_retrieval : World → ℕ → PlanStep → ToolCallResult
execute_retrieval world i step =
    let query =
      if is_empty step.description
      then goal_or (codes "research") step.goal
      else step.description in
    elim (world.search i (take 200 query)) [
      | some docs ↦ record { results = docs; citations = []; text = [] }
      | none ↦ record {
        results =
            record {
              document_id = world.fallback i;
              version = 1;
              url = codes "https://example.com/doc/" ++ take 8 (world.fallback i);
              title = codes "Document for " ++ take 50 step.description;
              cleaned_text = codes "Content relevant to " ++ take 100 step.description;
            }
            ∷ [];
        citations = [];
        text = [];
      }
    ]

-- The citation and the text of a document that `_execute_read` reads.
abbrev pub citation_of : Doc → ResearchCitation
citation_of doc = record {
  document_id = doc.document_id;
  version = doc.version;
  answer_start = 0;
  answer_end = 50;
  source_start = 0;
  source_end = min 50 (length doc.cleaned_text);
}

abbrev pub text_of : Doc → Str
text_of doc = codes "From " ++ (doc.title ++ (codes ": " ++ take 100 doc.cleaned_text))

-- `_execute_read`, without its tool call.
unfoldable pub execute_read : List Doc → ToolCallResult
unfolding join
execute_read context_docs =
    let docs = last 5 context_docs in
    record {
      results = [];
      citations = map citation_of docs;
      text =
          if is_empty docs
          then codes "No documents to analyze."
          else join (10 ∷ []) (map text_of docs);
    }

-- `_execute_synthesis`, without its tool call.
unfoldable pub execute_synthesis : Text → List Doc → ToolCallResult
execute_synthesis text context_docs = record {
  results = [];
  citations = [];
  text =
      codes "Based on the research conducted, "
      ++ (if is_empty context_docs
          then codes "no relevant documents were found."
          else codes "analysis of "
            ++ (text.str (length context_docs)
                ++ codes " documents reveals the following findings."));
}

abbrev pub tool : Text → World → ℕ → PlanStep → StepType → List Doc → ToolCallResult
tool text world i step sub_query docs = execute_sub_query step
tool text world i step retrieval docs = execute_retrieval world i step
tool text world i step read docs = execute_read docs
tool text world i step synthesis docs = execute_synthesis text docs

-- `_execute_step`: each tool records a call of it first.
unfoldable pub execute_step : Text → World → ℕ → PlanStep → List Doc → Action ToolCallResult
unfolding execute_sub_query execute_retrieval execute_read execute_synthesis
execute_step text world i step docs =
    modify (λ s. record s { tracker = record_tool_call s.tracker })
    >> pure (tool text world i step step.type docs)
