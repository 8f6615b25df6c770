-- ===== src/Pipeline/Warnings.antt =====
-- The warnings of a pipeline that the service has stored.
use verisearch.Prelude.{
  ℕ, suc, ◌≤◌, ◌+◌, true, false, not, Option, none, some, List, [], ◌∷◌, ◌++◌, if_property, length,
  length-append, All, All-append, Str, str_eq, ◌≡◌, refl, sym, ap, subst, ◌∙◌, arith, Bool-cases,
  Option-cases, inl, inr,
}
use verisearch.Prelude.Dict.{lookup, All-lookup}
use verisearch.Pipeline.Models.{
  StepType, filter, reranker, transform, Attempt, returned, timed_out, raised, PipelineStep,
  PipelineDefinition, StepWarning, step_timeout, ExecutionResult, PipelineRegistry, is_some, exists,
}
use verisearch.Pipeline.Executor.{
  after_attempt, run_step, run_steps, execution_order, execute_pipeline,
}
use verisearch.Pipeline.Service.{
  PipelineService, Answer, ok, pipeline_not_found, step_raised, get_pipeline, finished, execute,
}
use verisearch.Pipeline.Steps.{Operation, perform_all, IsRunnable, IsValid, perform_all-IsValid}
use verisearch.Pipeline.Order.{same_type, of_type, execution_order-eq-by_type}

abbrev pub IsTimeout : StepWarning → Type 0
IsTimeout w = w.code ≡ step_timeout

-- Two parts of a step's outcome: its warnings are timeouts, and at most one.
abbrev IsQuiet : {R : Type 0} → Option (List R × List StepWarning) → Type 0
IsQuiet none = Unit
IsQuiet (some (results, warnings)) = All IsTimeout warnings × (length warnings ≤ 1)

after_attempt-IsQuiet :
    {R : Type 0} (name : Str) (current : List R) (a : Attempt R)
    → IsQuiet (after_attempt name current a)
after_attempt-IsQuiet name current (returned results) = (tt, omega arith)
after_attempt-IsQuiet name current timed_out = ((refl, tt), omega arith)
after_attempt-IsQuiet name current raised = tt

module _ {R C : Type 0} where
  run_step-IsQuiet :
      (registry : PipelineRegistry R C) (s : PipelineStep C) (current : List R)
      → exists s.name registry ≡ true
      → IsQuiet (run_step registry s current)
  unfolding run_step
  run_step-IsQuiet registry s current known = elim (Option-cases (lookup s.name registry)) [
    | inl missing ↦ let q : false ≡ true = ap is_some (sym missing) ∙ known in cc
    | inr (entry, there) ↦
        rw (run_step, there)
          (after_attempt-IsQuiet s.name current (entry.fn current s.config s.timeout_ms))
  ]

  run_steps-IsTimeout :
      (registry : PipelineRegistry R C) (steps : List (PipelineStep C)) (current : List R)
      (warnings : List StepWarning) (result : ExecutionResult R)
      → All (IsRunnable registry) steps
      → All IsTimeout warnings
      → run_steps registry steps current warnings ≡ some result
      → All IsTimeout result.warnings × (length result.warnings ≤ length warnings + length steps)
  unfolding run_steps
  run_steps-IsTimeout registry [] current warnings result h w e =
      let q : record { results = current; warnings = warnings } ≡ result = cc in
      let r : warnings ≡ result.warnings = ap (λ x. x.warnings) q in
      (subst (All IsTimeout) r w, omega (arith, ap length r))
  run_steps-IsTimeout registry (s ∷ ss) current warnings result h w e =
      elim (Option-cases (run_step registry s current)) [
        | inl stopped ↦ let q : none ≡ some result = rw (run_steps, stopped) at e in cc
        | inr ((results, more), went) ↦
            let quiet : IsQuiet (some (results, more)) =
              subst IsQuiet went (run_step-IsQuiet registry s current h.0.0) in
            let rest =
              run_steps-IsTimeout registry ss results (warnings ++ more) result h.1
                (All-append IsTimeout warnings more w quiet.0) (rw (run_steps, went) at e) in
            (rest.0, omega (arith, rest.1, quiet.1, length-append warnings more))
      ]

module _ {C : Type 0} where
  All-of_type :
      (P : PipelineStep C → Type 0) (kind : StepType) (ss : List (PipelineStep C))
      → All P ss
      → All P (of_type kind ss)
  unfolding of_type
  All-of_type P kind [] h = tt
  All-of_type P kind (s ∷ ss) h =
      if_property (All P) (same_type s.type kind) (s ∷ of_type kind ss) (of_type kind ss)
        (λ _. (h.0, All-of_type P kind ss h.1)) (λ _. All-of_type P kind ss h.1)

  All-execution_order :
      (P : PipelineStep C → Type 0) (ss : List (PipelineStep C))
      → All P ss
      → All P (execution_order ss)
  All-execution_order P ss h = subst (All P) (sym (execution_order-eq-by_type ss)) (
      All-append P (of_type filter ss) (of_type reranker ss ++ of_type transform ss)
        (All-of_type P filter ss h)
        (All-append P (of_type reranker ss) (of_type transform ss) (All-of_type P reranker ss h)
          (All-of_type P transform ss h)))

  abbrev count_of : StepType → List (PipelineStep C) → ℕ
  count_of kind ss = length (of_type kind ss)

  counted_once :
      (k : StepType) (s : PipelineStep C) (ss : List (PipelineStep C))
      → s.type ≡ k
      → count_of filter (s ∷ ss) + (count_of reranker (s ∷ ss) + count_of transform (s ∷ ss))
        ≡ suc (count_of filter ss + (count_of reranker ss + count_of transform ss))
  unfolding of_type
  counted_once filter s ss e = rw e (omega arith)
  counted_once reranker s ss e = rw e (omega arith)
  counted_once transform s ss e = rw e (omega arith)

  count_all :
      (ss : List (PipelineStep C))
      → count_of filter ss + (count_of reranker ss + count_of transform ss) ≡ length ss
  count_all [] = unfold of_type in omega arith
  count_all (s ∷ ss) = counted_once s.type s ss refl ∙ ap suc (count_all ss)

  length-execution_order : (ss : List (PipelineStep C)) → length (execution_order ss) ≡ length ss
  length-execution_order ss =
      ap length (execution_order-eq-by_type ss)
      ∙ length-append (of_type filter ss) (of_type reranker ss ++ of_type transform ss)
      ∙ ap (λ n. count_of filter ss + n)
          (length-append (of_type reranker ss) (of_type transform ss))
      ∙ count_all ss

finished_ok :
    {R : Type 0} (o : Option (ExecutionResult R)) (result : ExecutionResult R)
    → finished o ≡ ok result
    → o ≡ some result
finished_ok none result e = cc
finished_ok (some r) result e = cc

module _ {R C : Type 0} where
  get_pipeline-found :
      (id tenant : Str) (svc : PipelineService R C) (p : PipelineDefinition C)
      → get_pipeline id tenant svc ≡ ok p
      → lookup id svc.pipelines ≡ some p
  unfolding get_pipeline
  get_pipeline-found id tenant svc p e = elim (Option-cases (lookup id svc.pipelines)) [
    | inl missing ↦ let q : pipeline_not_found ≡ ok p = rw (get_pipeline, missing) at e in cc
    | inr (r, there) ↦ elim (Bool-cases (not (str_eq r.tenant_id tenant))) [
      | inl other ↦
          let q : pipeline_not_found ≡ ok p = rw other at (rw (get_pipeline, there) at e) in cc
      | inr own ↦
          let q : ok r ≡ ok p = rw own at (rw (get_pipeline, there) at e) in
          there ∙ (let same : some r ≡ some p = cc in same)
    ]
  ]

  executed :
      (registry : PipelineRegistry R C) (candidates : List R) (a : Answer (PipelineDefinition C))
      (result : ExecutionResult R)
      → (elim a [
        | ok p ↦ finished (execute_pipeline p candidates registry)
        | _ ↦ pipeline_not_found
      ])
        ≡ ok result
      → (p : PipelineDefinition C) × (a ≡ ok p)
        × (execute_pipeline p candidates registry ≡ some result)
  executed registry candidates (ok p) result e =
      (p, refl, finished_ok (execute_pipeline p candidates registry) result e)
  executed registry candidates Answer.invalid_pipeline result e = cc
  executed registry candidates (Answer.unknown_pipeline_step names) result e = cc
  executed registry candidates pipeline_not_found result e = cc
  executed registry candidates step_raised result e = cc

  -- From a service without pipelines, whatever pipelines are created and deleted and whatever steps are
  -- registered: a pipeline that runs to its end gives at most 20 warnings, each of them a timeout. Its
  -- steps were checked when it was created, and none is missing.
  pub execute-IsTimeout :
      (os : List (Operation R C)) (registry : PipelineRegistry R C) (id tenant : Str)
      (candidates : List R) (result : ExecutionResult R)
      → execute id tenant candidates
          (perform_all os (record { registry = registry; pipelines = [] }))
        ≡ ok result
      → All IsTimeout result.warnings × (length result.warnings ≤ 20)
  unfolding execute execute_pipeline
  execute-IsTimeout os registry id tenant candidates result e =
      let svc : PipelineService R C =
        perform_all os (record { registry = registry; pipelines = [] }) in
      let (p, got, ran) = executed svc.registry candidates (get_pipeline id tenant svc) result e in
      let valid : IsValid svc.registry p =
        All-lookup (IsValid svc.registry) id p svc.pipelines
          (perform_all-IsValid os (record { registry = registry; pipelines = [] }) tt)
          (get_pipeline-found id tenant svc p got) in
      let ends =
        run_steps-IsTimeout svc.registry (execution_order p.steps) candidates [] result
          (All-execution_order (IsRunnable svc.registry) p.steps valid.runnable) tt ran in
      (ends.0, omega (arith, ends.1, valid.few_steps, length-execution_order p.steps))
