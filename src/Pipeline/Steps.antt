-- ===== src/Pipeline/Steps.antt =====
-- The calls that change a `PipelineService` or its registry, and what they keep true.
use verisearch.Prelude.{
  ℕ, suc, ◌≤◌, true, false, not, ◌||◌, List, [], ◌∷◌, map, ltb, All-imp, is_empty, length, All, Str,
  str_eq, ◌≡◌, refl, ap, ◌∙◌, arith, Bool-cases, Option-cases, inl, inr,
}
use verisearch.Prelude.Dict.{lookup, lookup-insert, All-insert, All-remove}
use verisearch.Pipeline.Models.{
  StepType, Attempt, PipelineStep, PipelineDefinition, StepRegistryEntry, PipelineRegistry,
  register, is_some, exists, get_unknown_steps,
}
use verisearch.Pipeline.Service.{
  PipelineService, StepRequest, build_steps, built, create_pipeline, delete_pipeline,
}

pub data Operation (R C : Type 0) : Type 0 where
  creating : (id tenant name : Str) → List (StepRequest C) → Operation R C
  deleting : (id tenant : Str) → Operation R C
  registering : (name : Str) → StepType → (List R → C → ℕ → Attempt R) → Operation R C

counted :
    {C : Type 0} (steps : List (StepRequest C))
    → (is_empty steps || ltb 20 (length steps)) ≡ false
    → 1 ≤ length steps × length steps ≤ 20
counted [] h = cc
counted (s ∷ ss) h = (omega arith, ground arith)

nothing_unknown : (names : List Str) → not (is_empty names) ≡ false → names ≡ []
nothing_unknown [] h = refl
nothing_unknown (n ∷ ns) h = cc

module _ {R C : Type 0} where
  unfoldable pub perform : Operation R C → PipelineService R C → PipelineService R C
  unfolding create_pipeline delete_pipeline
  perform (creating id tenant name steps) svc = (create_pipeline id tenant name steps svc).1
  perform (deleting id tenant) svc = (delete_pipeline id tenant svc).1
  perform (registering name kind fn) svc = record svc {
    registry = register name kind fn svc.registry;
  }

  unfoldable pub perform_all : List (Operation R C) → PipelineService R C → PipelineService R C
  unfolding perform
  perform_all [] svc = svc
  perform_all (o ∷ os) svc = perform_all os (perform o svc)

  -- A step that the registry knows, with a timeout from 100 to 30000 milliseconds.
  abbrev pub IsRunnable : PipelineRegistry R C → PipelineStep C → Type 0
  IsRunnable registry s =
      (exists s.name registry ≡ true) × (100 ≤ s.timeout_ms) × (s.timeout_ms ≤ 30000)

  pub record IsValid (registry : PipelineRegistry R C) (p : PipelineDefinition C) : Type 0 where
    pub some_steps : 1 ≤ length p.steps
    pub few_steps : length p.steps ≤ 20
    pub runnable : All (IsRunnable registry) p.steps

  abbrev pub IsValidService : PipelineService R C → Type 0
  IsValidService svc = All (λ e. IsValid svc.registry e.1) svc.pipelines

  exists-register :
      (name other : Str) (kind : StepType) (fn : List R → C → ℕ → Attempt R)
      (registry : PipelineRegistry R C)
      → exists other registry ≡ true
      → exists other (register name kind fn registry) ≡ true
  exists-register name other kind fn registry h =
      let e : StepRegistryEntry R C = record { step_type = kind; fn = fn } in
      ap is_some (lookup-insert name other e registry)
      ∙ elim (Bool-cases (str_eq name other)) [ inl same ↦ rw same | inr apart ↦ rw apart h ]

  -- Where no name is unknown, every step of the request is known, and so is every step that is built.
  build_steps-IsRunnable :
      (registry : PipelineRegistry R C) (steps : List (StepRequest C))
      → get_unknown_steps (map (λ s. s.name) steps) registry ≡ []
      → All (IsRunnable registry) (build_steps registry steps)
  unfolding get_unknown_steps build_steps
  build_steps-IsRunnable registry [] e = tt
  build_steps-IsRunnable registry (s ∷ ss) e = elim (Bool-cases (exists s.name registry)) [
    | inl known ↦
        ((known, omega arith, omega arith), build_steps-IsRunnable registry ss (rw known at e))
    | inr unknown ↦
        let q : s.name ∷ get_unknown_steps (map (λ r. r.name) ss) registry ≡ [] = rw unknown at e in
        cc
  ]

  length-build_steps :
      (registry : PipelineRegistry R C) (steps : List (StepRequest C))
      → length (build_steps registry steps) ≡ length steps
  unfolding build_steps
  length-build_steps registry [] = refl
  length-build_steps registry (s ∷ ss) = ap suc (length-build_steps registry ss)

  create_pipeline-IsValid :
      (id tenant name : Str) (steps : List (StepRequest C)) (svc : PipelineService R C)
      → IsValidService svc
      → IsValidService (create_pipeline id tenant name steps svc).1
  unfolding create_pipeline
  create_pipeline-IsValid id tenant name steps svc h =
      let unknown = get_unknown_steps (map (λ s. s.name) steps) svc.registry in
      elim (Bool-cases (is_empty steps || ltb 20 (length steps))) [
        | inl bad ↦ rw bad h
        | inr count ↦ elim (Bool-cases (not (is_empty unknown))) [
          | inl strange ↦ rw (count, strange) h
          | inr known ↦
              rw (count, known)
                (All-insert (IsValid svc.registry) id (built id tenant name steps svc.registry)
                  svc.pipelines (valid (counted steps count) (nothing_unknown unknown known)) h)
        ]
      ]
    where
      valid :
          1 ≤ length steps × length steps ≤ 20
          → get_unknown_steps (map (λ s. s.name) steps) svc.registry ≡ []
          → IsValid svc.registry (built id tenant name steps svc.registry)
      valid c e = record {
        some_steps = omega (arith, length-build_steps svc.registry steps, c.0);
        few_steps = omega (arith, length-build_steps svc.registry steps, c.1);
        runnable = build_steps-IsRunnable svc.registry steps e;
      }

  delete_pipeline-IsValid :
      (id tenant : Str) (svc : PipelineService R C)
      → IsValidService svc
      → IsValidService (delete_pipeline id tenant svc).1
  unfolding delete_pipeline
  delete_pipeline-IsValid id tenant svc h = elim (Option-cases (lookup id svc.pipelines)) [
    | inl missing ↦ rw (delete_pipeline, missing) h
    | inr (p, there) ↦ elim (Bool-cases (not (str_eq p.tenant_id tenant))) [
      | inl other ↦ rw (delete_pipeline, there) (rw other h)
      | inr own ↦
          rw (delete_pipeline, there)
            (rw own (All-remove (λ e. IsValid svc.registry e.1) id svc.pipelines h))
    ]
  ]

  pub perform-IsValid :
      (o : Operation R C) (svc : PipelineService R C)
      → IsValidService svc
      → IsValidService (perform o svc)
  unfolding perform
  perform-IsValid (creating id tenant name steps) svc h =
      create_pipeline-IsValid id tenant name steps svc h
  perform-IsValid (deleting id tenant) svc h = delete_pipeline-IsValid id tenant svc h
  perform-IsValid (registering name kind fn) svc h =
      let after = register name kind fn svc.registry in
      All-imp (λ e. IsValid svc.registry e.1) (λ e. IsValid after e.1)
        (λ e v. record {
          some_steps = v.some_steps;
          few_steps = v.few_steps;
          runnable =
              All-imp (IsRunnable svc.registry) (IsRunnable after)
                (λ s r. (exists-register name s.name kind fn svc.registry r.0, r.1, r.2)) e.1.steps
                v.runnable;
        })
        svc.pipelines h

  pub perform_all-IsValid :
      (os : List (Operation R C)) (svc : PipelineService R C)
      → IsValidService svc
      → IsValidService (perform_all os svc)
  unfolding perform_all
  perform_all-IsValid [] svc h = h
  perform_all-IsValid (o ∷ os) svc h =
      perform_all-IsValid os (perform o svc) (perform-IsValid o svc h)
