-- ===== src/Pipeline/Order.antt =====
-- The order in which the steps of a pipeline run.
use verisearch.Prelude.{
  ℕ, ◌≤◌, ◌<◌, Bool, true, false, List, [], ◌∷◌, ◌++◌, ltb, leb, if◌then◌else◌, if_property, All,
  All-append, subst, ◌≡◌, refl, sym, ap, ◌∙◌, arith, Bool-cases, inl, inr,
}
use verisearch.Pipeline.Models.{StepType, filter, reranker, transform, PipelineStep}
use verisearch.Pipeline.Executor.{
  type_order, order_of, insert_step, apply_type_ordering, is_ordered_from,
  has_explicit_type_ordering, execution_order,
}

abbrev pub same_type : StepType → StepType → Bool
same_type filter filter = true
same_type reranker reranker = true
same_type transform transform = true
same_type _ _ = false

type_order-same_type : (a b : StepType) → same_type a b ≡ true → type_order a ≡ type_order b
type_order-same_type filter filter e = refl
type_order-same_type filter reranker e = cc
type_order-same_type filter transform e = cc
type_order-same_type reranker filter e = cc
type_order-same_type reranker reranker e = refl
type_order-same_type reranker transform e = cc
type_order-same_type transform filter e = cc
type_order-same_type transform reranker e = cc
type_order-same_type transform transform e = refl

module _ {C : Type 0} where
  -- The steps of one type, as they were declared.
  unfoldable pub of_type : StepType → List (PipelineStep C) → List (PipelineStep C)
  of_type kind [] = []
  of_type kind (s ∷ ss) =
      let rest = of_type kind ss in if same_type s.type kind then s ∷ rest else rest

  abbrev pub by_type : List (PipelineStep C) → List (PipelineStep C)
  by_type steps = of_type filter steps ++ (of_type reranker steps ++ of_type transform steps)

  -- Every step comes at the given place or later.
  abbrev AllFrom : ℕ → List (PipelineStep C) → Type 0
  AllFrom n = All (λ s. n ≤ order_of s)

  -- A step goes before those that come no earlier.
  insert_step-front :
      (s : PipelineStep C) (ts : List (PipelineStep C))
      → AllFrom (order_of s) ts
      → insert_step s ts ≡ s ∷ ts
  unfolding insert_step
  insert_step-front s [] h = refl
  insert_step-front s (t ∷ ts) h =
      let e : leb (order_of s) (order_of t) ≡ true = ground arith in rw e

  -- A step goes behind those that come earlier.
  insert_step-behind :
      (s : PipelineStep C) (ts us : List (PipelineStep C))
      → All (λ t. order_of t < order_of s) ts
      → insert_step s (ts ++ us) ≡ ts ++ insert_step s us
  unfolding insert_step
  insert_step-behind s [] us h = refl
  insert_step-behind s (t ∷ ts) us h =
      let e : leb (order_of s) (order_of t) ≡ false = ground arith in
      rw e (ap (λ r. t ∷ r) (insert_step-behind s ts us h.1))

  All-of_type :
      (P : ℕ → Type 0) (kind : StepType) (ss : List (PipelineStep C))
      → P (type_order kind)
      → All (λ s. P (order_of s)) (of_type kind ss)
  unfolding of_type
  All-of_type P kind [] p = tt
  All-of_type P kind (s ∷ ss) p =
      if_property (All (λ t. P (order_of t))) (same_type s.type kind) (s ∷ of_type kind ss)
        (of_type kind ss)
        (λ e. (subst P (sym (type_order-same_type s.type kind e)) p, All-of_type P kind ss p))
        (λ _. All-of_type P kind ss p)

  -- The step goes behind the last of its own type and those before it.
  insert_step-by_type :
      (k : StepType) (s : PipelineStep C) (ss : List (PipelineStep C))
      → s.type ≡ k
      → insert_step s (by_type ss) ≡ by_type (s ∷ ss)
  unfolding of_type
  insert_step-by_type filter s ss e =
      let order : order_of s ≡ 0 = ap type_order e in
      insert_step-front s (by_type ss) (
        All-append (λ t. order_of s ≤ order_of t) (of_type filter ss)
          (of_type reranker ss ++ of_type transform ss)
          (All-of_type (λ n. order_of s ≤ n) filter ss (omega (arith, order)))
          (All-append (λ t. order_of s ≤ order_of t) (of_type reranker ss) (of_type transform ss)
            (All-of_type (λ n. order_of s ≤ n) reranker ss (omega (arith, order)))
            (All-of_type (λ n. order_of s ≤ n) transform ss (omega (arith, order)))))
      ∙ rw e
  insert_step-by_type reranker s ss e =
      let order : order_of s ≡ 1 = ap type_order e in
      insert_step-behind s (of_type filter ss) (of_type reranker ss ++ of_type transform ss)
        (All-of_type (λ n. n < order_of s) filter ss (omega (arith, order)))
      ∙ ap (λ us. of_type filter ss ++ us)
          (insert_step-front s (of_type reranker ss ++ of_type transform ss) (
            All-append (λ t. order_of s ≤ order_of t) (of_type reranker ss) (of_type transform ss)
              (All-of_type (λ n. order_of s ≤ n) reranker ss (omega (arith, order)))
              (All-of_type (λ n. order_of s ≤ n) transform ss (omega (arith, order)))))
      ∙ rw e
  insert_step-by_type transform s ss e =
      let order : order_of s ≡ 2 = ap type_order e in
      insert_step-behind s (of_type filter ss) (of_type reranker ss ++ of_type transform ss)
        (All-of_type (λ n. n < order_of s) filter ss (omega (arith, order)))
      ∙ ap (λ us. of_type filter ss ++ us)
          (insert_step-behind s (of_type reranker ss) (of_type transform ss)
              (All-of_type (λ n. n < order_of s) reranker ss (omega (arith, order)))
            ∙ ap (λ us. of_type reranker ss ++ us)
                (insert_step-front s (of_type transform ss)
                  (All-of_type (λ n. order_of s ≤ n) transform ss (omega (arith, order)))))
      ∙ rw e

  apply_type_ordering-eq-by_type :
      (ss : List (PipelineStep C)) → apply_type_ordering ss ≡ by_type ss
  unfolding apply_type_ordering of_type
  apply_type_ordering-eq-by_type [] = refl
  apply_type_ordering-eq-by_type (s ∷ ss) =
      ap (insert_step s) (apply_type_ordering-eq-by_type ss) ∙ insert_step-by_type s.type s ss refl

  -- Sorting changes nothing where the declared order is the order of the types.
  insert_step-ordered :
      (s : PipelineStep C) (ss : List (PipelineStep C))
      → is_ordered_from (order_of s) ss ≡ true
      → insert_step s ss ≡ s ∷ ss
  unfolding insert_step is_ordered_from
  insert_step-ordered s [] h = refl
  insert_step-ordered s (t ∷ ts) h =
      let e : leb (order_of s) (order_of t) ≡ true = ground arith in rw e

  is_ordered_from-tail :
      (n : ℕ) (s : PipelineStep C) (ss : List (PipelineStep C))
      → is_ordered_from n (s ∷ ss) ≡ true
      → is_ordered_from (order_of s) ss ≡ true
  unfolding is_ordered_from
  is_ordered_from-tail n s ss h = elim (Bool-cases (ltb (order_of s) n)) [
    | inl early ↦ let q : false ≡ true = rw early at h in cc
    | inr fits ↦ rw fits at h
  ]

  apply_type_ordering-ordered :
      (n : ℕ) (ss : List (PipelineStep C))
      → is_ordered_from n ss ≡ true
      → apply_type_ordering ss ≡ ss
  unfolding apply_type_ordering
  apply_type_ordering-ordered n [] h = refl
  apply_type_ordering-ordered n (s ∷ ss) h =
      let rest = is_ordered_from-tail n s ss h in
      ap (insert_step s) (apply_type_ordering-ordered (order_of s) ss rest)
      ∙ insert_step-ordered s ss rest

  -- A pipeline runs its filters, then its rerankers, then its transforms, each in their declared
  -- order, whether the declared steps are sorted by type already or not.
  pub execution_order-eq-by_type :
      (steps : List (PipelineStep C)) → execution_order steps ≡ by_type steps
  unfolding execution_order has_explicit_type_ordering
  execution_order-eq-by_type steps = elim (Bool-cases (has_explicit_type_ordering steps)) [
    | inl sorted ↦
        rw (execution_order, sorted)
          (sym (apply_type_ordering-ordered 0 steps sorted) ∙ apply_type_ordering-eq-by_type steps)
    | inr mixed ↦ rw (execution_order, mixed) (apply_type_ordering-eq-by_type steps)
  ]
