-- ===== src/QueryFilter/Bounds.antt =====
-- `parse` of backend/query_filter/parser.py as a whole: it ends on every input, and what it accepts
-- is in bounds.
use verisearch.Prelude.{
  ℕ, ◌+◌, ◌≤◌, ◌≡◌, ◌≢◌, ◌⊎◌, sym, ◌∙◌, refl, false, ◌||◌, none, [], ◌∷◌, ltb, Str, length,
  is_empty, all, arith, subst, Bool-cases, inl, inr,
}
use verisearch.QueryFilter.Ast.{FilterNode, leaves}
use verisearch.QueryFilter.Host.{Host}
use verisearch.QueryFilter.State.{
  State, ParseError, Result, ok, fail, recursion_error, diverge, init,
}
use verisearch.QueryFilter.Frames.{Below, parse-Below}
use verisearch.QueryFilter.Lexer.{first, skip_whitespace}
use verisearch.QueryFilter.Parser.{parse, finish}
use verisearch.QueryFilter.Rules.{
  Ensures, bind-Ensures, modify-Ensures, peek-Ensures, error-Ensures, skip_whitespace-Steps, Steps,
}
use verisearch.QueryFilter.Trees.{height, IsWellFormed}
use verisearch.QueryFilter.ParserRules.{Parsed}
use verisearch.QueryFilter.Expressions.{parse_expr-Parsed}

-- What is known of an accepted filter, and of the state in which the parser stops.
pub record Accepted {F : Type 0} (node : FilterNode F) (t : State) : Type 0 where
  pub well_formed : IsWellFormed node
  pub few_leaves : leaves node ≤ 1024
  pub low : height node ≤ 64
  pub exhausted : t.rest ≡ []
  pub closed : t.depth ≡ 0

no_first : (s : Str) → first s ≡ none → s ≡ []
no_first [] h = refl
no_first (c ∷ s) h = cc

module _ {F : Type 0} (host : Host F) where
  finish-Accepted :
      (source : Str) (node : FilterNode F) (s : State)
      → Parsed 64 (init source) node s
      → Ensures Accepted (finish host node s)
  unfolding finish
  finish-Accepted source node s p =
      let t : State = skip_whitespace s in
      let blank : Steps s t = skip_whitespace-Steps s in
      modify-Ensures Accepted s skip_whitespace _ (
        peek-Ensures Accepted t _ _
          (λ e. record {
            well_formed = p.well_formed;
            few_leaves = omega arith;
            low = p.low;
            exhausted = no_first t.rest e;
            closed = omega arith;
          })
          (λ ch _. error-Ensures Accepted t _))

  parse-Accepted :
      (frames : ℕ) (input : Str)
      → 165 + length input ≤ frames
      → Ensures Accepted (parse host frames input)
  unfolding parse
  parse-Accepted frames input room = elim (Bool-cases (is_empty input || all host.is_space input)) [
    | inl blank ↦ rw blank tt
    | inr text ↦ rw text (elim (Bool-cases (ltb 16384 (length input))) [
      | inl long ↦ rw long tt
      | inr short ↦ rw short (
          bind-Ensures Accepted (init input) (Parsed 64 (init input)) _ _
            (parse_expr-Parsed host 32 frames (init input) (omega arith) (omega arith))
            (finish-Accepted input))
    ])
  ]

  -- A stack that has room for every call.
  abbrev enough : ℕ → Str → ℕ
  enough frames input = frames + (165 + length input)

  below_enough :
      (frames : ℕ) (input : Str)
      → Below (parse host frames input) (parse host (enough frames input) input)
  below_enough frames input = parse-Below host frames (enough frames input) input (omega arith)

  Accepted-enough :
      (frames : ℕ) (input : Str) → Ensures Accepted (parse host (enough frames input) input)
  Accepted-enough frames input = parse-Accepted (enough frames input) input (omega arith)

  ends :
      (r : Result (FilterNode F))
      → Ensures Accepted r
      → ((node : FilterNode F) × (t : State) × (r ≡ ok node t)) ⊎ ((e : ParseError) × (r ≡ fail e))
  ends (ok node t) h = inl (node, t, refl)
  ends (fail e) h = inr (e, refl)
  ends recursion_error h = absurd h
  ends diverge h = absurd h

  not_diverge : (r r' : Result (FilterNode F)) → Below r r' → Ensures Accepted r' → r ≢ diverge
  not_diverge r r' (inl over) h e = cc
  not_diverge r r' (inr same) h e = subst (Ensures Accepted) (sym same ∙ e) h

  -- On every input, and however little room Python's stack has, no loop and no nesting of the parser uses up
  -- its bound: `parse` returns a tree or an error, or Python raises a RecursionError. Where the stack has
  -- room for 165 calls of the recursive methods and one for each character of the input, `parse` returns.
  pub parse-returns :
      (frames : ℕ) (input : Str)
      → (parse host frames input ≢ diverge)
        × (165 + length input ≤ frames
            → ((node : FilterNode F) × (t : State) × (parse host frames input ≡ ok node t))
              ⊎ ((e : ParseError) × (parse host frames input ≡ fail e)))
  parse-returns frames input = (
    not_diverge (parse host frames input) (parse host (enough frames input) input)
        (below_enough frames input) (Accepted-enough frames input),
    λ room. ends (parse host frames input) (parse-Accepted frames input room),
  )

  guarded :
      (frames : ℕ) (input : Str) {node : FilterNode F} {t : State}
      → parse host frames input ≡ ok node t
      → (all host.is_space input ≡ false) × (length input ≤ 16384)
  unfolding parse
  guarded frames [] e = cc
  guarded frames (c ∷ input) e = ground arith

  accepted :
      (r r' : Result (FilterNode F)) (node : FilterNode F) (t : State)
      → Below r r'
      → Ensures Accepted r'
      → r ≡ ok node t
      → Accepted node t
  accepted r r' node t (inl over) h e = let q : recursion_error ≡ ok node t = sym over ∙ e in cc
  accepted r r' node t (inr same) h e = subst (Ensures Accepted) (sym same ∙ e) h

  -- An accepted input is at most 16384 code points long and not all blank. Its filter has allowed
  -- fields and literals in bounds, sets of 1 to 256 values, two operands or more for each `and` and
  -- `or`, at most 1024 leaf comparisons, and `and` and `or` nested at most 64 deep; the parser has
  -- then read all the input and closed every parenthesis.
  pub parse-Bounded :
      (frames : ℕ) (input : Str) (node : FilterNode F) (t : State)
      → parse host frames input ≡ ok node t
      → (all host.is_space input ≡ false) × (length input ≤ 16384) × Accepted node t
  parse-Bounded frames input node t e =
      let g : (all host.is_space input ≡ false) × (length input ≤ 16384) = guarded frames input e in
      (
        g.0,
        g.1,
        accepted (parse host frames input) (parse host (enough frames input) input) node t
            (below_enough frames input) (Accepted-enough frames input) e,
      )
