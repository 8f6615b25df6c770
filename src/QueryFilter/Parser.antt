-- ===== src/QueryFilter/Parser.antt =====
-- backend/query_filter/parser.py: operators, comparisons, expressions and `parse`.
use verisearch.Prelude.{
  ℕ, zero, suc, ◌+◌, ◌-◌, true, false, ◌||◌, Option, none, some, List, [], ◌∷◌, ◌==◌, ltb,
  if◌then◌else◌, Str, codes, str_eq, length, take, is_empty, all,
}
use verisearch.QueryFilter.Ast.{
  Literal, RangeOp, lt, le, gt, ge, FilterNode, eq, ne, in_set, range, negation, conj, disj, Nodes,
  nil, cons,
}
use verisearch.QueryFilter.Host.{Host}
use verisearch.QueryFilter.State.{
  State, Parser, Result, ok, fail, recursion_error, diverge, empty_input, filter_too_large,
  input_is_empty, input_too_long, unexpected_after, nesting_too_deep, too_many_leaves,
  too_few_values, too_many_values, expected_operator, error, at_start, init, advance, skip, pure,
  ◌>>=◌, ◌>>◌,
}
use verisearch.QueryFilter.Lexer.{
  get, modify, restore, peek, first, skip_whitespace, expect_char, match_keyword, parse_field,
}
use verisearch.QueryFilter.Literals.{parse_value, parse_value_list}

-- Python's stack has no room for the call.
abbrev pub overflow : {A : Type 0} → Parser A
overflow s = recursion_error

abbrev pub max_input_length : ℕ
max_input_length = 16384

abbrev pub max_nesting_depth : ℕ
max_nesting_depth = 32

abbrev pub max_leaf_count : ℕ
max_leaf_count = 1024

abbrev pub max_in_set_size : ℕ
max_in_set_size = 256

-- What `parse_operator` returns: "=", "!=", or one of "lt", "le", "gt", "ge".
pub data Operator : Type 0 where
  equal not_equal : Operator
  ordering : RangeOp → Operator

-- The operators of two characters, and those of one.
unfoldable pub two_char_operator : Str → Option Operator
two_char_operator two =
    if str_eq two (codes "!=")
    then some not_equal
    else if str_eq two (codes "<=")
    then some (ordering le)
    else if str_eq two (codes ">=")
    then some (ordering ge)
    else none

unfoldable pub one_char_operator : ℕ → Option Operator
one_char_operator c =
    if c == b'='
    then some equal
    else if c == b'<'
    then some (ordering lt)
    else if c == b'>'
    then some (ordering gt)
    else none

abbrev pub keyword_operators : List (Str × RangeOp)
keyword_operators = (codes "lt", lt) ∷ (codes "le", le) ∷ (codes "gt", gt) ∷ (codes "ge", ge) ∷ []

-- `self.leaf_count += 1`, and the check on it.
unfoldable pub count_leaf : Parser (Unit {0})
count_leaf s =
    if ltb max_leaf_count (s.leaf_count + 1)
    then fail (at_start filter_too_large too_many_leaves)
    else ok tt (record s { leaf_count = s.leaf_count + 1 })

-- The node that `parse_comparison` builds for an operator.
abbrev pub comparison_node : {F : Type 0} → Str → Operator → Literal F → FilterNode F
comparison_node field equal value = eq field value
comparison_node field not_equal value = ne field value
comparison_node field (ordering op) value = range field op value

-- The node for the operands of a chain of "or", or of "and".
abbrev pub chain_node :
    {F : Type 0} → (Nodes F → FilterNode F) → FilterNode F → Nodes F → FilterNode F
chain_node combine node nil = node
chain_node combine node (cons n ns) = combine (cons node (cons n ns))

-- `parse_expr` on its way in and out, `self.depth += 1` with its check and `self.depth -= 1`.
unfoldable pub enter : Parser (Unit {0})
enter s =
    if ltb max_nesting_depth (s.depth + 1)
    then fail (at_start filter_too_large nesting_too_deep)
    else ok tt (record s { depth = s.depth + 1 })

unfoldable pub leave : State → State
leave s = record s { depth = s.depth - 1 }

module _ {F : Type 0} (host : Host F) where
  -- The keyword operators, tried in turn from the same position.
  unfoldable pub keyword_operator : List (Str × RangeOp) → Parser (Option Operator)
  keyword_operator [] = pure none
  keyword_operator ((keyword, op) ∷ others) = do
    saved ← get
    found ← match_keyword host keyword
    elim found [
      | true ↦ pure (some (ordering op))
      | false ↦ (do modify (restore saved); keyword_operator others)
    ]

  -- `parse_operator`
  unfoldable pub parse_operator : Parser Operator
  unfolding two_char_operator one_char_operator keyword_operator
  parse_operator = do
    modify skip_whitespace
    s ← get
    elim (first s.rest) [
      | none ↦ error (expected_operator none)
      | some ch ↦ elim (two_char_operator (take 2 s.rest)) [
        | some op ↦ (do modify (skip 2); pure op)
        | none ↦ elim (one_char_operator ch) [
          | some op ↦ (do modify advance; pure op)
          | none ↦ (do
            found ← keyword_operator keyword_operators
            elim found [ some op ↦ pure op | none ↦ error (expected_operator (some ch)) ])
        ]
      ]
    ]

  -- `_parse_in`
  unfoldable pub parse_in : Str → Parser (FilterNode F)
  unfolding count_leaf
  parse_in field = do
    expect_char b'('
    values ← parse_value_list host
    expect_char b')'
    if ltb (length values) 1
        then error too_few_values
        else if ltb max_in_set_size (length values)
        then error too_many_values
        else (do count_leaf; pure (in_set field values))

  -- `parse_comparison`
  unfoldable pub parse_comparison : Parser (FilterNode F)
  unfolding parse_in parse_operator count_leaf
  parse_comparison = do
    modify skip_whitespace
    field ← parse_field host
    modify skip_whitespace
    saved ← get
    is_in ← match_keyword host (codes "in")
    elim is_in [
      | true ↦ parse_in field
      | false ↦ (do
        modify (restore saved)
        op ← parse_operator
        value ← parse_value host
        count_leaf
        pure (comparison_node field op value))
    ]

  -- The number `frames` counts the calls of recursive methods, from `parse_expr` down to
  -- `parse_primary`, for which Python's stack still has room, that of the method itself included.

  -- `parse_primary`, over the `parse_expr` that it calls
  unfoldable pub parse_primary : ℕ → (ℕ → Parser (FilterNode F)) → Parser (FilterNode F)
  parse_primary zero expr = overflow
  parse_primary (suc frames) expr = do
    modify skip_whitespace
    c ← peek
    elim c [
      | none ↦ parse_comparison
      | some ch ↦
          if ch == b'('
          then (do modify advance; node ← expr frames; expect_char b')'; pure node)
          else parse_comparison
    ]

  -- `parse_not_expr`
  unfoldable pub parse_not_expr : ℕ → (ℕ → Parser (FilterNode F)) → Parser (FilterNode F)
  parse_not_expr zero expr = overflow
  parse_not_expr (suc frames) expr = do
    modify skip_whitespace
    saved ← get
    found ← match_keyword host (codes "not")
    elim found [
      | true ↦ (do child ← parse_not_expr frames expr; pure (negation child))
      | false ↦ (do modify (restore saved); parse_primary frames expr)
    ]

  -- The loop of `parse_or_expr` and of `parse_and_expr`, behind the first operand.
  unfoldable pub more_operands : ℕ → Str → Parser (FilterNode F) → Parser (Nodes F)
  more_operands zero keyword operand = λ s. diverge
  more_operands (suc fuel) keyword operand = do
    saved ← get
    modify skip_whitespace
    found ← match_keyword host keyword
    elim found [
      | true ↦ (do
        node ← operand
        nodes ← more_operands fuel keyword operand
        pure (cons node nodes))
      | false ↦ (do modify (restore saved); pure nil)
    ]

  -- The loop runs at most once for each character that is left.
  unfoldable pub parse_chain :
      Str → (Nodes F → FilterNode F) → Parser (FilterNode F) → Parser (FilterNode F)
  unfolding more_operands
  parse_chain keyword combine operand = do
    node ← operand
    s ← get
    nodes ← more_operands (suc (length s.rest)) keyword operand
    pure (chain_node combine node nodes)

  -- `parse_and_expr`
  unfoldable pub parse_and_expr : ℕ → (ℕ → Parser (FilterNode F)) → Parser (FilterNode F)
  unfolding parse_chain parse_not_expr parse_primary
  parse_and_expr zero expr = overflow
  parse_and_expr (suc frames) expr = parse_chain (codes "and") conj (parse_not_expr frames expr)

  -- `parse_or_expr`
  unfoldable pub parse_or_expr : ℕ → (ℕ → Parser (FilterNode F)) → Parser (FilterNode F)
  unfolding parse_chain parse_and_expr
  parse_or_expr zero expr = overflow
  parse_or_expr (suc frames) expr = parse_chain (codes "or") disj (parse_and_expr frames expr)

  -- `parse_expr`; the fuel bounds the levels of parentheses.
  unfoldable pub parse_expr : ℕ → ℕ → Parser (FilterNode F)
  unfolding enter leave parse_or_expr
  parse_expr zero frames = λ s. diverge
  parse_expr (suc fuel) zero = overflow
  parse_expr (suc fuel) (suc frames) = do
    enter
    node ← parse_or_expr frames (parse_expr fuel)
    modify leave
    pure node

  -- The rest of `parse` behind a parsed expression: nothing may follow.
  unfoldable pub finish : FilterNode F → Parser (FilterNode F)
  finish node = do
    modify skip_whitespace
    c ← peek
    elim c [ none ↦ pure node | some ch ↦ error (unexpected_after ch) ]

  -- `parse`, where Python's stack has room for `frames` calls of the recursive methods
  unfoldable pub parse : ℕ → Str → Result (FilterNode F)
  unfolding parse_expr finish
  parse frames input_str =
      if is_empty input_str || all host.is_space input_str
      then fail (at_start empty_input input_is_empty)
      else if ltb max_input_length (length input_str)
      then fail (at_start filter_too_large input_too_long)
      else (parse_expr (suc max_nesting_depth) frames >>= finish) (init input_str)
