-- ===== src/QueryFilter/Ast.antt =====
-- backend/query_filter/ast_types.py: the syntax tree of a filter. `F` is the type of Python floats.
-- A child tuple is `Nodes`, since a data type cannot hold a list of itself.
use verisearch.Prelude.{ℕ, ◌+◌, List, Str, suc}

-- The three literal classes.
pub data Literal (F : Type 0) : Type 0 where
  string_literal : Str → Literal F
  number_literal : F → Literal F
  timestamp_literal : Str → Literal F

-- The operators that `Range.op` may hold.
pub data RangeOp : Type 0 where
  lt le gt ge : RangeOp

mutual
  pub data FilterNode (F : Type 0) : Type 0 where
    eq : Str → Literal F → FilterNode F
    ne : Str → Literal F → FilterNode F
    in_set : Str → List (Literal F) → FilterNode F
    range : Str → RangeOp → Literal F → FilterNode F
    negation : FilterNode F → FilterNode F
    conj : Nodes F → FilterNode F
    disj : Nodes F → FilterNode F

  pub data Nodes (F : Type 0) : Type 0 where
    nil : Nodes F
    cons : FilterNode F → Nodes F → Nodes F

module _ {F : Type 0} where
  -- The number of leaf comparisons in a tree.
  unfoldable mutual
    pub leaves : FilterNode F → ℕ
    leaves (eq f v) = 1
    leaves (ne f v) = 1
    leaves (in_set f vs) = 1
    leaves (range f op v) = 1
    leaves (negation n) = leaves n
    leaves (conj ns) = leaves_all ns
    leaves (disj ns) = leaves_all ns

    pub leaves_all : Nodes F → ℕ
    leaves_all nil = 0
    leaves_all (cons n ns) = leaves n + leaves_all ns

  abbrev pub count : Nodes F → ℕ
  count nil = 0
  count (cons n ns) = suc (count ns)
