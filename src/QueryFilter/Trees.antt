-- ===== src/QueryFilter/Trees.antt =====
-- What a parsed tree has: the bounds of the query filter DSL, as predicates on trees.
use verisearch.Prelude.{ℕ, suc, ◌≤◌, max, length, All}
use verisearch.QueryFilter.Ast.{
  FilterNode, eq, ne, in_set, range, negation, conj, disj, Nodes, nil, cons, count,
}
use verisearch.QueryFilter.LexerRules.{IsField}
use verisearch.QueryFilter.LiteralRules.{IsLiteral}

module _ {F : Type 0} where
  -- How many conjunctions and disjunctions stand inside one another.
  unfoldable mutual
    pub height : FilterNode F → ℕ
    height (eq f v) = 0
    height (ne f v) = 0
    height (in_set f vs) = 0
    height (range f op v) = 0
    height (negation n) = height n
    height (conj ns) = suc (height_all ns)
    height (disj ns) = suc (height_all ns)

    pub height_all : Nodes F → ℕ
    height_all nil = 0
    height_all (cons n ns) = max (height n) (height_all ns)

  -- Fields are allowed, literals are in bounds, a set has 1 to 256 values, and a conjunction or a
  -- disjunction has two operands or more.
  unfoldable mutual
    pub IsWellFormed : FilterNode F → Type 0
    IsWellFormed (eq f v) = IsField f × IsLiteral v
    IsWellFormed (ne f v) = IsField f × IsLiteral v
    IsWellFormed (in_set f vs) = IsField f × (1 ≤ length vs) × (length vs ≤ 256) × All IsLiteral vs
    IsWellFormed (range f op v) = IsField f × IsLiteral v
    IsWellFormed (negation n) = IsWellFormed n
    IsWellFormed (conj ns) = (2 ≤ count ns) × AreWellFormed ns
    IsWellFormed (disj ns) = (2 ≤ count ns) × AreWellFormed ns

    pub AreWellFormed : Nodes F → Type 0
    AreWellFormed nil = Unit
    AreWellFormed (cons n ns) = IsWellFormed n × AreWellFormed ns
