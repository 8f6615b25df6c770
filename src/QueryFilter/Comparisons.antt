-- ===== src/QueryFilter/Comparisons.antt =====
-- `parse_comparison` ends, and counts and returns one leaf that is in bounds.
use verisearch.Prelude.{
  ℕ, ◌≤◌, refl, none, List, [], ◌∷◌, ltb, ltb→le, Str, codes, length, take, arith, All,
}
use verisearch.QueryFilter.Ast.{Literal, RangeOp, in_set, leaves}
use verisearch.QueryFilter.Host.{Host}
use verisearch.QueryFilter.State.{State, pure, ◌>>=◌}
use verisearch.QueryFilter.Lexer.{first}
use verisearch.QueryFilter.Parser.{
  Operator, equal, not_equal, ordering, two_char_operator, one_char_operator, count_leaf,
  comparison_node, keyword_operators, keyword_operator, parse_operator, parse_in, parse_comparison,
}
use verisearch.QueryFilter.Rules.{
  Ensures, if-Ensures, error-Ensures, get-Ensures, Steps, Steps-refl, Gives, Any, Gives-pure,
  Gives-error, Gives-option, Gives-get, Gives-modify, Gives-bind, skip-Steps, From-weaken,
}
use verisearch.QueryFilter.LexerRules.{
  blank-Gives, advance-Gives, expect_char-Gives, IsField, parse_field-Gives,
}
use verisearch.QueryFilter.LiteralRules.{
  IsLiteral, AreValues, parse_value-Gives, parse_value_list-Gives,
}
use verisearch.QueryFilter.Trees.{height, IsWellFormed}
use verisearch.QueryFilter.ParserRules.{
  Parsed, Parsed-weaken, lexical-Parsed, leaf-Parsed, keyword-Ensures,
}

-- The keywords of a table are not empty.
abbrev AreKeywords : List (Str × RangeOp) → Type 0
AreKeywords = All (λ entry. 1 ≤ length entry.0)

module _ {F : Type 0} (host : Host F) where
  keyword_operator-Gives :
      (table : List (Str × RangeOp)) → AreKeywords table → Gives Any (keyword_operator host table)
  unfolding keyword_operator
  keyword_operator-Gives [] h = Gives-pure Any none tt
  keyword_operator-Gives ((keyword, op) ∷ others) h = Gives-get Any _ λ s.
      keyword-Ensures host (λ _ t. Steps s t × Unit) keyword s s _ _ h.0 (Steps-refl s)
        (λ t p _. (p, tt))
        (λ t p. From-weaken Any s t _ p ((keyword_operator-Gives others h.1).at t))

  parse_operator-Gives : Gives Any (parse_operator host)
  unfolding parse_operator
  parse_operator-Gives = Gives-bind Any Any _ _ blank-Gives λ _ _. Gives-get Any _ λ s.
      (Gives-option Any (first s.rest) _ _ (Gives-error Any _) λ ch.
          Gives-option Any (two_char_operator (take 2 s.rest)) _ _
            (Gives-option Any (one_char_operator ch) _ _
              (Gives-bind Any Any _ _ (keyword_operator-Gives keyword_operators (omega arith))
                λ found _.
                  Gives-option Any found _ _ (Gives-error Any _) (λ op. Gives-pure Any op tt))
              (λ op. Gives-bind Any Any _ _ advance-Gives (λ _ _. Gives-pure Any op tt)))
            (λ op.
              Gives-bind Any Any _ _ (Gives-modify _ (skip-Steps 2))
                λ _ _. Gives-pure Any op tt)).at
        s

  leaf_of_operator :
      (k : ℕ) (field : Str) (op : Operator) (value : Literal F) (s : State)
      → IsField field
      → IsLiteral value
      → Ensures (Parsed k s) ((count_leaf >>= λ _. pure (comparison_node field op value)) s)
  unfolding leaves height IsWellFormed
  leaf_of_operator k field equal value s f v = leaf-Parsed k _ s refl refl (f, v)
  leaf_of_operator k field not_equal value s f v = leaf-Parsed k _ s refl refl (f, v)
  leaf_of_operator k field (ordering op) value s f v = leaf-Parsed k _ s refl refl (f, v)

  leaf_of_set :
      (k : ℕ) (field : Str) (values : List (Literal F)) (s : State)
      → IsField field × (1 ≤ length values) × (length values ≤ 256) × All IsLiteral values
      → Ensures (Parsed k s) ((count_leaf >>= λ _. pure (in_set field values)) s)
  unfolding leaves height IsWellFormed
  leaf_of_set k field values s good = leaf-Parsed k _ s refl refl good

  parse_in-Parsed :
      (k : ℕ) (field : Str) (s : State)
      → IsField field
      → Ensures (Parsed k s) (parse_in host field s)
  unfolding parse_in
  parse_in-Parsed k field s good =
      lexical-Parsed k Any s _ _ ((expect_char-Gives b'(').at s) λ _ t _ _.
        lexical-Parsed k (AreValues host) t _ _ ((parse_value_list-Gives host).at t)
          λ values u _ vs. lexical-Parsed k Any u _ _ ((expect_char-Gives b')').at u) λ _ v _ _.
            if-Ensures (Parsed k v) v (ltb (length values) 1) _ _ (λ _. error-Ensures _ v _)
              λ _.
                if-Ensures (Parsed k v) v (ltb 256 (length values)) _ _ (λ _. error-Ensures _ v _)
                  λ fits. leaf_of_set k field values v (good, vs.0, ltb→le _ _ fits, vs.1)

  pub parse_comparison-Parsed : (k : ℕ) (s : State) → Ensures (Parsed k s) (parse_comparison host s)
  unfolding parse_comparison
  parse_comparison-Parsed k s = lexical-Parsed k Any s _ _ (blank-Gives.at s) λ _ t _ _.
      lexical-Parsed k IsField t _ _ ((parse_field-Gives host).at t) λ field u _ good.
        lexical-Parsed k Any u _ _ (blank-Gives.at u) λ _ v _ _. get-Ensures (Parsed k v) v _ (
          keyword-Ensures host (Parsed k v) (codes "in") v v _ _ (omega arith) (Steps-refl v)
            (λ w p _. Parsed-weaken k v w _ p (parse_in-Parsed k field w good))
            (λ w p. Parsed-weaken k v w _ p (
              lexical-Parsed k Any w _ _ (parse_operator-Gives.at w) λ op x _ _.
                lexical-Parsed k _ x _ _ ((parse_value-Gives host).at x)
                  λ value y _ fine. leaf_of_operator k field op value y good fine)))
