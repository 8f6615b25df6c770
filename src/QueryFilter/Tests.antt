-- ===== src/QueryFilter/Tests.antt =====
-- Runs of the parser on concrete filters, and the theorems at concrete inputs.
use verisearch.Prelude.{
  ◌+◌, ◌<◌, ◌⊎◌, ◌≤◌, ◌≡◌, ◌≢◌, refl, none, reverse, [], ◌∷◌, Str, codes, length, all, arith, false,
  List, ◌++◌, str_eq, join, replace,
}
use verisearch.QueryFilter.Ast.{
  Literal, string_literal, number_literal, gt, FilterNode, eq, in_set, range, negation, conj, disj,
  nil, cons, timestamp_literal,
}
use verisearch.QueryFilter.State.{
  ok, fail, recursion_error, diverge, State, ParseError, syntax_error, expected_value, error,
  get_position, ◌>>=◌,
}
use verisearch.QueryFilter.Parser.{
  parse, parse_expr, parse_or_expr, parse_chain, more_operands, parse_not_expr, parse_primary,
  parse_comparison, parse_in, parse_operator, keyword_operator, count_leaf, enter, leave, finish,
}
use verisearch.QueryFilter.Lexer.{
  expect_char, match_keyword, skip_whitespace, skip_while, parse_field, parse_identifier,
  taken_while, dotted_parts, check_field,
}
use verisearch.QueryFilter.Literals.{
  parse_value, parse_value_list, more_values, unescape, parse_number, parse_number_or_timestamp,
  match_timestamp, string_body,
}
use verisearch.QueryFilter.Ascii.{ascii}
use verisearch.QueryFilter.Bounds.{Accepted, parse-returns, parse-Bounded}
use verisearch.QueryFilter.Printer.{Floats, print_values, print_filter, print_node, sort_literals}
use verisearch.QueryFilter.Escapes.{at, behind}
use verisearch.QueryFilter.Printed.{parse_in-print_values}
use verisearch.QueryFilter.NotChains.{nots, negations, parse-nots}

abbrev sample : Str
sample = codes "url = \"a\\nb\" and not (domain in (1, -2.5e3) or published_at gt 2024-01-02)"

abbrev sample_tree : FilterNode Str
sample_tree = conj (
    cons (eq (codes "url") (string_literal (codes "a\nb"))) (
      cons
        (negation (
          disj (
            cons
              (in_set (codes "domain")
                (number_literal (codes "1") ∷ number_literal (codes "-2.5e3") ∷ []))
              (cons (range (codes "published_at") gt (timestamp_literal (codes "2024-01-02")))
                nil))))
        nil))

abbrev sample_end : State
sample_end = record { before = reverse sample; rest = []; depth = 0; leaf_count = 3 }

parse-sample : parse ascii 900 sample ≡ ok sample_tree sample_end
unfolding parse parse_expr parse_or_expr parse_chain more_operands parse_not_expr parse_primary
    parse_comparison parse_in parse_operator keyword_operator count_leaf enter leave finish
    expect_char match_keyword skip_whitespace skip_while parse_field parse_identifier taken_while
    dotted_parts check_field parse_value parse_value_list more_values unescape parse_number
    parse_number_or_timestamp match_timestamp string_body error ◌>>=◌
parse-sample = refl

-- A missing value is reported where the value should stand.
parse_missing_value :
    parse ascii 900 (codes "url = ")
    ≡ fail (record { code = syntax_error; message = expected_value none; line = 1; column = 7 })
unfolding parse parse_expr parse_or_expr parse_chain parse_not_expr parse_primary parse_comparison
    match_keyword skip_whitespace skip_while parse_field parse_identifier taken_while dotted_parts
    check_field parse_operator parse_value error get_position enter ◌>>=◌
parse_missing_value = refl

parse-returns_example :
    (parse ascii 900 sample ≢ diverge)
    × (165 + length sample ≤ 900
        → ((node : FilterNode Str) × (t : State) × (parse ascii 900 sample ≡ ok node t))
          ⊎ ((e : ParseError) × (parse ascii 900 sample ≡ fail e)))
parse-returns_example = parse-returns ascii 900 sample

parse-Bounded_example :
    (all ascii.is_space sample ≡ false) × (length sample ≤ 16384) × Accepted sample_tree sample_end
parse-Bounded_example = parse-Bounded ascii 900 sample sample_tree sample_end parse-sample

parse-nots_example :
    (3 + 5 ≤ 7 → (t : State) × (parse ascii 7 (nots 3) ≡ ok (negations 3) t))
    × (7 < 3 + 5 → parse ascii 7 (nots 3) ≡ recursion_error)
parse-nots_example = parse-nots 3 7 (omega arith)

-- Floats that are kept as their text.
abbrev floats : Floats Str
floats = record {
  is_whole = λ x. false;
  whole = λ x. x;
  general = λ x. x;
  plain = λ x. x;
  equal = str_eq;
}

abbrev quoted : List (Literal Str)
quoted = string_literal (codes "say \"b\"") ∷ string_literal (codes "a\\n") ∷ []

parse_in-print_values_example :
    parse_in ascii
      (codes "url")
      (at [] (codes " (" ++ (print_values floats quoted ++ (codes ")" ++ codes " and"))) 0 7)
    ≡ ok (in_set (codes "url") (sort_literals floats quoted)) (
        at (behind (codes " (" ++ (print_values floats quoted ++ codes ")")) []) (codes " and") 0 8)
parse_in-print_values_example =
    parse_in-print_values ascii floats (codes "url") quoted (codes " and") [] 0 7
      (omega arith, (omega arith, tt)) (omega arith) (omega arith) (omega arith)

-- A disjunction within a conjunction is put in parentheses, and the children are sorted.
abbrev nested : FilterNode Str
nested = conj (
    cons (eq (codes "url") (string_literal (codes "b"))) (
      cons
        (disj (
          cons (eq (codes "tld") (string_literal (codes "x")))
            (cons (negation (eq (codes "domain") (string_literal (codes "y")))) nil)))
        nil))

print-nested :
    print_filter floats nested ≡ codes "(not domain = \"y\" or tld = \"x\") and url = \"b\""
unfolding print_node join replace
print-nested = refl
