-- ===== src/QueryFilter/NotChains.antt =====
-- Chains of `not` (backend/query_filter/parser.py, `parse_not_expr`).
use verisearch.Prelude.{
  ℕ, zero, suc, ◌+◌, ◌*◌, ◌≤◌, ◌<◌, ◌≡◌, refl, true, false, ◌||◌, is_empty, all, ltb, [], ◌∷◌, Str,
  codes, length, arith,
}
use verisearch.QueryFilter.Ast.{FilterNode, negation, eq, string_literal}
use verisearch.QueryFilter.State.{State, Parser, error, ok, recursion_error, init, and_then, ◌>>=◌}
use verisearch.QueryFilter.Lexer.{
  keyword_matches, match_keyword, parse_field, parse_identifier, taken_while, dotted_parts,
  check_field, skip_while, skip_whitespace,
}
use verisearch.QueryFilter.Literals.{parse_value}
use verisearch.QueryFilter.Parser.{
  more_operands, parse, parse_not_expr, parse_primary, parse_comparison, parse_operator, parse_expr,
  parse_or_expr, finish,
}
use verisearch.QueryFilter.Ascii.{ascii}

-- "not " n times, and a comparison behind it.
abbrev pub nots : ℕ → Str
nots zero = codes "url = \"a\""
nots (suc n) = b'n' ∷ b'o' ∷ b't' ∷ 32 ∷ nots n

abbrev pub negations : ℕ → FilterNode Str
negations zero = eq (codes "url") (string_literal (codes "a"))
negations (suc n) = negation (negations n)

-- The state in which the chain has been read, from one in which `before` stands before it.
abbrev passed : Str → ℕ → Str
passed before zero = b'"' ∷ b'a' ∷ b'"' ∷ 32 ∷ b'=' ∷ 32 ∷ b'l' ∷ b'r' ∷ b'u' ∷ before
passed before (suc n) = passed (32 ∷ b't' ∷ b'o' ∷ b'n' ∷ before) n

abbrev read : Str → ℕ → State
read before n = record { before = passed before n; rest = []; depth = 1; leaf_count = 1 }

abbrev at_chain : Str → ℕ → State
at_chain before n = record { before = before; rest = nots n; depth = 1; leaf_count = 0 }

-- The comparison at the end of the chain.
chain-zero :
    (n : ℕ) (before : Str) (expr : ℕ → Parser (FilterNode Str))
    → parse_not_expr ascii (suc (suc n)) expr (at_chain before zero)
      ≡ ok (negations zero) (read before zero)
unfolding parse_not_expr parse_primary parse_comparison match_keyword skip_whitespace skip_while
    parse_field parse_identifier taken_while dotted_parts check_field parse_operator parse_value
    error ◌>>=◌
chain-zero n before expr = refl

-- There is no room for `parse_primary` behind it.
chain-one :
    (before : Str) (expr : ℕ → Parser (FilterNode Str))
    → parse_not_expr ascii 1 expr (at_chain before zero) ≡ recursion_error
unfolding parse_not_expr parse_primary match_keyword skip_whitespace skip_while ◌>>=◌
chain-one before expr = refl

-- One `not` of the chain.
keyword_not :
    (rest : Str) → keyword_matches ascii (codes "not") (b'n' ∷ b'o' ∷ b't' ∷ 32 ∷ rest) ≡ true
unfolding keyword_matches
keyword_not rest = ground arith

chain-skip :
    (n : ℕ) (before : Str)
    → skip_whitespace (record { before = before; rest = 32 ∷ nots n; depth = 1; leaf_count = 0 })
      ≡ at_chain (32 ∷ before) n
unfolding skip_whitespace skip_while
chain-skip zero before = refl
chain-skip (suc n) before = refl

chain-skip_again : (n : ℕ) (before : Str) → skip_whitespace (at_chain before n) ≡ at_chain before n
unfolding skip_whitespace skip_while
chain-skip_again zero before = refl
chain-skip_again (suc n) before = refl

match-not :
    (n : ℕ) (before : Str)
    → match_keyword ascii (codes "not") (at_chain before (suc n))
      ≡ ok true (record {
        before = b't' ∷ b'o' ∷ b'n' ∷ before;
        rest = 32 ∷ nots n;
        depth = 1;
        leaf_count = 0;
      })
unfolding match_keyword ◌>>=◌
match-not n before = rw (chain-skip_again, keyword_not)

chain-suc :
    (n fuel : ℕ) (before : Str) (expr : ℕ → Parser (FilterNode Str))
    → parse_not_expr ascii (suc fuel) expr (at_chain before (suc n))
      ≡ and_then
          (parse_not_expr ascii fuel expr (record {
            before = b't' ∷ b'o' ∷ b'n' ∷ before;
            rest = 32 ∷ nots n;
            depth = 1;
            leaf_count = 0;
          }))
          (λ child. ok (negation child))
unfolding parse_not_expr ◌>>=◌
chain-suc n fuel before expr = rw (chain-skip_again, match-not)

chain-blank :
    (n fuel : ℕ) (before : Str) (expr : ℕ → Parser (FilterNode Str))
    → parse_not_expr ascii
        (suc fuel)
        expr
        (record { before = before; rest = 32 ∷ nots n; depth = 1; leaf_count = 0 })
      ≡ parse_not_expr ascii (suc fuel) expr (at_chain (32 ∷ before) n)
unfolding parse_not_expr ◌>>=◌
chain-blank n fuel before expr = cc (chain-skip n before, chain-skip_again n (32 ∷ before))

chain-Reads :
    (n frames : ℕ) (before : Str) (expr : ℕ → Parser (FilterNode Str))
    → n < frames
    → parse_not_expr ascii (suc frames) expr (at_chain before n) ≡ ok (negations n) (read before n)
chain-Reads zero zero before expr h = absurd (omega arith)
chain-Reads zero (suc frames) before expr h = chain-zero frames before expr
chain-Reads (suc n) zero before expr h = absurd (omega arith)
chain-Reads (suc n) (suc frames) before expr h = rw (
  chain-suc,
  chain-blank,
  chain-Reads n frames (32 ∷ b't' ∷ b'o' ∷ b'n' ∷ before) expr (omega arith),
)

-- The chain with too small a stack.
chain-overflows :
    (n frames : ℕ) (before : Str) (expr : ℕ → Parser (FilterNode Str))
    → frames ≤ n
    → parse_not_expr ascii (suc frames) expr (at_chain before n) ≡ recursion_error
chain-overflows zero zero before expr h = chain-one before expr
chain-overflows zero (suc frames) before expr h = absurd (omega arith)
chain-overflows (suc n) zero before expr h = rw chain-suc (no_room n before expr)
  where
    no_room :
        (n : ℕ) (before : Str) (expr : ℕ → Parser (FilterNode Str))
        → and_then
            (parse_not_expr ascii zero expr (record {
              before = b't' ∷ b'o' ∷ b'n' ∷ before;
              rest = 32 ∷ nots n;
              depth = 1;
              leaf_count = 0;
            }))
            (λ child. ok (negation child))
          ≡ recursion_error
    no_room n before expr = unfold parse_not_expr in refl
chain-overflows (suc n) (suc frames) before expr h = rw (
  chain-suc,
  chain-blank,
  chain-overflows n frames (32 ∷ b't' ∷ b'o' ∷ b'n' ∷ before) expr (omega arith),
)

length-nots : (n : ℕ) → length (nots n) ≡ 4 * n + 9
length-nots zero = refl
length-nots (suc n) = omega (arith, length-nots n)

or_expr-nots :
    (n frames : ℕ) (expr : ℕ → Parser (FilterNode Str))
    → n < frames
    → parse_or_expr ascii (suc (suc (suc frames))) expr (at_chain [] n)
      ≡ ok (negations n) (read [] n)
unfolding parse_or_expr more_operands match_keyword skip_whitespace skip_while ◌>>=◌
or_expr-nots n frames expr h = rw (chain-Reads n frames [] expr h)

or_expr-overflows :
    (n frames : ℕ) (expr : ℕ → Parser (FilterNode Str))
    → frames ≤ n + 3
    → parse_or_expr ascii frames expr (at_chain [] n) ≡ recursion_error
unfolding parse_or_expr ◌>>=◌
or_expr-overflows n zero expr h = refl
or_expr-overflows n (suc zero) expr h = refl
or_expr-overflows n (suc (suc zero)) expr h = unfold parse_not_expr in refl
or_expr-overflows n (suc (suc (suc frames))) expr h =
    rw (chain-overflows n frames [] expr (omega arith))

expr-nots :
    (f n frames : ℕ)
    → n < frames
    → parse_expr ascii (suc f) (suc (suc (suc (suc frames)))) (init (nots n))
      ≡ ok (negations n) (record { before = passed [] n; rest = []; depth = 0; leaf_count = 1 })
unfolding parse_expr ◌>>=◌
expr-nots f n frames h = rw (or_expr-nots n frames (parse_expr ascii f) h)

expr_overflows :
    (f n frames : ℕ)
    → frames ≤ n + 4
    → parse_expr ascii (suc f) frames (init (nots n)) ≡ recursion_error
unfolding parse_expr ◌>>=◌
expr_overflows f n zero h = refl
expr_overflows f n (suc frames) h =
    rw (or_expr-overflows n frames (parse_expr ascii f) (omega arith))

nots-IsText : (n : ℕ) → is_empty (nots n) || all ascii.is_space (nots n) ≡ false
nots-IsText zero = refl
nots-IsText (suc n) = refl

nots_short : (n : ℕ) → n ≤ 4093 → ltb 16384 (length (nots n)) ≡ false
nots_short n h = ground (arith, length-nots n)

-- Negation is not counted as nesting, whatever the nesting limit of 32 says: for every n up to 4093
-- a chain of n negations is accepted, under the ASCII classes of characters, as n nested `not` nodes where
-- Python's stack has room for n + 5 calls of the recursive methods; where it has not, `parse` raises
-- RecursionError in place of returning an error.
pub parse-nots :
    (n frames : ℕ)
    → n ≤ 4093
    → (n + 5 ≤ frames → (t : State) × (parse ascii frames (nots n) ≡ ok (negations n) t))
      × (frames < n + 5 → parse ascii frames (nots n) ≡ recursion_error)
parse-nots n frames h = (deep frames, λ l. shallow (omega arith))
  where
    deep :
        (frames : ℕ)
        → n + 5 ≤ frames
        → (t : State) × (parse ascii frames (nots n) ≡ ok (negations n) t)
    deep (suc (suc (suc (suc frames)))) l = (
      record { before = passed [] n; rest = []; depth = 0; leaf_count = 1 },
      unfold parse finish skip_whitespace skip_while ◌>>=◌ in
          rw (nots-IsText n, nots_short n h, expr-nots 32 n frames (omega arith)),
    )
    deep zero l = absurd (omega arith)
    deep (suc zero) l = absurd (omega arith)
    deep (suc (suc zero)) l = absurd (omega arith)
    deep (suc (suc (suc zero))) l = absurd (omega arith)

    shallow : frames ≤ n + 4 → parse ascii frames (nots n) ≡ recursion_error
    shallow l =
        unfold parse ◌>>=◌ in rw (nots-IsText n, nots_short n h, expr_overflows 32 n frames l)
