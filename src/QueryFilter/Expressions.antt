-- ===== src/QueryFilter/Expressions.antt =====
-- Expressions end, and the trees that they return are in bounds.
use verisearch.Prelude.{
  ℕ, zero, suc, ◌+◌, ◌*◌, ◌≤◌, ◌<◌, ◌≡◌, refl, ltb, ltb→le, Str, codes, length, arith, Bool-cases,
  inl, inr, ◌==◌,
}
use verisearch.QueryFilter.Ast.{
  FilterNode, negation, conj, disj, Nodes, nil, cons, count, leaves, leaves_all,
}
use verisearch.QueryFilter.Host.{Host}
use verisearch.QueryFilter.State.{State, Parser, advance, pure, ◌>>=◌}
use verisearch.QueryFilter.Lexer.{expect_char, skip_whitespace}
use verisearch.QueryFilter.Parser.{
  chain_node, enter, leave, parse_primary, parse_not_expr, more_operands, parse_chain,
  parse_and_expr, parse_or_expr, parse_expr,
}
use verisearch.QueryFilter.Rules.{
  Ensures, if-Ensures, peek-Ensures, get-Ensures, modify-Ensures, bind-Ensures, Steps, Steps-refl,
  advance-Steps, skip_whitespace-Steps,
}
use verisearch.QueryFilter.LexerRules.{expect_char-Gives}
use verisearch.QueryFilter.Trees.{height, height_all, IsWellFormed, AreWellFormed}
use verisearch.QueryFilter.ParserRules.{Parsed, ParsedAll, Parsed-weaken, keyword-Ensures}
use verisearch.QueryFilter.Comparisons.{parse_comparison-Parsed}

module _ {F : Type 0} where
  -- At nesting depth `d`, with at most `b` characters left, a method returns a tree at most `k` high.
  record Reads (k d b : ℕ) (m : Parser (FilterNode F)) : Type 0 where
    at : (s : State) → s.depth ≡ d → length s.rest ≤ b → Ensures (Parsed k s) (m s)

  -- So does a method for which Python's stack has room: `need` calls, and one for each character.
  record Within (k d need : ℕ) (m : ℕ → Parser (FilterNode F)) : Type 0 where
    reads : (frames b : ℕ) → need + b ≤ frames → Reads k d b (m frames)

  Parsed-low :
      (k l : ℕ) (s : State) (n : FilterNode F) (t : State) → k ≤ l → Parsed k s n t → Parsed l s n t
  Parsed-low k l s n t h p = record {
    onwards = p.onwards;
    same_depth = p.same_depth;
    counted = p.counted;
    bounded = p.bounded;
    low = omega arith;
    well_formed = p.well_formed;
  }

  Parsed-negation :
      (k : ℕ) (s : State) (n : FilterNode F) (t : State)
      → Parsed k s n t
      → Parsed k s (negation n) t
  unfolding leaves height IsWellFormed
  Parsed-negation k s n t p = record {
    onwards = p.onwards;
    same_depth = p.same_depth;
    counted = p.counted;
    bounded = p.bounded;
    low = p.low;
    well_formed = p.well_formed;
  }

  -- The closing parenthesis behind a tree.
  Parsed-lexical :
      (k : ℕ) (s t u : State) (n : FilterNode F) → Parsed k s n t → Steps t u → Parsed k s n u
  Parsed-lexical k s t u n p q = record {
    onwards = omega arith;
    same_depth = omega arith;
    counted = omega arith;
    bounded = omega arith;
    low = p.low;
    well_formed = p.well_formed;
  }

  ParsedAll-nil : (k : ℕ) (s t : State) → Steps s t → ParsedAll {F = F} k s nil t
  unfolding leaves_all height_all AreWellFormed
  ParsedAll-nil k s t p = record {
    onwards = omega arith;
    same_depth = omega arith;
    counted = omega arith;
    bounded = λ h. omega arith;
    low = omega arith;
    well_formed = tt;
  }

  ParsedAll-cons :
      (k : ℕ) (s t u v : State) (n : FilterNode F) (ns : Nodes F)
      → Steps s t
      → Parsed k t n u
      → ParsedAll k u ns v
      → ParsedAll k s (cons n ns) v
  unfolding leaves leaves_all height_all AreWellFormed
  ParsedAll-cons k s t u v n ns p q r = record {
    onwards = omega arith;
    same_depth = omega arith;
    counted = omega arith;
    bounded = λ h. r.bounded q.bounded;
    low = omega arith;
    well_formed = (q.well_formed, r.well_formed);
  }

  -- A chain of one operand is that operand; one of more is combined.
  Parsed-chain :
      (k : ℕ) (combine : Nodes F → FilterNode F) (s t u : State) (n : FilterNode F) (ns : Nodes F)
      → ((ms : Nodes F) → leaves (combine ms) ≡ leaves_all ms)
      → ((ms : Nodes F) → height (combine ms) ≡ suc (height_all ms))
      → ((ms : Nodes F) → 2 ≤ count ms → AreWellFormed ms → IsWellFormed (combine ms))
      → Parsed k s n t
      → ParsedAll k t ns u
      → Parsed (suc k) s (chain_node combine n ns) u
  unfolding leaves_all height_all AreWellFormed
  Parsed-chain k combine s t u n nil same_leaves higher good p q = record {
    onwards = omega arith;
    same_depth = omega arith;
    counted = omega arith;
    bounded = q.bounded p.bounded;
    low = omega arith;
    well_formed = p.well_formed;
  }
  Parsed-chain k combine s t u n (cons m ns) same_leaves higher good p q = record {
    onwards = omega arith;
    same_depth = omega arith;
    counted = omega (arith, same_leaves (cons n (cons m ns)));
    bounded = q.bounded p.bounded;
    low = omega (arith, higher (cons n (cons m ns)));
    well_formed = good (cons n (cons m ns)) (omega arith) (p.well_formed, q.well_formed);
  }

module _ {F : Type 0} (host : Host F) where
  closed-Parsed :
      (k d b : ℕ) (expr : Parser (FilterNode F)) (s : State)
      → Reads k d b expr
      → s.depth ≡ d
      → length s.rest ≤ b
      → Ensures (Parsed k s) ((expr >>= λ node. expect_char b')' >>= λ _. pure node) s)
  closed-Parsed k d b expr s h e l =
      bind-Ensures (Parsed k s) s (Parsed k s) expr _ (h.at s e l) λ node t p.
        bind-Ensures (Parsed k s) t (λ _ u. Steps t u × Unit) _ _ ((expect_char-Gives b')').at t)
          λ _ u q. Parsed-lexical k s t u node p q.0

  primary-Parsed :
      (k d need frames : ℕ) (expr : ℕ → Parser (FilterNode F)) (s : State)
      → Within k d need expr
      → s.depth ≡ d
      → need + length s.rest < frames
      → Ensures (Parsed k s) (parse_primary host frames expr s)
  unfolding parse_primary
  primary-Parsed k d need zero expr s h e l = absurd (omega arith)
  primary-Parsed k d need (suc frames) expr s h e l =
      let t : State = skip_whitespace s in
      let blank : Steps s t = skip_whitespace-Steps s in
      let passed : Steps t (advance t) = advance-Steps t in
      let left = length (advance t).rest in
      modify-Ensures (Parsed k s) s skip_whitespace _ (
        Parsed-weaken k s t _ blank (
          peek-Ensures (Parsed k t) t _ _ (λ _. parse_comparison-Parsed host k t)
            λ ch _.
              if-Ensures (Parsed k t) t (ch == b'(') _ _
                (λ _. modify-Ensures (Parsed k t) t advance _ (
                  Parsed-weaken k t (advance t) _ passed (
                    closed-Parsed k d left (expr frames) (advance t)
                      (h.reads frames left (omega arith)) (omega arith) (omega arith))))
                (λ _. parse_comparison-Parsed host k t)))

  -- Each `not` takes a frame and a character at least.
  not-Parsed :
      (k d need frames : ℕ) (expr : ℕ → Parser (FilterNode F)) (s : State)
      → Within k d need expr
      → s.depth ≡ d
      → need + length s.rest + 1 < frames
      → Ensures (Parsed k s) (parse_not_expr host frames expr s)
  unfolding parse_not_expr
  not-Parsed k d need zero expr s h e l = absurd (omega arith)
  not-Parsed k d need (suc frames) expr s h e l =
      let t : State = skip_whitespace s in
      let blank : Steps s t = skip_whitespace-Steps s in
      modify-Ensures (Parsed k s) s skip_whitespace _ (
        Parsed-weaken k s t _ blank (
          get-Ensures (Parsed k t) t _ (
            keyword-Ensures host (Parsed k t) (codes "not") t t _ _ (omega arith) (Steps-refl t)
              (λ u p shorter. Parsed-weaken k t u _ p (
                bind-Ensures (Parsed k u) u (Parsed k u) _ _
                  (not-Parsed k d need frames expr u h (omega arith) (omega arith))
                  λ node v q. Parsed-negation k u node v q))
              (λ u p.
                Parsed-weaken k t u _ p
                  (primary-Parsed k d need frames expr u h (omega arith) (omega arith))))))

  more_operands-ParsedAll :
      (k d b fuel : ℕ) (keyword : Str) (operand : Parser (FilterNode F)) (s : State)
      → 1 ≤ length keyword
      → Reads k d b operand
      → s.depth ≡ d
      → length s.rest ≤ b
      → length s.rest < fuel
      → Ensures (ParsedAll k s) (more_operands host fuel keyword operand s)
  unfolding more_operands
  more_operands-ParsedAll k d b zero keyword operand s long h e bound l = absurd (omega arith)
  more_operands-ParsedAll k d b (suc fuel) keyword operand s long h e bound l =
      let t : State = skip_whitespace s in
      let blank : Steps s t = skip_whitespace-Steps s in
      get-Ensures (ParsedAll k s) s _ (
        modify-Ensures (ParsedAll k s) s skip_whitespace _ (
          keyword-Ensures host (ParsedAll k s) keyword s t _ _ long blank
            (λ u p shorter.
              bind-Ensures (ParsedAll k s) u (Parsed k u) _ _ (h.at u (omega arith) (omega arith))
                λ node v q.
                  bind-Ensures (ParsedAll k s) v (ParsedAll k v) _ _
                    (more_operands-ParsedAll k d b fuel keyword operand v long h (omega arith)
                      (omega arith) (omega arith))
                    λ nodes w r. ParsedAll-cons k s u v w node nodes p q r)
            (λ u p. ParsedAll-nil k s u p)))

  chain-Reads :
      (k d b : ℕ) (keyword : Str) (combine : Nodes F → FilterNode F)
      (operand : Parser (FilterNode F))
      → 1 ≤ length keyword
      → ((ms : Nodes F) → leaves (combine ms) ≡ leaves_all ms)
      → ((ms : Nodes F) → height (combine ms) ≡ suc (height_all ms))
      → ((ms : Nodes F) → 2 ≤ count ms → AreWellFormed ms → IsWellFormed (combine ms))
      → Reads k d b operand
      → Reads (suc k) d b (parse_chain host keyword combine operand)
  unfolding parse_chain
  chain-Reads k d b keyword combine operand long same_leaves higher good h = record {
    at = λ s e l. bind-Ensures (Parsed (suc k) s) s (Parsed k s) operand _ (h.at s e l) λ node t p.
        get-Ensures (Parsed (suc k) s) t _ (
          bind-Ensures (Parsed (suc k) s) t (ParsedAll k t) _ _
            (more_operands-ParsedAll k d b (suc (length t.rest)) keyword operand t long h
              (omega arith) (omega arith) (omega arith))
            λ nodes u q. Parsed-chain k combine s t u node nodes same_leaves higher good p q);
  }

  not-Within :
      (k d need : ℕ) (expr : ℕ → Parser (FilterNode F))
      → Within k d need expr
      → Within k d (2 + need) (λ frames. parse_not_expr host frames expr)
  not-Within k d need expr h = record {
    reads = λ frames b room. record {
      at = λ s e l. not-Parsed k d need frames expr s h e (omega arith);
    };
  }

  and_expr-Within :
      (k d need : ℕ) (expr : ℕ → Parser (FilterNode F))
      → Within k d need expr
      → Within (suc k) d (3 + need) (λ frames. parse_and_expr host frames expr)
  and_expr-Within k d need expr h = record { reads = go }
    where
      go :
          (frames b : ℕ)
          → 3 + need + b ≤ frames
          → Reads (suc k) d b (parse_and_expr host frames expr)
      go zero b room = absurd (omega arith)
      go (suc frames) b room =
          unfold parse_and_expr leaves height IsWellFormed in
          chain-Reads k d b (codes "and") conj _ (omega arith) (λ ms. refl) (λ ms. refl)
            (λ ms two fine. (two, fine)) ((not-Within k d need expr h).reads frames b (omega arith))

  or_expr-Within :
      (k d need : ℕ) (expr : ℕ → Parser (FilterNode F))
      → Within k d need expr
      → Within (suc (suc k)) d (4 + need) (λ frames. parse_or_expr host frames expr)
  or_expr-Within k d need expr h = record { reads = go }
    where
      go :
          (frames b : ℕ)
          → 4 + need + b ≤ frames
          → Reads (suc (suc k)) d b (parse_or_expr host frames expr)
      go zero b room = absurd (omega arith)
      go (suc frames) b room =
          unfold parse_or_expr leaves height IsWellFormed in
          chain-Reads (suc k) d b (codes "or") disj _ (omega arith) (λ ms. refl) (λ ms. refl)
            (λ ms two fine. (two, fine))
            ((and_expr-Within k d need expr h).reads frames b (omega arith))

  -- `parse_expr` and `leave` restore the depth.
  leave-Parsed :
      (k : ℕ) (s t u : State) (n : FilterNode F)
      → t.depth ≡ s.depth + 1
      → t.rest ≡ s.rest
      → t.leaf_count ≡ s.leaf_count
      → Parsed k t n u
      → Parsed k s n (leave u)
  unfolding leave
  leave-Parsed k s t u n d r c p = record {
    onwards = rw r at p.onwards;
    same_depth = omega arith;
    counted = omega arith;
    bounded = p.bounded;
    low = p.low;
    well_formed = p.well_formed;
  }

  enter-Ensures :
      (P : FilterNode F → State → Type 0) (s : State) (f : Unit {0} → Parser (FilterNode F))
      → (s.depth + 1 ≤ 32 → Ensures P (f tt (record s { depth = s.depth + 1 })))
      → Ensures P ((enter >>= f) s)
  unfolding enter ◌>>=◌
  enter-Ensures P s f h = elim (Bool-cases (ltb 32 (s.depth + 1))) [
    | inl over ↦ rw over tt
    | inr fits ↦ rw fits (h (ltb→le _ _ fits))
  ]

  -- Every level of parentheses that the depth check admits has the fuel that it needs, and five frames.
  pub parse_expr-Parsed :
      (f frames : ℕ) (s : State)
      → s.depth + f ≡ 32
      → 5 * suc f + length s.rest ≤ frames
      → Ensures (Parsed (2 * f) s) (parse_expr host (suc f) frames s)
  unfolding parse_expr
  parse_expr-Parsed f zero s e room = absurd (omega arith)
  parse_expr-Parsed zero (suc frames) s e room =
      enter-Ensures (Parsed 0 s) s _ (λ fits. absurd (omega arith))
  parse_expr-Parsed (suc f) (suc frames) s e room =
      let t : State = record s { depth = s.depth + 1 } in
      let inner : Within (2 * f) (s.depth + 1) (5 * suc f) (parse_expr host (suc f)) = record {
        reads = λ n b fits. record {
          at = λ u d l. parse_expr-Parsed f n u (omega arith) (omega arith);
        };
      } in
      let outer : Reads (suc (suc (2 * f))) (s.depth + 1) (length t.rest)
          (parse_or_expr host frames (parse_expr host (suc f))) =
        (or_expr-Within (2 * f) (s.depth + 1) (5 * suc f) _ inner).reads frames (length t.rest)
          (omega arith) in
      enter-Ensures (Parsed (2 * suc f) s) s _ λ _.
        bind-Ensures (Parsed (2 * suc f) s) t (Parsed (suc (suc (2 * f))) t) _ _
          (outer.at t refl (omega arith))
          λ node u p. modify-Ensures (Parsed (2 * suc f) s) u leave _ (
            leave-Parsed (2 * suc f) s t u node refl refl refl
              (Parsed-low _ _ t node u (omega arith) p))
