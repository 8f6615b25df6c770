-- ===== src/QueryFilter/Frames.antt =====
-- A deeper stack changes nothing but a RecursionError.
use verisearch.Prelude.{
  ℕ, zero, suc, ◌≤◌, ◌≡◌, ◌⊎◌, inl, inr, refl, ap, ◌∙◌, Bool, true, false, ◌||◌, Option, none, some,
  is_empty, all, ltb, if◌then◌else◌, Str, codes, length, arith, ◌==◌, Bool-cases,
}
use verisearch.QueryFilter.Ast.{FilterNode, conj, disj, Nodes}
use verisearch.QueryFilter.Host.{Host}
use verisearch.QueryFilter.State.{
  State, Parser, Result, ok, fail, recursion_error, diverge, and_then, init, advance, pure, ◌>>=◌,
  ◌>>◌,
}
use verisearch.QueryFilter.Lexer.{modify, expect_char}
use verisearch.QueryFilter.Parser.{
  parse_comparison, parse_primary, parse_not_expr, more_operands, parse_chain, parse_and_expr,
  parse_or_expr, parse_expr, finish, parse,
}

-- The two results are the same, or the first is a RecursionError.
abbrev pub Below : {A : Type 0} → Result A → Result A → Type 0
Below r r' = (r ≡ recursion_error) ⊎ (r ≡ r')

record Under {A : Type 0} (m m' : Parser A) : Type 0 where
  at : (s : State) → Below (m s) (m' s)

module _ {A : Type 0} where
  same-Under : (m : Parser A) → Under m m
  same-Under m = record { at = λ s. inr refl }

  Below-and_then :
      {B : Type 0} (r r' : Result B) (f f' : B → Parser A)
      → Below r r'
      → ((b : B) → Under (f b) (f' b))
      → Below (and_then r f) (and_then r' f')
  Below-and_then r r' f f' (inl over) k = inl (ap (λ x. and_then x f) over)
  Below-and_then {B = B} r r' f f' (inr same) k = elim (after r k) [
    | inl over ↦ inl over
    | inr equal ↦ inr (equal ∙ ap (λ x. and_then x f') same)
  ]
    where
      after : (r : Result B) → ((b : B) → Under (f b) (f' b)) → Below (and_then r f) (and_then r f')
      after (ok b s) k = (k b).at s
      after (fail e) k = inr refl
      after recursion_error k = inr refl
      after diverge k = inr refl

  bind-Under :
      {B : Type 0} (m m' : Parser B) (f f' : B → Parser A)
      → Under m m'
      → ((b : B) → Under (f b) (f' b))
      → Under (m >>= f) (m' >>= f')
  unfolding ◌>>=◌
  bind-Under m m' f f' h k = record { at = λ s. Below-and_then (m s) (m' s) f f' (h.at s) k }

  -- The same call first.
  then-Under :
      {B : Type 0} (m : Parser B) (f f' : B → Parser A)
      → ((b : B) → Under (f b) (f' b))
      → Under (m >>= f) (m >>= f')
  then-Under m f f' k = bind-Under m m f f' (record { at = λ s. inr refl }) k

  option-Under :
      {B : Type 0} (o : Option B) (m m' : Parser A) (f f' : B → Parser A)
      → Under m m'
      → ((b : B) → Under (f b) (f' b))
      → Under (elim o [ none ↦ m | some b ↦ f b ]) (elim o [ none ↦ m' | some b ↦ f' b ])
  option-Under none m m' f f' h k = h
  option-Under (some b) m m' f f' h k = k b

  if-Under :
      (b : Bool) (m m' n n' : Parser A)
      → Under m m'
      → Under n n'
      → Under (if b then m else n) (if b then m' else n')
  if-Under true m m' n n' h k = h
  if-Under false m m' n n' h k = k

  elim-Under :
      (b : Bool) (m m' n n' : Parser A)
      → Under m m'
      → Under n n'
      → Under
          (elim b as (λ _. Parser A) [ true ↦ m | false ↦ n ])
          (elim b as (λ _. Parser A) [ true ↦ m' | false ↦ n' ])
  elim-Under true m m' n n' h k = h
  elim-Under false m m' n n' h k = k

module _ {F : Type 0} (host : Host F) where
  abbrev in_parentheses : Parser (FilterNode F) → Parser (FilterNode F)
  in_parentheses m = do modify advance; node ← m; expect_char b')'; pure node

  abbrev primary_at : Parser (FilterNode F) → ℕ → Parser (FilterNode F)
  primary_at m ch = if ch == b'(' then in_parentheses m else parse_comparison host

  -- A method that calls others, with two numbers of frames.
  record Grows (m m' : ℕ → Parser (FilterNode F)) : Type 0 where
    grow : (n n' : ℕ) → n ≤ n' → Under (m n) (m' n')

  module _ (expr : ℕ → Parser (FilterNode F)) (h : Grows expr expr) where
    primary-Under :
        (n n' : ℕ) → n ≤ n' → Under (parse_primary host n expr) (parse_primary host n' expr)
    unfolding parse_primary
    primary-Under zero n' l = record { at = λ s. inl refl }
    primary-Under (suc n) zero l = absurd (omega arith)
    primary-Under (suc n) (suc n') l = then-Under _ _ _ λ _. then-Under _ _ _ λ c.
        option-Under c _ _ (primary_at (expr n)) (primary_at (expr n'))
          (same-Under (parse_comparison host))
          λ ch.
            if-Under (ch == b'(') (in_parentheses (expr n)) (in_parentheses (expr n')) _ _
              (then-Under (modify advance) _ _
                λ _. bind-Under _ _ _ _ (h.grow n n' (omega arith)) λ node. same-Under _)
              (same-Under (parse_comparison host))

    not-Under :
        (n n' : ℕ) → n ≤ n' → Under (parse_not_expr host n expr) (parse_not_expr host n' expr)
    unfolding parse_not_expr
    not-Under zero n' l = record { at = λ s. inl refl }
    not-Under (suc n) zero l = absurd (omega arith)
    not-Under (suc n) (suc n') l = then-Under _ _ _ λ _. then-Under _ _ _ λ saved.
        then-Under _ _ _ λ found.
          elim-Under found _ _ _ _
            (bind-Under _ _ _ _ (not-Under n n' (omega arith)) λ child. same-Under _)
            (then-Under _ _ _ λ _. primary-Under n n' (omega arith))

  more_operands-Under :
      (fuel : ℕ) (keyword : Str) (m m' : Parser (FilterNode F))
      → Under m m'
      → Under (more_operands host fuel keyword m) (more_operands host fuel keyword m')
  unfolding more_operands
  more_operands-Under zero keyword m m' h = same-Under _
  more_operands-Under (suc fuel) keyword m m' h = then-Under _ _ _ λ saved. then-Under _ _ _ λ _.
      then-Under _ _ _ λ found.
        elim-Under found _ _ _ _
          (bind-Under _ _ _ _ h λ node.
            bind-Under _ _ _ _ (more_operands-Under fuel keyword m m' h) λ nodes. same-Under _)
          (same-Under _)

  chain-Under :
      (keyword : Str) (combine : Nodes F → FilterNode F) (m m' : Parser (FilterNode F))
      → Under m m'
      → Under (parse_chain host keyword combine m) (parse_chain host keyword combine m')
  unfolding parse_chain
  chain-Under keyword combine m m' h = bind-Under m m' _ _ h λ node. then-Under _ _ _ λ s.
      bind-Under _ _ _ _ (more_operands-Under (suc (length s.rest)) keyword m m' h)
        λ nodes. same-Under _

  module _ (expr : ℕ → Parser (FilterNode F)) (h : Grows expr expr) where
    and_expr-Under :
        (n n' : ℕ) → n ≤ n' → Under (parse_and_expr host n expr) (parse_and_expr host n' expr)
    unfolding parse_and_expr
    and_expr-Under zero n' l = record { at = λ s. inl refl }
    and_expr-Under (suc n) zero l = absurd (omega arith)
    and_expr-Under (suc n) (suc n') l =
        chain-Under (codes "and") conj _ _ (not-Under expr h n n' (omega arith))

    or_expr-Under :
        (n n' : ℕ) → n ≤ n' → Under (parse_or_expr host n expr) (parse_or_expr host n' expr)
    unfolding parse_or_expr
    or_expr-Under zero n' l = record { at = λ s. inl refl }
    or_expr-Under (suc n) zero l = absurd (omega arith)
    or_expr-Under (suc n) (suc n') l =
        chain-Under (codes "or") disj _ _ (and_expr-Under n n' (omega arith))

  expr-Under : (fuel n n' : ℕ) → n ≤ n' → Under (parse_expr host fuel n) (parse_expr host fuel n')
  unfolding parse_expr
  expr-Under zero n n' l = same-Under _
  expr-Under (suc fuel) zero n' l = record { at = λ s. inl refl }
  expr-Under (suc fuel) (suc n) zero l = absurd (omega arith)
  expr-Under (suc fuel) (suc n) (suc n') l = then-Under _ _ _ λ _.
      bind-Under _ _ _ _
        (or_expr-Under (parse_expr host fuel) (record { grow = expr-Under fuel }) n n'
          (omega arith))
        λ node. same-Under _

  -- A stack with room for more calls gives the same result, unless the smaller one is too small.
  pub parse-Below :
      (n n' : ℕ) (input : Str) → n ≤ n' → Below (parse host n input) (parse host n' input)
  unfolding parse
  parse-Below n n' input l = elim (Bool-cases (is_empty input || all host.is_space input)) [
    | inl blank ↦ rw (parse, blank) (inr refl)
    | inr text ↦
        rw (parse, text)
          (elim (Bool-cases (ltb 16384 (length input))) [
            | inl long ↦ rw long (inr refl)
            | inr short ↦ rw short (
                (bind-Under _ _ (finish host) (finish host)
                    (record { at = (expr-Under 33 n n' l).at }) λ node. same-Under _).at
                  (init input))
          ])
  ]
