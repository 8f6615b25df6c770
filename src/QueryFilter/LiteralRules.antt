-- ===== src/QueryFilter/LiteralRules.antt =====
-- The methods of QueryFilter/Literals end and move on, and the literals that they return are in
-- bounds.
use verisearch.Prelude.{
  ℕ, zero, suc, ◌≤◌, ◌<◌, ◌≡◌, Bool, true, ◌||◌, List, ◌∷◌, ◌==◌, ltb, ltb→le, Str, length, arith,
  All,
}
use verisearch.QueryFilter.Ast.{Literal, string_literal, number_literal, timestamp_literal}
use verisearch.QueryFilter.Host.{Host}
use verisearch.QueryFilter.State.{
  State, Parser, Message, advance, pure, ◌>>=◌, expected_number, expected_decimal_digit,
  expected_exponent_digit,
}
use verisearch.QueryFilter.Lexer.{skip_whitespace}
use verisearch.QueryFilter.Literals.{
  string_body, parse_string_literal, between, match_timestamp, require_digits, decimal_part,
  skip_sign, exponent_part, parse_number, looks_like_timestamp, parse_number_or_timestamp,
  parse_value, more_values, parse_value_list, unescape,
}
use verisearch.QueryFilter.Rules.{
  Steps-refl, From, From-bind, Gives, Any, Gives-pure, Gives-error, Gives-if, Gives-option,
  Gives-get, Gives-modify, Gives-peek, Gives-bind, peek-From, modify-From, elim-From, if-From,
  error-From, advance_while-Steps, advance-Steps, skip-Steps, advance_shorter,
  skip_whitespace-Steps,
}
use verisearch.QueryFilter.LexerRules.{blank-Gives, advance-Gives}

-- A string is at most 1024 code points long, and a timestamp has its dashes.
abbrev pub IsLiteral : {F : Type 0} → Literal F → Type 0
IsLiteral (string_literal v) = length v ≤ 1024
IsLiteral (number_literal x) = Unit
IsLiteral (timestamp_literal v) = looks_like_timestamp v ≡ true

push-From :
    (m : Parser Str) (c : ℕ) (s : State)
    → From s Any (m s)
    → From s Any ((m >>= λ value. pure (c ∷ value)) s)
push-From m c s h = From-bind Any Any s _ _ h (λ value t p _. (Steps-refl t, tt))

-- The loop over a string ends: each round passes a character.
string_body-From : (fuel : ℕ) (s : State) → length s.rest < fuel → From s Any (string_body fuel s)
unfolding string_body
string_body-From zero s h = absurd (omega arith)
string_body-From (suc fuel) s h =
    peek-From Any s _ (λ _. error-From Any s _)
      λ ch e.
        elim-From Any s (ch == 92) _ _
          (λ _. modify-From Any s advance _ (advance-Steps s) (
            peek-From Any (advance s) _ (λ _. error-From Any (advance s) _)
              λ esc e'. modify-From Any (advance s) advance _ (advance-Steps (advance s)) (
                push-From _ (unescape esc) (advance (advance s)) (
                  string_body-From fuel (advance (advance s))
                    (omega (arith, advance_shorter s ch e, advance_shorter (advance s) esc e'))))))
          (λ _.
            elim-From Any s (ch == 34) _ _
              (λ _. modify-From Any s advance _ (advance-Steps s) (Steps-refl (advance s), tt))
              (λ _. modify-From Any s advance _ (advance-Steps s) (
                push-From _ ch (advance s)
                  (string_body-From fuel (advance s) (omega (arith, advance_shorter s ch e))))))

pub parse_string_literal-Gives :
    {F : Type 0} → Gives (λ (v : Literal F). IsLiteral v) parse_string_literal
unfolding parse_string_literal
parse_string_literal-Gives = Gives-bind Any _ _ _ advance-Gives λ _ _. Gives-get _ _ λ s.
    From-bind Any _ s _ _ (string_body-From (suc (length s.rest)) s (omega arith)) λ value t p _.
      if-From _ t (ltb 1024 (length value)) _ _ (λ _. error-From _ t _)
        (λ fits. (Steps-refl t, ltb→le _ _ fits))

module _ {F : Type 0} (host : Host F) where
  open host use {is_digit, float}

  require_digits-Gives : (message : Message) → Gives Any (require_digits host message)
  unfolding require_digits
  require_digits-Gives message = Gives-bind Any Any _ _ Gives-peek λ c _.
      Gives-option Any c _ _ (Gives-error Any _) λ ch.
        Gives-if Any (is_digit ch) _ _ (λ _. Gives-modify _ (advance_while-Steps is_digit))
          (λ _. Gives-error Any _)

  skip_sign-Gives : (is_sign : ℕ → Bool) → Gives Any (skip_sign host is_sign)
  unfolding skip_sign
  skip_sign-Gives is_sign = Gives-bind Any Any _ _ Gives-peek λ c _.
      Gives-option Any c _ _ (Gives-pure Any tt tt)
        λ ch. Gives-if Any (is_sign ch) _ _ (λ _. advance-Gives) (λ _. Gives-pure Any tt tt)

  decimal_part-Gives : Gives Any (decimal_part host)
  unfolding decimal_part
  decimal_part-Gives = Gives-bind Any Any _ _ Gives-peek λ c _.
      Gives-option Any c _ _ (Gives-pure Any tt tt) λ ch.
        Gives-if Any (ch == b'.') _ _
          (λ _.
            Gives-bind Any Any _ _ advance-Gives λ _ _. require_digits-Gives expected_decimal_digit)
          (λ _. Gives-pure Any tt tt)

  exponent_part-Gives : Gives Any (exponent_part host)
  unfolding exponent_part
  exponent_part-Gives = Gives-bind Any Any _ _ Gives-peek λ c _.
      Gives-option Any c _ _ (Gives-pure Any tt tt) λ ch.
        Gives-if Any (ch == b'e' || ch == b'E') _ _
          (λ _. Gives-bind Any Any _ _ advance-Gives λ _ _.
            Gives-bind Any Any _ _ (skip_sign-Gives _)
              λ _ _. require_digits-Gives expected_exponent_digit)
          (λ _. Gives-pure Any tt tt)

  parse_number-Gives : Gives (λ (v : Literal F). IsLiteral v) (parse_number host)
  unfolding parse_number
  parse_number-Gives = Gives-get _ _ λ start.
      (Gives-bind Any _ _ _ (skip_sign-Gives _) λ _ _.
          Gives-bind Any _ _ _ (require_digits-Gives expected_number) λ _ _.
            Gives-bind Any _ _ _ decimal_part-Gives λ _ _.
              Gives-bind Any _ _ _ exponent_part-Gives λ _ _. Gives-get _ _ λ s.
                (Gives-option _ (float (between start s)) _ _ (Gives-error _ _)
                    λ value. Gives-pure _ (number_literal value) tt).at
                  s).at
        start

  parse_number_or_timestamp-Gives :
      Gives (λ (v : Literal F). IsLiteral v) (parse_number_or_timestamp host)
  unfolding parse_number_or_timestamp
  parse_number_or_timestamp-Gives = Gives-get _ _ λ s.
      (Gives-option _ (match_timestamp host s.rest) _ _ parse_number-Gives λ candidate.
          Gives-if _ (looks_like_timestamp candidate) _ _
            (λ good.
              Gives-bind Any _ _ _ (Gives-modify _ (skip-Steps (length candidate)))
                λ _ _. Gives-pure _ (timestamp_literal candidate) good)
            (λ _. parse_number-Gives)).at
        s

  pub parse_value-Gives : Gives (λ (v : Literal F). IsLiteral v) (parse_value host)
  unfolding parse_value
  parse_value-Gives = Gives-bind Any _ _ _ blank-Gives λ _ _. Gives-bind Any _ _ _ Gives-peek λ c _.
      Gives-option _ c _ _ (Gives-error _ _) λ ch.
        Gives-if _ (ch == 34) _ _ (λ _. parse_string_literal-Gives)
          λ _.
            Gives-if _ (ch == b'-' || is_digit ch) _ _ (λ _. parse_number_or_timestamp-Gives)
              (λ _. Gives-error _ _)

  -- The loop over a value list ends: each round passes a comma.
  more_values-From :
      (fuel : ℕ) (s : State)
      → length s.rest < fuel
      → From s (All IsLiteral) (more_values host fuel s)
  unfolding more_values
  more_values-From zero s h = absurd (omega arith)
  more_values-From (suc fuel) s h =
      let t : State = skip_whitespace s in
      modify-From (All IsLiteral) s skip_whitespace _ (skip_whitespace-Steps s) (
        peek-From (All IsLiteral) t _ (λ _. (Steps-refl t, tt))
          λ ch e.
            elim-From (All IsLiteral) t (ch == b',') _ _
              (λ _. modify-From (All IsLiteral) t advance _ (advance-Steps t) (
                From-bind _ (All IsLiteral) (advance t) _ _ (parse_value-Gives.at (advance t))
                  λ value u p good.
                    From-bind (All IsLiteral) (All IsLiteral) u _ _
                      (more_values-From fuel u
                        (omega (arith, advance_shorter t ch e, skip_whitespace-Steps s)))
                      λ values v q all_good. (Steps-refl v, (good, all_good))))
              (λ _. (Steps-refl t, tt)))

  abbrev pub AreValues : List (Literal F) → Type 0
  AreValues values = (1 ≤ length values) × All IsLiteral values

  pub parse_value_list-Gives : Gives AreValues (parse_value_list host)
  unfolding parse_value_list
  parse_value_list-Gives = Gives-bind _ AreValues _ _ parse_value-Gives λ value good.
      Gives-get AreValues _ λ s.
        From-bind (All IsLiteral) AreValues s _ _
          (more_values-From (suc (length s.rest)) s (omega arith))
          λ values t p all_good. (Steps-refl t, (omega arith, (good, all_good)))
