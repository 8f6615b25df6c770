-- ===== src/QueryFilter/Literals.antt =====
-- backend/query_filter/parser.py: the methods of `_Parser` that read literal values.
use verisearch.Prelude.{
  ℕ, zero, suc, ◌-◌, Bool, true, false, ◌&&◌, ◌||◌, Option, none, some, List, [], ◌∷◌, ◌++◌, ◌==◌,
  ltb, leb, if◌then◌else◌, Str, length, take, get_elem?,
}
use verisearch.QueryFilter.Ast.{Literal, string_literal, number_literal, timestamp_literal}
use verisearch.QueryFilter.Host.{Host}
use verisearch.QueryFilter.State.{
  State, Parser, diverge, Message, expected_value, unterminated_escape, string_too_long,
  unterminated_string, expected_number, expected_decimal_digit, expected_exponent_digit,
  invalid_number, error, advance, skip, pure, ◌>>=◌, ◌>>◌,
}
use verisearch.QueryFilter.Lexer.{get, modify, peek, advance_while, skip_whitespace}

-- The character that an escape stands for.
unfoldable pub unescape : ℕ → ℕ
unescape e = if e == b'n' then 10 else if e == b't' then 9 else if e == b'r' then 13 else e

-- The loop of `parse_string_literal`, behind the opening quote.
unfoldable pub string_body : ℕ → Parser Str
string_body zero = λ s. diverge
string_body (suc fuel) = do
  c ← peek
  elim c [
    | none ↦ error unterminated_string
    | some ch ↦ elim (ch == 92) [
      | true ↦ (do
        modify advance
        e ← peek
        elim e [
          | none ↦ error unterminated_escape
          | some esc ↦ (do modify advance; value ← string_body fuel; pure (unescape esc ∷ value))
        ])
      | false ↦ elim (ch == 34) [
        | true ↦ (do modify advance; pure [])
        | false ↦ (do modify advance; value ← string_body fuel; pure (ch ∷ value))
      ]
    ]
  ]

-- `parse_string_literal`
unfoldable pub parse_string_literal : {F : Type 0} → Parser (Literal F)
parse_string_literal = do
  modify advance
  s ← get
  value ← string_body (suc (length s.rest))
  if ltb 1024 (length value) then error string_too_long else pure (string_literal value)

-- One class of characters after another, as a regular expression matches them.
unfoldable pub match_classes : List (ℕ → Bool) → Str → Option (Str × Str)
match_classes [] s = some ([], s)
match_classes (p ∷ ps) [] = none
match_classes (p ∷ ps) (c ∷ s) =
    let later = match_classes ps s in
    elim (p c) [ true ↦ elim later [ none ↦ none | some (m, r) ↦ some (c ∷ m, r) ] | false ↦ none ]

-- `source[start : pos]`, between an earlier state and this one.
abbrev pub between : State → State → Str
between start s = take (length start.rest - length s.rest) start.rest

-- The tests of `parse_number_or_timestamp` on the matched text.
unfoldable pub looks_like_timestamp : Str → Bool
looks_like_timestamp candidate =
    leb 10 (length candidate)
    && elim (get_elem? candidate 4) [ none ↦ false | some c ↦ c == b'-' ]
    && elim (get_elem? candidate 7) [ none ↦ false | some c ↦ c == b'-' ]

module _ {F : Type 0} (host : Host F) where
  open host use {is_digit, is_decimal, float}

  abbrev is_char : ℕ → ℕ → Bool
  is_char ch c = c == ch

  abbrev date_classes : List (ℕ → Bool)
  date_classes =
      is_decimal
      ∷ is_decimal
      ∷ is_decimal
      ∷ is_decimal
      ∷ is_char b'-'
      ∷ is_decimal
      ∷ is_decimal
      ∷ is_char b'-'
      ∷ is_decimal
      ∷ is_decimal
      ∷ []

  abbrev time_classes : List (ℕ → Bool)
  time_classes =
      is_char b'T'
      ∷ is_decimal
      ∷ is_decimal
      ∷ is_char b':'
      ∷ is_decimal
      ∷ is_decimal
      ∷ is_char b':'
      ∷ is_decimal
      ∷ is_decimal
      ∷ []

  abbrev zone_classes : List (ℕ → Bool)
  zone_classes =
      (λ c. c == b'+' || c == b'-')
      ∷ is_decimal
      ∷ is_decimal
      ∷ is_char b':'
      ∷ is_decimal
      ∷ is_decimal
      ∷ []

  decimals : Str → Str × Str
  decimals [] = ([], [])
  decimals (c ∷ s) =
      let (m, r) = decimals s in elim (is_decimal c) [ true ↦ (c ∷ m, r) | false ↦ ([], c ∷ s) ]

  -- `(?:\.\d+)?`
  match_fraction : Str → Str × Str
  match_fraction [] = ([], [])
  match_fraction (dot ∷ s) = elim (match_classes (is_char b'.' ∷ is_decimal ∷ []) (dot ∷ s)) [
    | none ↦ ([], dot ∷ s)
    | some (m, r) ↦ let (n, r') = decimals r in (m ++ n, r')
  ]

  -- `(?:Z|[+-]\d{2}:\d{2})?`
  match_zone : Str → Str × Str
  match_zone s = elim (match_classes (is_char b'Z' ∷ []) s) [
    | some (m, r) ↦ (m, r)
    | none ↦ elim (match_classes zone_classes s) [ some (m, r) ↦ (m, r) | none ↦ ([], s) ]
  ]

  -- The time part, `(?:T\d{2}:\d{2}:\d{2}(?:\.\d+)?(?:Z|[+-]\d{2}:\d{2})?)?`
  match_time : Str → Str × Str
  unfolding decimals match_fraction match_zone
  match_time s = elim (match_classes time_classes s) [
    | none ↦ ([], s)
    | some (t, r) ↦
        let (f, r') = match_fraction r in let (z, r'') = match_zone r' in (t ++ (f ++ z), r'')
  ]

  -- `_TIMESTAMP_RE.match(self.source, self.pos)`: the text that it matches. Nothing that the
  -- expression demands follows an optional part, so each part is taken if it is there.
  unfoldable pub match_timestamp : Str → Option Str
  unfolding match_time match_classes
  match_timestamp s = elim (match_classes date_classes s) [
    | none ↦ none
    | some (d, r) ↦ let (t, r') = match_time r in some (d ++ t)
  ]

  -- A run of one digit or more.
  unfoldable pub require_digits : Message → Parser (Unit {0})
  require_digits message = do
    c ← peek
    elim c [
      | none ↦ error message
      | some ch ↦ if is_digit ch then modify (advance_while is_digit) else error message
    ]

  -- The decimal part of `parse_number`.
  unfoldable pub decimal_part : Parser (Unit {0})
  unfolding require_digits
  decimal_part = do
    c ← peek
    elim c [
      | none ↦ pure tt
      | some ch ↦
          if ch == b'.' then (do modify advance; require_digits expected_decimal_digit) else pure tt
    ]

  -- The sign of an exponent, or of a number.
  unfoldable pub skip_sign : (ℕ → Bool) → Parser (Unit {0})
  skip_sign is_sign = do
    c ← peek
    elim c [ none ↦ pure tt | some ch ↦ if is_sign ch then modify advance else pure tt ]

  -- The exponent of `parse_number`.
  unfoldable pub exponent_part : Parser (Unit {0})
  unfolding skip_sign require_digits
  exponent_part = do
    c ← peek
    elim c [
      | none ↦ pure tt
      | some ch ↦
          if ch == b'e' || ch == b'E'
          then (do
            modify advance
            skip_sign (λ x. x == b'+' || x == b'-')
            require_digits expected_exponent_digit)
          else pure tt
    ]

  -- `parse_number`
  unfoldable pub parse_number : Parser (Literal F)
  unfolding skip_sign require_digits decimal_part exponent_part
  parse_number = do
    start ← get
    skip_sign (λ x. x == b'-')
    require_digits expected_number
    decimal_part
    exponent_part
    s ← get
    let num_str = between start s
    elim (float num_str) [
      | none ↦ error (invalid_number num_str)
      | some value ↦ pure (number_literal value)
    ]

  -- `parse_number_or_timestamp`
  unfoldable pub parse_number_or_timestamp : Parser (Literal F)
  unfolding parse_number match_timestamp looks_like_timestamp
  parse_number_or_timestamp = do
    s ← get
    elim (match_timestamp s.rest) [
      | none ↦ parse_number
      | some candidate ↦
          if looks_like_timestamp candidate
          then (do modify (skip (length candidate)); pure (timestamp_literal candidate))
          else parse_number
    ]

  -- `parse_value`
  unfoldable pub parse_value : Parser (Literal F)
  unfolding parse_number_or_timestamp parse_string_literal string_body
  parse_value = do
    modify skip_whitespace
    c ← peek
    elim c [
      | none ↦ error (expected_value none)
      | some ch ↦
          if ch == 34
          then parse_string_literal
          else if ch == b'-' || is_digit ch
          then parse_number_or_timestamp
          else error (expected_value (some ch))
    ]

  -- The loop of `parse_value_list`, behind the first value.
  unfoldable pub more_values : ℕ → Parser (List (Literal F))
  more_values zero = λ s. diverge
  more_values (suc fuel) = do
    modify skip_whitespace
    c ← peek
    elim c [
      | none ↦ pure []
      | some ch ↦ elim (ch == b',') [
        | true ↦ (do
          modify advance
          value ← parse_value
          values ← more_values fuel
          pure (value ∷ values))
        | false ↦ pure []
      ]
    ]

  -- `parse_value_list`
  unfoldable pub parse_value_list : Parser (List (Literal F))
  unfolding more_values
  parse_value_list = do
    value ← parse_value
    s ← get
    values ← more_values (suc (length s.rest))
    pure (value ∷ values)
