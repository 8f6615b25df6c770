-- ===== src/QueryFilter/State.antt =====
-- The state of `_Parser`, its errors, and parsers as functions of the state
-- (backend/query_filter/parser.py, errors.py). `source` and `pos` are a zipper: `before` holds the
-- characters before `pos`, the last one first, and `rest` those from `pos` on.
use verisearch.Prelude.{
  ℕ, ◌+◌, Option, [], ◌∷◌, ◌==◌, if◌then◌else◌, Str, take, drop, reverse, ◌++◌,
}

pub record State : Type 0 where
  pub before : Str
  pub rest : Str
  pub depth : ℕ
  pub leaf_count : ℕ

-- `ParseError.code`
pub data Code : Type 0 where
  empty_input filter_too_large syntax_error : Code

-- `ParseError.message`, one constructor for each message text of the parser.
pub data Message : Type 0 where
  input_is_empty : Message
  input_too_long : Message
  unexpected_after : ℕ → Message
  nesting_too_deep : Message
  too_many_leaves : Message
  expected_char : ℕ → Option ℕ → Message
  too_few_values : Message
  too_many_values : Message
  metadata_needs_key : Message
  metadata_segment_length : ℕ → Message
  unknown_field : Str → Message
  expected_identifier : Option ℕ → Message
  expected_operator : Option ℕ → Message
  expected_value : Option ℕ → Message
  unterminated_escape : Message
  string_too_long : Message
  unterminated_string : Message
  expected_number : Message
  expected_decimal_digit : Message
  expected_exponent_digit : Message
  invalid_number : Str → Message

pub record ParseError : Type 0 where
  pub code : Code
  pub message : Message
  pub line : ℕ
  pub column : ℕ

-- How a method of `_Parser` ends. `recursion_error` is the RecursionError of a call for which Python's
-- stack has no room, which `parse` does not catch; `diverge` is a loop that has used up its fuel.
pub data Result (A : Type 0) : Type 0 where
  ok : A → State → Result A
  fail : ParseError → Result A
  recursion_error : Result A
  diverge : Result A

abbrev pub Parser : Type 0 → Type 0
Parser A = State → Result A

abbrev pub and_then : {A B : Type 0} → Result A → (A → Parser B) → Result B
and_then (ok a s) f = f a s
and_then (fail e) f = fail e
and_then recursion_error f = recursion_error
and_then diverge f = diverge

infixl 5 ◌>>=◌ ◌>>◌
unfoldable pub ◌>>=◌ : {A B : Type 0} → Parser A → (A → Parser B) → Parser B
◌>>=◌ m f s = and_then (m s) f

abbrev pub ◌>>◌ : {A B : Type 0} → Parser A → Parser B → Parser B
m >> k = m >>= λ _. k

abbrev pub pure : {A : Type 0} → A → Parser A
pure a s = ok a s

-- `_Parser(source)`
abbrev pub init : Str → State
init source = record { before = []; rest = source; depth = 0; leaf_count = 0 }

-- `self.pos += 1`
abbrev pub advance : State → State
advance s = elim s.rest [ [] ↦ s | c ∷ r ↦ record s { before = c ∷ s.before; rest = r } ]

-- `self.pos += n`
abbrev pub skip : ℕ → State → State
skip n s = record s { before = reverse (take n s.rest) ++ s.before; rest = drop n s.rest }

-- One step of the loop in `get_position`.
abbrev step_position : ℕ → ℕ × ℕ → ℕ × ℕ
step_position c (line, col) = if c == 10 then (line + 1, 1) else (line, col + 1)

-- `get_position`: the 1-indexed line and column after the characters before `pos`.
position_after : Str → ℕ × ℕ
position_after [] = (1, 1)
position_after (c ∷ before) = step_position c (position_after before)

unfoldable pub get_position : State → ℕ × ℕ
unfolding position_after
get_position s = position_after s.before

-- `raise self.error(message)`
unfoldable pub error : {A : Type 0} → Message → Parser A
error message s =
    let (line, col) = get_position s in
    fail (record { code = syntax_error; message = message; line = line; column = col })

-- The errors that the source reports at line 1, column 1.
abbrev pub at_start : Code → Message → ParseError
at_start code message = record { code = code; message = message; line = 1; column = 1 }
