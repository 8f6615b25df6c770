-- ===== src/QueryFilter/Lexer.antt =====
-- backend/query_filter/parser.py: the methods of `_Parser` that read characters, keywords,
-- identifiers and field names.
use verisearch.Prelude.{
  ℕ, zero, suc, Bool, true, false, ◌||◌, not, Option, none, some, List, [], ◌∷◌, ◌++◌, ◌==◌, ltb,
  if◌then◌else◌, Str, codes, str_eq, length, take, drop, is_empty, any,
}
use verisearch.QueryFilter.Host.{Host}
use verisearch.QueryFilter.State.{
  State, Parser, ok, diverge, expected_char, metadata_needs_key, metadata_segment_length,
  unknown_field, expected_identifier, error, advance, skip, pure, ◌>>=◌, ◌>>◌,
}

-- The current state; a change of the state.
abbrev pub get : Parser State
get s = ok s s

abbrev pub modify : (State → State) → Parser (Unit {0})
modify f s = ok tt (f s)

-- `self.pos = saved_pos`
abbrev pub restore : State → State → State
restore saved s = record s { before = saved.before; rest = saved.rest }

-- `self.source[self.pos]`, `none` at the end of the input.
abbrev pub first : Str → Option ℕ
first [] = none
first (c ∷ r) = some c

-- `peek`
abbrev pub peek : Parser (Option ℕ)
peek s = ok (first s.rest) s

-- `while self.pos < len(self.source) and p(self.source[self.pos]): self.pos += 1`
unfoldable pub skip_while : (ℕ → Bool) → Str → Str → Str × Str
skip_while p before [] = (before, [])
skip_while p before (c ∷ rest) = elim (p c) [
  | true ↦ skip_while p (c ∷ before) rest
  | false ↦ (before, c ∷ rest)
]

unfoldable pub advance_while : (ℕ → Bool) → State → State
advance_while p s =
    let (before, rest) = skip_while p s.before s.rest in record s { before = before; rest = rest }

-- The characters that `advance_while` passes, `self.source[start : self.pos]`.
unfoldable pub taken_while : (ℕ → Bool) → Str → Str
taken_while p [] = []
taken_while p (c ∷ rest) = elim (p c) [ true ↦ c ∷ taken_while p rest | false ↦ [] ]

-- `ch in " \t\r\n"`
abbrev pub is_blank : ℕ → Bool
is_blank c = c == 32 || c == 9 || c == 13 || c == 10

-- `skip_whitespace`
unfoldable pub skip_whitespace : State → State
unfolding advance_while
skip_whitespace = advance_while is_blank

-- `expect_char`
unfoldable pub expect_char : ℕ → Parser (Unit {0})
expect_char ch = do
  modify skip_whitespace
  c ← peek
  elim c [
    | none ↦ error (expected_char ch none)
    | some got ↦ if got == ch then modify advance else error (expected_char ch (some got))
  ]

-- `VALID_FIELDS`
abbrev pub valid_fields : List Str
valid_fields =
    codes "domain" ∷ codes "url" ∷ codes "published_at" ∷ codes "language" ∷ codes "category" ∷ []

-- `".".join(parts)`
abbrev pub join_dots : Str → List Str → Str
join_dots part [] = part
join_dots part (next ∷ parts) = part ++ (b'.' ∷ join_dots next parts)

-- The first segment of a metadata key that is not 1 to 128 code points long.
unfoldable pub bad_segment : List Str → Option Str
bad_segment [] = none
bad_segment (segment ∷ parts) =
    if ltb (length segment) 1 || ltb 128 (length segment) then some segment else bad_segment parts

-- The checks at the end of `parse_field`.
unfoldable pub check_field : Str → List Str → Parser (Unit {0})
unfolding bad_segment
check_field top_level parts =
    if str_eq top_level (codes "metadata")
    then (if is_empty parts then error metadata_needs_key else elim (bad_segment parts) [
      | none ↦ pure tt
      | some segment ↦ error (metadata_segment_length (length segment))
    ])
    else if any (str_eq top_level) valid_fields
    then pure tt
    else error (unknown_field top_level)

module _ {F : Type 0} (host : Host F) where
  open host use {is_alpha, is_alnum, lower}

  -- `ch.isalnum() or ch == "_"`
  abbrev pub is_word : ℕ → Bool
  is_word c = is_alnum c || c == b'_'

  -- The test of `match_keyword` on the characters from `pos` on.
  unfoldable pub keyword_matches : Str → Str → Bool
  keyword_matches keyword rest =
      if ltb (length rest) (length keyword)
      then false
      else if str_eq (lower (take (length keyword) rest)) keyword
      then elim (first (drop (length keyword) rest)) [ none ↦ true | some c ↦ not (is_word c) ]
      else false

  -- `match_keyword`
  unfoldable pub match_keyword : Str → Parser Bool
  unfolding keyword_matches
  match_keyword keyword = do
    modify skip_whitespace
    s ← get
    if keyword_matches keyword s.rest
        then (do modify (skip (length keyword)); pure true)
        else pure false

  -- `parse_identifier`
  unfoldable pub parse_identifier : Parser Str
  parse_identifier = do
    modify skip_whitespace
    c ← peek
    elim c [
      | none ↦ error (expected_identifier none)
      | some ch ↦
          if is_alpha ch || ch == b'_'
          then (do
            modify advance
            s ← get
            modify (advance_while is_word)
            pure (ch ∷ taken_while is_word s.rest))
          else error (expected_identifier (some ch))
    ]

  -- The loop of `parse_field` over the dotted parts.
  unfoldable pub dotted_parts : ℕ → Parser (List Str)
  dotted_parts zero = λ s. diverge
  dotted_parts (suc fuel) = do
    c ← peek
    elim c [
      | none ↦ pure []
      | some ch ↦ elim (ch == b'.') [
        | true ↦ (do
          modify advance
          part ← parse_identifier
          parts ← dotted_parts fuel
          pure (part ∷ parts))
        | false ↦ pure []
      ]
    ]

  -- `parse_field`
  unfoldable pub parse_field : Parser Str
  parse_field = do
    modify skip_whitespace
    part ← parse_identifier
    s ← get
    parts ← dotted_parts (suc (length s.rest))
    check_field part parts
    pure (join_dots part parts)
