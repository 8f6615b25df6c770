-- ===== src/Robots/Pattern.antt =====
-- backend/crawler/robots.py: `_path_matches` and `_wildcard_match`.
use verisearch.Prelude.{
  ℕ, suc, ◌+◌, Bool, true, false, ◌&&◌, not, Option, none, some, List, [], ◌∷◌, ◌==◌, any,
  if◌then◌else◌, Str, str_eq, starts_with, length, drop, is_empty,
}

-- The offset of the first occurrence of `part` in a text, as `str.find` counts it.
unfoldable pub find : Str → Str → Option ℕ
find part [] = if is_empty part then some 0 else none
find part (c ∷ s) =
    let later = find part s in
    if starts_with (c ∷ s) part then some 0 else elim later [ none ↦ none | some i ↦ some (suc i) ]

-- `path.find(part, pos)`, `none` for -1.
abbrev pub find_from : Str → Str → ℕ → Option ℕ
find_from path part pos = elim (find part (drop pos path)) [ none ↦ none | some i ↦ some (pos + i) ]

-- The first of the pieces gets one character more.
abbrev pub push : ℕ → List Str → List Str
push c [] = (c ∷ []) ∷ []
push c (part ∷ parts) = (c ∷ part) ∷ parts

-- `pattern.split("*")`
unfoldable pub split_stars : Str → List Str
split_stars [] = [] ∷ []
split_stars (c ∷ pattern) =
    let parts = split_stars pattern in if c == b'*' then [] ∷ parts else push c parts

-- The loop of `_wildcard_match` from part number `i` at position `pos`: the position behind the last
-- part, or `none` where the function returns False.
unfoldable pub match_parts : Str → Bool → ℕ → ℕ → List Str → Option ℕ
match_parts path starred i pos [] = some pos
match_parts path starred i pos (part ∷ parts) = elim (is_empty part) [
  | true ↦ match_parts path starred (suc i) pos parts
  | false ↦ elim (find_from path part pos) [
    | none ↦ none
    | some idx ↦ elim (i == 0 && not starred && not (idx == 0)) [
      | true ↦ none
      | false ↦ match_parts path starred (suc i) (idx + length part) parts
    ]
  ]
]

-- `_wildcard_match`
unfoldable pub wildcard_match : Str → Str → Bool → Bool
unfolding match_parts
wildcard_match path pattern anchored =
    elim (match_parts path (starts_with pattern (b'*' ∷ [])) 0 0 (split_stars pattern)) [
      | none ↦ false
      | some pos ↦ if anchored then pos == length path else true
    ]

-- `pattern.endswith("$")`, and `pattern[:-1]`
abbrev pub ends_with_dollar : Str → Bool
ends_with_dollar [] = false
ends_with_dollar (c ∷ []) = c == b'$'
ends_with_dollar (c ∷ d ∷ s) = ends_with_dollar (d ∷ s)

abbrev pub drop_last : Str → Str
drop_last [] = []
drop_last (c ∷ []) = []
drop_last (c ∷ d ∷ s) = c ∷ drop_last (d ∷ s)

-- `"*" in pattern`
abbrev pub has_star : Str → Bool
has_star = any (λ c. c == b'*')

-- `_path_matches`
unfoldable pub path_matches : Str → Str → Bool
path_matches path pattern =
    if is_empty pattern
    then false
    else if ends_with_dollar pattern
    then (let base = drop_last pattern in
        if has_star base then wildcard_match path base true else str_eq path base)
    else if has_star pattern
    then wildcard_match path pattern false
    else starts_with path pattern
