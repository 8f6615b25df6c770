-- ===== src/Robots/Greedy.antt =====
-- The leftmost occurrence is as good as any: `_wildcard_match` without an anchor decides the
-- reference of Robots/Glob.
use verisearch.Prelude.{
  ℕ, zero, suc, ◌+◌, Bool, true, false, ◌&&◌, ◌||◌, Option, none, some, List, [], ◌∷◌, ◌==◌,
  if◌then◌else◌, Str, starts_with, length, drop, drop-drop, ◌≡◌, refl, ap, sym, ◌∙◌, arith,
  Bool-cases, inl, inr, Option-cases,
}
use verisearch.Robots.Pattern.{push, find, split_stars, match_parts, wildcard_match}
use verisearch.Robots.Glob.{some_suffix, glob, search, match_pieces, glob-eq-pieces}

-- More text in front does no harm behind a star.
search-cons :
    (parts : List Str) (c : ℕ) (s : Str) → search parts s ≡ true → search parts (c ∷ s) ≡ true
unfolding search some_suffix
search-cons [] c s h = refl
search-cons (part ∷ parts) c s h = ground arith

search-drop :
    (parts : List Str) (n : ℕ) (s : Str) → search parts (drop n s) ≡ true → search parts s ≡ true
search-drop parts zero s h = h
search-drop parts (suc n) [] h = h
search-drop parts (suc n) (c ∷ s) h = search-cons parts c s (search-drop parts n s h)

search-drop_suc :
    (parts : List Str) (n c : ℕ) (s : Str)
    → search parts (drop n s) ≡ true
    → search parts (drop n (c ∷ s)) ≡ true
search-drop_suc parts zero c s h = search-cons parts c s h
search-drop_suc parts (suc zero) c [] h = h
search-drop_suc parts (suc (suc n)) c [] h = h
search-drop_suc parts (suc n) c (d ∷ s) h = search-drop_suc parts n d s h

abbrev test : Str → List Str → Str → Bool
test part parts u = starts_with u part && search parts (drop (length part) u)

some_suffix-search :
    (part : Str) (parts : List Str) (c : ℕ) (s : Str)
    → some_suffix (test part parts) s ≡ true
    → search parts (drop (length part) (c ∷ s)) ≡ true
unfolding some_suffix
some_suffix-search part parts c [] h = search-drop_suc parts (length part) c [] (ground arith)
some_suffix-search part parts c (d ∷ s) h = elim (Bool-cases (test part parts (d ∷ s))) [
  | inl here ↦ search-drop_suc parts (length part) c (d ∷ s) (ground arith)
  | inr later ↦
      search-drop_suc parts (length part) c (d ∷ s)
        (some_suffix-search part parts d s (ground arith))
]

-- What the search does with the first occurrence of a piece.
abbrev from_find : List Str → ℕ → Str → Option ℕ → Bool
from_find parts n s none = false
from_find parts n s (some i) = search parts (drop (i + n) s)

drop-zero : (n : ℕ) (s : Str) → drop (0 + n) s ≡ drop n s
drop-zero n s = ap (λ (k : ℕ). drop k s) (omega arith)

drop-suc : (i n d : ℕ) (s : Str) → drop (suc i + n) (d ∷ s) ≡ drop (i + n) s
drop-suc i n d s =
    ap (λ (k : ℕ). drop k (d ∷ s)) (let e : suc i + n ≡ suc (i + n) = omega arith in e)

-- The two ways to go on: here, or with a later occurrence.
search_here :
    (part : Str) (parts : List Str) (d : ℕ) (s : Str)
    → starts_with (d ∷ s) part ≡ true
    → (test part parts (d ∷ s) || some_suffix (test part parts) s)
      ≡ search parts (drop (0 + length part) (d ∷ s))
search_here part parts d s h = ground (
  arith,
  drop-zero (length part) (d ∷ s),
  Bool-cases (some_suffix (test part parts) s),
  some_suffix-search part parts d s,
)

search_later :
    (parts : List Str) (n d : ℕ) (s : Str) (o : Option ℕ)
    → from_find parts n s o
      ≡ from_find parts n (d ∷ s) (elim o [ none ↦ none | some i ↦ some (suc i) ])
search_later parts n d s none = refl
search_later parts n d s (some i) = ap (search parts) (sym (drop-suc i n d s))

search-find :
    (c : ℕ) (piece : Str) (parts : List Str) (s : Str)
    → search ((c ∷ piece) ∷ parts) s ≡ from_find parts (length (c ∷ piece)) s (find (c ∷ piece) s)
unfolding search some_suffix find
search-find c piece parts [] = refl
search-find c piece parts (d ∷ s) = elim (Bool-cases (starts_with (d ∷ s) (c ∷ piece))) [
  | inl here ↦ search_here (c ∷ piece) parts d s here ∙ rw here
  | inr later ↦ rw later (
      search-find c piece parts s
      ∙ search_later parts (length (c ∷ piece)) d s (find (c ∷ piece) s))
]

-- An empty piece, between two stars, changes nothing.
search-empty : (parts : List Str) (s : Str) → search ([] ∷ parts) s ≡ search parts s
unfolding search some_suffix
search-empty parts [] = refl
search-empty parts (c ∷ s) = ground (
  arith,
  search-empty parts s,
  Bool-cases (search parts s),
  search-cons parts c s,
  Bool-cases (search parts (c ∷ s)),
)

drop_later : (pos k n : ℕ) (path : Str) → drop (pos + k + n) path ≡ drop (k + n) (drop pos path)
drop_later pos k n path =
    ap (λ (j : ℕ). drop j path) (omega arith) ∙ sym (drop-drop (k + n) pos path)

not_first : (i : ℕ) → (suc i == 0) ≡ false
not_first i = ground arith

abbrev succeeds : Option ℕ → Bool
succeeds none = false
succeeds (some pos) = true

-- Behind the first part the loop decides the search from its position.
match_parts-search :
    (path : Str) (starred : Bool) (parts : List Str) (i pos : ℕ)
    → succeeds (match_parts path starred (suc i) pos parts) ≡ search parts (drop pos path)
unfolding match_parts
match_parts-search path starred [] i pos = unfold search in refl
match_parts-search path starred ([] ∷ parts) i pos =
    match_parts-search path starred parts (suc i) pos ∙ sym (search-empty parts (drop pos path))
match_parts-search path starred ((c ∷ piece) ∷ parts) i pos =
    rw (search-find c piece parts (drop pos path))
      (elim (Option-cases (find (c ∷ piece) (drop pos path))) [
        | inl missing ↦ rw (missing, match_parts)
        | inr (k, found) ↦
            rw (found, match_parts, not_first i)
              (match_parts-search path starred parts (suc i) (pos + k + length (c ∷ piece))
                ∙ ap (search parts) (drop_later pos k (length (c ∷ piece)) path))
      ])

-- The first occurrence is at the start exactly if the text starts so.
starts-find :
    (c : ℕ) (piece s : Str)
    → starts_with s (c ∷ piece) ≡ elim (find (c ∷ piece) s) [ none ↦ false | some k ↦ k == 0 ]
unfolding find
starts-find c piece [] = refl
starts-find c piece (d ∷ s) = ground (arith, Option-cases (find (c ∷ piece) s))

-- The first part, where the pattern does not begin with a star.
first_at :
    (path : Str) (c : ℕ) (piece : Str) (parts : List Str) (k : ℕ)
    → find (c ∷ piece) path ≡ some k
    → succeeds (match_parts path false 0 0 ((c ∷ piece) ∷ parts))
      ≡ ((k == 0) && search parts (drop (length (c ∷ piece)) path))
unfolding match_parts
first_at path c piece parts zero found =
    rw (found, match_parts)
      (match_parts-search path false parts 0 (0 + 0 + length (c ∷ piece))
        ∙ ap (λ (j : ℕ). search parts (drop j path))
            (let e : 0 + 0 + length (c ∷ piece) ≡ length (c ∷ piece) = omega arith in e))
first_at path c piece parts (suc k) found = rw (found, match_parts) (ground arith)

match_parts-first :
    (path : Str) (c : ℕ) (piece : Str) (parts : List Str)
    → succeeds (match_parts path false 0 0 ((c ∷ piece) ∷ parts))
      ≡ match_pieces ((c ∷ piece) ∷ parts) path
match_parts-first path c piece parts = elim (Option-cases (find (c ∷ piece) path)) [
  | inl missing ↦
      rw (starts-find c piece path, missing) (unfold match_parts in rw (missing, match_parts))
  | inr (k, found) ↦ rw (starts-find c piece path, found) (first_at path c piece parts k found)
]

-- The parts of a pattern that does not begin with a star begin with its first character.
wildcard-unstarred :
    (path : Str) (c : ℕ) (parts : List Str)
    → succeeds (match_parts path false 0 0 (push c parts)) ≡ match_pieces (push c parts) path
wildcard-unstarred path c [] = match_parts-first path c [] []
wildcard-unstarred path c (piece ∷ parts) = match_parts-first path c piece parts

succeeds-unanchored :
    (o : Option ℕ) (n : ℕ)
    → (elim o [ none ↦ false | some pos ↦ if false then pos == n else true ]) ≡ succeeds o
succeeds-unanchored none n = refl
succeeds-unanchored (some pos) n = refl

parts-match :
    (path pattern : Str)
    → succeeds (match_parts path (starts_with pattern (b'*' ∷ [])) 0 0 (split_stars pattern))
      ≡ match_pieces (split_stars pattern) path
unfolding split_stars match_parts search
parts-match path [] = refl
parts-match path (c ∷ pattern) = elim (Bool-cases (c == b'*')) [
  | inl star ↦ rw star (match_parts-search path true (split_stars pattern) 0 0)
  | inr other ↦ rw other (wildcard-unstarred path c (split_stars pattern))
]

-- Without an anchor `_wildcard_match` accepts exactly the paths of which the pattern matches a
-- prefix, each star standing for any text, though it tries the leftmost occurrence of each part only.
pub wildcard_match-eq-glob :
    (path pattern : Str) → wildcard_match path pattern false ≡ glob pattern path
unfolding wildcard_match
wildcard_match-eq-glob path pattern =
    succeeds-unanchored _ (length path)
    ∙ parts-match path pattern
    ∙ sym (glob-eq-pieces pattern path)
