-- ===== src/Robots/Paths.antt =====
-- `_path_matches` of backend/crawler/robots.py against the references: right without `$`, and wrong
-- for some patterns with a star and `$`.
use verisearch.Prelude.{
  ℕ, zero, suc, ◌+◌, ◌≤◌, ◌<◌, Bool, true, false, some, [], ◌∷◌, ◌++◌, ◌==◌, if◌then◌else◌, Str,
  starts_with, length, length-append, drop, drop-length-append, is_empty, ◌≡◌, ◌≢◌, refl, ◌∙◌, ap,
  append_assoc, arith, Bool-cases, inl, inr,
}
use verisearch.Robots.Pattern.{
  find, split_stars, match_parts, wildcard_match, ends_with_dollar, drop_last, has_star,
  path_matches,
}
use verisearch.Robots.Glob.{some_suffix, glob, glob_char}
use verisearch.Robots.Greedy.{wildcard_match-eq-glob}

starts_with-eq-glob :
    (path pattern : Str) → has_star pattern ≡ false → starts_with path pattern ≡ glob pattern path
unfolding glob
starts_with-eq-glob path [] h = refl
starts_with-eq-glob [] (c ∷ pattern) h = ground arith
starts_with-eq-glob (d ∷ path) (c ∷ pattern) h = ground (arith, starts_with-eq-glob path pattern)

-- A pattern that is not empty and does not end in `$` matches exactly the paths of which it matches
-- a prefix, each star standing for any text.
pub path_matches-eq-glob :
    (path pattern : Str)
    → pattern ≢ []
    → ends_with_dollar pattern ≡ false
    → path_matches path pattern ≡ glob pattern path
unfolding path_matches
path_matches-eq-glob path [] ne h = absurd (ne refl)
path_matches-eq-glob path (c ∷ pattern) ne h = elim (Bool-cases (has_star (c ∷ pattern))) [
  | inl star ↦ rw (h, star) (wildcard_match-eq-glob path (c ∷ pattern))
  | inr plain ↦ rw (h, plain) (starts_with-eq-glob path (c ∷ pattern) plain)
]

-- The reference for an anchored pattern: it matches the whole text.
unfoldable pub exact : Str → Str → Bool
unfolding some_suffix
exact [] s = is_empty s
exact (c ∷ pattern) s =
    let later = exact pattern in if c == b'*' then some_suffix later s else glob_char c later s

exact_self : (s : Str) → has_star s ≡ false → exact s s ≡ true
unfolding exact
exact_self [] h = refl
exact_self (c ∷ s) h = ground (arith, exact_self s)

some_suffix-append : (p : Str → Bool) (s t : Str) → p t ≡ true → some_suffix p (s ++ t) ≡ true
unfolding some_suffix
some_suffix-append p [] [] h = h
some_suffix-append p [] (c ∷ t) h = ground arith
some_suffix-append p (c ∷ s) t h =
    ground (arith, some_suffix-append p s t h, Bool-cases (p (c ∷ (s ++ t))))

-- An occurrence at `n` bounds the first one.
find-le :
    (part s : Str) (n : ℕ)
    → starts_with (drop n s) part ≡ true
    → (k : ℕ) × (find part s ≡ some k) × (k ≤ n)
unfolding find
find-le [] [] n h = (0, refl, omega arith)
find-le (c ∷ part) [] zero h = cc
find-le (c ∷ part) [] (suc n) h = cc
find-le part (d ∷ s) zero h = (0, rw h, omega arith)
find-le part (d ∷ s) (suc n) h =
    let (k, found, le) = find-le part s n h in
    elim (Bool-cases (starts_with (d ∷ s) part)) [
      | inl here ↦ (0, rw here, omega arith)
      | inr elsewhere ↦ (suc k, rw (elsewhere, found), omega arith)
    ]

starts_with-append : (s t : Str) → starts_with (s ++ t) s ≡ true
starts_with-append [] t = refl
starts_with-append (c ∷ s) t = ground (arith, starts_with-append s t)

split-plain : (part : Str) → has_star part ≡ false → split_stars part ≡ part ∷ []
unfolding split_stars
split-plain [] h = refl
split-plain (c ∷ part) h = ground (arith, split-plain part)

-- A path in which the text occurs once more, before its end.
abbrev pub twice : Str → Str → Str → Str
twice before part between = (before ++ (part ++ between)) ++ part

early :
    (before part between : Str)
    → (k : ℕ) × (find part (twice before part between) ≡ some k) × (k ≤ length before)
early before part between = find-le part (twice before part between) (length before) (
    rw (append_assoc, drop-length-append, append_assoc) (starts_with-append part (between ++ part)))

length-twice :
    (before part between : Str)
    → length (twice before part between)
      ≡ length before + (length part + length between) + length part
length-twice before part between = rw (length-append, length-append, length-append)

split-star : (pattern : Str) → split_stars (b'*' ∷ pattern) ≡ [] ∷ split_stars pattern
unfolding split_stars
split-star pattern = refl

ends_with_dollar-append : (s : Str) → ends_with_dollar (s ++ (b'$' ∷ [])) ≡ true
ends_with_dollar-append [] = refl
ends_with_dollar-append (c ∷ []) = refl
ends_with_dollar-append (c ∷ d ∷ s) = ends_with_dollar-append (d ∷ s)

drop_last-append : (s : Str) → drop_last (s ++ (b'$' ∷ [])) ≡ s
drop_last-append [] = refl
drop_last-append (c ∷ []) = refl
drop_last-append (c ∷ d ∷ s) = ap (λ t. c ∷ t) (drop_last-append (d ∷ s))

path_matches-star_dollar :
    (path pattern : Str)
    → path_matches path (b'*' ∷ (pattern ++ (b'$' ∷ [])))
      ≡ wildcard_match path (b'*' ∷ pattern) true
unfolding path_matches
path_matches-star_dollar path pattern =
    rw (ends_with_dollar-append (b'*' ∷ pattern), drop_last-append (b'*' ∷ pattern))

-- The loop on a star and one part stops behind the first occurrence.
wildcard-first :
    (path : Str) (c : ℕ) (piece : Str) (k : ℕ)
    → has_star (c ∷ piece) ≡ false
    → find (c ∷ piece) path ≡ some k
    → wildcard_match path (b'*' ∷ c ∷ piece) true ≡ (0 + k + length (c ∷ piece) == length path)
unfolding wildcard_match match_parts
wildcard-first path c piece k plain found =
    rw (split-star (c ∷ piece), split-plain (c ∷ piece) plain, wildcard_match)
      (rw (found, match_parts))

-- A pattern of a star, a text without a star and `$` does not match a path that ends in that text
-- and has it once more before, though the whole path matches the pattern: only the first occurrence
-- is tried. A path that the pattern disallows is taken as allowed.
pub path_matches-twice :
    (c : ℕ) (piece before between : Str)
    → has_star (c ∷ piece) ≡ false
    → (path_matches (twice before (c ∷ piece) between) (b'*' ∷ ((c ∷ piece) ++ (b'$' ∷ [])))
        ≡ false)
      × (exact (b'*' ∷ c ∷ piece) (twice before (c ∷ piece) between) ≡ true)
path_matches-twice c piece before between plain =
    let path = twice before (c ∷ piece) between in
    let (k, found, le) = early before (c ∷ piece) between in
    (
      path_matches-star_dollar path (c ∷ piece)
          ∙ wildcard-first path c piece k plain found
          ∙ too_short k (length (c ∷ piece)) (length path)
              (omega (arith, length-twice before (c ∷ piece) between)),
      (unfold exact in
          some_suffix-append (exact (c ∷ piece)) (before ++ ((c ∷ piece) ++ between)) (c ∷ piece)
            (exact_self (c ∷ piece) plain)),
    )
  where
    too_short : (k n m : ℕ) → k + n < m → (0 + k + n == m) ≡ false
    too_short k n m h = ground arith
