-- ===== src/Robots/Glob.antt =====
-- A reference for patterns: `*` stands for any text, all else for itself.
use verisearch.Prelude.{
  ℕ, Bool, true, false, ◌&&◌, ◌||◌, List, [], ◌∷◌, ◌==◌, if◌then◌else◌, Str, starts_with, length,
  drop, ◌≡◌, refl, ap, sym, ◌∙◌, fun_ext, arith, Bool-cases, inl, inr,
}
use verisearch.Robots.Pattern.{push, split_stars}

-- Some suffix of a text passes the test.
unfoldable pub some_suffix : (Str → Bool) → Str → Bool
some_suffix p [] = p []
some_suffix p (c ∷ s) = p (c ∷ s) || some_suffix p s

abbrev pub glob_char : ℕ → (Str → Bool) → Str → Bool
glob_char c p [] = false
glob_char c p (d ∷ s) = d == c && p s

-- The pattern matches a prefix of the text.
unfoldable pub glob : Str → Str → Bool
unfolding some_suffix
glob [] s = true
glob (c ∷ pattern) s =
    let later = glob pattern in if c == b'*' then some_suffix later s else glob_char c later s

-- The same over the pieces of a pattern, behind a star.
unfoldable pub search : List Str → Str → Bool
unfolding some_suffix
search [] s = true
search (part ∷ parts) s =
    some_suffix (λ u. starts_with u part && search parts (drop (length part) u)) s

-- The first piece stands at the start of the text.
abbrev pub match_pieces : List Str → Str → Bool
match_pieces [] s = true
match_pieces (part ∷ parts) s = starts_with s part && search parts (drop (length part) s)

match_pieces-push :
    (c : ℕ) (parts : List Str) (s : Str)
    → match_pieces (push c parts) s ≡ glob_char c (match_pieces parts) s
unfolding search
match_pieces-push c [] [] = refl
match_pieces-push c [] (d ∷ s) = ground arith
match_pieces-push c (part ∷ parts) [] = refl
match_pieces-push c (part ∷ parts) (d ∷ s) = ground arith

some_suffix-pieces :
    (parts : List Str) (s : Str) → some_suffix (match_pieces parts) s ≡ search parts s
unfolding search some_suffix
some_suffix-pieces [] [] = refl
some_suffix-pieces [] (c ∷ s) = refl
some_suffix-pieces (part ∷ parts) s = refl

-- A pattern matches as its pieces do.
pub glob-eq-pieces : (pattern s : Str) → glob pattern s ≡ match_pieces (split_stars pattern) s
unfolding glob split_stars search
glob-eq-pieces [] s = refl
glob-eq-pieces (c ∷ pattern) s =
    let ih : glob pattern ≡ match_pieces (split_stars pattern) = fun_ext (glob-eq-pieces pattern) in
    elim (Bool-cases (c == b'*')) [
      | inl star ↦
          rw star (ap (λ f. some_suffix f s) ih ∙ some_suffix-pieces (split_stars pattern) s)
      | inr other ↦
          rw other
            (ap (λ f. glob_char c f s) ih ∙ sym (match_pieces-push c (split_stars pattern) s))
    ]
