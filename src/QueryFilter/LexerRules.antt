-- ===== src/QueryFilter/LexerRules.antt =====
-- The methods of QueryFilter/Lexer end and move on; `parse_field` returns a field that is allowed.
use verisearch.Prelude.{
  ℕ, zero, suc, ◌≤◌, ◌<◌, ◌≡◌, refl, Bool, true, false, ◌||◌, Option, none, some, List, [], ◌∷◌,
  ◌==◌, ltb, Str, codes, length, length-drop, arith, any, All, str_eq, str_eq_iff, is_empty, ◌⊎◌,
  inl, inr, Bool-cases,
}
use verisearch.QueryFilter.Host.{Host}
use verisearch.QueryFilter.State.{State, error, advance, pure, ◌>>=◌, metadata_segment_length}
use verisearch.QueryFilter.Lexer.{
  get, modify, advance_while, skip_whitespace, expect_char, valid_fields, join_dots, bad_segment,
  check_field, is_word, keyword_matches, match_keyword, parse_identifier, dotted_parts, parse_field,
  taken_while,
}
use verisearch.QueryFilter.Rules.{
  Ensures, Ensures-map, Steps, Steps-refl, Steps-trans, Gives, Any, Gives-pure, Gives-error,
  Gives-if, Gives-option, From, From-bind, peek-From, modify-From, elim-From, Gives-get,
  advance_shorter, Gives-modify, Gives-peek, Gives-bind, advance_while-Steps, skip_whitespace-Steps,
  advance-Steps, skip-Steps,
}

pub blank-Gives : Gives Any (modify skip_whitespace)
blank-Gives = Gives-modify skip_whitespace skip_whitespace-Steps

pub advance-Gives : Gives Any (modify advance)
advance-Gives = Gives-modify advance advance-Steps

pub expect_char-Gives : (ch : ℕ) → Gives Any (expect_char ch)
unfolding expect_char
expect_char-Gives ch = Gives-bind Any Any _ _ blank-Gives λ _ _.
    Gives-bind Any Any _ _ Gives-peek λ c _.
      Gives-option Any c _ _ (Gives-error Any _)
        λ got. Gives-if Any (got == ch) _ _ (λ _. advance-Gives) (λ _. Gives-error Any _)

-- The segments of a metadata key are 1 to 128 code points long.
abbrev pub IsSegment : Str → Type 0
IsSegment segment = (1 ≤ length segment) × (length segment ≤ 128)

-- A field as the parser admits it: one of the fixed names, or `metadata` with a key behind it.
abbrev pub IsFieldPath : Str → List Str → Type 0
IsFieldPath top parts =
    (any (str_eq top) valid_fields ≡ true)
    ⊎ (top ≡ codes "metadata") × (1 ≤ length parts) × All IsSegment parts

pub record IsField (field : Str) : Type 0 where
  pub top : Str
  pub parts : List Str
  pub joined : field ≡ join_dots top parts
  pub allowed : IsFieldPath top parts

bad_segment-none : (parts : List Str) → bad_segment parts ≡ none → All IsSegment parts
unfolding bad_segment
bad_segment-none [] h = tt
bad_segment-none (p ∷ parts) h = elim (Bool-cases (ltb (length p) 1 || ltb 128 (length p))) [
  | inl bad ↦ ground arith
  | inr good ↦ ((ground arith, ground arith), bad_segment-none parts (ground arith))
]

segments-Gives :
    (top : Str) (parts : List Str) (bad : Option Str)
    → top ≡ codes "metadata"
    → 1 ≤ length parts
    → (bad ≡ none → All IsSegment parts)
    → Gives {A = Unit {0}}
        (λ _. IsFieldPath top parts)
        (elim bad [
          | none ↦ pure tt
          | some segment ↦ error (metadata_segment_length (length segment))
        ])
segments-Gives top parts none e n h = Gives-pure _ tt (inr (e, n, h refl))
segments-Gives top parts (some segment) e n h = Gives-error _ _

not_empty : {A : Type 0} (xs : List A) → is_empty xs ≡ false → 1 ≤ length xs
not_empty [] h = cc
not_empty (x ∷ xs) h = omega arith

pub check_field-Gives :
    (top : Str) (parts : List Str) → Gives (λ _. IsFieldPath top parts) (check_field top parts)
unfolding check_field
check_field-Gives top parts =
    Gives-if _ (str_eq top (codes "metadata")) _ _
      (λ meta.
        Gives-if _ (is_empty parts) _ _ (λ _. Gives-error _ _)
          (λ some_key.
            segments-Gives top parts (bad_segment parts) ((str_eq_iff _ _).0 meta)
              (not_empty parts some_key) (bad_segment-none parts)))
      (λ _.
        Gives-if _ (any (str_eq top) valid_fields) _ _ (λ known. Gives-pure _ tt (inl known))
          (λ _. Gives-error _ _))

module _ {F : Type 0} (host : Host F) where
  -- `match_keyword` has consumed the keyword if it returns true.
  abbrev pub Shorter : State → Bool → State → Type 0
  Shorter s found t = Steps s t × (found ≡ true → length t.rest < length s.rest)

  keyword_fits :
      (keyword rest : Str) → keyword_matches host keyword rest ≡ true → length keyword ≤ length rest
  unfolding keyword_matches
  keyword_fits keyword rest h = ground arith

  pub match_keyword-Shorter :
      (keyword : Str) (s : State)
      → 1 ≤ length keyword
      → Ensures (Shorter s) (match_keyword host keyword s)
  unfolding match_keyword ◌>>=◌
  match_keyword-Shorter keyword s long =
      let t = skip_whitespace s in
      let blank : Steps s t = skip_whitespace-Steps s in
      elim (Bool-cases (keyword_matches host keyword t.rest)) [
        | inl hit ↦ rw hit (
          Steps-trans blank (skip-Steps (length keyword) t),
          λ _. omega (arith, keyword_fits keyword t.rest hit, length-drop (length keyword) t.rest),
        )
        | inr miss ↦ rw miss (blank, λ e. cc)
      ]

  pub match_keyword-Gives :
      (keyword : Str) → 1 ≤ length keyword → Gives Any (match_keyword host keyword)
  match_keyword-Gives keyword long = record {
    at = λ s.
        Ensures-map (Shorter s) (λ _ t. Steps s t × Unit) _ (match_keyword-Shorter keyword s long)
          (λ b t h. (h.0, tt));
  }

  pub parse_identifier-Gives : Gives Any (parse_identifier host)
  unfolding parse_identifier
  parse_identifier-Gives = Gives-bind Any Any _ _ blank-Gives λ _ _.
      Gives-bind Any Any _ _ Gives-peek λ c _. Gives-option Any c _ _ (Gives-error Any _) λ ch.
        Gives-if Any (host.is_alpha ch || ch == b'_') _ _ (λ _. word ch) (λ _. Gives-error Any _)
    where
      scan : Gives Any (modify (advance_while (is_word host)))
      scan = Gives-modify _ (advance_while-Steps (is_word host))

      word :
          (ch : ℕ)
          → Gives Any (
              modify advance >>= λ _. get >>= λ s. modify (advance_while (is_word host)) >>= λ _.
              pure (ch ∷ taken_while (is_word host) s.rest))
      word ch =
          Gives-bind Any Any _ _ advance-Gives λ _ _.
            Gives-get Any _ λ s. (Gives-bind Any Any _ _ scan λ _ _. Gives-pure Any _ tt).at s

  -- The loop over dotted parts ends: each round passes a dot.
  dotted_parts-From :
      (fuel : ℕ) (s : State) → length s.rest < fuel → From s Any (dotted_parts host fuel s)
  unfolding dotted_parts
  dotted_parts-From zero s h = absurd (omega arith)
  dotted_parts-From (suc fuel) s h =
      peek-From Any s _ (λ _. (Steps-refl s, tt))
        λ ch e.
          elim-From Any s (ch == b'.') _ _
            (λ _. modify-From Any s advance _ (advance-Steps s) (
              From-bind Any Any (advance s) _ _ (parse_identifier-Gives.at (advance s))
                λ part t p _.
                  From-bind Any Any t _ _
                    (dotted_parts-From fuel t (omega (arith, advance_shorter s ch e)))
                    λ parts u q _. (Steps-refl u, tt)))
            (λ _. (Steps-refl s, tt))

  pub parse_field-Gives : Gives IsField (parse_field host)
  unfolding parse_field
  parse_field-Gives = Gives-bind Any IsField _ _ blank-Gives λ _ _.
      Gives-bind Any IsField _ _ parse_identifier-Gives λ top _. Gives-get IsField _ λ s.
        From-bind Any IsField s _ _ (dotted_parts-From (suc (length s.rest)) s (omega arith))
          λ parts t p _.
            (Gives-bind (λ _. IsFieldPath top parts) IsField _ _ (check_field-Gives top parts)
                λ _ allowed.
                  Gives-pure IsField (join_dots top parts)
                    (record { top = top; parts = parts; joined = refl; allowed = allowed })).at
              t
