-- ===== src/QueryFilter/Escapes.antt =====
-- A string that the printer has escaped, read back by the parser.
use verisearch.Prelude.{
  ℕ, zero, suc, ◌≤◌, ◌<◌, true, false, [], ◌∷◌, ◌++◌, append_assoc, ◌==◌, ltb, if◌then◌else◌,
  length, length-append, Str, replace, ◌≡◌, refl, sym, ap, subst, ◌∙◌, arith, Bool-cases, inl, inr,
}
use verisearch.QueryFilter.Ast.{Literal, string_literal, number_literal, timestamp_literal}
use verisearch.QueryFilter.Host.{Host}
use verisearch.QueryFilter.State.{State, Parser, ok, pure, ◌>>=◌, and_then}
use verisearch.QueryFilter.Lexer.{skip_while, advance_while, skip_whitespace}
use verisearch.QueryFilter.Literals.{unescape, string_body, parse_string_literal, parse_value}
use verisearch.QueryFilter.Printer.{Floats, print_literal}

-- The state in front of `rest`.
abbrev pub at : Str → Str → ℕ → ℕ → State
at before rest d l = record { before = before; rest = rest; depth = d; leaf_count = l }

-- The characters before the position, once the parser has passed `s`.
abbrev pub behind : Str → Str → Str
behind [] before = before
behind (c ∷ s) before = behind s (c ∷ before)

pub behind-append : (s t before : Str) → behind (s ++ t) before ≡ behind t (behind s before)
behind-append [] t before = refl
behind-append (c ∷ s) t before = behind-append s t (c ∷ before)

-- The two `replace` of the printer in one pass.
escape : Str → Str
escape [] = []
escape (c ∷ s) =
    let rest = escape s in
    if c == 92 then 92 ∷ 92 ∷ rest else if c == 34 then 92 ∷ 34 ∷ rest else c ∷ rest

replace-replace : (v : Str) → replace 34 (92 ∷ 34 ∷ []) (replace 92 (92 ∷ 92 ∷ []) v) ≡ escape v
unfolding escape replace
replace-replace [] = refl
replace-replace (c ∷ v) = elim (Bool-cases (c == 92)) [
  | inl slash ↦ rw slash (ap (λ s. 92 ∷ 92 ∷ s) (replace-replace v))
  | inr other ↦ elim (Bool-cases (c == 34)) [
    | inl quote ↦ rw (other, quote) (ap (λ s. 92 ∷ 34 ∷ s) (replace-replace v))
    | inr plain ↦ rw (other, plain) (ap (λ s. c ∷ s) (replace-replace v))
  ]
]

length-escape : (v : Str) → length v ≤ length (escape v)
unfolding escape
length-escape [] = omega arith
length-escape (c ∷ v) = elim (Bool-cases (c == 92)) [
  | inl slash ↦ rw slash (omega (arith, length-escape v))
  | inr other ↦ elim (Bool-cases (c == 34)) [
    | inl quote ↦ rw (other, quote) (omega (arith, length-escape v))
    | inr plain ↦ rw (other, plain) (omega (arith, length-escape v))
  ]
]

is_char : (c n : ℕ) → (c == n) ≡ true → c ≡ n
is_char c n h = ground arith

-- One round of the loop of `parse_string_literal`, at a character that is not special.
string_body-plain :
    (c : ℕ) (s before : Str) (d l fuel : ℕ)
    → (c == 92) ≡ false
    → (c == 34) ≡ false
    → string_body (suc fuel) (at before (c ∷ s) d l)
      ≡ and_then (string_body fuel (at (c ∷ before) s d l)) (λ value. pure (c ∷ value))
unfolding string_body ◌>>=◌
string_body-plain c s before d l fuel other plain = rw (and_then, other, plain)

escape-plain :
    (c : ℕ) (v : Str) → (c == 92) ≡ false → (c == 34) ≡ false → escape (c ∷ v) ≡ c ∷ escape v
unfolding escape
escape-plain c v other plain = rw (other, plain)

-- A round at an escaped backslash or quote.
string_body-slash :
    (s before : Str) (d l fuel : ℕ)
    → string_body (suc fuel) (at before (92 ∷ 92 ∷ s) d l)
      ≡ and_then (string_body fuel (at (92 ∷ 92 ∷ before) s d l)) (λ value. pure (92 ∷ value))
unfolding string_body unescape ◌>>=◌
string_body-slash s before d l fuel = refl

string_body-quote :
    (s before : Str) (d l fuel : ℕ)
    → string_body (suc fuel) (at before (92 ∷ 34 ∷ s) d l)
      ≡ and_then (string_body fuel (at (34 ∷ 92 ∷ before) s d l)) (λ value. pure (34 ∷ value))
unfolding string_body unescape ◌>>=◌
string_body-quote s before d l fuel = refl

-- What `string_body` makes of an escaped string.
abbrev ReadsBack : Str → Str → Type 0
ReadsBack v e =
    (r before : Str) (d l fuel : ℕ)
    → length v < fuel
    → string_body fuel (at before (e ++ 34 ∷ r) d l) ≡ ok v (at (34 ∷ behind e before) r d l)

string_body-escape_cons :
    (c : ℕ) (v : Str) → ReadsBack v (escape v) → ReadsBack (c ∷ v) (escape (c ∷ v))
unfolding escape
string_body-escape_cons c v read = elim (Bool-cases (c == 92)) [
  | inl slash ↦
      let q : c ≡ 92 = is_char c 92 slash in
      subst (λ k. ReadsBack (k ∷ v) (escape (k ∷ v))) (sym q) (slashed read)
  | inr other ↦ elim (Bool-cases (c == 34)) [
    | inl quote ↦
        let q : c ≡ 34 = is_char c 34 quote in
        subst (λ k. ReadsBack (k ∷ v) (escape (k ∷ v))) (sym q) (quoted read)
    | inr plain ↦
        subst (ReadsBack (c ∷ v)) (sym (escape-plain c v other plain)) (kept other plain read)
  ]
]
  where
    slashed : ReadsBack v (escape v) → ReadsBack (92 ∷ v) (92 ∷ 92 ∷ escape v)
    slashed read r before d l zero h = absurd (omega arith)
    slashed read r before d l (suc fuel) h =
        string_body-slash (escape v ++ 34 ∷ r) before d l fuel
        ∙ ap (λ m. and_then m (λ value. pure (92 ∷ value)))
            (read r (92 ∷ 92 ∷ before) d l fuel (omega arith))

    quoted : ReadsBack v (escape v) → ReadsBack (34 ∷ v) (92 ∷ 34 ∷ escape v)
    quoted read r before d l zero h = absurd (omega arith)
    quoted read r before d l (suc fuel) h =
        string_body-quote (escape v ++ 34 ∷ r) before d l fuel
        ∙ ap (λ m. and_then m (λ value. pure (34 ∷ value)))
            (read r (34 ∷ 92 ∷ before) d l fuel (omega arith))

    kept :
        (c == 92) ≡ false
        → (c == 34) ≡ false
        → ReadsBack v (escape v)
        → ReadsBack (c ∷ v) (c ∷ escape v)
    kept other plain read r before d l zero h = absurd (omega arith)
    kept other plain read r before d l (suc fuel) h =
        string_body-plain c (escape v ++ 34 ∷ r) before d l fuel other plain
        ∙ ap (λ m. and_then m (λ value. pure (c ∷ value)))
            (read r (c ∷ before) d l fuel (omega arith))

-- The loop of `parse_string_literal` reads an escaped string back.
string_body-escape : (v : Str) → ReadsBack v (escape v)
string_body-escape [] r before d l zero h = absurd (omega arith)
string_body-escape [] r before d l (suc fuel) h = unfold escape string_body ◌>>=◌ in refl
string_body-escape (c ∷ v) r before d l fuel h =
    string_body-escape_cons c v (string_body-escape v) r before d l fuel h

-- A string that the parser can return.
abbrev pub IsText : {F : Type 0} → Literal F → Type 0
IsText (string_literal v) = length v ≤ 1024
IsText (number_literal x) = ⊥
IsText (timestamp_literal v) = ⊥

-- A printed literal is read back, and the parser stands behind it.
abbrev pub ReadBy : {F : Type 0} → Parser (Literal F) → Literal F → Str → Type 0
ReadBy m v s =
    (r before : Str) (d l : ℕ) → m (at before (s ++ r) d l) ≡ ok v (at (behind s before) r d l)

module _ {F : Type 0} (host : Host F) (floats : Floats F) where
  open host use {is_digit}

  parse_string_literal-escape :
      (v : Str)
      → length v ≤ 1024
      → ReadBy {F = F} parse_string_literal (string_literal v) (34 ∷ (escape v ++ 34 ∷ []))
  parse_string_literal-escape v short r before d l =
      let body =
        string_body-escape v r (34 ∷ before) d l (suc (length (escape v ++ 34 ∷ r)))
          (omega (arith, length-escape v, length-append (escape v) (34 ∷ r))) in
      let fits : ltb 1024 (length v) ≡ false = ground arith in
      let text : (escape v ++ 34 ∷ []) ++ r ≡ escape v ++ 34 ∷ r =
        append_assoc (escape v) (34 ∷ []) r in
      let ends : behind (escape v ++ 34 ∷ []) (34 ∷ before) ≡ 34 ∷ behind (escape v) (34 ∷ before) =
        behind-append (escape v) (34 ∷ []) (34 ∷ before) in
      ap (λ t. parse_string_literal (at before (34 ∷ t) d l)) text
      ∙ literal (escape v ++ 34 ∷ r) (at (34 ∷ behind (escape v) (34 ∷ before)) r d l) body fits
      ∙ ap (λ b. ok (string_literal v) (at b r d l)) (sym ends)
    where
      literal :
          (s : Str) (t : State)
          → string_body (suc (length s)) (at (34 ∷ before) s d l) ≡ ok v t
          → ltb 1024 (length v) ≡ false
          → parse_string_literal {F = F} (at before (34 ∷ s) d l) ≡ ok (string_literal v) t
      literal s t body fits = unfold parse_string_literal ◌>>=◌ in rw (body, fits)

  print_literal-escape :
      (v : Str) → print_literal floats (string_literal v) ≡ 34 ∷ (escape v ++ 34 ∷ [])
  unfolding print_literal
  print_literal-escape v = ap (λ s. 34 ∷ (s ++ 34 ∷ [])) (replace-replace v)

  parse_value-quote :
      (s before : Str) (d l : ℕ)
      → parse_value host (at before (34 ∷ s) d l) ≡ parse_string_literal (at before (34 ∷ s) d l)
  unfolding parse_value skip_whitespace advance_while skip_while ◌>>=◌
  parse_value-quote s before d l = refl

  parse_value-blank :
      (s before : Str) (d l : ℕ)
      → parse_value host (at before (32 ∷ 34 ∷ s) d l)
        ≡ parse_string_literal (at (32 ∷ before) (34 ∷ s) d l)
  unfolding parse_value skip_whitespace advance_while skip_while ◌>>=◌
  parse_value-blank s before d l = refl

  pub parse_value-print :
      (v : Literal F) → IsText v → ReadBy (parse_value host) v (print_literal floats v)
  parse_value-print (string_literal v) short =
      subst (ReadBy (parse_value host) (string_literal v)) (sym (print_literal-escape v))
        (λ r before d l.
          parse_value-quote ((escape v ++ 34 ∷ []) ++ r) before d l
          ∙ parse_string_literal-escape v short r before d l)
  parse_value-print (number_literal x) h = absurd h
  parse_value-print (timestamp_literal v) h = absurd h

  pub parse_value-print_blank :
      (v : Literal F) → IsText v → ReadBy (parse_value host) v (32 ∷ print_literal floats v)
  parse_value-print_blank (string_literal v) short =
      subst (λ s. ReadBy (parse_value host) (string_literal v) (32 ∷ s))
        (sym (print_literal-escape v))
        (λ r before d l.
          parse_value-blank ((escape v ++ 34 ∷ []) ++ r) before d l
          ∙ parse_string_literal-escape v short r (32 ∷ before) d l)
  parse_value-print_blank (number_literal x) h = absurd h
  parse_value-print_blank (timestamp_literal v) h = absurd h
