-- ===== src/Redaction/Detect.antt =====
-- backend/pii_redactor/patterns.py: `detect_pii` and `luhn_check`. What a regular expression finds in
-- a text, and what Python takes for digits, is a parameter.
use verisearch.Prelude.{
  ℕ, ◌+◌, ◌-◌, ◌*◌, ◌%◌, Bool, true, false, not, ◌&&◌, ◌||◌, List, [], ◌∷◌, ◌++◌, ◌==◌, ltb, leb,
  if◌then◌else◌, is_empty, length, take, drop, Str, str_eq, codes,
}

-- The values of `PIIMatch.type`.
pub data Kind : Type 0 where
  email phone us_ssn eu_national_id credit_card : Kind

-- `PIIMatch`
pub record PiiMatch : Type 0 where
  pub kind : Kind
  pub start : ℕ
  pub end : ℕ
  pub value : Str

-- A result of `re.finditer`.
pub record Found : Type 0 where
  pub start : ℕ
  pub end : ℕ
  pub group : Str

-- The patterns' `finditer`, `str.isdigit` and `int` of one character.
pub record Host : Type 0 where
  pub emails : Str → List Found
  pub phones : Str → List Found
  pub us_ssns : Str → List Found
  pub eu_national_ids : List (Str → List Found)
  pub credit_cards : Str → List Found
  pub isdigit : Str → Bool
  pub digit : ℕ → ℕ

-- `_strip_separators`
unfoldable pub strip_separators : Str → Str
strip_separators [] = []
strip_separators (c ∷ s) =
    let rest = strip_separators s in if c == b' ' || c == b'-' then rest else c ∷ rest

-- `lstrip("+")`
unfoldable pub strip_plus : Str → Str
strip_plus [] = []
strip_plus (c ∷ s) = let rest = strip_plus s in if c == b'+' then rest else c ∷ s

-- What a digit adds to the total, at an odd position from the right and at an even one.
unfoldable pub doubled : ℕ → ℕ
doubled n = if ltb 9 (n * 2) then n * 2 - 9 else n * 2

-- The loop of `luhn_check` over the reversed digits; the flag is `i % 2 == 1`.
unfoldable pub luhn_total : (ℕ → ℕ) → Bool → Str → ℕ → ℕ
unfolding doubled
luhn_total digit odd [] total = total
luhn_total digit odd (c ∷ s) total =
    luhn_total digit (not odd) s (total + (if odd then doubled (digit c) else digit c))

abbrev pub reversed {ℓ} : {A : Type ℓ} → List A → List A → List A
reversed [] acc = acc
reversed (x ∷ xs) acc = reversed xs (x ∷ acc)

-- `luhn_check`
unfoldable pub luhn_check : Host → Str → Bool
unfolding luhn_total
luhn_check host digits =
    if is_empty digits || not (host.isdigit digits)
    then false
    else (luhn_total host.digit false (reversed digits []) 0 % 10 == 0)

-- The tests on the candidates.
unfoldable pub is_phone : Str → Bool
unfolding strip_separators strip_plus
is_phone value = leb 7 (length (strip_plus (strip_separators value)))

unfoldable pub is_us_ssn : Str → Bool
unfolding strip_separators
is_us_ssn value =
    let digits = strip_separators value in
    (length digits == 9)
    && not (str_eq (take 3 digits) (codes "000") || str_eq (take 3 digits) (codes "666"))
    && not (str_eq (take 1 digits) (codes "9"))
    && not (str_eq (take 2 (drop 3 digits)) (codes "00"))
    && not (str_eq (drop 5 digits) (codes "0000"))

unfoldable pub is_credit_card : Host → Str → Bool
unfolding strip_separators luhn_check
is_credit_card host value =
    let digits = strip_separators value in
    leb 13 (length digits) && leb (length digits) 19 && luhn_check host digits

-- The matches of one kind.
unfoldable pub matches_of : Kind → (Str → Bool) → List Found → List PiiMatch
matches_of kind accepts [] = []
matches_of kind accepts (m ∷ ms) =
    let rest = matches_of kind accepts ms in
    if accepts m.group
    then record { kind = kind; start = m.start; end = m.end; value = m.group } ∷ rest
    else rest

unfoldable pub matches_of_each : Kind → List (Str → List Found) → Str → List PiiMatch
unfolding matches_of
matches_of_each kind [] text = []
matches_of_each kind (pattern ∷ patterns) text =
    matches_of kind (λ _. true) (pattern text) ++ matches_of_each kind patterns text

-- The order of the keys `(start, end)`.
unfoldable pub not_after : PiiMatch → PiiMatch → Bool
not_after m n = ltb m.start n.start || (m.start == n.start && leb m.end n.end)

-- `matches.sort`, which is stable.
unfoldable pub insert_match : PiiMatch → List PiiMatch → List PiiMatch
unfolding not_after
insert_match m [] = m ∷ []
insert_match m (n ∷ ns) =
    let rest = insert_match m ns in if not_after m n then m ∷ n ∷ ns else n ∷ rest

unfoldable pub sort_matches : List PiiMatch → List PiiMatch
unfolding insert_match
sort_matches [] = []
sort_matches (m ∷ ms) = insert_match m (sort_matches ms)

-- The loop that leaves out a span that was seen.
unfoldable pub is_seen : PiiMatch → List PiiMatch → Bool
is_seen m [] = false
is_seen m (n ∷ ns) = (m.start == n.start && m.end == n.end) || is_seen m ns

unfoldable pub deduplicated : List PiiMatch → List PiiMatch → List PiiMatch
unfolding is_seen
deduplicated seen [] = []
deduplicated seen (m ∷ ms) =
    let known = deduplicated seen ms in
    let new = deduplicated (m ∷ seen) ms in if is_seen m seen then known else m ∷ new

-- `detect_pii`
unfoldable pub detect_pii : Host → Str → List PiiMatch
unfolding matches_of matches_of_each is_phone is_us_ssn is_credit_card sort_matches deduplicated
detect_pii host text = deduplicated [] (
    sort_matches (
      matches_of email (λ _. true) (host.emails text)
      ++ matches_of phone is_phone (host.phones text)
      ++ matches_of us_ssn is_us_ssn (host.us_ssns text)
      ++ matches_of_each eu_national_id host.eu_national_ids text
      ++ matches_of credit_card (is_credit_card host) (host.credit_cards text)))
