-- ===== src/Redaction/Tests.antt =====
-- The theorems on redaction at texts with a phone number, in ASCII.
use verisearch.Prelude.{
  ℕ, ◌-◌, true, false, ◌&&◌, List, [], ◌∷◌, ◌++◌, leb, all, Str, str_eq, codes, ◌≡◌, refl,
  if◌then◌else◌,
}
use verisearch.Redaction.Detect.{email, phone, us_ssn, Found, Host, detect_pii, luhn_check}
use verisearch.Redaction.Redact.{placeholder_for, redact}
use verisearch.Redaction.Splicing.{
  Segment, text_of, spans, redacted_of, redact-spans, nested, redact-nested,
}

abbrev found : ℕ → ℕ → Str → Found
found start end group = record { start = start; end = end; group = group }

-- What the patterns find in the two texts below.
abbrev apart : Str
apart = codes "call +1 2345678 or a@b.de now"

abbrev within : Str
within = codes "+1 123456789 1234 please"

abbrev finder : Host
finder = record {
  emails = λ s. if str_eq s apart then found 19 25 (codes "a@b.de") ∷ [] else [];
  phones = λ s.
      if str_eq s apart
      then found 5 15 (codes "+1 2345678") ∷ []
      else found 0 17 (codes "+1 123456789 1234") ∷ [];
  us_ssns = λ s. if str_eq s apart then [] else found 3 12 (codes "123456789") ∷ [];
  eu_national_ids = [];
  credit_cards = λ s. [];
  isdigit = all (λ c. leb b'0' c && leb c b'9');
  digit = λ c. c - b'0';
}

abbrev segments : List Segment
segments =
    record { gap = codes "call "; kind = phone; value = codes "+1 2345678" }
    ∷ record { gap = codes " or "; kind = email; value = codes "a@b.de" }
    ∷ []

detect_apart : detect_pii finder (text_of segments (codes " now")) ≡ spans 0 segments
unfolding detect_pii text_of spans
detect_apart = refl

detect_within :
    detect_pii finder
      (codes "+1 " ++ (codes "123456789" ++ ([] ++ (codes " 1234" ++ codes " please"))))
    ≡ nested phone us_ssn (codes "+1 ") (codes "123456789") ([] ++ codes " 1234")
unfolding detect_pii
detect_within = refl

redact-spans_example :
    redact finder (text_of segments (codes " now")) ≡ redacted_of segments (codes " now")
redact-spans_example = redact-spans finder segments (codes " now") detect_apart

redact-nested_example :
    redact finder (codes "+1 " ++ (codes "123456789" ++ ([] ++ (codes " 1234" ++ codes " please"))))
    ≡ placeholder_for phone ++ (codes " 1234" ++ codes " please")
redact-nested_example =
    redact-nested finder phone us_ssn (codes "+1 ") (codes "123456789") [] (codes " 1234")
      (codes " please") detect_within refl

-- A number that passes the Luhn check, and one that differs in a digit.
luhn_passes : luhn_check finder (codes "4111111111111111") ≡ true
unfolding luhn_check
luhn_passes = refl

luhn_fails : luhn_check finder (codes "4111111111111112") ≡ false
unfolding luhn_check
luhn_fails = refl
