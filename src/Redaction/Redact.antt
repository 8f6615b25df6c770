-- ===== src/Redaction/Redact.antt =====
-- backend/pii_redactor/redactor.py: `redact` and `redact_with_info`.
use verisearch.Prelude.{
  ℕ, Bool, true, false, List, [], ◌∷◌, ◌++◌, map, is_empty, if◌then◌else◌, take, drop, Str, codes,
}
use verisearch.Redaction.Detect.{
  Kind, email, phone, us_ssn, eu_national_id, credit_card, PiiMatch, Host, detect_pii,
}

-- `_placeholder_for`, on the kinds that `detect_pii` gives
abbrev pub placeholder_for : Kind → Str
placeholder_for email = codes "[REDACTED_EMAIL]"
placeholder_for phone = codes "[REDACTED_PHONE]"
placeholder_for us_ssn = codes "[REDACTED_SSN]"
placeholder_for eu_national_id = codes "[REDACTED_EU_ID]"
placeholder_for credit_card = codes "[REDACTED_CARD]"

-- `result[: match.start] + placeholder + result[match.end :]`
abbrev pub splice : PiiMatch → Str → Str
splice m text = take m.start text ++ (placeholder_for m.kind ++ drop m.end text)

-- The loop over `reversed(matches)`: the last match is spliced first.
unfoldable pub splice_all : List PiiMatch → Str → Str
splice_all [] text = text
splice_all (m ∷ ms) text = splice m (splice_all ms text)

-- `redact`
unfoldable pub redact : Host → Str → Str
unfolding splice_all
redact host text =
    let matches = detect_pii host text in if is_empty matches then text else splice_all matches text

-- `RedactionInfo`
pub record RedactionInfo : Type 0 where
  pub kind : Kind
  pub start : ℕ
  pub end : ℕ
  pub placeholder : Str

-- `RedactionResult`
pub record RedactionResult : Type 0 where
  pub redacted_text : Str
  pub redactions : List RedactionInfo
  pub had_pii : Bool

abbrev pub info : PiiMatch → RedactionInfo
info m = record {
  kind = m.kind;
  start = m.start;
  end = m.end;
  placeholder = placeholder_for m.kind;
}

-- `redact_with_info`
unfoldable pub redact_with_info : Host → Str → RedactionResult
unfolding splice_all
redact_with_info host text =
    let matches = detect_pii host text in
    if is_empty matches
    then record { redacted_text = text; redactions = []; had_pii = false }
    else record {
      redacted_text = splice_all matches text;
      redactions = map info matches;
      had_pii = true;
    }
