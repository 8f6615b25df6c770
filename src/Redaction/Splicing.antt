-- ===== src/Redaction/Splicing.antt =====
-- `redact` on matches that are apart, and on matches that overlap.
use verisearch.Prelude.{
  ℕ, ◌+◌, List, [], ◌∷◌, ◌++◌, append_assoc, length, length-append, take, drop, take-length-append,
  drop-length-append, Str, ◌≡◌, refl, sym, ap, ◌∙◌, arith,
}
use verisearch.Redaction.Detect.{Kind, PiiMatch, Host, detect_pii}
use verisearch.Redaction.Redact.{placeholder_for, splice, splice_all, redact}

-- A text with personal data: what stands before a value, and the value.
pub record Segment : Type 0 where
  pub gap : Str
  pub kind : Kind
  pub value : Str

-- The text of the segments, and what follows the last of them.
unfoldable pub text_of : List Segment → Str → Str
text_of [] tail = tail
text_of (s ∷ ss) tail = s.gap ++ (s.value ++ text_of ss tail)

-- The matches at the values, from a position on.
unfoldable pub spans : ℕ → List Segment → List PiiMatch
spans p [] = []
spans p (s ∷ ss) =
    record {
      kind = s.kind;
      start = p + length s.gap;
      end = p + length s.gap + length s.value;
      value = s.value;
    }
    ∷ spans (p + length s.gap + length s.value) ss

-- The text with a placeholder for each value.
unfoldable pub redacted_of : List Segment → Str → Str
redacted_of [] tail = tail
redacted_of (s ∷ ss) tail = s.gap ++ (placeholder_for s.kind ++ redacted_of ss tail)

take-front : (p : ℕ) (xs ys : Str) → p ≡ length xs → take p (xs ++ ys) ≡ xs
take-front p xs ys e = ap (λ (k : ℕ). take k (xs ++ ys)) e ∙ take-length-append xs ys

drop-front : (p : ℕ) (xs ys : Str) → p ≡ length xs → drop p (xs ++ ys) ≡ ys
drop-front p xs ys e = ap (λ (k : ℕ). drop k (xs ++ ys)) e ∙ drop-length-append xs ys

-- A splice puts the placeholder for the text between its offsets.
splice-append :
    (m : PiiMatch) (before value after : Str)
    → m.start ≡ length before
    → m.end ≡ length before + length value
    → splice m (before ++ (value ++ after)) ≡ before ++ (placeholder_for m.kind ++ after)
splice-append m before value after e f =
    ap (λ xs. xs ++ (placeholder_for m.kind ++ drop m.end (before ++ (value ++ after))))
      (take-front m.start before (value ++ after) e)
    ∙ ap (λ ys. before ++ (placeholder_for m.kind ++ ys))
        (ap (drop m.end) (sym (append_assoc before value after))
          ∙ drop-front m.end (before ++ value) after (f ∙ sym (length-append before value)))

splice_all-spans :
    (p : ℕ) (before : Str) (ss : List Segment) (tail : Str)
    → p ≡ length before
    → splice_all (spans p ss) (before ++ text_of ss tail) ≡ before ++ redacted_of ss tail
unfolding splice_all spans text_of redacted_of
splice_all-spans p before [] tail e = refl
splice_all-spans p before (s ∷ ss) tail e =
    let q : ℕ = p + length s.gap + length s.value in
    let m : PiiMatch = record {
      kind = s.kind;
      start = p + length s.gap;
      end = q;
      value = s.value;
    } in
    let front : Str = before ++ s.gap in
    let at_gap : p + length s.gap ≡ length front = omega (arith, e, length-append before s.gap) in
    let at_value : q ≡ length front + length s.value = omega (arith, at_gap) in
    let regroup : (zs : Str) → before ++ (s.gap ++ zs) ≡ front ++ zs =
      λ zs. sym (append_assoc before s.gap zs) in
    let rest : splice_all (spans q ss) (front ++ (s.value ++ text_of ss tail))
        ≡ front ++ (s.value ++ redacted_of ss tail) =
      ap (splice_all (spans q ss)) (sym (append_assoc front s.value (text_of ss tail)))
      ∙ splice_all-spans q (front ++ s.value) ss tail (at_value ∙ sym (length-append front s.value))
      ∙ append_assoc front s.value (redacted_of ss tail) in
    ap (λ zs. splice m (splice_all (spans q ss) zs)) (regroup (s.value ++ text_of ss tail))
    ∙ ap (splice m) rest
    ∙ splice-append m front s.value (redacted_of ss tail) at_gap at_value
    ∙ sym (regroup (placeholder_for s.kind ++ redacted_of ss tail))

-- Where the matches stand apart, in order, `redact` puts the placeholder of its kind for each value
-- and leaves the text between them and behind them as it is.
pub redact-spans :
    (host : Host) (ss : List Segment) (tail : Str)
    → detect_pii host (text_of ss tail) ≡ spans 0 ss
    → redact host (text_of ss tail) ≡ redacted_of ss tail
unfolding redact splice_all spans text_of redacted_of
redact-spans host [] tail e = rw (redact, e)
redact-spans host (s ∷ ss) tail e = rw (redact, e) (splice_all-spans 0 [] (s ∷ ss) tail refl)

-- The matches of a value within a longer one.
abbrev pub nested : Kind → Kind → Str → Str → Str → List PiiMatch
nested outer inner before value after =
    record {
      kind = outer;
      start = 0;
      end = length (before ++ (value ++ after));
      value = before ++ (value ++ after);
    }
    ∷ record {
      kind = inner;
      start = length before;
      end = length before + length value;
      value = value;
    }
    ∷ []

same_length :
    (a v p b k : Str)
    → length p ≡ length v + length k
    → length (a ++ (v ++ (b ++ k))) ≡ length (a ++ (p ++ b))
same_length a v p b k e = omega (
  arith,
  length-append a (v ++ (b ++ k)),
  length-append v (b ++ k),
  length-append b k,
  length-append a (p ++ b),
  length-append p b,
)

-- Where one match lies within another and the placeholder of the inner one is longer than its value
-- by as many characters as `kept` has, `redact` leaves `kept`, the end of the outer value, in the
-- text: the end of the outer match is an offset into the text before the inner splice.
pub redact-nested :
    (host : Host) (outer inner : Kind) (before value between kept tail : Str)
    → detect_pii host (before ++ (value ++ (between ++ (kept ++ tail))))
      ≡ nested outer inner before value (between ++ kept)
    → length (placeholder_for inner) ≡ length value + length kept
    → redact host (before ++ (value ++ (between ++ (kept ++ tail))))
      ≡ placeholder_for outer ++ (kept ++ tail)
unfolding redact splice_all
redact-nested host outer inner before value between kept tail e size =
    let text : Str = before ++ (value ++ (between ++ (kept ++ tail))) in
    let ph : Str = placeholder_for inner in
    let m : PiiMatch = record {
      kind = inner;
      start = length before;
      end = length before + length value;
      value = value;
    } in
    let once : splice m text ≡ before ++ (ph ++ (between ++ (kept ++ tail))) =
      splice-append m before value (between ++ (kept ++ tail)) refl refl in
    let n : ℕ = length (before ++ (value ++ (between ++ kept))) in
    let regroup : before ++ (ph ++ (between ++ (kept ++ tail)))
        ≡ (before ++ (ph ++ between)) ++ (kept ++ tail) =
      sym (
        append_assoc before (ph ++ between) (kept ++ tail)
        ∙ ap (λ zs. before ++ zs) (append_assoc ph between (kept ++ tail))) in
    let long : n ≡ length (before ++ (ph ++ between)) =
      same_length before value ph between kept size in
    rw (redact, e)
      (ap (λ zs. placeholder_for outer ++ drop n zs) (once ∙ regroup)
        ∙ ap (λ zs. placeholder_for outer ++ zs)
            (drop-front n (before ++ (ph ++ between)) (kept ++ tail) long))
