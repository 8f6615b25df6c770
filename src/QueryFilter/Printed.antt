-- ===== src/QueryFilter/Printed.antt =====
-- What the parser makes of the text that the printer gives for a set of strings.
use verisearch.Prelude.{
  ℕ, zero, suc, ◌+◌, ◌≤◌, ◌<◌, false, List, [], ◌∷◌, ◌++◌, append-nil, append_assoc, ltb, length,
  length-append, All, Str, codes, str_le, join, ◌≡◌, refl, sym, ap, ◌∙◌, arith, Bool-cases, inl,
  inr,
}
use verisearch.QueryFilter.Ast.{Literal, in_set}
use verisearch.QueryFilter.Host.{Host}
use verisearch.QueryFilter.State.{State, ok, pure, ◌>>=◌, and_then}
use verisearch.QueryFilter.Lexer.{skip_while, advance_while, skip_whitespace, expect_char}
use verisearch.QueryFilter.Literals.{parse_value, more_values, parse_value_list}
use verisearch.QueryFilter.Parser.{parse_in, count_leaf, max_in_set_size, max_leaf_count}
use verisearch.QueryFilter.Printer.{
  Floats, insert_by, sorted_by, print_literal, print_all, sort_literals, print_values,
}
use verisearch.QueryFilter.Escapes.{
  at, behind, behind-append, IsText, parse_value-print, parse_value-print_blank,
}

module _ {F : Type 0} (host : Host F) (floats : Floats F) where
  -- The values behind the first one, as they are printed.
  tail : List (Literal F) → Str
  tail [] = []
  tail (v ∷ vs) = 44 ∷ (32 ∷ print_literal floats v) ++ tail vs

  join-print_all :
      (v : Literal F) (vs : List (Literal F))
      → join (codes ", ") (print_all floats (v ∷ vs)) ≡ print_literal floats v ++ tail vs
  unfolding join print_all tail
  join-print_all v [] = sym (append-nil (print_literal floats v))
  join-print_all v (w ∷ vs) =
      ap (λ s. print_literal floats v ++ (44 ∷ 32 ∷ s)) (join-print_all w vs)

  more_values-end :
      (fuel : ℕ) (r before : Str) (d l : ℕ)
      → more_values host (suc fuel) (at before (41 ∷ r) d l) ≡ ok [] (at before (41 ∷ r) d l)
  unfolding more_values skip_whitespace advance_while skip_while ◌>>=◌
  more_values-end fuel r before d l = refl

  more_values-comma :
      (fuel : ℕ) (s before : Str) (d l : ℕ)
      → more_values host (suc fuel) (at before (44 ∷ s) d l)
        ≡ and_then
            (parse_value host (at (44 ∷ before) s d l))
            (λ value. more_values host fuel >>= λ values. pure (value ∷ values))
  unfolding more_values skip_whitespace advance_while skip_while ◌>>=◌
  more_values-comma fuel s before d l = refl

  more_values-tail :
      (vs : List (Literal F)) (r before : Str) (d l fuel : ℕ)
      → All IsText vs
      → length vs < fuel
      → more_values host fuel (at before (tail vs ++ 41 ∷ r) d l)
        ≡ ok vs (at (behind (tail vs) before) (41 ∷ r) d l)
  unfolding tail ◌>>=◌
  more_values-tail vs r before d l zero h k = absurd (omega arith)
  more_values-tail [] r before d l (suc fuel) h k = more_values-end fuel r before d l
  more_values-tail (v ∷ vs) r before d l (suc fuel) (h, hs) k =
      let shown = 32 ∷ print_literal floats v in
      let rest = tail vs ++ 41 ∷ r in
      more_values-comma fuel ((shown ++ tail vs) ++ 41 ∷ r) before d l
      ∙ ap
          (λ t.
            and_then (parse_value host (at (44 ∷ before) t d l))
              (λ value. more_values host fuel >>= λ values. pure (value ∷ values)))
          (append_assoc shown (tail vs) (41 ∷ r))
      ∙ ap (λ m. and_then m (λ value. more_values host fuel >>= λ values. pure (value ∷ values)))
          (parse_value-print_blank host floats v h rest (44 ∷ before) d l)
      ∙ ap (λ m. and_then m (λ values. pure (v ∷ values)))
          (more_values-tail vs r (behind shown (44 ∷ before)) d l fuel hs (omega arith))
      ∙ ap (λ b. ok (v ∷ vs) (at b (41 ∷ r) d l))
          (sym (behind-append shown (tail vs) (44 ∷ before)))

  length-tail : (vs : List (Literal F)) → length vs ≤ length (tail vs)
  unfolding tail
  length-tail [] = omega arith
  length-tail (v ∷ vs) =
      omega (arith, length-tail vs, length-append (print_literal floats v) (tail vs))

  -- The list of values, printed in its order, is read back.
  parse_value_list-print :
      (vs : List (Literal F)) (r before : Str) (d l : ℕ)
      → 1 ≤ length vs
      → All IsText vs
      → parse_value_list host (at before (join (codes ", ") (print_all floats vs) ++ 41 ∷ r) d l)
        ≡ ok vs (at (behind (join (codes ", ") (print_all floats vs)) before) (41 ∷ r) d l)
  parse_value_list-print [] r before d l some_value texts = absurd (omega arith)
  parse_value_list-print (v ∷ vs) r before d l some_value (h, hs) =
      let shown = print_literal floats v in
      let rest = tail vs ++ 41 ∷ r in
      let text : join (codes ", ") (print_all floats (v ∷ vs)) ≡ shown ++ tail vs =
        join-print_all v vs in
      let spaced : (shown ++ tail vs) ++ 41 ∷ r ≡ shown ++ rest =
        append_assoc shown (tail vs) (41 ∷ r) in
      ap (λ t. parse_value_list host (at before (t ++ 41 ∷ r) d l)) text
      ∙ ap (λ t. parse_value_list host (at before t d l)) spaced
      ∙ listed (at before (shown ++ rest) d l) (at (behind shown before) rest d l)
          (at (behind (tail vs) (behind shown before)) (41 ∷ r) d l)
          (parse_value-print host floats v h rest before d l)
          (more_values-tail vs r (behind shown before) d l (suc (length rest)) hs
            (omega (arith, length-tail vs, length-append (tail vs) (41 ∷ r))))
      ∙ ap (λ b. ok (v ∷ vs) (at b (41 ∷ r) d l)) (sym (behind-append shown (tail vs) before))
      ∙ ap (λ t. ok (v ∷ vs) (at (behind t before) (41 ∷ r) d l)) (sym text)
    where
      listed :
          (s t u : State)
          → parse_value host s ≡ ok v t
          → more_values host (suc (length t.rest)) t ≡ ok vs u
          → parse_value_list host s ≡ ok (v ∷ vs) u
      listed s t u first more = unfold parse_value_list ◌>>=◌ in rw (first, more)

  insert-texts :
      (v : Literal F) (vs : List (Literal F))
      → IsText v
      → All IsText vs
      → All IsText (insert_by (print_literal floats) v vs)
        × (length (insert_by (print_literal floats) v vs) ≡ suc (length vs))
  unfolding insert_by
  insert-texts v [] h hs = ((h, tt), refl)
  insert-texts v (w ∷ vs) h (k, hs) =
      let (texts, size) = insert-texts v vs h hs in
      elim (Bool-cases (str_le (print_literal floats v) (print_literal floats w))) [
        | inl before ↦ rw (insert_by, before) ((h, (k, hs)), refl)
        | inr after ↦ rw (insert_by, after) ((k, texts), ap suc size)
      ]

  sort_literals-texts :
      (vs : List (Literal F))
      → All IsText vs
      → All IsText (sort_literals floats vs) × (length (sort_literals floats vs) ≡ length vs)
  unfolding sort_literals sorted_by
  sort_literals-texts [] h = (tt, refl)
  sort_literals-texts (v ∷ vs) (h, hs) =
      let (texts, size) = sort_literals-texts vs hs in
      let (all_texts, more) = insert-texts v (sort_literals floats vs) h texts in
      (all_texts, more ∙ ap suc size)

  -- Of one to 256 strings of at most 1024 code points each, whatever characters they hold, the text that
  -- the printer gives behind `in` is parsed, where there is room for one more comparison, as the set of
  -- these strings in the order in which the printer sorts them; the parser then stands behind the text.
  pub parse_in-print_values :
      (field : Str) (vs : List (Literal F)) (r before : Str) (d l : ℕ)
      → All IsText vs
      → 1 ≤ length vs
      → length vs ≤ max_in_set_size
      → l + 1 ≤ max_leaf_count
      → parse_in host field
          (at before (codes " (" ++ (print_values floats vs ++ (codes ")" ++ r))) d l)
        ≡ ok
            (in_set field (sort_literals floats vs))
            (at (behind (codes " (" ++ (print_values floats vs ++ codes ")")) before) r d (l + 1))
  unfolding print_values
  parse_in-print_values field vs r before d l texts some_value few room =
      let sorted_values = sort_literals floats vs in
      let (sorted_texts, size) = sort_literals-texts vs texts in
      let text = join (codes ", ") (print_all floats sorted_values) in
      let read =
        parse_value_list-print sorted_values r (40 ∷ 32 ∷ before) d l (omega (arith, size))
          sorted_texts in
      let low : ltb (length sorted_values) 1 ≡ false = ground (arith, size) in
      let high : ltb max_in_set_size (length sorted_values) ≡ false = ground (arith, size) in
      let leaf : ltb max_leaf_count (l + 1) ≡ false = ground arith in
      finished (text ++ 41 ∷ r) sorted_values (behind text (40 ∷ 32 ∷ before)) read low high leaf
      ∙ ap (λ b. ok (in_set field sorted_values) (at b r d (l + 1)))
          (sym (behind-append text (41 ∷ []) (40 ∷ 32 ∷ before)))
    where
      finished :
          (s : Str) (ws : List (Literal F)) (b : Str)
          → parse_value_list host (at (40 ∷ 32 ∷ before) s d l) ≡ ok ws (at b (41 ∷ r) d l)
          → ltb (length ws) 1 ≡ false
          → ltb max_in_set_size (length ws) ≡ false
          → ltb max_leaf_count (l + 1) ≡ false
          → parse_in host field (at before (32 ∷ 40 ∷ s) d l)
            ≡ ok (in_set field ws) (at (41 ∷ b) r d (l + 1))
      finished s ws b read low high leaf =
          unfold parse_in expect_char skip_whitespace advance_while skip_while count_leaf ◌>>=◌ in
          rw (read, low, high, leaf)
