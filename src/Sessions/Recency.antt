-- ===== src/Sessions/Recency.antt =====
-- A bounded deque holds the most recent items, and the document ids of a session are distinct.
use verisearch.Prelude.{
  ◌≤◌, List, [], ◌∷◌, ◌++◌, append_assoc, append-nil, Str, length, last, ◌≡◌, refl, sym, ap, subst,
  ◌∙◌,
}
use verisearch.Prelude.Deque.{append_bounded-eq-last, length-last, last-append, last-whole}
use verisearch.Sessions.Memory.{Citation, Memory, add_citation, add_doc_id}
use verisearch.Sessions.Store.{add_citations, add_doc_ids}

pub add_citations-citations :
    (cs : List Citation) (m : Memory)
    → length m.citations ≤ 50
    → (add_citations cs m).citations ≡ last 50 (m.citations ++ cs)
unfolding add_citations add_citation
add_citations-citations [] m h =
    sym (ap (last 50) (append-nil m.citations) ∙ last-whole 50 m.citations h)
add_citations-citations (c ∷ cs) m h =
    let one : (add_citation c m).citations ≡ last 50 (m.citations ++ c ∷ []) =
      append_bounded-eq-last 50 m.citations c h in
    let short : length (add_citation c m).citations ≤ 50 =
      subst (λ ys. length ys ≤ 50) (sym one) (length-last 50 (m.citations ++ c ∷ [])) in
    add_citations-citations cs (add_citation c m) short
    ∙ ap (λ ys. last 50 (ys ++ cs)) one
    ∙ last-append 50 (m.citations ++ c ∷ []) cs
    ∙ ap (last 50) (append_assoc m.citations (c ∷ []) cs)

pub add_citations-doc_ids :
    (cs : List Citation) (m : Memory) → (add_citations cs m).doc_ids ≡ m.doc_ids
unfolding add_citations add_citation
add_citations-doc_ids [] m = refl
add_citations-doc_ids (c ∷ cs) m = add_citations-doc_ids cs (add_citation c m)

pub add_doc_ids-citations :
    (ds : List Str) (m : Memory) → (add_doc_ids ds m).citations ≡ m.citations
unfolding add_doc_ids add_doc_id
add_doc_ids-citations [] m = refl
add_doc_ids-citations (d ∷ ds) m = add_doc_ids-citations ds (add_doc_id d m)
