-- ===== src/Sessions/Adding.antt =====
-- What `get_memory` returns after `add_to_memory`.
use verisearch.Prelude.{
  ℕ, suc, ◌-◌, ◌≤◌, true, false, List, [], ◌∷◌, ◌++◌, leb, leb→le, if_property, Str, str_eq,
  str_eq_iff, length, length-append, drop, drop-nil, last, All, ◌≡◌, refl, sym, ap, subst, ◌∙◌,
  arith, Bool-cases, some, inl, inr,
}
use verisearch.Prelude.Deque.{append_bounded, append_bounded-eq-last, last-whole}
use verisearch.Prelude.Dict.{lookup, insert, lookup-insert}
use verisearch.Sessions.Memory.{Citation, Memory, remove_first, add_doc_id}
use verisearch.Sessions.Store.{
  Session, Service, ok, session_not_found, get_session, get_memory, add_to_memory, add_citations,
  add_doc_ids,
}
use verisearch.Sessions.Access.{get_session-cases, get_session_iff}
use verisearch.Sessions.Recency.{
  add_citations-citations, add_citations-doc_ids, add_doc_ids-citations,
}
use verisearch.Sessions.Unique.{
  Distinct, Distinct-snoc, Distinct-remove_first, remove_first-removed, length-remove_first,
}
use verisearch.Sessions.Invariant.{IsBounded}

-- The texts in the order of their last use, with no bound: a text that is used again moves to the end.
unfoldable pub by_last_use : List Str → List Str → List Str
unfolding remove_first
by_last_use xs [] = xs
by_last_use xs (d ∷ ds) = by_last_use (remove_first d xs ++ d ∷ []) ds

last-over : (n : ℕ) (x : Str) (xs : List Str) → n ≤ length xs → last n (x ∷ xs) ≡ last n xs
last-over n x xs h =
    ap (λ (k : ℕ). drop k (x ∷ xs))
      (let e : length (x ∷ xs) - n ≡ suc (length xs - n) = omega arith in e)

length-remove_first-below : (d : Str) (xs : List Str) → length xs ≤ suc (length (remove_first d xs))
unfolding remove_first
length-remove_first-below d [] = omega arith
length-remove_first-below d (x ∷ xs) =
    if_property (λ ys. suc (length xs) ≤ suc (length ys)) (str_eq x d) xs (x ∷ remove_first d xs)
      (λ _. omega arith) (λ _. omega (arith, length-remove_first-below d xs))

-- What is not in a list is not removed from it.
remove_first-absent : (d : Str) (xs : List Str) → All (λ y. ¬ (y ≡ d)) xs → remove_first d xs ≡ xs
unfolding remove_first
remove_first-absent d [] h = refl
remove_first-absent d (x ∷ xs) h = elim (Bool-cases (str_eq x d)) [
  | inl here ↦ absurd (h.0 ((str_eq_iff x d).0 here))
  | inr later ↦ rw (later, remove_first-absent d xs h.1)
]

-- One addition to the bounded ids is one to all the ids, cut to the bound.
append_bounded-last :
    (n : ℕ) (d : Str) (xs : List Str)
    → Distinct xs
    → append_bounded n (remove_first d (last n xs)) d ≡ last n (remove_first d xs ++ d ∷ [])
unfolding remove_first
append_bounded-last n d [] h =
    ap (λ ys. append_bounded n (remove_first d ys) d) (drop-nil (0 - n))
    ∙ append_bounded-eq-last n [] d (omega arith)
append_bounded-last n d (x ∷ xs) h = elim (Bool-cases (leb n (length xs))) [
  | inr short ↦
      ap (λ ys. append_bounded n (remove_first d ys) d) (last-whole n (x ∷ xs) (within short))
      ∙ append_bounded-eq-last n (remove_first d (x ∷ xs)) d (kept short)
  | inl long ↦
      ap (λ ys. append_bounded n (remove_first d ys) d)
        (last-over n x xs (leb→le n (length xs) long))
      ∙ append_bounded-last n d xs h.1
      ∙ sym (elim (Bool-cases (str_eq x d)) [
        | inl here ↦
            let e : x ≡ d = (str_eq_iff x d).0 here in
            let gone : remove_first d xs ≡ xs =
              remove_first-absent d xs (subst (λ z. All (λ y. ¬ (y ≡ z)) xs) e h.0) in
            rw (here, gone)
        | inr later ↦ rw later (last-over n x (remove_first d xs ++ d ∷ []) (enough long))
      ])
]
  where
    within : leb n (length xs) ≡ false → suc (length xs) ≤ n
    within t = ground arith

    kept : leb n (length xs) ≡ false → length (remove_first d (x ∷ xs)) ≤ n
    kept t = ground (arith, length-remove_first d (x ∷ xs))

    enough : leb n (length xs) ≡ true → n ≤ length (remove_first d xs ++ d ∷ [])
    enough t =
        let u : n ≤ length xs = leb→le n (length xs) t in
        omega (arith, length-append (remove_first d xs) (d ∷ []), length-remove_first-below d xs)

add_doc_ids-last :
    (ds : List Str) (xs : List Str) (m : Memory)
    → Distinct xs
    → m.doc_ids ≡ last 20 xs
    → (add_doc_ids ds m).doc_ids ≡ last 20 (by_last_use xs ds)
unfolding add_doc_ids add_doc_id by_last_use
add_doc_ids-last [] xs m h e = e
add_doc_ids-last (d ∷ ds) xs m h e =
    add_doc_ids-last ds (remove_first d xs ++ d ∷ []) (add_doc_id d m)
      (Distinct-snoc (remove_first d xs) d (remove_first-removed d xs h)
        (Distinct-remove_first d xs h))
      (ap (λ ys. append_bounded 20 (remove_first d ys) d) e ∙ append_bounded-last 20 d xs h)

memory_ext : (m n : Memory) → m.citations ≡ n.citations → m.doc_ids ≡ n.doc_ids → m ≡ n
memory_ext m n e f i = record { citations = e i; doc_ids = f i }

-- Where a tenant can read a memory within its bounds and then adds to it, it reads back the last 50
-- of the old citations followed by the new ones, and the 20 document ids used last.
pub get_memory-add_to_memory :
    (id tenant : Str) (cs : List Citation) (ds : List Str) (now : ℕ) (svc : Service) (m : Memory)
    → get_memory id tenant now svc ≡ ok m
    → IsBounded m
    → get_memory id tenant now (add_to_memory id tenant cs ds now svc).1
      ≡ ok (record {
        citations = last 50 (m.citations ++ cs);
        doc_ids = last 20 (by_last_use m.doc_ids ds);
      })
unfolding get_memory add_to_memory
get_memory-add_to_memory id tenant cs ds now svc m e bounds =
    elim (get_session-cases id tenant now svc) [
      | inl refused ↦ let q : session_not_found ≡ ok m = rw (get_memory, refused) at e in cc
      | inr (s, taken, (there, admitted)) ↦
          let q : ok s.memory ≡ ok m = rw (get_memory, taken) at e in
          let same : s.memory ≡ m = cc in
          let after : Memory = add_doc_ids ds (add_citations cs s.memory) in
          let t : Session = record s { memory = after } in
          let found : lookup id (insert id t svc.sessions) ≡ some t =
            rw (lookup-insert id id t svc.sessions, (str_eq_iff id id).1 refl) in
          let again : get_session id tenant now (add_to_memory id tenant cs ds now svc).1 ≡ ok t =
            (get_session_iff id tenant now (add_to_memory id tenant cs ds now svc).1 t).1 (
              rw (add_to_memory, taken) found,
              record { owned = admitted.owned; live = admitted.live; in_time = admitted.in_time },
            ) in
          rw (get_memory, again) (ap ok (contents s.memory same))
    ]
  where
    contents :
        (n : Memory)
        → n ≡ m
        → add_doc_ids ds (add_citations cs n) ≡ record {
          citations = last 50 (m.citations ++ cs);
          doc_ids = last 20 (by_last_use m.doc_ids ds);
        }
    contents n same =
        ap (λ k. add_doc_ids ds (add_citations cs k)) same
        ∙ memory_ext (add_doc_ids ds (add_citations cs m)) _
            (add_doc_ids-citations ds (add_citations cs m)
              ∙ add_citations-citations cs m bounds.few_citations)
            (add_doc_ids-last ds m.doc_ids (add_citations cs m) bounds.unique
              (add_citations-doc_ids cs m ∙ sym (last-whole 20 m.doc_ids bounds.few_doc_ids)))
