-- ===== src/Sessions/Unique.antt =====
-- The document ids that a session remembers are distinct, and the one added last comes last.
use verisearch.Prelude.{
  ℕ, suc, ◌≤◌, false, List, [], ◌∷◌, ◌++◌, ltb, if_property, Str, str_eq, str_eq_iff, length,
  length-append, All, All-append, ◌≡◌, sym, subst, arith,
}
use verisearch.Prelude.Deque.{append_bounded, drop_first}
use verisearch.Sessions.Memory.{Memory, remove_first, add_doc_id}

-- No text stands twice in the list.
abbrev pub Distinct : List Str → Type 0
Distinct [] = Unit
Distinct (x ∷ xs) = All (λ y. ¬ (y ≡ x)) xs × Distinct xs

All-remove_first :
    (P : Str → Type 0) (d : Str) (xs : List Str) → All P xs → All P (remove_first d xs)
unfolding remove_first
All-remove_first P d [] h = tt
All-remove_first P d (x ∷ xs) h =
    if_property (All P) (str_eq x d) xs (x ∷ remove_first d xs) (λ _. h.1)
      (λ _. (h.0, All-remove_first P d xs h.1))

pub Distinct-remove_first : (d : Str) (xs : List Str) → Distinct xs → Distinct (remove_first d xs)
unfolding remove_first
Distinct-remove_first d [] h = tt
Distinct-remove_first d (x ∷ xs) h =
    if_property Distinct (str_eq x d) xs (x ∷ remove_first d xs) (λ _. h.1)
      (λ _. (All-remove_first (λ y. ¬ (y ≡ x)) d xs h.0, Distinct-remove_first d xs h.1))

-- What is removed from a list without repetitions is gone from it.
pub remove_first-removed :
    (d : Str) (xs : List Str) → Distinct xs → All (λ y. ¬ (y ≡ d)) (remove_first d xs)
unfolding remove_first
remove_first-removed d [] h = tt
remove_first-removed d (x ∷ xs) h =
    if_property (All (λ y. ¬ (y ≡ d))) (str_eq x d) xs (x ∷ remove_first d xs)
      (λ e. subst (λ z. All (λ y. ¬ (y ≡ z)) xs) ((str_eq_iff x d).0 e) h.0)
      (λ e. (other e, remove_first-removed d xs h.1))
  where
    other : str_eq x d ≡ false → ¬ (x ≡ d)
    other e q = ground (arith, str_eq_iff x d)

pub length-remove_first : (d : Str) (xs : List Str) → length (remove_first d xs) ≤ length xs
unfolding remove_first
length-remove_first d [] = omega arith
length-remove_first d (x ∷ xs) =
    if_property (λ ys. length ys ≤ suc (length xs)) (str_eq x d) xs (x ∷ remove_first d xs)
      (λ _. omega arith) (λ _. omega (arith, length-remove_first d xs))

pub Distinct-snoc :
    (xs : List Str) (d : Str) → All (λ y. ¬ (y ≡ d)) xs → Distinct xs → Distinct (xs ++ d ∷ [])
Distinct-snoc [] d new h = (tt, tt)
Distinct-snoc (x ∷ xs) d new h = (
  All-append (λ y. ¬ (y ≡ x)) xs (d ∷ []) h.0 ((λ q. new.0 (sym q)), tt),
  Distinct-snoc xs d new.1 h.1,
)

Distinct-drop_first : (xs : List Str) → Distinct xs → Distinct (drop_first xs)
Distinct-drop_first [] h = tt
Distinct-drop_first (x ∷ xs) h = h.1

length-append_bounded :
    (n : ℕ) (xs : List Str) (x : Str) → length xs ≤ n → length (append_bounded n xs x) ≤ n
unfolding append_bounded
length-append_bounded n xs x h =
    if_property (λ ys. length ys ≤ n) (ltb n (length (xs ++ x ∷ []))) (drop_first (xs ++ x ∷ []))
      (xs ++ x ∷ []) (λ _. shorter xs h) (λ e. ground arith)
  where
    shorter : (ys : List Str) → length ys ≤ n → length (drop_first (ys ++ x ∷ [])) ≤ n
    shorter [] k = omega arith
    shorter (y ∷ ys) k = omega (arith, length-append ys (x ∷ []))

Distinct-append_bounded :
    (n : ℕ) (xs : List Str) (x : Str)
    → All (λ y. ¬ (y ≡ x)) xs
    → Distinct xs
    → Distinct (append_bounded n xs x)
unfolding append_bounded
Distinct-append_bounded n xs x new h =
    if_property Distinct (ltb n (length (xs ++ x ∷ []))) (drop_first (xs ++ x ∷ [])) (xs ++ x ∷ [])
      (λ _. Distinct-drop_first (xs ++ x ∷ []) (Distinct-snoc xs x new h))
      (λ _. Distinct-snoc xs x new h)

pub add_doc_id-Distinct :
    (d : Str) (m : Memory) → Distinct m.doc_ids → Distinct ((add_doc_id d m).doc_ids)
unfolding add_doc_id
add_doc_id-Distinct d m h =
    Distinct-append_bounded 20 (remove_first d m.doc_ids) d (remove_first-removed d m.doc_ids h)
      (Distinct-remove_first d m.doc_ids h)

pub length-add_doc_id :
    (d : Str) (m : Memory) → length m.doc_ids ≤ 20 → length (add_doc_id d m).doc_ids ≤ 20
unfolding add_doc_id
length-add_doc_id d m h =
    length-append_bounded 20 (remove_first d m.doc_ids) d
      (omega (arith, length-remove_first d m.doc_ids))
