-- ===== src/Prelude/Deque.antt =====
-- collections.deque with `maxlen`, as a list with the most recent item last.
use Prim.Native.Nat.{ℕ, min, suc, ◌+◌, ◌-◌, ◌≤◌}
use mathlib.Core.Path.{◌≡◌, refl, sym, ap, ◌∙◌}
use mathlib.Core.Logic.{inl, inr}
use mathlib.Core.Bool.{true, false}
use mathlib.Core.List.{List, [], ◌∷◌, ◌++◌}
use native.Mathlib.Omega.{arith}
use verisearch.Prelude.Tests.{ltb, if◌then◌else◌, Bool-cases}
use verisearch.Prelude.Lists.{
  length, length-append, length-drop, drop, drop-drop, drop-append, last,
}

module _ {A : Type 0} where
  abbrev pub drop_first : List A → List A
  drop_first [] = []
  drop_first (x ∷ xs) = xs

  -- `deque.append` on a deque with `maxlen`: the oldest item makes room.
  unfoldable pub append_bounded : ℕ → List A → A → List A
  append_bounded maxlen xs x =
      if ltb maxlen (length (xs ++ x ∷ [])) then drop_first (xs ++ x ∷ []) else xs ++ x ∷ []

  drop_first-eq-drop : (xs : List A) → drop_first xs ≡ drop 1 xs
  drop_first-eq-drop [] = refl
  drop_first-eq-drop (x ∷ xs) = refl

  pub append_bounded-eq-last :
      (n : ℕ) (xs : List A) (x : A) → length xs ≤ n → append_bounded n xs x ≡ last n (xs ++ x ∷ [])
  unfolding append_bounded
  append_bounded-eq-last n xs x h = elim (Bool-cases (ltb n (length (xs ++ x ∷ [])))) [
    | inl full ↦ rw full (
        drop_first-eq-drop (xs ++ x ∷ [])
        ∙ ap (λ (k : ℕ). drop k (xs ++ x ∷ []))
            (one (length (xs ++ x ∷ [])) (length-append xs (x ∷ [])) full))
    | inr room ↦
        rw room (ap (λ (k : ℕ). drop k (xs ++ x ∷ [])) (none_over (length (xs ++ x ∷ [])) room))
  ]
    where
      one : (m : ℕ) → m ≡ length xs + 1 → ltb n m ≡ true → 1 ≡ m - n
      one m e t = ground arith

      none_over : (m : ℕ) → ltb n m ≡ false → 0 ≡ m - n
      none_over m t = ground arith

  pub length-last : (n : ℕ) (xs : List A) → length (last n xs) ≤ n
  length-last n xs = omega (arith, length-drop (length xs - n) xs)

  pub last-append : (n : ℕ) (xs ys : List A) → last n (last n xs ++ ys) ≡ last n (xs ++ ys)
  last-append n xs ys =
      let k : ℕ = length xs - n in
      let whole : drop k xs ++ ys ≡ drop k (xs ++ ys) = sym (drop-append k xs ys (omega arith)) in
      let m : ℕ = length (drop k xs ++ ys) - n in
      ap (drop m) whole
      ∙ drop-drop m k (xs ++ ys)
      ∙ ap (λ (j : ℕ). drop j (xs ++ ys))
          (omega (arith, length-append (drop k xs) ys, length-drop k xs, length-append xs ys))

-- A list within the bound is its own last items.
pub last-whole : {A : Type 0} (n : ℕ) (xs : List A) → length xs ≤ n → last n xs ≡ xs
last-whole n xs h = ap (λ (k : ℕ). drop k xs) (let e : length xs - n ≡ 0 = omega arith in e)

pub length-append_bounded :
    {A : Type 0} (n : ℕ) (xs : List A) (x : A)
    → length xs ≤ n
    → length (append_bounded n xs x) ≡ min n (suc (length xs))
length-append_bounded n xs x h =
    ap length (append_bounded-eq-last n xs x h)
    ∙ length-drop (length (xs ++ x ∷ []) - n) (xs ++ x ∷ [])
    ∙ omega (arith, length-append xs (x ∷ []))
