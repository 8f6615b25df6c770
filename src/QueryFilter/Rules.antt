-- ===== src/QueryFilter/Rules.antt =====
-- Postconditions of the methods of `_Parser`. A method that meets one neither runs out of fuel nor
-- moves back, and what it returns has the stated property.
use verisearch.Prelude.{
  ℕ, ◌≤◌, ◌<◌, ◌≡◌, refl, Bool, true, false, Option, none, some, [], ◌∷◌, if◌then◌else◌, Str,
  length, length-drop, arith, Option-cases, inl, inr,
}
use verisearch.QueryFilter.State.{
  State, Parser, Result, ok, fail, recursion_error, diverge, Message, error, advance, skip, pure,
  ◌>>=◌, and_then,
}
use verisearch.QueryFilter.Lexer.{
  get, modify, peek, first, skip_while, advance_while, is_blank, skip_whitespace,
}

-- The method ends; if it returns, the value and the state that it leaves are related by `P`.
abbrev pub Ensures : {A : Type 0} → (A → State → Type 0) → Result A → Type 0
Ensures P (ok a s) = P a s
Ensures P (fail e) = Unit
Ensures P recursion_error = ⊥
Ensures P diverge = ⊥

pub Ensures-bind :
    {A B : Type 0} (P : A → State → Type 0) (Q : B → State → Type 0) (r : Result A)
    (f : A → Parser B)
    → Ensures P r
    → ((a : A) (s : State) → P a s → Ensures Q (f a s))
    → Ensures Q (and_then r f)
Ensures-bind P Q (ok a s) f h k = k a s h
Ensures-bind P Q (fail e) f h k = tt
Ensures-bind P Q recursion_error f h k = absurd h
Ensures-bind P Q diverge f h k = absurd h

pub Ensures-map :
    {A : Type 0} (P : A → State → Type 0) (Q : A → State → Type 0) (r : Result A)
    → Ensures P r
    → ((a : A) (s : State) → P a s → Q a s)
    → Ensures Q r
Ensures-map P Q (ok a s) h k = k a s h
Ensures-map P Q (fail e) h k = tt
Ensures-map P Q recursion_error h k = absurd h
Ensures-map P Q diverge h k = absurd h

-- `pos` has not moved back, and the counters are as they were.
pub record Steps (s t : State) : Type 0 where
  pub onwards : length t.rest ≤ length s.rest
  pub same_depth : t.depth ≡ s.depth
  pub same_leaves : t.leaf_count ≡ s.leaf_count

pub Steps-refl : (s : State) → Steps s s
Steps-refl s = omega arith

pub Steps-trans : {s t u : State} → Steps s t → Steps t u → Steps s u
Steps-trans p q = omega arith

-- The rest of a method, run from `s`, ends; it moves on, and returns a value with the property `Q`.
abbrev pub From : {A : Type 0} → State → (A → Type 0) → Result A → Type 0
From s Q r = Ensures (λ a t. Steps s t × Q a) r

pub record Gives {A : Type 0} (Q : A → Type 0) (m : Parser A) : Type 0 where
  pub at : (s : State) → From s Q (m s)

abbrev pub Any : {A : Type 0} → A → Type 0
Any a = Unit

module _ {A : Type 0} (Q : A → Type 0) where
  pub Gives-pure : (a : A) → Q a → Gives Q (pure a)
  Gives-pure a q = record { at = λ s. (Steps-refl s, q) }

  pub Gives-error : (message : Message) → Gives Q (error message)
  unfolding error
  Gives-error message = record { at = λ s. tt }

  pub Gives-if :
      (b : Bool) (m n : Parser A)
      → (b ≡ true → Gives Q m)
      → (b ≡ false → Gives Q n)
      → Gives Q (if b then m else n)
  Gives-if true m n p q = p refl
  Gives-if false m n p q = q refl

  pub Gives-option :
      {B : Type 0} (o : Option B) (m : Parser A) (f : B → Parser A)
      → Gives Q m
      → ((b : B) → Gives Q (f b))
      → Gives Q (elim o [ none ↦ m | some b ↦ f b ])
  Gives-option none m f h k = h
  Gives-option (some b) m f h k = k b

pub Gives-modify : (f : State → State) → ((s : State) → Steps s (f s)) → Gives Any (modify f)
Gives-modify f h = record { at = λ s. (h s, tt) }

pub Gives-peek : Gives Any peek
Gives-peek = record { at = λ s. (Steps-refl s, tt) }

pub From-weaken :
    {A : Type 0} (Q : A → Type 0) (s t : State) (r : Result A) → Steps s t → From t Q r → From s Q r
From-weaken Q s t (ok a u) p h = (Steps-trans p h.0, h.1)
From-weaken Q s t (fail e) p h = tt
From-weaken Q s t recursion_error p h = absurd h
From-weaken Q s t diverge p h = absurd h

-- One call in a block: the rest of the block is run from the state that it leaves.
pub From-bind :
    {A B : Type 0} (Q : A → Type 0) (R : B → Type 0) (s : State) (m : Parser A) (f : A → Parser B)
    → From s Q (m s)
    → ((a : A) (t : State) → Steps s t → Q a → From t R (f a t))
    → From s R ((m >>= f) s)
unfolding ◌>>=◌
From-bind Q R s m f h k =
    Ensures-bind _ _ (m s) f h (λ a t p. From-weaken R s t (f a t) p.0 (k a t p.0 p.1))

pub Gives-bind :
    {A B : Type 0} (Q : A → Type 0) (R : B → Type 0) (m : Parser A) (f : A → Parser B)
    → Gives Q m
    → ((a : A) → Q a → Gives R (f a))
    → Gives R (m >>= f)
Gives-bind Q R m f h k = record { at = λ s. From-bind Q R s m f (h.at s) (λ a t p q. (k a q).at t) }

length-skip_while :
    (p : ℕ → Bool) (before rest : Str) → length (skip_while p before rest).1 ≤ length rest
unfolding skip_while
length-skip_while p before [] = omega arith
length-skip_while p before (c ∷ rest) = ground (arith, length-skip_while p (c ∷ before) rest)

pub advance_while-Steps : (p : ℕ → Bool) (s : State) → Steps s (advance_while p s)
unfolding advance_while
advance_while-Steps p s = omega (arith, length-skip_while p s.before s.rest)

pub skip_whitespace-Steps : (s : State) → Steps s (skip_whitespace s)
unfolding skip_whitespace
skip_whitespace-Steps s = omega (arith, length-skip_while is_blank s.before s.rest)

pub advance-Steps : (s : State) → Steps s (advance s)
advance-Steps s = ground arith

pub skip-Steps : (n : ℕ) (s : State) → Steps s (skip n s)
skip-Steps n s = omega (arith, length-drop n s.rest)

-- A character that is there is passed.
pub advance_shorter :
    (s : State) (c : ℕ) → first s.rest ≡ some c → length (advance s).rest < length s.rest
advance_shorter s c h = ground arith

module _ {A : Type 0} (Q : A → Type 0) (s : State) where
  -- Blocks that begin with `peek`, `get` or a change of the state.
  pub peek-From :
      (f : Option ℕ → Parser A)
      → (first s.rest ≡ none → From s Q (f none s))
      → ((c : ℕ) → first s.rest ≡ some c → From s Q (f (some c) s))
      → From s Q ((peek >>= f) s)
  unfolding ◌>>=◌
  peek-From f p q = elim (Option-cases (first s.rest)) [
    | inl e ↦ rw e (p e)
    | inr (c, e) ↦ rw e (q c e)
  ]

  pub get-From : (f : State → Parser A) → From s Q (f s s) → From s Q ((get >>= f) s)
  unfolding ◌>>=◌
  get-From f h = h

  pub modify-From :
      (g : State → State) (f : Unit {0} → Parser A)
      → Steps s (g s)
      → From (g s) Q (f tt (g s))
      → From s Q ((modify g >>= f) s)
  unfolding ◌>>=◌
  modify-From g f p h = From-weaken Q s (g s) (f tt (g s)) p h

  pub error-From : (message : Message) → From s Q (error message s)
  unfolding error
  error-From message = tt

  pub elim-From :
      (b : Bool) (m n : Parser A)
      → (b ≡ true → From s Q (m s))
      → (b ≡ false → From s Q (n s))
      → From s Q ((elim b as (λ _. Parser A) [ true ↦ m | false ↦ n ]) s)
  elim-From true m n p q = p refl
  elim-From false m n p q = q refl

  pub if-From :
      (b : Bool) (m n : Parser A)
      → (b ≡ true → From s Q (m s))
      → (b ≡ false → From s Q (n s))
      → From s Q ((if b then m else n) s)
  if-From true m n p q = p refl
  if-From false m n p q = q refl

pub Gives-get :
    {A : Type 0} (Q : A → Type 0) (f : State → Parser A)
    → ((s : State) → From s Q (f s s))
    → Gives Q (get >>= f)
Gives-get Q f h = record { at = λ s. get-From Q s f (h s) }

module _ {A : Type 0} (P : A → State → Type 0) (s : State) where
  pub error-Ensures : (message : Message) → Ensures P (error message s)
  unfolding error
  error-Ensures message = tt

  pub if-Ensures :
      (b : Bool) (m n : Parser A)
      → (b ≡ true → Ensures P (m s))
      → (b ≡ false → Ensures P (n s))
      → Ensures P ((if b then m else n) s)
  if-Ensures true m n p q = p refl
  if-Ensures false m n p q = q refl

  pub peek-Ensures :
      (m : Parser A) (f : ℕ → Parser A)
      → (first s.rest ≡ none → Ensures P (m s))
      → ((c : ℕ) → first s.rest ≡ some c → Ensures P (f c s))
      → Ensures P ((peek >>= λ c. elim c [ none ↦ m | some ch ↦ f ch ]) s)
  unfolding ◌>>=◌
  peek-Ensures m f p q = elim (Option-cases (first s.rest)) [
    | inl e ↦ rw e (p e)
    | inr (c, e) ↦ rw e (q c e)
  ]

  pub get-Ensures : (f : State → Parser A) → Ensures P (f s s) → Ensures P ((get >>= f) s)
  unfolding ◌>>=◌
  get-Ensures f h = h

  pub modify-Ensures :
      (g : State → State) (f : Unit {0} → Parser A)
      → Ensures P (f tt (g s))
      → Ensures P ((modify g >>= f) s)
  unfolding ◌>>=◌
  modify-Ensures g f h = h

  pub bind-Ensures :
      {B : Type 0} (Q : B → State → Type 0) (m : Parser B) (f : B → Parser A)
      → Ensures Q (m s)
      → ((b : B) (t : State) → Q b t → Ensures P (f b t))
      → Ensures P ((m >>= f) s)
  unfolding ◌>>=◌
  bind-Ensures Q m f h k = Ensures-bind Q P (m s) f h k
