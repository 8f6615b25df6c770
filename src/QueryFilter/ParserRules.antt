-- ===== src/QueryFilter/ParserRules.antt =====
-- The methods of QueryFilter/Parser end, and the trees that they return are in bounds.
use verisearch.Prelude.{
  ℕ, ◌+◌, ◌≤◌, ◌<◌, ◌≡◌, refl, Bool, true, false, ltb, ltb→le, Str, length, arith, Bool-cases, inl,
  inr,
}
use verisearch.QueryFilter.Ast.{FilterNode, Nodes, leaves, leaves_all}
use verisearch.QueryFilter.Host.{Host}
use verisearch.QueryFilter.State.{State, Parser, Result, pure, ◌>>=◌}
use verisearch.QueryFilter.Lexer.{modify, restore, match_keyword}
use verisearch.QueryFilter.Parser.{count_leaf}
use verisearch.QueryFilter.Rules.{Ensures, Ensures-bind, Ensures-map, Steps, Steps-trans, From}
use verisearch.QueryFilter.LexerRules.{match_keyword-Shorter, Shorter}
use verisearch.QueryFilter.Trees.{height, height_all, IsWellFormed, AreWellFormed}

module _ {F : Type 0} where
  -- A method has read the tree `n`: every leaf of it is counted, and it is at most `k` high.
  pub record Parsed (k : ℕ) (s : State) (n : FilterNode F) (t : State) : Type 0 where
    pub onwards : length t.rest ≤ length s.rest
    pub same_depth : t.depth ≡ s.depth
    pub counted : t.leaf_count ≡ s.leaf_count + leaves n
    pub bounded : t.leaf_count ≤ 1024
    pub low : height n ≤ k
    pub well_formed : IsWellFormed n

  -- The same for the further operands of a chain.
  pub record ParsedAll (k : ℕ) (s : State) (ns : Nodes F) (t : State) : Type 0 where
    pub onwards : length t.rest ≤ length s.rest
    pub same_depth : t.depth ≡ s.depth
    pub counted : t.leaf_count ≡ s.leaf_count + leaves_all ns
    pub bounded : s.leaf_count ≤ 1024 → t.leaf_count ≤ 1024
    pub low : height_all ns ≤ k
    pub well_formed : AreWellFormed ns

  pub Parsed-weaken :
      (k : ℕ) (s t : State) (r : Result (FilterNode F))
      → Steps s t
      → Ensures (Parsed k t) r
      → Ensures (Parsed k s) r
  Parsed-weaken k s t r p h = Ensures-map (Parsed k t) (Parsed k s) r h λ n u q. record {
    onwards = omega arith;
    same_depth = omega arith;
    counted = omega arith;
    bounded = q.bounded;
    low = q.low;
    well_formed = q.well_formed;
  }

  -- A call that reads no comparison, and the rest of the block.
  pub lexical-Parsed :
      {A : Type 0} (k : ℕ) (Q : A → Type 0) (s : State) (m : Parser A)
      (f : A → Parser (FilterNode F))
      → From s Q (m s)
      → ((a : A) (t : State) → Steps s t → Q a → Ensures (Parsed k t) (f a t))
      → Ensures (Parsed k s) ((m >>= f) s)
  unfolding ◌>>=◌
  lexical-Parsed k Q s m f h g =
      Ensures-bind _ (Parsed k s) (m s) f h
        (λ a t p. Parsed-weaken k s t (f a t) p.0 (g a t p.0 p.1))

  -- A comparison is counted, or the limit is reported.
  pub leaf-Parsed :
      (k : ℕ) (n : FilterNode F) (s : State)
      → leaves n ≡ 1
      → height n ≡ 0
      → IsWellFormed n
      → Ensures (Parsed k s) ((count_leaf >>= λ _. pure n) s)
  unfolding count_leaf ◌>>=◌
  leaf-Parsed k n s one flat good = elim (Bool-cases (ltb 1024 (s.leaf_count + 1))) [
    | inl over ↦ rw over tt
    | inr fits ↦ rw fits (record {
      onwards = omega arith;
      same_depth = refl;
      counted = omega arith;
      bounded = ltb→le _ _ fits;
      low = omega arith;
      well_formed = good;
    })
  ]

module _ {F : Type 0} (host : Host F) where
  -- The test for a keyword: behind it, or back where it began, at `saved`.
  pub keyword-Ensures :
      {A : Type 0} (P : A → State → Type 0) (keyword : Str) (saved s : State) (m n : Parser A)
      → 1 ≤ length keyword
      → Steps saved s
      → ((t : State) → Steps saved t → length t.rest < length s.rest → Ensures P (m t))
      → ((t : State) → Steps saved t → Ensures P (n t))
      → Ensures P (
          (match_keyword host keyword >>= λ found. elim found [
            | true ↦ m
            | false ↦ (modify (restore saved) >>= λ _. n)
          ])
            s)
  unfolding ◌>>=◌
  keyword-Ensures {A} P keyword saved s m n long p h g =
      Ensures-bind (Shorter host s) P (match_keyword host keyword s) _
        (match_keyword-Shorter host keyword s long) λ found t q. branch found t q
    where
      branch :
          (found : Bool) (t : State)
          → Shorter host s found t
          → Ensures P (
              (elim found as (λ _. Parser A) [
                | true ↦ m
                | false ↦ (modify (restore saved) >>= λ _. n)
              ])
                t)
      branch true t (q, l) = h t (Steps-trans p q) (l refl)
      branch false t (q, l) = g (restore saved t) (omega arith)
