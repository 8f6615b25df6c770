-- ===== src/QueryFilter/Printer.antt =====
-- backend/query_filter/printer.py, and `structural_eq` of ast_types.py. How Python prints and compares
-- floats is a parameter; the floats are finite.
use verisearch.Prelude.{
  ℕ, Bool, true, false, ◌&&◌, List, [], ◌∷◌, ◌++◌, ◌==◌, ltb, if◌then◌else◌, length, Str, codes,
  str_eq, str_le, join, replace,
}
use verisearch.QueryFilter.Ast.{
  Literal, string_literal, number_literal, timestamp_literal, RangeOp, lt, le, gt, ge, FilterNode,
  eq, ne, in_set, range, negation, conj, disj, Nodes, nil, cons, count,
}

-- What Python does with a float `x`.
pub record Floats (F : Type 0) : Type 0 where
  -- `x == int(x)`
  pub is_whole : F → Bool
  -- `str(int(x))`
  pub whole : F → Str
  -- `f"{x:g}"`
  pub general : F → Str
  -- `f"{x}"`
  pub plain : F → Str
  -- `x == y`
  pub equal : F → F → Bool

module _ {A : Type 0} (key : A → Str) where
  unfoldable pub insert_by : A → List A → List A
  insert_by x [] = x ∷ []
  insert_by x (y ∷ ys) =
      let rest = insert_by x ys in if str_le (key x) (key y) then x ∷ y ∷ ys else y ∷ rest

  -- `sorted(items, key=key)`
  unfoldable pub sorted_by : List A → List A
  unfolding insert_by
  sorted_by [] = []
  sorted_by (x ∷ xs) = insert_by x (sorted_by xs)

-- `sorted(strings)`
abbrev pub sorted : List Str → List Str
sorted = sorted_by (λ s. s)

-- `_range_op_to_str`
abbrev pub range_op_to_str : RangeOp → Str
range_op_to_str lt = codes "lt"
range_op_to_str le = codes "le"
range_op_to_str gt = codes "gt"
range_op_to_str ge = codes "ge"

abbrev parenthesized : Bool → Str → Str
parenthesized needed s = if needed then codes "(" ++ (s ++ codes ")") else s

module _ {F : Type 0} (floats : Floats F) where
  open floats use {is_whole, whole, general, plain, equal}

  -- `_print_literal`
  unfoldable pub print_literal : Literal F → Str
  print_literal (string_literal v) =
      b'"' ∷ (replace b'"' (b'\\' ∷ b'"' ∷ []) (replace b'\\' (b'\\' ∷ b'\\' ∷ []) v) ++ b'"' ∷ [])
  print_literal (number_literal x) = if is_whole x then whole x else general x
  print_literal (timestamp_literal v) = v

  unfoldable pub print_all : List (Literal F) → List Str
  unfolding print_literal
  print_all [] = []
  print_all (v ∷ vs) = print_literal v ∷ print_all vs

  -- `_sort_literals` of the printer
  unfoldable pub sort_literals : List (Literal F) → List (Literal F)
  unfolding sorted_by print_literal
  sort_literals = sorted_by print_literal

  -- The values of an `in`, as they are printed.
  unfoldable pub print_values : List (Literal F) → Str
  unfolding sort_literals print_all
  print_values vs = join (codes ", ") (print_all (sort_literals vs))

  unfoldable mutual
    unfolding print_literal print_values sorted_by

    -- `_print_node`, for a parent of this precedence
    pub print_node : ℕ → FilterNode F → Str
    print_node parent (eq field v) = field ++ (codes " = " ++ print_literal v)
    print_node parent (ne field v) = field ++ (codes " != " ++ print_literal v)
    print_node parent (in_set field vs) = field ++ (codes " in (" ++ (print_values vs ++ codes ")"))
    print_node parent (range field op v) =
        field ++ (codes " " ++ (range_op_to_str op ++ (codes " " ++ print_literal v)))
    print_node parent (negation n) = codes "not " ++ print_node 3 n
    print_node parent (conj ns) =
        parenthesized (ltb 2 parent) (join (codes " and ") (sorted (print_nodes 2 ns)))
    print_node parent (disj ns) =
        parenthesized (ltb 1 parent) (join (codes " or ") (sorted (print_nodes 1 ns)))

    pub print_nodes : ℕ → Nodes F → List Str
    print_nodes parent nil = []
    print_nodes parent (cons n ns) = print_node parent n ∷ print_nodes parent ns

  -- `print_filter`
  abbrev pub print_filter : FilterNode F → Str
  print_filter = print_node 0

  -- `_literal_eq`
  abbrev pub literal_eq : Literal F → Literal F → Bool
  literal_eq (string_literal v) (string_literal w) = str_eq v w
  literal_eq (number_literal x) (number_literal y) = equal x y
  literal_eq (timestamp_literal v) (timestamp_literal w) = str_eq v w
  literal_eq _ _ = false

  -- `_literal_sort_key` of ast_types.py
  abbrev pub literal_sort_key : Literal F → Str
  literal_sort_key (string_literal v) = codes "s:" ++ v
  literal_sort_key (number_literal x) = codes "n:" ++ plain x
  literal_sort_key (timestamp_literal v) = codes "t:" ++ v

  unfoldable pub sort_keys : List (Literal F) → List Str
  sort_keys [] = []
  sort_keys (v ∷ vs) = literal_sort_key v ∷ sort_keys vs

abbrev pub texts_eq : List Str → List Str → Bool
texts_eq [] [] = true
texts_eq (s ∷ ss) (t ∷ ts) = str_eq s t && texts_eq ss ts
texts_eq _ _ = false

abbrev same_op : RangeOp → RangeOp → Bool
same_op lt lt = true
same_op le le = true
same_op gt gt = true
same_op ge ge = true
same_op _ _ = false

module _ {F : Type 0} (floats : Floats F) where
  -- The children of two `And` or two `Or` nodes, compared as multisets of their canonical keys.
  same_children : Nodes F → Nodes F → Bool
  unfolding print_node sorted_by
  same_children ns ms =
      count ns == count ms
      && texts_eq (sorted (print_nodes floats 0 ns)) (sorted (print_nodes floats 0 ms))

  -- `structural_eq`
  unfoldable pub structural_eq : FilterNode F → FilterNode F → Bool
  unfolding same_children sort_keys sorted_by
  structural_eq (eq f v) (eq g w) = str_eq f g && literal_eq floats v w
  structural_eq (ne f v) (ne g w) = str_eq f g && literal_eq floats v w
  structural_eq (in_set f vs) (in_set g ws) =
      str_eq f g
      && length vs == length ws
      && texts_eq (sorted (sort_keys floats vs)) (sorted (sort_keys floats ws))
  structural_eq (range f op v) (range g op' w) =
      str_eq f g && same_op op op' && literal_eq floats v w
  structural_eq (negation n) (negation m) = structural_eq n m
  structural_eq (conj ns) (conj ms) = same_children ns ms
  structural_eq (disj ns) (disj ms) = same_children ns ms
  structural_eq _ _ = false
