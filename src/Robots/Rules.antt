-- ===== src/Robots/Rules.antt =====
-- backend/crawler/robots.py: `_check_rules`.
use verisearch.Prelude.{
  Bool, true, false, not, List, [], ◌∷◌, ◌++◌, append-nil, append_assoc, if◌then◌else◌, Str, codes,
  str_eq, str_eq_iff, is_empty, any, ◌≡◌, refl, sym, arith,
}
use verisearch.Robots.Pattern.{path_matches}

-- A rule: an agent and the patterns that it may not fetch.
abbrev pub Rule : Type 0
Rule = Str × List Str

-- The loop over the rules, with `specific_disallows` and `wildcard_disallows`.
unfoldable pub collect : Str → List Rule → List Str → List Str → List Str × List Str
collect ua [] specific wildcard = (specific, wildcard)
collect ua ((agent, disallows) ∷ rules) specific wildcard =
    let mine = collect ua rules (specific ++ disallows) wildcard in
    let anyone = collect ua rules specific (wildcard ++ disallows) in
    let others = collect ua rules specific wildcard in
    if str_eq agent ua then mine else if str_eq agent (codes "*") then anyone else others

-- `_check_rules`; `lower` is `str.lower`.
unfoldable pub check_rules : (Str → Str) → List Rule → Str → Str → Bool
unfolding collect
check_rules lower rules user_agent path =
    let (specific, wildcard) = collect (lower user_agent) rules [] [] in
    let applicable = if is_empty specific then wildcard else specific in
    if is_empty applicable then true else not (any (path_matches path) applicable)

-- The patterns of the rules that name one agent.
unfoldable pub patterns_of : Str → List Rule → List Str
patterns_of name [] = []
patterns_of name ((agent, disallows) ∷ rules) =
    let rest = patterns_of name rules in if str_eq agent name then disallows ++ rest else rest

collect-specific :
    (ua : Str) (rules : List Rule) (specific wildcard : List Str)
    → (collect ua rules specific wildcard).0 ≡ specific ++ patterns_of ua rules
unfolding collect patterns_of
collect-specific ua [] specific wildcard = sym (append-nil specific)
collect-specific ua ((agent, disallows) ∷ rules) specific wildcard = ground (
  arith,
  collect-specific ua rules (specific ++ disallows) wildcard,
  collect-specific ua rules specific (wildcard ++ disallows),
  collect-specific ua rules specific wildcard,
  append_assoc specific disallows (patterns_of ua rules),
)

-- The wildcard patterns, for an agent that is not the wildcard itself.
collect-wildcard :
    (ua : Str) (rules : List Rule) (specific wildcard : List Str)
    → str_eq (codes "*") ua ≡ false
    → (collect ua rules specific wildcard).1 ≡ wildcard ++ patterns_of (codes "*") rules
unfolding collect patterns_of
collect-wildcard ua [] specific wildcard ne = sym (append-nil wildcard)
collect-wildcard ua ((agent, disallows) ∷ rules) specific wildcard ne = ground (
  arith,
  str_eq_iff agent ua,
  str_eq_iff agent (codes "*"),
  collect-wildcard ua rules (specific ++ disallows) wildcard ne,
  collect-wildcard ua rules specific (wildcard ++ disallows) ne,
  collect-wildcard ua rules specific wildcard ne,
  append_assoc wildcard disallows (patterns_of (codes "*") rules),
)

abbrev pub permits : List Str → Str → Bool
permits patterns path = not (any (path_matches path) patterns)

permits-empty :
    (patterns : List Str) (path : Str)
    → (if is_empty patterns then true else permits patterns path) ≡ permits patterns path
permits-empty [] path = refl
permits-empty (p ∷ patterns) path = refl

-- For an agent other than the wildcard, a path is allowed exactly if no pattern of the rules that
-- name the agent, in lower case, matches it, or, where those rules have no pattern, no pattern of the
-- wildcard rules. Rules that name another agent have no effect, in whatever order the rules stand.
pub check_rules-eq-permits :
    (lower : Str → Str) (rules : List Rule) (user_agent path : Str)
    → str_eq (codes "*") (lower user_agent) ≡ false
    → check_rules lower rules user_agent path
      ≡ permits
          (if is_empty (patterns_of (lower user_agent) rules)
            then patterns_of (codes "*") rules
            else patterns_of (lower user_agent) rules)
          path
unfolding check_rules
check_rules-eq-permits lower rules user_agent path ne =
    rw
      (
        collect-specific (lower user_agent) rules [] [],
        collect-wildcard (lower user_agent) rules [] [] ne,
      )
      (permits-empty _ path)
