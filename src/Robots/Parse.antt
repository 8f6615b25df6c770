-- ===== src/Robots/Parse.antt =====
-- backend/crawler/robots.py: `_parse_robots_txt`. `F` is the type of floats.
use verisearch.Prelude.{
  ℕ, ◌&&◌, ◌||◌, not, Option, none, some, List, [], ◌∷◌, ◌++◌, ◌==◌, map, if◌then◌else◌, Str, codes,
  str_eq, is_empty,
}
use verisearch.Robots.Rules.{Rule}

-- The methods of `str`, and `float`, that the parser calls.
pub record Host (F : Type 0) : Type 0 where
  pub splitlines : Str → List Str
  pub strip : Str → Str
  pub lower : Str → Str
  pub float : Str → Option F

-- The local variables of the loop.
pub record Progress (F : Type 0) : Type 0 where
  pub rules : List Rule
  pub agents : List Str
  pub disallows : List Str
  pub allows : List Str
  pub crawl_delay : Option F

-- A parsed line: the directive in lower case, and its value.
pub data Directive : Type 0 where
  user_agent disallow allow crawl_delay : Str → Directive
  other : Directive

-- The text before the first `c`, and the text behind it if there is one.
unfoldable pub cut : ℕ → Str → Str × Option Str
cut c [] = ([], none)
cut c (d ∷ s) =
    let (before, after) = cut c s in if d == c then ([], some s) else (d ∷ before, after)

-- The chain of tests on the directive.
unfoldable pub directive_named : Str → Str → Directive
directive_named name value =
    if str_eq name (codes "user-agent")
    then user_agent value
    else if str_eq name (codes "disallow")
    then disallow value
    else if str_eq name (codes "allow")
    then allow value
    else if str_eq name (codes "crawl-delay")
    then crawl_delay value
    else other

-- `current_agents = ["*"]` before a rule with no agent.
abbrev pub default_agents : List Str → List Str
default_agents [] = codes "*" ∷ []
default_agents (agent ∷ agents) = agent ∷ agents

module _ {F : Type 0} (host : Host F) where
  open host use {splitlines, strip, lower, float}

  -- One line: the comment is cut off, and the rest is split at the first colon.
  unfoldable pub read_line : Str → Directive
  unfolding cut directive_named
  read_line raw =
      let line = strip (cut b'#' raw).0 in
      if is_empty line
      then other
      else (let (name, value) = cut b':' line in
          elim value [ none ↦ other | some v ↦ directive_named (lower (strip name)) (strip v) ])

  -- The rules of a group, one for each of its agents.
  abbrev pub group_rules : List Str → List Str → List Rule
  group_rules agents disallows = map (λ agent. (lower agent, disallows)) agents

  abbrev pub append_agent : Str → Progress F → Progress F
  append_agent agent p = record p { agents = p.agents ++ agent ∷ [] }

  -- The body of the loop for one directive.
  unfoldable pub step : Progress F → Directive → Progress F
  step p (user_agent v) = append_agent v (
      if not (is_empty p.agents) && (not (is_empty p.disallows) || not (is_empty p.allows))
      then record p {
        rules = p.rules ++ group_rules p.agents p.disallows;
        agents = [];
        disallows = [];
        allows = [];
      }
      else p)
  step p (disallow v) = record p {
    agents = default_agents p.agents;
    disallows = if is_empty v then p.disallows else p.disallows ++ v ∷ [];
  }
  step p (allow v) = record p { agents = default_agents p.agents; allows = p.allows ++ v ∷ [] }
  step p (crawl_delay v) = elim (float v) [ none ↦ p | some d ↦ record p { crawl_delay = some d } ]
  step p other = p

  unfoldable pub steps : Progress F → List Directive → Progress F
  unfolding step
  steps p [] = p
  steps p (d ∷ ds) = steps (step p d) ds

  -- The rules once the final group is saved.
  unfoldable pub final_rules : Progress F → List Rule
  final_rules p =
      if not (is_empty p.agents) && not (is_empty p.disallows)
      then p.rules ++ group_rules p.agents p.disallows
      else p.rules

  abbrev pub start : Progress F
  start = record { rules = []; agents = []; disallows = []; allows = []; crawl_delay = none }

  -- The rules and the crawl delay that `_parse_robots_txt` returns, with `available=True`.
  unfoldable pub parse_robots_txt : Str → List Rule × Option F
  unfolding steps final_rules read_line
  parse_robots_txt content =
      let p = steps start (map read_line (splitlines content)) in (final_rules p, p.crawl_delay)
