-- ===== src/Robots/Tests.antt =====
-- The theorems on robots.txt at concrete rules and paths.
use verisearch.Prelude.{Str, ℕ, ◌≡◌, refl, false, true, none, List, [], ◌∷◌, codes, arith}
use verisearch.Robots.Pattern.{path_matches}
use verisearch.Robots.Glob.{glob}
use verisearch.Robots.Paths.{path_matches-eq-glob, path_matches-twice, twice, exact}
use verisearch.Robots.Rules.{Rule, check_rules, patterns_of, permits, check_rules-eq-permits}
use verisearch.Robots.Parse.{
  Host, Progress, user_agent, allow, steps, final_rules, parse_robots_txt,
}
use verisearch.Robots.Allow.{final_rules-allow}
use verisearch.Robots.Cache.{
  RobotsCache, Response, answered, failed, new_cache, fresh_result, fetch_robots, get_locked,
  agent_or_default, path_or_root, is_allowed,
}
use verisearch.Robots.Freshness.{verdict, get_locked-get_locked, is_allowed-get_locked}

-- Text that is one line, in lower case already.
abbrev plain : Host ℕ
plain = record { splitlines = λ s. s ∷ []; strip = λ s. s; lower = λ s. s; float = λ s. none }

abbrev rules : List Rule
rules =
    (codes "otherbot", codes "/" ∷ [])
    ∷ (codes "bot", codes "/private/*/x" ∷ [])
    ∷ (codes "*", codes "/" ∷ [])
    ∷ []

check_rules-eq-permits_example :
    check_rules (λ s. s) rules (codes "bot") (codes "/index")
    ≡ permits (patterns_of (codes "bot") rules) (codes "/index")
unfolding patterns_of
check_rules-eq-permits_example =
    check_rules-eq-permits (λ s. s) rules (codes "bot") (codes "/index") refl

path_matches-eq-glob_example :
    path_matches (codes "/private/a/b/x.html") (codes "/private/*/x")
    ≡ glob (codes "/private/*/x") (codes "/private/a/b/x.html")
path_matches-eq-glob_example =
    path_matches-eq-glob (codes "/private/a/b/x.html") (codes "/private/*/x") (λ e. is_not_empty e)
      refl
  where
    is_not_empty : codes "/private/*/x" ≡ [] → ⊥
    is_not_empty e = ground arith

path_matches-twice_example :
    (path_matches (twice (codes "/a") (codes ".php") (codes "/b")) (codes "*.php$") ≡ false)
    × (exact (codes "*.php") (twice (codes "/a") (codes ".php") (codes "/b")) ≡ true)
path_matches-twice_example = path_matches-twice b'.' (codes "php") (codes "/a") (codes "/b") refl

abbrev group : Progress ℕ
group = record {
  rules = [];
  agents = codes "bot" ∷ [];
  disallows = codes "/" ∷ [];
  allows = [];
  crawl_delay = none;
}

final_rules-allow_example :
    final_rules plain (steps plain group (allow (codes "/public") ∷ user_agent (codes "z") ∷ []))
    ≡ final_rules plain (steps plain group (user_agent (codes "z") ∷ []))
final_rules-allow_example =
    final_rules-allow plain group (codes "/public") (user_agent (codes "z") ∷ []) refl refl

-- A rule before any agent is one for every agent, and its comment is cut off.
parse_one_rule :
    (parse_robots_txt plain (codes "disallow:/a#b")).0 ≡ (codes "*", codes "/a" ∷ []) ∷ []
unfolding parse_robots_txt
parse_one_rule = refl

abbrev no_entries : RobotsCache ℕ
no_entries = new_cache 3600 (codes "bot")

abbrev split_url : Str → Str × Str
split_url url = (codes "h", url)

abbrev served : Response
served = answered 200 (codes "disallow:/a")

get_locked-get_locked_example :
    get_locked plain
      (codes "h")
      failed
      20
      30
      (get_locked plain (codes "h") served 0 10 no_entries).1
    ≡ (fetch_robots plain served, (get_locked plain (codes "h") served 0 10 no_entries).1)
unfolding fresh_result
get_locked-get_locked_example =
    get_locked-get_locked plain (codes "h") served failed 0 10 20 30 no_entries refl (omega arith)

is_allowed-get_locked_example :
    is_allowed plain split_url
      (codes "/ab")
      none
      20
      (get_locked plain (codes "h") served 0 10 no_entries).1
    ≡ verdict plain served (agent_or_default no_entries none) (path_or_root (codes "/ab"))
unfolding fresh_result
is_allowed-get_locked_example =
    is_allowed-get_locked plain (codes "h") served 0 10 20 no_entries split_url (codes "/ab") none
      refl (omega arith) refl
