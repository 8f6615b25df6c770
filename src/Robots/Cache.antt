-- ===== src/Robots/Cache.antt =====
-- backend/crawler/robots.py: `RobotsCache`. The clock is an argument, in seconds; what the HTTP client
-- does, and `urlparse`, are parameters.
use verisearch.Prelude.{
  ℕ, ◌+◌, min, Bool, true, false, Option, none, some, List, [], ltb, leb, if◌then◌else◌, is_empty,
  Str, codes,
}
use verisearch.Prelude.Dict.{Dict, lookup, insert, remove}
use verisearch.Robots.Rules.{Rule, check_rules}
use verisearch.Robots.Parse.{Host, parse_robots_txt}

-- `RobotsResult`, without the time and the text of an error.
pub record RobotsResult (F : Type 0) : Type 0 where
  pub available : Bool
  pub rules : List Rule
  pub crawl_delay : Option F

-- `_CacheEntry`
pub record CacheEntry (F : Type 0) : Type 0 where
  pub result : RobotsResult F
  pub cached_at : ℕ

abbrev pub max_cache_ttl_seconds : ℕ
max_cache_ttl_seconds = 86400

-- `RobotsCache`
pub record RobotsCache (F : Type 0) : Type 0 where
  pub ttl : ℕ
  pub user_agent : Str
  pub cache : Dict (CacheEntry F)

-- How `client.get` ends: a status with a text, or an exception that `_fetch_robots` catches.
pub data Response : Type 0 where
  answered : ℕ → Str → Response
  failed : Response

-- `parsed.path or "/"`
abbrev pub path_or_root : Str → Str
path_or_root path = if is_empty path then codes "/" else path

module _ {F : Type 0} where
  -- `__init__`
  abbrev pub new_cache : ℕ → Str → RobotsCache F
  new_cache ttl agent = record {
    ttl = min ttl max_cache_ttl_seconds;
    user_agent = agent;
    cache = [];
  }

  -- `_is_fresh`
  abbrev pub is_fresh : RobotsCache F → ℕ → CacheEntry F → Bool
  is_fresh c now entry = ltb now (entry.cached_at + c.ttl)

  -- The result of an entry that is there and fresh.
  unfoldable pub fresh_result : RobotsCache F → Str → ℕ → Option (RobotsResult F)
  fresh_result c host now = elim (lookup host c.cache) [
    | none ↦ none
    | some entry ↦ if is_fresh c now entry then some entry.result else none
  ]

  -- `user_agent or self._user_agent`
  abbrev pub agent_or_default : RobotsCache F → Option Str → Str
  agent_or_default c none = c.user_agent
  agent_or_default c (some agent) = if is_empty agent then c.user_agent else agent

  module _ (host : Host F) where
    -- `_fetch_robots`
    unfoldable pub fetch_robots : Response → RobotsResult F
    fetch_robots (answered status text) =
        if leb 500 status
        then record { available = false; rules = []; crawl_delay = none }
        else if leb 400 status
        then record { available = true; rules = []; crawl_delay = none }
        else record {
          available = true;
          rules = (parse_robots_txt host text).0;
          crawl_delay = (parse_robots_txt host text).1;
        }
    fetch_robots failed = record { available = false; rules = []; crawl_delay = none }

    -- `get`, under the lock of the host: the second check at `now`, and the fetch that ends at `stored`.
    unfoldable pub get_locked :
        Str → Response → ℕ → ℕ → RobotsCache F → RobotsResult F × RobotsCache F
    unfolding fresh_result fetch_robots
    get_locked name response now stored c = elim (fresh_result c name now) [
      | some result ↦ (result, c)
      | none ↦ (
        fetch_robots response,
        record c {
          cache =
              insert name (record { result = fetch_robots response; cached_at = stored }) c.cache;
        },
      )
    ]

    -- `get`, where no other call comes between the first check, at `early`, and the second.
    unfoldable pub get_robots :
        Str → Response → ℕ → ℕ → ℕ → RobotsCache F → RobotsResult F × RobotsCache F
    unfolding get_locked
    get_robots name response early now stored c = elim (fresh_result c name early) [
      | some result ↦ (result, c)
      | none ↦ get_locked name response now stored c
    ]

    -- `is_allowed`; `urlparse` gives the host name, empty where there is none, and the path.
    unfoldable pub is_allowed :
        (Str → Str × Str) → Str → Option Str → ℕ → RobotsCache F → Option Bool
    unfolding fresh_result
    is_allowed urlparse url agent now c = elim (fresh_result c (urlparse url).0 now) [
      | none ↦ none
      | some result ↦
          if result.available
          then some (
              check_rules host.lower result.rules (host.lower (agent_or_default c agent))
                (path_or_root (urlparse url).1))
          else none
    ]

  -- `invalidate`
  abbrev pub invalidate : Str → RobotsCache F → RobotsCache F
  invalidate name c = record c { cache = remove name c.cache }

  -- `clear`
  abbrev pub emptied : RobotsCache F → RobotsCache F
  emptied c = record c { cache = [] }
