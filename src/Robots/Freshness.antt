-- ===== src/Robots/Freshness.antt =====
-- What is known of a host after its robots.txt was fetched.
use verisearch.Prelude.{
  ℕ, ◌+◌, ◌<◌, Bool, true, Option, none, some, [], ltb, leb, if◌then◌else◌, Str, str_eq_iff, ◌≡◌,
  refl, sym, ap, ◌∙◌, arith, Bool-cases, inl, inr,
}
use verisearch.Prelude.Dict.{lookup, insert, lookup-insert}
use verisearch.Robots.Rules.{check_rules}
use verisearch.Robots.Parse.{Host, parse_robots_txt}
use verisearch.Robots.Cache.{
  CacheEntry, RobotsCache, Response, answered, failed, fresh_result, fetch_robots, get_locked,
  agent_or_default, path_or_root, is_allowed,
}

module _ {F : Type 0} (host : Host F) where
  -- What the answer of the server says about a path.
  unfoldable pub verdict : Response → Str → Str → Option Bool
  verdict (answered status text) agent path =
      if leb 500 status
      then none
      else if leb 400 status
      then some true
      else some (check_rules host.lower (parse_robots_txt host text).0 (host.lower agent) path)
  verdict failed agent path = none

  -- The cache after a fetch.
  abbrev filled : Str → Response → ℕ → RobotsCache F → RobotsCache F
  filled name response stored c = record c {
    cache =
        insert name (record { result = fetch_robots host response; cached_at = stored }) c.cache;
  }

  fetched :
      (name : Str) (response : Response) (now stored : ℕ) (c : RobotsCache F)
      → fresh_result c name now ≡ none
      → get_locked host name response now stored c
        ≡ (fetch_robots host response, filled name response stored c)
  unfolding get_locked
  fetched name response now stored c e = rw (get_locked, e)

  fresh_result-filled :
      (name : Str) (response : Response) (stored later : ℕ) (c : RobotsCache F)
      → later < stored + c.ttl
      → fresh_result (filled name response stored c) name later ≡ some (fetch_robots host response)
  unfolding fresh_result
  fresh_result-filled name response stored later c h =
      let entry : CacheEntry F = record {
        result = fetch_robots host response;
        cached_at = stored;
      } in
      let there : lookup name (insert name entry c.cache) ≡ some entry =
        rw (lookup-insert name name entry c.cache, (str_eq_iff name name).1 refl) in
      let fresh : ltb later (stored + c.ttl) ≡ true = ground arith in
      rw (fresh_result, there) (rw fresh)

  -- A call of `get` that waited for the lock while another one fetched finds the result of that one:
  -- it returns it and leaves the cache as it is, whatever its own fetch would have given.
  pub get_locked-get_locked :
      (name : Str) (first second : Response) (now stored later end : ℕ) (c : RobotsCache F)
      → fresh_result c name now ≡ none
      → later < stored + c.ttl
      → get_locked host name second later end (get_locked host name first now stored c).1
        ≡ (fetch_robots host first, (get_locked host name first now stored c).1)
  unfolding get_locked
  get_locked-get_locked name first second now stored later end c e h =
      let d : RobotsCache F = filled name first stored c in
      let after : (get_locked host name first now stored c).1 ≡ d =
        ap (λ p. p.1) (fetched name first now stored c e) in
      let again : get_locked host name second later end d ≡ (fetch_robots host first, d) =
        rw (get_locked, fresh_result-filled name first stored later c h) in
      ap (λ x. get_locked host name second later end x) after
      ∙ again
      ∙ ap (λ x. (fetch_robots host first, x)) (sym after)

  no_rules : (lower : Str → Str) (agent path : Str) → check_rules lower [] agent path ≡ true
  unfolding check_rules
  no_rules lower agent path = refl

  judged :
      (r : Response) (agent path : Str)
      → (if (fetch_robots host r).available
          then some (check_rules host.lower (fetch_robots host r).rules (host.lower agent) path)
          else none)
        ≡ verdict r agent path
  unfolding fetch_robots verdict
  judged failed agent path = refl
  judged (answered status text) agent path = elim (Bool-cases (leb 500 status)) [
    | inl broken ↦ rw broken
    | inr serves ↦ elim (Bool-cases (leb 400 status)) [
      | inl missing ↦ rw (serves, missing) (ap some (no_rules host.lower (host.lower agent) path))
      | inr given ↦ rw (serves, given)
    ]
  ]

  -- After a fetch for a host and before the entry is too old, `is_allowed` decides a URL of the host by
  -- what the server answered: nothing is known after an exception or a status of 500 or more, all is
  -- allowed after one from 400 on, and otherwise the rules in the text decide.
  pub is_allowed-get_locked :
      (name : Str) (response : Response) (now stored later : ℕ) (c : RobotsCache F)
      (urlparse : Str → Str × Str) (url : Str) (agent : Option Str)
      → fresh_result c name now ≡ none
      → later < stored + c.ttl
      → (urlparse url).0 ≡ name
      → is_allowed host urlparse url agent later (get_locked host name response now stored c).1
        ≡ verdict response (agent_or_default c agent) (path_or_root (urlparse url).1)
  unfolding is_allowed
  is_allowed-get_locked name response now stored later c urlparse url agent e h same =
      let d : RobotsCache F = filled name response stored c in
      let found : fresh_result d (urlparse url).0 later ≡ some (fetch_robots host response) =
        ap (λ k. fresh_result d k later) same
        ∙ fresh_result-filled name response stored later c h in
      ap (λ p. is_allowed host urlparse url agent later p.1) (fetched name response now stored c e)
      ∙ rw (is_allowed, found)
          (judged response (agent_or_default c agent) (path_or_root (urlparse url).1))
