-- ===== src/Auth/Propagation.antt =====
-- How long the cache can hide a change of the table.
use verisearch.Prelude.{
  ℕ, ◌+◌, ◌<◌, ◌≤◌, none, some, List, [], ◌∷◌, true, false, ltb, leb, str_eq, ◌&&◌, if_property,
  All, length, Str, str_eq_iff, ◌≡◌, ◌⊎◌, inl, inr, refl, sym, ap, ◌∙◌, arith, Bool-cases,
  Option-cases,
}
use verisearch.Prelude.Deque.{drop_first}
use verisearch.Prelude.Dict.{Dict, lookup, remove, All-insert_entry, All-remove, All-lookup_entry}
use verisearch.Auth.Keys.{KeyRow, candidates_in, Outcome, refused, decide}
use verisearch.Auth.Cache.{CacheEntry, TtlCache, is_absent, get, with_room, put, invalidate}
use verisearch.Auth.Service.{
  Host, AuthService, answered, Presented, unusable, usable, presented, get_candidates, verdict_on,
  authenticate, invalidate_cache_for_prefix,
}

-- The answer that the table gives, without a cache.
unfoldable pub answer : Host → Presented → List KeyRow → ℕ → Outcome
unfolding decide candidates_in
answer host (unusable code) db now = refused code none
answer host (usable token prefix) db now = decide host.verify now token (candidates_in prefix db)

-- The arguments of a call of `authenticate`.
pub record Call : Type 0 where
  pub header : Str
  pub request_id : Str
  pub resource : Str
  pub tick : ℕ
  pub now : ℕ

unfoldable pub authenticate_all : Host → List KeyRow → List Call → AuthService → AuthService
unfolding authenticate
authenticate_all host db [] svc = svc
authenticate_all host db (c ∷ cs) svc =
    authenticate_all host db cs
      (authenticate host c.header c.request_id c.resource db c.tick c.now svc).1

All-drop_first : {A : Type 0} (P : A → Type 0) (xs : List A) → All P xs → All P (drop_first xs)
All-drop_first P [] h = tt
All-drop_first P (x ∷ xs) h = h.1

module _ (db : List KeyRow) (Excused : Str × CacheEntry → Type 0) where
  -- An entry holds what the table holds, or is one that will not be used.
  abbrev IsCurrent : Str × CacheEntry → Type 0
  IsCurrent e = (e.1.rows ≡ candidates_in e.0 db) ⊎ Excused e

  get-IsCurrent :
      (prefix : Str) (tick : ℕ) (c : TtlCache)
      → All IsCurrent c.store
      → All IsCurrent (get prefix tick c).1.store
  unfolding get
  get-IsCurrent prefix tick c h = elim (Option-cases (lookup prefix c.store)) [
    | inl missing ↦ rw (get, missing) h
    | inr (entry, there) ↦ elim (Bool-cases (ltb entry.expires_at tick)) [
      | inl old ↦ rw (get, there) (rw old (All-remove IsCurrent prefix c.store h))
      | inr young ↦ rw (get, there) (rw young h)
    ]
  ]

  put-IsCurrent :
      (prefix : Str) (tick : ℕ) (c : TtlCache)
      → All IsCurrent c.store
      → All IsCurrent (put prefix (candidates_in prefix db) tick c).store
  unfolding put with_room
  put-IsCurrent prefix tick c h =
      All-insert_entry IsCurrent prefix
        (record { rows = candidates_in prefix db; expires_at = tick + c.ttl_seconds })
        (with_room prefix c) (inl refl)
        (if_property (All IsCurrent)
          (leb c.max_size (length c.store) && is_absent (lookup prefix c.store))
          (drop_first c.store) c.store (λ _. All-drop_first IsCurrent c.store h) (λ _. h))

  get_candidates-IsCurrent :
      (prefix : Str) (tick : ℕ) (c : TtlCache)
      → All IsCurrent c.store
      → All IsCurrent (get_candidates prefix db tick c).1.store
  unfolding get_candidates
  get_candidates-IsCurrent prefix tick c h = elim (Option-cases (get prefix tick c).0) [
    | inl missed ↦
        rw (get_candidates, missed)
          (put-IsCurrent prefix tick (get prefix tick c).1 (get-IsCurrent prefix tick c h))
    | inr (rows, hit) ↦ rw (get_candidates, hit) (get-IsCurrent prefix tick c h)
  ]

  -- A hit has the rows of the table, where the entries of its prefix that are excused are too old.
  get-current :
      (prefix : Str) (tick : ℕ) (c : TtlCache) (rows : List KeyRow)
      → All IsCurrent c.store
      → ((entry : CacheEntry) → Excused (prefix, entry) → entry.expires_at < tick)
      → (get prefix tick c).0 ≡ some rows
      → rows ≡ candidates_in prefix db
  unfolding get
  get-current prefix tick c rows h late hit = elim (Option-cases (lookup prefix c.store)) [
    | inl missing ↦ let q : none ≡ some rows = rw (get, missing) at hit in cc
    | inr (entry, there) ↦ elim (Bool-cases (ltb entry.expires_at tick)) [
      | inl old ↦ let q : none ≡ some rows = rw old at (rw (get, there) at hit) in cc
      | inr young ↦
          let q : some entry.rows ≡ some rows = rw young at (rw (get, there) at hit) in
          let r : entry.rows ≡ rows = cc in
          elim (All-lookup_entry IsCurrent prefix entry c.store h there) [
            | inl same ↦ sym r ∙ same
            | inr excused ↦ let aged = late entry excused in absurd (ground arith)
          ]
    ]
  ]

  get_candidates-current :
      (prefix : Str) (tick : ℕ) (c : TtlCache)
      → All IsCurrent c.store
      → ((entry : CacheEntry) → Excused (prefix, entry) → entry.expires_at < tick)
      → (get_candidates prefix db tick c).0 ≡ candidates_in prefix db
  unfolding get_candidates
  get_candidates-current prefix tick c h late = elim (Option-cases (get prefix tick c).0) [
    | inl missed ↦ rw (get_candidates, missed)
    | inr (rows, hit) ↦ rw (get_candidates, hit) (get-current prefix tick c rows h late hit)
  ]

  verdict_on-IsCurrent :
      (host : Host) (p : Presented) (tick now : ℕ) (c : TtlCache)
      → All IsCurrent c.store
      → All IsCurrent (verdict_on host p db tick now c).1.store
  unfolding verdict_on
  verdict_on-IsCurrent host (unusable code) tick now c h = h
  verdict_on-IsCurrent host (usable token prefix) tick now c h =
      get_candidates-IsCurrent prefix tick c h

  verdict_on-current :
      (host : Host) (p : Presented) (tick now : ℕ) (c : TtlCache)
      → All IsCurrent c.store
      → ((token prefix : Str)
          → p ≡ usable token prefix
          → (entry : CacheEntry) → Excused (prefix, entry)
          → entry.expires_at < tick)
      → (verdict_on host p db tick now c).0 ≡ answer host p db now
  unfolding verdict_on answer
  verdict_on-current host (unusable code) tick now c h late = refl
  verdict_on-current host (usable token prefix) tick now c h late =
      ap (decide host.verify now token)
        (get_candidates-current prefix tick c h (late token prefix refl))

  authenticate_all-IsCurrent :
      (host : Host) (cs : List Call) (svc : AuthService)
      → All IsCurrent svc.cache.store
      → All IsCurrent (authenticate_all host db cs svc).cache.store
  unfolding authenticate_all authenticate
  authenticate_all-IsCurrent host [] svc h = h
  authenticate_all-IsCurrent host (c ∷ cs) svc h =
      authenticate_all-IsCurrent host cs
        (authenticate host c.header c.request_id c.resource db c.tick c.now svc).1
        (verdict_on-IsCurrent host (presented host c.header) c.tick c.now svc.cache h)

-- The emitter stays what it is.
authenticate_all-emitter :
    (host : Host) (db : List KeyRow) (cs : List Call) (svc : AuthService)
    → (authenticate_all host db cs svc).emitter ≡ svc.emitter
unfolding authenticate_all authenticate
authenticate_all-emitter host db [] svc = refl
authenticate_all-emitter host db (c ∷ cs) svc =
    authenticate_all-emitter host db cs
      (authenticate host c.header c.request_id c.resource db c.tick c.now svc).1

-- Behind any calls, a call answers as the table says, where each entry of the cache was current or
-- excused before them, and those excused for the prefix of the call are too old for it.
pub authenticate_all-current :
    (host : Host) (db : List KeyRow) (Excused : Str × CacheEntry → Type 0) (cs : List Call)
    (svc : AuthService) (header request_id resource : Str) (tick now : ℕ)
    → All (IsCurrent db Excused) svc.cache.store
    → ((token prefix : Str)
        → presented host header ≡ usable token prefix
        → (entry : CacheEntry) → Excused (prefix, entry)
        → entry.expires_at < tick)
    → (authenticate host header request_id resource db tick now (authenticate_all host db cs svc)).0
      ≡ answered svc.emitter now request_id resource (answer host (presented host header) db now)
unfolding authenticate
authenticate_all-current host db Excused cs svc header request_id resource tick now h late =
    let after = authenticate_all host db cs svc in
    ap
      (λ e.
        answered e now request_id resource
          (verdict_on host (presented host header) db tick now after.cache).0)
      (authenticate_all-emitter host db cs svc)
    ∙ ap (answered svc.emitter now request_id resource) (
        verdict_on-current db Excused host (presented host header) tick now after.cache
          (authenticate_all-IsCurrent db Excused host cs svc h) late)

aged-IsCurrent :
    (db : List KeyRow) (t : ℕ) (d : Dict CacheEntry)
    → All (λ e. e.1.expires_at ≤ t) d
    → All (IsCurrent db (λ e. e.1.expires_at ≤ t)) d
aged-IsCurrent db t [] h = tt
aged-IsCurrent db t (e ∷ d) h = (inr h.0, aged-IsCurrent db t d h.1)

-- Where the table changed when every entry of the cache was to expire by `t`, and has not changed
-- since, `authenticate` answers after `t` as the table says, whatever calls came between, unless its
-- emitter refuses the event of a failure: then it raises.
pub authenticate-authenticate_all :
    (host : Host) (db : List KeyRow) (t : ℕ) (cs : List Call) (svc : AuthService)
    (header request_id resource : Str) (tick now : ℕ)
    → All (λ e. e.1.expires_at ≤ t) svc.cache.store
    → t < tick
    → (authenticate host header request_id resource db tick now (authenticate_all host db cs svc)).0
      ≡ answered svc.emitter now request_id resource (answer host (presented host header) db now)
authenticate-authenticate_all host db t cs svc header request_id resource tick now h late =
    authenticate_all-current host db (λ e. e.1.expires_at ≤ t) cs svc header request_id resource
      tick now (aged-IsCurrent db t svc.cache.store h)
      (λ token prefix shown entry aged. omega (arith, aged, late))

-- The entries that are left once a prefix is invalidated are those of other prefixes.
other-IsCurrent :
    (db : List KeyRow) (prefix : Str) (d : Dict CacheEntry)
    → All (IsCurrent db (λ e. str_eq e.0 prefix ≡ false)) (remove prefix d)
other-IsCurrent db prefix [] = tt
other-IsCurrent db prefix (e ∷ d) = elim (Bool-cases (str_eq e.0 prefix)) [
  | inl same ↦ rw same (other-IsCurrent db prefix d)
  | inr other ↦ rw other (inr other, other-IsCurrent db prefix d)
]

-- Once the prefix is invalidated, every later call for it answers as the table says.
pub authenticate-invalidate_cache_for_prefix :
    (host : Host) (db : List KeyRow) (cs : List Call) (svc : AuthService)
    (token prefix header request_id resource : Str) (tick now : ℕ)
    → presented host header ≡ usable token prefix
    → (authenticate host header request_id resource db tick now
        (authenticate_all host db cs (invalidate_cache_for_prefix prefix svc))).0
      ≡ answered svc.emitter now request_id resource (answer host (presented host header) db now)
unfolding invalidate_cache_for_prefix invalidate
authenticate-invalidate_cache_for_prefix host db cs svc token prefix header request_id resource tick
      now shown =
    authenticate_all-current host db (λ e. str_eq e.0 prefix ≡ false) cs
      (invalidate_cache_for_prefix prefix svc) header request_id resource tick now
      (other-IsCurrent db prefix svc.cache.store) not_excused
  where
    prefix_of : Presented → Str
    prefix_of (unusable code) = []
    prefix_of (usable token prefix) = prefix

    not_excused :
        (token' prefix' : Str)
        → presented host header ≡ usable token' prefix'
        → (entry : CacheEntry) → str_eq prefix' prefix ≡ false
        → entry.expires_at < tick
    not_excused token' prefix' shown' entry differ =
        let same : prefix' ≡ prefix = ap prefix_of (sym shown' ∙ shown) in
        let equal : str_eq prefix' prefix ≡ true = (str_eq_iff prefix' prefix).1 same in absurd (cc)
