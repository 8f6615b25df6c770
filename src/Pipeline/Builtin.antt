-- ===== src/Pipeline/Builtin.antt =====
-- backend/pipeline_engine/registry.py: the built-in steps that compute no scores. The type of results
-- is a parameter, with what `getattr` reads of a result; a configuration is given by its entries.
use verisearch.Prelude.{
  ℕ, ◌+◌, ◌*◌, Bool, true, not, ◌||◌, Option, none, some, List, [], ◌∷◌, ◌++◌, any, ltb, leb,
  if◌then◌else◌, is_empty, length, take, Str, str_eq, starts_with,
}

-- `d in url`
unfoldable pub occurs_in : Str → Str → Bool
occurs_in d [] = is_empty d
occurs_in d (c ∷ s) = starts_with (c ∷ s) d || occurs_in d s

-- `x in xs`
abbrev pub is_in : Str → List Str → Bool
is_in x xs = any (str_eq x) xs

-- What the steps read of a result, and the copy that `title_transform` makes with another title.
pub record Fields (R : Type 0) : Type 0 where
  pub url : R → Str
  pub published_at : R → Option ℕ
  pub language : R → Option Str
  pub title : R → Str
  pub with_title : R → Str → R

abbrev pub day : ℕ
day = 86400000000

module _ {R : Type 0} where
  -- The results for which a test holds, in order.
  unfoldable pub keep : (R → Bool) → List R → List R
  keep p [] = []
  keep p (r ∷ rs) = let rest = keep p rs in if p r then r ∷ rest else rest

  module _ (fields : Fields R) where
    -- `domain_filter`
    unfoldable pub domain_filter : List Str → Bool → List R → List R
    unfolding keep occurs_in
    domain_filter domains exclude results =
        let domain_match = λ (r : R). any (λ d. occurs_in d (fields.url r)) domains in
        if is_empty domains
        then results
        else keep (λ r. if exclude then not (domain_match r) else domain_match r) results

    -- The test of `freshness_filter` on a date: `published_at >= now - max_age`.
    abbrev pub is_fresh : ℕ → ℕ → Option ℕ → Bool
    is_fresh max_age_days now none = true
    is_fresh max_age_days now (some at) = leb now (at + max_age_days * day)

    -- `freshness_filter`
    unfoldable pub freshness_filter : Option ℕ → ℕ → List R → List R
    unfolding keep
    freshness_filter none now results = results
    freshness_filter (some max_age_days) now results =
        keep (λ r. is_fresh max_age_days now (fields.published_at r)) results

    abbrev pub speaks : List Str → Option Str → Bool
    speaks languages none = true
    speaks languages (some lang) = is_in lang languages

    -- `language_filter`
    unfoldable pub language_filter : List Str → List R → List R
    unfolding keep
    language_filter languages results =
        if is_empty languages
        then results
        else keep (λ r. speaks languages (fields.language r)) results

    -- The new title of `title_transform`.
    abbrev pub titled : ℕ → Str → Str → Str → Str
    titled max_length prefix suffix title =
        let new_title = prefix ++ (title ++ suffix) in
        if ltb max_length (length new_title) then take max_length new_title else new_title

    -- `title_transform`, for a configuration that is not empty
    unfoldable pub title_transform : ℕ → Str → Str → List R → List R
    title_transform max_length prefix suffix [] = []
    title_transform max_length prefix suffix (r ∷ rs) =
        (if not (str_eq (titled max_length prefix suffix (fields.title r)) (fields.title r))
          then fields.with_title r (titled max_length prefix suffix (fields.title r))
          else r)
        ∷ title_transform max_length prefix suffix rs

  -- `snippet_transform`
  abbrev pub snippet_transform : List R → List R
  snippet_transform results = results

  -- The loop of `dedup_transform`; `value` is `str(getattr(result, dedup_field, ""))`.
  unfoldable pub dedup_from : (R → Str) → List Str → List R → List R
  dedup_from value seen [] = []
  dedup_from value seen (r ∷ rs) =
      let known = dedup_from value seen rs in
      let new = dedup_from value (value r ∷ seen) rs in
      if not (is_in (value r) seen) then r ∷ new else known

  -- `dedup_transform`
  unfoldable pub dedup_transform : (R → Str) → List R → List R
  unfolding dedup_from
  dedup_transform value results = dedup_from value [] results
