-- ===== src/Auth/Cache.antt =====
-- backend/auth/service.py: `_TTLCache`. A time is a reading of the monotonic clock.
use verisearch.Prelude.{
  ℕ, ◌+◌, ◌&&◌, Bool, true, false, Option, none, some, List, [], ltb, leb, if◌then◌else◌, length,
  Str,
}
use verisearch.Prelude.Deque.{drop_first}
use verisearch.Prelude.Dict.{Dict, lookup, insert, remove}
use verisearch.Auth.Keys.{KeyRow}

-- `_CacheEntry`
pub record CacheEntry : Type 0 where
  pub rows : List KeyRow
  pub expires_at : ℕ

-- `_TTLCache`
pub record TtlCache : Type 0 where
  pub ttl_seconds : ℕ
  pub max_size : ℕ
  pub store : Dict CacheEntry

abbrev pub is_absent : {A : Type 0} → Option A → Bool
is_absent none = true
is_absent (some a) = false

-- `get`
unfoldable pub get : Str → ℕ → TtlCache → Option (List KeyRow) × TtlCache
get prefix tick c = elim (lookup prefix c.store) [
  | none ↦ (none, c)
  | some entry ↦
      if ltb entry.expires_at tick
      then (none, record c { store = remove prefix c.store })
      else (some entry.rows, c)
]

-- The store of `put` after making room: the entry that was put first goes.
unfoldable pub with_room : Str → TtlCache → Dict CacheEntry
with_room prefix c =
    if leb c.max_size (length c.store) && is_absent (lookup prefix c.store)
    then drop_first c.store
    else c.store

-- `put`
unfoldable pub put : Str → List KeyRow → ℕ → TtlCache → TtlCache
unfolding with_room
put prefix rows tick c = record c {
  store =
      insert prefix (record { rows = rows; expires_at = tick + c.ttl_seconds })
        (with_room prefix c);
}

-- `invalidate`
unfoldable pub invalidate : Str → TtlCache → TtlCache
invalidate prefix c = record c { store = remove prefix c.store }

-- `clear`
abbrev pub emptied : TtlCache → TtlCache
emptied c = record c { store = [] }
