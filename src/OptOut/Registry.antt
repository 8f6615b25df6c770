-- ===== src/OptOut/Registry.antt =====
-- backend/crawler/opt_out.py: `OptOutRegistry`. `domain.lower().strip()` is a parameter, and a time is
-- an argument, in seconds.
use verisearch.Prelude.{ℕ, ◌+◌, Bool, true, false, Option, none, some, List, [], map, leb, Str}
use verisearch.Prelude.Dict.{Dict, lookup, insert, remove}

-- `_registry`: when each domain opted out
abbrev pub Registry : Type 0
Registry = Dict ℕ

-- 24 hours
abbrev pub activation_window : ℕ
activation_window = 86400

module _ (normal : Str → Str) where
  -- `register_opt_out`
  unfoldable pub register_opt_out : Str → ℕ → Registry → Registry
  register_opt_out domain now r = elim (lookup (normal domain) r) [
    | none ↦ insert (normal domain) now r
    | some t ↦ r
  ]

  -- `is_opted_out`
  unfoldable pub is_opted_out : Str → ℕ → Registry → Bool
  is_opted_out domain now r = elim (lookup (normal domain) r) [
    | none ↦ false
    | some t ↦ leb (t + activation_window) now
  ]

  -- `get_opt_out_time`
  unfoldable pub get_opt_out_time : Str → Registry → Option ℕ
  get_opt_out_time domain r = lookup (normal domain) r

  -- `remove_opt_out`
  unfoldable pub remove_opt_out : Str → Registry → Bool × Registry
  remove_opt_out domain r =
      (elim (lookup (normal domain) r) [ none ↦ false | some t ↦ true ], remove (normal domain) r)

-- `registered_domains`
abbrev pub registered_domains : Registry → List Str
registered_domains r = map (λ e. e.0) r

-- `clear`
abbrev pub clear : Registry → Registry
clear r = []
