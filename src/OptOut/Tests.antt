-- ===== src/OptOut/Tests.antt =====
-- The theorems on opt-outs at domains that are in lower case already.
use verisearch.Prelude.{
  ℕ, ◌+◌, false, List, [], ◌∷◌, leb, if◌then◌else◌, Str, str_eq, codes, ◌≡◌, refl,
}
use verisearch.OptOut.Registry.{Registry, register_opt_out, is_opted_out, remove_opt_out}
use verisearch.OptOut.Window.{register_all, is_opted_out-register_all, is_opted_out-remove_opt_out}

abbrev same : Str → Str
same s = s

abbrev later_ones : List (Str × ℕ)
later_ones = (codes "b.com", 9) ∷ (codes "a.com", 10) ∷ []

abbrev registered : Registry
registered = (codes "b.com", 1) ∷ []

is_opted_out-register_all_example :
    is_opted_out same
      (codes "a.com")
      86405
      (register_all same later_ones (register_opt_out same (codes "a.com") 5 registered))
    ≡ leb (5 + 86400) 86405
is_opted_out-register_all_example =
    is_opted_out-register_all same (codes "a.com") 5 86405 later_ones registered refl

is_opted_out-remove_opt_out_example :
    is_opted_out same (codes "b.com") 90000 (remove_opt_out same (codes "b.com") registered).1 ≡ (
      if str_eq (codes "b.com") (codes "b.com")
      then false
      else is_opted_out same (codes "b.com") 90000 registered)
is_opted_out-remove_opt_out_example =
    is_opted_out-remove_opt_out same (codes "b.com") (codes "b.com") 90000 registered
