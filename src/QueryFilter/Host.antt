-- ===== src/QueryFilter/Host.antt =====
-- What the query filter takes from Python itself: the Unicode classes of characters, lower-casing,
-- and floats. `F` is the type of floats.
use verisearch.Prelude.{ℕ, Bool, Option, Str}

pub record Host (F : Type 0) : Type 0 where
  -- `ch.isalpha()`, `ch.isalnum()`, `ch.isdigit()`, `ch.isspace()` of one character
  pub is_alpha : ℕ → Bool
  pub is_alnum : ℕ → Bool
  pub is_digit : ℕ → Bool
  pub is_space : ℕ → Bool
  -- `\d` of a regular expression
  pub is_decimal : ℕ → Bool
  -- `s.lower()`
  pub lower : Str → Str
  -- `float(s)`, `none` for a `ValueError`
  pub float : Str → Option F
