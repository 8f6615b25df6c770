-- ===== src/QueryFilter/Ascii.antt =====
-- A concrete host for tests: the ASCII classes of characters, and floats kept as their text.
use verisearch.Prelude.{ℕ, ◌+◌, Bool, ◌&&◌, ◌||◌, some, map, ◌==◌, leb, if◌then◌else◌, Str}
use verisearch.QueryFilter.Host.{Host}

abbrev is_lower : ℕ → Bool
is_lower c = leb b'a' c && leb c b'z'

abbrev is_upper : ℕ → Bool
is_upper c = leb b'A' c && leb c b'Z'

abbrev is_digit : ℕ → Bool
is_digit c = leb b'0' c && leb c b'9'

abbrev is_letter : ℕ → Bool
is_letter c = is_lower c || is_upper c

abbrev is_space : ℕ → Bool
is_space c = c == 32 || leb 9 c && leb c 13

abbrev lower_char : ℕ → ℕ
lower_char c = if is_upper c then c + 32 else c

abbrev pub ascii : Host Str
ascii = record {
  is_alpha = is_letter;
  is_alnum = λ c. is_letter c || is_digit c;
  is_digit = is_digit;
  is_space = is_space;
  is_decimal = is_digit;
  lower = map lower_char;
  float = λ s. some s;
}
