-- ===== src/Text/Decimal.antt =====
-- Rust's `to_string` of a `u64`, which has at most 20 digits, and `parse::<u64>`.
use zinqq_kmp.Common.{
  ℕ, zero, suc, ◌+◌, ◌*◌, ◌/◌, ◌%◌, ◌^◌, String, Bool, true, false, Option, none, some, ◌==◌, ltb,
  if◌then◌else◌,
}
use Prim.Native.Char.{code}
use zinqq_kmp.Text.Hex.{hex_digit, hex_value}

unfoldable pub write_digits : ℕ → ℕ → String → String
write_digits zero n rest = rest
write_digits (suc fuel) n rest =
    let longer = write_digits fuel (n / 10) (String.◌∷◌ (hex_digit (n % 10)) rest) in
    if ltb n 10 then String.◌∷◌ (hex_digit n) rest else longer

unfoldable pub to_string : ℕ → String
unfolding write_digits
to_string n = write_digits 20 n ""

-- one more decimal digit
abbrev next_digit : ℕ → Option ℕ → Option ℕ
next_digit value none = none
next_digit value (some d) = if ltb d 10 then some (value * 10 + d) else none

abbrev and_then : Option ℕ → (ℕ → Option ℕ) → Option ℕ
and_then none k = none
and_then (some a) k = k a

unfoldable pub read_digits : String → ℕ → Option ℕ
unfolding hex_value
read_digits String.[] value = some value
read_digits (String.◌∷◌ c s) value =
    and_then (next_digit value (hex_value (code c))) (read_digits s)

unfoldable pub after_plus : String → String
after_plus String.[] = ""
after_plus (String.◌∷◌ c s) = if code c == b'+' then s else String.◌∷◌ c s

abbrev is_empty_text : String → Bool
is_empty_text String.[] = true
is_empty_text (String.◌∷◌ c s) = false

abbrev as_u64 : Option ℕ → Option ℕ
as_u64 none = none
as_u64 (some n) = if ltb n (2 ^ 64) then some n else none

unfoldable pub parse_u64 : String → Option ℕ
unfolding read_digits after_plus
parse_u64 s = if is_empty_text (after_plus s) then none else as_u64 (read_digits (after_plus s) 0)
