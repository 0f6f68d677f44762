-- ===== src/Text/Examples.antt =====
-- Tests and an instance for the texts.
use zinqq_kmp.Common.{◌-◌, ◌^◌, ◌≡◌, refl, some, none, [], ◌∷◌, arith}
use zinqq_kmp.Text.Hex.{hex_str, decode_hex, decode_hex-hex_str, hex_digit, hex_value, radix_pair}
use zinqq_kmp.Text.Decimal.{to_string, parse_u64, write_digits, read_digits, after_plus}

written : hex_str (0 ∷ 255 ∷ 26 ∷ []) ≡ "00ff1a"
unfolding hex_str hex_digit
written = refl

odd : decode_hex "abc" ≡ none
unfolding decode_hex radix_pair hex_value
odd = refl

-- `from_str_radix` takes a plus.
plus : decode_hex "+fFF" ≡ some (15 ∷ 255 ∷ [])
unfolding decode_hex radix_pair hex_value
plus = refl

decimal : to_string 900210 ≡ "900210"
unfolding to_string write_digits hex_digit
decimal = refl

parsed : parse_u64 "+18446744073709551615" ≡ some (2 ^ 64 - 1)
unfolding parse_u64 read_digits after_plus hex_value
parsed = refl

too_large : parse_u64 "18446744073709551616" ≡ none
unfolding parse_u64 read_digits after_plus hex_value
too_large = refl

decode_hex-hex_str_example : decode_hex (hex_str (222 ∷ 173 ∷ [])) ≡ some (222 ∷ 173 ∷ [])
decode_hex-hex_str_example = decode_hex-hex_str (222 ∷ 173 ∷ []) (omega arith)
