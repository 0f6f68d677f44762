-- ===== src/Text/Hex.antt =====
-- rust/src/util.rs, `hex_str`, and rust/src/sweep.rs, `decode_hex`. A text with a character outside ASCII
-- decodes to nothing (the source may panic when it cuts one).
use zinqq_kmp.Common.{
  ℕ, ◌+◌, ◌-◌, ◌*◌, ◌/◌, ◌%◌, ◌<◌, String, ◌≡◌, refl, Bool, true, false, ◌&&◌, Option, none, some,
  List, [], ◌∷◌, All, arith, ap, zero, suc, not, Option-cases, inl, inr, ◌==◌, leb, if◌then◌else◌,
}
use Prim.Native.Char.{Char, code}

-- `{:x}` of a number below 16
unfoldable pub hex_digit : ℕ → Char
hex_digit n =
    if n == 0
    then "0"
    else if n == 1
    then "1"
    else if n == 2
    then "2"
    else if n == 3
    then "3"
    else if n == 4
    then "4"
    else if n == 5
    then "5"
    else if n == 6
    then "6"
    else if n == 7
    then "7"
    else if n == 8
    then "8"
    else if n == 9
    then "9"
    else if n == 10
    then "a"
    else if n == 11
    then "b"
    else if n == 12
    then "c"
    else if n == 13
    then "d"
    else if n == 14
    then "e"
    else "f"

unfoldable pub hex_str : List ℕ → String
unfolding hex_digit
hex_str [] = ""
hex_str (byte ∷ bytes) =
    String.◌∷◌ (hex_digit (byte / 16)) (String.◌∷◌ (hex_digit (byte % 16)) (hex_str bytes))

-- `to_digit(16)`, of a code point
unfoldable pub hex_value : ℕ → Option ℕ
hex_value c =
    if leb b'0' c && leb c b'9'
    then some (c - b'0')
    else if leb b'a' c && leb c b'f'
    then some (c - b'a' + 10)
    else if leb b'A' c && leb c b'F'
    then some (c - b'A' + 10)
    else none

abbrev two_digits : Option ℕ → Option ℕ → Option ℕ
two_digits none y = none
two_digits (some x) none = none
two_digits (some x) (some y) = some (x * 16 + y)

-- `u8::from_str_radix(…, 16)` of two characters, which may begin with a plus
unfoldable pub radix_pair : ℕ → ℕ → Option ℕ
unfolding hex_value
radix_pair c d = if c == b'+' then hex_value d else two_digits (hex_value c) (hex_value d)

abbrev pub before : Option ℕ → Option (List ℕ) → Option (List ℕ)
before none bytes = none
before (some b) none = none
before (some b) (some bytes) = some (b ∷ bytes)

unfoldable pub decode_hex : String → Option (List ℕ)
unfolding radix_pair
decode_hex String.[] = some []
decode_hex (String.◌∷◌ c String.[]) = none
decode_hex (String.◌∷◌ c (String.◌∷◌ d rest)) =
    before (radix_pair (code c) (code d)) (decode_hex rest)

abbrev is_value : Option ℕ → ℕ → Bool
is_value none n = false
is_value (some m) n = m == n

some_of_is_value : (o : Option ℕ) (n : ℕ) → is_value o n ≡ true → o ≡ some n
some_of_is_value none n h = cc
some_of_is_value (some m) n h = ground arith

-- Every value below `n` passes.
all_below : ℕ → (ℕ → Bool) → Bool
all_below zero p = true
all_below (suc n) p = p n && all_below n p

below_all : (n : ℕ) (p : ℕ → Bool) (x : ℕ) → all_below n p ≡ true → x < n → p x ≡ true
unfolding all_below
below_all zero p x h lt = absurd (omega arith)
below_all (suc n) p x h lt = ground (arith, below_all n p x)

abbrev reads_back : ℕ → Bool
reads_back n = is_value (hex_value (code (hex_digit n))) n && not (code (hex_digit n) == b'+')

digits_read_back : all_below 16 reads_back ≡ true
unfolding all_below hex_value hex_digit
digits_read_back = refl

digit_reads_back : (n : ℕ) → n < 16 → reads_back n ≡ true
digit_reads_back n h = below_all 16 reads_back n digits_read_back h

hex_value-hex_digit : (n : ℕ) → n < 16 → hex_value (code (hex_digit n)) ≡ some n
hex_value-hex_digit n h =
    some_of_is_value (hex_value (code (hex_digit n))) n (ground (arith, digit_reads_back n h))

hex_digit-ne-plus : (n : ℕ) → n < 16 → (code (hex_digit n) == b'+') ≡ false
hex_digit-ne-plus n h = ground (arith, digit_reads_back n h)

radix_pair-hex_digit :
    (b : ℕ) → b < 256 → radix_pair (code (hex_digit (b / 16))) (code (hex_digit (b % 16))) ≡ some b
unfolding radix_pair
radix_pair-hex_digit b h =
    let high : b / 16 < 16 = omega arith in
    let low : b % 16 < 16 = omega arith in
    rw
      (
        hex_digit-ne-plus (b / 16) high,
        hex_value-hex_digit (b / 16) high,
        hex_value-hex_digit (b % 16) low,
      )
      (ap some (omega arith))

-- Bytes survive the text: what `hex_str` writes of bytes, `decode_hex` reads back.
pub decode_hex-hex_str :
    (bytes : List ℕ) → All (λ b. b < 256) bytes → decode_hex (hex_str bytes) ≡ some bytes
unfolding decode_hex hex_str
decode_hex-hex_str [] h = refl
decode_hex-hex_str (b ∷ bytes) h =
    rw (radix_pair-hex_digit b h.0, decode_hex-hex_str bytes h.1) refl

hex_value-lt : (c n : ℕ) → hex_value c ≡ some n → n < 16
unfolding hex_value
hex_value-lt c n h = ground arith

radix_pair-lt : (c d n : ℕ) → radix_pair c d ≡ some n → n < 256
unfolding radix_pair
radix_pair-lt c d n h = elim (Option-cases (hex_value c)) [
  | inl none_c ↦ elim (Option-cases (hex_value d)) [
    | inl none_d ↦ ground (arith, none_c, none_d)
    | inr (y, some_d) ↦ ground (arith, none_c, some_d, hex_value-lt d y some_d)
  ]
  | inr (x, some_c) ↦ elim (Option-cases (hex_value d)) [
    | inl none_d ↦ ground (arith, some_c, none_d)
    | inr (y, some_d) ↦
        ground (arith, some_c, some_d, hex_value-lt c x some_c, hex_value-lt d y some_d)
  ]
]

before_parts :
    (b : Option ℕ) (r : Option (List ℕ)) (bytes : List ℕ)
    → before b r ≡ some bytes
    → (x : ℕ) × (xs : List ℕ) × (b ≡ some x) × (r ≡ some xs) × (bytes ≡ x ∷ xs)
before_parts none r bytes h = cc
before_parts (some x) none bytes h = cc
before_parts (some x) (some xs) bytes h = (x, xs, refl, refl, cc)

-- What is decoded is bytes.
pub decode_hex_bytes :
    (text : String) (bytes : List ℕ) → decode_hex text ≡ some bytes → All (λ b. b < 256) bytes
unfolding decode_hex
decode_hex_bytes String.[] [] h = tt
decode_hex_bytes String.[] (b ∷ bytes) h = cc
decode_hex_bytes (String.◌∷◌ c String.[]) bytes h = cc
decode_hex_bytes (String.◌∷◌ c (String.◌∷◌ d rest)) bytes h =
    let (x, xs, first, more, all) =
      before_parts (radix_pair (code c) (code d)) (decode_hex rest) bytes h in
    rw all (radix_pair-lt (code c) (code d) x first, decode_hex_bytes rest xs more)
