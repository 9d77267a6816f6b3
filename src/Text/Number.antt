-- ===== src/Text/Number.antt =====
-- strconv.ParseInt and FormatInt, and SetString of big.Int, for a base that is given: a sign, and
-- then digits with no separator.
pub mod Laws
use payrune.Prelude.{
  ℕ, zero, suc, ◌+◌, ◌-◌, ◌*◌, ◌/◌, ◌%◌, ◌^◌, ◌≤◌, ◌<◌, ◌≡◌, refl, ◌∙◌, ap, Bool, true, false,
  Bool-cases, inl, inr, ◌&&◌, Option, none, some, [], ◌∷◌, leb, ltb, ◌==◌, if◌then◌else◌, arith,
}
use payrune.Prelude.Int.{ℤ, pos, negsuc}
use payrune.Text.{Text}

-- '0' to '9', and then the letters of either case.
unfoldable pub digit_value : ℕ → Option ℕ
digit_value c =
    if leb b'0' c && leb c b'9'
    then some (c - b'0')
    else if leb b'a' c && leb c b'z'
    then some (c - b'a' + 10)
    else if leb b'A' c && leb c b'Z'
    then some (c - b'A' + 10)
    else none

unfoldable pub digits_from : ℕ → ℕ → Text → Option ℕ
unfolding digit_value
digits_from base n [] = some n
digits_from base n (c ∷ s) = elim (digit_value c) [
  | none ↦ none
  | some d ↦ elim (ltb d base) [ true ↦ digits_from base (n * base + d) s | false ↦ none ]
]

-- At least one digit.
unfoldable pub natural : ℕ → Text → Option ℕ
unfolding digits_from
natural base [] = none
natural base (c ∷ s) = digits_from base 0 (c ∷ s)

abbrev pub negated : ℕ → ℤ
negated zero = pos 0
negated (suc n) = negsuc n

-- With an optional sign, as SetString reads it.
unfoldable pub integer : ℕ → Text → Option ℤ
unfolding natural
integer base [] = none
integer base (c ∷ s) =
    if c == b'-'
    then elim (natural base s) [ none ↦ none | some n ↦ some (negated n) ]
    else elim (natural base (if c == b'+' then s else c ∷ s)) [
      | none ↦ none
      | some n ↦ some (pos n)
    ]

-- IsInt64, and the range error of ParseInt.
unfoldable pub to_int64 : ℤ → Option ℤ
to_int64 (pos n) = if ltb n (2 ^ 63) then some (pos n) else none
to_int64 (negsuc n) = if ltb n (2 ^ 63) then some (negsuc n) else none

-- strconv.ParseInt with 64 bits
unfoldable pub parse_int64 : ℕ → Text → Option ℤ
unfolding integer to_int64
parse_int64 base s = elim (integer base s) [ none ↦ none | some z ↦ to_int64 z ]

-- One hexadecimal digit.
unfoldable pub hex_digit : ℕ → ℕ
hex_digit d = if ltb d 10 then d + b'0' else d - 10 + b'a'

-- The digits of a number before others; 16 are enough for an int64.
unfoldable pub hex_digits : ℕ → ℕ → Text → Text
unfolding hex_digit
hex_digits zero n after = after
hex_digits (suc fuel) n after = elim (n / 16 == 0) [
  | true ↦ hex_digit (n % 16) ∷ after
  | false ↦ hex_digits fuel (n / 16) (hex_digit (n % 16) ∷ after)
]

-- strconv.FormatInt with base 16
unfoldable pub format_hex : ℤ → Text
unfolding hex_digits
format_hex (pos n) = hex_digits 16 n []
format_hex (negsuc n) = b'-' ∷ hex_digits 16 (suc n) []
