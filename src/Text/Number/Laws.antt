-- ===== src/Text/Number/Laws.antt =====
-- What is printed in base 16 is read back.
use payrune.Prelude.{
  ℕ, zero, suc, ◌+◌, ◌*◌, ◌/◌, ◌%◌, ◌^◌, ◌≤◌, ◌<◌, ◌≡◌, refl, ◌∙◌, ap, true, false, Bool-cases, inl,
  inr, none, some, [], ◌∷◌, ltb, ◌==◌, if◌then◌else◌, arith,
}
use payrune.Prelude.Int.{ℤ, pos, IsInt64, negsuc}
use payrune.Text.{Text}
use payrune.Prelude.Rows.{both_steps}
use payrune.Text.Number.{
  digits_from, format_hex, hex_digits, hex_digit, integer, natural, parse_int64, to_int64, negated,
  digit_value,
}

abbrev hex_bound : ℕ → ℕ
hex_bound zero = 1
hex_bound (suc fuel) = 16 * hex_bound fuel

digit_value-hex_digit : (d : ℕ) → d < 16 → digit_value (hex_digit d) ≡ some d
unfolding digit_value hex_digit
digit_value-hex_digit d h = ground arith

below : (a b : ℕ) → a < b → ltb a b ≡ true
below a b h = ground arith

digits_from-step :
    (base n c : ℕ) (s : Text)
    → digits_from base n (c ∷ s) ≡ elim (digit_value c) [
      | none ↦ none
      | some d ↦ elim (ltb d base) [ true ↦ digits_from base (n * base + d) s | false ↦ none ]
    ]
unfolding digits_from
digits_from-step base n c s = refl

digits_from-cons :
    (n d c : ℕ) (s : Text)
    → digit_value c ≡ some d
    → d < 16
    → digits_from 16 n (c ∷ s) ≡ digits_from 16 (n * 16 + d) s
digits_from-cons n d c s v h = rw (digits_from-step 16 n c s) (rw v (rw (below d 16 h) refl))

digits_from-hex_digit :
    (n d : ℕ) (s : Text)
    → d < 16
    → digits_from 16 n (hex_digit d ∷ s) ≡ digits_from 16 (n * 16 + d) s
digits_from-hex_digit n d s h = digits_from-cons n d (hex_digit d) s (digit_value-hex_digit d h) h

module _ (fuel n : ℕ) (after : Text) where
  no_more : n < 16 → n / 16 == 0 ≡ true
  no_more h = ground arith

  some_more : 16 ≤ n → n / 16 == 0 ≡ false
  some_more h = ground arith

  hex_digits-last : n < 16 → hex_digits (suc fuel) n after ≡ hex_digit (n % 16) ∷ after
  unfolding hex_digits
  hex_digits-last h = rw (no_more h, hex_digits) refl

  hex_digits-more :
      16 ≤ n → hex_digits (suc fuel) n after ≡ hex_digits fuel (n / 16) (hex_digit (n % 16) ∷ after)
  unfolding hex_digits
  hex_digits-more h = rw (some_more h, hex_digits) refl

digits_from-hex_digits :
    (fuel n : ℕ) (after : Text)
    → n < 16 * hex_bound fuel
    → digits_from 16 0 (hex_digits (suc fuel) n after) ≡ digits_from 16 n after
digits_from-hex_digits zero n after h = rw (hex_digits-last zero n after (omega arith)) (
    digits_from-hex_digit 0 (n % 16) after (omega arith)
    ∙ ap (λ m. digits_from 16 m after) (omega arith))
digits_from-hex_digits (suc fuel) n after h = elim (Bool-cases (ltb n 16)) [
  | inl small ↦ rw (hex_digits-last (suc fuel) n after (ground arith)) (
      digits_from-hex_digit 0 (n % 16) after (omega arith)
      ∙ ap (λ m. digits_from 16 m after) (ground arith))
  | inr large ↦ rw (hex_digits-more (suc fuel) n after (ground arith)) (
      digits_from-hex_digits fuel (n / 16) (hex_digit (n % 16) ∷ after) (omega (arith, h))
      ∙ digits_from-hex_digit (n / 16) (n % 16) after (omega arith)
      ∙ ap (λ m. digits_from 16 m after) (omega arith))
]

-- A number has a first digit.
hex_digits-cons :
    (fuel n : ℕ) (after : Text)
    → (d : ℕ) × (s : Text) × (d < 16) × (hex_digits (suc fuel) n after ≡ hex_digit d ∷ s)
unfolding hex_digits
hex_digits-cons zero n after = elim (Bool-cases (ltb n 16)) [
  | inl small ↦ (n % 16, after, omega arith, hex_digits-last zero n after (ground arith))
  | inr large ↦ (n % 16, after, omega arith, hex_digits-more zero n after (ground arith))
]
hex_digits-cons (suc fuel) n after = elim (Bool-cases (ltb n 16)) [
  | inl small ↦ (n % 16, after, omega arith, hex_digits-last (suc fuel) n after (ground arith))
  | inr large ↦
      let (d, s, below_16, e) = hex_digits-cons fuel (n / 16) (hex_digit (n % 16) ∷ after) in
      (d, s, below_16, hex_digits-more (suc fuel) n after (ground arith) ∙ e)
]

sign_free : (d : ℕ) → d < 16 → (hex_digit d == b'-' ≡ false) × (hex_digit d == b'+' ≡ false)
unfolding hex_digit
sign_free d h = (ground arith, ground arith)

integer-step :
    (c : ℕ) (s : Text)
    → integer 16 (c ∷ s) ≡ (
        if c == b'-'
        then elim (natural 16 s) [ none ↦ none | some n ↦ some (negated n) ]
        else elim (natural 16 (if c == b'+' then s else c ∷ s)) [
          | none ↦ none
          | some n ↦ some (pos n)
        ])
unfolding integer
integer-step c s = refl

natural-step : (c : ℕ) (s : Text) → natural 16 (c ∷ s) ≡ digits_from 16 0 (c ∷ s)
unfolding natural
natural-step c s = refl

integer-hex_digit :
    (d : ℕ) (s : Text) (n : ℕ)
    → d < 16
    → digits_from 16 0 (hex_digit d ∷ s) ≡ some n
    → integer 16 (hex_digit d ∷ s) ≡ some (pos n)
integer-hex_digit d s n h e =
    let (no_minus, no_plus) = sign_free d h in
    rw (integer-step (hex_digit d) s)
      (rw no_minus (rw no_plus (rw (natural-step (hex_digit d) s) (rw e refl))))

digits_from-end : (n : ℕ) → digits_from 16 n [] ≡ some n
unfolding digits_from
digits_from-end n = refl

format_hex-pos : (n : ℕ) → format_hex (pos n) ≡ hex_digits 16 n []
unfolding format_hex
format_hex-pos n = refl

to_int64-pos : (n : ℕ) → n < 2 ^ 63 → to_int64 (pos n) ≡ some (pos n)
unfolding to_int64
to_int64-pos n h = ground arith

parse_int64-step :
    (s : Text) (z : ℤ) → integer 16 s ≡ some z → to_int64 z ≡ some z → parse_int64 16 s ≡ some z
unfolding parse_int64
parse_int64-step s z h fits = rw (h, parse_int64) fits

-- What FormatInt prints of an int64 that is not negative, SetString and ParseInt read back.
pub parse_int64-format_hex :
    (n : ℕ) → n < 2 ^ 63 → parse_int64 16 (format_hex (pos n)) ≡ some (pos n)
parse_int64-format_hex n h =
    let (d, s, small, e) = hex_digits-cons 15 n [] in
    let digits : digits_from 16 0 (hex_digit d ∷ s) ≡ some n =
      rw (← e) (digits_from-hex_digits 15 n [] (omega arith) ∙ digits_from-end n) in
    let read : integer 16 (hex_digit d ∷ s) ≡ some (pos n) = integer-hex_digit d s n small digits in
    parse_int64-step (format_hex (pos n)) (pos n) (rw (format_hex-pos n) (rw e read))
      (to_int64-pos n h)

to_int64-IsInt64 : (y : ℤ) {z : ℤ} → to_int64 y ≡ some z → IsInt64 z
unfolding to_int64
to_int64-IsInt64 (pos n) h = ground arith
to_int64-IsInt64 (negsuc n) h = ground arith

pub parse_int64-IsInt64 : (base : ℕ) (s : Text) {z : ℤ} → parse_int64 base s ≡ some z → IsInt64 z
unfolding parse_int64
parse_int64-IsInt64 base s h =
    let (y, read, fits) = both_steps (integer base s) to_int64 h in to_int64-IsInt64 y fits
