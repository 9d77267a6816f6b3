-- ===== src/Text/Escape.antt =====
-- url.PathEscape: the UTF-8 bytes of a text, the unreserved and six further ASCII characters as they
-- are and every other byte as a percent sign and two digits.
use payrune.Prelude.{
  ℕ, ◌+◌, ◌-◌, ◌/◌, ◌%◌, Bool, ◌&&◌, ◌||◌, [], ◌∷◌, ◌++◌, leb, ltb, ◌==◌, any, if◌then◌else◌,
}
use payrune.Text.{Text, codes}

-- The bytes of a code point.
unfoldable pub utf8 : ℕ → Text
utf8 c =
    if ltb c 0x80
    then c ∷ []
    else if ltb c 0x800
    then (0xc0 + c / 64) ∷ (0x80 + c % 64) ∷ []
    else if ltb c 0x10000
    then (0xe0 + c / 4096) ∷ (0x80 + c / 64 % 64) ∷ (0x80 + c % 64) ∷ []
    else (0xf0 + c / 262144) ∷ (0x80 + c / 4096 % 64) ∷ (0x80 + c / 64 % 64) ∷ (0x80 + c % 64) ∷ []

abbrev pub is_plain : ℕ → Bool
is_plain b =
    (leb b'a' b && leb b b'z')
    || (leb b'A' b && leb b b'Z')
    || (leb b'0' b && leb b b'9')
    || any (λ p. b == p) (codes "-_.~$&+=:@")

abbrev pub upper_hex : ℕ → ℕ
upper_hex d = if ltb d 10 then d + b'0' else d - 10 + b'A'

unfoldable pub escape_bytes : Text → Text
escape_bytes [] = []
escape_bytes (b ∷ rest) =
    (if is_plain b then b ∷ [] else b'%' ∷ upper_hex (b / 16) ∷ upper_hex (b % 16) ∷ [])
    ++ escape_bytes rest

unfoldable pub path_escape : Text → Text
unfolding utf8 escape_bytes
path_escape [] = []
path_escape (c ∷ s) = escape_bytes (utf8 c) ++ path_escape s
