-- ===== src/Text.antt =====
-- Go strings as lists of code points, and what the program calls of package strings:
-- TrimSpace, ToLower, TrimSuffix and HasPrefix, with unicode.IsSpace in full. `lower` maps the
-- ASCII letters and the two other code points whose lower case is ASCII (U+0130 and U+212A); any
-- further letter stays as it is here, where Go maps it to another code point outside ASCII.
pub mod Laws
pub mod Id
pub mod Number
pub mod Escape
use Prim.Native.Char.{code}
use Prim.Native.String.{String}
use payrune.Prelude.{
  ℕ, ◌+◌, Bool, true, false, not, ◌&&◌, ◌||◌, Option, none, some, List, [], ◌∷◌, reverse, map, leb,
  ltb, ◌==◌, if◌then◌else◌,
}

abbrev pub Text : Type 0
Text = List ℕ

-- The code points of a literal.
abbrev pub codes : String → Text
codes String.[] = []
codes (String.◌∷◌ c s) = code c ∷ codes s

infix 50 ◌==ᵗ◌
abbrev pub ◌==ᵗ◌ : Text → Text → Bool
[] ==ᵗ [] = true
[] ==ᵗ (_ ∷ _) = false
(_ ∷ _) ==ᵗ [] = false
(a ∷ s) ==ᵗ (b ∷ t) = a == b && s ==ᵗ t

abbrev pub is_empty : Text → Bool
is_empty [] = true
is_empty (_ ∷ _) = false

-- unicode.IsSpace
unfoldable pub is_space : ℕ → Bool
is_space c =
    (leb 9 c && leb c 13)
    || c == 32
    || c == 0x85
    || c == 0xa0
    || c == 0x1680
    || (leb 0x2000 c && leb c 0x200a)
    || c == 0x2028
    || c == 0x2029
    || c == 0x202f
    || c == 0x205f
    || c == 0x3000

unfoldable pub trim_left : Text → Text
trim_left [] = []
trim_left (c ∷ s) = if is_space c then trim_left s else c ∷ s

-- strings.TrimSpace
unfoldable pub trim_space : Text → Text
trim_space s = reverse (trim_left (reverse (trim_left s)))

unfoldable pub lower : ℕ → ℕ
lower c =
    if leb b'A' c && leb c b'Z'
    then c + 32
    else if c == 0x130
    then b'i'
    else if c == 0x212a
    then b'k'
    else c

-- strings.ToLower
unfoldable pub to_lower : Text → Text
to_lower s = map lower s

-- The rest of a text behind a prefix.
unfoldable pub strip_prefix : Text → Text → Option Text
strip_prefix [] s = some s
strip_prefix (_ ∷ _) [] = none
strip_prefix (a ∷ p) (b ∷ s) = if a == b then strip_prefix p s else none

-- strings.TrimSuffix: at most one occurrence goes.
unfoldable pub trim_suffix : Text → Text → Text
trim_suffix s suffix = elim (strip_prefix (reverse suffix) (reverse s)) [
  | none ↦ s
  | some rest ↦ reverse rest
]

-- The number of bytes of a code point in UTF-8, and Go's len.
abbrev pub byte_count : ℕ → ℕ
byte_count c = if ltb c 0x80 then 1 else if ltb c 0x800 then 2 else if ltb c 0x10000 then 3 else 4

unfoldable pub byte_len : Text → ℕ
byte_len [] = 0
byte_len (c ∷ s) = byte_count c + byte_len s
