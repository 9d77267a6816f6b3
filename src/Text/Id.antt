-- ===== src/Text/Id.antt =====
-- The identifiers that the domain and the outbound ports both accept: domain/valueobjects
-- (ParseChainID, ParseNetworkID, parseAddressPolicyID) and application/ports/outbound/validation.go.
use payrune.Prelude.{
  ℕ, ◌≡◌, refl, Bool, true, false, ◌&&◌, ◌||◌, Option, none, some, [], ◌∷◌, arith, all, leb, ltb,
  ◌==◌, if◌then◌else◌,
}
use payrune.Text.{Text, is_empty, is_space, trim_space, lower, to_lower, byte_len}
use payrune.Text.Laws.{is_solid, is_low, trim_space-solid, to_lower-low}

abbrev pub max_id_length : ℕ
max_id_length = 64

-- The character test of the four loops.
unfoldable pub is_id_char : ℕ → Bool
is_id_char c = (leb b'a' c && leb c b'z') || (leb b'0' c && leb c b'9') || c == b'_' || c == b'-'

-- isPortableID
unfoldable pub is_portable_id : Text → Bool
is_portable_id value =
    if is_empty value || ltb max_id_length (byte_len value) then false else all is_id_char value

-- ParseChainID, ParseNetworkID and parseAddressPolicyID have one body.
unfoldable pub parse_id : Text → Option Text
unfolding is_portable_id
parse_id raw =
    let normalized = to_lower (trim_space raw) in
    if is_empty normalized || ltb max_id_length (byte_len normalized)
    then none
    else if all is_id_char normalized
    then some normalized
    else none

is_id_char_solid : (c : ℕ) → is_id_char c ≡ true → is_space c ≡ false
unfolding is_id_char is_space
is_id_char_solid c h = ground arith

is_id_char_low : (c : ℕ) → is_id_char c ≡ true → lower c ≡ c
unfolding is_id_char lower
is_id_char_low c h = ground arith

id_is_solid : (s : Text) → all is_id_char s ≡ true → is_solid s ≡ true
id_is_solid [] h = refl
id_is_solid (c ∷ s) h = ground (arith, is_id_char_solid c, id_is_solid s)

id_is_low : (s : Text) → all is_id_char s ≡ true → is_low s ≡ true
id_is_low [] h = refl
id_is_low (c ∷ s) h = ground (arith, is_id_char_low c, id_is_low s)

-- An identifier is its own normal form.
pub portable_normal : (s : Text) → is_portable_id s ≡ true → to_lower (trim_space s) ≡ s
unfolding is_portable_id
portable_normal s h =
    let chars : all is_id_char s ≡ true = ground arith in
    rw (trim_space-solid s (id_is_solid s chars)) (to_lower-low s (id_is_low s chars))

-- `parse_id` accepts a text exactly when its trimmed lower case is a portable identifier.
pub parse_id-portable :
    (raw : Text)
    → parse_id raw ≡ (
        if is_portable_id (to_lower (trim_space raw))
        then some (to_lower (trim_space raw))
        else none)
unfolding parse_id
parse_id-portable raw = ground arith

pub parse_id-IsPortable : (raw id : Text) → parse_id raw ≡ some id → is_portable_id id ≡ true
unfolding parse_id
parse_id-IsPortable raw id h = ground arith

pub parse_id_self : (id : Text) → is_portable_id id ≡ true → parse_id id ≡ some id
parse_id_self id h = rw (parse_id-portable, portable_normal id h, h)
