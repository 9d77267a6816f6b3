-- ===== src/Domain/Values/Laws.antt =====
-- The parsed and the normalised values of Domain/Values are their own normal forms.
use mathlib.Core.Option
use payrune.Prelude.{
  All, List, Bool-cases, sym, ◌∙◌, some, ◌∷◌, none, [], Option-cases, inl, inr, ◌⊎◌, ◌≡◌, refl,
  arith, false, true,
}
use payrune.Text.{Text, ◌==ᵗ◌, trim_space, trim_left, is_space, lower, to_lower, byte_len}
use payrune.Text.Laws.{==ᵗ_eq, normal_idem, trim_space_idem}
use payrune.Text.Id.{parse_id, parse_id-portable, parse_id-IsPortable, parse_id_self, is_id_char}
use payrune.Domain.Values.{
  address_schemes, lookup, bitcoin, ethereum, parse_supported_chain, parse_address_scheme,
  normalize_policy_id, normalize_scheme,
}
use payrune.Prelude.Rows.{some_injective}

-- Parsing looks at the normal form only.
pub parse_id-normal : (raw : Text) → parse_id (to_lower (trim_space raw)) ≡ parse_id raw
parse_id-normal raw = simp (parse_id-portable, normal_idem)

parse_empty : parse_id [] ≡ none
unfolding parse_id to_lower trim_space trim_left byte_len
parse_empty = refl

pub normalize_policy_id_idem :
    (id : Text) → normalize_policy_id (normalize_policy_id id) ≡ normalize_policy_id id
unfolding normalize_policy_id
normalize_policy_id_idem id = elim (Option-cases (parse_id id)) [
  | inl rejected ↦ ground (arith, parse_empty)
  | inr (n, accepted) ↦ ground (arith, parse_id_self n (parse_id-IsPortable id n accepted))
]

pub supported_chains :
    (raw : Text) {c : Text} → parse_supported_chain raw ≡ some c → (c ≡ bitcoin) ⊎ (c ≡ ethereum)
unfolding parse_supported_chain
supported_chains raw h = ground (arith)

pub parse_supported_chain_self :
    (c : Text) → (c ≡ bitcoin) ⊎ (c ≡ ethereum) → parse_supported_chain c ≡ some c
unfolding parse_supported_chain parse_id to_lower trim_space trim_left is_space lower byte_len
    is_id_char
parse_supported_chain_self c h = ground arith

-- `v` is a value of the table.
abbrev pub HasValue : {V : Type 0} → List (Text × V) → V → Type 0
HasValue [] v = ⊥
HasValue ((j, w) ∷ m) v = (v ≡ w) ⊎ HasValue m v

lookup-HasValue :
    {V : Type 0} (m : List (Text × V)) (k : Text) {v : V} → lookup m k ≡ some v → HasValue m v
lookup-HasValue [] k h = cc
lookup-HasValue ((j, w) ∷ m) k h = elim (Bool-cases (j ==ᵗ k)) [
  | inl here ↦ inl (ground arith)
  | inr there ↦ inr (lookup-HasValue m k (ground arith))
]

-- The table has this entry.
abbrev pub HasEntry : {V : Type 0} → List (Text × V) → Text → V → Type 0
HasEntry [] k v = ⊥
HasEntry ((j, w) ∷ m) k v = ((k ≡ j) × (v ≡ w)) ⊎ HasEntry m k v

lookup-HasEntry :
    {V : Type 0} (m : List (Text × V)) (k : Text) {v : V} → lookup m k ≡ some v → HasEntry m k v
lookup-HasEntry [] k h = cc
lookup-HasEntry ((j, w) ∷ m) k h = elim (Bool-cases (j ==ᵗ k)) [
  | inl here ↦ inl (sym (==ᵗ_eq j k here), ground arith)
  | inr there ↦ inr (lookup-HasEntry m k (ground arith))
]

abbrev pub map_values : {V W : Type 0} → (V → W) → List (Text × V) → List (Text × W)
map_values f [] = []
map_values f ((j, v) ∷ m) = (j, f v) ∷ map_values f m

pub lookup-map_values :
    {V W : Type 0} (f : V → W) (m : List (Text × V)) (k : Text)
    → lookup (map_values f m) k ≡ Option.map f (lookup m k)
lookup-map_values f [] k = refl
lookup-map_values f ((j, v) ∷ m) k = elim (Bool-cases (j ==ᵗ k)) [
  | inl here ↦ rw here
  | inr there ↦ rw there (lookup-map_values f m k)
]

parse_address_scheme-HasValue :
    (raw : Text) {s : Text} → parse_address_scheme raw ≡ some s → HasValue address_schemes s
unfolding parse_address_scheme
parse_address_scheme-HasValue raw h = lookup-HasValue address_schemes (to_lower (trim_space raw)) h

pub parse_address_scheme_self :
    (s : Text) → HasValue address_schemes s → parse_address_scheme s ≡ some s
unfolding parse_address_scheme address_schemes to_lower trim_space trim_left is_space lower
parse_address_scheme_self s h = ground arith

parse_address_scheme-trim :
    (raw : Text) → parse_address_scheme (trim_space raw) ≡ parse_address_scheme raw
unfolding parse_address_scheme
parse_address_scheme-trim raw = rw (trim_space_idem raw)

pub normalize_scheme_idem : (s : Text) → normalize_scheme (normalize_scheme s) ≡ normalize_scheme s
unfolding normalize_scheme
normalize_scheme_idem s = elim (Option-cases (parse_address_scheme s)) [
  | inl rejected ↦ ground (arith, parse_address_scheme-trim s, trim_space_idem s)
  | inr (n, accepted) ↦
      ground (arith, parse_address_scheme_self n (parse_address_scheme-HasValue s accepted))
]

module _ {V : Type 0} (j : Text) (v : V) (m : List (Text × V)) (k : Text) where
  found_here : j ==ᵗ k ≡ true → lookup ((j, v) ∷ m) k ≡ some v
  found_here h = rw h refl

  found_later : j ==ᵗ k ≡ false → lookup ((j, v) ∷ m) k ≡ lookup m k
  found_later h = rw h refl

pub lookup-All :
    {V : Type 0} (P : V → Type 0) (m : List (Text × V)) (k : Text) {v : V}
    → All (λ p. P p.1) m
    → lookup m k ≡ some v
    → P v
lookup-All P [] k all h = cc
lookup-All P ((j, v) ∷ m) k all h = elim (Bool-cases (j ==ᵗ k)) [
  | inl here ↦ rw (← some_injective (sym (found_here j v m k here) ∙ h)) all.0
  | inr later ↦ lookup-All P m k all.1 (sym (found_later j v m k later) ∙ h)
]
