-- ===== src/Text/Laws.antt =====
-- Laws of the text operations: when a text is its own normal form.
use mathlib.Core.List.{reverse-reverse, reverse-append, reverse-cons, map-append}
use mathlib.Core.Path.{sym, ◌∙◌}
use payrune.Prelude.{
  ℕ, ◌≡◌, refl, ap, ◌↔◌, Bool, true, [], ◌∷◌, ◌++◌, reverse, map, arith, all, not, ◌==◌,
  if◌then◌else◌,
}
use payrune.Text.{Text, ◌==ᵗ◌, is_space, trim_left, trim_space, lower, to_lower}

pub ==ᵗ_refl : (s : Text) → s ==ᵗ s ≡ true
==ᵗ_refl [] = refl
==ᵗ_refl (a ∷ s) = ground (arith, ==ᵗ_refl s)

pub ==ᵗ_eq : (s t : Text) → s ==ᵗ t ≡ true → s ≡ t
==ᵗ_eq [] [] h = refl
==ᵗ_eq [] (_ ∷ _) h = cc
==ᵗ_eq (_ ∷ _) [] h = cc
==ᵗ_eq (a ∷ s) (b ∷ t) h = ground (arith, ==ᵗ_eq s t)

pub ==ᵗ_iff : (s t : Text) → (s ==ᵗ t ≡ true) ↔ (s ≡ t)
==ᵗ_iff s t = (==ᵗ_eq s t, λ e. rw e (==ᵗ_refl t))

pub lower_idem : (c : ℕ) → lower (lower c) ≡ lower c
unfolding lower
lower_idem c = ground arith

pub to_lower_idem : (s : Text) → to_lower (to_lower s) ≡ to_lower s
unfolding to_lower
to_lower_idem [] = refl
to_lower_idem (c ∷ s) = cc (lower_idem c, to_lower_idem s)

-- A text without white space is not trimmed.
abbrev pub is_solid : Text → Bool
is_solid s = all (λ c. not (is_space c)) s

trim_left-solid : (s : Text) → is_solid s ≡ true → trim_left s ≡ s
unfolding trim_left
trim_left-solid [] h = refl
trim_left-solid (c ∷ s) h = ground arith

is_solid-append : (s t : Text) → is_solid s ≡ true → is_solid t ≡ true → is_solid (s ++ t) ≡ true
is_solid-append [] t hs ht = ht
is_solid-append (c ∷ s) t hs ht = ground (arith, is_solid-append s t)

is_solid-reverse : (s : Text) → is_solid s ≡ true → is_solid (reverse s) ≡ true
is_solid-reverse [] h = refl
is_solid-reverse (c ∷ s) h =
    rw (reverse-append (c ∷ []) s)
      (is_solid-append (reverse s) (c ∷ []) (is_solid-reverse s (ground arith)) (ground arith))

pub trim_space-solid : (s : Text) → is_solid s ≡ true → trim_space s ≡ s
unfolding trim_space
trim_space-solid s h =
    rw (trim_left-solid s h)
      (rw (trim_left-solid (reverse s) (is_solid-reverse s h)) (reverse-reverse s))

-- A text with no letter that `lower` changes is its own lower case.
abbrev pub is_low : Text → Bool
is_low s = all (λ c. lower c == c) s

pub to_lower-low : (s : Text) → is_low s ≡ true → to_lower s ≡ s
unfolding to_lower
to_lower-low [] h = refl
to_lower-low (c ∷ s) h = ground (arith, to_lower-low s)

-- Trimming twice is trimming once.
abbrev is_trimmed_left : Text → Bool
is_trimmed_left [] = true
is_trimmed_left (c ∷ _) = not (is_space c)

trim_left-is_trimmed : (s : Text) → is_trimmed_left (trim_left s) ≡ true
unfolding trim_left
trim_left-is_trimmed [] = refl
trim_left-is_trimmed (c ∷ s) = ground (arith, trim_left-is_trimmed s)

trim_left_self : (s : Text) → is_trimmed_left s ≡ true → trim_left s ≡ s
unfolding trim_left
trim_left_self [] h = refl
trim_left_self (c ∷ s) h = ground arith

-- What `trim_left` drops.
spaces : Text → Text
spaces [] = []
spaces (c ∷ s) = if is_space c then c ∷ spaces s else []

spaces-append-trim_left : (s : Text) → spaces s ++ trim_left s ≡ s
unfolding trim_left spaces
spaces-append-trim_left [] = refl
spaces-append-trim_left (c ∷ s) = ground (arith, spaces-append-trim_left s)

is_trimmed_left_prefix : (s t : Text) → is_trimmed_left (s ++ t) ≡ true → is_trimmed_left s ≡ true
is_trimmed_left_prefix [] t h = refl
is_trimmed_left_prefix (c ∷ s) t h = h

-- The front of a text keeps its first character when the end is trimmed.
trim_end-is_trimmed :
    (u : Text) → is_trimmed_left u ≡ true → is_trimmed_left (reverse (trim_left (reverse u))) ≡ true
trim_end-is_trimmed u h =
    let r = reverse u in
    let whole : reverse (trim_left r) ++ reverse (spaces r) ≡ u =
      sym (reverse-append (spaces r) (trim_left r))
      ∙ (ap reverse (spaces-append-trim_left r) ∙ reverse-reverse u) in
    is_trimmed_left_prefix (reverse (trim_left r)) (reverse (spaces r)) (rw whole h)

pub trim_space_idem : (s : Text) → trim_space (trim_space s) ≡ trim_space s
unfolding trim_space
trim_space_idem s =
    let r = trim_left (reverse (trim_left s)) in
    let front : trim_left (reverse r) ≡ reverse r =
      trim_left_self (reverse r) (trim_end-is_trimmed (trim_left s) (trim_left-is_trimmed s)) in
    let back : trim_left r ≡ r = trim_left_self r (trim_left-is_trimmed (reverse (trim_left s))) in
    rw front (rw (reverse-reverse r) (rw back))

is_space-lower : (c : ℕ) → is_space (lower c) ≡ is_space c
unfolding is_space lower
is_space-lower c = ground arith

trim_left-map : (s : Text) → trim_left (map lower s) ≡ map lower (trim_left s)
unfolding trim_left
trim_left-map [] = refl
trim_left-map (c ∷ s) = ground (arith, trim_left-map s, is_space-lower c)

reverse-map-lower : (s : Text) → reverse (map lower s) ≡ map lower (reverse s)
reverse-map-lower [] = refl
reverse-map-lower (c ∷ s) = simp (reverse-cons, map-append, reverse-map-lower s)

pub trim_space-to_lower : (s : Text) → trim_space (to_lower s) ≡ to_lower (trim_space s)
unfolding trim_space to_lower
trim_space-to_lower s = simp (trim_left-map, reverse-map-lower)

-- The normal form that the Parse functions look at is its own normal form.
pub normal_idem :
    (s : Text) → to_lower (trim_space (to_lower (trim_space s))) ≡ to_lower (trim_space s)
normal_idem s = simp (trim_space-to_lower, to_lower_idem, trim_space_idem)
