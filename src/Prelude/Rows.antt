-- ===== src/Prelude/Rows.antt =====
-- Laws of `filter`, `first`, `take` and `update` over a predicate that holds of every item.
use Prim.Native.Nat.{ℕ, zero, suc, ◌≤◌}
use mathlib.Core.Path.{◌≡◌, refl}
use mathlib.Core.Bool.{Bool, true, false, ◌||◌}
use mathlib.Core.Option.{Option, none, some}
use mathlib.Core.List.{List, [], ◌∷◌, ◌++◌}
use mathlib.Core.Logic.{◌⊎◌, inl, inr}
use native.Mathlib.Omega.{arith}
use payrune.Prelude.Tests.{if◌then◌else◌, Bool-cases}
use payrune.Prelude.Lists.{All, length, any, filter, first, take, update}

module _ {A : Type 0} where
  pub some_injective : {a b : A} → ◌≡◌ {A = Option A} (some a) (some b) → a ≡ b
  some_injective h = cc

  pub All-append : (P : A → Type 0) (xs ys : List A) → All P xs → All P ys → All P (xs ++ ys)
  All-append P [] ys hx hy = hy
  All-append P (x ∷ xs) ys hx hy = (hx.0, All-append P xs ys hx.1 hy)

  pub All-mono : (P Q : A → Type 0) (xs : List A) → ((x : A) → P x → Q x) → All P xs → All Q xs
  All-mono P Q [] f h = tt
  All-mono P Q (x ∷ xs) f h = (f x h.0, All-mono P Q xs f h.1)

  pub every_one : (P : A → Type 0) (xs : List A) → ((x : A) → P x) → All P xs
  every_one P [] f = tt
  every_one P (x ∷ xs) f = (f x, every_one P xs f)

  pub All-filter :
      (P : A → Type 0) (p : A → Bool) (xs : List A)
      → All (λ x. p x ≡ true → P x) xs
      → All P (filter p xs)
  unfolding filter
  All-filter P p [] h = tt
  All-filter P p (x ∷ xs) h = elim (Bool-cases (p x)) [
    | inl e ↦ rw e (h.0 e, All-filter P p xs h.1)
    | inr e ↦ rw e (All-filter P p xs h.1)
  ]

  pub All-take : (P : A → Type 0) (n : ℕ) (xs : List A) → All P xs → All P (take n xs)
  unfolding take
  All-take P zero xs h = tt
  All-take P (suc n) [] h = tt
  All-take P (suc n) (x ∷ xs) h = (h.0, All-take P n xs h.1)

  pub All-update :
      (P Q : A → Type 0) (p : A → Bool) (f : A → A) (xs : List A)
      → ((x : A) → P x → p x ≡ true → Q (f x))
      → ((x : A) → P x → p x ≡ false → Q x)
      → All P xs
      → All Q (update p f xs)
  unfolding update
  All-update P Q p f [] hit miss h = tt
  All-update P Q p f (x ∷ xs) hit miss h = elim (Bool-cases (p x)) [
    | inl e ↦ rw e (hit x h.0 e, All-update P Q p f xs hit miss h.1)
    | inr e ↦ rw e (miss x h.0 e, All-update P Q p f xs hit miss h.1)
  ]

  pub All-first :
      (P : A → Type 0) (p : A → Bool) (xs : List A) {a : A}
      → All P xs
      → first p xs ≡ some a
      → P a × (p a ≡ true)
  unfolding first
  All-first P p [] h e = cc
  All-first P p (x ∷ xs) h e = elim (Bool-cases (p x)) [
    | inl q ↦ let same : x ≡ _ = some_injective (rw q at e) in rw (← same) (h.0, q)
    | inr q ↦ All-first P p xs h.1 (rw q at e)
  ]

  pub first-append :
      (p : A → Bool) (xs ys : List A)
      → first p (xs ++ ys) ≡ elim (first p xs) [ some a ↦ some a | none ↦ first p ys ]
  unfolding first
  first-append p [] ys = refl
  first-append p (x ∷ xs) ys = ground (arith, first-append p xs ys)

  pub any-append : (p : A → Bool) (xs ys : List A) → any p (xs ++ ys) ≡ any p xs || any p ys
  any-append p [] ys = refl
  any-append p (x ∷ xs) ys = ground (arith, any-append p xs ys)

  -- what the update does to a lookup whose test it leaves alone
  pub first-update :
      (p q : A → Bool) (f : A → A) (xs : List A)
      → ((x : A) → p (f x) ≡ p x)
      → first p (update q f xs)
        ≡ elim (first p xs) [ none ↦ none | some a ↦ some (if q a then f a else a) ]
  unfolding first update
  first-update p q f [] same = refl
  first-update p q f (x ∷ xs) same = ground (arith, same x, first-update p q f xs same)

  pub any-eq-first : (p : A → Bool) (xs : List A) → any p xs ≡ false → first p xs ≡ none
  unfolding first
  any-eq-first p [] h = refl
  any-eq-first p (x ∷ xs) h = ground (arith, any-eq-first p xs)

  pub some_of_any : (p : A → Bool) (xs : List A) → any p xs ≡ true → (a : A) × (first p xs ≡ some a)
  unfolding first
  some_of_any p [] h = cc
  some_of_any p (x ∷ xs) h = elim (Bool-cases (p x)) [
    | inl e ↦ (x, rw e)
    | inr e ↦ rw e (some_of_any p xs (rw e at h))
  ]

  -- every item is among the items
  pub All-any :
      (f : A → Bool) (g : A → A → Bool) (xs : List A)
      → ((x : A) → f x ≡ true → g x x ≡ true)
      → All (λ x. f x ≡ true → any (g x) xs ≡ true) xs
  All-any f g [] here = tt
  All-any f g (x ∷ xs) here = (
    λ h. ground (arith, here x),
    All-mono (λ y. f y ≡ true → any (g y) xs ≡ true) (λ y. f y ≡ true → any (g y) (x ∷ xs) ≡ true)
        xs (λ y k h. let later = k h in ground arith) (All-any f g xs here),
  )

  pub length-take-le : (n : ℕ) (xs : List A) → length (take n xs) ≤ n
  unfolding take
  length-take-le zero xs = omega arith
  length-take-le (suc n) [] = omega arith
  length-take-le (suc n) (x ∷ xs) = omega (arith, length-take-le n xs)

  -- No two items clash.
  abbrev pub Pairwise : (A → A → Bool) → List A → Type 0
  Pairwise clash [] = Unit
  Pairwise clash (x ∷ xs) = All (λ y. clash x y ≡ false) xs × Pairwise clash xs

  pub Pairwise-append :
      (clash : A → A → Bool) (xs : List A) (y : A)
      → All (λ x. clash x y ≡ false) xs
      → Pairwise clash xs
      → Pairwise clash (xs ++ (y ∷ []))
  Pairwise-append clash [] y h d = (tt, tt)
  Pairwise-append clash (x ∷ xs) y h d = (
    All-append (λ z. clash x z ≡ false) xs (y ∷ []) d.0 (h.0, tt),
    Pairwise-append clash xs y h.1 d.1,
  )

  -- An update that no clash sees keeps the items apart.
  pub Pairwise-update :
      (clash : A → A → Bool) (p : A → Bool) (f : A → A) (xs : List A)
      → ((x y : A) → clash (f x) y ≡ clash x y)
      → ((x y : A) → clash x (f y) ≡ clash x y)
      → Pairwise clash xs
      → Pairwise clash (update p f xs)
  unfolding update
  Pairwise-update clash p f [] left right d = tt
  Pairwise-update clash p f (x ∷ xs) left right d = (
    All-update (λ y. clash x y ≡ false) (λ y. clash (if p x then f x else x) y ≡ false) p f xs
        (λ y h _. ground (arith, left x (f y), right x y)) (λ y h _. ground (arith, left x y)) d.0,
    Pairwise-update clash p f xs left right d.1,
  )

  -- an item that is found behind an append is an old one or the new one
  pub first-append_cases :
      (p : A → Bool) (xs : List A) (y : A) {a : A}
      → first p (xs ++ (y ∷ [])) ≡ some a
      → (first p xs ≡ some a) ⊎ ((y ≡ a) × (p y ≡ true))
  unfolding first
  first-append_cases p [] y h = inr (ground arith, ground arith)
  first-append_cases p (x ∷ xs) y h = elim (Bool-cases (p x)) [
    | inl e ↦ inl (rw e (rw e at h))
    | inr e ↦ rw e (first-append_cases p xs y (rw e at h))
  ]

-- A chain of two steps that gives something.
pub both_steps :
    {A B : Type 0} (o : Option A) (next : A → Option B) {b : B}
    → ◌≡◌ {A = Option B} (elim o [ none ↦ none | some a ↦ next a ]) (some b)
    → (a : A) × (o ≡ some a) × (next a ≡ some b)
both_steps none next h = cc
both_steps (some a) next h = (a, refl, h)
