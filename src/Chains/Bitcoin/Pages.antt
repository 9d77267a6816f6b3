-- ===== src/Chains/Bitcoin/Pages.antt =====
-- The pages of an address, from a server that answers as Esplora documents it: a page has the 25
-- transactions behind the one that is named, or the first 25.
use payrune.Prelude.{
  ℕ, zero, suc, ◌+◌, ◌*◌, ◌<◌, ◌≡◌, refl, sym, ap, ◌∙◌, Bool, true, false, ◌||◌, Bool-cases, inl,
  inr, Option, some, none, List, [], ◌∷◌, ◌++◌, length, take, All, ltb, arith,
}
use mathlib.Core.List.{append_assoc, append-nil}
use payrune.Prelude.Rows.{Pairwise}
use payrune.Text.{Text, ◌==ᵗ◌, is_empty, codes, trim_space}
use payrune.Chains.Bitcoin.{Transaction, id_of}
use payrune.Chains.Bitcoin.Client.{Http, Config, get_transactions, page_path, last_id}
use payrune.Chains.Bitcoin.Counted.{same_id}
use payrune.Text.Laws.{==ᵗ_eq}
use payrune.Text.Laws.{==ᵗ_refl}
use payrune.Chains.Bitcoin.Observe.{fetch_pages, fetch_chain, page_size, max_pages}
use payrune.Text.Escape.{path_escape}

-- The id that the request for the page behind `found` names.
abbrev pub end_id : List Transaction → Text
end_id [] = []
end_id (tx ∷ rest) = last_id tx rest

-- What the server answers of an address with these transactions, at every place.
abbrev pub IsServing : {X : Type 0} → Http X → Config → Text → List Transaction → Type 0
IsServing {X = X} http client path txs =
    (found rest : List Transaction) (x : X)
    → found ++ rest ≡ txs
    → (get_transactions http client (page_path path (end_id found)) x).0
      ≡ some (take page_size rest)

unfoldable drop : ℕ → List Transaction → List Transaction
drop zero xs = xs
drop (suc n) [] = []
drop (suc n) (x ∷ xs) = drop n xs

take-drop : (n : ℕ) (xs : List Transaction) → take n xs ++ drop n xs ≡ xs
unfolding take drop
take-drop zero xs = refl
take-drop (suc n) [] = refl
take-drop (suc n) (x ∷ xs) = ap (λ l. x ∷ l) (take-drop n xs)

drop_all : (n : ℕ) (xs : List Transaction) → length (take n xs) < n → drop n xs ≡ []
unfolding take drop
drop_all zero xs h = absurd (omega (arith, h))
drop_all (suc n) [] h = refl
drop_all (suc n) (x ∷ xs) h = drop_all n xs (omega (arith, h))

take-nil : (n : ℕ) → take {A = Transaction} n [] ≡ []
unfolding take
take-nil zero = refl
take-nil (suc n) = refl

take-suc : (n : ℕ) (x : Transaction) (xs : List Transaction) → take (suc n) (x ∷ xs) ≡ x ∷ take n xs
unfolding take
take-suc n x xs = refl

length-take-drop :
    (n : ℕ) (xs : List Transaction) → length (take n xs) + length (drop n xs) ≡ length xs
unfolding take drop
length-take-drop zero xs = omega arith
length-take-drop (suc n) [] = omega arith
length-take-drop (suc n) (x ∷ xs) = omega (arith, length-take-drop n xs)

All-last :
    (P : Text → Type 0) (tx : Transaction) (rest : List Transaction)
    → All (λ t. P (id_of t)) (tx ∷ rest)
    → P (last_id tx rest)
All-last P tx [] h = h.0
All-last P tx (next ∷ rest) h = All-last P next rest h.1

All-right : (P : Transaction → Type 0) (xs ys : List Transaction) → All P (xs ++ ys) → All P ys
All-right P [] ys h = h
All-right P (x ∷ xs) ys h = All-right P xs ys h.1

All-left : (P : Transaction → Type 0) (xs ys : List Transaction) → All P (xs ++ ys) → All P xs
All-left P [] ys h = tt
All-left P (x ∷ xs) ys h = (h.0, All-left P xs ys h.1)

Pairwise-left : (xs ys : List Transaction) → Pairwise same_id (xs ++ ys) → Pairwise same_id xs
Pairwise-left [] ys h = tt
Pairwise-left (x ∷ xs) ys h =
    (All-left (λ y. same_id x y ≡ false) xs ys h.0, Pairwise-left xs ys h.1)

-- The ends of two pages that follow each other differ.
ends_differ :
    (f : Transaction) (fs : List Transaction) (tx : Transaction) (more : List Transaction)
    → Pairwise same_id ((f ∷ fs) ++ tx ∷ more)
    → last_id f fs ==ᵗ last_id tx more ≡ false
ends_differ f [] tx more h = All-last (λ i. id_of f ==ᵗ i ≡ false) tx more h.0
ends_differ f (g ∷ fs) tx more h = ends_differ g fs tx more h.1

last_id-append :
    (f : Transaction) (fs : List Transaction) (tx : Transaction) (page : List Transaction)
    → last_id f (fs ++ tx ∷ page) ≡ last_id tx page
last_id-append f [] tx page = refl
last_id-append f (g ∷ fs) tx page = last_id-append g fs tx page

end_id-append :
    (found : List Transaction) (tx : Transaction) (page : List Transaction)
    → end_id (found ++ tx ∷ page) ≡ last_id tx page
end_id-append [] tx page = refl
end_id-append (f ∷ fs) tx page = last_id-append f fs tx page

not_empty : (s : Text) → is_empty s ≡ false → s ==ᵗ [] ≡ false
not_empty [] h = h
not_empty (c ∷ s) h = refl

==ᵗ_turn : (s t : Text) → s ==ᵗ t ≡ false → t ==ᵗ s ≡ false
==ᵗ_turn s t h = elim (Bool-cases (t ==ᵗ s)) [
  | inl same ↦ absurd (let e : s ==ᵗ t ≡ true = rw (==ᵗ_eq t s same) (==ᵗ_refl s) in cc)
  | inr differs ↦ differs
]

next_differs :
    (found : List Transaction) (tx : Transaction) (page : List Transaction)
    → All (λ t. is_empty (id_of t) ≡ false) (tx ∷ page)
    → Pairwise same_id (found ++ tx ∷ page)
    → last_id tx page ==ᵗ end_id found ≡ false
next_differs [] tx page named d =
    not_empty (last_id tx page) (All-last (λ i. is_empty i ≡ false) tx page named)
next_differs (f ∷ fs) tx page named d =
    ==ᵗ_turn (last_id f fs) (last_id tx page) (ends_differ f fs tx page d)

below_page : (a n : ℕ) → ltb (suc a) (suc n) ≡ true → a < n
below_page a n h = ground arith

left_behind :
    (a b c fuel : ℕ)
    → a + b ≡ c
    → suc c < suc fuel * page_size
    → ltb (suc a) page_size ≡ false
    → b < fuel * page_size
left_behind a b c fuel sum fits long = ground arith

-- The two ways on from a page whose end is new.
page_end :
    {A X : Type 0} (short blank same : Bool) (stop onward : A × X) {target : A}
    → blank ≡ false
    → same ≡ false
    → (short ≡ true → stop.0 ≡ target)
    → (short ≡ false → onward.0 ≡ target)
    → (elim (short || blank || same) as (λ _. A × X) [ true ↦ stop | false ↦ onward ]).0 ≡ target
page_end true blank same stop onward b s ends goes = ends refl
page_end false true same stop onward b s ends goes = cc
page_end false false true stop onward b s ends goes = cc
page_end false false false stop onward b s ends goes = goes refl

-- The path of an address's chain transactions.
abbrev pub chain_path : Text → Text
chain_path address = codes "/address/" ++ (path_escape (trim_space address) ++ codes "/txs/chain")

module _ {X : Type 0} (http : Http X) (client : Config) where
  module _ (path : Text) where
    -- The loop, by the page that is answered.
    abbrev after_page :
        ℕ → Text → List Transaction → X → Option (List Transaction) → Option (List Transaction) × X
    after_page fuel last found x' none = (none, x')
    after_page fuel last found x' (some []) = (some found, x')
    after_page fuel last found x' (some (tx ∷ rest)) =
        elim (ltb (length (tx ∷ rest)) page_size
          || is_empty (last_id tx rest)
          || last_id tx rest ==ᵗ last) [
            | true ↦ (some (found ++ tx ∷ rest), x')
            | false ↦ fetch_pages http client fuel path (last_id tx rest) (found ++ tx ∷ rest) x'
          ]

    fetch_pages-step :
        (fuel : ℕ) (last : Text) (found : List Transaction) (x : X)
        → fetch_pages http client (suc fuel) path last found x
          ≡ after_page fuel last found
              (get_transactions http client (page_path path last) x).1
              (get_transactions http client (page_path path last) x).0
    unfolding fetch_pages
    fetch_pages-step fuel last found x = refl

    module _ (txs : List Transaction) where
      -- One page that is not empty, behind `found`.
      after_page-All :
          (fuel : ℕ) (found : List Transaction) (tx : Transaction) (page rest : List Transaction)
          (x : X)
          → All (λ t. is_empty (id_of t) ≡ false) txs
          → Pairwise same_id txs
          → (found ++ tx ∷ page) ++ rest ≡ txs
          → (ltb (length (tx ∷ page)) page_size ≡ true → rest ≡ [])
          → (ltb (length (tx ∷ page)) page_size ≡ false
              → (fetch_pages http client fuel path (last_id tx page) (found ++ tx ∷ page) x).0
                ≡ some txs)
          → (after_page fuel (end_id found) found x (some (tx ∷ page))).0 ≡ some txs
      after_page-All fuel found tx page rest x named d whole ends goes =
          let named' : All (λ t. is_empty (id_of t) ≡ false) ((found ++ tx ∷ page) ++ rest) =
            rw whole named in
          let named'' : All (λ t. is_empty (id_of t) ≡ false) (tx ∷ page) =
            All-right _ found (tx ∷ page) (All-left _ (found ++ tx ∷ page) rest named') in
          let d' : Pairwise same_id (found ++ tx ∷ page) =
            Pairwise-left (found ++ tx ∷ page) rest (rw whole d) in
          page_end (ltb (length (tx ∷ page)) page_size) (is_empty (last_id tx page))
            (last_id tx page ==ᵗ end_id found) _ _
            (All-last (λ i. is_empty i ≡ false) tx page named'')
            (next_differs found tx page named'' d')
            (λ short. ap some (
              sym (append-nil (found ++ tx ∷ page))
              ∙ ap (λ l. (found ++ tx ∷ page) ++ l) (sym (ends short))
              ∙ whole))
            goes

      fetch_pages-All :
          IsServing http client path txs
          → (fuel : ℕ) (found rest : List Transaction) (x : X)
          → All (λ t. is_empty (id_of t) ≡ false) txs
          → Pairwise same_id txs
          → found ++ rest ≡ txs
          → length rest < fuel * page_size
          → (fetch_pages http client fuel path (end_id found) found x).0 ≡ some txs
      fetch_pages-All serving zero found rest x named d whole fits = absurd (omega (arith, fits))
      fetch_pages-All serving (suc fuel) found [] x named d whole fits =
          rw (fetch_pages-step fuel (end_id found) found x) (
            rw (serving found [] x whole)
              (rw (take-nil page_size) (ap some (sym (append-nil found) ∙ whole))))
      fetch_pages-All serving (suc fuel) found (tx ∷ more) x named d whole fits =
          let page = take 24 more in
          let rest = drop 24 more in
          let whole' : (found ++ tx ∷ page) ++ rest ≡ txs =
            append_assoc found (tx ∷ page) rest
            ∙ ap (λ l. found ++ tx ∷ l) (take-drop 24 more)
            ∙ whole in
          rw (fetch_pages-step fuel (end_id found) found x) (
            rw (serving found (tx ∷ more) x whole) (
              rw (take-suc 24 tx more) (
                after_page-All fuel found tx page rest _ named d whole'
                  (λ short. drop_all 24 more (below_page (length page) 24 short))
                  (λ long.
                    let h =
                      fetch_pages-All serving fuel (found ++ tx ∷ page) rest
                        (get_transactions http client (page_path path (end_id found)) x).1 named d
                        whole'
                        (left_behind (length page) (length rest) (length more) fuel
                          (length-take-drop 24 more) fits long) in
                    rw (sym (end_id-append found tx page)) h))))

  -- A server that holds fewer than 250,000 transactions of an address, each with an id and no id twice,
  -- and answers as Esplora documents it (the 25 behind the named one, or the first 25): the loop ends
  -- and has every transaction once, in their order.
  pub fetch_chain-All :
      (address : Text) (txs : List Transaction) (x : X)
      → IsServing http client (chain_path address) txs
      → All (λ t. is_empty (id_of t) ≡ false) txs
      → Pairwise same_id txs
      → length txs < max_pages * page_size
      → (fetch_chain http client address x).0 ≡ some txs
  unfolding fetch_chain
  fetch_chain-All address txs x serving named d fits =
      fetch_pages-All (chain_path address) txs serving max_pages [] txs x named d refl fits
