-- ===== src/Chains/Observer.antt =====
-- ChainReceiptObserver of internal/application/ports/outbound/blockchain_receipt_observer.go, the
-- observer of one chain, and the tests on its input that the observers share.
use payrune.Prelude.{
  refl, Option, none, some, true, false, if◌then◌else◌, Bool, ◌||◌, ℕ, ◌+◌, ◌<◌, ◌^◌, ◌≡◌, arith,
}
use payrune.Prelude.Int.{ℤ, pos, leb_ℤ, ltb_ℤ, add64}
use payrune.Text.{Text}
use payrune.Result.{Result, ok, err}
use payrune.Time.{Time, is_zero}
use payrune.Domain.Observation.{Observation, validate}
use payrune.Ports.Error.{Error}
use payrune.Ports.Outside.{ObserveOutput}

-- ObservePaymentAddressInput
pub record AddressInput : Type 0 where
  pub asset_reference : Text
  pub network : Text
  pub address : Text
  pub issued_at : Time
  pub observed_total : ℤ
  pub confirmed_total : ℤ
  pub unconfirmed_total : ℤ
  pub required_confirmations : ℤ
  pub latest_block_height : ℤ
  pub since_block_height : ℤ

-- ChainReceiptObserver
pub record ChainObserver (X : Type 0) : Type 0 where
  pub fetch_latest_block_height : Text → X → Result Error ℤ × X
  pub observe_address : AddressInput → X → Result Error ObserveOutput × X

-- The tests of ObserveAddress on the times, the heights and the confirmations.
abbrev pub is_input_invalid : AddressInput → Bool
is_input_invalid input =
    is_zero input.issued_at
    || leb_ℤ input.required_confirmations (pos 0)
    || leb_ℤ input.latest_block_height (pos 0)
    || ltb_ℤ input.since_block_height (pos 0)

-- What the polling cycle makes of an output.
abbrev pub seen : ObserveOutput → Observation
seen o = record {
  observed_total = o.observed_total;
  confirmed_total = o.confirmed_total;
  unconfirmed_total = o.unconfirmed_total;
  latest_block_height = o.latest_block_height;
}

-- Two parts and their sum are an observation that is accepted, where the sum fits an int64.
pub validate-parts :
    (c u : ℕ) (latest : ℤ)
    → c + u < 2 ^ 63
    → ltb_ℤ latest (pos 0) ≡ false
    → validate (record {
      observed_total = pos (c + u);
      confirmed_total = pos c;
      unconfirmed_total = pos u;
      latest_block_height = latest;
    })
      ≡ ok tt
unfolding validate add64
validate-parts c u latest fits high = ground arith

-- The steps of an observation that returns an output.
module _ {A X : Type 0} {out : ObserveOutput} (e : Error) (x : X) where
  pub answered :
      (o : Option A) (next : A → Result Error ObserveOutput × X)
      → (elim o as (λ _. Result Error ObserveOutput × X) [ none ↦ (err e, x) | some a ↦ next a ]).0
        ≡ ok out
      → (a : A) × (o ≡ some a) × ((next a).0 ≡ ok out)
  answered none next h = cc
  answered (some a) next h = (a, refl, h)

module _ {X : Type 0} {out : ObserveOutput} (x : X) where
  pub passed :
      (e : Error) (bad : Bool) (next : Result Error ObserveOutput × X)
      → (if bad then (err e, x) else next).0 ≡ ok out
      → (bad ≡ false) × (next.0 ≡ ok out)
  passed e true next h = cc
  passed e false next h = (refl, h)

  pub selected :
      {A : Type 0} (r : Result Error A) (next : A → Result Error ObserveOutput × X)
      → (elim r as (λ _. Result Error ObserveOutput × X) [ err e ↦ (err e, x) | ok a ↦ next a ]).0
        ≡ ok out
      → (a : A) × (r ≡ ok a) × ((next a).0 ≡ ok out)
  selected (err e) next h = cc
  selected (ok a) next h = (a, refl, h)

pub height_valid :
    (input : AddressInput)
    → is_input_invalid input ≡ false
    → ltb_ℤ input.latest_block_height (pos 0) ≡ false
height_valid input h = ground arith
