-- ===== src/Chains/Router.antt =====
-- multi_chain_receipt_observer.go of internal/adapters/outbound/blockchain: the observer of the ports
-- over those of the chains.
pub mod Laws
use payrune.Prelude.{
  Bool, true, false, Option, none, some, List, [], ◌∷◌, if◌then◌else◌, ◌≡◌, ◌⊎◌, inl, inr, refl,
}
use payrune.Prelude.Int.{ℤ}
use payrune.Text.{Text}
use payrune.Result.{Result, ok, err}
use payrune.Domain.Values.{lookup}
use payrune.Ports.Error.{
  Error, chain_observer_input_invalid, chain_observer_not_configured, chain_observer_failed,
}
use payrune.Ports.Outside.{ObserveInput, ObserveOutput, Observer}
use payrune.Ports.Validation.{normalize_id}
use payrune.Chains.Observer.{AddressInput, ChainObserver}

-- The error that the router makes of an observer's.
abbrev pub routed_error : Error → Error
routed_error chain_observer_not_configured = chain_observer_not_configured
routed_error chain_observer_input_invalid = chain_observer_input_invalid
routed_error _ = chain_observer_failed

abbrev pub address_input : ObserveInput → Text → AddressInput
address_input input network = record {
  asset_reference = input.asset_reference;
  network = network;
  address = input.address;
  issued_at = input.issued_at;
  observed_total = input.observed_total;
  confirmed_total = input.confirmed_total;
  unconfirmed_total = input.unconfirmed_total;
  required_confirmations = input.required_confirmations;
  latest_block_height = input.latest_block_height;
  since_block_height = input.since_block_height;
}

module _ {X : Type 0} where
  -- The loop of NewMultiChainReceiptObserver, in the map's order; a nil observer is `none`.
  unfoldable pub normalized :
      List (Text × Option (ChainObserver X))
      → List (Text × ChainObserver X)
      → Option (List (Text × ChainObserver X))
  normalized [] found = some found
  normalized ((_, none) ∷ rest) found = none
  normalized ((raw, some observer) ∷ rest) found =
      let (chain, valid) = normalize_id raw in
      elim valid [ true ↦ normalized rest ((chain, observer) ∷ found) | false ↦ none ]

  -- NewMultiChainReceiptObserver
  unfoldable pub new_router :
      List (Text × Option (ChainObserver X)) → Option (List (Text × ChainObserver X))
  unfolding normalized
  new_router [] = none
  new_router (o ∷ observers) = normalized (o ∷ observers) []

  -- resolveObserver
  unfoldable pub resolve :
      List (Text × ChainObserver X) → Text → Text → Result Error (ChainObserver X × Text)
  resolve observers chain network =
      let (chain_id, chain_valid) = normalize_id chain in
      let (network_id, network_valid) = normalize_id network in
      if chain_valid
      then if network_valid
        then elim (lookup observers chain_id) [
          | none ↦ err chain_observer_not_configured
          | some observer ↦ ok (observer, network_id)
        ]
        else err chain_observer_input_invalid
      else err chain_observer_input_invalid

  abbrev pub routed : {A : Type 0} → Result Error A × X → Result Error A × X
  routed (ok a, x) = (ok a, x)
  routed (err e, x) = (err (routed_error e), x)

  module _ (observers : List (Text × ChainObserver X)) where
    -- ObserveAddress
    unfoldable pub observe_address : ObserveInput → X → Result Error ObserveOutput × X
    unfolding resolve
    observe_address input x = elim (resolve observers input.chain input.network) [
      | err e ↦ (err e, x)
      | ok (observer, network) ↦ routed (observer.observe_address (address_input input network) x)
    ]

    -- FetchLatestBlockHeight
    unfoldable pub fetch_latest_block_height : Text → Text → X → Result Error ℤ × X
    unfolding resolve
    fetch_latest_block_height chain network x = elim (resolve observers chain network) [
      | err e ↦ (err e, x)
      | ok (observer, n) ↦ routed (observer.fetch_latest_block_height n x)
    ]

    abbrev pub router : Observer X
    router = record {
      fetch_latest_block_height = fetch_latest_block_height;
      observe_address = observe_address;
    }
