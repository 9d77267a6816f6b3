-- ===== src/Chains/Ethereum/Observe.antt =====
-- EthereumRPCReceiptObserver of rpc_receipt_observer.go.
use payrune.Prelude.{Option, none, some, List, if◌then◌else◌}
use payrune.Prelude.Int.{ℤ, pos, ltb_ℤ, add64, sub64}
use payrune.Text.{Text, is_empty, trim_space}
use payrune.Result.{Result, ok, err}
use payrune.Domain.Values.{lookup}
use payrune.Ports.Error.{
  Error, chain_observer_input_invalid, chain_observer_not_configured, chain_observer_failed,
}
use payrune.Ports.Outside.{ObserveOutput}
use payrune.Ports.Validation.{normalize_id}
use payrune.Chains.Ethereum.{
  Config, Rpc, fetch_observed, safe_subtract, normalize_address, parse_quantity,
}
use payrune.Chains.Observer.{AddressInput, ChainObserver, is_input_invalid}

-- selectClient
unfoldable pub select_client : List (Text × Config) → Text → Result Error Config
select_client clients network =
    let (n, valid) = normalize_id network in
    if valid
    then elim (lookup clients n) [
      | none ↦ err chain_observer_not_configured
      | some client ↦ ok client
    ]
    else err chain_observer_input_invalid

-- The contract of a token, for an asset reference; an error is `none`.
unfoldable pub token_of : Text → Option (Option Text)
unfolding normalize_address
token_of asset_reference =
    if is_empty (trim_space asset_reference)
    then some none
    else elim (normalize_address (trim_space asset_reference)) [
      | none ↦ none
      | some token ↦ some (some token)
    ]

-- confirmedBlockHeight
abbrev pub confirmed_height : AddressInput → ℤ
confirmed_height input =
    add64 (sub64 input.latest_block_height input.required_confirmations) (pos 1)

-- The end of ObserveAddress.
unfoldable pub output_of : ℤ → ℤ → ℤ → Result Error ObserveOutput
unfolding safe_subtract
output_of latest observed confirmed = elim (safe_subtract observed confirmed) [
  | none ↦ err chain_observer_failed
  | some unconfirmed ↦ ok (record {
    observed_total = observed;
    confirmed_total = confirmed;
    unconfirmed_total = unconfirmed;
    latest_block_height = latest;
  })
]

module _ {X : Type 0} (rpc : Rpc X) where
  -- What is confirmed: nothing where the chain is not that high.
  unfoldable pub fetch_confirmed : Config → Option Text → Text → AddressInput → X → Option ℤ × X
  unfolding fetch_observed
  fetch_confirmed client token address input x =
      if ltb_ℤ (pos 0) (confirmed_height input)
      then fetch_observed rpc client token address (confirmed_height input) x
      else (some (pos 0), x)

  -- The two requests of ObserveAddress and what it makes of them.
  unfoldable pub observe_with :
      Config → Option Text → Text → AddressInput → X → Result Error ObserveOutput × X
  unfolding fetch_observed fetch_confirmed output_of
  observe_with client token address input x =
      let (total, x1) = fetch_observed rpc client token address input.latest_block_height x in
      elim total [
        | none ↦ (err chain_observer_failed, x1)
        | some observed ↦
            let (part, x2) = fetch_confirmed client token address input x1 in
            elim part [
              | none ↦ (err chain_observer_failed, x2)
              | some confirmed ↦ (output_of input.latest_block_height observed confirmed, x2)
            ]
      ]

module _ {X : Type 0} (rpc : Rpc X) (clients : List (Text × Config)) where
  -- ObserveAddress
  unfoldable pub observe_address : AddressInput → X → Result Error ObserveOutput × X
  unfolding select_client token_of normalize_address observe_with
  observe_address input x = elim (normalize_address input.address) [
    | none ↦ (err chain_observer_input_invalid, x)
    | some address ↦
        if is_input_invalid input
        then (err chain_observer_input_invalid, x)
        else elim (token_of input.asset_reference) [
          | none ↦ (err chain_observer_input_invalid, x)
          | some token ↦ elim (select_client clients input.network) [
            | err e ↦ (err e, x)
            | ok client ↦ observe_with rpc client token address input x
          ]
        ]
  ]

  -- FetchLatestBlockHeight
  unfoldable pub fetch_latest_block_height : Text → X → Result Error ℤ × X
  unfolding select_client parse_quantity
  fetch_latest_block_height network x = elim (select_client clients network) [
    | err e ↦ (err e, x)
    | ok client ↦
        let (raw, x') = rpc.height client x in
        (
          elim raw [
            | none ↦ err chain_observer_failed
            | some text ↦ elim (parse_quantity text) [
              | none ↦ err chain_observer_failed
              | some height ↦ ok height
            ]
          ],
          x',
        )
  ]

  abbrev pub ethereum_observer : ChainObserver X
  ethereum_observer = record {
    fetch_latest_block_height = fetch_latest_block_height;
    observe_address = observe_address;
  }
