-- ===== src/Chains/Bitcoin/Observe.antt =====
-- BitcoinEsploraReceiptObserver of esplora_receipt_observer.go: the pages of an address, and
-- ObserveAddress over them.
use payrune.Prelude.{
  ℕ, zero, suc, true, false, ◌||◌, Option, none, some, List, [], ◌∷◌, ◌++◌, length, ltb,
  if◌then◌else◌,
}
use payrune.Prelude.Int.{ℤ, add64}
use payrune.Text.{Text, codes, ◌==ᵗ◌, is_empty, trim_space}
use payrune.Result.{Result, ok, err}
use payrune.Domain.Values.{lookup}
use payrune.Ports.Error.{
  Error, chain_observer_input_invalid, chain_observer_not_configured, chain_observer_failed,
}
use payrune.Ports.Outside.{ObserveOutput}
use payrune.Chains.Bitcoin.{Transaction, aggregate}
use payrune.Chains.Bitcoin.Client.{
  Config, Http, get_transactions, fetch_height, page_path, last_id, parse_network,
}
use payrune.Chains.Observer.{AddressInput, ChainObserver, is_input_invalid}
use payrune.Text.Escape.{path_escape}

-- defaultEsploraChainPageSize, and the bound of the loop over pages
abbrev pub page_size : ℕ
page_size = 25

abbrev pub max_pages : ℕ
max_pages = 10000

-- The output of ObserveAddress.
abbrev pub output_of : ℤ → Option (ℤ × ℤ) → Result Error ObserveOutput
output_of latest none = err chain_observer_failed
output_of latest (some (confirmed, unconfirmed)) = ok (record {
  observed_total = add64 confirmed unconfirmed;
  confirmed_total = confirmed;
  unconfirmed_total = unconfirmed;
  latest_block_height = latest;
})

module _ {X : Type 0} (http : Http X) (client : Config) where
  -- The loop of fetchAddressChainTransactions; `fuel` is what is left of its bound, at which it ends as
  -- at a short page.
  unfoldable pub fetch_pages :
      ℕ → Text → Text → List Transaction → X → Option (List Transaction) × X
  unfolding get_transactions
  fetch_pages zero path last found x = (some found, x)
  fetch_pages (suc fuel) path last found x =
      let (page, x') = get_transactions http client (page_path path last) x in
      elim page [
        | none ↦ (none, x')
        | some [] ↦ (some found, x')
        | some (tx ∷ rest) ↦
            let found' = found ++ tx ∷ rest in
            let next = last_id tx rest in
            elim (ltb (length (tx ∷ rest)) page_size || is_empty next || next ==ᵗ last) [
              | true ↦ (some found', x')
              | false ↦ fetch_pages fuel path next found' x'
            ]
      ]

  -- fetchAddressChainTransactions
  unfoldable pub fetch_chain : Text → X → Option (List Transaction) × X
  unfolding fetch_pages
  fetch_chain address x =
      fetch_pages max_pages
        (codes "/address/" ++ (path_escape (trim_space address) ++ codes "/txs/chain")) [] [] x

  -- fetchAddressMempoolTransactions
  unfoldable pub fetch_mempool : Text → X → Option (List Transaction) × X
  unfolding get_transactions
  fetch_mempool address x =
      get_transactions http client
        (codes "/address/" ++ (path_escape (trim_space address) ++ codes "/txs/mempool")) x

  -- ObserveAddress, with the client that was selected.
  unfoldable pub observe_with : AddressInput → X → Result Error ObserveOutput × X
  unfolding fetch_chain fetch_mempool aggregate
  observe_with input x =
      let address = trim_space input.address in
      let (chain, x1) = fetch_chain address x in
      elim chain [
        | none ↦ (err chain_observer_failed, x1)
        | some in_chain ↦
            let (mempool, x2) = fetch_mempool address x1 in
            elim mempool [
              | none ↦ (err chain_observer_failed, x2)
              | some in_mempool ↦ (
                output_of input.latest_block_height (
                    aggregate address input.issued_at input.required_confirmations
                      input.latest_block_height in_chain in_mempool),
                x2,
              )
            ]
      ]

-- selectClient
unfoldable pub select_client : List (Text × Config) → Text → Result Error Config
unfolding parse_network
select_client clients network = elim (parse_network network) [
  | none ↦ err chain_observer_input_invalid
  | some n ↦ elim (lookup clients n) [
    | none ↦ err chain_observer_not_configured
    | some client ↦ ok client
  ]
]

module _ {X : Type 0} (http : Http X) (clients : List (Text × Config)) where
  -- ObserveAddress
  unfoldable pub observe_address : AddressInput → X → Result Error ObserveOutput × X
  unfolding select_client observe_with
  observe_address input x =
      if is_empty (trim_space input.address) || is_input_invalid input
      then (err chain_observer_input_invalid, x)
      else elim (select_client clients input.network) [
        | err e ↦ (err e, x)
        | ok client ↦ observe_with http client input x
      ]

  -- FetchLatestBlockHeight
  unfoldable pub fetch_latest_block_height : Text → X → Result Error ℤ × X
  unfolding select_client fetch_height
  fetch_latest_block_height network x = elim (select_client clients network) [
    | err e ↦ (err e, x)
    | ok client ↦
        let (height, x') = fetch_height http client x in
        (elim height [ none ↦ err chain_observer_failed | some h ↦ ok h ], x')
  ]

  abbrev pub bitcoin_observer : ChainObserver X
  bitcoin_observer = record {
    fetch_latest_block_height = fetch_latest_block_height;
    observe_address = observe_address;
  }
