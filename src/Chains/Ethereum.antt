-- ===== src/Chains/Ethereum.antt =====
-- rpc_receipt_observer.go and address_hex.go of internal/adapters/outbound/ethereum: the balance of an
-- address at two heights. JSON over HTTP is a parameter: `balance` is eth_getBalance, `contract` is
-- eth_call, and `height` is eth_blockNumber, each with the text of its result.
pub mod Observe
pub mod Sound
use payrune.Prelude.{
  ℕ, zero, suc, ◌+◌, ◌*◌, ◌%◌, ◌/◌, Bool, true, false, not, ◌||◌, ◌&&◌, ◌==◌, Option, none, some,
  List, [], ◌∷◌, ◌++◌, length, is_some, is_none, all, map, if◌then◌else◌,
}
use payrune.Prelude.Int.{ℤ, pos, leb_ℤ, ltb_ℤ, sub64}
use payrune.Text.{Text, codes, is_empty, trim_space, to_lower, strip_prefix}
use payrune.Time.{Duration, second}
use payrune.Ports.Validation.{normalize_id}
use payrune.Text.Number.{parse_int64, digit_value, format_hex}

-- What is left behind 0x or 0X.
unfoldable pub hex_part : Text → Option Text
unfolding strip_prefix
hex_part s = elim (strip_prefix (codes "0x") s) [
  | some rest ↦ some rest
  | none ↦ strip_prefix (codes "0X") s
]

abbrev pub is_hex : ℕ → Bool
is_hex c = elim (digit_value c) [ none ↦ false | some d ↦ payrune.Prelude.ltb d 16 ]

-- normalizeFixedHex for 20 bytes: hex.DecodeString takes two digits for each byte.
unfoldable pub normalize_address : Text → Option Text
unfolding hex_part
normalize_address raw = elim (hex_part (trim_space raw)) [
  | none ↦ none
  | some digits ↦
      if all is_hex digits && length digits == 40
      then some (codes "0x" ++ to_lower digits)
      else none
]

-- parseEthereumHexQuantityToInt64
unfoldable pub parse_quantity : Text → Option ℤ
unfolding hex_part
parse_quantity raw = elim (hex_part (trim_space raw)) [
  | none ↦ none
  | some digits ↦ elim (parse_int64 16 digits) [
    | none ↦ none
    | some value ↦ if ltb_ℤ value (pos 0) then none else some value
  ]
]

-- encodeEthereumBlockNumber
unfoldable pub encode_block_number : ℤ → Text
encode_block_number height = codes "0x" ++ format_hex height

-- safeSubtractInt64NonNegative
unfoldable pub safe_subtract : ℤ → ℤ → Option ℤ
safe_subtract left right =
    if ltb_ℤ left (pos 0) || ltb_ℤ right (pos 0)
    then none
    else if ltb_ℤ left right
    then none
    else some (sub64 left right)

-- encodeERC20BalanceOfCall: the selector and the address in 32 bytes.
unfoldable pub encode_balance_of : Text → Option Text
unfolding normalize_address
encode_balance_of address = elim (normalize_address address) [
  | none ↦ none
  | some a ↦ elim (hex_part a) [
    | none ↦ none
    | some digits ↦ some (codes "0x70a08231000000000000000000000000" ++ digits)
  ]
]

-- EthereumRPCObserverConfig
pub record Config : Type 0 where
  pub endpoint : Text
  pub username : Text
  pub password : Text
  pub timeout : Duration

-- newEthereumRPCClient
unfoldable pub client_config : Option Config → Option Config
client_config none = none
client_config (some config) =
    if is_empty (trim_space config.endpoint)
    then none
    else some (record config {
      endpoint = trim_space config.endpoint;
      username = trim_space config.username;
      timeout = if leb_ℤ config.timeout (pos 0) then pos (10 * second) else config.timeout;
    })

-- The loop of NewEthereumRPCReceiptObserver; the key that comes later in the map's order wins.
unfoldable pub configured :
    List (Text × Option Config) → List (Text × Config) → Option (List (Text × Config))
unfolding client_config
configured [] clients = some clients
configured ((raw, config) ∷ rest) clients =
    let (network, valid) = normalize_id raw in
    elim valid [
      | false ↦ none
      | true ↦ elim (client_config config) [
        | none ↦ configured rest clients
        | some c ↦ configured rest ((network, c) ∷ clients)
      ]
    ]

-- NewEthereumRPCReceiptObserver
unfoldable pub new_observer : List (Text × Option Config) → Option (List (Text × Config))
unfolding configured
new_observer configs = elim (configured configs []) [
  | none ↦ none
  | some [] ↦ none
  | some (c ∷ clients) ↦ some (c ∷ clients)
]

-- Calls of `call`, by method; the block is a text.
pub record Rpc (X : Type 0) : Type 0 where
  pub height : Config → X → Option Text × X
  pub balance : Config → Text → Text → X → Option Text × X
  pub contract : Config → Text → Text → Text → X → Option Text × X

abbrev pub quantity : {X : Type 0} → Option Text × X → Option ℤ × X
quantity (none, x) = (none, x)
quantity (some raw, x) = (parse_quantity raw, x)

module _ {X : Type 0} (rpc : Rpc X) (client : Config) where
  -- fetchBalanceAtBlock
  unfoldable pub fetch_balance : Text → ℤ → X → Option ℤ × X
  unfolding encode_block_number parse_quantity
  fetch_balance address height x =
      if ltb_ℤ height (pos 0)
      then (none, x)
      else quantity (rpc.balance client address (encode_block_number height) x)

  -- fetchERC20BalanceAtBlock
  unfoldable pub fetch_token_balance : Text → Text → ℤ → X → Option ℤ × X
  unfolding encode_balance_of encode_block_number parse_quantity
  fetch_token_balance token address height x =
      if ltb_ℤ height (pos 0) then (none, x) else elim (encode_balance_of address) [
        | none ↦ (none, x)
        | some call ↦ quantity (rpc.contract client token call (encode_block_number height) x)
      ]

  -- fetchObservedBalanceAtBlock; the token is none for the coin itself.
  unfoldable pub fetch_observed : Option Text → Text → ℤ → X → Option ℤ × X
  unfolding fetch_balance fetch_token_balance
  fetch_observed none address height x = fetch_balance address height x
  fetch_observed (some token) address height x = fetch_token_balance token address height x
