-- ===== src/Chains/Bitcoin/Client.antt =====
-- The client of esplora_receipt_observer.go and its observer. HTTP is a parameter: `get` returns the
-- body of an answer with status 200, and `decode` is json.Unmarshal into transactions.
use payrune.Prelude.{Option, none, some, List, [], ◌∷◌, ◌++◌, if◌then◌else◌, ◌*◌}
use payrune.Prelude.Int.{ℤ, pos, leb_ℤ, ltb_ℤ}
use payrune.Text.{Text, codes, is_empty, trim_space, to_lower}
use payrune.Time.{Duration, second}
use payrune.Domain.Values.{lookup}
use payrune.Ports.Validation.{identity_map}
use payrune.Chains.Bitcoin.{Transaction}
use payrune.Text.Escape.{path_escape}
use payrune.Text.Number.{parse_int64}

-- parseNetwork of network.go
unfoldable pub parse_network : Text → Option Text
parse_network raw =
    lookup (identity_map (codes "mainnet" ∷ codes "testnet4" ∷ [])) (to_lower (trim_space raw))

-- BitcoinEsploraObserverConfig
pub record Config : Type 0 where
  pub endpoint : Text
  pub username : Text
  pub password : Text
  pub timeout : Duration

-- newBitcoinAPIClient: the configuration that the client uses, with its defaults.
unfoldable pub client_config : Option Config → Option Config
client_config none = none
client_config (some config) =
    if is_empty (trim_space config.endpoint)
    then none
    else some (record config {
      endpoint = trim_space config.endpoint;
      username = trim_space config.username;
      timeout = if leb_ℤ config.timeout (pos 0) then pos (10 * second) else config.timeout;
    })

-- The loop of NewBitcoinEsploraReceiptObserver; the key that comes later in the map's order wins.
unfoldable pub configured :
    List (Text × Option Config) → List (Text × Config) → Option (List (Text × Config))
unfolding parse_network client_config
configured [] clients = some clients
configured ((raw, config) ∷ rest) clients = elim (parse_network raw) [
  | none ↦ none
  | some network ↦ elim (client_config config) [
    | none ↦ configured rest clients
    | some c ↦ configured rest ((network, c) ∷ clients)
  ]
]

-- NewBitcoinEsploraReceiptObserver
unfoldable pub new_observer : List (Text × Option Config) → Option (List (Text × Config))
unfolding configured
new_observer configs = elim (configured configs []) [
  | none ↦ none
  | some [] ↦ none
  | some (c ∷ clients) ↦ some (c ∷ clients)
]

pub record Http (X : Type 0) : Type 0 where
  pub get : Config → Text → X → Option Text × X
  pub decode : Text → Option (List Transaction)

module _ {X : Type 0} (http : Http X) where
  -- getJSON
  unfoldable pub get_transactions : Config → Text → X → Option (List Transaction) × X
  get_transactions client path x =
      let (body, x') = http.get client path x in
      (elim body [ none ↦ none | some text ↦ http.decode text ], x')

  -- fetchLatestBlockHeight
  unfoldable pub fetch_height : Config → X → Option ℤ × X
  fetch_height client x =
      let (body, x') = http.get client (codes "/blocks/tip/height") x in
      (
        elim body [
          | none ↦ none
          | some text ↦ elim (parse_int64 10 (trim_space text)) [
            | none ↦ none
            | some height ↦ if ltb_ℤ height (pos 0) then none else some height
          ]
        ],
        x',
      )

-- The id of the last transaction of a page.
abbrev pub last_id : Transaction → List Transaction → Text
last_id tx [] = trim_space tx.tx_id
last_id tx (next ∷ rest) = last_id next rest

-- The path of the page behind `last`.
abbrev pub page_path : Text → Text → Text
page_path path last = if is_empty last then path else path ++ (codes "/" ++ path_escape last)
