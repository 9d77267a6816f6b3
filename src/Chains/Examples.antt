-- ===== src/Chains/Examples.antt =====
-- The observers on small chains, and the theorems about them there.
use payrune.Prelude.{
  ℕ, ap, take, length, sym, ◌∙◌, All, ◌+◌, ◌^◌, ◌<◌, ◌≡◌, refl, some, List, [], ◌∷◌, ◌++◌, true,
  false, arith, if◌then◌else◌,
}
use payrune.Prelude.Int.{add64, sub64, pos}
use payrune.Text.{Text, codes, trim_space, trim_left, is_space, to_lower, lower, byte_len, ◌==ᵗ◌}
use payrune.Text.Id.{is_id_char, is_portable_id}
use payrune.Result.{ok, err}
use payrune.Domain.Observation.{validate}
use payrune.Ports.Error.{chain_observer_not_configured}
use payrune.Ports.Outside.{ObserveInput, ObserveOutput}
use payrune.Ports.Validation.{normalize_id}
use payrune.Chains.Bitcoin.{inbound_from, confirmations, Transaction, aggregate}
use payrune.Chains.Bitcoin.Client.{Http, get_transactions}
use payrune.Chains.Bitcoin.Counted.{aggregate-eq}
use payrune.Chains.Bitcoin.Pages.{IsServing, chain_path, fetch_chain-All}
use payrune.Chains.Bitcoin.Sound.{received, received_in}
use payrune.Chains.Bitcoin.Sums.{kind_of, distinct, sum_from}
use payrune.Chains.Bitcoin.Valid.{bitcoin_output-valid}
use payrune.Chains.Ethereum.Observe.{ethereum_observer}
use payrune.Chains.Ethereum.Sound.{observe_address-valid}
use payrune.Chains.Observer.{AddressInput, ChainObserver, seen}
use payrune.Chains.Router.{observe_address}
use payrune.Domain.Values.{lookup}
use payrune.Chains.Router.Laws.{IsValidating, forwarded, router-IsValidating}
use payrune.Prelude.Rows.{some_injective}
use payrune.Text.Escape.{path_escape, escape_bytes, utf8}
use payrune.Text.Number.{parse_int64, digit_value}
use payrune.Chains.Bitcoin.Client as Esplora
use payrune.Chains.Ethereum as Node
use payrune.Chains.Ethereum.Observe as Node_observer
use payrune.Chains.Bitcoin.Observe as Esplora_observer

-- 400 in a block with six confirmations, and 600 in the mempool.
abbrev in_block : Transaction
in_block = record {
  tx_id = codes "a";
  outputs =
      record { value = pos 400; addr = codes "bc1q" }
      ∷ record { value = pos 9; addr = codes "other" }
      ∷ [];
  status = record { confirmed = true; block_height = pos 95; block_time = pos 1700000000 };
}

abbrev in_pool : Transaction
in_pool = record {
  tx_id = codes "b";
  outputs = record { value = pos 600; addr = codes "bc1q" } ∷ [];
  status = record { confirmed = false; block_height = pos 0; block_time = pos 0 };
}

abbrev chain_txs : List Transaction
chain_txs = in_block ∷ []

abbrev pool_txs : List Transaction
pool_txs = in_pool ∷ []

totals :
    aggregate (codes "bc1q") (pos 50) (pos 6) (pos 100) chain_txs pool_txs ≡ some (pos 400, pos 600)
unfolding aggregate trim_space trim_left is_space inbound_from add64 sub64
totals = refl

-- The same at the theorem's reference definition.
aggregate-eq_example :
    aggregate (codes "bc1q") (pos 50) (pos 6) (pos 100) chain_txs (pool_txs ++ chain_txs)
    ≡ some (pos 400, pos 600)
unfolding distinct sum_from kind_of inbound_from confirmations add64 sub64 trim_space trim_left
    is_space
aggregate-eq_example =
    aggregate-eq (codes "bc1q") (pos 50) (pos 6) (pos 100) chain_txs (pool_txs ++ chain_txs)

-- A server with these transactions; what is asked of it is counted.
abbrev esplora : Http ℕ
esplora = record {
  get = λ client path x. (some path, x + 1);
  decode = λ body. some (if body ==ᵗ codes "/address/bc1q/txs/chain" then chain_txs else pool_txs);
}

abbrev client : Esplora.Config
client = record { endpoint = codes "http://node"; username = []; password = []; timeout = pos 1 }

abbrev clients : List (Text × Esplora.Config)
clients = (codes "mainnet", client) ∷ []

abbrev asked : AddressInput
asked = record {
  asset_reference = [];
  network = codes "mainnet";
  address = codes "bc1q";
  issued_at = pos 50;
  observed_total = pos 0;
  confirmed_total = pos 0;
  unconfirmed_total = pos 0;
  required_confirmations = pos 6;
  latest_block_height = pos 100;
  since_block_height = pos 0;
}

abbrev reported : ObserveOutput
reported = record {
  observed_total = pos 1000;
  confirmed_total = pos 400;
  unconfirmed_total = pos 600;
  latest_block_height = pos 100;
}

reports : Esplora_observer.observe_address esplora clients asked 0 ≡ (ok reported, 2)
unfolding Esplora_observer.observe_address trim_space trim_left is_space inbound_from add64 sub64
    to_lower lower path_escape escape_bytes utf8
reports = refl

chain_fetched : (Esplora_observer.fetch_chain esplora client (codes "bc1q") 0).0 ≡ some chain_txs
unfolding Esplora_observer.fetch_chain trim_space trim_left is_space path_escape escape_bytes utf8
chain_fetched = refl

pool_fetched : (Esplora_observer.fetch_mempool esplora client (codes "bc1q") 1).0 ≡ some pool_txs
unfolding Esplora_observer.fetch_mempool trim_space trim_left is_space path_escape escape_bytes utf8
pool_fetched = refl

-- A server that answers at every place of an address with one transaction.
abbrev paged : Http ℕ
paged = record {
  get = λ client path x. (some path, x + 1);
  decode = λ body. some (if body ==ᵗ codes "/address/bc1q/txs/chain" then chain_txs else []);
}

abbrev first : List Transaction → Transaction
first [] = in_block
first (tx ∷ txs) = tx

abbrev behind : List Transaction → List Transaction
behind [] = []
behind (tx ∷ txs) = txs

paged-IsServing : IsServing paged client (chain_path (codes "bc1q")) chain_txs
unfolding take get_transactions trim_space trim_left is_space path_escape escape_bytes utf8
paged-IsServing [] rest x whole = rw whole refl
paged-IsServing (f ∷ []) rest x whole = rw (ap first whole) (rw (ap behind whole) refl)
paged-IsServing (f ∷ g ∷ found) rest x whole = absurd (omega (arith, ap length whole))

fetch_chain-All_example :
    (Esplora_observer.fetch_chain paged client (codes "bc1q") 0).0 ≡ some chain_txs
unfolding trim_space trim_left is_space
fetch_chain-All_example =
    fetch_chain-All paged client (codes "bc1q") chain_txs 0 paged-IsServing (refl, tt) (tt, tt)
      (omega arith)

few : received_in (codes "bc1q") (chain_txs ++ pool_txs) < 2 ^ 63
unfolding received_in received trim_space trim_left is_space
few = omega arith

bitcoin_output-valid_example : validate (seen reported) ≡ ok tt
unfolding Esplora_observer.select_client Esplora_observer.fetch_chain to_lower lower trim_space
    trim_left is_space path_escape escape_bytes utf8
bitcoin_output-valid_example =
    bitcoin_output-valid esplora clients client asked 0 2 refl
      (λ in_chain in_mempool c m.
        rw (← some_injective (sym chain_fetched ∙ c))
          (rw (← some_injective (sym pool_fetched ∙ m)) few))
      reports

-- A node where every balance is 100.
abbrev node : Node.Rpc ℕ
node = record {
  height = λ c x. (some (codes "0x64"), x + 1);
  balance = λ c a b x. (some (codes "0x64"), x + 1);
  contract = λ c t d b x. (some (codes "0x64"), x + 1);
}

abbrev node_clients : List (Text × Node.Config)
node_clients =
    (
      codes "mainnet",
      record { endpoint = codes "http://node"; username = []; password = []; timeout = pos 1 },
    )
    ∷ []

abbrev eth_address : Text
eth_address = codes "0x00000000000000000000000000000000000000Aa"

abbrev eth_asked : AddressInput
eth_asked = record asked { address = eth_address }

abbrev eth_reported : ObserveOutput
eth_reported = record {
  observed_total = pos 100;
  confirmed_total = pos 100;
  unconfirmed_total = pos 0;
  latest_block_height = pos 100;
}

eth_reports : Node_observer.observe_address node node_clients eth_asked 0 ≡ (ok eth_reported, 2)
unfolding Node_observer.observe_address trim_space trim_left is_space add64 sub64 to_lower lower
    digit_value normalize_id is_portable_id byte_len is_id_char parse_int64
eth_reports = refl

observe_address-valid_example : validate (seen eth_reported) ≡ ok tt
observe_address-valid_example = observe_address-valid node node_clients eth_asked 0 2 eth_reports

abbrev observers : List (Text × ChainObserver ℕ)
observers = (codes "ethereum", ethereum_observer node node_clients) ∷ []

observers-IsValidating : All (λ p. IsValidating p.1) observers
observers-IsValidating =
    (λ input x x' out h. observe_address-valid node node_clients input x x' h, tt)

abbrev routed_input : Text → ObserveInput
routed_input chain = record {
  asset_reference = [];
  chain = chain;
  network = codes "mainnet";
  address = eth_address;
  issued_at = pos 50;
  observed_total = pos 0;
  confirmed_total = pos 0;
  unconfirmed_total = pos 0;
  required_confirmations = pos 6;
  latest_block_height = pos 100;
  since_block_height = pos 0;
}

routes : observe_address observers (routed_input (codes "ethereum")) 0 ≡ (ok eth_reported, 2)
unfolding observe_address Node_observer.observe_address trim_space trim_left is_space add64 sub64
    to_lower lower digit_value normalize_id is_portable_id byte_len is_id_char parse_int64
routes = refl

router-IsValidating_example :
    let input = routed_input (codes "ethereum") in
    (o : ChainObserver ℕ) × ((normalize_id input.chain).1 ≡ true)
    × ((normalize_id input.network).1 ≡ true)
    × (lookup observers (normalize_id input.chain).0 ≡ some o)
    × (o.observe_address (forwarded input (normalize_id input.network).0) 0 ≡ (ok eth_reported, 2))
    × (validate (seen eth_reported) ≡ ok tt)
router-IsValidating_example =
    router-IsValidating observers (routed_input (codes "ethereum")) 0 2 observers-IsValidating
      routes

no_route :
    observe_address observers (routed_input (codes "dogecoin")) 0
    ≡ (err chain_observer_not_configured, 0)
unfolding observe_address trim_space trim_left is_space to_lower lower normalize_id is_portable_id
    byte_len is_id_char
no_route = refl
