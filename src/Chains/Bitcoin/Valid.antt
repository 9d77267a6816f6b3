-- ===== src/Chains/Bitcoin/Valid.antt =====
-- What the Bitcoin observer returns.
use mathlib.Core.Path.{subst}
use payrune.Prelude.{
  ◌≡◌, ◌≢◌, refl, sym, ap, ◌∙◌, ◌<◌, ◌^◌, ◌++◌, ◌||◌, Option, some, none, List, Option-cases, inl,
  inr, arith, false,
}
use payrune.Prelude.Int.{ℤ, pos, ltb_ℤ, add64}
use payrune.Text.{Text, trim_space, is_empty}
use payrune.Result.{ok, ok_injective}
use payrune.Time.{Time}
use payrune.Domain.Observation.{validate}
use payrune.Ports.Error.{chain_observer_failed, chain_observer_input_invalid}
use payrune.Ports.Outside.{ObserveOutput}
use payrune.Chains.Bitcoin.{Transaction, aggregate}
use payrune.Chains.Bitcoin.Client.{Http, Config}
use payrune.Chains.Bitcoin.Observe.{
  output_of, observe_with, observe_address, fetch_chain, fetch_mempool, select_client,
}
use payrune.Chains.Bitcoin.Sound.{received_in, aggregate-bounds, add64_pos}
use payrune.Chains.Observer.{
  AddressInput, seen, is_input_invalid, answered, passed, selected, height_valid, validate-parts,
}

failed_output :
    (latest : ℤ) (totals : Option (ℤ × ℤ)) {out : ObserveOutput}
    → totals ≡ none
    → output_of latest totals ≢ ok out
failed_output latest none e h = cc
failed_output latest (some _) e h = cc

abbrev output_with : ℤ → ℤ → ℤ → ObserveOutput
output_with latest confirmed unconfirmed = record {
  observed_total = add64 confirmed unconfirmed;
  confirmed_total = confirmed;
  unconfirmed_total = unconfirmed;
  latest_block_height = latest;
}

made_output :
    (latest : ℤ) (totals : Option (ℤ × ℤ)) (confirmed unconfirmed : ℤ) {out : ObserveOutput}
    → totals ≡ some (confirmed, unconfirmed)
    → output_of latest totals ≡ ok out
    → output_with latest confirmed unconfirmed ≡ out
made_output latest totals confirmed unconfirmed e h =
    let made : output_of latest totals ≡ ok (output_with latest confirmed unconfirmed) =
      rw e refl in
    ok_injective (sym made ∙ h)

output_of-valid :
    (address : Text) (issued_at : Time) (required latest : ℤ) (chain mempool : List Transaction)
    {out : ObserveOutput}
    → received_in (trim_space address) (chain ++ mempool) < 2 ^ 63
    → ltb_ℤ latest (pos 0) ≡ false
    → output_of latest (aggregate address issued_at required latest chain mempool) ≡ ok out
    → validate (seen out) ≡ ok tt
output_of-valid address issued_at required latest chain mempool {out = out} fits high h =
    elim (Option-cases (aggregate address issued_at required latest chain mempool)) [
      | inl fails ↦ absurd (failed_output latest _ fails h)
      | inr ((confirmed, unconfirmed), e) ↦
          let (c, u, is_c, is_u, bound) =
            aggregate-bounds address issued_at required latest chain mempool fits e in
          let is_out = made_output latest _ confirmed unconfirmed e h in
          rw (← is_out) (
            rw is_c (
              rw is_u (
                rw (add64_pos c u (omega (arith, bound, fits)))
                  (validate-parts c u latest (omega (arith, bound, fits)) high))))
    ]

module _ {X : Type 0} (http : Http X) where
  observe_with-valid :
      (client : Config) (input : AddressInput) (x : X) {out : ObserveOutput}
      → is_input_invalid input ≡ false
      → ((in_chain in_mempool : List Transaction)
          → (fetch_chain http client (trim_space input.address) x).0 ≡ some in_chain
          → (fetch_mempool http client
              (trim_space input.address)
              (fetch_chain http client (trim_space input.address) x).1).0
            ≡ some in_mempool
          → received_in (trim_space (trim_space input.address)) (in_chain ++ in_mempool) < 2 ^ 63)
      → (observe_with http client input x).0 ≡ ok out
      → validate (seen out) ≡ ok tt
  unfolding observe_with
  observe_with-valid client input x valid fits h =
      let address = trim_space input.address in
      let chain = fetch_chain http client address x in
      let (in_chain, first_answer, later) = answered chain_observer_failed chain.1 chain.0 _ h in
      let mempool = fetch_mempool http client address chain.1 in
      let (in_mempool, second_answer, last) =
        answered chain_observer_failed mempool.1 mempool.0 _ later in
      output_of-valid address input.issued_at input.required_confirmations input.latest_block_height
        in_chain in_mempool (fits in_chain in_mempool first_answer second_answer)
        (height_valid input valid) last

  -- An output of the Bitcoin observer is an observation that the domain accepts, so long as what the
  -- listed transactions bring to the address fits an int64 together.
  pub bitcoin_output-valid :
      (clients : List (Text × Config)) (client : Config) (input : AddressInput) (x x' : X)
      {out : ObserveOutput}
      → select_client clients input.network ≡ ok client
      → ((in_chain in_mempool : List Transaction)
          → (fetch_chain http client (trim_space input.address) x).0 ≡ some in_chain
          → (fetch_mempool http client
              (trim_space input.address)
              (fetch_chain http client (trim_space input.address) x).1).0
            ≡ some in_mempool
          → received_in (trim_space (trim_space input.address)) (in_chain ++ in_mempool) < 2 ^ 63)
      → observe_address http clients input x ≡ (ok out, x')
      → validate (seen out) ≡ ok tt
  unfolding observe_address
  bitcoin_output-valid clients client input x x' {out = out} chosen fits h =
      let (valid, later) =
        passed x chain_observer_input_invalid
          (is_empty (trim_space input.address) || is_input_invalid input) _ (ap (λ p. p.0) h) in
      let (other, chosen_too, last) = selected x (select_client clients input.network) _ later in
      let same : client ≡ other = ok_injective (sym chosen ∙ chosen_too) in
      observe_with-valid client input x (ground arith) fits
        (subst (λ c. (observe_with http c input x).0 ≡ ok out) (sym same) last)
