-- ===== src/Chains/Ethereum/Sound.antt =====
-- What the Ethereum observer returns, whatever the node answers.
use payrune.Prelude.{
  if◌then◌else◌, ◌≡◌, refl, ◌∙◌, sym, ◌<◌, ◌^◌, ◌+◌, ◌-◌, Option, Bool, true, false, ℕ,
  Option-cases, some, none, inl, inr, arith, List, ap,
}
use payrune.Prelude.Int.{ℤ, pos, ltb_ℤ, sub64, IsInt64, negsuc}
use payrune.Text.{Text, trim_space}
use payrune.Result.{ok, err, ok_injective}
use payrune.Domain.Observation.{validate}
use payrune.Ports.Error.{chain_observer_failed, chain_observer_input_invalid}
use payrune.Ports.Outside.{ObserveOutput}
use payrune.Chains.Ethereum.{
  safe_subtract, Rpc, Config, parse_quantity, fetch_observed, fetch_balance, hex_part, quantity,
  fetch_token_balance, encode_balance_of, encode_block_number, normalize_address,
}
use payrune.Chains.Ethereum.Observe.{
  observe_address, observe_with, fetch_confirmed, token_of, select_client, output_of,
}
use payrune.Chains.Observer.{
  seen, validate-parts, AddressInput, answered, is_input_invalid, height_valid, passed, selected,
}
use payrune.Prelude.Rows.{both_steps}
use payrune.Text.Number.{parse_int64}
use payrune.Text.Number.Laws.{parse_int64-IsInt64}

safe_subtract-parts :
    (left right : ℤ) {rest : ℤ}
    → safe_subtract left right ≡ some rest
    → IsInt64 left
    → (c u : ℕ) × (left ≡ pos (c + u)) × (right ≡ pos c) × (rest ≡ pos u) × (c + u < 2 ^ 63)
unfolding safe_subtract sub64
safe_subtract-parts (pos o) (pos c) h fits =
    (c, o - c, ground arith, refl, ground arith, ground arith)
safe_subtract-parts (pos o) (negsuc c) h fits = absurd (ground arith)
safe_subtract-parts (negsuc o) right h fits = absurd (ground arith)

abbrev parts_of : ℤ → ℤ → ℤ → ℤ → ObserveOutput
parts_of latest observed confirmed rest = record {
  observed_total = observed;
  confirmed_total = confirmed;
  unconfirmed_total = rest;
  latest_block_height = latest;
}

output_of-step :
    (latest observed confirmed : ℤ)
    → output_of latest observed confirmed ≡ elim (safe_subtract observed confirmed) [
      | none ↦ err chain_observer_failed
      | some rest ↦ ok (parts_of latest observed confirmed rest)
    ]
unfolding output_of
output_of-step latest observed confirmed = refl

output_of-valid :
    (latest observed confirmed : ℤ) {out : ObserveOutput}
    → IsInt64 observed
    → ltb_ℤ latest (pos 0) ≡ false
    → output_of latest observed confirmed ≡ ok out
    → validate (seen out) ≡ ok tt
output_of-valid latest observed confirmed {out = out} fits high h =
    let step = output_of-step latest observed confirmed in
    elim (Option-cases (safe_subtract observed confirmed)) [
      | inl fails ↦ absurd (
          let e : output_of latest observed confirmed ≡ err chain_observer_failed =
            step ∙ rw fails refl in
          cc)
      | inr (rest, e) ↦
          let (c, u, sum, first_part, second_part, small) =
            safe_subtract-parts observed confirmed e fits in
          let made : output_of latest observed confirmed
              ≡ ok (parts_of latest observed confirmed rest) =
            step ∙ rw e refl in
          let is_out : parts_of latest observed confirmed rest ≡ out =
            ok_injective (sym made ∙ h) in
          rw (← is_out)
            (rw sum (rw first_part (rw second_part (validate-parts c u latest small high))))
    ]

-- What a node answers is an int64.
kept_value : (y : ℤ) {z : ℤ} → (if ltb_ℤ y (pos 0) then none else some y) ≡ some z → y ≡ z
kept_value y h = ground arith

parse_quantity-IsInt64 : (raw : Text) {z : ℤ} → parse_quantity raw ≡ some z → IsInt64 z
unfolding parse_quantity
parse_quantity-IsInt64 raw h =
    let (digits, behind, later) = both_steps (hex_part (trim_space raw)) _ h in
    let (y, read, kept) = both_steps (parse_int64 16 digits) _ later in
    rw (← kept_value y kept) (parse_int64-IsInt64 16 digits read)

quantity-IsInt64 :
    {X : Type 0} (answer : Option Text × X) {z : ℤ} → (quantity answer).0 ≡ some z → IsInt64 z
quantity-IsInt64 (none, x) h = cc
quantity-IsInt64 (some raw, x) h = parse_quantity-IsInt64 raw h

unless :
    {X : Type 0} (b : Bool) (x : X) (q : Option ℤ × X) {z : ℤ}
    → (if b then (none, x) else q).0 ≡ some z
    → q.0 ≡ some z
unless true x q h = cc
unless false x q h = h

call-IsInt64 :
    {X : Type 0} (call : Option Text) (x : X) (answer : Text → Option Text × X) {z : ℤ}
    → ◌≡◌ {A = Option ℤ}
        ((elim call as (λ _. Option ℤ × X) [ none ↦ (none, x) | some c ↦ quantity (answer c) ]).0)
        (some z)
    → IsInt64 z
call-IsInt64 none x answer h = cc
call-IsInt64 (some c) x answer h = quantity-IsInt64 (answer c) h

module _ {X : Type 0} (rpc : Rpc X) (client : Config) where
  fetch_observed-IsInt64 :
      (token : Option Text) (address : Text) (height : ℤ) (x : X) {z : ℤ}
      → (fetch_observed rpc client token address height x).0 ≡ some z
      → IsInt64 z
  unfolding fetch_observed fetch_balance fetch_token_balance
  fetch_observed-IsInt64 none address height x h =
      quantity-IsInt64 _ (unless (ltb_ℤ height (pos 0)) x _ h)
  fetch_observed-IsInt64 (some token) address height x h =
      call-IsInt64 (encode_balance_of address) x
        (λ call. rpc.contract client token call (encode_block_number height) x)
        (unless (ltb_ℤ height (pos 0)) x _ h)

module _ {X : Type 0} (rpc : Rpc X) where
  observe_with-valid :
      (client : Config) (token : Option Text) (address : Text) (input : AddressInput) (x : X)
      {out : ObserveOutput}
      → is_input_invalid input ≡ false
      → (observe_with rpc client token address input x).0 ≡ ok out
      → validate (seen out) ≡ ok tt
  unfolding observe_with
  observe_with-valid client token address input x valid h =
      let total = fetch_observed rpc client token address input.latest_block_height x in
      let (observed, first_answer, later) = answered chain_observer_failed total.1 total.0 _ h in
      let part = fetch_confirmed rpc client token address input total.1 in
      let (confirmed, second_answer, last) = answered chain_observer_failed part.1 part.0 _ later in
      output_of-valid input.latest_block_height observed confirmed
        (fetch_observed-IsInt64 rpc client token address input.latest_block_height x first_answer)
        (height_valid input valid) last

  -- Whatever the node answers, an output of the Ethereum observer is an observation that the domain
  -- accepts: its totals are not negative and the confirmed and the unconfirmed one add up to the
  -- observed one.
  pub observe_address-valid :
      (clients : List (Text × Config)) (input : AddressInput) (x x' : X) {out : ObserveOutput}
      → observe_address rpc clients input x ≡ (ok out, x')
      → validate (seen out) ≡ ok tt
  unfolding observe_address
  observe_address-valid clients input x x' h =
      let (address, named, checked) =
        answered chain_observer_input_invalid x (normalize_address input.address) _
          (ap (λ p. p.0) h) in
      let (valid, later) =
        passed x chain_observer_input_invalid (is_input_invalid input) _ checked in
      let (token, known, rest) =
        answered chain_observer_input_invalid x (token_of input.asset_reference) _ later in
      let (client, chosen, last) = selected x (select_client clients input.network) _ rest in
      observe_with-valid client token address input x valid last
