-- ===== src/Chains/Router/Laws.antt =====
-- What the router promises of the observers behind it.
use payrune.Prelude.{
  ◌≡◌, refl, sym, ◌∙◌, ap, Bool, true, false, Option, none, some, List, All, if◌then◌else◌, ◌⊎◌,
  inl, inr,
}
use payrune.Text.{Text}
use payrune.Result.{Result, ok, err, result-cases, err_injective, ok_injective}
use payrune.Domain.Observation.{validate}
use payrune.Domain.Values.{lookup}
use payrune.Domain.Values.Laws.{lookup-All}
use payrune.Ports.Error.{
  Error, chain_observer_input_invalid, chain_observer_not_configured, chain_observer_failed,
}
use payrune.Ports.Outside.{ObserveInput, ObserveOutput}
use payrune.Ports.Validation.{normalize_id}
use payrune.Chains.Observer.{AddressInput, ChainObserver, seen}
use payrune.Chains.Router.{resolve, observe_address, routed, routed_error, address_input}

abbrev IsRouterError : Error → Type 0
IsRouterError e =
    (e ≡ chain_observer_not_configured)
    ⊎ ((e ≡ chain_observer_input_invalid) ⊎ (e ≡ chain_observer_failed))

routed_error-IsRouterError : (e : Error) → IsRouterError (routed_error e)
routed_error-IsRouterError chain_observer_not_configured = inl refl
routed_error-IsRouterError chain_observer_input_invalid = inr (inl refl)
routed_error-IsRouterError _ = inr (inr refl)

-- Every output of the observer is an observation that the domain accepts.
abbrev pub IsValidating : {X : Type 0} → ChainObserver X → Type 0
IsValidating {X = X} o =
    (input : AddressInput) (x x' : X) (out : ObserveOutput)
    → o.observe_address input x ≡ (ok out, x')
    → validate (seen out) ≡ ok tt

-- The request of one chain: that of the ports with the normalised network.
abbrev pub forwarded : ObserveInput → Text → AddressInput
forwarded input network = record {
  asset_reference = input.asset_reference;
  network = network;
  address = input.address;
  issued_at = input.issued_at;
  observed_total = input.observed_total;
  confirmed_total = input.confirmed_total;
  unconfirmed_total = input.unconfirmed_total;
  required_confirmations = input.required_confirmations;
  latest_block_height = input.latest_block_height;
  since_block_height = input.since_block_height;
}

-- `resolve` by what its tests and its lookup give.
abbrev choose :
    {X : Type 0}
    → Bool
    → Bool
    → Option (ChainObserver X)
    → Text
    → Result Error (ChainObserver X × Text)
choose chain_valid network_valid found network =
    if chain_valid
    then if network_valid
      then elim found [ none ↦ err chain_observer_not_configured | some o ↦ ok (o, network) ]
      else err chain_observer_input_invalid
    else err chain_observer_input_invalid

module _ {X : Type 0} where
  choose-eq-ok :
      (c d : Bool) (found : Option (ChainObserver X)) (network : Text) {o : ChainObserver X}
      {n : Text}
      → choose c d found network ≡ ok (o, n)
      → (c ≡ true) × (d ≡ true) × (found ≡ some o) × (n ≡ network)
  choose-eq-ok true true none network h = cc
  choose-eq-ok true true (some o) network h =
      let same = ok_injective h in (refl, refl, ap (λ p. some p.0) same, sym (ap (λ p. p.1) same))
  choose-eq-ok true false found network h = cc
  choose-eq-ok false d found network h = cc

  choose-error :
      (c d : Bool) (found : Option (ChainObserver X)) (network : Text) {e : Error}
      → choose c d found network ≡ err e
      → IsRouterError e
  choose-error true true none network h = inl (err_injective (sym h))
  choose-error true true (some o) network h = cc
  choose-error true false found network h = inr (inl (err_injective (sym h)))
  choose-error false d found network h = inr (inl (err_injective (sym h)))

  resolve-eq-ok :
      (observers : List (Text × ChainObserver X)) (chain network : Text) {o : ChainObserver X}
      {n : Text}
      → resolve observers chain network ≡ ok (o, n)
      → ((normalize_id chain).1 ≡ true)
        × ((normalize_id network).1 ≡ true)
        × (lookup observers (normalize_id chain).0 ≡ some o)
        × (n ≡ (normalize_id network).0)
  unfolding resolve
  resolve-eq-ok observers chain network h =
      choose-eq-ok (normalize_id chain).1 (normalize_id network).1
        (lookup observers (normalize_id chain).0) (normalize_id network).0 h

  resolve-error :
      (observers : List (Text × ChainObserver X)) (chain network : Text) {e : Error}
      → resolve observers chain network ≡ err e
      → IsRouterError e
  unfolding resolve
  resolve-error observers chain network h =
      choose-error (normalize_id chain).1 (normalize_id network).1
        (lookup observers (normalize_id chain).0) (normalize_id network).0 h

  routed-IsRouterError :
      {A : Type 0} (r : Result Error A × X) {e : Error} → (routed r).0 ≡ err e → IsRouterError e
  routed-IsRouterError (ok a, x) h = cc
  routed-IsRouterError (err e, x) h = rw (← err_injective h) (routed_error-IsRouterError e)

  routed-eq-ok :
      {A : Type 0} (r : Result Error A × X) {a : A} {x : X} → routed r ≡ (ok a, x) → r ≡ (ok a, x)
  routed-eq-ok (ok a, x) h = h
  routed-eq-ok (err e, x) h = cc

  module _ (observers : List (Text × ChainObserver X)) (input : ObserveInput) (x : X) where
    observe-found :
        {o : ChainObserver X} {n : Text}
        → resolve observers input.chain input.network ≡ ok (o, n)
        → observe_address observers input x ≡ routed (o.observe_address (address_input input n) x)
    unfolding observe_address
    observe-found h = rw (h, observe_address) refl

    observe-missing :
        {e : Error}
        → resolve observers input.chain input.network ≡ err e
        → observe_address observers input x ≡ (err e, x)
    unfolding observe_address
    observe-missing h = rw (h, observe_address) refl

  -- The router fails with one of three errors only, whatever an observer behind it returns.
  router-IsRouterError :
      (observers : List (Text × ChainObserver X)) (input : ObserveInput) (x x' : X) {e : Error}
      → observe_address observers input x ≡ (err e, x')
      → IsRouterError e
  router-IsRouterError observers input x x' h =
      elim (result-cases (resolve observers input.chain input.network)) [
        | inl ((o, n), found) ↦
            routed-IsRouterError (o.observe_address (address_input input n) x)
              (ap (λ p. p.0) (sym (observe-found observers input x found) ∙ h))
        | inr (e, fails) ↦
            rw (← err_injective (ap (λ p. p.0) (sym (observe-missing observers input x fails) ∙ h)))
              (resolve-error observers input.chain input.network fails)
      ]

  -- What the router returns is what the observer of the normalised chain has returned for the request
  -- under the normalised network, every other field passed on as it is; both ids are well formed. Where
  -- every observer behind the router returns observations that the domain accepts, so does the router.
  pub router-IsValidating :
      (observers : List (Text × ChainObserver X)) (input : ObserveInput) (x x' : X)
      {out : ObserveOutput}
      → All (λ p. IsValidating p.1) observers
      → observe_address observers input x ≡ (ok out, x')
      → (o : ChainObserver X) × ((normalize_id input.chain).1 ≡ true)
        × ((normalize_id input.network).1 ≡ true)
        × (lookup observers (normalize_id input.chain).0 ≡ some o)
        × (o.observe_address (forwarded input (normalize_id input.network).0) x ≡ (ok out, x'))
        × (validate (seen out) ≡ ok tt)
  router-IsValidating observers input x x' {out} all h =
      elim (result-cases (resolve observers input.chain input.network)) [
        | inl ((o, n), found) ↦
            let (chain, network, here, same) =
              resolve-eq-ok observers input.chain input.network found in
            let made : o.observe_address (forwarded input n) x ≡ (ok out, x') =
              routed-eq-ok (o.observe_address (address_input input n) x)
                (sym (observe-found observers input x found) ∙ h) in
            (
              o,
              chain,
              network,
              here,
              rw (← same) made,
              lookup-All IsValidating observers (normalize_id input.chain).0 all here
                  (forwarded input n) x x' out made,
            )
        | inr (e, fails) ↦
            absurd (let e = ap (λ p. p.0) (sym (observe-missing observers input x fails) ∙ h) in cc)
      ]
