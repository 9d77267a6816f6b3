-- ===== src/Chains/Bitcoin/Sound.antt =====
-- The totals of the Bitcoin observer as integers: they do not wrap while all that the transactions
-- bring fits an int64, and the observation of them is accepted.
use payrune.Prelude.{
  ◌≡◌, refl, ◌∙◌, sym, Bool-cases, Option-cases, none, some, List, [], ◌∷◌, ◌++◌, if◌then◌else◌,
  arith, inl, inr, ℕ, ◌+◌, ◌<◌, ◌≤◌, ◌^◌, ap, ◌≢◌,
}
use payrune.Prelude.Int.{ℤ, pos, pos_part, add64}
use payrune.Text.{Text, trim_space}
use payrune.Time.{Time}
use payrune.Chains.Bitcoin.{
  process_all, process_transaction, is_seen, inbound_value, aggregate, with_id, no_totals, TxOutput,
  Transaction, Totals, Scope, is_inbound, inbound_from,
}
use payrune.Chains.Bitcoin.Counted.{scope_of, aggregate-append, both}
use payrune.Chains.Bitcoin.Sums.{
  Kind, added, process_all-cons, process_transaction-old, kind_of, process_transaction-new,
}
use payrune.Prelude.Rows.{some_injective}

-- What outputs and transactions bring to an address, with no bound.
unfoldable pub received : Text → List TxOutput → ℕ
received address [] = 0
received address (o ∷ rest) =
    (if is_inbound address o then pos_part o.value else 0) + received address rest

unfoldable pub received_in : Text → List Transaction → ℕ
unfolding received
received_in address [] = 0
received_in address (tx ∷ rest) = received address tx.outputs + received_in address rest

pub add64_pos : (a b : ℕ) → a + b < 2 ^ 63 → add64 (pos a) (pos b) ≡ pos (a + b)
unfolding add64
add64_pos a b h = ground arith

inbound_step :
    (address : Text) (n : ℕ) (o : TxOutput)
    → n + (if is_inbound address o then pos_part o.value else 0) < 2 ^ 63
    → (if is_inbound address o then add64 (pos n) o.value else pos n)
      ≡ pos (n + (if is_inbound address o then pos_part o.value else 0))
inbound_step address n o h = elim (Bool-cases (is_inbound address o)) [
  | inl counts ↦ ground (arith, add64_pos n (pos_part o.value))
  | inr other ↦ rw other (ap pos (omega arith))
]

inbound_from-exact :
    (address : Text) (n : ℕ) (outputs : List TxOutput)
    → n + received address outputs < 2 ^ 63
    → inbound_from address (pos n) outputs ≡ pos (n + received address outputs)
unfolding inbound_from received
inbound_from-exact address n [] h = ground arith
inbound_from-exact address n (o ∷ rest) h =
    let part : ℕ = if is_inbound address o then pos_part o.value else 0 in
    rw (inbound_step address n o (ground arith))
      (inbound_from-exact address (n + part) rest (omega (arith, h)) ∙ ap pos (omega arith))

-- The totals are numbers that together are at most `n`.
pub record IsHeld (t : Totals) (n : ℕ) : Type 0 where
  pub confirmed : ℕ
  pub unconfirmed : ℕ
  pub is_confirmed : t.confirmed ≡ pos confirmed
  pub is_unconfirmed : t.unconfirmed ≡ pos unconfirmed
  pub at_most : confirmed + unconfirmed ≤ n

added-IsHeld :
    (k : Kind) (t t' : Totals) (n r : ℕ)
    → IsHeld t n
    → n + r < 2 ^ 63
    → added k (pos r) t ≡ some t'
    → IsHeld t' (n + r)
added-IsHeld Kind.broken t t' n r held fits h = cc
added-IsHeld Kind.ignored t t' n r held fits h = rw (← some_injective h) (record {
  confirmed = held.confirmed;
  unconfirmed = held.unconfirmed;
  is_confirmed = held.is_confirmed;
  is_unconfirmed = held.is_unconfirmed;
  at_most = ground arith;
})
added-IsHeld Kind.in_confirmed t t' n r held fits h = rw (← some_injective h) (record {
  confirmed = held.confirmed + r;
  unconfirmed = held.unconfirmed;
  is_confirmed = rw held.is_confirmed (add64_pos held.confirmed r (ground arith));
  is_unconfirmed = held.is_unconfirmed;
  at_most = ground arith;
})
added-IsHeld Kind.in_unconfirmed t t' n r held fits h = rw (← some_injective h) (record {
  confirmed = held.confirmed;
  unconfirmed = held.unconfirmed + r;
  is_confirmed = held.is_confirmed;
  is_unconfirmed = rw held.is_unconfirmed (add64_pos held.unconfirmed r (ground arith));
  at_most = ground arith;
})

IsHeld-mono : (t : Totals) (n m : ℕ) → n ≤ m → IsHeld t n → IsHeld t m
IsHeld-mono t n m le held = record {
  confirmed = held.confirmed;
  unconfirmed = held.unconfirmed;
  is_confirmed = held.is_confirmed;
  is_unconfirmed = held.is_unconfirmed;
  at_most = omega (arith, held.at_most, le);
}

-- What the loop does after its first step.
module _ (c : Scope) (tx : Transaction) (rest : List Transaction) (t t' : Totals) where
  nothing_after : process_transaction c tx t ≡ none → process_all c (tx ∷ rest) t ≢ some t'
  nothing_after fails h =
      let e : process_all c (tx ∷ rest) t ≡ none = process_all-cons c tx t rest ∙ rw fails refl in
      cc

  rest_after :
      process_transaction c tx t ≡ some t' → process_all c (tx ∷ rest) t ≡ process_all c rest t'
  rest_after here = process_all-cons c tx t rest ∙ rw here refl

process_transaction-IsHeld :
    (c : Scope) (tx : Transaction) (t t' : Totals) (n : ℕ)
    → IsHeld t n
    → n + received c.address tx.outputs < 2 ^ 63
    → process_transaction c tx t ≡ some t'
    → IsHeld t' (n + received c.address tx.outputs)
process_transaction-IsHeld c tx t t' n held fits h = elim (Bool-cases (is_seen t.seen_ids tx)) [
  | inl old ↦
      rw (← some_injective (sym (process_transaction-old c tx t old) ∙ h))
        (IsHeld-mono t n (n + received c.address tx.outputs) (omega arith) held)
  | inr new ↦
      let r = received c.address tx.outputs in
      let brings : inbound_value tx c.address ≡ pos r =
        inbound_from-exact c.address 0 tx.outputs (omega (arith, fits)) ∙ ap pos (omega arith) in
      let start : Totals = record t { seen_ids = with_id tx t.seen_ids } in
      let step : added (kind_of c tx) (pos r) start ≡ some t' =
        rw (← brings) (sym (process_transaction-new c tx t new) ∙ h) in
      added-IsHeld (kind_of c tx) start t' n r
        (record {
          confirmed = held.confirmed;
          unconfirmed = held.unconfirmed;
          is_confirmed = held.is_confirmed;
          is_unconfirmed = held.is_unconfirmed;
          at_most = held.at_most;
        })
        fits step
]

process_all-IsHeld :
    (c : Scope) (txs : List Transaction) (t t' : Totals) (n : ℕ)
    → IsHeld t n
    → n + received_in c.address txs < 2 ^ 63
    → process_all c txs t ≡ some t'
    → IsHeld t' (n + received_in c.address txs)
unfolding process_all received_in
process_all-IsHeld c [] t t' n held fits h =
    rw (← some_injective h) (IsHeld-mono t n (n + 0) (omega arith) held)
process_all-IsHeld c (tx ∷ rest) t t' n held fits h =
    elim (Option-cases (process_transaction c tx t)) [
      | inl fails ↦ absurd (nothing_after c tx rest t t' fails h)
      | inr (t1, here) ↦
          let r = received c.address tx.outputs in
          let first_held = process_transaction-IsHeld c tx t t1 n held (omega (arith, fits)) here in
          let later : process_all c rest t1 ≡ some t' = rw (← rest_after c tx rest t t1 here) h in
          IsHeld-mono t' (n + r + received_in c.address rest)
            (n + received_in c.address (tx ∷ rest)) (omega arith)
            (process_all-IsHeld c rest t1 t' (n + r) first_held (omega (arith, fits)) later)
    ]

-- The totals that aggregateInboundTotals returns are numbers, and their sum is at most what the
-- transactions bring to the address, so long as that fits an int64.
pub aggregate-bounds :
    (address : Text) (issued_at : Time) (required latest : ℤ) (chain mempool : List Transaction)
    {confirmed unconfirmed : ℤ}
    → received_in (trim_space address) (chain ++ mempool) < 2 ^ 63
    → aggregate address issued_at required latest chain mempool ≡ some (confirmed, unconfirmed)
    → (c u : ℕ) × (confirmed ≡ pos c)
      × (unconfirmed ≡ pos u)
      × (c + u ≤ received_in (trim_space address) (chain ++ mempool))
aggregate-bounds address issued_at required latest chain mempool fits h =
    let c = scope_of address issued_at required latest in
    let txs = chain ++ mempool in
    let all = aggregate-append address issued_at required latest chain mempool in
    let n = received_in (trim_space address) txs in
    elim (Option-cases (process_all c txs no_totals)) [
      | inl fails ↦ absurd (
          let e : aggregate address issued_at required latest chain mempool ≡ none =
            all ∙ rw fails refl in
          cc)
      | inr (t, sums) ↦
          let e : aggregate address issued_at required latest chain mempool ≡ some (both t) =
            all ∙ rw sums refl in
          let pair = some_injective (sym h ∙ e) in
          let held =
            process_all-IsHeld c txs no_totals t 0
              (record {
                confirmed = 0;
                unconfirmed = 0;
                is_confirmed = refl;
                is_unconfirmed = refl;
                at_most = omega arith;
              })
              (omega (arith, fits)) sums in
          (
            held.confirmed,
            held.unconfirmed,
            ap (λ p. p.0) pair ∙ held.is_confirmed,
            ap (λ p. p.1) pair ∙ held.is_unconfirmed,
            omega (arith, held.at_most),
          )
    ]
