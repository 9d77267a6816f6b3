-- ===== src/Chains/Bitcoin/Counted.antt =====
-- aggregateInboundTotals counts every transaction once.
use mathlib.Core.List.{append_assoc}
use payrune.Prelude.{
  ◌≡◌, refl, ◌∙◌, Bool, true, false, Bool-cases, Option-cases, none, some, List, [], ◌∷◌, ◌++◌, any,
  if◌then◌else◌, arith, inl, inr, ap,
}
use payrune.Prelude.Int.{ℤ, pos}
use payrune.Text.{Text, trim_space, is_empty}
use payrune.Text.Laws.{==ᵗ_eq, ==ᵗ_refl}
use payrune.Time.{Time, unix}
use payrune.Chains.Bitcoin.{
  Scope, Totals, aggregate, process_all, is_seen, no_totals, process_transaction, id_of, with_id,
  ◌==ᵗ◌, Transaction,
}
use payrune.Chains.Bitcoin.Sums.{
  distinct, all_seen, any_broken, process_all-cons, sum_from, is_confirmed, is_unconfirmed,
  process_all-eq,
}

append_nothing :
    (c : Scope) (ys : List Transaction) (t : Totals)
    → process_all c ys t ≡ elim (process_all c [] t) [ none ↦ none | some t' ↦ process_all c ys t' ]
unfolding process_all
append_nothing c ys t = refl

process_all-append :
    (c : Scope) (xs ys : List Transaction) (t : Totals)
    → process_all c (xs ++ ys) t
      ≡ elim (process_all c xs t) [ none ↦ none | some t' ↦ process_all c ys t' ]
process_all-append c [] ys t = append_nothing c ys t
process_all-append c (tx ∷ xs) ys t = rw (process_all-cons c tx t xs) (
    rw (process_all-cons c tx t (xs ++ ys)) (elim (Option-cases (process_transaction c tx t)) [
      | inl none_here ↦ rw none_here refl
      | inr (t', here) ↦ rw here (process_all-append c xs ys t')
    ]))

abbrev pub scope_of : Text → Time → ℤ → ℤ → Scope
scope_of address issued_at required latest = record {
  address = trim_space address;
  since = unix issued_at;
  required = required;
  latest = latest;
}

abbrev pub both : Totals → ℤ × ℤ
both t = (t.confirmed, t.unconfirmed)

aggregate-steps :
    (address : Text) (issued_at : Time) (required latest : ℤ) (chain mempool : List Transaction)
    → aggregate address issued_at required latest chain mempool ≡ (
        let c = scope_of address issued_at required latest in
        elim (process_all c chain no_totals) [
          | none ↦ none
          | some t ↦ elim (process_all c mempool t) [ none ↦ none | some t' ↦ some (both t') ]
        ])
unfolding aggregate
aggregate-steps address issued_at required latest chain mempool = refl

-- Two loops one after the other are one over both lists.
pub aggregate-append :
    (address : Text) (issued_at : Time) (required latest : ℤ) (chain mempool : List Transaction)
    → aggregate address issued_at required latest chain mempool
      ≡ elim (process_all
          (scope_of address issued_at required latest)
          (chain ++ mempool)
          no_totals) [ none ↦ none | some t ↦ some (both t) ]
unfolding aggregate
aggregate-append address issued_at required latest chain mempool =
    let c = scope_of address issued_at required latest in
    rw (aggregate-steps address issued_at required latest chain mempool) (
      rw (process_all-append c chain mempool no_totals)
        (elim (Option-cases (process_all c chain no_totals)) [
          | inl fails ↦ rw fails refl
          | inr (t, sums) ↦ rw sums refl
        ]))

-- aggregateInboundTotals counts every transaction of the two lists once, at its first occurrence by
-- id: it fails exactly when one of these that pays the address is confirmed with no block time, and
-- otherwise returns the int64 sums over those with enough confirmations and over the others, less the
-- confirmed ones from before the issue.
pub aggregate-eq :
    (address : Text) (issued_at : Time) (required latest : ℤ) (chain mempool : List Transaction)
    → aggregate address issued_at required latest chain mempool ≡ (
        let c = scope_of address issued_at required latest in
        let txs = distinct [] (chain ++ mempool) in
        if any_broken c txs
        then none
        else some (sum_from is_confirmed c (pos 0) txs, sum_from is_unconfirmed c (pos 0) txs))
aggregate-eq address issued_at required latest chain mempool =
    let c = scope_of address issued_at required latest in
    let txs = distinct [] (chain ++ mempool) in
    aggregate-append address issued_at required latest chain mempool
    ∙ rw (process_all-eq c (chain ++ mempool) no_totals) (elim (Bool-cases (any_broken c txs)) [
      | inl here ↦ rw here refl
      | inr nowhere ↦ rw nowhere refl
    ])

abbrev pub same_id : Transaction → Transaction → Bool
same_id tx x = id_of tx ==ᵗ id_of x

seen_still :
    (tx x : Transaction) (ids : List Text)
    → is_seen ids tx ≡ true
    → is_seen (if is_seen ids x then ids else with_id x ids) tx ≡ true
seen_still tx x ids h = ground arith

all_seen_still :
    (xs : List Transaction) (ids : List Text) (tx : Transaction)
    → is_seen ids tx ≡ true
    → is_seen (all_seen ids xs) tx ≡ true
all_seen_still [] ids tx h = h
all_seen_still (x ∷ xs) ids tx h = all_seen_still xs _ tx (seen_still tx x ids h)

seen_here :
    (tx x : Transaction) (ids : List Text)
    → is_empty (id_of tx) ≡ false
    → same_id tx x ≡ true
    → is_seen (if is_seen ids x then ids else with_id x ids) tx ≡ true
seen_here tx x ids named same =
    let e : id_of tx ≡ id_of x = ==ᵗ_eq (id_of tx) (id_of x) same in
    rw e (ground (arith, ==ᵗ_refl (id_of x)))

all_seen_here :
    (xs : List Transaction) (ids : List Text) (tx : Transaction)
    → is_empty (id_of tx) ≡ false
    → any (same_id tx) xs ≡ true
    → is_seen (all_seen ids xs) tx ≡ true
all_seen_here [] ids tx named h = absurd (ground arith)
all_seen_here (x ∷ xs) ids tx named h = elim (Bool-cases (same_id tx x)) [
  | inl same ↦ all_seen_still xs _ tx (seen_here tx x ids named same)
  | inr differs ↦ all_seen_here xs _ tx named (ground arith)
]

module _ (x : Transaction) (xs : List Transaction) (ids : List Text) where
  all_seen-old : is_seen ids x ≡ true → all_seen ids (x ∷ xs) ≡ all_seen ids xs
  all_seen-old h = rw h refl

  all_seen-new : is_seen ids x ≡ false → all_seen ids (x ∷ xs) ≡ all_seen (with_id x ids) xs
  all_seen-new h = rw h refl

distinct-append-seen :
    (xs : List Transaction) (ids : List Text) (tx : Transaction)
    → is_seen (all_seen ids xs) tx ≡ true
    → distinct ids (xs ++ tx ∷ []) ≡ distinct ids xs
unfolding distinct
distinct-append-seen [] ids tx h = rw h refl
distinct-append-seen (x ∷ xs) ids tx h = elim (Bool-cases (is_seen ids x)) [
  | inl old ↦
      let ih = distinct-append-seen xs ids tx in rw old (ih (rw (← all_seen-old x xs ids old) h))
  | inr new ↦
      let ih = distinct-append-seen xs (with_id x ids) tx in
      rw new (ap (λ l. x ∷ l) (ih (rw (← all_seen-new x xs ids new) h)))
]

-- A transaction that is reported again, as one that moves from the mempool into a block between the
-- two requests is, changes nothing.
pub aggregate-again :
    (address : Text) (issued_at : Time) (required latest : ℤ) (chain mempool : List Transaction)
    (tx : Transaction)
    → is_empty (id_of tx) ≡ false
    → any (same_id tx) (chain ++ mempool) ≡ true
    → aggregate address issued_at required latest chain (mempool ++ tx ∷ [])
      ≡ aggregate address issued_at required latest chain mempool
aggregate-again address issued_at required latest chain mempool tx named again =
    let same =
      distinct-append-seen (chain ++ mempool) [] tx
        (all_seen_here (chain ++ mempool) [] tx named again) in
    rw (aggregate-eq address issued_at required latest chain mempool) (
      rw (aggregate-eq address issued_at required latest chain (mempool ++ tx ∷ []))
        (rw (← append_assoc chain mempool (tx ∷ [])) (rw same refl)))
