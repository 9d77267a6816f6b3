-- ===== src/Chains/Bitcoin/Sums.antt =====
-- What aggregateInboundTotals computes: the sums over the transactions, each counted once.
use payrune.Prelude.{
  ◌≡◌, refl, ◌∙◌, Bool, true, false, Bool-cases, not, Option, none, some, List, [], ◌∷◌, any,
  if◌then◌else◌, arith, inl, inr,
}
use payrune.Prelude.Int.{ℤ, pos, leb_ℤ, ltb_ℤ, eqb_ℤ, add64}
use payrune.Text.{Text}
use payrune.Chains.Bitcoin.{
  Transaction, Totals, Scope, is_seen, with_id, inbound_value, confirmations, add_transaction,
  process_transaction, process_all,
}

-- The transactions whose id has not come before.
unfoldable pub distinct : List Text → List Transaction → List Transaction
distinct ids [] = []
distinct ids (tx ∷ rest) =
    if is_seen ids tx then distinct ids rest else tx ∷ distinct (with_id tx ids) rest

-- What a transaction counts as.
pub data Kind : Type 0 where
  ignored in_confirmed in_unconfirmed broken : Kind

unfoldable pub kind_of : Scope → Transaction → Kind
kind_of c tx =
    if eqb_ℤ (inbound_value tx c.address) (pos 0)
    then Kind.ignored
    else if not tx.status.confirmed
    then Kind.in_unconfirmed
    else if leb_ℤ tx.status.block_time (pos 0)
    then Kind.broken
    else if ltb_ℤ tx.status.block_time c.since
    then Kind.ignored
    else if leb_ℤ c.required (confirmations c.latest tx.status.block_height)
    then Kind.in_confirmed
    else Kind.in_unconfirmed

abbrev pub is_broken : Kind → Bool
is_broken Kind.broken = true
is_broken _ = false

abbrev pub is_confirmed : Kind → Bool
is_confirmed Kind.in_confirmed = true
is_confirmed _ = false

abbrev pub is_unconfirmed : Kind → Bool
is_unconfirmed Kind.in_unconfirmed = true
is_unconfirmed _ = false

-- The int64 sum from `total` on of what the transactions of a kind bring.
unfoldable pub sum_from : (Kind → Bool) → Scope → ℤ → List Transaction → ℤ
sum_from p c total [] = total
sum_from p c total (tx ∷ rest) =
    sum_from p c (if p (kind_of c tx) then add64 total (inbound_value tx c.address) else total) rest

abbrev pub any_broken : Scope → List Transaction → Bool
any_broken c txs = any (λ tx. is_broken (kind_of c tx)) txs

abbrev pub all_seen : List Text → List Transaction → List Text
all_seen ids [] = ids
all_seen ids (tx ∷ rest) = all_seen (if is_seen ids tx then ids else with_id tx ids) rest

-- The result of the loop over transactions that are distinct already.
abbrev pub summed : Scope → Totals → List Transaction → List Text → Option Totals
summed c t txs ids =
    if any_broken c txs
    then none
    else some (record {
      confirmed = sum_from is_confirmed c t.confirmed txs;
      unconfirmed = sum_from is_unconfirmed c t.unconfirmed txs;
      seen_ids = ids;
    })

abbrev pub added : Kind → ℤ → Totals → Option Totals
added Kind.ignored inbound t = some t
added Kind.in_confirmed inbound t = some (record t { confirmed = add64 t.confirmed inbound })
added Kind.in_unconfirmed inbound t = some (record t { unconfirmed = add64 t.unconfirmed inbound })
added Kind.broken inbound t = none

pub add_transaction-eq :
    (c : Scope) (tx : Transaction) (t : Totals)
    → add_transaction c tx t ≡ added (kind_of c tx) (inbound_value tx c.address) t
unfolding add_transaction kind_of
add_transaction-eq c tx t = ground arith

-- A transaction that is new, and then the rest.
new_first :
    (c : Scope) (tx : Transaction) (rest : List Transaction) (t : Totals) (ids : List Text)
    (next : Totals → Option Totals) (k : Kind)
    → kind_of c tx ≡ k
    → ((t' : Totals) → t'.seen_ids ≡ t.seen_ids → next t' ≡ summed c t' rest ids)
    → elim (added k (inbound_value tx c.address) t) [ none ↦ none | some t' ↦ next t' ]
      ≡ summed c t (tx ∷ rest) ids
unfolding sum_from
new_first c tx rest t ids next Kind.ignored h ih = ih _ refl ∙ rw h refl
new_first c tx rest t ids next Kind.in_confirmed h ih = ih _ refl ∙ rw h refl
new_first c tx rest t ids next Kind.in_unconfirmed h ih = ih _ refl ∙ rw h refl
new_first c tx rest t ids next Kind.broken h ih = rw h refl

module _ (c : Scope) (tx : Transaction) (t : Totals) where
  pub process_transaction-old : is_seen t.seen_ids tx ≡ true → process_transaction c tx t ≡ some t
  unfolding process_transaction
  process_transaction-old h = rw h refl

  pub process_transaction-new :
      is_seen t.seen_ids tx ≡ false
      → process_transaction c tx t
        ≡ added
            (kind_of c tx)
            (inbound_value tx c.address)
            (record t { seen_ids = with_id tx t.seen_ids })
  unfolding process_transaction
  process_transaction-new h = rw h (add_transaction-eq c tx _)

  pub process_all-cons :
      (rest : List Transaction)
      → process_all c (tx ∷ rest) t
        ≡ elim (process_transaction c tx t) [ none ↦ none | some t' ↦ process_all c rest t' ]
  unfolding process_all
  process_all-cons rest = refl

-- What is left to show of a step, by whether the id has come before.
summed-old :
    (c : Scope) (tx : Transaction) (rest : List Transaction) (t : Totals)
    → is_seen t.seen_ids tx ≡ true
    → summed c t (distinct t.seen_ids rest) (all_seen t.seen_ids rest)
      ≡ summed c t (distinct t.seen_ids (tx ∷ rest)) (all_seen t.seen_ids (tx ∷ rest))
unfolding distinct
summed-old c tx rest t h = rw h refl

summed-new :
    (c : Scope) (tx : Transaction) (rest : List Transaction) (t : Totals)
    → is_seen t.seen_ids tx ≡ false
    → summed c t
        (tx ∷ distinct (with_id tx t.seen_ids) rest)
        (all_seen (with_id tx t.seen_ids) rest)
      ≡ summed c t (distinct t.seen_ids (tx ∷ rest)) (all_seen t.seen_ids (tx ∷ rest))
unfolding distinct
summed-new c tx rest t h = rw h refl

pub process_all-eq :
    (c : Scope) (txs : List Transaction) (t : Totals)
    → process_all c txs t ≡ summed c t (distinct t.seen_ids txs) (all_seen t.seen_ids txs)
unfolding process_all distinct sum_from
process_all-eq c [] t = refl
process_all-eq c (tx ∷ rest) t = elim (Bool-cases (is_seen t.seen_ids tx)) [
  | inl old ↦
      process_all-cons c tx t rest
      ∙ (rw (process_transaction-old c tx t old) (process_all-eq c rest t))
      ∙ summed-old c tx rest t old
  | inr new ↦
      process_all-cons c tx t rest
      ∙ rw (process_transaction-new c tx t new) (
          new_first c tx (distinct (with_id tx t.seen_ids) rest)
            (record t { seen_ids = with_id tx t.seen_ids }) (all_seen (with_id tx t.seen_ids) rest)
            (process_all c rest) (kind_of c tx) refl (λ t' e. process_all-eq c rest t' ∙ rw e refl))
      ∙ summed-new c tx rest t new
]
