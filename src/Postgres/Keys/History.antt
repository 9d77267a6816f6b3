-- ===== src/Postgres/Keys/History.antt =====
-- Sequences of calls of payment_address_idempotency_store.go: what a key keeps through them.
use payrune.Prelude.{
  ◌≡◌, refl, Bool, true, false, not, some, List, [], ◌∷◌, All, any, first, filter, update, arith,
  inl, inr, Bool-cases,
}
use payrune.Prelude.Int.{ℤ}
use payrune.Text.{Text, trim_space}
use payrune.Result.{ok, is_ok}
use payrune.Ports.Stores.{IdempotencyRecord, ClaimIdempotency}
use payrune.Postgres.Driver.{Tx}
use payrune.Postgres.History.{committed}
use payrune.Postgres.History.Effects.{committed_cases}
use payrune.Postgres.Keys.{claim, complete, release, release_row, has_key, is_open}
use payrune.Postgres.Keys.Life.{
  claim-eq-ok, complete-eq-ok, claimed_row, claim_taken, claimed_row-has_key,
}
use payrune.Postgres.Tables.{KeyRow, Tables}
use payrune.Prelude.Rows.{first-append, any-append}

-- An operation of the store that writes, with its transaction and its arguments.
pub data Call : Type 0 where
  claim_it : Tx → ClaimIdempotency → Call
  complete_it : Tx → Text → Text → ℤ → Call
  release_it : Tx → Text → Text → Call

-- What one call leaves behind, and a sequence of them.
abbrev pub after_call : Tables → Call → Tables
after_call t (claim_it x input) = committed t (claim x input t)
after_call t (complete_it x chain key id) = committed t (complete x chain key id t)
after_call t (release_it x chain key) = committed t (release x chain key t)

unfoldable pub after_all : Tables → List Call → Tables
after_all t [] = t
after_all t (call ∷ calls) = after_all (after_call t call) calls

abbrev pub is_release : Call → Bool
is_release (release_it x chain key) = true
is_release _ = false

release-eq-ok :
    (x : Tx) (chain key : Text) (t : Tables) {t' : Tables}
    → release x chain key t ≡ (ok tt, t')
    → t' ≡ record t { keys = filter (λ k. not (is_open chain (trim_space key) k)) t.keys }
unfolding release release_row
release-eq-ok x chain key t h = ground arith

named_kept :
    (chain key c s : Text) (id other : ℤ) (k : KeyRow) (rows : List KeyRow)
    → k.payment_address_id ≡ some id
    → first (has_key chain key) rows ≡ some k
    → first
        (has_key chain key)
        (update (is_open c s) (λ q. record q { payment_address_id = some other }) rows)
      ≡ some k
unfolding first update
named_kept chain key c s id other k [] named h = absurd (ground arith)
named_kept chain key c s id other k (q ∷ rows) named h =
    let rest = named_kept chain key c s id other k rows named in
    elim (Bool-cases (has_key chain key q)) [
      | inl here ↦ ground arith
      | inr past ↦ let later = rest (ground arith) in ground arith
    ]

stays_in :
    (chain key c s : Text) (id : ℤ) (k : KeyRow) (rows : List KeyRow)
    → k.payment_address_id ≡ some id
    → first (has_key chain key) rows ≡ some k
    → first (has_key chain key) (filter (λ q. not (is_open c s q)) rows) ≡ some k
unfolding first filter
stays_in chain key c s id k [] named h = absurd (ground arith)
stays_in chain key c s id k (q ∷ rows) named h =
    let rest = stays_in chain key c s id k rows named in
    elim (Bool-cases (has_key chain key q)) [
      | inl here ↦ ground arith
      | inr past ↦ let later = rest (ground arith) in ground arith
    ]

-- A key that names an allocation is final: whatever is claimed, completed or released afterwards, by
-- any transactions, its row stays as it is.
pub after_all-named :
    (calls : List Call) (chain key : Text) (id : ℤ) (k : KeyRow) (t : Tables)
    → first (has_key chain key) t.keys ≡ some k
    → k.payment_address_id ≡ some id
    → first (has_key chain key) (after_all t calls).keys ≡ some k
unfolding after_all
after_all-named [] chain key id k t here named = here
after_all-named (claim_it x input ∷ calls) chain key id k t here named =
    after_all-named calls chain key id k (after_call t (claim_it x input))
      (committed_cases (λ u. first (has_key chain key) u.keys ≡ some k) t (claim x input t) here
        (λ r u h.
          rw ((claim-eq-ok x input t h).4)
            (rw (first-append (has_key chain key) t.keys (claimed_row input ∷ [])) (rw here refl))))
      named
after_all-named (complete_it x c s other ∷ calls) chain key id k t here named =
    after_all-named calls chain key id k (after_call t (complete_it x c s other))
      (committed_cases (λ u. first (has_key chain key) u.keys ≡ some k) t (complete x c s other t)
        here
        (λ _ u h.
          rw ((complete-eq-ok x c s other t h).1)
            (named_kept chain key c (trim_space s) id other k t.keys named here)))
      named
after_all-named (release_it x c s ∷ calls) chain key id k t here named =
    after_all-named calls chain key id k (after_call t (release_it x c s))
      (committed_cases (λ u. first (has_key chain key) u.keys ≡ some k) t (release x c s t) here
        (λ _ u h.
          rw (release-eq-ok x c s t h)
            (stays_in chain key c (trim_space s) id k t.keys named here)))
      named

any-named :
    (chain key c s : Text) (other : ℤ) (rows : List KeyRow)
    → any (has_key chain key) rows ≡ true
    → any
        (has_key chain key)
        (update (is_open c s) (λ q. record q { payment_address_id = some other }) rows)
      ≡ true
unfolding update
any-named chain key c s other [] h = h
any-named chain key c s other (q ∷ rows) h = elim (Bool-cases (has_key chain key q)) [
  | inl here ↦ ground arith
  | inr past ↦ let later = any-named chain key c s other rows (ground arith) in ground arith
]

after_all-taken :
    (calls : List Call) (chain key : Text) (t : Tables)
    → All (λ c. is_release c ≡ false) calls
    → any (has_key chain key) t.keys ≡ true
    → any (has_key chain key) (after_all t calls).keys ≡ true
unfolding after_all
after_all-taken [] chain key t held here = here
after_all-taken (claim_it x input ∷ calls) chain key t held here =
    after_all-taken calls chain key (after_call t (claim_it x input)) held.1 (
      committed_cases (λ u. any (has_key chain key) u.keys ≡ true) t (claim x input t) here
        (λ r u h.
          rw ((claim-eq-ok x input t h).4)
            (rw (any-append (has_key chain key) t.keys (claimed_row input ∷ [])) (rw here refl))))
after_all-taken (complete_it x c s other ∷ calls) chain key t held here =
    after_all-taken calls chain key (after_call t (complete_it x c s other)) held.1 (
      committed_cases (λ u. any (has_key chain key) u.keys ≡ true) t (complete x c s other t) here
        (λ _ u h.
          rw ((complete-eq-ok x c s other t h).1)
            (any-named chain key c (trim_space s) other t.keys here)))
after_all-taken (release_it x c s ∷ calls) chain key t held here = absurd (ground (arith, held.0))

-- A key is claimed once between releases: after a claim of it, and any claims and completions that
-- follow, no other claim of it returns, whatever it is for, and the claim that is refused changes
-- nothing.
pub claim-once :
    (x y : Tx) (input other : ClaimIdempotency) (calls : List Call) (t : Tables) {t' : Tables}
    {r : IdempotencyRecord}
    → other.chain ≡ input.chain
    → trim_space other.idempotency_key ≡ trim_space input.idempotency_key
    → All (λ c. is_release c ≡ false) calls
    → claim x input t ≡ (ok r, t')
    → let u = after_all t' calls in (is_ok (claim y other u).0 ≡ false) × ((claim y other u).1 ≡ u)
claim-once x y input other calls t {t' = t'} chain key held h =
    let (_, _, _, _, e) = claim-eq-ok x input t h in
    let taken : any (has_key input.chain (trim_space input.idempotency_key)) t'.keys ≡ true = rw e (
      rw
        (any-append (has_key input.chain (trim_space input.idempotency_key)) t.keys
          (claimed_row input ∷ []))
        (ground (arith, claimed_row-has_key input))) in
    claim_taken y other (after_all t' calls) (
      rw (chain, key)
        (after_all-taken calls input.chain (trim_space input.idempotency_key) t' held taken))
