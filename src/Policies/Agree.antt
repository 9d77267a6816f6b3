-- ===== src/Policies/Agree.antt =====
-- The two lookups of the reader agree: a policy that can be issued is listed.
use payrune.Prelude.{
  ◌&&◌, ◌⊎◌, ◌≡◌, refl, sym, ◌∙◌, Bool, true, false, not, Option, none, some, List, [], ◌∷◌, ◌++◌,
  any, filter, All, is_some, if◌then◌else◌, Bool-cases, inl, inr, arith, ◌||◌, map,
}
use payrune.Text.{Text, ◌==ᵗ◌, trim_space, trim_left, is_space, to_lower, lower, byte_len}
use payrune.Text.Laws.{==ᵗ_refl, ==ᵗ_eq}
use payrune.Text.Id.{is_portable_id, is_id_char}
use payrune.Result.{ok}
use payrune.Domain.Values.{lookup, bitcoin, ethereum, parse_supported_chain}
use payrune.Domain.Values.Laws.{lookup-All}
use payrune.Ports.Outside.{ListedPolicy}
use payrune.Ports.Records.{PolicyRecord}
use payrune.Ports.Validation.{normalize_id, normalize_supported_chain, normalize_address_scheme}
use payrune.Ports.Validation.Agree.{normalize_supported_chain-eq-parse}
use payrune.UseCases.Policies.{execute, shown, Response}
use payrune.Policies.{
  Reader, normalized, listed, with_policy, add_policy, add_all, no_policies, new_reader,
  list_by_chain, find_issuance_by_id, reader_port,
}
use payrune.Prelude.Rows.{any-append, some_injective, both_steps, All-mono}

abbrev pub has_policy : PolicyRecord → ListedPolicy → Bool
has_policy p q = p.address_policy_id ==ᵗ q.address_policy_id && p.chain ==ᵗ q.chain

-- Every policy of the map is in the order, under a chain that is normalised.
abbrev IsListed : List ListedPolicy → PolicyRecord → Type 0
IsListed ordered p =
    (any (has_policy p) ordered ≡ true) × (normalize_supported_chain p.chain ≡ some p.chain)

abbrev pub IsAgreeing : Reader → Type 0
IsAgreeing r = All (λ m. IsListed r.ordered m.1) r.issuance_by_id

IsListed-append :
    (ordered more : List ListedPolicy) (p : PolicyRecord)
    → IsListed ordered p
    → IsListed (ordered ++ more) p
IsListed-append ordered more p h = (rw (any-append (has_policy p) ordered more) (rw h.0 refl), h.1)

-- A step either changes nothing or adds a policy that is normalised.
step-cases :
    (valid known : Bool) (found : Option PolicyRecord) (r : Reader)
    → ((if not valid
          then r
          else if known
          then r
          else elim found [ none ↦ r | some q ↦ with_policy r q ])
        ≡ r)
      ⊎ ((q : PolicyRecord) × (found ≡ some q)
          × ((if not valid
                then r
                else if known
                then r
                else elim found [ none ↦ r | some q ↦ with_policy r q ])
              ≡ with_policy r q))
step-cases false known found r = inl refl
step-cases true true found r = inl refl
step-cases true false none r = inl refl
step-cases true false (some q) r = inr (q, refl, refl)

supported_one :
    (valid : Bool) (s : Text) {c : Text}
    → ◌≡◌ {A = Option Text}
        (if valid && (s ==ᵗ bitcoin || s ==ᵗ ethereum) then some s else none)
        (some c)
    → (c ≡ bitcoin) ⊎ (c ≡ ethereum)
supported_one false s h = cc
supported_one true s {c = c} h = elim (Bool-cases (s ==ᵗ bitcoin)) [
  | inl is_bitcoin ↦ let same : s ≡ c = ground arith in inl (sym same ∙ ==ᵗ_eq s bitcoin is_bitcoin)
  | inr other ↦ elim (Bool-cases (s ==ᵗ ethereum)) [
    | inl is_ethereum ↦
        let same : s ≡ c = ground arith in inr (sym same ∙ ==ᵗ_eq s ethereum is_ethereum)
    | inr neither ↦ absurd (ground arith)
  ]
]

bitcoin_supported : normalize_supported_chain bitcoin ≡ some bitcoin
unfolding normalize_supported_chain trim_space trim_left is_space to_lower lower is_portable_id
    byte_len is_id_char
bitcoin_supported = refl

ethereum_supported : normalize_supported_chain ethereum ≡ some ethereum
unfolding normalize_supported_chain trim_space trim_left is_space to_lower lower is_portable_id
    byte_len is_id_char
ethereum_supported = refl

supported_named :
    (raw : Text) {c : Text}
    → normalize_supported_chain raw ≡ some c
    → (c ≡ bitcoin) ⊎ (c ≡ ethereum)
unfolding normalize_supported_chain
supported_named raw h = supported_one (normalize_id raw).1 (normalize_id raw).0 h

supported_self :
    (raw : Text) {c : Text}
    → normalize_supported_chain raw ≡ some c
    → normalize_supported_chain c ≡ some c
supported_self raw h = elim (supported_named raw h) [
  | inl e ↦ rw e bitcoin_supported
  | inr e ↦ rw e ethereum_supported
]

network_step :
    (valid : Bool) (scheme : Option Text) (build : Text → PolicyRecord) {q : PolicyRecord}
    → ◌≡◌ {A = Option PolicyRecord}
        (elim valid [ false ↦ none | true ↦ elim scheme [ none ↦ none | some s ↦ some (build s) ] ])
        (some q)
    → (s : Text) × (build s ≡ q)
network_step true (some s) build h = (s, some_injective h)
network_step true none build h = cc
network_step false scheme build h = cc

normalized-chain :
    (id : Text) (p : PolicyRecord) {q : PolicyRecord}
    → normalized id p ≡ some q
    → normalize_supported_chain q.chain ≡ some q.chain
unfolding normalized
normalized-chain id p h =
    let (chain, supported, later) = both_steps (normalize_supported_chain p.chain) _ h in
    let (s, made) =
      network_step (normalize_id p.network).1 (normalize_address_scheme p.scheme) _ later in
    rw (← made) (supported_self p.chain supported)

has_policy-listed :
    (q : PolicyRecord) (ordered : List ListedPolicy)
    → any (has_policy q) (ordered ++ listed q ∷ []) ≡ true
has_policy-listed q ordered = ground (
  arith,
  any-append (has_policy q) ordered (listed q ∷ []),
  ==ᵗ_refl q.address_policy_id,
  ==ᵗ_refl q.chain,
)

with_policy-IsAgreeing :
    (r : Reader) (q : PolicyRecord)
    → normalize_supported_chain q.chain ≡ some q.chain
    → IsAgreeing r
    → IsAgreeing (with_policy r q)
with_policy-IsAgreeing r q supported h = (
  (has_policy-listed q r.ordered, supported),
  All-mono (λ m. IsListed r.ordered m.1) _ r.issuance_by_id
      (λ m. IsListed-append r.ordered (listed q ∷ []) m.1) h,
)

add_policy-IsAgreeing : (r : Reader) (p : PolicyRecord) → IsAgreeing r → IsAgreeing (add_policy r p)
unfolding add_policy
add_policy-IsAgreeing r p h =
    let id = (normalize_id p.address_policy_id).0 in
    elim (step-cases (normalize_id p.address_policy_id).1 (is_some (lookup r.issuance_by_id id))
      (normalized id p) r) [
        | inl same ↦ rw same h
        | inr (q, found, grown) ↦
            rw grown (with_policy-IsAgreeing r q (normalized-chain id p found) h)
      ]

add_all-IsAgreeing :
    (r : Reader) (ps : List PolicyRecord) → IsAgreeing r → IsAgreeing (add_all r ps)
unfolding add_all
add_all-IsAgreeing r [] h = h
add_all-IsAgreeing r (p ∷ ps) h =
    add_all-IsAgreeing (add_policy r p) ps (add_policy-IsAgreeing r p h)

looked_up :
    (b : Bool) (o : Option PolicyRecord) {p : PolicyRecord}
    → (if b then o else none) ≡ some p
    → o ≡ some p
looked_up true o h = h
looked_up false o h = cc

list-supported :
    (r : Reader) (chain : Text) {c : Text}
    → normalize_supported_chain chain ≡ some c
    → list_by_chain r chain ≡ filter (λ q. q.chain ==ᵗ c) r.ordered
unfolding list_by_chain
list-supported r chain h = rw (h, list_by_chain) refl

same_chain :
    (p : PolicyRecord) (q : ListedPolicy) → has_policy p q ≡ true → q.chain ==ᵗ p.chain ≡ true
same_chain p q h =
    let e : p.chain ≡ q.chain = ==ᵗ_eq p.chain q.chain (ground arith) in rw e (==ᵗ_refl q.chain)

not_first :
    (b c rest : Bool) (x : ListedPolicy) (xs : List ListedPolicy) (p : ListedPolicy → Bool)
    → any p xs ≡ rest
    → rest ≡ true
    → any p (if c then x ∷ xs else xs) ≡ true
not_first b true rest x xs p e h = ground arith
not_first b false rest x xs p e h = e ∙ h

any-filter :
    (p q : ListedPolicy → Bool) (xs : List ListedPolicy)
    → ((x : ListedPolicy) → p x ≡ true → q x ≡ true)
    → any p xs ≡ true
    → any p (filter q xs) ≡ true
unfolding filter
any-filter p q [] imp h = h
any-filter p q (x ∷ xs) imp h = elim (Bool-cases (p x)) [
  | inl here ↦ rw (imp x here) (rw here refl)
  | inr later ↦
      not_first (p x) (q x) (any p (filter q xs)) x (filter q xs) p refl
        (any-filter p q xs imp (ground arith))
]

find-IsListed :
    (r : Reader) (id : Text) {p : PolicyRecord}
    → IsAgreeing r
    → find_issuance_by_id r id ≡ some p
    → IsListed r.ordered p
unfolding find_issuance_by_id
find-IsListed r id all h =
    lookup-All (IsListed r.ordered) r.issuance_by_id (normalize_id id).0 all
      (looked_up (normalize_id id).1 (lookup r.issuance_by_id (normalize_id id).0) h)

-- A policy that addresses can be issued from is in the list of its chain: what FindIssuanceByID
-- returns, ListByChain lists.
find-IsAnswered :
    (policies : List PolicyRecord) (id : Text) {p : PolicyRecord}
    → find_issuance_by_id (new_reader policies) id ≡ some p
    → any (has_policy p) (list_by_chain (new_reader policies) p.chain) ≡ true
unfolding new_reader
find-IsAnswered policies id {p = p} h =
    let all = add_all-IsAgreeing no_policies policies tt in
    let (here, supported) = find-IsListed (new_reader policies) id all h in
    rw (list-supported (new_reader policies) p.chain supported) (
      any-filter (has_policy p) (λ q. q.chain ==ᵗ p.chain) (new_reader policies).ordered
        (same_chain p) here)

new_reader-IsAgreeing : (policies : List PolicyRecord) → IsAgreeing (new_reader policies)
unfolding new_reader
new_reader-IsAgreeing policies = add_all-IsAgreeing no_policies policies tt

any-map-shown :
    (p : PolicyRecord) (qs : List ListedPolicy)
    → any (has_policy p) (map shown qs) ≡ any (has_policy p) qs
any-map-shown p [] = refl
any-map-shown p (q ∷ qs) = rw (any-map-shown p qs) refl

execute-supported :
    {X : Type 0} (r : Reader) (chain : Text) (x : X) {c : Text}
    → parse_supported_chain chain ≡ some c
    → execute (some (reader_port r)) chain x
      ≡ (ok (record { chain = c; address_policies = map shown (list_by_chain r c) }), x)
unfolding execute
execute-supported r chain x h = rw (h, execute) refl

-- A policy that an address can be issued from is shown: for every policy that FindIssuanceByID
-- returns, the list of its chain is answered, with no error, and has it.
pub execute-IsComplete :
    {X : Type 0} (policies : List PolicyRecord) (id : Text) (x : X) {p : PolicyRecord}
    → find_issuance_by_id (new_reader policies) id ≡ some p
    → (response : Response) × (execute (some (reader_port (new_reader policies))) p.chain x
        ≡ (ok response, x))
      × (any (has_policy p) response.address_policies ≡ true)
execute-IsComplete policies id x {p = p} h =
    let r = new_reader policies in
    let all : IsAgreeing r = new_reader-IsAgreeing policies in
    let supported = (find-IsListed r id all h).1 in
    (
      record { chain = p.chain; address_policies = map shown (list_by_chain r p.chain) },
      execute-supported r p.chain x (sym (normalize_supported_chain-eq-parse p.chain) ∙ supported),
      any-map-shown p (list_by_chain r p.chain) ∙ find-IsAnswered policies id h,
    )
