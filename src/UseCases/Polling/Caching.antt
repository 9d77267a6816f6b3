-- ===== src/UseCases/Polling/Caching.antt =====
-- The two maps of internal/application/usecases/run_receipt_polling_cycle_use_case.go.
use payrune.Prelude.{◌∷◌, ◌≡◌, arith, Option-cases, inl, inr, List, none, some}
use payrune.Prelude.Int.{ℤ}
use payrune.Text.Laws.{==ᵗ_refl}
use payrune.Result.{Result, err, ok}
use payrune.Domain.Tracking.{Tracking}
use payrune.Ports.Outside.{Observer}
use payrune.Ports.World.{World}
use payrune.UseCases.Polling.{cached, ScopeKey, Caches, fetch_latest, remember, Error}

cached-head :
    {A : Type 0} (k : ScopeKey) (a : A) (m : List (ScopeKey × A)) → cached ((k, a) ∷ m) k ≡ some a
unfolding cached
cached-head (chain, network) a m = ground (arith, ==ᵗ_refl chain, ==ᵗ_refl network)

module _ {D X : Type 0} (o : Observer X) (t : Tracking) where
  height_known :
      (c : Caches) (x : ℤ)
      → cached c.heights (t.chain, t.network) ≡ some x
      → (w : World D X) → fetch_latest o t c w ≡ (ok (ok x, c), w)
  unfolding fetch_latest
  height_known c x h w = ground arith

  error_known :
      (c : Caches) (e : Error)
      → cached c.heights (t.chain, t.network) ≡ none
      → cached c.errors (t.chain, t.network) ≡ some e
      → (w : World D X) → fetch_latest o t c w ≡ (ok (err e, c), w)
  unfolding fetch_latest
  error_known c e h g w = ground arith

  fetched :
      (c : Caches)
      → cached c.heights (t.chain, t.network) ≡ none
      → cached c.errors (t.chain, t.network) ≡ none
      → (w : World D X)
      → let (r, x) = o.fetch_latest_block_height t.chain t.network w.ext in
        fetch_latest o t c w ≡ (ok (r, remember (t.chain, t.network) r c), record w { ext = x })
  unfolding fetch_latest
  fetched c h g w = ground arith

  remembered :
      (c : Caches) (r : Result Error ℤ)
      → cached c.heights (t.chain, t.network) ≡ none
      → (w : World D X)
      → let c' = remember (t.chain, t.network) r c in fetch_latest o t c' w ≡ (ok (r, c'), w)
  unfolding remember
  remembered c (ok x) h w =
      height_known (remember (t.chain, t.network) (ok x) c) x (cached-head _ x c.heights) w
  remembered c (err e) h w =
      error_known (remember (t.chain, t.network) (err e) c) e h (cached-head _ e c.errors) w

  -- The observer is asked for a height at most once per scope and cycle: with the maps that a fetch
  -- leaves, every later fetch has the same answer, an error included, and changes neither the maps
  -- nor anything else.
  pub fetch_latest_once :
      (c c' : Caches) (w w' : World D X) (r : Result Error ℤ)
      → fetch_latest o t c w ≡ (ok (r, c'), w')
      → (v : World D X) → fetch_latest o t c' v ≡ (ok (r, c'), v)
  fetch_latest_once c c' w w' r h v = elim (Option-cases (cached c.heights (t.chain, t.network))) [
    | inr (x, p) ↦
        let known = height_known c x p w in let again = height_known c x p v in ground arith
    | inl p ↦ elim (Option-cases (cached c.errors (t.chain, t.network))) [
      | inr (e, q) ↦
          let known = error_known c e p q w in let again = error_known c e p q v in ground arith
      | inl q ↦
          let new = fetched c p q w in
          let again = remembered c (o.fetch_latest_block_height t.chain t.network w.ext).0 p v in
          ground arith
    ]
  ]
