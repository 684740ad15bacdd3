-- ===== src/Api/Search/Found.antt =====
-- Where find_tx and json_search of src/page.h have found what they hand on.
use explorer_qwertycoin_org.Base.{
  ℕ, suc, true, ◌||◌, not, List, [], ◌∷◌, Option, none, some, Bytes, same, same_iff, if-elim, ◌≡◌,
  refl, arith, ◌⊎◌, inl, inr, Bool-cases,
}
use explorer_qwertycoin_org.Transaction.{Transaction}
use explorer_qwertycoin_org.Mempool.{MempoolTx}
use explorer_qwertycoin_org.Api.{
  Node, Query, success, null_hash, search_mempool, in_mempool, or_mempool, or_pruned, get_tx, DbTx,
  in_db, tx_dne, db_thrown, after_pruned, find_tx,
}
use explorer_qwertycoin_org.Api.Laws.{Yields, Yields-success, Yields-bind}

abbrev pub IsIn : MempoolTx → List MempoolTx → Type 0
IsIn e [] = ⊥
IsIn e (x ∷ xs) = (e ≡ x) ⊎ IsIn e xs

-- What heads the entries that were found is an entry of the pool with the hash, or any for the null
-- hash.
abbrev IsHead : Bytes → List MempoolTx → List MempoolTx → Type 0
IsHead tx_hash pool [] = Unit {0}
IsHead tx_hash pool (e ∷ es) = IsIn e pool × ((tx_hash ≡ e.tx_hash) ⊎ (tx_hash ≡ null_hash))

IsHead-later :
    (tx_hash : Bytes) (x : MempoolTx) (pool found : List MempoolTx)
    → IsHead tx_hash pool found
    → IsHead tx_hash (x ∷ pool) found
IsHead-later tx_hash x pool [] h = tt
IsHead-later tx_hash x pool (e ∷ es) h = (inr h.0, h.1)

matched_lem :
    (tx_hash : Bytes) (e : MempoolTx)
    → (same tx_hash e.tx_hash || same tx_hash null_hash) ≡ true
    → (tx_hash ≡ e.tx_hash) ⊎ (tx_hash ≡ null_hash)
matched_lem tx_hash e h = elim (Bool-cases (same tx_hash e.tx_hash)) [
  | inl this ↦ inl ((same_iff tx_hash e.tx_hash).0 this)
  | inr other ↦ inr ((same_iff tx_hash null_hash).0 (ground (arith, h, other)))
]

search_mempool-IsHead :
    (tx_hash : Bytes) (pool : List MempoolTx) → IsHead tx_hash pool (search_mempool tx_hash pool)
unfolding search_mempool
search_mempool-IsHead tx_hash [] = tt
search_mempool-IsHead tx_hash (e ∷ es) =
    if-elim (IsHead tx_hash (e ∷ es)) (same tx_hash e.tx_hash || same tx_hash null_hash)
      (λ matched.
        if-elim (IsHead tx_hash (e ∷ es)) (not (same tx_hash null_hash)) {x = e ∷ []}
          {y = e ∷ search_mempool tx_hash es} (λ _. (inl refl, matched_lem tx_hash e matched))
          (λ _. (inl refl, matched_lem tx_hash e matched)))
      (λ other.
        IsHead-later tx_hash e es (search_mempool tx_hash es) (search_mempool-IsHead tx_hash es))

-- Where a transaction comes from: the pool, with its time, or the database.
abbrev pub Source : (ℕ → Node) → Bytes → Option (Transaction × Option ℕ) → ℕ → Type 0
Source views tx_hash none u = Unit {0}
Source views tx_hash (some (tx, some time)) u =
    (v : ℕ) × (e : MempoolTx) × IsIn e (views v).mempool
    × (e.tx ≡ tx)
    × (e.receive_time ≡ time)
    × ((tx_hash ≡ e.tx_hash) ⊎ (tx_hash ≡ null_hash))
Source views tx_hash (some (tx, none)) u =
    (v : ℕ) × (((views v).db_tx tx_hash ≡ in_db tx) ⊎ ((views v).db_pruned_tx tx_hash ≡ in_db tx))

in_mempool-Source :
    (views : ℕ → Node) (tx_hash : Bytes) (v u : ℕ) (found : List MempoolTx)
    → IsHead tx_hash (views v).mempool found
    → Source views tx_hash (in_mempool found) u
in_mempool-Source views tx_hash v u [] h = tt
in_mempool-Source views tx_hash v u (e ∷ es) h = (v, e, h.0, refl, refl, h.1)

abbrev FromDatabase : (ℕ → Node) → Bytes → Option Transaction → ℕ → Type 0
FromDatabase views tx_hash none u = Unit {0}
FromDatabase views tx_hash (some tx) u =
    (v : ℕ) × (((views v).db_tx tx_hash ≡ in_db tx) ⊎ ((views v).db_pruned_tx tx_hash ≡ in_db tx))

get_tx-FromDatabase :
    (views : ℕ → Node) (tx_hash : Bytes) (t : ℕ)
    → Yields (FromDatabase views tx_hash) (get_tx tx_hash views t)
unfolding get_tx
get_tx-FromDatabase views tx_hash t =
    if-elim
      (λ (m : Query (Option Transaction)). Yields (FromDatabase views tx_hash) (m views (suc t)))
      ((views t).have_tx tx_hash) (λ known. from_db ((views (suc t)).db_tx tx_hash) refl)
      (λ unknown. tt)
  where
    from_pruned :
        (o : DbTx)
        → (views (suc (suc t))).db_pruned_tx tx_hash ≡ o
        → Yields (FromDatabase views tx_hash) (after_pruned o views (suc (suc (suc t))))
    from_pruned tx_dne e = tt
    from_pruned db_thrown e = tt
    from_pruned (in_db tx) e = (suc (suc t), inr e)

    from_db :
        (o : DbTx)
        → (views (suc t)).db_tx tx_hash ≡ o
        → Yields (FromDatabase views tx_hash) (or_pruned tx_hash o views (suc (suc t)))
    from_db db_thrown e = tt
    from_db tx_dne e = from_pruned ((views (suc (suc t))).db_pruned_tx tx_hash) refl
    from_db (in_db tx) e = (suc t, inl e)

find_tx-Yields :
    (views : ℕ → Node) (tx_hash : Bytes) (t : ℕ)
    → Yields (Source views tx_hash) (find_tx tx_hash views t)
unfolding find_tx
find_tx-Yields views tx_hash t =
    Yields-bind (Source views tx_hash) (FromDatabase views tx_hash) (get_tx tx_hash views t) _
      (get_tx-FromDatabase views tx_hash t) λ o u h. placed o u h
  where
    placed :
        (o : Option Transaction) (u : ℕ)
        → FromDatabase views tx_hash o u
        → Yields (Source views tx_hash) (or_mempool tx_hash o views u)
    placed none u h =
        in_mempool-Source views tx_hash u (suc u) (search_mempool tx_hash (views u).mempool)
          (search_mempool-IsHead tx_hash (views u).mempool)
    placed (some tx) u h = h

-- A transaction that find_tx finds was, at one of its calls, in the database under the hash, whole or
-- pruned, or in the pool under the hash with the time that is handed on; for the null hash it may be
-- any transaction of the pool.
pub find_tx-Source :
    (views : ℕ → Node) (tx_hash : Bytes) (t t' : ℕ) {found : Option (Transaction × Option ℕ)}
    → find_tx tx_hash views t ≡ success found t'
    → Source views tx_hash found t'
find_tx-Source views tx_hash t t' h =
    Yields-success (Source views tx_hash) _ h (find_tx-Yields views tx_hash t)
