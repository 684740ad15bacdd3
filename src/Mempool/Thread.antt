-- ===== src/Mempool/Thread.antt =====
-- The rounds of the status thread: when the daemon is asked, and what the pages see between.
use explorer_qwertycoin_org.Mempool.{
  read_entries, MempoolTx, MempoolStatus, NetworkInfo, read_mempool, publish, get_mempool_snapshot,
  get_mempool_txs,
}
use explorer_qwertycoin_org.Mempool.Loop.{
  StatusThread, Round, loop_index_divider, after_network_info, query_network, status_round,
  status_rounds,
}
use explorer_qwertycoin_org.Mempool.Network.{
  read_network_info, fetch_network_info, put_network_info,
}
use explorer_qwertycoin_org.Base.{
  ℕ, ◌+◌, ◌%◌, ◌≤◌, ◌<◌, min, Bool, true, false, List, [], ◌∷◌, Option, none, some, Bytes, ◌==◌,
  if◌then◌else◌, length, take, u64_mod, ◌≡◌, ◌⊎◌, ◌≢◌, refl, sym, ap, ◌∙◌, subst, inl, inr, arith,
  if-elim, length-take,
}
use native.Mathlib.Nat.{mod-add-mod, zero-mod}
use explorer_qwertycoin_org.Transaction.{Transaction}
use explorer_qwertycoin_org.Rpc.{TxInfo, sort_txs}

publish-cases :
    (now : ℕ) (o : Option (List MempoolTx × ℕ)) (s : MempoolStatus)
    → let t = (publish now o s).1 in (t.mempool_no ≡ length t.mempool_txs) ⊎ (t ≡ s)
publish-cases now none s = inr refl
publish-cases now (some (copy, size)) s = inl refl

shift-mod : (a b d j : ℕ) → a % d ≡ b % d → (a + j) % d ≡ (b + j) % d
shift-mod a b d j e = sym (mod-add-mod a d j) ∙ (ap (λ r. (r + j) % d) e ∙ mod-add-mod b d j)

zero_index :
    (divider i : ℕ) (p : Bool × MempoolStatus)
    → i % divider ≡ 0
    → let q = after_network_info i p in (q.loop_index ≤ i) × (q.loop_index % divider ≡ i % divider)
zero_index divider i (false, s) e = (omega arith, refl)
zero_index divider i (true, s) e = (omega arith, zero-mod divider ∙ sym e)

queried_index :
    (divider : ℕ) (r : Round) (t : StatusThread)
    → let q = query_network divider r t in
      (q.loop_index ≤ t.loop_index) × (q.loop_index % divider ≡ t.loop_index % divider)
unfolding query_network
queried_index divider r t =
    if-elim
      (λ (q : StatusThread).
        (q.loop_index ≤ t.loop_index) × (q.loop_index % divider ≡ t.loop_index % divider))
      (t.loop_index % divider == 0)
      (λ due.
        zero_index divider t.loop_index (read_network_info true r.answers r.now t.status)
          (ground (arith, due)))
      (λ other. (omega arith, refl))

take-all : (xs : List MempoolTx) → take (length xs) xs ≡ xs
take-all [] = refl
take-all (x ∷ xs) = ap (λ ys. x ∷ ys) (take-all xs)

bounded_lem :
    (n : ℕ) (xs : List MempoolTx)
    → let m = if n == length xs then xs else take n xs in m ≡ take n xs
bounded_lem n xs =
    if-elim (λ m. m ≡ take n xs) (n == length xs)
      (λ e.
        let all : length xs ≡ n = ground (arith, e) in sym (take-all xs) ∙ ap (λ k. take k xs) all)
      (λ e. refl)

snapshot_lem :
    (n : ℕ) (s : MempoolStatus)
    → s.mempool_no ≡ length s.mempool_txs
    → let m = get_mempool_snapshot n s in
      (m.transactions ≡ get_mempool_txs n s)
      × (m.total_count ≡ length s.mempool_txs)
      × (length m.transactions ≡ min n m.total_count)
unfolding get_mempool_snapshot get_mempool_txs
snapshot_lem n s h =
    let k = min n (length s.mempool_txs) in
    let e = bounded_lem k s.mempool_txs in
    (e, h, ap length e ∙ omega (arith, length-take k s.mempool_txs, h))

-- What an attempt leaves of the info.
abbrev pub Attempted : Option NetworkInfo → NetworkInfo → NetworkInfo → Type 0
Attempted o before now = ((o ≡ none) × (now ≡ record before { current = false })) ⊎ (o ≡ some now)

put-Attempted :
    (i : ℕ) (o : Option NetworkInfo) (s : MempoolStatus)
    → Attempted o s.current_network_info
        (after_network_info i (put_network_info o s)).status.current_network_info
put-Attempted i none s = inl (refl, refl)
put-Attempted i (some info) s = inr refl

query-Attempted :
    (d : ℕ) (r : Round) (u : StatusThread)
    → let now = (query_network d r u).status.current_network_info in
      let before = u.status.current_network_info in
      (u.loop_index % d ≡ 0 → Attempted (fetch_network_info true r.answers r.now) before now)
      × (u.loop_index % d ≢ 0 → now ≡ before)
unfolding query_network read_network_info
query-Attempted d r u =
    let before = u.status.current_network_info in
    let o = fetch_network_info true r.answers r.now in
    if-elim
      (λ (q : StatusThread).
        (u.loop_index % d ≡ 0 → Attempted o before q.status.current_network_info)
        × (u.loop_index % d ≢ 0 → q.status.current_network_info ≡ before))
      (u.loop_index % d == 0)
      (λ due. (λ e. put-Attempted u.loop_index o u.status, λ ne. absurd (ne (ground (arith, due)))))
      (λ other. (λ e. absurd (ground (arith, other, e)), λ ne. refl))

publish-kept :
    (now : ℕ) (o : Option (List MempoolTx × ℕ)) (s : MempoolStatus)
    → (publish now o s).1.current_network_info ≡ s.current_network_info
publish-kept now none s = refl
publish-kept now (some p) s = refl

read-kept :
    (parse : Bytes → Option (Transaction × Bytes)) (pool : Option (List TxInfo)) (now : ℕ)
    (s : MempoolStatus)
    → (read_mempool parse pool now s).1.current_network_info ≡ s.current_network_info
unfolding read_mempool
read-kept parse none now s = refl
read-kept parse (some pool) now s = publish-kept now (read_entries parse (sort_txs pool) [] 0) s

module _ (parse : Bytes → Option (Transaction × Bytes)) (refresh_time : ℕ) where
  rounds_index :
      (rs : List Round) (t : StatusThread)
      → t.loop_index + length rs < u64_mod
      → let d = loop_index_divider refresh_time in
        (status_rounds parse refresh_time rs t).loop_index % d ≡ (t.loop_index + length rs) % d
  unfolding status_rounds status_round
  rounds_index [] t h = ap (λ n. n % loop_index_divider refresh_time) (omega arith)
  rounds_index (r ∷ rs) t h =
      let d = loop_index_divider refresh_time in
      let q = queried_index d r t in
      let u = status_round parse refresh_time r t in
      let index : u.loop_index ≡ (query_network d r t).loop_index + 1 = omega (arith, q.0) in
      let behind = rounds_index rs u (omega (arith, q.0)) in
      behind
      ∙ (ap (λ n. n % d) (omega (arith, index))
          ∙ (shift-mod (query_network d r t).loop_index t.loop_index d (1 + length rs) q.1
              ∙ ap (λ n. n % d) (omega arith)))

  -- The pool's number of transactions is the number of the entries.
  abbrev pub IsConsistent : StatusThread → Type 0
  IsConsistent t = t.status.mempool_no ≡ length t.status.mempool_txs

  after-IsConsistent :
      (i : ℕ) (p : Bool × MempoolStatus)
      → p.1.mempool_no ≡ length p.1.mempool_txs
      → IsConsistent (after_network_info i p)
  after-IsConsistent i (false, s) h = h
  after-IsConsistent i (true, s) h = h

  put-IsConsistent :
      (o : Option NetworkInfo) (s : MempoolStatus)
      → s.mempool_no ≡ length s.mempool_txs
      → (put_network_info o s).1.mempool_no ≡ length (put_network_info o s).1.mempool_txs
  put-IsConsistent none s h = h
  put-IsConsistent (some i) s h = h

  query-IsConsistent :
      (d : ℕ) (r : Round) (t : StatusThread) → IsConsistent t → IsConsistent (query_network d r t)
  unfolding query_network read_network_info
  query-IsConsistent d r t h =
      if-elim IsConsistent (t.loop_index % d == 0)
        (λ due.
          after-IsConsistent t.loop_index (read_network_info true r.answers r.now t.status)
            (put-IsConsistent (fetch_network_info true r.answers r.now) t.status h))
        (λ other. h)

  read-IsConsistent :
      (pool : Option (List TxInfo)) (now : ℕ) (s : MempoolStatus)
      → s.mempool_no ≡ length s.mempool_txs
      → let u = (read_mempool parse pool now s).1 in u.mempool_no ≡ length u.mempool_txs
  unfolding read_mempool
  read-IsConsistent none now s h = h
  read-IsConsistent (some pool) now s h =
      elim (publish-cases now (read_entries parse (sort_txs pool) [] 0) s) [
        | inl e ↦ e
        | inr e ↦ subst (λ (u : MempoolStatus). u.mempool_no ≡ length u.mempool_txs) (sym e) h
      ]

  rounds-IsConsistent :
      (rs : List Round) (t : StatusThread)
      → IsConsistent t
      → IsConsistent (status_rounds parse refresh_time rs t)
  unfolding status_rounds status_round
  rounds-IsConsistent [] t h = h
  rounds-IsConsistent (r ∷ rs) t h =
      let d = loop_index_divider refresh_time in
      rounds-IsConsistent rs (status_round parse refresh_time r t)
        (read-IsConsistent r.pool r.now (query_network d r t).status (query-IsConsistent d r t h))

  -- Whatever the rounds of the thread have met, a snapshot of at most n transactions holds the first
  -- of those that are published, n or all of them, and its total is the number of all.
  pub status_rounds-snapshot :
      (rs : List Round) (t : StatusThread) (n : ℕ)
      → IsConsistent t
      → let s = (status_rounds parse refresh_time rs t).status in
        let m = get_mempool_snapshot n s in
        (m.transactions ≡ get_mempool_txs n s)
        × (m.total_count ≡ length s.mempool_txs)
        × (length m.transactions ≡ min n m.total_count)
  unfolding get_mempool_snapshot get_mempool_txs
  status_rounds-snapshot rs t n h =
      snapshot_lem n (status_rounds parse refresh_time rs t).status (rounds-IsConsistent rs t h)

  -- From a loop index of 0 and for fewer than 2^64 rounds: a round asks the daemon for the network
  -- info exactly if the number of rounds before it is a multiple of the divider. Then the info is
  -- current afterwards exactly if the daemon's answers make one, which it then is; otherwise the
  -- round leaves the info as it is.
  pub status_rounds-network :
      (rs : List Round) (r : Round) (t : StatusThread)
      → t.loop_index ≡ 0
      → length rs < u64_mod
      → let u = status_rounds parse refresh_time rs t in
        let now = (status_round parse refresh_time r u).status.current_network_info in
        (length rs % loop_index_divider refresh_time ≡ 0
          → Attempted (fetch_network_info true r.answers r.now) u.status.current_network_info now)
        × (length rs % loop_index_divider refresh_time ≢ 0 → now ≡ u.status.current_network_info)
  unfolding status_round
  status_rounds-network rs r t start few =
      let d = loop_index_divider refresh_time in
      let u = status_rounds parse refresh_time rs t in
      let index : u.loop_index % d ≡ length rs % d =
        rounds_index rs t (omega (arith, start)) ∙ ap (λ n. n % d) (omega (arith, start)) in
      let kept = read-kept parse r.pool r.now (query_network d r u).status in
      let asked = query-Attempted d r u in
      (
        λ e.
            subst
              (Attempted (fetch_network_info true r.answers r.now) u.status.current_network_info)
              (sym kept) (asked.0 (index ∙ e)),
        λ ne. kept ∙ asked.1 (λ e. ne (sym index ∙ e)),
      )
