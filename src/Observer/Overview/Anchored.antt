-- ===== src/Observer/Overview/Anchored.antt =====
-- What an overview holds: the top blocks of a chain that was still there behind them, and the cache.
use explorer_qwertycoin_org.Base.{
  ℕ, zero, suc, min, add64, ◌+◌, ◌-◌, ◌≤◌, ◌<◌, true, ◌||◌, not, List, [], ◌∷◌, some, Bytes,
  is_empty, same, same_iff, ltb, ◌==◌, length, u64_max, ◌≡◌, refl, ap, sym, ◌∙◌, arith, inl, inr,
  Bool-cases, map, subst, All,
}
use explorer_qwertycoin_org.Amount.{format_atomic_amount}
use explorer_qwertycoin_org.Pagination.{make_descending_block_range}
use explorer_qwertycoin_org.Transaction.{Transaction}
use explorer_qwertycoin_org.Mempool.{get_mempool_snapshot}
use explorer_qwertycoin_org.Api.{Node, ChainBlock, get_block_by_height, thrown}
use explorer_qwertycoin_org.Api.Laws.{Yields, Yields-bind, Yields-or_refuse, Yields-refuse_if}
use explorer_qwertycoin_org.Api.Listing.Pages.{descending}
use explorer_qwertycoin_org.Observer.{Shared, NetworkJson, EmissionJson}
use explorer_qwertycoin_org.Observer.Overview.{
  OverviewBlock, OverviewData, sum_overview_fees, overview_range, overview_block, overview_blocks,
  check_tip, overview_data, make_overview, anchor_matches,
}

-- The sum of the fees over unbounded numbers.
unfoldable pub plain_fees : List Transaction → ℕ
plain_fees [] = 0
plain_fees (tx ∷ txs) = tx.fee + plain_fees txs

sum_overview_fees-plain :
    (txs : List Transaction) (fees total : ℕ)
    → fees ≤ u64_max
    → sum_overview_fees txs fees ≡ some total
    → (total ≡ fees + plain_fees txs) × (total ≤ u64_max)
unfolding sum_overview_fees plain_fees
sum_overview_fees-plain [] fees total small h = ground arith
sum_overview_fees-plain (tx ∷ txs) fees total small h =
    elim (Bool-cases (ltb (u64_max - fees) tx.fee)) [
      | inl over ↦ absurd (ground (arith, over, h))
      | inr fits ↦
          let rest : sum_overview_fees txs (fees + tx.fee) ≡ some total = ground (arith, fits, h) in
          let held =
            sum_overview_fees-plain txs (fees + tx.fee) total (ground (arith, fits)) rest in
          (omega (arith, held), held.1)
    ]

-- The range is that of the top blocks.
range_lem :
    (k count : ℕ)
    → let n = min (min (add64 k 1) 25) count in
      (0 < n → (overview_range k count).begin ≡ count - n)
      × ((overview_range k count).returned_count ≡ n)
unfolding make_descending_block_range
range_lem k count = ground arith

descending_same :
    (start start' n : ℕ) → (0 < n → start ≡ start') → descending start n ≡ descending start' n
unfolding descending
descending_same start start' zero h = refl
descending_same start start' (suc n) h = ap (λ s. descending s (suc n)) (h (omega arith))

top_heights :
    (k count : ℕ)
    → let r = overview_range k count in
      let n = min (min (add64 k 1) 25) count in
      descending r.begin r.returned_count ≡ descending (count - n) n
top_heights k count =
    let (start, size) = range_lem k count in
    ap (descending (overview_range k count).begin) size ∙ descending_same _ _ _ start

module _ (shared : Shared) where
  -- A row is made of three readings of the node in a row: the block, its transactions, none of them
  -- missed, whose fees it sums, and the hash at its height.
  abbrev pub IsRow : (ℕ → Node) → ℕ → OverviewBlock → Type 0
  IsRow views height b =
      (b.height ≡ height)
      × (v : ℕ) × (blk : ChainBlock) × ((views v).db_block height ≡ some blk)
      × (b.timestamp ≡ blk.timestamp)
      × (b.regular_tx_count ≡ length blk.tx_hashes)
      × (b.total_tx_count ≡ b.regular_tx_count + 1)
      × (b.block_hash ≡ (views (suc (suc v))).block_id height)
      × (let txs = (shared.pruned_transactions (suc v) blk.tx_hashes).txs in
          (length txs ≡ b.regular_tx_count)
          × (plain_fees txs ≤ u64_max)
          × (b.fees_qwc ≡ format_atomic_amount (plain_fees txs) shared.coin 8))

  overview_block-IsRow :
      (height : ℕ) (views : ℕ → Node) (t : ℕ)
      → Yields (λ b u. IsRow views height b) (overview_block shared height views t)
  unfolding overview_block get_block_by_height
  overview_block-IsRow height views t =
      let Q = λ (b : OverviewBlock) (u : ℕ). IsRow views height b in
      Yields-or_refuse Q ((views t).db_block height) _ views (suc t) _ λ blk found.
        let got = shared.pruned_transactions (suc t) blk.tx_hashes in
        Yields-refuse_if Q
          (not got.succeeded
            || not (is_empty got.missed)
            || not (length got.txs == length blk.tx_hashes))
          _ views (suc (suc t)) _
          λ complete.
            Yields-or_refuse Q (sum_overview_fees got.txs 0) _ views (suc (suc t)) _ λ fees sum.
              Yields-or_refuse Q (shared.difficulty (suc (suc (suc t))) height) thrown views
                (suc (suc (suc (suc t)))) _
                λ difficulty _.
                  Yields-or_refuse Q ((views (suc (suc (suc (suc t))))).block_weight height) thrown
                    views (suc (suc (suc (suc (suc t))))) _
                    λ weight _.
                      let (plain, small) =
                        sum_overview_fees-plain got.txs 0 fees (omega arith) sum in
                      let same_sum : fees ≡ plain_fees got.txs = omega (arith, plain) in
                      (
                        refl,
                        t,
                        blk,
                        found,
                        refl,
                        refl,
                        refl,
                        refl,
                        (
                          ground (arith, complete),
                          omega (arith, same_sum, small),
                          ap (λ n. format_atomic_amount n shared.coin 8) same_sum,
                        ),
                      )

  abbrev Rows : (ℕ → Node) → ℕ → ℕ → List OverviewBlock → ℕ → Type 0
  Rows views n begin bs u =
      (map (λ (b : OverviewBlock). b.height) bs ≡ descending begin n)
      × All (λ b. IsRow views b.height b) bs

  overview_blocks-Rows :
      (n begin : ℕ) (views : ℕ → Node) (t : ℕ)
      → Yields (Rows views n begin) (overview_blocks shared n begin views t)
  unfolding overview_blocks descending
  overview_blocks-Rows zero begin views t = (refl, tt)
  overview_blocks-Rows (suc n) begin views t =
      Yields-bind (Rows views (suc n) begin) (λ b u. IsRow views (begin + n) b)
        (overview_block shared (begin + n) views t) _ (overview_block-IsRow (begin + n) views t)
        λ b u row.
          Yields-bind (Rows views (suc n) begin) (Rows views n begin)
            (overview_blocks shared n begin views u) _ (overview_blocks-Rows n begin views u)
            λ bs v rest. (
              ap (λ k. k ∷ map (λ (c : OverviewBlock). c.height) bs) row.0
                  ∙ ap (λ ks. (begin + n) ∷ ks) rest.0,
              (subst (λ h. IsRow views h b) (sym row.0) row, rest.1),
            )

  -- Two calls in a row, the second before u, saw the height and the tip.
  abbrev pub TipSeen : (ℕ → Node) → ℕ → Bytes → ℕ → Type 0
  TipSeen views block_count tip_hash u =
      (v : ℕ) × (u ≡ suc (suc v))
      × ((views v).height ≡ block_count)
      × ((views (suc v)).block_id (block_count - 1) ≡ tip_hash)

  check_tip-TipSeen :
      (block_count : ℕ) (tip_hash : Bytes) (views : ℕ → Node) (t : ℕ)
      → Yields
          (λ x u. TipSeen views block_count tip_hash u)
          (check_tip shared block_count tip_hash views t)
  unfolding check_tip
  check_tip-TipSeen block_count tip_hash views t =
      let Q = λ (x : Unit {0}) (u : ℕ). TipSeen views block_count tip_hash u in
      Yields-refuse_if Q (not ((views t).height == block_count)) _ views (suc t) _ λ kept.
        let id = (views (suc t)).block_id (block_count - 1) in
        elim (Bool-cases (same id tip_hash)) [
          | inl held ↦ rw (held) (t, refl, ground (arith, kept), (same_iff id tip_hash).0 held)
          | inr moved ↦ rw (moved) tt
        ]

  -- What the data of an overview that was made are: the rows of the top blocks, at most 25, and the
  -- tip seen behind them, one call before the pool was read.
  abbrev pub IsOverview : (ℕ → Node) → ℕ → OverviewData → ℕ → Type 0
  IsOverview views no_blocks_on_index d u =
      (let n = min (min (add64 no_blocks_on_index 1) 25) d.block_count in
        (map (λ (b : OverviewBlock). b.height) d.blocks ≡ descending (d.block_count - n) n)
        × (n ≤ 25))
      × All (λ b. IsRow views b.height b) d.blocks
      × (0 < d.block_count)
      × (d.tip_height + 1 ≡ d.block_count)
      × (d.rpc_db_anchor_matches ≡ true
          → (d.network.height ≡ d.block_count) × (d.network.top_block_hash ≡ d.tip_hash))
      × ((w : ℕ) × (u ≡ suc w)
          × TipSeen views d.block_count d.tip_hash w
          × (d.pool ≡ get_mempool_snapshot 25 (shared.status w)))

  pub overview_data-IsOverview :
      (no_blocks_on_index now : ℕ) (network : NetworkJson) (supply : EmissionJson)
      (views : ℕ → Node) (t : ℕ)
      → Yields
          (λ d u. IsOverview views no_blocks_on_index d u × (d.rendered_at_unix ≡ now))
          (overview_data shared no_blocks_on_index now network supply views t)
  unfolding overview_data
  overview_data-IsOverview k now network supply views t =
      let Q = λ (d : OverviewData) (u : ℕ). IsOverview views k d u × (d.rendered_at_unix ≡ now) in
      let count = (views t).height in
      let tip = (views (suc t)).block_id (count - 1) in
      let r = overview_range k count in
      Yields-refuse_if Q (count == 0) _ views (suc t) _ λ above.
        Yields-bind Q (Rows views r.returned_count r.begin)
          (overview_blocks shared r.returned_count r.begin views (suc (suc t))) _
          (overview_blocks-Rows r.returned_count r.begin views (suc (suc t)))
          λ bs u (heights, rows).
            Yields-bind Q (λ x w. TipSeen views count tip w) (check_tip shared count tip views u) _
              (check_tip-TipSeen count tip views u)
              λ _ w seen.
                let d =
                  make_overview shared now network supply count tip bs
                    (get_mempool_snapshot 25 (shared.status w)) in
                let held : Q d (suc w) = (
                  (
                    (heights ∙ top_heights k count, omega arith),
                    rows,
                    ground (arith, above),
                    ground (arith, above),
                    matched network count tip,
                    (w, refl, seen, refl),
                  ),
                  refl,
                ) in
                held
    where
      matched :
          (network : NetworkJson) (count : ℕ) (tip : Bytes)
          → anchor_matches shared network count tip ≡ true
          → (network.height ≡ count) × (network.top_block_hash ≡ tip)
      matched network count tip e = ground (arith, same_iff network.top_block_hash tip)
