-- ===== src/Index/Rows.antt =====
-- What the loop of index2 lists, and what the check behind it has seen.
use explorer_qwertycoin_org.Api.{
  Query, Node, ChainBlock, TxDetails, observe, return, tx_fee_of, get_tx_details,
  get_block_by_height, thrown, is_searched, tx_hash_of, or_refuse, make_details, ◌>>=◌,
}
use explorer_qwertycoin_org.Base.{
  ◌==◌, if-elim, ◌<◌, ◌≤◌, ℕ, zero, suc, ◌+◌, ◌-◌, Bool, true, false, List, [], ◌∷◌, Option, none,
  some, Bytes, sub64, if◌then◌else◌, ltb, length, u64_max, ◌≡◌, refl, arith, inl, inr, Bool-cases,
  Option-cases, ◌⊎◌,
}
use explorer_qwertycoin_org.Transaction.{Transaction, summary_of_in_out_rct}
use explorer_qwertycoin_org.Api.Laws.{Yields, Yields-mono, Yields-bind, Yields-or_refuse}
use explorer_qwertycoin_org.Api.Listing.Pages.{Seen, check-Seen}
use explorer_qwertycoin_org.Observer.{Shared}
use explorer_qwertycoin_org.Index.{
  IndexBlock, sum_index_fees, if_all_there, row_of_txs, index_block, index_blocks, onto_rows,
  recheck, changed,
}

-- The fees that get_tx_details reads, over unbounded numbers.
unfoldable pub fees_read : List Transaction → ℕ
fees_read [] = 0
fees_read (tx ∷ txs) = tx_fee_of tx false + fees_read txs

-- The fee and the outputs of the details do not depend on the node.
abbrev Read : ℕ → Transaction → TxDetails → ℕ → Type 0
Read t tx txd u =
    (t ≤ u)
    × (txd.fee ≡ tx_fee_of tx false)
    × (txd.xmr_outputs ≡ (summary_of_in_out_rct tx).xmr_outputs)

is_searched-later :
    (i : ℕ) (tx_hash : Bytes) (views : ℕ → Node) (t : ℕ)
    → Yields (λ b u. t ≤ u) (is_searched i tx_hash views t)
unfolding is_searched
is_searched-later i tx_hash views t =
    if-elim (λ (m : Query Bool). Yields (λ b u. t ≤ u) (m views t)) (i == 0) (λ e. omega arith)
      (λ e. omega arith)

get_tx_details-Read :
    (tx : Transaction) (i height : ℕ) (views : ℕ → Node) (t : ℕ)
    → Yields (Read t tx) (get_tx_details tx false i height views t)
unfolding get_tx_details
get_tx_details-Read tx i height views t =
    Yields-bind (Read t tx) (λ b u. t ≤ u) (is_searched i (tx_hash_of tx) views t) _
      (is_searched-later i (tx_hash_of tx) views t) λ searched u later. found searched u later
  where
    found :
        (searched : Bool) (u : ℕ)
        → t ≤ u
        → Yields (Read t tx) (
            (if searched
                then (do
                  h ← observe (λ c. c.tx_block_height (tx_hash_of tx))
                  block_height ← or_refuse h thrown
                  top ← observe (λ c. c.height)
                  return (make_details tx false (some block_height) (sub64 top block_height)))
                else return (make_details tx false none (sub64 height i)))
              views u)
    found false u later = (later, refl, refl)
    found true u later =
        Yields-or_refuse (Read t tx) ((views u).tx_block_height (tx_hash_of tx)) thrown views
          (suc u) _ (λ block_height e. (omega (arith, later), refl, refl))

abbrev Summed : ℕ → ℕ → List Transaction → Option ℕ → ℕ → Type 0
Summed t fees txs sum u = (t ≤ u) × ((total : ℕ) → sum ≡ some total → total ≡ fees + fees_read txs)

sum_index_fees-Summed :
    (i height : ℕ) (txs : List Transaction) (fees : ℕ) (views : ℕ → Node) (t : ℕ)
    → Yields (Summed t fees txs) (sum_index_fees i height txs fees views t)
unfolding sum_index_fees fees_read
sum_index_fees-Summed i height [] fees views t = (omega arith, λ total e. ground arith)
sum_index_fees-Summed i height (tx ∷ txs) fees views t =
    let Q = Summed t fees (tx ∷ txs) in
    Yields-bind Q (Read t tx) (get_tx_details tx false i height views t) _
      (get_tx_details-Read tx i height views t)
      λ txd u read. elim (Bool-cases (ltb (u64_max - txd.fee) fees)) [
        | inl over ↦ rw (over) (read.0, λ total e. absurd (ground (arith, e)))
        | inr fits ↦ rw (fits) (
            Yields-mono Q (Summed u (fees + txd.fee) txs) _
              (sum_index_fees-Summed i height txs (fees + txd.fee) views u)
              (λ sum v held.
                (omega (arith, held, read), λ total e. omega (arith, held.1 total e, read))))
      ]

module _ (shared : Shared) (now height : ℕ) where
  -- A row is made of the block that a view has at its height, the hash that the next one has there,
  -- and, three calls on, the transactions of the block; the fees are of all of them or of none. All
  -- these views come before the last one.
  abbrev pub IsRow : (ℕ → Node) → ℕ → IndexBlock → ℕ → Type 0
  IsRow views i row last =
      (v : ℕ) × (suc (suc (suc (suc v))) < last)
      × (blk : ChainBlock) × ((views v).db_block i ≡ some blk)
      × (row.height ≡ i)
      × (row.timestamp ≡ blk.timestamp)
      × (row.block_hash ≡ (views (suc v)).block_id i)
      × (row.regular_tx_count ≡ length blk.tx_hashes)
      × (row.total_tx_count ≡ suc (length blk.tx_hashes))
      × (row.coinbase_total ≡ (summary_of_in_out_rct blk.miner_tx).xmr_outputs)
      × (let got = (views (suc (suc (suc (suc v))))).transactions blk.tx_hashes in
          (got.succeeded ≡ true)
          × ((fees : ℕ) → row.fees ≡ some fees → (got.missed ≡ []) × (fees ≡ fees_read got.txs)))

  -- A height has no row where a view has no block there, or a later one fails on its transactions.
  abbrev pub IsLeftOut : (ℕ → Node) → ℕ → ℕ → Type 0
  IsLeftOut views i last =
      (v : ℕ) × (v < last)
      × (((views v).db_block i ≡ none)
          ⊎ ((blk : ChainBlock) × (suc (suc (suc (suc v))) < last)
              × ((views v).db_block i ≡ some blk)
              × (((views (suc (suc (suc (suc v))))).transactions blk.tx_hashes).succeeded ≡ false)))

  abbrev IsResult : (ℕ → Node) → ℕ → Option IndexBlock → ℕ → Type 0
  IsResult views i none u = IsLeftOut views i u
  IsResult views i (some row) u = IsRow views i row u

  -- What a call that began at the view t has made.
  abbrev Made : (ℕ → Node) → ℕ → ℕ → Option IndexBlock → ℕ → Type 0
  Made views i t row u = (t ≤ u) × IsResult views i row u

  if_all_there_lem :
      (missed : List Bytes) (fees : Option ℕ) {sum : ℕ}
      → if_all_there missed fees ≡ some sum
      → (missed ≡ []) × (fees ≡ some sum)
  if_all_there_lem [] fees e = (refl, e)
  if_all_there_lem (m ∷ ms) fees e = absurd (ground (arith, e))

  row_of_txs-IsResult :
      (i : ℕ) (views : ℕ → Node) (t : ℕ) (blk : ChainBlock) (weight : ℕ) (difficulty : Bytes)
      → (views t).db_block i ≡ some blk
      → (let got = (views (suc (suc (suc (suc t))))).transactions blk.tx_hashes in
          Yields (Made views i t) (
            row_of_txs shared now height i blk
              ((views (suc t)).block_id i)
              weight
              difficulty
              got
              views
              (suc (suc (suc (suc (suc t)))))))
  row_of_txs-IsResult i views t blk weight difficulty there =
      let got = (views (suc (suc (suc (suc t))))).transactions blk.tx_hashes in
      elim (Bool-cases got.succeeded) [
        | inl found ↦ rw (found) (
            Yields-bind (Made views i t) (Summed (suc (suc (suc (suc (suc t))))) 0 got.txs)
              (sum_index_fees i height got.txs 0 views (suc (suc (suc (suc (suc t)))))) _
              (sum_index_fees-Summed i height got.txs 0 views (suc (suc (suc (suc (suc t))))))
              λ fees u plain.
                Yields-bind (Made views i t) (Read u blk.miner_tx)
                  (get_tx_details blk.miner_tx false i height views u) _
                  (get_tx_details-Read blk.miner_tx i height views u)
                  λ coinbase v read. (
                    omega (arith, plain, read),
                    (
                      t,
                      omega (arith, plain, read),
                      blk,
                      there,
                      refl,
                      refl,
                      refl,
                      refl,
                      omega arith,
                      read.2,
                      (
                        found,
                        λ sum e.
                            let all = if_all_there_lem got.missed fees e in
                            (all.0, omega (arith, plain.1 sum all.1)),
                      ),
                    ),
                  ))
        | inr lost ↦ rw (lost) (omega arith, (t, omega arith, inr (blk, omega arith, there, lost)))
      ]

  index_block-IsResult :
      (i : ℕ) (views : ℕ → Node) (t : ℕ)
      → Yields (Made views i t) (index_block shared now height i views t)
  unfolding index_block get_block_by_height
  index_block-IsResult i views t = elim (Option-cases ((views t).db_block i)) [
    | inl gone ↦ rw (gone) (omega arith, (t, omega arith, inl gone))
    | inr (blk, there) ↦
        let Q = Made views i t in
        rw (there) (
          Yields-or_refuse Q ((views (suc (suc t))).block_weight i) thrown views (suc (suc (suc t)))
            _
            λ weight _.
              Yields-or_refuse Q (shared.difficulty (suc (suc (suc t))) i) thrown views
                (suc (suc (suc (suc t)))) _
                λ difficulty _. row_of_txs-IsResult i views t blk weight difficulty there)
  ]

  IsRow-later :
      (views : ℕ → Node) (i : ℕ) (row : IndexBlock) (u w : ℕ)
      → u ≤ w
      → IsRow views i row u
      → IsRow views i row w
  IsRow-later views i row u w le (v, before, blk, there, h, stamp, id, few, all, sum, got) =
      (v, omega (arith, before, le), blk, there, h, stamp, id, few, all, sum, got)

  IsLeftOut-later :
      (views : ℕ → Node) (i u w : ℕ) → u ≤ w → IsLeftOut views i u → IsLeftOut views i w
  IsLeftOut-later views i u w le (v, before, inl gone) = (v, omega (arith, before, le), inl gone)
  IsLeftOut-later views i u w le (v, before, inr (blk, read, there, lost)) =
      (v, omega (arith, before, le), inr (blk, omega (arith, read, le), there, lost))

  -- The rows of n heights from begin up, from the top down: each height has its row or is left out,
  -- by views before the last one.
  unfoldable pub IsListing : (ℕ → Node) → ℕ → ℕ → List IndexBlock → ℕ → Type 0
  IsListing views begin zero rows last = rows ≡ []
  IsListing views begin (suc n) rows last =
      (IsLeftOut views (begin + n) last × IsListing views begin n rows last)
      ⊎ ((row : IndexBlock) × (rest : List IndexBlock) × (rows ≡ row ∷ rest)
          × IsRow views (begin + n) row last
          × IsListing views begin n rest last)

  abbrev pub Listed : (ℕ → Node) → ℕ → ℕ → ℕ → List IndexBlock → ℕ → Type 0
  Listed views begin n t rows u = (t ≤ u) × IsListing views begin n rows u

  pub index_blocks-IsListing :
      (n begin : ℕ) (views : ℕ → Node) (t : ℕ)
      → Yields (Listed views begin n t) (index_blocks shared now height n begin views t)
  unfolding index_blocks IsListing
  index_blocks-IsListing zero begin views t = (omega arith, refl)
  index_blocks-IsListing (suc n) begin views t =
      let Q = Listed views begin (suc n) t in
      Yields-bind Q (Made views (begin + n) t) (index_block shared now height (begin + n) views t) _
        (index_block-IsResult (begin + n) views t)
        λ row u made.
          Yields-bind Q (Listed views begin n u) (index_blocks shared now height n begin views u) _
            (index_blocks-IsListing n begin views u)
            λ rows v rest. (omega (arith, made, rest), joined row rows u v rest.0 made.1 rest.1)
    where
      joined :
          (row : Option IndexBlock) (rows : List IndexBlock) (u v : ℕ)
          → u ≤ v
          → IsResult views (begin + n) row u
          → IsListing views begin n rows v
          → IsListing views begin (suc n) (onto_rows row rows) v
      joined none rows u v le left rest = inl (IsLeftOut-later views (begin + n) u v le left, rest)
      joined (some row) rows u v le made rest =
          inr (row, rows, refl, IsRow-later views (begin + n) row u v le made, rest)

pub recheck-Seen :
    (count : ℕ) (tip_hash : Bytes) (views : ℕ → Node) (t : ℕ)
    → Yields (λ x u. Seen count tip_hash views t u) (recheck count tip_hash views t)
unfolding recheck
recheck-Seen = check-Seen changed
