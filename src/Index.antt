-- ===== src/Index.antt =====
-- src/page.h: the snapshot and the loop of index2, the front page and the lists of blocks. A row is
-- left out where its block or its transactions are not there, unlike in the JSON pages.
pub mod Rows
pub mod Page
use explorer_qwertycoin_org.Base.{
  ℕ, zero, suc, ◌+◌, ◌-◌, ◌/◌, true, false, ◌||◌, not, List, [], ◌∷◌, Option, none, some, Bytes,
  codes, is_empty, same, ltb, ◌==◌, if◌then◌else◌, length, u64_max,
}
use explorer_qwertycoin_org.Transaction.{Transaction}
use explorer_qwertycoin_org.Api.{
  ChainBlock, FoundTxs, Query, Refusal, error, thrown, ◌>>=◌, ◌>>◌, return, refuse, observe,
  refuse_if, or_refuse, get_block_by_height, get_tx_details, get_age,
}
use explorer_qwertycoin_org.Observer.{Shared, glance}

-- A row of the list of blocks, less the text of its weight; `none` for "unavailable".
pub record IndexBlock : Type 0 where
  pub height : ℕ
  pub block_hash : Bytes
  pub age : Option Bytes
  pub timestamp : ℕ
  pub regular_tx_count : ℕ
  pub total_tx_count : ℕ
  pub weight : ℕ
  pub difficulty : Bytes
  pub fees : Option ℕ
  pub coinbase_total : ℕ

abbrev pub invalidated : Refusal
invalidated = error (
    codes
      "Block-page snapshot was invalidated by a chain change. Return to /blocks to restart pagination.")

abbrev pub changed : Refusal
changed = error (
    codes
      "Block-page snapshot changed while it was rendered. Return to /blocks to restart pagination.")

-- The block count and the tip of the page: those that are asked for, or the live ones.
unfoldable pub page_snapshot : ℕ → Bytes → ℕ → Query (ℕ × Bytes)
page_snapshot asked_count asked_tip height =
    if ltb 0 asked_count
    then (if ltb height asked_count || not (length asked_tip == 64) then refuse invalidated else (do
      id ← observe (λ c. c.block_id (asked_count - 1))
      refuse_if (not (same id asked_tip)) invalidated
      return (asked_count, asked_tip)))
    else if ltb 0 height
    then (do id ← observe (λ c. c.block_id (height - 1)); return (height, id))
    else return (height, [])

-- The sum of the fees, nothing where it would not fit; the loop ends there.
unfoldable pub sum_index_fees : ℕ → ℕ → List Transaction → ℕ → Query (Option ℕ)
sum_index_fees i height [] fees = return (some fees)
sum_index_fees i height (tx ∷ txs) fees = do
  txd ← get_tx_details tx false i height
  elim (ltb (u64_max - txd.fee) fees) [
    | true ↦ return none
    | false ↦ sum_index_fees i height txs (fees + txd.fee)
  ]

abbrev pub if_all_there : List Bytes → Option ℕ → Option ℕ
if_all_there missed fees = if is_empty missed then fees else none

abbrev pub onto_rows : Option IndexBlock → List IndexBlock → List IndexBlock
onto_rows none rows = rows
onto_rows (some row) rows = row ∷ rows

module _ (shared : Shared) (now height : ℕ) where
  abbrev pub index_row : ℕ → ChainBlock → Bytes → ℕ → Bytes → Option ℕ → ℕ → IndexBlock
  index_row i blk blk_hash weight difficulty fees coinbase_total = record {
    height = i;
    block_hash = blk_hash;
    age = if ltb 0 blk.timestamp then some (get_age now blk.timestamp).0 else none;
    timestamp = blk.timestamp;
    regular_tx_count = length blk.tx_hashes;
    total_tx_count = length blk.tx_hashes + 1;
    weight = weight;
    difficulty = difficulty;
    fees = fees;
    coinbase_total = coinbase_total;
  }

  -- From the transactions on; nothing where they could not be looked up.
  abbrev pub row_of_txs : ℕ → ChainBlock → Bytes → ℕ → Bytes → FoundTxs → Query (Option IndexBlock)
  row_of_txs i blk blk_hash weight difficulty got = if not got.succeeded then return none else (do
    fees ← sum_index_fees i height got.txs 0
    coinbase ← get_tx_details blk.miner_tx false i height
    return (
        some (
          index_row i blk blk_hash weight difficulty (if_all_there got.missed fees)
            coinbase.xmr_outputs)))

  abbrev pub row_of_block : ℕ → Option ChainBlock → Query (Option IndexBlock)
  row_of_block i none = return none
  row_of_block i (some blk) = do
    blk_hash ← observe (λ c. c.block_id i)
    found_weight ← observe (λ c. c.block_weight i)
    weight ← or_refuse found_weight thrown
    text ← glance (λ t. shared.difficulty t i)
    difficulty ← or_refuse text thrown
    got ← observe (λ c. c.transactions blk.tx_hashes)
    row_of_txs i blk blk_hash weight difficulty got

  unfoldable pub index_block : ℕ → Query (Option IndexBlock)
  index_block i = do found ← get_block_by_height i; row_of_block i found

  -- The loop from the top block down: the blocks left, and the first height of the range.
  unfoldable pub index_blocks : ℕ → ℕ → Query (List IndexBlock)
  unfolding index_block
  index_blocks zero begin = return []
  index_blocks (suc n) begin = do
    row ← index_block (begin + n)
    rows ← index_blocks n begin
    return (onto_rows row rows)

-- Behind the loop the chain still reaches the page's block count and has its tip.
unfoldable pub recheck : ℕ → Bytes → Query (Unit {0})
recheck block_count tip_hash =
    if ltb 0 block_count
    then (do
      top ← observe (λ c. c.height)
      if ltb top block_count then refuse changed else (do
        id ← observe (λ c. c.block_id (block_count - 1))
        refuse_if (not (same id tip_hash)) changed))
    else return tt
