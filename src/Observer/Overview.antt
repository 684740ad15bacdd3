-- ===== src/Observer/Overview.antt =====
-- src/page.h: json_overview, the blocks at the top of the chain with the network, the supply and the
-- pool. Its mutex is held throughout, so the cache is passed from call to call.
pub mod Anchored
pub mod Cached
use explorer_qwertycoin_org.Base.{
  ℕ, zero, suc, ◌+◌, ◌-◌, Bool, true, false, ◌&&◌, ◌||◌, not, List, [], ◌∷◌, Option, none, some,
  Bytes, codes, is_empty, same, ltb, leb, ◌==◌, if◌then◌else◌, length, min, u64_max, add64,
}
use explorer_qwertycoin_org.Amount.{format_atomic_amount}
use explorer_qwertycoin_org.Pagination.{DescendingBlockRange, make_descending_block_range}
use explorer_qwertycoin_org.Transaction.{Transaction}
use explorer_qwertycoin_org.Mempool.{MempoolSnapshot, get_mempool_snapshot}
use explorer_qwertycoin_org.Api.{
  Query, Answer, success, refused, fail, error, thrown, ◌>>=◌, ◌>>◌, return, observe, refuse_if,
  or_refuse, get_block_by_height,
}
use explorer_qwertycoin_org.Observer.{
  Shared, glance, NetworkJson, EmissionJson, json_networkinfo, json_emission,
}

-- A block's row, less the text of its weight; the amounts are in coins.
pub record OverviewBlock : Type 0 where
  pub height : ℕ
  pub block_hash : Bytes
  pub timestamp : ℕ
  pub regular_tx_count : ℕ
  pub total_tx_count : ℕ
  pub difficulty : Bytes
  pub fees_qwc : Bytes
  pub coinbase_total_qwc : Bytes
  pub weight : ℕ

pub record OverviewData : Type 0 where
  pub network : NetworkJson
  pub rpc_db_anchor_matches : Bool
  pub supply : EmissionJson
  pub blocks : List OverviewBlock
  pub pool : MempoolSnapshot
  pub block_count : ℕ
  pub tip_height : ℕ
  pub tip_hash : Bytes
  pub rendered_at_unix : ℕ

-- A response: "success" with its data, or "error" with its message.
pub data Overview : Type 0 where
  ready : OverviewData → Overview
  unavailable : Bytes → Overview

pub record OverviewCache : Type 0 where
  pub response : Overview
  pub time : ℕ

-- A call whose "fail" or "error" the caller only tests; an exception passes through.
abbrev pub settled : {A : Type 0} → Answer A → Answer (Option A)
settled (success a t) = success (some a) t
settled (refused thrown t) = refused thrown t
settled (refused (fail e) t) = success none t
settled (refused (error e) t) = success none t

abbrev pub attempt : {A : Type 0} → Query A → Query (Option A)
attempt m views t = settled (m views t)

-- The sum of the fees with its test for overflow, from the sum so far.
unfoldable pub sum_overview_fees : List Transaction → ℕ → Option ℕ
sum_overview_fees [] fees = some fees
sum_overview_fees (tx ∷ txs) fees = elim (ltb (u64_max - fees) tx.fee) [
  | true ↦ none
  | false ↦ sum_overview_fees txs (fees + tx.fee)
]

-- The option and one block more, but 25 at most.
abbrev pub overview_range : ℕ → ℕ → DescendingBlockRange
overview_range no_blocks_on_index block_count =
    make_descending_block_range block_count 0 (min (add64 no_blocks_on_index 1) 25)

module _ (shared : Shared) where
  unfoldable pub overview_block : ℕ → Query OverviewBlock
  overview_block height = do
    found ← get_block_by_height height
    blk ← or_refuse found (error (codes "Cannot read a canonical overview block"))
    got ← glance (λ t. shared.pruned_transactions t blk.tx_hashes)
    refuse_if
        (not got.succeeded
          || not (is_empty got.missed)
          || not (length got.txs == length blk.tx_hashes))
        (error (codes "Cannot read every overview transaction"))
    fees ← or_refuse (sum_overview_fees got.txs 0) (error (codes "Overview fee total overflow"))
    block_hash ← observe (λ c. c.block_id height)
    text ← glance (λ t. shared.difficulty t height)
    difficulty ← or_refuse text thrown
    found_weight ← observe (λ c. c.block_weight height)
    weight ← or_refuse found_weight thrown
    return (record {
      height = height;
      block_hash = block_hash;
      timestamp = blk.timestamp;
      regular_tx_count = length blk.tx_hashes;
      total_tx_count = length blk.tx_hashes + 1;
      difficulty = difficulty;
      fees_qwc = format_atomic_amount fees shared.coin 8;
      coinbase_total_qwc =
          format_atomic_amount (shared.outs_money_amount blk.miner_tx) shared.coin 8;
      weight = weight;
    })

  -- The loop from the top block down: the blocks left, and the first height of the range.
  unfoldable pub overview_blocks : ℕ → ℕ → Query (List OverviewBlock)
  unfolding overview_block
  overview_blocks zero begin = return []
  overview_blocks (suc n) begin = do
    b ← overview_block (begin + n)
    bs ← overview_blocks n begin
    return (b ∷ bs)

  -- `||` looks at the tip only where the height is unchanged.
  unfoldable pub check_tip : ℕ → Bytes → Query (Unit {0})
  check_tip block_count tip_hash = do
    top ← observe (λ c. c.height)
    refuse_if (not (top == block_count))
        (error (codes "Canonical chain changed during overview snapshot"))
    id ← observe (λ c. c.block_id (block_count - 1))
    refuse_if (not (same id tip_hash))
        (error (codes "Canonical chain changed during overview snapshot"))

  abbrev pub anchor_matches : NetworkJson → ℕ → Bytes → Bool
  anchor_matches network block_count tip_hash =
      (network.height == block_count) && same network.top_block_hash tip_hash

  abbrev pub make_overview :
      ℕ
      → NetworkJson
      → EmissionJson
      → ℕ
      → Bytes
      → List OverviewBlock
      → MempoolSnapshot
      → OverviewData
  make_overview now network supply block_count tip_hash blocks pool = record {
    network = network;
    rpc_db_anchor_matches = anchor_matches network block_count tip_hash;
    supply = supply;
    blocks = blocks;
    pool = pool;
    block_count = block_count;
    tip_height = block_count - 1;
    tip_hash = tip_hash;
    rendered_at_unix = now;
  }

  -- What follows the two pages, up to the response.
  unfoldable pub overview_data : ℕ → ℕ → NetworkJson → EmissionJson → Query OverviewData
  unfolding overview_blocks check_tip
  overview_data no_blocks_on_index now network supply = do
    block_count ← observe (λ c. c.height)
    refuse_if (block_count == 0) (error (codes "Canonical chain is empty"))
    tip_hash ← observe (λ c. c.block_id (block_count - 1))
    blocks ←
        overview_blocks (overview_range no_blocks_on_index block_count).returned_count
          (overview_range no_blocks_on_index block_count).begin
    check_tip block_count tip_hash
    pool ← glance (λ t. get_mempool_snapshot 25 (shared.status t))
    return (make_overview now network supply block_count tip_hash blocks pool)

  -- A new response and the cache: a failure on the way leaves the cache as it is.
  abbrev pub conclude :
      ℕ → Option OverviewCache → Answer OverviewData → Answer (Overview × Option OverviewCache)
  conclude now cache (success d t) =
      success (ready d, some (record { response = ready d; time = now })) t
  conclude now cache (refused thrown t) = refused thrown t
  conclude now cache (refused (fail e) t) = success (unavailable e, cache) t
  conclude now cache (refused (error e) t) = success (unavailable e, cache) t

  abbrev pub not_there : ℕ → Overview × Option OverviewCache
  not_there now =
      let e = unavailable (codes "Required overview snapshots are unavailable") in
      (e, some (record { response = e; time = now }))

  abbrev pub from_pages :
      ℕ
      → ℕ
      → Option OverviewCache
      → Option NetworkJson
      → Option EmissionJson
      → Query (Overview × Option OverviewCache)
  from_pages no_blocks_on_index now cache none supply = return (not_there now)
  from_pages no_blocks_on_index now cache (some network) none = return (not_there now)
  from_pages no_blocks_on_index now cache (some network) (some supply) =
      λ views t. conclude now cache (overview_data no_blocks_on_index now network supply views t)

  unfoldable pub new_overview :
      ℕ → ℕ → Option OverviewCache → Query (Overview × Option OverviewCache)
  unfolding json_networkinfo json_emission overview_data
  new_overview no_blocks_on_index now cache = do
    network ← attempt (json_networkinfo shared)
    supply ← attempt (json_emission shared)
    from_pages no_blocks_on_index now cache network supply

  abbrev pub is_fresh : ℕ → OverviewCache → Bool
  is_fresh now e = leb e.time now && ltb (now - e.time) 5

  abbrev pub or_fresh : ℕ → ℕ → Option OverviewCache → Query (Overview × Option OverviewCache)
  or_fresh no_blocks_on_index now none = new_overview no_blocks_on_index now none
  or_fresh no_blocks_on_index now (some e) =
      if is_fresh now e
      then return (e.response, some e)
      else new_overview no_blocks_on_index now (some e)

  unfoldable pub json_overview :
      ℕ → ℕ → Option OverviewCache → Query (Overview × Option OverviewCache)
  unfolding new_overview
  json_overview no_blocks_on_index now cache = or_fresh no_blocks_on_index now cache
