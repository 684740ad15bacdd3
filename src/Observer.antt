-- ===== src/Observer.antt =====
-- src/page.h: the JSON pages about the observer itself, json_networkinfo, json_emission,
-- json_feeestimate and json_version. They read what other threads write, so it is given for each
-- moment: a call looks at the moment that the views of Api have come to.
pub mod Overview
pub mod Identity
use explorer_qwertycoin_org.Base.{
  ℕ, ◌-◌, ◌++◌, Bool, true, false, not, List, Option, none, some, Bytes, codes, is_empty, ltb,
  if◌then◌else◌, suc,
}
use explorer_qwertycoin_org.Decimal.{to_text}
use explorer_qwertycoin_org.Amount.{decimal_ratio, format_hashrate_si, format_atomic_decimal_string}
use explorer_qwertycoin_org.Rpc.{Attempt, Reply, get_dynamic_per_kb_fee_estimate}
use explorer_qwertycoin_org.Transaction.{Transaction}
use explorer_qwertycoin_org.Mempool.{
  NetType, testnet, stagenet, NetworkInfo, MempoolStatus, MempoolSnapshot, get_mempool_snapshot,
}
use explorer_qwertycoin_org.Mempool.Network.{make_difficulty}
use explorer_qwertycoin_org.Supply.Index.{SupplySnapshot}
use explorer_qwertycoin_org.Api.{
  ChainBlock, FoundTxs, success, Query, fail, error, ◌>>=◌, ◌>>◌, return, observe, refuse_if,
  or_refuse, get_block_by_height,
}

-- What the pages read besides the views of the node, by the moment of the call: the mempool status,
-- the snapshot of the supply index where there is one, the text of a block's difficulty (nothing
-- where the database throws) and the pruned transactions; and the library's sum of the outputs of a
-- miner transaction, number of atomic units in a coin and print of a wide integer.
pub record Shared : Type 0 where
  pub status : ℕ → MempoolStatus
  pub supply : ℕ → Option SupplySnapshot
  pub difficulty : ℕ → ℕ → Option Bytes
  pub pruned_transactions : ℕ → List Bytes → FoundTxs
  pub outs_money_amount : Transaction → ℕ
  pub coin : ℕ
  pub wide_text : ℕ → Bytes

-- One reading of what is shared.
abbrev pub glance : {A : Type 0} → (ℕ → A) → Query A
glance f views t = success (f t) (suc t)

-- json_networkinfo, with `none` for null.
pub record NetworkJson : Type 0 where
  pub current : Bool
  pub height : ℕ
  pub target_height : ℕ
  pub difficulty : Bytes
  pub target : ℕ
  pub estimated_hashrate_hps : Bytes
  pub estimated_hashrate_display : Bytes
  pub tx_count : ℕ
  pub tx_pool_size : ℕ
  pub alt_blocks_count : ℕ
  pub outgoing_connections_count : ℕ
  pub incoming_connections_count : ℕ
  pub white_peerlist_size : ℕ
  pub grey_peerlist_size : ℕ
  pub testnet : Bool
  pub stagenet : Bool
  pub top_block_hash : Bytes
  pub cumulative_difficulty : Bytes
  pub block_size_limit : ℕ
  pub block_size_median : ℕ
  pub start_time : ℕ
  pub current_hf_version : ℕ
  pub observed_at_unix : ℕ
  pub fee_per_kb_atomic : Option Bytes
  pub fee_estimate_current : Bool
  pub observer_mempool_count : ℕ
  pub observer_mempool_size_bytes : ℕ
  pub observer_mempool_observed_at_unix : ℕ
  pub observer_block_count : ℕ
  pub observer_tip_height : Option ℕ
  pub last_block_timestamp : Option ℕ

abbrev pub is_testnet : NetType → Bool
is_testnet testnet = true
is_testnet n = false

abbrev pub is_stagenet : NetType → Bool
is_stagenet stagenet = true
is_stagenet n = false

abbrev pub positive_time : Option ChainBlock → Option ℕ
positive_time none = none
positive_time (some blk) = if ltb 0 blk.timestamp then some blk.timestamp else none

-- The time of the last block, where there is one and it has a time.
unfoldable pub last_block_time : ℕ → Query (Option ℕ)
last_block_time block_count =
    if ltb 0 block_count
    then (do found ← get_block_by_height (block_count - 1); return (positive_time found))
    else return none

abbrev pub make_network_json :
    (ℕ → Bytes) → NetworkInfo → ℕ → MempoolSnapshot → ℕ → Option ℕ → NetworkJson
make_network_json wide_text info fee pool block_count last_time =
    let difficulty = make_difficulty info.difficulty info.difficulty_top64 in
    record {
      current = info.current;
      height = info.height;
      target_height = info.target_height;
      difficulty = wide_text difficulty;
      target = info.target;
      estimated_hashrate_hps = decimal_ratio wide_text difficulty info.target 8;
      estimated_hashrate_display = format_hashrate_si wide_text difficulty info.target;
      tx_count = info.tx_count;
      tx_pool_size = info.tx_pool_size;
      alt_blocks_count = info.alt_blocks_count;
      outgoing_connections_count = info.outgoing_connections_count;
      incoming_connections_count = info.incoming_connections_count;
      white_peerlist_size = info.white_peerlist_size;
      grey_peerlist_size = info.grey_peerlist_size;
      testnet = is_testnet info.nettype;
      stagenet = is_stagenet info.nettype;
      top_block_hash = info.top_block_hash;
      cumulative_difficulty =
          wide_text (make_difficulty info.cumulative_difficulty info.cumulative_difficulty_top64);
      block_size_limit = info.block_size_limit;
      block_size_median = info.block_size_median;
      start_time = info.start_time;
      current_hf_version = info.current_hf_version;
      observed_at_unix = info.info_timestamp;
      fee_per_kb_atomic = if ltb 0 fee then some (to_text fee) else none;
      fee_estimate_current = ltb 0 fee;
      observer_mempool_count = pool.total_count;
      observer_mempool_size_bytes = pool.size_bytes;
      observer_mempool_observed_at_unix = pool.observed_at;
      observer_block_count = block_count;
      observer_tip_height = if ltb 0 block_count then some (block_count - 1) else none;
      last_block_timestamp = last_time;
    }

-- json_emission: the snapshot and its minted supply in coins.
pub record EmissionJson : Type 0 where
  pub supply : SupplySnapshot
  pub minted_supply_qwc : Bytes

module _ (shared : Shared) where
  -- The info is loaded twice, and may change between.
  unfoldable pub json_networkinfo : Query NetworkJson
  unfolding last_block_time
  json_networkinfo = do
    info ← glance (λ t. (shared.status t).current_network_info)
    refuse_if (not info.current) (error (codes "Cant get monero network info"))
    latest ← glance (λ t. (shared.status t).current_network_info)
    pool ← glance (λ t. get_mempool_snapshot 0 (shared.status t))
    block_count ← observe (λ c. c.height)
    last_time ← last_block_time block_count
    return (make_network_json shared.wide_text info latest.fee_per_kb pool block_count last_time)

  unfoldable pub json_emission : Query EmissionJson
  json_emission = do
    index ← glance shared.supply
    current ← or_refuse index (error (codes "Supply index is unavailable"))
    return (record {
      supply = current;
      minted_supply_qwc = format_atomic_decimal_string current.minted_supply_atomic 8;
    })

-- What the build records.
pub record Build : Type 0 where
  pub git_commit_hash : Bytes
  pub git_commit_datetime : Bytes
  pub git_branch_name : Bytes
  pub monero_version_full : Bytes
  pub qwc_source_sha : Bytes

pub record VersionJson : Type 0 where
  pub build : Build
  pub api_contract : Bytes
  pub blockchain_height : ℕ

unfoldable pub json_version : Build → Query VersionJson
json_version build = do
  height ← observe (λ c. c.height)
  return (record { build = build; api_contract = codes "v1"; blockchain_height = height })

pub record FeeEstimate : Type 0 where
  pub fee : ℕ
  pub grace_blocks : ℕ

-- The number of blocks that the text asks for; an empty text leaves the default.
unfoldable pub grace_of : (Bytes → Option ℕ) → ℕ → Bytes → Option ℕ
grace_of lexical_cast default text = if is_empty text then some default else lexical_cast text

-- `lexical_cast` is boost's to uint64_t; `env` is what each attempt of the call for so many grace
-- blocks meets. get_dynamic_per_kb_fee_estimate never writes its error message, so the page has one.
unfoldable pub json_feeestimate :
    (Bytes → Option ℕ)
    → ℕ
    → Reply ℕ
    → (ℕ → ℕ → Attempt (Reply ℕ))
    → Bool
    → Bytes
    → Query FeeEstimate
unfolding grace_of
json_feeestimate lexical_cast default empty env connected text = do
  grace_blocks ←
      or_refuse (grace_of lexical_cast default text)
        (fail (codes "Cant parse grace_blocks number: " ++ text))
  fee ←
      or_refuse (get_dynamic_per_kb_fee_estimate empty (env grace_blocks) connected).answer
        (error (codes "Cant get dynamic fee estimate"))
  return (record { fee = fee; grace_blocks = grace_blocks })
