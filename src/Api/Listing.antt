-- ===== src/Api/Listing.antt =====
-- src/page.h: json_transactions and json_mempool, the pages of blocks and of pool transactions. What
-- the data of a failed answer holds beside its title is not in the model; heights are below 2^63,
-- where the loop's int64_t holds them.
pub mod Pages
pub mod Pool
use explorer_qwertycoin_org.Base.{
  ℕ, zero, suc, ◌+◌, ◌-◌, ◌/◌, min, false, ◌||◌, not, List, [], ◌∷◌, Option, none, some, Bytes,
  codes, same, is_empty, ltb, leb, ◌==◌, if◌then◌else◌, length, get_elem?, add64, sub64,
}
use explorer_qwertycoin_org.Pagination.{
  make_descending_block_range, parse_uint64_strict, parse_bounded_pagination,
}
use explorer_qwertycoin_org.Transaction.{Transaction}
use explorer_qwertycoin_org.Mempool.{MempoolTx}
use explorer_qwertycoin_org.Api.{
  Query, Refusal, fail, error, thrown, ◌>>=◌, ◌>>◌, return, refuse, observe, refuse_if, or_refuse,
  with_number, get_block_by_height, get_tx_details, get_tx_json, TxJson, get_age,
}

pub record BlockJson : Type 0 where
  pub height : ℕ
  pub block_hash : Bytes
  pub age : Bytes
  pub size : ℕ
  pub timestamp : ℕ
  pub txs : List TxJson

pub record TransactionsPage : Type 0 where
  pub blocks : List BlockJson
  pub page : ℕ
  pub limit : ℕ
  pub block_count : ℕ
  pub tip_height : ℕ
  pub tip_hash : Bytes
  pub returned_count : ℕ
  pub expanded_transaction_count : ℕ
  pub total_page_no : ℕ

abbrev pub bad_pagination : Refusal
bad_pagination = fail (codes "Pagination requires page >= 0 and limit between 1 and 100")

abbrev pub bad_snapshot : Refusal
bad_snapshot = fail (codes "Pagination snapshot is invalid or was reorganized; restart from page 0")

abbrev pub over_budget : Refusal
over_budget = fail (codes "Requested page exceeds the expanded transaction response budget")

abbrev pub chain_changed : Refusal
chain_changed = error (codes "Canonical chain changed while serializing this page")

abbrev pub maximum_expanded_transactions : ℕ
maximum_expanded_transactions = 5000

-- The id of the block below a height, or the empty text at height 0.
unfoldable pub tip_hash_at : ℕ → Query Bytes
tip_hash_at height = if ltb 0 height then observe (λ c. c.block_id (height - 1)) else return []

abbrev pub check_asked : Option ℕ → Bytes → ℕ → Query ℕ
check_asked none asked_tip live_height = refuse bad_snapshot
check_asked (some height) asked_tip live_height =
    if height == 0 || ltb live_height height then refuse bad_snapshot else (do
      id ← observe (λ c. c.block_id (height - 1))
      refuse_if (not (same id asked_tip)) bad_snapshot
      return height)

-- The height of the page: the live one, or that of the snapshot that is asked for.
unfoldable pub snapshot_height : Bytes → Bytes → ℕ → Query ℕ
snapshot_height asked_count asked_tip live_height =
    if not (is_empty asked_count) || not (is_empty asked_tip)
    then (if is_empty asked_count || not (length asked_tip == 64)
        then refuse bad_snapshot
        else check_asked (parse_uint64_strict asked_count) asked_tip live_height)
    else return live_height

unfoldable pub txs_json : ℕ → ℕ → List Transaction → Query (List TxJson)
txs_json i height [] = return []
txs_json i height (tx ∷ txs) = do
  txd ← get_tx_details tx false i height
  rest ← txs_json i height txs
  return (get_tx_json tx txd ∷ rest)

-- One block of the loop, with the budget that the blocks before have left.
unfoldable pub block_json : ℕ → ℕ → ℕ → ℕ → Query (BlockJson × ℕ)
unfolding txs_json
block_json now height i expanded = do
  found ← get_block_by_height i
  blk ← or_refuse found (error (with_number (codes "Cant get block: ") i))
  weight ← observe (λ c. c.block_weight i)
  blk_size ← or_refuse weight thrown
  blk_hash ← observe (λ c. c.block_id i)
  refuse_if (ltb (sub64 maximum_expanded_transactions expanded) (length blk.tx_hashes + 1))
      over_budget
  got ← observe (λ c. c.transactions blk.tx_hashes)
  refuse_if
      (not got.succeeded
        || not (is_empty got.missed)
        || not (length (blk.miner_tx ∷ got.txs) == length blk.tx_hashes + 1))
      (error (with_number (codes "Cant get transactions in block: ") i))
  txs ← txs_json i height (blk.miner_tx ∷ got.txs)
  return (
    record {
      height = i;
      block_hash = blk_hash;
      age = (get_age now blk.timestamp).0;
      size = blk_size;
      timestamp = blk.timestamp;
      txs = txs;
    },
    add64 expanded (length blk.tx_hashes + 1),
  )

-- The loop from the top block down: the blocks left, the first height, the count so far.
unfoldable pub blocks_json : ℕ → ℕ → ℕ → ℕ → ℕ → Query (List BlockJson × ℕ)
unfolding block_json
blocks_json zero now height start expanded = return ([], expanded)
blocks_json (suc n) now height start expanded = do
  (b, more) ← block_json now height (start + n) expanded
  (bs, total) ← blocks_json n now height start more
  return (b ∷ bs, total)

-- The anchor is looked at again behind the loop.
unfoldable pub check_anchor : ℕ → Bytes → Query (Unit {0})
check_anchor height tip_hash =
    if ltb 0 height
    then (do
      top ← observe (λ c. c.height)
      if ltb top height then refuse chain_changed else (do
        id ← observe (λ c. c.block_id (height - 1))
        refuse_if (not (same id tip_hash)) chain_changed))
    else return tt

unfoldable pub json_transactions : Bytes → Bytes → Bytes → Bytes → ℕ → Query TransactionsPage
unfolding snapshot_height tip_hash_at blocks_json check_anchor
json_transactions page limit asked_count asked_tip now = do
  pagination ← or_refuse (parse_bounded_pagination page limit 100) bad_pagination
  live_height ← observe (λ c. c.height)
  height ← snapshot_height asked_count asked_tip live_height
  tip_hash ← tip_hash_at height
  (blocks, expanded) ←
      blocks_json
        (make_descending_block_range height pagination.offset pagination.limit).returned_count now
        height (make_descending_block_range height pagination.offset pagination.limit).begin 0
  check_anchor height tip_hash
  return (record {
    blocks = blocks;
    page = pagination.page;
    limit = pagination.limit;
    block_count = height;
    tip_height = height - 1;
    tip_hash = tip_hash;
    returned_count = length blocks;
    expanded_transaction_count = expanded;
    total_page_no = (height - 1) / pagination.limit;
  })

pub record MempoolJson : Type 0 where
  pub tx : TxJson
  pub timestamp : ℕ

pub record MempoolPage : Type 0 where
  pub txs : List MempoolJson
  pub page : ℕ
  pub limit : ℕ
  pub txs_no : ℕ
  pub total_page_no : ℕ

-- The entries of a page in order; the bounds are checked by `at` once more.
unfoldable pub mempool_json : ℕ → ℕ → ℕ → List MempoolTx → Query (List MempoolJson)
mempool_json zero i height pool = return []
mempool_json (suc n) i height pool = do
  entry ←
      or_refuse (get_elem? pool i)
        (error (codes "Getting mempool txs failed due to std::out_of_range"))
  txd ← get_tx_details entry.tx false 1 height
  rest ← mempool_json n (suc i) height pool
  return (record { tx = get_tx_json entry.tx txd; timestamp = entry.receive_time } ∷ rest)

unfoldable pub json_mempool : Bytes → Bytes → Query MempoolPage
unfolding mempool_json
json_mempool page limit = do
  pagination ← or_refuse (parse_bounded_pagination page limit 100) bad_pagination
  height ← observe (λ c. c.height)
  pool ← observe (λ c. c.mempool)
  let txs_no = length pool
  let end_offset =
      if leb txs_no pagination.offset
      then txs_no
      else min txs_no (add64 pagination.offset pagination.limit)
  let first = min pagination.offset txs_no
  txs ← mempool_json (end_offset - first) first height pool
  return (record {
    txs = txs;
    page = pagination.page;
    limit = pagination.limit;
    txs_no = txs_no;
    total_page_no = if ltb 0 txs_no then (txs_no - 1) / pagination.limit else 0;
  })
