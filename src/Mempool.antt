-- ===== src/Mempool.antt =====
-- src/MempoolStatus.h and src/MempoolStatus.cpp: the copy of the transaction pool and of the network
-- info that the status thread keeps for the pages. The texts that are made of floating-point numbers
-- or of times are not in the model.
pub mod Network
pub mod Loop
pub mod Refresh
pub mod Thread
use explorer_qwertycoin_org.Base.{
  ℕ, ◌+◌, ◌-◌, ◌/◌, min, Bool, true, false, not, List, [], ◌∷◌, ◌++◌, Option, none, some, Bytes,
  same, ◌==◌, if◌then◌else◌, length, take, add64,
}
use explorer_qwertycoin_org.Rpc.{TxInfo, sort_txs, core_rpc_status_ok, core_rpc_status_busy}
use explorer_qwertycoin_org.Transaction.{
  Transaction, summary_of_in_out_rct, transaction_amounts_confidential,
}

pub record MempoolTx : Type 0 where
  pub tx_hash : Bytes
  pub tx : Transaction
  pub receive_time : ℕ
  pub sum_inputs : ℕ
  pub sum_outputs : ℕ
  pub no_inputs : ℕ
  pub no_outputs : ℕ
  pub num_nonrct_inputs : ℕ
  pub confidential_amounts : Bool
  pub mixin_no : ℕ

pub data NetType : Type 0 where
  mainnet : NetType
  testnet : NetType
  stagenet : NetType

pub record NetworkInfo : Type 0 where
  pub status : ℕ
  pub height : ℕ
  pub target_height : ℕ
  pub difficulty : ℕ
  pub difficulty_top64 : ℕ
  pub target : ℕ
  pub hash_rate : ℕ
  pub hash_rate_top64 : ℕ
  pub tx_count : ℕ
  pub tx_pool_size : ℕ
  pub alt_blocks_count : ℕ
  pub outgoing_connections_count : ℕ
  pub incoming_connections_count : ℕ
  pub white_peerlist_size : ℕ
  pub grey_peerlist_size : ℕ
  pub top_block_hash : Bytes
  pub nettype : NetType
  pub cumulative_difficulty : ℕ
  pub cumulative_difficulty_top64 : ℕ
  pub block_size_limit : ℕ
  pub block_size_median : ℕ
  pub block_weight_limit : ℕ
  pub start_time : ℕ
  pub fee_per_kb : ℕ
  pub info_timestamp : ℕ
  pub current_hf_version : ℕ
  pub current : Bool

-- The static members that the thread writes and the pages read.
pub record MempoolStatus : Type 0 where
  pub mempool_txs : List MempoolTx
  pub mempool_no : ℕ
  pub mempool_size : ℕ
  pub mempool_info_timestamp : ℕ
  pub current_network_info : NetworkInfo

unfoldable pub get_status_uint : Bytes → ℕ
get_status_uint status =
    if same status core_rpc_status_ok then 1 else if same status core_rpc_status_busy then 2 else 0

-- The entry that is made of a pool transaction, its parsed transaction and hash.
unfoldable pub make_entry : TxInfo → Transaction × Bytes → MempoolTx
make_entry info (tx, tx_hash) =
    let sums = summary_of_in_out_rct tx in
    record {
      tx_hash = tx_hash;
      tx = tx;
      receive_time = info.receive_time;
      sum_inputs = sums.xmr_inputs;
      sum_outputs = sums.xmr_outputs;
      no_inputs = length sums.input_key_imgs;
      no_outputs = length sums.output_pub_keys;
      num_nonrct_inputs = sums.num_nonrct_inputs;
      confidential_amounts = transaction_amounts_confidential tx;
      mixin_no = sums.mixin_no;
    }

-- The loop over the sorted pool: the entries so far and their size in bytes, or nothing where a blob
-- does not parse. `parse` is parse_and_validate_tx_from_blob with the hash that it finds.
unfoldable pub read_entries :
    (Bytes → Option (Transaction × Bytes))
    → List TxInfo
    → List MempoolTx
    → ℕ
    → Option (List MempoolTx × ℕ)
read_entries parse [] copy size = some (copy, size)
read_entries parse (info ∷ rest) copy size = elim (parse info.tx_blob) [
  | none ↦ none
  | some parsed ↦
      read_entries parse rest (copy ++ make_entry info parsed ∷ []) (add64 size info.blob_size)
]

-- What is published under the mutex.
abbrev pub publish : ℕ → Option (List MempoolTx × ℕ) → MempoolStatus → Bool × MempoolStatus
publish now none s = (false, s)
publish now (some (copy, size)) s = (
  true,
  record s {
    mempool_txs = copy;
    mempool_no = length copy;
    mempool_size = size;
    mempool_info_timestamp = now;
  },
)

-- `pool` is what the node's get_transactions_and_spent_keys_info gives, nothing where it fails.
unfoldable pub read_mempool :
    (Bytes → Option (Transaction × Bytes))
    → Option (List TxInfo)
    → ℕ
    → MempoolStatus
    → Bool × MempoolStatus
read_mempool parse none now s = (false, s)
read_mempool parse (some pool) now s = publish now (read_entries parse (sort_txs pool) [] 0) s

-- get_mempool_txs of a number of transactions, and the snapshot. The pointer to the vector is never
-- null: it is made at start-up and replaced by another vector only.
unfoldable pub get_mempool_txs : ℕ → MempoolStatus → List MempoolTx
get_mempool_txs no_of_tx s = take (min no_of_tx (length s.mempool_txs)) s.mempool_txs

pub record MempoolSnapshot : Type 0 where
  pub transactions : List MempoolTx
  pub total_count : ℕ
  pub size_bytes : ℕ
  pub observed_at : ℕ

unfoldable pub get_mempool_snapshot : ℕ → MempoolStatus → MempoolSnapshot
get_mempool_snapshot no_of_tx s =
    let n = min no_of_tx (length s.mempool_txs) in
    record {
      transactions = if n == length s.mempool_txs then s.mempool_txs else take n s.mempool_txs;
      total_count = s.mempool_no;
      size_bytes = s.mempool_size;
      observed_at = s.mempool_info_timestamp;
    }
