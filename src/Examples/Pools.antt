-- ===== src/Examples/Pools.antt =====
-- The status thread at a pool of two transactions and at the daemon's answers.
use explorer_qwertycoin_org.Rpc.{sort_txs, TxInfo}
use explorer_qwertycoin_org.Base.{
  List, ◌%◌, true, false, [], ◌∷◌, Option, none, some, Bytes, codes, ◌≡◌, ◌≢◌, ◌⊎◌, refl, arith,
}
use explorer_qwertycoin_org.Transaction.{Transaction}
use explorer_qwertycoin_org.Mempool.{MempoolStatus, NetworkInfo, mainnet, read_mempool}
use explorer_qwertycoin_org.Mempool.Loop.{
  StatusThread, Round, status_round, status_rounds, loop_index_divider,
}
use explorer_qwertycoin_org.Mempool.Network.{Info, Answers, fetch_network_info}
use explorer_qwertycoin_org.Mempool.Refresh.{Published, HasUnparsed, read_mempool_lem}
use explorer_qwertycoin_org.Mempool.Thread.{Attempted, status_rounds-network}

abbrev paid_tx : Transaction
paid_tx = record {
  vin = [];
  vout = [];
  fee = 1;
  is_coinbase = false;
  rct_type_null = false;
  begins_with_gen = false;
  pruned = false;
  full_hash = codes "p1";
  pruned_hash = none;
  public_key = codes "k1";
  additional_pks = [];
  blob_size = 700;
  version = 2;
  unlock_time = 0;
  extra = [];
}

abbrev parse_any : Bytes → Option (Transaction × Bytes)
parse_any blob = some (paid_tx, blob)

abbrev first_info : TxInfo
first_info = record { receive_time = 3; id_hash = codes "e"; blob_size = 700; tx_blob = codes "e" }

abbrev second_info : TxInfo
second_info = record { receive_time = 8; id_hash = codes "l"; blob_size = 900; tx_blob = codes "l" }

abbrev pub no_info : NetworkInfo
no_info = record {
  status = 0;
  height = 0;
  target_height = 0;
  difficulty = 0;
  difficulty_top64 = 0;
  target = 0;
  hash_rate = 0;
  hash_rate_top64 = 0;
  tx_count = 0;
  tx_pool_size = 0;
  alt_blocks_count = 0;
  outgoing_connections_count = 0;
  incoming_connections_count = 0;
  white_peerlist_size = 0;
  grey_peerlist_size = 0;
  top_block_hash = [];
  nettype = mainnet;
  cumulative_difficulty = 0;
  cumulative_difficulty_top64 = 0;
  block_size_limit = 0;
  block_size_median = 0;
  block_weight_limit = 0;
  start_time = 0;
  fee_per_kb = 0;
  info_timestamp = 0;
  current_hf_version = 0;
  current = false;
}

abbrev pub empty_status : MempoolStatus
empty_status = record {
  mempool_txs = [];
  mempool_no = 0;
  mempool_size = 0;
  mempool_info_timestamp = 0;
  current_network_info = no_info;
}

abbrev pub daemon_info : Info
daemon_info = record {
  status = codes "OK";
  height = 10;
  target_height = 10;
  difficulty = 1200;
  difficulty_top64 = 0;
  wide_difficulty = 1200;
  target = 120;
  tx_count = 20;
  tx_pool_size = 2;
  alt_blocks_count = 0;
  outgoing_connections_count = 8;
  incoming_connections_count = 1;
  white_peerlist_size = 40;
  top_block_hash = codes "b9";
  testnet = false;
  stagenet = false;
  cumulative_difficulty = 9000;
  cumulative_difficulty_top64 = 0;
  block_size_limit = 600000;
  block_size_median = 300000;
  block_weight_limit = 600000;
  start_time = 5;
}

abbrev daemon_answers : Answers
daemon_answers = record {
  info = some daemon_info;
  fee_estimated = some 4;
  hardfork_version = some 16;
}

read_mempool_lem_example :
    let s = read_mempool parse_any (some (first_info ∷ second_info ∷ [])) 100 empty_status in
    let given : Option (List TxInfo) = some (first_info ∷ second_info ∷ []) in
    ((s ≡ (false, empty_status))
      × ((pool : List TxInfo) → given ≡ some pool → HasUnparsed parse_any (sort_txs pool)))
    ⊎ ((pool : List TxInfo) × (given ≡ some pool)
        × (s.0 ≡ true)
        × Published parse_any pool 100 empty_status s.1)
read_mempool_lem_example =
    read_mempool_lem parse_any (some (first_info ∷ second_info ∷ [])) 100 empty_status

abbrev started : StatusThread
started = record { loop_index = 0; status = empty_status }

abbrev test_round : Round
test_round = record {
  answers = daemon_answers;
  pool = some (first_info ∷ second_info ∷ []);
  now = 100;
}

status_rounds-network_example :
    let u = status_rounds parse_any 10 (test_round ∷ []) started in
    let now = (status_round parse_any 10 test_round u).status.current_network_info in
    (1 % loop_index_divider 10 ≡ 0
      → Attempted (fetch_network_info true daemon_answers 100) u.status.current_network_info now)
    × (1 % loop_index_divider 10 ≢ 0 → now ≡ u.status.current_network_info)
status_rounds-network_example =
    status_rounds-network parse_any 10 (test_round ∷ []) test_round started refl (omega arith)
