-- ===== src/Mempool/Network.antt =====
-- src/MempoolStatus.cpp: read_network_info over what the calls of the daemon hand back.
use explorer_qwertycoin_org.Mempool.{
  mainnet, stagenet, testnet, MempoolStatus, NetType, NetworkInfo, get_status_uint,
}
use explorer_qwertycoin_org.Base.{
  ℕ, ◌+◌, ◌*◌, ◌/◌, ◌%◌, ◌^◌, Bool, true, false, not, Option, none, some, Bytes, ◌==◌,
  if◌then◌else◌,
}

-- COMMAND_RPC_GET_INFO::response; `wide_difficulty` is the number that its text stands for, and
-- `top_block_hash` the hash that hex_to_pod leaves, in hex. The grey peers are not copied from it.
pub record Info : Type 0 where
  pub status : Bytes
  pub height : ℕ
  pub target_height : ℕ
  pub difficulty : ℕ
  pub difficulty_top64 : ℕ
  pub wide_difficulty : ℕ
  pub target : ℕ
  pub tx_count : ℕ
  pub tx_pool_size : ℕ
  pub alt_blocks_count : ℕ
  pub outgoing_connections_count : ℕ
  pub incoming_connections_count : ℕ
  pub white_peerlist_size : ℕ
  pub top_block_hash : Bytes
  pub testnet : Bool
  pub stagenet : Bool
  pub cumulative_difficulty : ℕ
  pub cumulative_difficulty_top64 : ℕ
  pub block_size_limit : ℕ
  pub block_size_median : ℕ
  pub block_weight_limit : ℕ
  pub start_time : ℕ

abbrev pub net_type : Bool → Bool → NetType
net_type testnet? stagenet? = if testnet? then testnet else if stagenet? then stagenet else mainnet

abbrev pub make_network_info : Info → ℕ → ℕ → ℕ → NetworkInfo
make_network_info info fee version now =
    let hash_rate = info.wide_difficulty / info.target in
    record {
      status = get_status_uint info.status;
      height = info.height;
      target_height = info.target_height;
      difficulty = info.difficulty;
      difficulty_top64 = info.difficulty_top64;
      target = info.target;
      hash_rate = hash_rate % 2 ^ 64;
      hash_rate_top64 = hash_rate / 2 ^ 64 % 2 ^ 64;
      tx_count = info.tx_count;
      tx_pool_size = info.tx_pool_size;
      alt_blocks_count = info.alt_blocks_count;
      outgoing_connections_count = info.outgoing_connections_count;
      incoming_connections_count = info.incoming_connections_count;
      white_peerlist_size = info.white_peerlist_size;
      grey_peerlist_size = 0;
      top_block_hash = info.top_block_hash;
      nettype = net_type info.testnet info.stagenet;
      cumulative_difficulty = info.cumulative_difficulty;
      cumulative_difficulty_top64 = info.cumulative_difficulty_top64;
      block_size_limit = info.block_size_limit;
      block_size_median = info.block_size_median;
      block_weight_limit = info.block_weight_limit;
      start_time = info.start_time;
      fee_per_kb = fee;
      info_timestamp = now;
      current_hf_version = version;
      current = true;
    }

-- What the three calls of the daemon hand back: the info, the fee estimate and the hard fork's
-- version.
pub record Answers : Type 0 where
  pub info : Option Info
  pub fee_estimated : Option ℕ
  pub hardfork_version : Option ℕ

-- The new network info, or nothing where read_network_info returns false.
unfoldable pub fetch_network_info : Bool → Answers → ℕ → Option NetworkInfo
fetch_network_info has_client a now = if not has_client then none else elim a.info [
  | none ↦ none
  | some info ↦ elim a.fee_estimated [
    | none ↦ none
    | some fee ↦ elim a.hardfork_version [
      | none ↦ none
      | some version ↦
          if info.target == 0 then none else some (make_network_info info fee version now)
    ]
  ]
]

abbrev pub put_network_info : Option NetworkInfo → MempoolStatus → Bool × MempoolStatus
put_network_info none s = (false, s)
put_network_info (some info) s = (true, record s { current_network_info = info })

unfoldable pub read_network_info : Bool → Answers → ℕ → MempoolStatus → Bool × MempoolStatus
read_network_info has_client a now s = put_network_info (fetch_network_info has_client a now) s

unfoldable pub make_difficulty : ℕ → ℕ → ℕ
make_difficulty low high = high * 2 ^ 64 + low
