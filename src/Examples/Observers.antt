-- ===== src/Examples/Observers.antt =====
-- The pages about the observer, over a chain of five blocks that does not change.
use explorer_qwertycoin_org.Base.{
  length, ℕ, true, false, [], ◌∷◌, Option, none, some, codes, same, ◌≡◌, refl, replicate,
}
use explorer_qwertycoin_org.Rpc.{
  finish, if_no_error, error_text, invoke_with_reconnect, attempt_loop, attempt_once,
  connect_to_monero_daemon, disconnect, begin, get_network_info, Attempt, Reply,
}
use explorer_qwertycoin_org.Observer.Identity.Ready.{Verdict, readyz-Verdict, readyz-covers}
use explorer_qwertycoin_org.Supply.Ledger.{IsLedger}
use explorer_qwertycoin_org.Supply.Index.Updates.{shown_minted, shown_coinbase, shown_fees}
use explorer_qwertycoin_org.Mempool.{get_mempool_snapshot, MempoolStatus}
use explorer_qwertycoin_org.Mempool.Network.{Info}
use explorer_qwertycoin_org.Observer.{
  make_network_json, Shared, json_networkinfo, json_emission, last_block_time,
}
use explorer_qwertycoin_org.Address.{all_of}
use explorer_qwertycoin_org.Decimal.{to_text}
use explorer_qwertycoin_org.Amount.{format_atomic_decimal_string}
use explorer_qwertycoin_org.Endpoint.{
  valid_epose_chain_anchor, same_epose_chain_anchor, epose_reward_matches_anchor,
  valid_epose_advertised_endpoint,
}
use explorer_qwertycoin_org.Pagination.{make_descending_block_range}
use explorer_qwertycoin_org.Supply.Index.{SupplyIndex}
use explorer_qwertycoin_org.Supply.Index.Rounds.{IsSound}
use explorer_qwertycoin_org.Api.{Node, Answer, success, get_block_by_height}
use explorer_qwertycoin_org.Snapshot.{
  Caches, json_epose_snapshot, attempt_snapshots, attempt_snapshot, capture_epose_chain_anchor,
  check_core, resolve_nodes, source_qualification_valid, distinct_keys, holds_key,
}
use explorer_qwertycoin_org.Snapshot.Views.{telemetry_json, endpoint_of, lookup}
use explorer_qwertycoin_org.Snapshot.Nodes.{gather_nodes, gather_from, run_jobs}
use explorer_qwertycoin_org.Observer.Overview.{
  Overview, unavailable, OverviewCache, json_overview, new_overview, overview_data, overview_blocks,
  overview_block, check_tip, sum_overview_fees,
}
use explorer_qwertycoin_org.Observer.Overview.Cached.{Shown, json_overview-Shown}
use explorer_qwertycoin_org.Observer.Identity.{
  Profile, Identified, unidentified, Readiness, unverified, verified, ReadyData, json_identity,
  json_epose_info, json_epose_snapshot_section, readyz, make_identity,
}
use explorer_qwertycoin_org.Observer.Identity.Compatible.{IsIdentified, json_identity-IsIdentified}
use explorer_qwertycoin_org.Examples.Supplies.{
  decimal_wide, first_record, first-IsLedger, test_identity, test_files,
}
use explorer_qwertycoin_org.Examples.Pools.{no_info, empty_status, daemon_info}
use explorer_qwertycoin_org.Examples.Pages.{mined_tx}
use explorer_qwertycoin_org.Examples.Snapshots.{
  still, tip, test_calls, no_caches, any_key, value_or, end_of,
}

abbrev pub observed : Node
observed = record still {
  db_block = λ height. some (record { timestamp = 50; miner_tx = mined_tx; tx_hashes = [] });
  block_weight = λ height. some 90;
}

abbrev pub observed_views : ℕ → Node
observed_views n = observed

abbrev seen_status : MempoolStatus
seen_status = record empty_status {
  current_network_info = record no_info {
    height = 5;
    top_block_hash = tip;
    target = 120;
    current_hf_version = 17;
    current = true;
  };
}

-- The state of an index that has the one block of its chain.
abbrev one_block_index : SupplyIndex
one_block_index = record {
  data_path = codes "data";
  identity = test_identity;
  batch_size = 100;
  records = first_record ∷ [];
  snapshot = record {
    availability = codes "complete";
    message = [];
    genesis_hash = codes "aa";
    chain_reset_id = [];
    version = [];
    block_count = 1;
    tip_height = 0;
    tip_hash = codes "aa";
    indexed_block_count = 1;
    indexed_through_height = 0;
    indexed_through_hash = codes "aa";
    minted_supply_atomic = to_text 50;
    gross_coinbase_atomic = to_text 50;
    cumulative_fees_atomic = to_text 0;
    observed_at = 7;
    complete = true;
  };
  files = test_files;
  stop_requested = false;
  running = true;
}

one_block_index-IsSound : IsSound decimal_wide one_block_index
one_block_index-IsSound = record {
  ledger = first-IsLedger;
  reflects = record {
    counted = refl;
    minted = refl;
    coinbase = refl;
    fees = refl;
    covers = λ e. refl;
  };
}

abbrev pub shared_state : Shared
shared_state = record {
  status = λ t. seen_status;
  supply = λ t. some one_block_index.snapshot;
  difficulty = λ t height. some (codes "1200");
  pruned_transactions = λ t hashes. record { succeeded = true; txs = []; missed = [] };
  outs_money_amount = λ tx. 50;
  coin = 100000000;
  wide_text = to_text;
}

abbrev first_overview : Answer (Overview × Option OverviewCache)
first_overview = json_overview shared_state 2 90 none observed_views 0

abbrev no_overview : Overview × Option OverviewCache
no_overview = (unavailable [], none)

first_overview_read :
    first_overview ≡ success (value_or no_overview first_overview) (end_of first_overview)
unfolding json_overview json_networkinfo last_block_time get_block_by_height json_emission
    new_overview overview_data overview_blocks overview_block sum_overview_fees check_tip same
    make_descending_block_range
first_overview_read = refl

json_overview-Shown_example :
    Shown shared_state observed_views 2 90 none
      ((value_or no_overview first_overview).0, (value_or no_overview first_overview).1)
      (end_of first_overview)
json_overview-Shown_example =
    json_overview-Shown shared_state 2 90 none (value_or no_overview first_overview).1
      observed_views 0 (end_of first_overview) (value_or no_overview first_overview).0 tt
      first_overview_read

abbrev this_profile : Profile
this_profile = record {
  final_genesis_hash = tip;
  final_parameter_set_hash = codes "f";
  build = record {
    git_commit_hash = codes "c";
    git_commit_datetime = [];
    git_branch_name = [];
    monero_version_full = [];
    qwc_source_sha = replicate 40 b'a';
  };
}

abbrev no_identity : Identified × Caches
no_identity = (unidentified [], no_caches)

abbrev observer_identity : Answer (Identified × Caches)
observer_identity =
    json_identity any_key 90 test_calls this_profile shared_state no_caches observed_views 0

identity_read :
    observer_identity ≡ success (value_or no_identity observer_identity) (end_of observer_identity)
unfolding json_identity json_networkinfo last_block_time get_block_by_height json_epose_info
    json_epose_snapshot_section json_epose_snapshot attempt_snapshots attempt_snapshot
    capture_epose_chain_anchor check_core resolve_nodes source_qualification_valid distinct_keys
    holds_key gather_nodes gather_from run_jobs telemetry_json endpoint_of lookup same
    valid_epose_chain_anchor same_epose_chain_anchor epose_reward_matches_anchor
    valid_epose_advertised_endpoint all_of
identity_read = refl

json_identity-IsIdentified_example :
    IsIdentified any_key 90 test_calls this_profile shared_state observed_views 5
      seen_status.current_network_info
      ((value_or no_identity observer_identity).0, (value_or no_identity observer_identity).1)
      (end_of observer_identity)
json_identity-IsIdentified_example =
    json_identity-IsIdentified any_key 90 test_calls this_profile shared_state no_caches
      (value_or no_identity observer_identity).1 observed_views 0 (end_of observer_identity)
      (value_or no_identity observer_identity).0 tt identity_read

abbrev empty_reply : Reply Info
empty_reply = record { status = []; result = daemon_info }

abbrev probed : ℕ → Attempt (Reply Info)
probed n = record {
  opens = true;
  invocation = λ r. record {
    success = true;
    connected = true;
    res = record { status = codes "OK"; result = daemon_info };
  };
}

abbrev readiness : Answer (Readiness × Caches)
readiness =
    readyz any_key 90 test_calls this_profile shared_state empty_reply probed false no_caches
      observed_views 0

abbrev no_verdict : Readiness × Caches
no_verdict = (unverified [], no_caches)

abbrev ready_data : ReadyData
ready_data = record {
  wallet_rpc_height = 10;
  wallet_rpc_target_height = 10;
  identity =
      make_identity this_profile 5
        (make_network_json to_text seen_status.current_network_info 0
          (get_mempool_snapshot 0 seen_status) 5 (some 50))
        (record {
          enabled = true;
          protocol_version = 2;
          current_epoch = 2;
          service_node_count = 1;
          qualified_count = 1;
        })
        tip tip;
  supply = record {
    supply = one_block_index.snapshot;
    minted_supply_qwc = format_atomic_decimal_string (to_text 50) 8;
  };
}

readiness_read :
    readiness ≡ success (verified ready_data, (value_or no_verdict readiness).1) (end_of readiness)
unfolding readyz get_network_info finish if_no_error error_text invoke_with_reconnect attempt_loop
    attempt_once connect_to_monero_daemon disconnect begin json_identity json_networkinfo
    last_block_time get_block_by_height json_epose_info json_epose_snapshot_section
    json_epose_snapshot attempt_snapshots attempt_snapshot capture_epose_chain_anchor check_core
    resolve_nodes source_qualification_valid distinct_keys holds_key gather_nodes gather_from
    run_jobs telemetry_json endpoint_of lookup same valid_epose_chain_anchor same_epose_chain_anchor
    epose_reward_matches_anchor valid_epose_advertised_endpoint all_of json_emission
readiness_read = refl

readyz-Verdict_example :
    Verdict any_key 90 test_calls this_profile shared_state no_caches observed_views 0
      (get_network_info empty_reply probed false).answer
      (verified ready_data, (value_or no_verdict readiness).1)
      (end_of readiness)
readyz-Verdict_example =
    readyz-Verdict any_key 90 test_calls this_profile shared_state empty_reply probed false
      no_caches (value_or no_verdict readiness).1 observed_views 0 (end_of readiness)
      (verified ready_data) tt readiness_read

readyz-covers_example :
    (m : ℕ) × IsLedger one_block_index.records
    × (ready_data.supply.supply.block_count ≡ length one_block_index.records)
    × (ready_data.supply.supply.minted_supply_atomic
        ≡ shown_minted decimal_wide one_block_index.records)
    × (ready_data.supply.supply.gross_coinbase_atomic
        ≡ shown_coinbase decimal_wide one_block_index.records)
    × (ready_data.supply.supply.cumulative_fees_atomic
        ≡ shown_fees decimal_wide one_block_index.records)
readyz-covers_example =
    readyz-covers any_key 90 test_calls this_profile shared_state decimal_wide
      (λ m. one_block_index) empty_reply probed false no_caches (value_or no_verdict readiness).1
      observed_views 0 (end_of readiness) ready_data (λ m. one_block_index-IsSound) (λ m. refl) tt
      readiness_read
