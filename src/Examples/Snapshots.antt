-- ===== src/Examples/Snapshots.antt =====
-- An EPoSe snapshot of one service node over a chain that does not change.
use explorer_qwertycoin_org.Base.{
  ℕ, Bool, true, false, [], ◌∷◌, Option, none, some, Bytes, codes, same, ◌≡◌, refl, replicate,
}
use explorer_qwertycoin_org.Telemetry.{RemoteTelemetry, unreachable}
use explorer_qwertycoin_org.Endpoint.{
  ChainAnchor, valid_epose_chain_anchor, same_epose_chain_anchor, epose_reward_matches_anchor,
  valid_epose_advertised_endpoint,
}
use explorer_qwertycoin_org.Api.{tx_dne, Node, Answer, success, refused}
use explorer_qwertycoin_org.Snapshot.{
  Calls, Snapshot, unavailable, Caches, json_epose_snapshot, attempt_snapshots, attempt_snapshot,
  capture_epose_chain_anchor, check_core, resolve_nodes, source_qualification_valid, distinct_keys,
  holds_key,
}
use explorer_qwertycoin_org.Snapshot.Views.{
  ServiceNode, Offer, telemetry_json, endpoint_of, lookup, TelemetryCache,
}
use explorer_qwertycoin_org.Snapshot.Nodes.{Gathered, gather_nodes, gather_from, run_jobs}
use explorer_qwertycoin_org.Snapshot.Anchored.{Answered, json_epose_snapshot-Answered}

abbrev pub tip : Bytes
tip = replicate 64 97

abbrev pub still : Node
still = record {
  height = 5;
  block_id = λ height. tip;
  db_block = λ height. none;
  block_by_hash = λ h. none;
  block_height = λ h. none;
  block_weight = λ height. none;
  transactions = λ hs. record { succeeded = true; txs = []; missed = [] };
  have_tx = λ h. false;
  db_tx = λ h. tx_dne;
  db_pruned_tx = λ h. tx_dne;
  tx_block_height = λ h. none;
  num_outputs = λ amount. 0;
  output_keys = λ amount os. none;
  output_tx = λ amount o. none;
  mempool = [];
}

abbrev unmoved : ℕ → Node
unmoved n = still

abbrev served_node : ServiceNode
served_node = record {
  identity_id = codes "i";
  service_public_key = codes "s";
  endpoint_commitment = codes "d";
  active = true;
  qualified = true;
}

abbrev its_offer : Bytes → Option Offer
its_offer commitment = some (record {
  is_ready = true;
  descriptor_hash = commitment;
  service_public_key = codes "s";
  host = codes "node.example";
  port = 8197;
  transport = 3;
})

abbrev out_of_reach : RemoteTelemetry
out_of_reach = record {
  state = unreachable;
  telemetry_version = 0;
  software_version = [];
  tip_height = 0;
  tip_hash = [];
  synchronized = false;
  observed_at_unix = 90;
}

abbrev pub test_calls : ℕ → Calls
test_calls n = record {
  epose_info = some (record {
    enabled = true;
    protocol_version = 2;
    current_epoch = 2;
    service_node_count = 1;
    qualified_count = 1;
  });
  service_nodes =
      some (record { service_nodes = served_node ∷ []; total_count = 1; returned_count = 1 });
  rewards = some (record {
    height = 5;
    epoch = 1;
    qualified_count = 1;
    qualified_service_public_keys = codes "s" ∷ [];
    preview_available = true;
    expected_payee_service_public_key = codes "s";
  });
  offer = its_offer;
  fetch = λ j. out_of_reach;
  telemetry_now = 90;
  observed_at = 91;
}

abbrev pub no_caches : Caches
no_caches = record { snapshot = none; endpoints = []; telemetry = [] }

abbrev pub any_key : Bytes → Bool
any_key key = true

abbrev pub value_or : {A : Type 0} → A → Answer A → A
value_or a (success b t) = b
value_or a (refused e t) = a

abbrev pub end_of : {A : Type 0} → Answer A → ℕ
end_of (success b t) = t
end_of (refused e t) = t

abbrev fresh : Answer (Snapshot × Caches)
fresh = json_epose_snapshot any_key 90 test_calls no_caches unmoved 0

abbrev fresh_value : Snapshot × Caches
fresh_value = value_or (unavailable [], no_caches) fresh

fresh_read : fresh ≡ success fresh_value (end_of fresh)
unfolding json_epose_snapshot attempt_snapshots attempt_snapshot capture_epose_chain_anchor
    check_core resolve_nodes source_qualification_valid distinct_keys holds_key gather_nodes
    gather_from run_jobs telemetry_json endpoint_of lookup same valid_epose_chain_anchor
    same_epose_chain_anchor epose_reward_matches_anchor valid_epose_advertised_endpoint
fresh_read = refl

json_epose_snapshot-Answered_example :
    Answered any_key unmoved (fresh_value.0, fresh_value.1) (end_of fresh)
json_epose_snapshot-Answered_example =
    json_epose_snapshot-Answered any_key 90 test_calls no_caches unmoved 0 (end_of fresh) tt
      fresh_read

abbrev five_blocks : ChainAnchor
five_blocks = record { block_count = 5; tip_hash = tip }

abbrev nothing_gathered : Gathered
nothing_gathered = record { nodes = []; endpoints = []; jobs = []; active = [] }

abbrev one_node : Answer Gathered
one_node = gather_nodes five_blocks 90 any_key its_offer [] [] (served_node ∷ []) unmoved 0

abbrev two_cached : TelemetryCache
two_cached =
    (codes "d", record { telemetry = out_of_reach; time = 90 })
    ∷ (codes "e", record { telemetry = out_of_reach; time = 30 })
    ∷ []
