-- ===== src/Snapshot.antt =====
-- src/page.h: json_epose_snapshot and the chain anchor under it. The daemon's and the service nodes'
-- answers are given for each attempt; the node is looked at through the views of Api. The snapshot's
-- mutex is held throughout, so the caches are passed from call to call.
pub mod Views
pub mod Nodes
pub mod Anchored
pub mod Checks
use explorer_qwertycoin_org.Base.{
  ℕ, zero, suc, ◌-◌, Bool, true, false, ◌&&◌, ◌||◌, not, List, [], ◌∷◌, Option, none, some, Bytes,
  codes, same, ltb, leb, ◌==◌, if◌then◌else◌, length,
}
use explorer_qwertycoin_org.Telemetry.{RemoteTelemetry}
use explorer_qwertycoin_org.Endpoint.{
  ChainAnchor, valid_epose_chain_anchor, same_epose_chain_anchor, epose_reward_matches_anchor,
}
use explorer_qwertycoin_org.Api.{Query, ◌>>=◌, ◌>>◌, return, observe}
use explorer_qwertycoin_org.Snapshot.Views.{
  ServiceNode, NodeView, Offer, Job, TelemetryCache, EndpointCache,
}
use explorer_qwertycoin_org.Snapshot.Nodes.{gather_nodes, run_jobs, prune}

-- The responses of get_epose_info, get_service_nodes and get_service_rewards, as far as the snapshot
-- reads them and does not only copy them.
pub record EposeInfo : Type 0 where
  pub enabled : Bool
  pub protocol_version : ℕ
  pub current_epoch : ℕ
  pub service_node_count : ℕ
  pub qualified_count : ℕ

pub record ServiceNodes : Type 0 where
  pub service_nodes : List ServiceNode
  pub total_count : ℕ
  pub returned_count : ℕ

pub record ServiceRewards : Type 0 where
  pub height : ℕ
  pub epoch : ℕ
  pub qualified_count : ℕ
  pub qualified_service_public_keys : List Bytes
  pub preview_available : Bool
  pub expected_payee_service_public_key : Bytes

pub record Calls : Type 0 where
  pub epose_info : Option EposeInfo
  pub service_nodes : Option ServiceNodes
  pub rewards : Option ServiceRewards
  pub offer : Bytes → Option Offer
  pub fetch : Job → RemoteTelemetry
  pub telemetry_now : ℕ
  pub observed_at : ℕ

pub record SnapshotData : Type 0 where
  pub anchor : ChainAnchor
  pub observed_at_unix : ℕ
  pub info : EposeInfo
  pub nodes : List NodeView
  pub total_count : ℕ
  pub returned_count : ℕ
  pub truncated : Bool
  pub source_epoch : ℕ
  pub source_qualified_count : ℕ
  pub expected_payee : Option Bytes

-- A response: "success" with its data, or "error" with its message.
pub data Snapshot : Type 0 where
  ready : SnapshotData → Snapshot
  unavailable : Bytes → Snapshot

pub record CacheEntry : Type 0 where
  pub response : Snapshot
  pub anchor : Option ChainAnchor
  pub time : ℕ

pub record Caches : Type 0 where
  pub snapshot : Option CacheEntry
  pub endpoints : EndpointCache
  pub telemetry : TelemetryCache

abbrev pub if_valid : ChainAnchor → Option ChainAnchor
if_valid a = if valid_epose_chain_anchor a then some a else none

-- The height and the tip are read twice.
unfoldable pub capture_epose_chain_anchor : Query (Option ChainAnchor)
capture_epose_chain_anchor = do
  block_count ← observe (λ c. c.height)
  if block_count == 0 then return none else (do
    tip_hash ← observe (λ c. c.block_id (block_count - 1))
    verified_block_count ← observe (λ c. c.height)
    if not (verified_block_count == block_count) then return none else (do
      verified_tip_hash ← observe (λ c. c.block_id (verified_block_count - 1))
      return (
          if same verified_tip_hash tip_hash
          then if_valid (record { block_count = block_count; tip_hash = tip_hash })
          else none)))

abbrev pub same_as : ChainAnchor → Option ChainAnchor → Bool
same_as expected none = false
same_as expected (some current) = same_epose_chain_anchor expected current

unfoldable pub epose_chain_anchor_is_current : ChainAnchor → Query Bool
unfolding capture_epose_chain_anchor
epose_chain_anchor_is_current expected = do
  current ← capture_epose_chain_anchor
  return (same_as expected current)

-- Each key is one that prints as it was read, and none stands twice.
unfoldable pub holds_key : Bytes → List Bytes → Bool
holds_key key [] = false
holds_key key (k ∷ ks) = same key k || holds_key key ks

unfoldable pub distinct_keys : (Bytes → Bool) → List Bytes → Bool
distinct_keys is_key [] = true
distinct_keys is_key (k ∷ ks) = is_key k && not (holds_key k ks) && distinct_keys is_key ks

unfoldable pub source_qualification_valid : (Bytes → Bool) → ServiceRewards → Bool
source_qualification_valid is_key r =
    length r.qualified_service_public_keys == r.qualified_count
    && distinct_keys is_key r.qualified_service_public_keys

-- What an attempt comes to: another one, with the error that it leaves, or a failure that is cached,
-- or a snapshot.
pub data Tried : Type 0 where
  again : Bytes → Caches → Tried
  failed : Bytes → Caches → Tried
  made : SnapshotData → Caches → Tried

abbrev pub make_data :
    ChainAnchor → Calls → EposeInfo → ServiceNodes → ServiceRewards → List NodeView → SnapshotData
make_data before calls info nodes rewards views = record {
  anchor = before;
  observed_at_unix = calls.observed_at;
  info = info;
  nodes = views;
  total_count = nodes.total_count;
  returned_count = nodes.returned_count;
  truncated = ltb nodes.returned_count nodes.total_count;
  source_epoch = rewards.epoch;
  source_qualified_count = rewards.qualified_count;
  expected_payee =
      if rewards.preview_available then some rewards.expected_payee_service_public_key else none;
}

-- From the service nodes on, for an anchor that held across the daemon's answers.
unfoldable pub resolve_nodes :
    ChainAnchor → Calls → EposeInfo → ServiceNodes → ServiceRewards → Caches → Query Tried
unfolding capture_epose_chain_anchor
resolve_nodes before calls info nodes rewards s = do
  gathered ←
      gather_nodes before calls.telemetry_now
        (λ key. holds_key key rewards.qualified_service_public_keys) calls.offer s.endpoints
        s.telemetry nodes.service_nodes
  (views, telemetry) ←
      run_jobs before calls.telemetry_now calls.fetch gathered.jobs gathered.nodes s.telemetry
  let kept = record s { telemetry = prune gathered.active telemetry }
  after ← capture_epose_chain_anchor
  return (
      if not (same_as before after)
      then again (codes "Canonical chain changed while resolving the EPoSe snapshot") kept
      else made (make_data before calls info nodes rewards views)
          (record kept { endpoints = gathered.endpoints }))

module _ (is_key : Bytes → Bool) where
  unfoldable pub check_core :
      ChainAnchor → Calls → EposeInfo → ServiceNodes → ServiceRewards → Caches → Query Tried
  unfolding resolve_nodes capture_epose_chain_anchor
  check_core before calls info nodes rewards s = do
    after ← capture_epose_chain_anchor
    if not (same_as before after) || not (epose_reward_matches_anchor before rewards.height)
        then return
            (again (codes "Core EPoSe responses did not share one canonical block anchor") s)
        else if not (source_qualification_valid is_key rewards)
        then return
            (failed (codes "Core returned an inconsistent finalized EPoSe qualification set") s)
        else resolve_nodes before calls info nodes rewards s

  -- The daemon's three answers, each missing one a failure.
  abbrev pub ask_core :
      ChainAnchor
      → Calls
      → Option EposeInfo
      → Option ServiceNodes
      → Option ServiceRewards
      → Caches
      → Query Tried
  ask_core before calls none nodes rewards s = return (failed (codes "Cant get EPoSe info") s)
  ask_core before calls (some info) none rewards s =
      return (failed (codes "Cant get EPoSe service nodes") s)
  ask_core before calls (some info) (some nodes) none s =
      return (failed (codes "Cant obtain finalized EPoSe reward-source qualification") s)
  ask_core before calls (some info) (some nodes) (some rewards) s =
      check_core before calls info nodes rewards s

  abbrev pub with_anchor : Calls → Option ChainAnchor → Caches → Query Tried
  with_anchor calls none s = return (again (codes "Canonical chain anchor is unavailable") s)
  with_anchor calls (some before) s =
      ask_core before calls calls.epose_info calls.service_nodes calls.rewards s

  unfoldable pub attempt_snapshot : Calls → Caches → Query Tried
  unfolding capture_epose_chain_anchor
  attempt_snapshot calls s = do before ← capture_epose_chain_anchor; with_anchor calls before s

  abbrev pub cache_failure : ℕ → Bytes → Caches → Snapshot × Caches
  cache_failure request_time message s = (
    unavailable message,
    record s {
      snapshot =
          some (record { response = unavailable message; anchor = none; time = request_time });
    },
  )

  abbrev pub cache_success : SnapshotData → Caches → Snapshot × Caches
  cache_success d s = (
    ready d,
    record s {
      snapshot =
          some (record { response = ready d; anchor = some d.anchor; time = d.observed_at_unix });
    },
  )

  -- The attempts left, the number of this one, the error of the last.
  -- What an attempt is followed by: the next one, or the answer.
  abbrev pub after_attempt :
      (Bytes → Caches → Query (Snapshot × Caches)) → ℕ → Tried → Query (Snapshot × Caches)
  after_attempt next request_time (again last_error s) = next last_error s
  after_attempt next request_time (failed message s) = return (cache_failure request_time message s)
  after_attempt next request_time (made d s) = return (cache_success d s)

  unfoldable pub attempt_snapshots :
      ℕ → ℕ → (ℕ → Calls) → ℕ → Bytes → Caches → Query (Snapshot × Caches)
  unfolding attempt_snapshot
  attempt_snapshots zero k calls request_time last_error s =
      return (cache_failure request_time last_error s)
  attempt_snapshots (suc n) k calls request_time last_error s = do
    tried ← attempt_snapshot (calls k) s
    after_attempt (attempt_snapshots n (suc k) calls request_time) request_time tried

  abbrev pub is_ready : Snapshot → Bool
  is_ready (ready d) = true
  is_ready (unavailable e) = false

  -- A cached failure serves for 1 second, a cached success for 15, while its anchor is current.
  abbrev pub anchor_holds : Option ChainAnchor → Query Bool
  anchor_holds none = return false
  anchor_holds (some a) = epose_chain_anchor_is_current a

  abbrev pub is_young : ℕ → CacheEntry → Bool
  is_young request_time e =
      leb e.time request_time && ltb (request_time - e.time) (if is_ready e.response then 15 else 1)

  unfoldable pub is_served : ℕ → CacheEntry → Query Bool
  is_served request_time e =
      if not (is_young request_time e)
      then return false
      else if is_ready e.response
      then anchor_holds e.anchor
      else return true

  abbrev pub or_cached : ℕ → (ℕ → Calls) → Option CacheEntry → Caches → Query (Snapshot × Caches)
  or_cached request_time calls none s =
      attempt_snapshots 2 0 calls request_time
        (codes "Canonical chain changed during EPoSe snapshot") s
  or_cached request_time calls (some e) s = do
    served ← is_served request_time e
    if served
        then return (e.response, s)
        else attempt_snapshots 2 0 calls request_time
            (codes "Canonical chain changed during EPoSe snapshot") s

  unfoldable pub json_epose_snapshot : ℕ → (ℕ → Calls) → Caches → Query (Snapshot × Caches)
  json_epose_snapshot request_time calls s = or_cached request_time calls s.snapshot s
