-- ===== src/Observer/Identity.antt =====
-- src/page.h: json_identity and the sections of the EPoSe snapshot, and the /readyz route of main.cpp
-- over them. The caches of the snapshot are passed from call to call.
pub mod Compatible
pub mod Ready
use explorer_qwertycoin_org.Base.{
  ℕ, ◌-◌, Bool, ◌&&◌, ◌||◌, not, List, Option, none, some, Bytes, codes, same, leb, ◌==◌,
  if◌then◌else◌, length,
}
use explorer_qwertycoin_org.Address.{all_of}
use explorer_qwertycoin_org.Rpc.{Attempt, Reply, get_network_info, core_rpc_status_ok}
use explorer_qwertycoin_org.Mempool.Network.{Info}
use explorer_qwertycoin_org.Api.{Query, ◌>>=◌, ◌>>◌, return, observe}
use explorer_qwertycoin_org.Snapshot.{
  EposeInfo, SnapshotData, Snapshot, ready, unavailable, Caches, Calls, json_epose_snapshot,
}
use explorer_qwertycoin_org.Snapshot.Views.{NodeView}
use explorer_qwertycoin_org.Observer.{
  Shared, NetworkJson, EmissionJson, Build, json_networkinfo, json_emission,
}
use explorer_qwertycoin_org.Observer.Overview.{attempt}

-- What the node's library and the build fix for this network.
pub record Profile : Type 0 where
  pub final_genesis_hash : Bytes
  pub final_parameter_set_hash : Bytes
  pub build : Build

pub record IdentityData : Type 0 where
  pub network : Bytes
  pub genesis_hash : Bytes
  pub expected_genesis_hash : Bytes
  pub genesis_matches : Bool
  pub consensus_parameter_fingerprint : Bytes
  pub current_hf_version : ℕ
  pub epose_protocol_version : ℕ
  pub epose_enabled : Bool
  pub snapshot_current : Bool
  pub rpc_db_anchor_matches : Bool
  pub block_count : ℕ
  pub tip_height : ℕ
  pub chain_anchor_hash : Bytes
  pub db_tip_hash : Bytes
  pub build : Build
  pub core_source_sha_recorded : Bool
  pub compatible : Bool

pub data Identified : Type 0 where
  identified : IdentityData → Identified
  unidentified : Bytes → Identified

-- isxdigit in the C locale.
abbrev pub is_xdigit : ℕ → Bool
is_xdigit c = (leb b'0' c && leb c b'9') || (leb b'a' c && leb c b'f') || (leb b'A' c && leb c b'F')

abbrev pub is_sha : Bytes → Bool
is_sha sha = length sha == 40 && all_of is_xdigit sha

abbrev pub make_identity : Profile → ℕ → NetworkJson → EposeInfo → Bytes → Bytes → IdentityData
make_identity profile chain_height network epose actual_genesis db_tip_hash =
    let mainnet = not network.testnet && not network.stagenet in
    let anchor_matches =
      network.height == chain_height && same network.top_block_hash db_tip_hash in
    let hf17 = network.current_hf_version == 17 in
    let epose_v2 = epose.enabled && epose.protocol_version == 2 in
    let genesis_matches = same actual_genesis profile.final_genesis_hash in
    let core_sha_recorded = is_sha profile.build.qwc_source_sha in
    record {
      network =
          if mainnet
          then codes "mainnet"
          else if network.testnet
          then codes "testnet"
          else codes "stagenet";
      genesis_hash = actual_genesis;
      expected_genesis_hash = profile.final_genesis_hash;
      genesis_matches = genesis_matches;
      consensus_parameter_fingerprint = profile.final_parameter_set_hash;
      current_hf_version = network.current_hf_version;
      epose_protocol_version = epose.protocol_version;
      epose_enabled = epose.enabled;
      snapshot_current = network.current;
      rpc_db_anchor_matches = anchor_matches;
      block_count = chain_height;
      tip_height = chain_height - 1;
      chain_anchor_hash = network.top_block_hash;
      db_tip_hash = db_tip_hash;
      build = profile.build;
      core_source_sha_recorded = core_sha_recorded;
      compatible =
          mainnet && network.current && anchor_matches && hf17 && epose_v2 && genesis_matches
          && core_sha_recorded;
    }

-- A section of the snapshot, or the message of the snapshot that failed.
pub data Section (A : Type 0) : Type 0 where
  part : A → Section A
  no_snapshot : Bytes → Section A

abbrev pub section_of : {A : Type 0} → (SnapshotData → A) → Snapshot → Section A
section_of read (ready d) = part (read d)
section_of read (unavailable message) = no_snapshot message

-- What a request for the snapshot is made with.
module _ (is_key : Bytes → Bool) (request_time : ℕ) (calls : ℕ → Calls) where
  unfoldable pub json_epose_snapshot_section :
      {A : Type 0} → (SnapshotData → A) → Caches → Query (Section A × Caches)
  json_epose_snapshot_section read caches = do
    (snapshot, left) ← json_epose_snapshot is_key request_time calls caches
    return (section_of read snapshot, left)

  unfoldable pub json_epose_info : Caches → Query (Section EposeInfo × Caches)
  unfolding json_epose_snapshot_section
  json_epose_info = json_epose_snapshot_section (λ d. d.info)

  unfoldable pub json_epose_service_nodes : Caches → Query (Section (List NodeView) × Caches)
  unfolding json_epose_snapshot_section
  json_epose_service_nodes = json_epose_snapshot_section (λ d. d.nodes)

  unfoldable pub json_epose_rewards : Caches → Query (Section (Option Bytes) × Caches)
  unfolding json_epose_snapshot_section
  json_epose_rewards = json_epose_snapshot_section (λ d. d.expected_payee)

  module _ (profile : Profile) (shared : Shared) where
    abbrev pub no_identity_data : Identified
    no_identity_data = unidentified (codes "Required observer identity data is unavailable")

    -- From the two pages on, for a chain of this height.
    abbrev pub identify :
        ℕ → Option NetworkJson → Section EposeInfo → Caches → Query (Identified × Caches)
    identify chain_height none epose caches = return (no_identity_data, caches)
    identify chain_height (some network) (no_snapshot e) caches = return (no_identity_data, caches)
    identify chain_height (some network) (part epose) caches = do
      actual_genesis ← observe (λ c. c.block_id 0)
      db_tip_hash ← observe (λ c. c.block_id (chain_height - 1))
      return (
        identified (make_identity profile chain_height network epose actual_genesis db_tip_hash),
        caches,
      )

    unfoldable pub json_identity : Caches → Query (Identified × Caches)
    unfolding json_networkinfo json_epose_info
    json_identity caches = do
      chain_height ← observe (λ c. c.height)
      if chain_height == 0
          then return (unidentified (codes "Chain identity is unavailable"), caches)
          else (do
            network ← attempt (json_networkinfo shared)
            (epose, left) ← json_epose_info caches
            identify chain_height network epose left)

-- /readyz
pub record ReadyData : Type 0 where
  pub wallet_rpc_height : ℕ
  pub wallet_rpc_target_height : ℕ
  pub identity : IdentityData
  pub supply : EmissionJson

pub data Readiness : Type 0 where
  verified : ReadyData → Readiness
  unverified : Bytes → Readiness

-- The response of the restricted daemon; its status is also that of the reply.
abbrev pub is_usable : Info → Bool
is_usable info = not (
    not (same info.status core_rpc_status_ok)
    || info.testnet
    || info.stagenet
    || info.height == 0
    || info.target == 0)

abbrev pub verify : Info → Identified → Option EmissionJson → Readiness
verify info (unidentified e) supply =
    unverified
      (codes "Observer identity, freshness, EPoSe v2 compatibility, or supply anchor is unverified")
verify info (identified d) none =
    unverified
      (codes "Observer identity, freshness, EPoSe v2 compatibility, or supply anchor is unverified")
verify info (identified d) (some supply) =
    if not d.compatible || not supply.supply.complete
    then unverified (
        codes
          "Observer identity, freshness, EPoSe v2 compatibility, or supply anchor is unverified")
    else verified (record {
      wallet_rpc_height = info.height;
      wallet_rpc_target_height = info.target_height;
      identity = d;
      supply = supply;
    })

abbrev pub unusable : Readiness
unusable = unverified (codes "Restricted wallet RPC probe is unavailable or incompatible")

module _ (is_key : Bytes → Bool) (request_time : ℕ) (calls : ℕ → Calls) (profile : Profile)
    (shared : Shared) where
  abbrev pub after_probe : Option Info → Caches → Query (Readiness × Caches)
  after_probe none caches = return (unusable, caches)
  after_probe (some info) caches = if not (is_usable info) then return (unusable, caches) else (do
    (identity, left) ← json_identity is_key request_time calls profile shared caches
    supply ← attempt (json_emission shared)
    return (verify info identity supply, left))

  -- `env` is what the attempts of get_network_info meet.
  unfoldable pub readyz :
      Reply Info → (ℕ → Attempt (Reply Info)) → Bool → Caches → Query (Readiness × Caches)
  readyz empty env connected caches =
      after_probe (get_network_info empty env connected).answer caches
