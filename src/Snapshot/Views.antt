-- ===== src/Snapshot/Views.antt =====
-- json_epose_snapshot of src/page.h: what it shows of a service node, its endpoint and its telemetry.
use explorer_qwertycoin_org.Base.{
  ℕ, ◌-◌, Bool, true, false, ◌&&◌, not, List, [], ◌∷◌, Option, none, some, Bytes, codes, same, ltb,
  leb, if◌then◌else◌,
}
use explorer_qwertycoin_org.Telemetry.{
  RemoteTelemetry, TelemetryState, unreachable, not_reported, endpoint_unavailable, rejected,
  not_checked_capacity, reported, TipAssessment, assess_epose_tip,
}
use explorer_qwertycoin_org.Endpoint.{
  ChainAnchor, valid_epose_advertised_endpoint, format_epose_endpoint_authority,
  epose_endpoint_transport_name,
}
use explorer_qwertycoin_org.Api.{Query, ◌>>=◌, return, observe}

pub record ServiceNode : Type 0 where
  pub identity_id : Bytes
  pub service_public_key : Bytes
  pub endpoint_commitment : Bytes
  pub active : Bool
  pub qualified : Bool

-- What the daemon answers about a descriptor.
pub record Offer : Type 0 where
  pub is_ready : Bool
  pub descriptor_hash : Bytes
  pub service_public_key : Bytes
  pub host : Bytes
  pub port : ℕ
  pub transport : ℕ

-- An endpoint whose availability is "current".
pub record Endpoint : Type 0 where
  pub authority : Bytes
  pub host : Bytes
  pub port : ℕ
  pub transport_name : Bytes
  pub transport_code : ℕ

pub record TelemetryReport : Type 0 where
  pub telemetry_version : ℕ
  pub software_version : Bytes
  pub tip_height : ℕ
  pub tip_hash : Bytes
  pub synchronized : Bool
  pub chain_status : Bytes
  pub blocks_behind : Option ℕ

pub record TelemetryView : Type 0 where
  pub availability : Bytes
  pub observed_at_unix : ℕ
  pub report : Option TelemetryReport

pub record NodeView : Type 0 where
  pub node : ServiceNode
  pub qualified_for_source_epoch : Bool
  pub advertised_endpoint : Option Endpoint
  pub node_telemetry : TelemetryView

pub record Job : Type 0 where
  pub node_index : ℕ
  pub descriptor_hash : Bytes
  pub service_public_key : Bytes
  pub host : Bytes
  pub port : ℕ
  pub transport : ℕ

abbrev pub EndpointCache : Type 0
EndpointCache = List (Bytes × Endpoint)

pub record CachedTelemetry : Type 0 where
  pub telemetry : RemoteTelemetry
  pub time : ℕ

abbrev pub TelemetryCache : Type 0
TelemetryCache = List (Bytes × CachedTelemetry)

unfoldable pub lookup {ℓ} : {A : Type ℓ} → Bytes → List (Bytes × A) → Option A
lookup key [] = none
lookup key ((k, a) ∷ rest) = let more = lookup key rest in if same key k then some a else more

abbrev pub availability_of : TelemetryState → Bytes
availability_of not_reported = codes "not_reported"
availability_of endpoint_unavailable = codes "endpoint_unavailable"
availability_of rejected = codes "rejected"
availability_of not_checked_capacity = codes "not_checked_capacity"
availability_of reported = codes "reported"
availability_of unreachable = codes "unreachable"

abbrev pub without_report : RemoteTelemetry → TelemetryView
without_report t = record {
  availability = availability_of t.state;
  observed_at_unix = t.observed_at_unix;
  report = none;
}

abbrev pub with_report : RemoteTelemetry → TipAssessment → TelemetryView
with_report t assessment = record {
  availability = codes "reported";
  observed_at_unix = t.observed_at_unix;
  report = some (record {
    telemetry_version = t.telemetry_version;
    software_version = t.software_version;
    tip_height = t.tip_height;
    tip_hash = t.tip_hash;
    synchronized = t.synchronized;
    chain_status = assessment.status;
    blocks_behind =
        if same assessment.status (codes "canonical_behind")
        then some assessment.blocks_behind
        else none;
  });
}

abbrev pub is_reported : TelemetryState → Bool
is_reported reported = true
is_reported unreachable = false
is_reported not_reported = false
is_reported endpoint_unavailable = false
is_reported rejected = false
is_reported not_checked_capacity = false

-- A report's tip is compared with the observer's block at its height.
unfoldable pub telemetry_json : ChainAnchor → RemoteTelemetry → Query TelemetryView
telemetry_json before t = if not (is_reported t.state) then return (without_report t) else (do
  canonical_hash ←
      (if ltb t.tip_height before.block_count
        then observe (λ c. c.block_id t.tip_height)
        else return [])
  return (
      with_report t
        (assess_epose_tip t.tip_height t.tip_hash (before.block_count - 1) canonical_hash)))

abbrev pub offered : ServiceNode → Option Offer → Option Endpoint
offered node none = none
offered node (some o) =
    if valid_epose_advertised_endpoint (record {
      ready = o.is_ready;
      descriptor_hash = o.descriptor_hash;
      expected_descriptor_hash = node.endpoint_commitment;
      service_public_key = o.service_public_key;
      expected_service_public_key = node.service_public_key;
      host = o.host;
      port = o.port;
      transport = o.transport;
    })
    then some (record {
      authority = format_epose_endpoint_authority o.host o.port o.transport;
      host = o.host;
      port = o.port;
      transport_name = epose_endpoint_transport_name o.transport;
      transport_code = o.transport;
    })
    else none

abbrev pub or_offered : Option Endpoint → Option Endpoint → Option Endpoint
or_offered none offer = offer
or_offered (some e) offer = some e

-- The cached endpoint of a node, or what the daemon offers for it.
unfoldable pub endpoint_of : (Bytes → Option Offer) → EndpointCache → ServiceNode → Option Endpoint
endpoint_of offer cache node =
    or_offered (lookup node.endpoint_commitment cache)
      (offered node (offer node.endpoint_commitment))

abbrev pub blank_telemetry : TelemetryState → ℕ → RemoteTelemetry
blank_telemetry state now = record {
  state = state;
  telemetry_version = 0;
  software_version = [];
  tip_height = 0;
  tip_hash = [];
  synchronized = false;
  observed_at_unix = now;
}

abbrev pub is_unreachable : TelemetryState → Bool
is_unreachable unreachable = true
is_unreachable not_reported = false
is_unreachable endpoint_unavailable = false
is_unreachable rejected = false
is_unreachable not_checked_capacity = false
is_unreachable reported = false

-- A cached telemetry serves for 60 seconds, for 15 where the node was unreachable.
abbrev pub if_fresh : ℕ → Option CachedTelemetry → Option RemoteTelemetry
if_fresh now none = none
if_fresh now (some c) =
    if leb c.time now && ltb (now - c.time) (if is_unreachable c.telemetry.state then 15 else 60)
    then some c.telemetry
    else none
