-- ===== src/Telemetry.antt =====
-- src/epose_telemetry.h and src/epose_telemetry.cpp: which endpoints are contacted, and what is
-- taken from their answers.
pub mod Fetch
use explorer_qwertycoin_org.Address.{
  Address, Net, is_lower_hex_telemetry_hash, is_public_epose_address, is_v4, valid_epose_dns_name,
  valid_epose_software_version,
}
use explorer_qwertycoin_org.Base.{
  ◌*◌, ℕ, ◌+◌, ◌-◌, Bool, true, false, ◌&&◌, ◌||◌, not, List, [], ◌∷◌, ◌++◌, Option, none, some,
  Bytes, codes, ltb, ◌==◌, if◌then◌else◌, length, same,
}
use explorer_qwertycoin_org.Decimal.{to_text}

pub data TelemetryState : Type 0 where
  reported not_reported endpoint_unavailable unreachable rejected not_checked_capacity :
      TelemetryState

pub record RemoteTelemetry : Type 0 where
  pub state : TelemetryState
  pub telemetry_version : ℕ
  pub software_version : Bytes
  pub tip_height : ℕ
  pub tip_hash : Bytes
  pub synchronized : Bool
  pub observed_at_unix : ℕ

pub record TipAssessment : Type 0 where
  pub status : Bytes
  pub blocks_behind : ℕ

unfoldable pub assess_epose_tip : ℕ → Bytes → ℕ → Bytes → TipAssessment
assess_epose_tip remote_height remote_hash observer_height canonical_hash =
    if not (is_lower_hex_telemetry_hash remote_hash)
    then record { status = codes "invalid_report"; blocks_behind = 0 }
    else if ltb observer_height remote_height
    then record { status = codes "ahead_unverified"; blocks_behind = 0 }
    else if not (is_lower_hex_telemetry_hash canonical_hash)
    then record { status = codes "observer_unavailable"; blocks_behind = 0 }
    else if not (same remote_hash canonical_hash)
    then record { status = codes "hash_mismatch"; blocks_behind = 0 }
    else if remote_height == observer_height
    then record { status = codes "same_tip"; blocks_behind = 0 }
    else record {
      status = codes "canonical_behind";
      blocks_behind = observer_height - remote_height;
    }

abbrev pub maximum_response_bytes : ℕ
maximum_response_bytes = 16 * 1024

-- bounded_http_client::handle_target_data: the bytes received so far after a piece of that size, or
-- nothing where the piece is refused.
unfoldable pub handle_target_data : ℕ → ℕ → Option ℕ
handle_target_data received size =
    if ltb (maximum_response_bytes - received) size then none else some (received + size)

-- The daemon's answer, as endpoint_telemetry_response holds it.
pub record EndpointResponse : Type 0 where
  pub status_ok : Bool
  pub ready : Bool
  pub service_public_key : Bytes
  pub descriptor_hash : Bytes
  pub telemetry_available : Bool
  pub telemetry_version : ℕ
  pub software_version : Bytes
  pub tip_height : ℕ
  pub tip_hash : Bytes
  pub synchronized : Bool

-- resolve_public_endpoint: the address and its authority, or a failure that says whether it is a
-- rejection.
pub data Resolution : Type 0 where
  found : Address → Resolution
  refused : Resolution
  missing : Resolution

-- `<` on std::string, which orders the set of addresses.
unfoldable pub precedes : Bytes → Bytes → Bool
precedes [] [] = false
precedes [] (y ∷ ys) = true
precedes (x ∷ xs) [] = false
precedes (x ∷ xs) (y ∷ ys) = ltb x y || (x == y && precedes xs ys)

-- Insertion into a std::set<std::string>.
unfoldable pub insert_sorted : Bytes → List Bytes → List Bytes
insert_sorted s [] = s ∷ []
insert_sorted s (t ∷ ts) =
    let rest = insert_sorted s ts in
    if same s t then t ∷ ts else if precedes s t then s ∷ t ∷ ts else t ∷ rest

abbrev pub maximum_dns_addresses : ℕ
maximum_dns_addresses = 8

module _ (net : Net) where
  -- The loop over the resolver's results; `none` is a rejection.
  unfoldable pub collect_addresses : List Address → List Bytes → Option (List Bytes)
  collect_addresses [] addresses = some addresses
  collect_addresses (a ∷ rest) addresses =
      let next = insert_sorted (net.to_string a) addresses in
      let more = collect_addresses rest next in
      if not (is_public_epose_address net a)
      then none
      else if ltb maximum_dns_addresses (length next)
      then none
      else more

  abbrev of_literal : Option Address → Resolution
  of_literal none = missing
  of_literal (some a) = found a

  abbrev pub first_address : Option (List Bytes) → Resolution
  first_address none = refused
  first_address (some []) = missing
  first_address (some (s ∷ rest)) = of_literal (net.from_string s)

  abbrev pub of_results : Option (List Address) → Resolution
  of_results none = missing
  of_results (some results) = first_address (collect_addresses results [])

  abbrev pub numeric_address : ℕ → Option Address → Resolution
  numeric_address transport none = refused
  numeric_address transport (some a) =
      if (transport == 1 && not (is_v4 a))
        || (transport == 2 && is_v4 a)
        || not (is_public_epose_address net a)
      then refused
      else found a

  unfoldable pub resolve_public_endpoint : Bytes → ℕ → ℕ → Resolution
  resolve_public_endpoint host port transport =
      if port == 0 || ltb 65535 port || ltb transport 1 || ltb 3 transport
      then refused
      else if transport == 1 || transport == 2
      then numeric_address transport (net.from_string host)
      else if not (valid_epose_dns_name host)
      then refused
      else of_results (net.resolve host port)

  -- numeric_authority
  abbrev pub authority : Address → ℕ → Bytes
  authority a port =
      if is_v4 a
      then net.to_string a ++ b':' ∷ to_text port
      else b'[' ∷ net.to_string a ++ codes "]:" ++ to_text port

  abbrev pub blank : TelemetryState → ℕ → RemoteTelemetry
  blank state now = record {
    state = state;
    telemetry_version = 0;
    software_version = [];
    tip_height = 0;
    tip_hash = [];
    synchronized = false;
    observed_at_unix = now;
  }

  -- What is made of an answer; `none` is a failed connection or call.
  unfoldable pub take_answer : Bytes → Bytes → ℕ → Option EndpointResponse → RemoteTelemetry
  take_answer descriptor_hash service_key now none = blank unreachable now
  take_answer descriptor_hash service_key now (some r) =
      if not r.status_ok
        || not r.ready
        || not (same r.descriptor_hash descriptor_hash)
        || not (same r.service_public_key service_key)
      then blank rejected now
      else if not r.telemetry_available
      then blank not_reported now
      else if not (r.telemetry_version == 1)
          || not (valid_epose_software_version r.software_version)
          || not (is_lower_hex_telemetry_hash r.tip_hash)
      then blank rejected now
      else record {
        state = reported;
        telemetry_version = r.telemetry_version;
        software_version = r.software_version;
        tip_height = r.tip_height;
        tip_hash = r.tip_hash;
        synchronized = r.synchronized;
        observed_at_unix = now;
      }

  -- `call` is the HTTP client: the answer to a request to an authority about a descriptor.
  abbrev pub contact :
      (Bytes → Bytes → Option EndpointResponse)
      → ℕ
      → Bytes
      → Bytes
      → ℕ
      → Resolution
      → RemoteTelemetry
  contact call port descriptor_hash service_key now (found a) =
      take_answer descriptor_hash service_key now (call (authority a port) descriptor_hash)
  contact call port descriptor_hash service_key now refused = blank rejected now
  contact call port descriptor_hash service_key now missing = blank unreachable now

  unfoldable pub fetch_epose_remote_telemetry :
      (Bytes → Bytes → Option EndpointResponse)
      → Bytes
      → ℕ
      → ℕ
      → Bytes
      → Bytes
      → ℕ
      → RemoteTelemetry
  fetch_epose_remote_telemetry call host port transport descriptor_hash service_key now =
      contact call port descriptor_hash service_key now
        (resolve_public_endpoint host port transport)
