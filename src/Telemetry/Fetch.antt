-- ===== src/Telemetry/Fetch.antt =====
-- Which endpoints fetch_epose_remote_telemetry contacts, and what a reported result says.
use explorer_qwertycoin_org.Base.{
  ◌+◌, codes, same_iff, ◌↔◌, ℕ, ◌≤◌, ◌<◌, ◌≡◌, ◌≢◌, refl, true, false, List, [], ◌∷◌, Option, none,
  some, Bytes, arith, All, length, same, if-elim,
}
use explorer_qwertycoin_org.Telemetry.{
  Resolution, authority, contact, take_answer, fetch_epose_remote_telemetry, EndpointResponse,
  RemoteTelemetry, reported, assess_epose_tip, handle_target_data, maximum_response_bytes, refused,
  missing, found, insert_sorted, collect_addresses, first_address, of_results, numeric_address,
  resolve_public_endpoint, maximum_dns_addresses, precedes,
}
use explorer_qwertycoin_org.Address.{
  valid_epose_software_version, is_lower_hex_telemetry_hash, Address, is_v4, Net,
  is_public_epose_address,
}
use explorer_qwertycoin_org.Address.DnsName.{IsHostName, valid_epose_dns_name_iff}

All-insert_sorted {κ} :
    (P : Bytes → Type κ) (s : Bytes) (ts : List Bytes) → P s → All P ts → All P (insert_sorted s ts)
unfolding insert_sorted
All-insert_sorted P s [] p h = (p, tt)
All-insert_sorted P s (t ∷ ts) p h =
    if-elim (All P) (same s t) (λ _. h)
      (λ _.
        if-elim (All P) (precedes s t) (λ _. (p, h)) (λ _. (h.0, All-insert_sorted P s ts p h.1)))

module _ (net : Net) where
  -- The print of a public address.
  abbrev pub PrintsPublic : Bytes → Type 0
  PrintsPublic s = (a : Address) × (is_public_epose_address net a ≡ true) × (net.to_string a ≡ s)

  collect_addresses-PrintsPublic :
      (results : List Address) (before after : List Bytes)
      → All PrintsPublic before
      → length before ≤ maximum_dns_addresses
      → collect_addresses net results before ≡ some after
      → All PrintsPublic after × (length after ≤ maximum_dns_addresses)
  unfolding collect_addresses
  collect_addresses-PrintsPublic [] before after h n e = ground arith
  collect_addresses-PrintsPublic (a ∷ rest) before after h n e = ground (
    arith,
    λ (p : is_public_epose_address net a ≡ true).
        All-insert_sorted PrintsPublic (net.to_string a) before (a, p, refl) h,
    collect_addresses-PrintsPublic rest (insert_sorted (net.to_string a) before) after,
  )

module _ (net : Net) (reads_back : (a : Address) → net.from_string (net.to_string a) ≡ some a) where
  first_address-public :
      (o : Option (List Bytes)) (a : Address)
      → ((after : List Bytes) → o ≡ some after → All (PrintsPublic net) after)
      → first_address net o ≡ found a
      → is_public_epose_address net a ≡ true
  first_address-public none a h e = absurd (cc)
  first_address-public (some []) a h e = absurd (cc)
  first_address-public (some (s ∷ rest)) a h e =
      let (b, public, prints) = (h (s ∷ rest) refl).0 in ground (arith, reads_back b)

  of_results-public :
      (o : Option (List Address)) (a : Address)
      → of_results net o ≡ found a
      → is_public_epose_address net a ≡ true
  of_results-public none a e = absurd (cc)
  of_results-public (some results) a e =
      first_address-public (collect_addresses net results []) a
        (λ after c. (collect_addresses-PrintsPublic net results [] after tt (omega arith) c).0) e

  numeric_address-public :
      (transport : ℕ) (o : Option Address) (a : Address)
      → numeric_address net transport o ≡ found a
      → (is_public_epose_address net a ≡ true)
        × (transport ≡ 1 → is_v4 a ≡ true)
        × (transport ≡ 2 → is_v4 a ≡ false)
  numeric_address-public transport none a e = absurd (cc)
  numeric_address-public transport (some b) a e = ground arith

  -- Where an address is read back from its print: an address that is resolved is public, the port
  -- is between 1 and 65535, transport 1 gives an IPv4 address, transport 2 one that is not, and
  -- with another transport the host is a proper host name.
  pub resolve_public :
      (host : Bytes) (port transport : ℕ) (a : Address)
      → resolve_public_endpoint net host port transport ≡ found a
      → (is_public_epose_address net a ≡ true)
        × (0 < port)
        × (port ≤ 65535)
        × (transport ≡ 1 → is_v4 a ≡ true)
        × (transport ≡ 2 → is_v4 a ≡ false)
        × (transport ≢ 1 → transport ≢ 2 → IsHostName host)
  unfolding resolve_public_endpoint
  resolve_public host port transport a e = ground (
    arith,
    numeric_address-public transport (net.from_string host) a,
    of_results-public (net.resolve host port) a,
    valid_epose_dns_name_iff host,
  )

  -- What is reported of an answer.
  pub record IsAnswer (descriptor key : Bytes) (r : EndpointResponse) (t : RemoteTelemetry)
      : Type 0 where
    pub status_ok : r.status_ok ≡ true
    pub ready : r.ready ≡ true
    pub available : r.telemetry_available ≡ true
    pub of_version : r.telemetry_version ≡ 1
    pub about : r.descriptor_hash ≡ descriptor
    pub signed_by : r.service_public_key ≡ key
    pub version : t.telemetry_version ≡ r.telemetry_version
    pub software : t.software_version ≡ r.software_version
    pub printable : valid_epose_software_version t.software_version ≡ true
    pub height : t.tip_height ≡ r.tip_height
    pub tip : t.tip_hash ≡ r.tip_hash
    pub hex : is_lower_hex_telemetry_hash t.tip_hash ≡ true

  take_answer-IsAnswer :
      (descriptor key : Bytes) (now : ℕ) (o : Option EndpointResponse)
      → (take_answer net descriptor key now o).state ≡ reported
      → (r : EndpointResponse) × (o ≡ some r)
        × IsAnswer descriptor key r (take_answer net descriptor key now o)
  unfolding take_answer
  take_answer-IsAnswer descriptor key now none e = absurd (cc)
  take_answer-IsAnswer descriptor key now (some r) e = (
    r,
    refl,
    ground (arith, same_iff r.descriptor_hash descriptor, same_iff r.service_public_key key),
  )

  contact-reported :
      (call : Bytes → Bytes → Option EndpointResponse) (host : Bytes) (port transport : ℕ)
      (descriptor key : Bytes) (now : ℕ) (o : Resolution)
      → resolve_public_endpoint net host port transport ≡ o
      → (contact net call port descriptor key now o).state ≡ reported
      → (a : Address) × (r : EndpointResponse) × (is_public_epose_address net a ≡ true)
        × (call (authority net a port) descriptor ≡ some r)
        × IsAnswer descriptor key r (contact net call port descriptor key now o)
  contact-reported call host port transport descriptor key now (found a) h e =
      let (r, answered, is_answer) =
        take_answer-IsAnswer descriptor key now (call (authority net a port) descriptor) e in
      (a, r, (resolve_public host port transport a h).0, answered, is_answer)
  contact-reported call host port transport descriptor key now refused h e = absurd (cc)
  contact-reported call host port transport descriptor key now missing h e = absurd (cc)

  -- Where an address is read back from its print: a result that is reported comes from a public
  -- address, whose answer to a request about the descriptor had status OK, was ready, was about that descriptor
  -- and that service key, had telemetry version 1, a printable software version and a tip hash of
  -- 64 lower-case hex digits; the result's version, software, height and tip hash are that
  -- answer's.
  pub fetch-reported :
      (call : Bytes → Bytes → Option EndpointResponse) (host : Bytes) (port transport : ℕ)
      (descriptor key : Bytes) (now : ℕ)
      → let t = fetch_epose_remote_telemetry net call host port transport descriptor key now in
        t.state ≡ reported
        → (a : Address) × (r : EndpointResponse) × (is_public_epose_address net a ≡ true)
          × (call (authority net a port) descriptor ≡ some r)
          × IsAnswer descriptor key r t
  unfolding fetch_epose_remote_telemetry
  fetch-reported call host port transport descriptor key now e =
      contact-reported call host port transport descriptor key now
        (resolve_public_endpoint net host port transport) refl e

-- The pieces of one response, as far as they are accepted.
pub receive : ℕ → List ℕ → ℕ
receive received [] = received
receive received (size ∷ rest) = elim (handle_target_data received size) [
  | none ↦ received
  | some more ↦ receive more rest
]

-- From at most the maximum on, whatever pieces arrive, no more than the maximum of response bytes
-- is ever taken in.
pub receive_bounded :
    (received : ℕ) (sizes : List ℕ)
    → received ≤ maximum_response_bytes
    → receive received sizes ≤ maximum_response_bytes
unfolding receive handle_target_data
receive_bounded received [] h = h
receive_bounded received (size ∷ rest) h = ground (arith, receive_bounded (received + size) rest)

-- The number of blocks behind is positive exactly for the status "canonical_behind"; "same_tip" is
-- given exactly for a well-formed remote hash that is the canonical one at the observer's height,
-- and "canonical_behind" exactly for such a hash below it, where the number of blocks behind is the
-- difference of the heights.
pub assess_epose_tip_lem :
    (remote_height observer_height : ℕ) (remote_hash canonical_hash : Bytes)
    → let t = assess_epose_tip remote_height remote_hash observer_height canonical_hash in
      ((0 < t.blocks_behind) ↔ (t.status ≡ codes "canonical_behind"))
      × ((t.status ≡ codes "same_tip") ↔ (
          (is_lower_hex_telemetry_hash remote_hash ≡ true)
          × (remote_hash ≡ canonical_hash)
          × (remote_height ≡ observer_height)))
      × ((t.status ≡ codes "canonical_behind") ↔ (
          (is_lower_hex_telemetry_hash remote_hash ≡ true)
          × (remote_hash ≡ canonical_hash)
          × (remote_height < observer_height)))
      × (t.status ≡ codes "canonical_behind" → remote_height + t.blocks_behind ≡ observer_height)
unfolding assess_epose_tip
assess_epose_tip_lem remote_height observer_height remote_hash canonical_hash =
    ground (arith, same_iff remote_hash canonical_hash)
