-- ===== src/Examples/Remote.antt =====
-- Addresses and answers of one service node.
use explorer_qwertycoin_org.Base.{
  ℕ, zero, suc, ◌≡◌, ◌↔◌, ◌≤◌, ◌<◌, refl, Bool, true, false, [], ◌∷◌, Option, none, some, Bytes,
  arith, codes, replicate, same, ◌==◌,
}
use explorer_qwertycoin_org.Telemetry.{
  EndpointResponse, reported, resolve_public_endpoint, found, fetch_epose_remote_telemetry,
  authority, take_answer,
}
use explorer_qwertycoin_org.Address.{
  Address, v4, v6, Net, is_public_epose_address, is_public_v4, is_public_v6, valid_epose_dns_name,
  is_lower_hex_telemetry_hash, valid_epose_software_version, all_of,
}
use explorer_qwertycoin_org.Telemetry.Fetch.{fetch-reported, IsAnswer}
use explorer_qwertycoin_org.Address.PublicAddress.{
  is_public_v4_iff, is_public_v6_iff, LiesInOne, number_v4, special_blocks,
}
use explorer_qwertycoin_org.Address.DnsName.{IsHostName, valid_epose_dns_name_iff}

-- A way to write addresses that is read back.
abbrev write_address : Address → Bytes
write_address (v4 a b c d) = zero ∷ a ∷ b ∷ c ∷ d ∷ []
write_address (v6 bytes) = suc zero ∷ bytes

abbrev read_address : Bytes → Option Address
read_address (zero ∷ a ∷ b ∷ c ∷ d ∷ []) = some (v4 a b c d)
read_address (suc zero ∷ bytes) = some (v6 bytes)
read_address other = none

read_write : (a : Address) → read_address (write_address a) ≡ some a
read_write (v4 a b c d) = refl
read_write (v6 bytes) = refl

abbrev is_loopback_v4 : Address → Bool
is_loopback_v4 (v4 a b c d) = a == 127
is_loopback_v4 (v6 bytes) = false

abbrev test_net : Net
test_net = record {
  is_unspecified = λ a. false;
  is_loopback = is_loopback_v4;
  is_multicast = λ a. false;
  from_string = read_address;
  to_string = write_address;
  resolve = λ host port. some (v4 9 9 9 9 ∷ []);
}

abbrev test_host : Bytes
test_host = write_address (v4 8 8 8 8)

resolved : resolve_public_endpoint test_net test_host 8197 1 ≡ found (v4 8 8 8 8)
unfolding resolve_public_endpoint is_public_epose_address is_public_v4
resolved = refl

abbrev test_answer : EndpointResponse
test_answer = record {
  status_ok = true;
  ready = true;
  service_public_key = codes "k";
  descriptor_hash = codes "d";
  telemetry_available = true;
  telemetry_version = 1;
  software_version = codes "7.0";
  tip_height = 12;
  tip_hash = replicate 64 b'a';
  synchronized = true;
}

abbrev test_call : Bytes → Bytes → Option EndpointResponse
test_call host descriptor = some test_answer

test_reported :
    (fetch_epose_remote_telemetry test_net test_call test_host 8197 1
      (codes "d")
      (codes "k")
      7).state
    ≡ reported
unfolding fetch_epose_remote_telemetry resolve_public_endpoint is_public_epose_address is_public_v4
    take_answer valid_epose_software_version is_lower_hex_telemetry_hash all_of same
test_reported = refl

fetch-reported_example :
    (a : Address) × (r : EndpointResponse) × (is_public_epose_address test_net a ≡ true)
    × (test_call (authority test_net a 8197) (codes "d") ≡ some r)
    × IsAnswer test_net read_write
        (codes "d")
        (codes "k")
        r
        (fetch_epose_remote_telemetry test_net test_call test_host 8197 1 (codes "d") (codes "k") 7)
fetch-reported_example =
    fetch-reported test_net read_write test_call test_host 8197 1 (codes "d") (codes "k") 7
      test_reported

is_public_v4_iff_example :
    (is_public_v4 192 168 1 ≡ true) ↔ ¬ LiesInOne (number_v4 192 168 1 9) special_blocks
is_public_v4_iff_example =
    is_public_v4_iff 192 168 1 9 (omega arith) (omega arith) (omega arith) (omega arith)

is_public_v6_iff_example : (is_public_v6 (0x20 ∷ 0x01 ∷ 0x0d ∷ 0xb8 ∷ replicate 12 0) ≡ true) ↔ (
    (0x20 ≤ 0x20)
    × (0x20 < 0x40)
    × ¬ (
        (◌≡◌ {A = ℕ} 0x20 0x20)
        × (◌≡◌ {A = ℕ} 0x01 0x01)
        × (◌≡◌ {A = ℕ} 0x0d 0x0d)
        × (◌≡◌ {A = ℕ} 0xb8 0xb8)))
is_public_v6_iff_example = is_public_v6_iff 0x20 0x01 0x0d 0xb8 (replicate 12 0) (omega arith)

valid_epose_dns_name_iff_example :
    (valid_epose_dns_name (codes "node.example") ≡ true) ↔ IsHostName (codes "node.example")
valid_epose_dns_name_iff_example = valid_epose_dns_name_iff (codes "node.example")

abbrev test_tip : Bytes
test_tip = replicate 64 b'a'
