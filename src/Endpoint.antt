-- ===== src/Endpoint.antt =====
-- src/epose_endpoint_view.h and src/epose_snapshot.h: which advertised endpoint is shown, how it
-- is written, and when two readings of the node are about one chain.
use explorer_qwertycoin_org.Base.{
  ◌⊎◌, ℕ, ltb, leb, ◌==◌, if◌then◌else◌, ◌≡◌, ◌≢◌, ◌↔◌, arith, Bool, true, ◌&&◌, ◌||◌, not, Bytes,
  codes, same, same_iff, is_empty, ◌++◌, [], ◌∷◌, length,
}
use explorer_qwertycoin_org.Decimal.{to_text}

unfoldable pub epose_endpoint_transport_name : ℕ → Bytes
epose_endpoint_transport_name transport =
    if transport == 1
    then codes "tcp_ipv4"
    else if transport == 2
    then codes "tcp_ipv6"
    else if transport == 3
    then codes "dns"
    else codes "unknown"

-- The arguments of valid_epose_advertised_endpoint.
pub record Advertised : Type 0 where
  pub ready : Bool
  pub descriptor_hash : Bytes
  pub expected_descriptor_hash : Bytes
  pub service_public_key : Bytes
  pub expected_service_public_key : Bytes
  pub host : Bytes
  pub port : ℕ
  pub transport : ℕ

unfoldable pub valid_epose_advertised_endpoint : Advertised → Bool
valid_epose_advertised_endpoint a =
    a.ready
    && not (is_empty a.expected_descriptor_hash)
    && same a.descriptor_hash a.expected_descriptor_hash
    && not (is_empty a.expected_service_public_key)
    && same a.service_public_key a.expected_service_public_key
    && not (is_empty a.host)
    && ltb 0 a.port
    && leb a.port 65535
    && leb 1 a.transport
    && leb a.transport 3

unfoldable pub format_epose_endpoint_authority : Bytes → ℕ → ℕ → Bytes
format_epose_endpoint_authority host port transport =
    if is_empty host || port == 0 || ltb 65535 port
    then []
    else if transport == 2
    then codes "[" ++ host ++ codes "]:" ++ to_text port
    else host ++ codes ":" ++ to_text port

pub record ChainAnchor : Type 0 where
  pub block_count : ℕ
  pub tip_hash : Bytes

unfoldable pub valid_epose_chain_anchor : ChainAnchor → Bool
valid_epose_chain_anchor a = ltb 0 a.block_count && length a.tip_hash == 64

unfoldable pub same_epose_chain_anchor : ChainAnchor → ChainAnchor → Bool
same_epose_chain_anchor l r =
    valid_epose_chain_anchor l
    && valid_epose_chain_anchor r
    && l.block_count == r.block_count
    && same l.tip_hash r.tip_hash

unfoldable pub epose_reward_matches_anchor : ChainAnchor → ℕ → Bool
epose_reward_matches_anchor a reward_height =
    valid_epose_chain_anchor a && reward_height == a.block_count

is_empty_iff : (s : Bytes) → (is_empty s ≡ true) ↔ (s ≡ [])
is_empty_iff [] = ground arith
is_empty_iff (x ∷ xs) = ground arith

-- An endpoint that is accepted is ready, is about the descriptor and the service key that were
-- asked for, neither of them empty, and is written as `[host]:port` for the transport that is
-- called "tcp_ipv6" and as `host:port` for those called "tcp_ipv4" and "dns".
pub advertised_lem :
    (a : Advertised)
    → valid_epose_advertised_endpoint a ≡ true
    → let shown = format_epose_endpoint_authority a.host a.port a.transport in
      let name = epose_endpoint_transport_name a.transport in
      (a.ready ≡ true)
      × (a.descriptor_hash ≡ a.expected_descriptor_hash)
      × (a.descriptor_hash ≢ [])
      × (a.service_public_key ≡ a.expected_service_public_key)
      × (a.service_public_key ≢ [])
      × (((name ≡ codes "tcp_ipv6") × (shown ≡ codes "[" ++ a.host ++ codes "]:" ++ to_text a.port))
          ⊎ (((name ≡ codes "tcp_ipv4") ⊎ (name ≡ codes "dns"))
              × (shown ≡ a.host ++ codes ":" ++ to_text a.port)))
unfolding valid_epose_advertised_endpoint format_epose_endpoint_authority
    epose_endpoint_transport_name
advertised_lem a h = ground (
  arith,
  same_iff a.descriptor_hash a.expected_descriptor_hash,
  same_iff a.service_public_key a.expected_service_public_key,
  is_empty_iff a.expected_descriptor_hash,
  is_empty_iff a.expected_service_public_key,
  is_empty_iff a.host,
)

-- Two anchors are the same exactly if they are equal and valid, and a reward belongs to both of
-- them or to neither.
pub anchor_lem :
    (l r : ChainAnchor)
    → ((same_epose_chain_anchor l r ≡ true) ↔ (
        (valid_epose_chain_anchor l ≡ true)
        × (l.block_count ≡ r.block_count)
        × (l.tip_hash ≡ r.tip_hash)))
      × ((reward_height : ℕ)
          → same_epose_chain_anchor l r ≡ true
          → epose_reward_matches_anchor l reward_height
            ≡ epose_reward_matches_anchor r reward_height)
unfolding same_epose_chain_anchor valid_epose_chain_anchor epose_reward_matches_anchor
anchor_lem l r = (
  ground (arith, same_iff l.tip_hash r.tip_hash),
  λ n h. ground (arith, same_iff l.tip_hash r.tip_hash),
)
