-- ===== src/Gateway.antt =====
-- src/wallet_rpc_policy.h and the wallet_rpc_handler of main.cpp: which requests of a wallet are
-- passed on to the daemon, and what the others are answered.
pub mod Policy
pub mod Cors
pub mod Inflight
pub mod Forwarding
use explorer_qwertycoin_org.Base.{
  ℕ, ◌+◌, ◌-◌, ◌*◌, ◌%◌, ◌^◌, Bool, ◌&&◌, ◌||◌, not, [], ◌++◌, Option, none, some, Bytes, codes,
  same, ltb, leb, if◌then◌else◌, length, drop,
}
use explorer_qwertycoin_org.Rpc.{Attempt, HttpResponse, Done, proxy_wallet_request}
use explorer_qwertycoin_org.Gateway.Policy.{
  Payload, PolicyResult, allowed, malformed, forbidden, wallet_rpc_path_allowed,
  wallet_rpc_path_retry_safe, authorize_wallet_json_rpc,
}

-- The request, less its headers: whether it is an OPTIONS request, the path behind the route's
-- prefix, and the body.
pub record Request : Type 0 where
  pub options : Bool
  pub requested_path : Bytes
  pub body : Bytes

pub record Response : Type 0 where
  pub code : ℕ
  pub body : Bytes

-- What the handler leaves: its response, the in-flight counter and the next slot of the pool, the
-- connection of the client that was used, and how often it invoked the daemon.
pub record Handled : Type 0 where
  pub response : Response
  pub inflight : ℕ
  pub next_slot : ℕ
  pub sent : ℕ

abbrev pub maximum_inflight : ℕ
maximum_inflight = 16

-- fetch_add(1) and fetch_sub(1) of an atomic unsigned.
abbrev pub fetch_add : ℕ → ℕ
fetch_add n = (n + 1) % 2 ^ 32

abbrev pub fetch_sub : ℕ → ℕ
fetch_sub n = (n + 2 ^ 32 - 1) % 2 ^ 32

unfoldable pub is_binary : Bytes → Bool
is_binary path = leb 4 (length path) && same (drop (length path - 4) path) (codes ".bin")

unfoldable pub maximum_request : Bytes → ℕ
maximum_request path = if is_binary path then 2 * 1024 * 1024 else 256 * 1024

unfoldable pub is_retry_safe : Bytes → Bool
is_retry_safe path = same path (codes "/json_rpc") || wallet_rpc_path_retry_safe path

abbrev pub answer : ℕ → ℕ → ℕ → Bytes → Handled
answer inflight next_slot code body = record {
  response = record { code = code; body = body };
  inflight = inflight;
  next_slot = next_slot;
  sent = 0;
}

-- The response that is made of what the daemon answered.
abbrev pub relay : ℕ → ℕ → Done HttpResponse → Handled
relay inflight next_slot d = record {
  response = elim d.answer [
    | none ↦ record { code = 502; body = codes "{\"error\":\"Restricted QWC node unavailable\"}" }
    | some upstream ↦ record { code = upstream.response_code; body = upstream.body }
  ];
  inflight = inflight;
  next_slot = next_slot;
  sent = d.sent;
}

abbrev pub maximum_response : ℕ
maximum_response = 12 * 1024 * 1024

module _ (parse : Bytes → Option Payload) (pool : ℕ → ℕ → Attempt (Option HttpResponse))
    (connected : ℕ → Bool) where
  -- From the in-flight counter on. `pool` and `connected` give the client of each slot; the guard
  -- takes the counter back when the handler returns.
  unfoldable pub forward : Bytes → Bytes → ℕ → ℕ → Handled
  forward path body inflight next_slot =
      if leb maximum_inflight inflight
      then answer (fetch_sub (fetch_add inflight)) next_slot 429
          (codes "{\"error\":\"Wallet RPC gateway busy\"}")
      else relay (fetch_sub (fetch_add inflight)) (fetch_add next_slot) (
          proxy_wallet_request
            (if is_binary path then codes "application/octet-stream" else codes "application/json")
            (is_retry_safe path) maximum_response (pool (next_slot % 4))
            (connected (next_slot % 4)))

  abbrev pub by_policy : Bytes → Bytes → ℕ → ℕ → PolicyResult → Handled
  by_policy path body inflight next_slot allowed = forward path body inflight next_slot
  by_policy path body inflight next_slot malformed = answer inflight next_slot 400 (
      codes
        "{\"error\":\"Malformed JSON-RPC envelope; batches and notifications are not accepted\"}")
  by_policy path body inflight next_slot forbidden =
      answer inflight next_slot 403 (codes "{\"error\":\"JSON-RPC method not allowed\"}")

  unfoldable pub wallet_rpc_handler : Request → ℕ → ℕ → Handled
  wallet_rpc_handler req inflight next_slot =
      let path = codes "/" ++ req.requested_path in
      if req.options
      then answer inflight next_slot 204 []
      else if not (wallet_rpc_path_allowed path)
      then answer inflight next_slot 403 (codes "{\"error\":\"RPC path not allowed\"}")
      else if ltb (maximum_request path) (length req.body)
      then answer inflight next_slot 413 (codes "{\"error\":\"RPC request too large\"}")
      else if same path (codes "/json_rpc")
      then by_policy path req.body inflight next_slot (authorize_wallet_json_rpc parse req.body).0
      else forward path req.body inflight next_slot
