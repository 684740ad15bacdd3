-- ===== src/Examples/Gateways.antt =====
-- The wallet gateway at concrete requests.
use explorer_qwertycoin_org.Base.{
  ℕ, ◌≤◌, ◌<◌, Bool, true, false, [], ◌∷◌, ◌++◌, Option, none, some, Bytes, codes, same, ◌≡◌, ◌↔◌,
  ◌⊎◌, refl, if◌then◌else◌, length, arith,
}
use explorer_qwertycoin_org.Rpc.{Attempt, HttpResponse}
use explorer_qwertycoin_org.Gateway.{Request, wallet_rpc_handler, maximum_inflight, fetch_add}
use explorer_qwertycoin_org.Gateway.Policy.{
  Payload, object, Member, text, not_text, allowed, authorize_wallet_json_rpc,
  authorize-allowed_iff, member_of, is_present, IsListed, methods,
}
use explorer_qwertycoin_org.Gateway.Cors.{
  is_allowed_origin, is_allowed_origin_sound, starts_with, find, is_found_at,
}
use explorer_qwertycoin_org.Gateway.Inflight.{
  System, admit, enter, arrivals, Reach, start, later, total, is_forwarding, is_counted,
  Reach-inflight,
}
use explorer_qwertycoin_org.Gateway.Forwarding.{IsGuarded, wallet_rpc_handler-sent}

-- The parse of {"jsonrpc": "2.0", "id": 1, "method": "get_info"}.
abbrev info_members : Bytes → Option Member
info_members key =
    if same key (codes "jsonrpc")
    then some (text (codes "2.0"))
    else if same key (codes "id")
    then some not_text
    else if same key (codes "method")
    then some (text (codes "get_info"))
    else none

abbrev parse_info : Bytes → Option Payload
parse_info body = some (object info_members)

authorize-allowed_iff_example :
    (authorize_wallet_json_rpc parse_info [] ≡ (allowed, codes "get_info")) ↔ (
      (member_of (parse_info []) (codes "jsonrpc") ≡ some (text (codes "2.0")))
      × (is_present (member_of (parse_info []) (codes "id")) ≡ true)
      × (member_of (parse_info []) (codes "method") ≡ some (text (codes "get_info")))
      × IsListed methods (codes "get_info"))
authorize-allowed_iff_example = authorize-allowed_iff parse_info [] (codes "get_info")

preview_allowed : is_allowed_origin (codes "https://preview.pages.dev") ≡ true
unfolding is_allowed_origin starts_with find is_found_at same
preview_allowed = refl

is_allowed_origin_sound_example :
    (codes "https://preview.pages.dev" ≡ codes "https://wallet.qwertycoin.org")
    ⊎ ((name : Bytes) × (0 < length name)
        × (codes "https://" ++ (name ++ codes ".pages.dev") ≡ codes "https://preview.pages.dev"))
is_allowed_origin_sound_example =
    is_allowed_origin_sound (codes "https://preview.pages.dev") preview_allowed

abbrev one_entered : System
one_entered = record { inflight = fetch_add 0; stages = admit 0 ∷ [] }

entered : Reach 1 one_entered
unfolding arrivals
entered = later start (enter 0 [] [])

Reach-inflight_example :
    (one_entered.inflight ≡ total is_counted one_entered.stages)
    × (total is_forwarding one_entered.stages ≤ maximum_inflight)
Reach-inflight_example = Reach-inflight 1 one_entered (omega arith) entered

abbrev info_request : Request
info_request = record { options = false; requested_path = codes "json_rpc"; body = codes "{}" }

abbrev answering : ℕ → ℕ → Attempt (Option HttpResponse)
answering slot n = record {
  opens = true;
  invocation = λ r. record {
    success = true;
    connected = true;
    res = some (record { response_code = 200; body = codes "{}"; mime_type = [] });
  };
}

abbrev never_connected : ℕ → Bool
never_connected slot = false

wallet_rpc_handler-sent_example :
    IsGuarded parse_info info_request 3 0
      (wallet_rpc_handler parse_info answering never_connected info_request 3 0)
wallet_rpc_handler-sent_example =
    wallet_rpc_handler-sent parse_info info_request 3 0 answering never_connected
