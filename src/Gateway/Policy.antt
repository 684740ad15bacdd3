-- ===== src/Gateway/Policy.antt =====
-- src/wallet_rpc_policy.h: the paths that are passed on, those that may be retried, and the methods
-- that a JSON-RPC envelope may name.
use explorer_qwertycoin_org.Base.{
  Bool, true, false, ◌&&◌, ◌||◌, not, List, [], ◌∷◌, Option, none, some, Bytes, codes, same,
  same_iff, if◌then◌else◌, ◌≡◌, ◌↔◌, ◌⊎◌, arith,
}

pub data PolicyResult : Type 0 where
  allowed : PolicyResult
  malformed : PolicyResult
  forbidden : PolicyResult

-- count of a std::set<std::string>, as a test.
unfoldable pub holds : List Bytes → Bytes → Bool
holds [] s = false
holds (t ∷ ts) s = same s t || holds ts s

abbrev pub submission_paths : List Bytes
submission_paths =
    codes "/send_raw_transaction" ∷ codes "/submit_raw_tx" ∷ codes "/sendrawtransaction" ∷ []

abbrev pub reading_paths : List Bytes
reading_paths =
    codes "/json_rpc"
    ∷ codes "/getblocks.bin"
    ∷ codes "/getblocks_by_height.bin"
    ∷ codes "/gethashes.bin"
    ∷ codes "/get_o_indexes.bin"
    ∷ codes "/get_output_distribution.bin"
    ∷ codes "/get_outs"
    ∷ codes "/get_outs.bin"
    ∷ codes "/get_transactions"
    ∷ codes "/gettransactions"
    ∷ codes "/get_transaction_pool_hashes.bin"
    ∷ codes "/is_key_image_spent"
    ∷ []

-- The set lists the reading paths and then the submission paths.
unfoldable pub wallet_rpc_path_allowed : Bytes → Bool
wallet_rpc_path_allowed path = holds reading_paths path || holds submission_paths path

unfoldable pub wallet_rpc_path_retry_safe : Bytes → Bool
wallet_rpc_path_retry_safe path = wallet_rpc_path_allowed path && not (holds submission_paths path)

-- A parsed JSON text, as far as it is looked at: an object by its members, each a text or not.
pub data Member : Type 0 where
  text : Bytes → Member
  not_text : Member

pub data Payload : Type 0 where
  object : (Bytes → Option Member) → Payload
  not_object : Payload

unfoldable pub methods : List Bytes
methods =
    codes "get_info"
    ∷ codes "get_version"
    ∷ codes "get_block_count"
    ∷ codes "get_fee_estimate"
    ∷ codes "get_last_block_header"
    ∷ codes "get_block_header_by_height"
    ∷ codes "getblockheaderbyheight"
    ∷ codes "get_block_headers_range"
    ∷ codes "getblockheadersrange"
    ∷ codes "hard_fork_info"
    ∷ codes "get_output_histogram"
    ∷ codes "get_transactions"
    ∷ []

-- `payload.value("jsonrpc", {}) != "2.0"`; a member that is no text throws.
abbrev pub is_version_2 : Option Member → Bool
is_version_2 none = false
is_version_2 (some not_text) = false
is_version_2 (some (text v)) = same v (codes "2.0")

abbrev pub is_present : Option Member → Bool
is_present none = false
is_present (some m) = true

-- The method of the envelope: the verdict, and the text that is left in `method`.
abbrev pub by_method : Option Member → PolicyResult × Bytes
by_method none = (malformed, [])
by_method (some not_text) = (malformed, [])
by_method (some (text m)) = (if holds methods m then allowed else forbidden, m)

abbrev pub by_payload : Option Payload → PolicyResult × Bytes
by_payload none = (malformed, [])
by_payload (some not_object) = (malformed, [])
by_payload (some (object member)) =
    if is_version_2 (member (codes "jsonrpc")) && is_present (member (codes "id"))
    then by_method (member (codes "method"))
    else (malformed, [])

-- `parse` is nlohmann's parser; `none` where it throws.
unfoldable pub authorize_wallet_json_rpc : (Bytes → Option Payload) → Bytes → PolicyResult × Bytes
authorize_wallet_json_rpc parse body = by_payload (parse body)

-- The member of a parsed object, nothing for any other payload.
abbrev pub member_of : Option Payload → Bytes → Option Member
member_of none key = none
member_of (some not_object) key = none
member_of (some (object member)) key = member key

unfoldable pub IsListed : List Bytes → Bytes → Type 0
IsListed [] s = ⊥
IsListed (t ∷ ts) s = (s ≡ t) ⊎ IsListed ts s

pub holds_iff : (ts : List Bytes) (s : Bytes) → (holds ts s ≡ true) ↔ IsListed ts s
unfolding holds IsListed
holds_iff [] s = ground arith
holds_iff (t ∷ ts) s = ground (arith, same_iff s t, holds_iff ts s)

by_method_iff :
    (method : Option Member) (m : Bytes)
    → (by_method method ≡ (allowed, m)) ↔ ((method ≡ some (text m)) × IsListed methods m)
by_method_iff none m = ground arith
by_method_iff (some not_text) m = ground arith
by_method_iff (some (text t)) m = ground (arith, holds_iff methods t)

is_version_2_iff : (v : Option Member) → (is_version_2 v ≡ true) ↔ (v ≡ some (text (codes "2.0")))
is_version_2_iff none = ground arith
is_version_2_iff (some not_text) = ground arith
is_version_2_iff (some (text v)) = ground (arith, same_iff v (codes "2.0"))

by_members_iff :
    (version id method : Option Member) (m : Bytes)
    → ((if is_version_2 version && is_present id then by_method method else (malformed, []))
        ≡ (allowed, m))
      ↔ ((version ≡ some (text (codes "2.0")))
          × (is_present id ≡ true)
          × (method ≡ some (text m))
          × IsListed methods m)
by_members_iff version id method m =
    ground (arith, is_version_2_iff version, by_method_iff method m)

-- An envelope is allowed exactly if it is an object whose member "jsonrpc" is the text "2.0", which
-- has a member "id", and whose member "method" is the text of a listed method; that text is then the
-- method.
pub authorize-allowed_iff :
    (parse : Bytes → Option Payload) (body m : Bytes)
    → (authorize_wallet_json_rpc parse body ≡ (allowed, m)) ↔ (
        (member_of (parse body) (codes "jsonrpc") ≡ some (text (codes "2.0")))
        × (is_present (member_of (parse body) (codes "id")) ≡ true)
        × (member_of (parse body) (codes "method") ≡ some (text m))
        × IsListed methods m)
unfolding authorize_wallet_json_rpc
authorize-allowed_iff parse body m = by_payload_iff (parse body)
  where
    by_payload_iff :
        (p : Option Payload)
        → (by_payload p ≡ (allowed, m)) ↔ (
            (member_of p (codes "jsonrpc") ≡ some (text (codes "2.0")))
            × (is_present (member_of p (codes "id")) ≡ true)
            × (member_of p (codes "method") ≡ some (text m))
            × IsListed methods m)
    by_payload_iff none = ground arith
    by_payload_iff (some not_object) = ground arith
    by_payload_iff (some (object member)) =
        by_members_iff (member (codes "jsonrpc")) (member (codes "id")) (member (codes "method")) m
