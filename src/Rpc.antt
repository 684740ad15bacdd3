-- ===== src/Rpc.antt =====
-- src/rpccalls.h and src/rpccalls.cpp: the calls of the daemon over one HTTP client that keeps its
-- connection. What a connection attempt and an invocation do is the environment's, given for each
-- attempt; a call runs under the mutex, so nothing else moves the client meanwhile.
pub mod Calls
use explorer_qwertycoin_org.Base.{
  ℕ, zero, suc, Bool, true, false, ◌&&◌, ◌||◌, not, List, [], ◌∷◌, Option, none, some, Bytes, codes,
  same, is_empty, ltb, if◌then◌else◌, length,
}

-- What an invocation leaves: whether it succeeded, whether the client still counts as connected,
-- and the response object, which it may have written to.
pub record Invoked {ℓ} (R : Type ℓ) : Type ℓ where
  pub success : Bool
  pub connected : Bool
  pub res : R

-- One attempt: whether the transport opens when it is opened, and what the invocation does.
pub record Attempt {ℓ} (R : Type ℓ) : Type ℓ where
  pub opens : Bool
  pub invocation : R → Invoked R

-- The client's connection, the number of invocations so far, and the response object.
pub record Call {ℓ} (R : Type ℓ) : Type ℓ where
  pub connected : Bool
  pub sent : ℕ
  pub res : R

pub record Tried {ℓ} (R : Type ℓ) : Type ℓ where
  pub success : Bool
  pub call : Call R

unfoldable pub connect_to_monero_daemon : Bool → Bool → Bool
connect_to_monero_daemon is_connected opens = if is_connected then true else opens

unfoldable pub disconnect {ℓ} : {R : Type ℓ} → Call R → Call R
disconnect c = record c { connected = false }

-- connect_to_monero_daemon() && invocation()
unfoldable pub attempt_once {ℓ} : {R : Type ℓ} → Attempt R → Call R → Tried R
attempt_once a c =
    let i = a.invocation c.res in
    if connect_to_monero_daemon c.connected a.opens
    then record {
      success = i.success;
      call = record { connected = i.connected; sent = suc c.sent; res = i.res };
    }
    else record { success = false; call = c }

-- The loop: the attempts left, the number of this one.
unfoldable pub attempt_loop {ℓ} : {R : Type ℓ} → ℕ → ℕ → (ℕ → Attempt R) → Call R → Tried R
attempt_loop zero k env c = record { success = false; call = c }
attempt_loop (suc n) k env c =
    let t = attempt_once (env k) c in
    let rest = attempt_loop n (suc k) env (disconnect t.call) in if t.success then t else rest

unfoldable pub invoke_with_reconnect {ℓ} : {R : Type ℓ} → (ℕ → Attempt R) → Bool → Call R → Tried R
invoke_with_reconnect env retry_safe c = attempt_loop (if retry_safe then 2 else 1) 0 env c

-- A response with the status that every one of them carries.
pub record Reply {ℓ} (A : Type ℓ) : Type ℓ where
  pub status : Bytes
  pub result : A

abbrev pub core_rpc_status_ok : Bytes
core_rpc_status_ok = codes "OK"

abbrev pub core_rpc_status_busy : Bytes
core_rpc_status_busy = codes "BUSY"

-- What a method hands to its caller, with the client that it leaves.
pub record Done {ℓ} (A : Type ℓ) : Type ℓ where
  pub answer : Option A
  pub connected : Bool
  pub sent : ℕ

-- A fresh response object before the first attempt.
unfoldable pub begin {ℓ} : {R : Type ℓ} → R → Bool → Call R
begin empty connected = record { connected = connected; sent = 0; res = empty }

unfoldable pub finish {ℓ κ} : {R : Type ℓ} {A : Type κ} → (R → Option A) → Tried R → Done A
finish read t = record {
  answer = if t.success then read t.call.res else none;
  connected = t.call.connected;
  sent = t.call.sent;
}

-- `status != core_rpc_status_ok` returns false.
unfoldable pub if_ok {ℓ} : {A : Type ℓ} → Reply A → Option A
if_ok r = if same r.status core_rpc_status_ok then some r.result else none

-- The methods that build a message and return false if it is not empty.
unfoldable pub error_text : Bytes → Bytes
error_text status =
    if same status core_rpc_status_busy
    then codes "Daemon is busy. Please try again later."
    else if same status core_rpc_status_ok
    then []
    else status

unfoldable pub if_no_error {ℓ} : {A : Type ℓ} → Reply A → Option A
if_no_error r = if is_empty (error_text r.status) then some r.result else none

module _ {ℓ} {A : Type ℓ} (empty : Reply A) (env : ℕ → Attempt (Reply A)) (connected : Bool) where
  unfoldable pub get_network_info : Done A
  get_network_info = finish if_no_error (invoke_with_reconnect env true (begin empty connected))

  unfoldable pub get_hardfork_info : Done A
  get_hardfork_info = finish if_no_error (invoke_with_reconnect env true (begin empty connected))

  unfoldable pub get_dynamic_per_kb_fee_estimate : Done A
  get_dynamic_per_kb_fee_estimate =
      finish if_no_error (invoke_with_reconnect env true (begin empty connected))

  unfoldable pub get_epose_info : Done A
  get_epose_info = finish if_ok (invoke_with_reconnect env true (begin empty connected))

  unfoldable pub get_service_nodes : Done A
  get_service_nodes = finish if_ok (invoke_with_reconnect env true (begin empty connected))

  unfoldable pub get_service_rewards : Done A
  get_service_rewards = finish if_ok (invoke_with_reconnect env true (begin empty connected))

-- The two calls that also ask for a flag of the response: `ready`, `mapping_available`.
pub record Flagged {ℓ} (A : Type ℓ) : Type ℓ where
  pub flag : Bool
  pub body : A

unfoldable pub if_ok_and_flag {ℓ} : {A : Type ℓ} → Reply (Flagged A) → Option (Flagged A)
if_ok_and_flag r = if same r.status core_rpc_status_ok && r.result.flag then some r.result else none

module _ {ℓ} {A : Type ℓ} (empty : Reply (Flagged A)) (env : ℕ → Attempt (Reply (Flagged A)))
    (connected : Bool) where
  unfoldable pub get_epose_service_endpoint_v2 : Done (Flagged A)
  get_epose_service_endpoint_v2 =
      finish if_ok_and_flag (invoke_with_reconnect env true (begin empty connected))

  unfoldable pub get_epose_block_reward : Done (Flagged A)
  get_epose_block_reward =
      finish if_ok_and_flag (invoke_with_reconnect env true (begin empty connected))

-- get_alt_blocks opens the connection once before the calls, and returns false where it stays shut;
-- its message for a status that is not OK is never empty.
unfoldable pub get_alt_blocks {ℓ} :
    {A : Type ℓ} → Reply A → (ℕ → Attempt (Reply A)) → Bool → Bool → Done A
get_alt_blocks empty env connected opens =
    if connect_to_monero_daemon connected opens
    then finish if_ok (invoke_with_reconnect env true (begin empty true))
    else record { answer = none; connected = connected; sent = 0 }

unfoldable pub read_block {ℓ} :
    {B : Type ℓ} → (Bytes → Option Bytes) → (Bytes → Option B) → Option Bytes → Option B
read_block unhex parse none = none
read_block unhex parse (some blob) = elim (unhex blob) [ none ↦ none | some binary ↦ parse binary ]

-- get_block: the blob of the reply through the two parsers, which are epee's and the node's.
unfoldable pub get_block {ℓ} :
    {B : Type ℓ}
    → (parse_hexstr_to_binbuff : Bytes → Option Bytes)
    → (parse_and_validate_block_from_blob : Bytes → Option B) → Reply Bytes
    → (ℕ → Attempt (Reply Bytes))
    → Bool
    → Done B
get_block unhex parse empty env connected =
    finish (λ r. read_block unhex parse (if_no_error r))
      (invoke_with_reconnect env true (begin empty connected))

-- get_current_height answers 0 on a failure, whatever the status.
unfoldable pub get_current_height : Reply ℕ → (ℕ → Attempt (Reply ℕ)) → Bool → ℕ
get_current_height empty env connected =
    let t = invoke_with_reconnect env true (begin empty connected) in
    if t.success then t.call.res.result else 0

-- get_base_fee_estimate: the return value, and the fee that is written in either case.
unfoldable pub get_base_fee_estimate : Reply ℕ → (ℕ → Attempt (Reply ℕ)) → Bool → Bool × ℕ
get_base_fee_estimate empty env connected =
    let t = invoke_with_reconnect env true (begin empty connected) in (t.success, t.call.res.result)

-- A pending transaction of the pool, by its time of arrival.
pub record TxInfo : Type 0 where
  pub receive_time : ℕ
  pub id_hash : Bytes
  pub blob_size : ℕ
  pub tx_blob : Bytes

-- std::sort by descending arrival; where times are equal, std::sort may order either way.
unfoldable pub insert_tx : TxInfo → List TxInfo → List TxInfo
insert_tx t [] = t ∷ []
insert_tx t (u ∷ us) =
    let rest = insert_tx t us in if ltb t.receive_time u.receive_time then u ∷ rest else t ∷ u ∷ us

unfoldable pub sort_txs : List TxInfo → List TxInfo
sort_txs [] = []
sort_txs (t ∷ ts) = insert_tx t (sort_txs ts)

unfoldable pub sorted_txs : Option (List TxInfo) → Option (List TxInfo)
sorted_txs none = none
sorted_txs (some ts) = some (sort_txs ts)

unfoldable pub get_mempool :
    Reply (List TxInfo) → (ℕ → Attempt (Reply (List TxInfo))) → Bool → Done (List TxInfo)
get_mempool empty env connected =
    finish (λ r. sorted_txs (if_ok r)) (invoke_with_reconnect env true (begin empty connected))

-- commit_tx: `none` is true, `some` the error message of false. The reply's result is the reason.
pub record Submitted : Type 0 where
  pub error : Option Bytes
  pub connected : Bool
  pub sent : ℕ

unfoldable pub commit_tx : Reply Bytes → (ℕ → Attempt (Reply Bytes)) → Bool → Submitted
commit_tx empty env connected =
    let t = invoke_with_reconnect env false (begin empty connected) in
    record {
      error =
          if not t.success || same t.call.res.status (codes "Failed")
          then some t.call.res.result
          else none;
      connected = t.call.connected;
      sent = t.call.sent;
    }

-- proxy_wallet_request: the pointer to the upstream response is the response object.
pub record HttpResponse : Type 0 where
  pub response_code : ℕ
  pub body : Bytes
  pub mime_type : Bytes

unfoldable pub accept_upstream : Bytes → ℕ → Option HttpResponse → Option HttpResponse
accept_upstream content_type maximum none = none
accept_upstream content_type maximum (some u) =
    if ltb maximum (length u.body)
    then none
    else some (record u { mime_type = if is_empty u.mime_type then content_type else u.mime_type })

unfoldable pub proxy_wallet_request :
    Bytes → Bool → ℕ → (ℕ → Attempt (Option HttpResponse)) → Bool → Done HttpResponse
proxy_wallet_request content_type retry_safe maximum env connected =
    finish (accept_upstream content_type maximum)
      (invoke_with_reconnect env retry_safe (begin none connected))
