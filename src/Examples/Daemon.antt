-- ===== src/Examples/Daemon.antt =====
-- Calls of a daemon whose first answer is lost, the emission of a short chain, and an endpoint.
use explorer_qwertycoin_org.Base.{
  ℕ, zero, suc, ◌≡◌, ◌≤◌, ◌<◌, ◌+◌, refl, true, false, List, [], ◌∷◌, some, Bytes, arith, codes,
  if◌then◌else◌, same,
}
use explorer_qwertycoin_org.Rpc.{
  Attempt, Reply, begin, invoke_with_reconnect, get_mempool, TxInfo, attempt_loop, attempt_once,
  connect_to_monero_daemon, disconnect, finish, if_ok, sorted_txs, sort_txs, insert_tx,
}
use explorer_qwertycoin_org.Rpc.Calls.{invoke_with_reconnect_lem}
use explorer_qwertycoin_org.Emission.{Emission, BlockAnswer, get_emission}
use explorer_qwertycoin_org.Emission.Totals.{IsTotal, get_emission-IsTotal}
use explorer_qwertycoin_org.Endpoint.{Advertised, valid_epose_advertised_endpoint}

abbrev no_text : Reply Bytes
no_text = record { status = []; result = [] }

-- The first attempt meets a reset socket, the others an answer.
abbrev flaky : Reply Bytes → ℕ → Attempt (Reply Bytes)
flaky answer zero = record {
  opens = true;
  invocation = λ r. record { success = false; connected = true; res = r };
}
flaky answer (suc n) = record {
  opens = true;
  invocation = λ r. record { success = true; connected = true; res = answer };
}

abbrev test_reply : Reply Bytes
test_reply = record { status = codes "OK"; result = codes "info" }

invoke_with_reconnect_lem_example :
    let t = invoke_with_reconnect (flaky test_reply) true (begin no_text true) in
    (t.call.sent ≤ (begin no_text true).sent + (if true then 2 else 1))
    × (t.success ≡ false → t.call.connected ≡ false)
    × (t.success ≡ true → (begin no_text true).sent < t.call.sent)
invoke_with_reconnect_lem_example =
    invoke_with_reconnect_lem (flaky test_reply) true (begin no_text true)

abbrev early : TxInfo
early = record { receive_time = 3; id_hash = codes "e"; blob_size = 700; tx_blob = [] }

abbrev late : TxInfo
late = record { receive_time = 8; id_hash = codes "l"; blob_size = 900; tx_blob = [] }

abbrev no_pool : Reply (List TxInfo)
no_pool = record { status = []; result = [] }

abbrev pool_answers : ℕ → Attempt (Reply (List TxInfo))
pool_answers n = record {
  opens = true;
  invocation = λ r. record {
    success = true;
    connected = true;
    res = record { status = codes "OK"; result = early ∷ late ∷ [] };
  };
}

pool_read : (get_mempool no_pool pool_answers false).answer ≡ some (late ∷ early ∷ [])
unfolding get_mempool finish if_ok sorted_txs sort_txs insert_tx invoke_with_reconnect attempt_loop
    attempt_once connect_to_monero_daemon disconnect begin same
pool_read = refl

abbrev pub test_chain : ℕ → BlockAnswer
test_chain n = record { miner_outputs = 100; fees = n ∷ [] }

abbrev pub nothing_yet : Emission
nothing_yet = record { coinbase = 0; fee = 0; blk_no = 0 }

get_emission-IsTotal_example :
    let e = get_emission test_chain 2 nothing_yet in
    IsTotal test_chain e × (2 ≤ 0 + 3 → e.blk_no ≡ 2)
get_emission-IsTotal_example =
    get_emission-IsTotal test_chain 2 nothing_yet (omega arith) (omega arith) (omega arith)

abbrev test_endpoint : Advertised
test_endpoint = record {
  ready = true;
  descriptor_hash = codes "d";
  expected_descriptor_hash = codes "d";
  service_public_key = codes "k";
  expected_service_public_key = codes "k";
  host = codes "2001:db8::1";
  port = 8197;
  transport = 2;
}

endpoint_valid : valid_epose_advertised_endpoint test_endpoint ≡ true
unfolding valid_epose_advertised_endpoint same
endpoint_valid = refl
