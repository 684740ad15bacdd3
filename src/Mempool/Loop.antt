-- ===== src/Mempool/Loop.antt =====
-- src/MempoolStatus.cpp: the rounds of the thread that reads the network info and the pool.
use explorer_qwertycoin_org.Base.{
  ℕ, ◌/◌, ◌%◌, max, Bool, true, false, List, [], ◌∷◌, Option, Bytes, ◌==◌, if◌then◌else◌, add64,
}
use explorer_qwertycoin_org.Rpc.{TxInfo}
use explorer_qwertycoin_org.Transaction.{Transaction}
use explorer_qwertycoin_org.Mempool.{MempoolStatus, read_mempool}
use explorer_qwertycoin_org.Mempool.Network.{Answers, read_network_info}

-- The thread's own loop index beside the static members.
pub record StatusThread : Type 0 where
  pub loop_index : ℕ
  pub status : MempoolStatus

-- What a round of the loop meets: the daemon's answers, the pool and the clock.
pub record Round : Type 0 where
  pub answers : Answers
  pub pool : Option (List TxInfo)
  pub now : ℕ

unfoldable pub loop_index_divider : ℕ → ℕ
loop_index_divider mempool_refresh_time = max 1 (60 / max 1 mempool_refresh_time)

-- After read_network_info: a failure keeps the last info as no longer current, a success starts the
-- count again.
abbrev pub after_network_info : ℕ → Bool × MempoolStatus → StatusThread
after_network_info index (false, s) = record {
  loop_index = index;
  status = record s { current_network_info = record s.current_network_info { current = false } };
}
after_network_info index (true, s) = record { loop_index = 0; status = s }

unfoldable pub query_network : ℕ → Round → StatusThread → StatusThread
query_network divider r t =
    if t.loop_index % divider == 0
    then after_network_info t.loop_index (read_network_info true r.answers r.now t.status)
    else t

-- One round of the loop; the client of the daemon was made before the thread was started.
unfoldable pub status_round :
    (Bytes → Option (Transaction × Bytes)) → ℕ → Round → StatusThread → StatusThread
status_round parse mempool_refresh_time r t =
    let queried = query_network (loop_index_divider mempool_refresh_time) r t in
    record {
      loop_index = add64 queried.loop_index 1;
      status = (read_mempool parse r.pool r.now queried.status).1;
    }

unfoldable pub status_rounds :
    (Bytes → Option (Transaction × Bytes)) → ℕ → List Round → StatusThread → StatusThread
status_rounds parse mempool_refresh_time [] t = t
status_rounds parse mempool_refresh_time (r ∷ rs) t =
    status_rounds parse mempool_refresh_time rs (status_round parse mempool_refresh_time r t)
