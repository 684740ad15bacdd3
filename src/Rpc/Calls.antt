-- ===== src/Rpc/Calls.antt =====
-- How often a call of src/rpccalls.cpp reaches the daemon, and what it hands on.
use explorer_qwertycoin_org.Base.{
  ℕ, zero, suc, ◌+◌, ◌≤◌, ◌<◌, Bool, true, false, List, [], ◌∷◌, some, Bytes, is_empty, ltb,
  if◌then◌else◌, ◌≡◌, refl, arith, ◌⊎◌, inl, inr, if-elim, All, same_iff, subst, sym, ◌∙◌, ◌↔◌,
}
use mathlib.Core.List.{Permᴰ}
use explorer_qwertycoin_org.Rpc.{
  Attempt, Call, Tried, disconnect, attempt_once, attempt_loop, invoke_with_reconnect, Reply, begin,
  finish, if_ok, if_no_error, error_text, TxInfo, insert_tx, sort_txs, sorted_txs, get_mempool,
  get_network_info, get_epose_info, core_rpc_status_ok, core_rpc_status_busy,
}

module _ {ℓ} {R : Type ℓ} (env : ℕ → Attempt R) where
  attempt_loop-sent :
      (n k : ℕ) (c : Call R)
      → (c.sent ≤ (attempt_loop n k env c).call.sent)
        × ((attempt_loop n k env c).call.sent ≤ c.sent + n)
  unfolding attempt_loop attempt_once disconnect
  attempt_loop-sent zero k c = (omega arith, omega arith)
  attempt_loop-sent (suc n) k c =
      ground (arith, attempt_loop-sent n (suc k) (disconnect (attempt_once (env k) c).call))

  attempt_loop-failed :
      (n k : ℕ) (c : Call R)
      → (attempt_loop (suc n) k env c).success ≡ false
      → (attempt_loop (suc n) k env c).call.connected ≡ false
  unfolding attempt_loop attempt_once disconnect
  attempt_loop-failed zero k c h = ground arith
  attempt_loop-failed (suc n) k c h =
      ground (arith, attempt_loop-failed n (suc k) (disconnect (attempt_once (env k) c).call))

module _ {ℓ} {R : Type ℓ} (env : ℕ → Attempt R) where
  attempt_loop-reached :
      (n k : ℕ) (c : Call R)
      → (attempt_loop n k env c).success ≡ true
      → c.sent < (attempt_loop n k env c).call.sent
  unfolding attempt_loop attempt_once disconnect
  attempt_loop-reached zero k c h = ground arith
  attempt_loop-reached (suc n) k c h =
      ground (arith, attempt_loop-reached n (suc k) (disconnect (attempt_once (env k) c).call))

-- A call invokes the daemon at most twice where it is safe to retry and at most once where it is
-- not; a call that fails leaves the transport disconnected; and one that succeeds has invoked the
-- daemon.
pub invoke_with_reconnect_lem {ℓ} :
    {R : Type ℓ} (env : ℕ → Attempt R) (retry_safe : Bool) (c : Call R)
    → let t = invoke_with_reconnect env retry_safe c in
      (t.call.sent ≤ c.sent + (if retry_safe then 2 else 1))
      × (t.success ≡ false → t.call.connected ≡ false)
      × (t.success ≡ true → c.sent < t.call.sent)
unfolding invoke_with_reconnect
invoke_with_reconnect_lem env true c =
    ((attempt_loop-sent env 2 0 c).1, attempt_loop-failed env 1 0 c, attempt_loop-reached env 2 0 c)
invoke_with_reconnect_lem env false c =
    ((attempt_loop-sent env 1 0 c).1, attempt_loop-failed env 0 0 c, attempt_loop-reached env 1 0 c)

is_empty_iff : (s : Bytes) → (is_empty s ≡ true) ↔ (s ≡ [])
is_empty_iff [] = ground arith
is_empty_iff (x ∷ xs) = ground arith

busy_ne :
    (status : Bytes)
    → status ≡ core_rpc_status_busy
    → ¬ ((status ≡ core_rpc_status_ok) ⊎ (status ≡ []))
busy_ne status h (inl k) = ground (arith, sym h ∙ k)
busy_ne status h (inr k) = ground (arith, sym h ∙ k)

error_text_lem :
    (status : Bytes)
    → (is_empty (error_text status) ≡ true) ↔ ((status ≡ core_rpc_status_ok) ⊎ (status ≡ []))
unfolding error_text
error_text_lem status = ground (
  arith,
  busy_ne status,
  same_iff status core_rpc_status_busy,
  same_iff status core_rpc_status_ok,
  is_empty_iff status,
)

-- What get_network_info hands on is the reply of a call that succeeded, and its status was "OK" or
-- empty; where the call succeeds with one of these, it is handed on.
pub get_network_info_lem {ℓ} :
    {A : Type ℓ} (empty : Reply A) (env : ℕ → Attempt (Reply A)) (connected : Bool) (a : A)
    → let t = invoke_with_reconnect env true (begin empty connected) in
      ((get_network_info empty env connected).answer ≡ some a) ↔ (
        (t.success ≡ true)
        × ((t.call.res.status ≡ core_rpc_status_ok) ⊎ (t.call.res.status ≡ []))
        × (t.call.res.result ≡ a))
unfolding get_network_info finish if_no_error
get_network_info_lem empty env connected a =
    let t = invoke_with_reconnect env true (begin empty connected) in
    ground (arith, error_text_lem t.call.res.status)

-- What get_epose_info hands on is the reply of a call that succeeded with the status "OK", and
-- where the call succeeds with it, it is handed on.
pub get_epose_info_lem {ℓ} :
    {A : Type ℓ} (empty : Reply A) (env : ℕ → Attempt (Reply A)) (connected : Bool) (a : A)
    → let t = invoke_with_reconnect env true (begin empty connected) in
      ((get_epose_info empty env connected).answer ≡ some a)
      ↔ ((t.success ≡ true) × (t.call.res.status ≡ core_rpc_status_ok) × (t.call.res.result ≡ a))
unfolding get_epose_info finish if_ok
get_epose_info_lem empty env connected a =
    let t = invoke_with_reconnect env true (begin empty connected) in
    ground (arith, same_iff t.call.res.status core_rpc_status_ok)

abbrev pub Newest : List TxInfo → Type 0
Newest [] = Unit
Newest (t ∷ ts) = All (λ (u : TxInfo). u.receive_time ≤ t.receive_time) ts × Newest ts

All-insert_tx :
    (b : ℕ) (t : TxInfo) (us : List TxInfo)
    → t.receive_time ≤ b
    → All (λ (u : TxInfo). u.receive_time ≤ b) us
    → All (λ (u : TxInfo). u.receive_time ≤ b) (insert_tx t us)
unfolding insert_tx
All-insert_tx b t [] h hs = (h, hs)
All-insert_tx b t (u ∷ us) h hs =
    if-elim (λ l. All (λ (v : TxInfo). v.receive_time ≤ b) l) (ltb t.receive_time u.receive_time)
      (λ _. (hs.0, All-insert_tx b t us h hs.1)) (λ _. (h, hs))

All-le :
    (b c : ℕ) (us : List TxInfo)
    → b ≤ c
    → All (λ (u : TxInfo). u.receive_time ≤ b) us
    → All (λ (u : TxInfo). u.receive_time ≤ c) us
All-le b c [] h hs = hs
All-le b c (u ∷ us) h hs = (omega (arith, hs.0), All-le b c us h hs.1)

insert_tx-Newest : (t : TxInfo) (us : List TxInfo) → Newest us → Newest (insert_tx t us)
unfolding insert_tx
insert_tx-Newest t [] h = (tt, tt)
insert_tx-Newest t (u ∷ us) h =
    if-elim Newest (ltb t.receive_time u.receive_time)
      (λ e. (All-insert_tx u.receive_time t us (ground arith) h.0, insert_tx-Newest t us h.1))
      (λ e. ((ground arith, All-le u.receive_time t.receive_time us (ground arith) h.0), h))

pub sort_txs-Newest : (ts : List TxInfo) → Newest (sort_txs ts)
unfolding sort_txs
sort_txs-Newest [] = tt
sort_txs-Newest (t ∷ ts) = insert_tx-Newest t (sort_txs ts) (sort_txs-Newest ts)

Permᴰ-refl : (ts : List TxInfo) → Permᴰ ts ts
Permᴰ-refl [] = Permᴰ.nil
Permᴰ-refl (t ∷ ts) = Permᴰ.cons refl (Permᴰ-refl ts)

insert_tx-Perm : (t : TxInfo) (us : List TxInfo) → Permᴰ (t ∷ us) (insert_tx t us)
unfolding insert_tx
insert_tx-Perm t [] = Permᴰ.cons refl Permᴰ.nil
insert_tx-Perm t (u ∷ us) =
    if-elim (λ l. Permᴰ (t ∷ u ∷ us) l) (ltb t.receive_time u.receive_time)
      (λ e. Permᴰ.trans (Permᴰ.swap refl refl) (Permᴰ.cons refl (insert_tx-Perm t us)))
      (λ e. Permᴰ.cons refl (Permᴰ.cons refl (Permᴰ-refl us)))

pub sort_txs-Perm : (ts : List TxInfo) → Permᴰ ts (sort_txs ts)
unfolding sort_txs
sort_txs-Perm [] = Permᴰ.nil
sort_txs-Perm (t ∷ ts) =
    Permᴰ.trans (Permᴰ.cons refl (sort_txs-Perm ts)) (insert_tx-Perm t (sort_txs ts))

sorted_lem :
    (t : Tried (Reply (List TxInfo))) (ts : List TxInfo)
    → (finish (λ r. sorted_txs (if_ok r)) t).answer ≡ some ts
    → sort_txs t.call.res.result ≡ ts
unfolding finish if_ok sorted_txs
sorted_lem t ts h = ground arith

-- The pool that get_mempool hands on is a permutation of the reply's, newest arrival first.
pub get_mempool_lem :
    (empty : Reply (List TxInfo)) (env : ℕ → Attempt (Reply (List TxInfo))) (connected : Bool)
    (ts : List TxInfo)
    → (get_mempool empty env connected).answer ≡ some ts
    → Newest ts × Permᴰ (invoke_with_reconnect env true (begin empty connected)).call.res.result ts
unfolding get_mempool finish if_ok sorted_txs
get_mempool_lem empty env connected ts h =
    let t = invoke_with_reconnect env true (begin empty connected) in
    subst (λ us. Newest us × Permᴰ t.call.res.result us) (sorted_lem t ts h)
      (sort_txs-Newest t.call.res.result, sort_txs-Perm t.call.res.result)
