-- ===== src/Gateway/Forwarding.antt =====
-- What the wallet_rpc_handler of main.cpp lets through to the daemon, and how often.
use explorer_qwertycoin_org.Gateway.{
  is_retry_safe, Request, Handled, maximum_inflight, fetch_add, fetch_sub, is_binary,
  maximum_request, answer, maximum_response, forward, by_policy, wallet_rpc_handler,
}
use explorer_qwertycoin_org.Base.{
  ℕ, ◌^◌, ◌%◌, ◌≤◌, ◌<◌, Bool, true, false, not, [], ◌++◌, ◌≡◌, leb, ltb, if◌then◌else◌, length,
  arith, refl, Bool-cases, if-elim, inl, inr, Option, none, Bytes, codes, same, same_iff, subst,
}
use explorer_qwertycoin_org.Rpc.{Attempt, HttpResponse, proxy_wallet_request, begin, finish}
use explorer_qwertycoin_org.Rpc.Calls.{invoke_with_reconnect_lem}
use explorer_qwertycoin_org.Gateway.Policy.{
  Payload, PolicyResult, allowed, malformed, forbidden, wallet_rpc_path_allowed, submission_paths,
  holds, wallet_rpc_path_retry_safe, authorize_wallet_json_rpc,
}

proxied-sent :
    (kind : Bytes) (retry_safe : Bool) (maximum : ℕ) (env : ℕ → Attempt (Option HttpResponse))
    (up : Bool)
    → (proxy_wallet_request kind retry_safe maximum env up).sent ≤ (if retry_safe then 2 else 1)
unfolding proxy_wallet_request begin finish
proxied-sent kind retry_safe maximum env up =
    let t = (invoke_with_reconnect_lem env retry_safe (begin none up)).0 in omega arith

-- Taking back what was added gives the counter again.
fetch_sub-add : (n : ℕ) → n < 2 ^ 32 → fetch_sub (fetch_add n) ≡ n
fetch_sub-add n h = omega arith

two_or_one :
    (retry_safe : Bool) → 1 ≤ (if retry_safe then 2 else 1) × ((if retry_safe then 2 else 1) ≤ 2)
two_or_one true = ground arith
two_or_one false = ground arith

json_rpc-reads : holds submission_paths (codes "/json_rpc") ≡ false
unfolding holds same
json_rpc-reads = refl

once_lem : (b : Bool) (n : ℕ) → b ≡ false → n ≤ (if b then 2 else 1) → n ≤ 1
once_lem true n e h = ground arith
once_lem false n e h = h

is_retry_safe-submission :
    (path : Bytes) → holds submission_paths path ≡ true → is_retry_safe path ≡ false
unfolding is_retry_safe wallet_rpc_path_retry_safe holds
is_retry_safe-submission path h = elim (Bool-cases (same path (codes "/json_rpc"))) [
  | inl json ↦
      let e = (same_iff path (codes "/json_rpc")).0 json in
      let never : holds submission_paths (codes "/json_rpc") ≡ true =
        subst (λ p. holds submission_paths p ≡ true) e h in
      ground (arith, never, json_rpc-reads)
  | inr other ↦ ground (arith, h, other)
]

-- How often a request of this path may be sent, and what the counter does.
abbrev Forwards : Bytes → ℕ → Handled → Type 0
Forwards path inflight h =
    (0 < h.sent → inflight < maximum_inflight)
    × (h.sent ≤ 2)
    × (holds submission_paths path ≡ true → h.sent ≤ 1)
    × (inflight < 2 ^ 32 → h.inflight ≡ inflight)

forward-Forwards :
    (parse : Bytes → Option Payload) (pool : ℕ → ℕ → Attempt (Option HttpResponse))
    (connected : ℕ → Bool) (path body : Bytes) (inflight slot : ℕ)
    → Forwards path inflight (forward parse pool connected path body inflight slot)
unfolding forward
forward-Forwards parse pool connected path body inflight slot =
    if-elim (λ h. Forwards path inflight h) (leb maximum_inflight inflight)
      (λ full. (λ p. absurd (omega arith), omega arith, λ p. omega arith, fetch_sub-add inflight))
      (λ free.
        let kind =
          if is_binary path then codes "application/octet-stream" else codes "application/json" in
        let few =
          proxied-sent kind (is_retry_safe path) maximum_response (pool (slot % 4))
            (connected (slot % 4)) in
        let bound = two_or_one (is_retry_safe path) in
        (
          λ p. ground (arith, free),
          omega arith,
          λ p. once_lem (is_retry_safe path) _ (is_retry_safe-submission path p) few,
          fetch_sub-add inflight,
        ))

module _ (parse : Bytes → Option Payload) (req : Request) (inflight slot : ℕ) where
  -- What holds of a request that is sent to the daemon, and of every request.
  abbrev pub IsGuarded : Handled → Type 0
  IsGuarded h =
      let path = codes "/" ++ req.requested_path in
      (0 < h.sent
        → (req.options ≡ false)
          × (wallet_rpc_path_allowed path ≡ true)
          × (length req.body ≤ maximum_request path)
          × (path ≡ codes "/json_rpc" → (authorize_wallet_json_rpc parse req.body).0 ≡ allowed)
          × (inflight < maximum_inflight))
      × (h.sent ≤ 2)
      × (holds submission_paths path ≡ true → h.sent ≤ 1)
      × (inflight < 2 ^ 32 → h.inflight ≡ inflight)

  answer-IsGuarded : (code : ℕ) (body : Bytes) → IsGuarded (answer inflight slot code body)
  answer-IsGuarded code body = (λ p. absurd (omega arith), omega arith, λ p. omega arith, λ p. refl)

  Forwards-IsGuarded :
      (h : Handled)
      → req.options ≡ false
      → wallet_rpc_path_allowed (codes "/" ++ req.requested_path) ≡ true
      → length req.body ≤ maximum_request (codes "/" ++ req.requested_path)
      → (codes "/" ++ req.requested_path ≡ codes "/json_rpc"
          → (authorize_wallet_json_rpc parse req.body).0 ≡ allowed)
      → Forwards (codes "/" ++ req.requested_path) inflight h
      → IsGuarded h
  Forwards-IsGuarded h asked listed small permitted f =
      (λ p. (asked, listed, small, permitted, f.0 p), f.1, f.2, f.3)

  module _ (pool : ℕ → ℕ → Attempt (Option HttpResponse)) (connected : ℕ → Bool) where
    by_policy-IsGuarded :
        (p : PolicyResult)
        → req.options ≡ false
        → wallet_rpc_path_allowed (codes "/" ++ req.requested_path) ≡ true
        → length req.body ≤ maximum_request (codes "/" ++ req.requested_path)
        → (authorize_wallet_json_rpc parse req.body).0 ≡ p
        → IsGuarded (
            by_policy parse pool connected
              (codes "/" ++ req.requested_path)
              req.body
              inflight
              slot
              p)
    by_policy-IsGuarded allowed asked listed small verdict =
        Forwards-IsGuarded
          (forward parse pool connected (codes "/" ++ req.requested_path) req.body inflight slot)
          asked listed small (λ p. verdict)
          (forward-Forwards parse pool connected (codes "/" ++ req.requested_path) req.body inflight
            slot)
    by_policy-IsGuarded malformed asked listed small verdict = answer-IsGuarded 400 (
        codes
          "{\"error\":\"Malformed JSON-RPC envelope; batches and notifications are not accepted\"}")
    by_policy-IsGuarded forbidden asked listed small verdict =
        answer-IsGuarded 403 (codes "{\"error\":\"JSON-RPC method not allowed\"}")

    -- A request reaches the daemon only if it is no OPTIONS request, its path is allowed, its body is
    -- within the bound of its path, a JSON-RPC envelope is authorised, and fewer than 16 requests
    -- are in flight. It is sent at most twice, a transaction submission at most once, and the handler
    -- leaves the in-flight counter as it found it.
    pub wallet_rpc_handler-sent :
        IsGuarded (wallet_rpc_handler parse pool connected req inflight slot)
    unfolding wallet_rpc_handler
    wallet_rpc_handler-sent =
        let path = codes "/" ++ req.requested_path in
        if-elim IsGuarded req.options (λ p. answer-IsGuarded 204 [])
          (λ asked.
            if-elim IsGuarded (not (wallet_rpc_path_allowed path))
              (λ p. answer-IsGuarded 403 (codes "{\"error\":\"RPC path not allowed\"}"))
              (λ listed.
                if-elim IsGuarded (ltb (maximum_request path) (length req.body))
                  (λ p. answer-IsGuarded 413 (codes "{\"error\":\"RPC request too large\"}"))
                  (λ small.
                    if-elim IsGuarded (same path (codes "/json_rpc"))
                      (λ json.
                        by_policy-IsGuarded (authorize_wallet_json_rpc parse req.body).0 asked
                          (ground (arith, listed)) (ground (arith, small)) refl)
                      (λ other.
                        Forwards-IsGuarded
                          (forward parse pool connected path req.body inflight slot) asked
                          (ground (arith, listed)) (ground (arith, small))
                          (λ e. ground (arith, other, (same_iff path (codes "/json_rpc")).1 e))
                          (forward-Forwards parse pool connected path req.body inflight slot)))))
