-- ===== src/Snapshot/Anchored.antt =====
-- The anchor of an EPoSe snapshot held when it was answered, for new and for cached snapshots.
use explorer_qwertycoin_org.Base.{
  ℕ, zero, suc, ◌-◌, Bool, true, false, ◌||◌, not, Option, none, some, Bytes, codes, same, same_iff,
  ◌==◌, if◌then◌else◌, if-elim, ◌≡◌, refl, sym, ap, ◌∙◌, subst, arith, inl, inr, Bool-cases,
}
use explorer_qwertycoin_org.Endpoint.{
  ChainAnchor, valid_epose_chain_anchor, epose_reward_matches_anchor, anchor_lem,
}
use explorer_qwertycoin_org.Api.{Node, Query, success}
use explorer_qwertycoin_org.Api.Laws.{Yields, Yields-success, Yields-bind, Yields-any}
use explorer_qwertycoin_org.Snapshot.Nodes.{gather_nodes, run_jobs, prune}
use explorer_qwertycoin_org.Snapshot.{
  EposeInfo, ServiceNodes, ServiceRewards, Calls, SnapshotData, Snapshot, ready, CacheEntry, Caches,
  capture_epose_chain_anchor, same_as, epose_chain_anchor_is_current, Tried, again, failed, made,
  make_data, resolve_nodes, check_core, ask_core, with_anchor, attempt_snapshot, attempt_snapshots,
  after_attempt, cache_failure, cache_success, is_ready, anchor_holds, is_young, is_served,
  or_cached, json_epose_snapshot, source_qualification_valid, holds_key,
}

-- Four calls in a row, the last before u, saw the anchor's height and tip, each twice.
abbrev pub HeldAt : (ℕ → Node) → ChainAnchor → ℕ → Type 0
HeldAt views a u =
    (v : ℕ) × (u ≡ suc (suc (suc (suc v))))
    × (valid_epose_chain_anchor a ≡ true)
    × ((views v).height ≡ a.block_count)
    × ((views (suc v)).block_id (a.block_count - 1) ≡ a.tip_hash)
    × ((views (suc (suc v))).height ≡ a.block_count)
    × ((views (suc (suc (suc v)))).block_id (a.block_count - 1) ≡ a.tip_hash)

-- An anchor that was captured held at the capture.
abbrev Captured : (ℕ → Node) → Option ChainAnchor → ℕ → Type 0
Captured views none u = Unit {0}
Captured views (some a) u = HeldAt views a u

valid-Captured :
    (views : ℕ → Node) (a : ChainAnchor) (u : ℕ)
    → (valid_epose_chain_anchor a ≡ true → HeldAt views a u)
    → Captured views (if valid_epose_chain_anchor a then some a else none) u
valid-Captured views a u h =
    if-elim (λ o. Captured views o u) (valid_epose_chain_anchor a) (λ e. h e) (λ e. tt)

capture-Captured :
    (views : ℕ → Node) (t : ℕ) → Yields (Captured views) (capture_epose_chain_anchor views t)
unfolding capture_epose_chain_anchor
capture-Captured views t =
    if-elim (λ (m : Query (Option ChainAnchor)). Yields (Captured views) (m views (suc t)))
      ((views t).height == 0) (λ empty. tt)
      λ some_blocks.
        if-elim
          (λ (m : Query (Option ChainAnchor)).
            Yields (Captured views) (m views (suc (suc (suc t)))))
          (not ((views (suc (suc t))).height == (views t).height)) (λ moved. tt)
          λ steady.
            let same_height : (views (suc (suc t))).height ≡ (views t).height =
              ground (arith, steady) in
            let tip = (views (suc t)).block_id ((views t).height - 1) in
            let tip' = (views (suc (suc (suc t)))).block_id ((views (suc (suc t))).height - 1) in
            if-elim (λ (o : Option ChainAnchor). Captured views o (suc (suc (suc (suc t)))))
              (same tip' tip)
              (λ kept.
                valid-Captured views (record { block_count = (views t).height; tip_hash = tip })
                  (suc (suc (suc (suc t))))
                  λ valid. (
                    t,
                    refl,
                    valid,
                    refl,
                    refl,
                    same_height,
                    subst (λ n. (views (suc (suc (suc t)))).block_id (n - 1) ≡ tip) same_height
                        ((same_iff tip' tip).0 kept),
                  ))
              (λ changed. tt)

HeldAt-same :
    (views : ℕ → Node) (expected : ChainAnchor) (o : Option ChainAnchor) (u : ℕ)
    → same_as expected o ≡ true
    → Captured views o u
    → HeldAt views expected u
HeldAt-same views expected none u e h = ground arith
HeldAt-same views expected (some a) u e (v, at, valid, h1, i1, h2, i2) =
    let (held, counts, tips) = (anchor_lem expected a).0.0 e in
    (
      v,
      at,
      held,
      h1 ∙ sym counts,
      ap (λ n. (views (suc v)).block_id (n - 1)) counts ∙ (i1 ∙ sym tips),
      h2 ∙ sym counts,
      ap (λ n. (views (suc (suc (suc v)))).block_id (n - 1)) counts ∙ (i2 ∙ sym tips),
    )

-- A snapshot that an attempt makes is anchored at its end.
abbrev Made : (ℕ → Node) → Tried → ℕ → Type 0
Made views (again e s) u = Unit {0}
Made views (failed e s) u = Unit {0}
Made views (made d s) u = HeldAt views d.anchor u

resolve_nodes-Made :
    (before : ChainAnchor) (calls : Calls) (info : EposeInfo) (nodes : ServiceNodes)
    (rewards : ServiceRewards) (s : Caches) (views : ℕ → Node) (t : ℕ)
    → Yields (Made views) (resolve_nodes before calls info nodes rewards s views t)
unfolding resolve_nodes
resolve_nodes-Made before calls info nodes rewards s views t =
    Yields-bind (Made views) (λ g u. Unit {0})
      (gather_nodes before calls.telemetry_now
        (λ key. holds_key key rewards.qualified_service_public_keys) calls.offer s.endpoints
        s.telemetry nodes.service_nodes views t)
      _ (Yields-any _)
      λ gathered u _.
        Yields-bind (Made views) (λ g v. Unit {0})
          (run_jobs before calls.telemetry_now calls.fetch gathered.jobs gathered.nodes s.telemetry
            views u)
          _ (Yields-any _)
          λ (shown, telemetry) v _.
            Yields-bind (Made views) (Captured views) (capture_epose_chain_anchor views v) _
              (capture-Captured views v)
              λ after w captured.
                let kept = record s { telemetry = prune gathered.active telemetry } in
                if-elim (λ (m : Tried). Made views m w) (not (same_as before after))
                  {x = again (codes "Canonical chain changed while resolving the EPoSe snapshot")
                    kept}
                  {y = made (make_data before calls info nodes rewards shown)
                    (record kept { endpoints = gathered.endpoints })}
                  (λ changed. tt)
                  (λ held. HeldAt-same views before after w (ground (arith, held)) captured)

module _ (is_key : Bytes → Bool) where
  check_core-Made :
      (before : ChainAnchor) (calls : Calls) (info : EposeInfo) (nodes : ServiceNodes)
      (rewards : ServiceRewards) (s : Caches) (views : ℕ → Node) (t : ℕ)
      → Yields (Made views) (check_core is_key before calls info nodes rewards s views t)
  unfolding check_core
  check_core-Made before calls info nodes rewards s views t =
      Yields-bind (Made views) (λ o u. Unit {0}) (capture_epose_chain_anchor views t) _
        (Yields-any _)
        λ after u _.
          if-elim (λ (m : Query Tried). Yields (Made views) (m views u))
            (not (same_as before after) || not (epose_reward_matches_anchor before rewards.height))
            (λ apart. tt)
            λ together.
              if-elim (λ (m : Query Tried). Yields (Made views) (m views u))
                (not (source_qualification_valid is_key rewards)) (λ bad. tt)
                (λ good. resolve_nodes-Made before calls info nodes rewards s views u)

  with_anchor-Made :
      (calls : Calls) (before : Option ChainAnchor) (info : Option EposeInfo)
      (nodes : Option ServiceNodes) (rewards : Option ServiceRewards) (s : Caches)
      (views : ℕ → Node) (t : ℕ) (a : ChainAnchor)
      → Yields (Made views) (ask_core is_key a calls info nodes rewards s views t)
  with_anchor-Made calls before none nodes rewards s views t a = tt
  with_anchor-Made calls before (some i) none rewards s views t a = tt
  with_anchor-Made calls before (some i) (some n) none s views t a = tt
  with_anchor-Made calls before (some i) (some n) (some r) s views t a =
      check_core-Made a calls i n r s views t

  attempt-Made :
      (calls : Calls) (s : Caches) (views : ℕ → Node) (t : ℕ)
      → Yields (Made views) (attempt_snapshot is_key calls s views t)
  unfolding attempt_snapshot
  attempt-Made calls s views t =
      Yields-bind (Made views) (λ o u. Unit {0}) (capture_epose_chain_anchor views t) _
        (Yields-any _) λ before u _. anchored before u
    where
      anchored :
          (before : Option ChainAnchor) (u : ℕ)
          → Yields (Made views) (with_anchor is_key calls before s views u)
      anchored none u = tt
      anchored (some a) u =
          with_anchor-Made calls none calls.epose_info calls.service_nodes calls.rewards s views u a

  -- A cached success is kept with the anchor of its data.
  abbrev pub IsCoherent : Option CacheEntry → Type 0
  IsCoherent none = Unit {0}
  IsCoherent (some e) = (d : SnapshotData) → e.response ≡ ready d → e.anchor ≡ some d.anchor

  -- The data are those of the cached response.
  abbrev pub IsCached : SnapshotData → Caches → Type 0
  IsCached d s = (c : CacheEntry) × (s.snapshot ≡ some c) × (c.response ≡ ready d)

  -- What a request answers and leaves: a coherent cache, and with a success an anchor that held in
  -- the last four calls of the node, and the answer in the cache.
  abbrev pub Answered : (ℕ → Node) → Snapshot × Caches → ℕ → Type 0
  Answered views (r, s) u =
      IsCoherent s.snapshot
      × ((d : SnapshotData) → r ≡ ready d → HeldAt views d.anchor u)
      × ((d : SnapshotData) → r ≡ ready d → IsCached d s)

  failure-Answered :
      (views : ℕ → Node) (now : ℕ) (e : Bytes) (s : Caches) (u : ℕ)
      → Answered views (cache_failure is_key now e s) u
  failure-Answered views now e s u = (λ d h. absurd (cc), λ d h. absurd (cc), λ d h. absurd (cc))

  success-Answered :
      (views : ℕ → Node) (d : SnapshotData) (s : Caches) (u : ℕ)
      → HeldAt views d.anchor u
      → Answered views (cache_success is_key d s) u
  success-Answered views d s u h = (
    λ d' e. ap (λ (x : SnapshotData). some x.anchor) (ready_injective e),
    λ d' e. subst (λ (x : SnapshotData). HeldAt views x.anchor u) (ready_injective e) h,
    λ d' e. (_, refl, e),
  )
    where
      ready_injective : {a b : SnapshotData} → ready a ≡ ready b → a ≡ b
      ready_injective e = cc

  after-Answered :
      (views : ℕ → Node) (next : Bytes → Caches → Query (Snapshot × Caches)) (now : ℕ)
      (tried : Tried) (u : ℕ)
      → Made views tried u
      → ((e : Bytes) (s : Caches) → Yields (Answered views) (next e s views u))
      → Yields (Answered views) (after_attempt is_key next now tried views u)
  after-Answered views next now (again e s) u h behind = behind e s
  after-Answered views next now (failed e s) u h behind = failure-Answered views now e s u
  after-Answered views next now (made d s) u h behind = success-Answered views d s u h

  attempts-Answered :
      (n k : ℕ) (calls : ℕ → Calls) (now : ℕ) (e : Bytes) (s : Caches) (views : ℕ → Node) (t : ℕ)
      → Yields (Answered views) (attempt_snapshots is_key n k calls now e s views t)
  unfolding attempt_snapshots
  attempts-Answered zero k calls now e s views t = failure-Answered views now e s t
  attempts-Answered (suc n) k calls now e s views t =
      Yields-bind (Answered views) (Made views) (attempt_snapshot is_key (calls k) s views t) _
        (attempt-Made (calls k) s views t)
        λ tried u h.
          after-Answered views (attempt_snapshots is_key n (suc k) calls now) now tried u h
            (λ e' s'. attempts-Answered n (suc k) calls now e' s' views u)

  -- A cached entry that is served holds, if it is a success.
  abbrev Served : (ℕ → Node) → CacheEntry → Bool → ℕ → Type 0
  Served views e served u =
      served ≡ true → (d : SnapshotData) → e.response ≡ ready d → HeldAt views d.anchor u

  is_served-Served :
      (views : ℕ → Node) (now : ℕ) (e : CacheEntry) (t : ℕ)
      → IsCoherent (some e)
      → Yields (Served views e) (is_served is_key now e views t)
  unfolding is_served epose_chain_anchor_is_current
  is_served-Served views now e t coherent =
      if-elim (λ (m : Query Bool). Yields (Served views e) (m views t))
        (not (is_young is_key now e)) (λ old. λ x. absurd (cc))
        λ young.
          if-elim (λ (m : Query Bool). Yields (Served views e) (m views t))
            (is_ready is_key e.response) (λ success_cached. held e.anchor refl)
            (λ failure_cached. λ x d same_response.
              let never : is_ready is_key (ready d) ≡ false =
                subst (λ r. is_ready is_key r ≡ false) same_response failure_cached in
              ground (arith, never))
    where
      held :
          (o : Option ChainAnchor)
          → e.anchor ≡ o
          → Yields (Served views e) (anchor_holds is_key o views t)
      held none same_anchor = λ x. absurd (cc)
      held (some a) same_anchor =
          Yields-bind (Served views e) (Captured views) (capture_epose_chain_anchor views t) _
            (capture-Captured views t)
            λ o u captured. λ same_now d same_response.
              let anchors : some a ≡ some d.anchor = sym same_anchor ∙ coherent d same_response in
              let this : a ≡ d.anchor = cc in
              HeldAt-same views d.anchor o u (subst (λ x. same_as x o ≡ true) this same_now)
                captured

  -- From coherent caches, json_epose_snapshot leaves coherent caches; and where it answers with a
  -- success, new or cached, the last four calls of the node saw, twice each, the height and the tip
  -- hash that the answer is anchored at, and the answer is left in the cache.
  pub json_epose_snapshot-Answered :
      (now : ℕ) (calls : ℕ → Calls) (s : Caches) (views : ℕ → Node) (t t' : ℕ) {r : Snapshot}
      {s' : Caches}
      → IsCoherent s.snapshot
      → json_epose_snapshot is_key now calls s views t ≡ success (r, s') t'
      → Answered views (r, s') t'
  unfolding json_epose_snapshot
  json_epose_snapshot-Answered now calls s views t t' coherent h =
      Yields-success (Answered views) _ h (answered s.snapshot refl)
    where
      answered :
          (o : Option CacheEntry)
          → s.snapshot ≡ o
          → Yields (Answered views) (or_cached is_key now calls o s views t)
      answered none e = attempts-Answered 2 0 calls now _ s views t
      answered (some entry) e =
          let kept : IsCoherent (some entry) = subst IsCoherent e coherent in
          Yields-bind (Answered views) (Served views entry) (is_served is_key now entry views t) _
            (is_served-Served views now entry t kept)
            λ served u held. elim (Bool-cases served) [
              | inl served_now ↦
                  rw (served_now)
                    (coherent, held served_now, λ d same_response. (entry, e, same_response))
              | inr asked ↦ rw (asked) (attempts-Answered 2 0 calls now _ s views u)
            ]
