-- ===== src/Snapshot/Checks.antt =====
-- How many service nodes json_epose_snapshot asks for telemetry, and what its telemetry cache keeps.
use explorer_qwertycoin_org.Base.{
  ℕ, ◌≤◌, Bool, true, false, List, [], ◌∷◌, ◌++◌, Option, none, some, Bytes, same, same_iff,
  if◌then◌else◌, length, ◌≡◌, refl, ap, map, inl, inr, Bool-cases, All,
}
use explorer_qwertycoin_org.Endpoint.{ChainAnchor}
use explorer_qwertycoin_org.Snapshot.Views.{
  ServiceNode, NodeView, Endpoint, Job, TelemetryCache, CachedTelemetry, lookup,
}
use explorer_qwertycoin_org.Snapshot.Nodes.{Gathered, is_active, prune}

-- The node of a job: it stands at the job's place, the descriptor and the key are its own, and the
-- job asks the endpoint that it advertises.
abbrev pub IsAbout : List NodeView → Job → Type 0
IsAbout nodes j =
    (before : List NodeView) × (v : NodeView) × (after : List NodeView) × (e : Endpoint) × (nodes
      ≡ before ++ v ∷ after)
    × (j.node_index ≡ length before)
    × (j.descriptor_hash ≡ v.node.endpoint_commitment)
    × (j.service_public_key ≡ v.node.service_public_key)
    × (v.advertised_endpoint ≡ some e)
    × (j.host ≡ e.host)
    × (j.port ≡ e.port)
    × (j.transport ≡ e.transport_code)

-- At most 64 jobs, each about a node that has been collected.
abbrev pub IsWithin : Gathered → Type 0
IsWithin g = (length g.jobs ≤ 64) × All (IsAbout g.nodes) g.jobs

-- The service nodes that are shown, in their order.
abbrev pub shown_nodes : Gathered → List ServiceNode
shown_nodes g = map (λ (v : NodeView). v.node) g.nodes

-- One node later.
abbrev Pushed : Gathered → ServiceNode → Gathered → ℕ → Type 0
Pushed g node g' u = IsWithin g' × (shown_nodes g' ≡ shown_nodes g ++ node ∷ [])

module _ (before : ChainAnchor) (telemetry_now : ℕ) where
  abbrev Collected : Gathered → List ServiceNode → Gathered → ℕ → Type 0
  Collected g nodes g' u = IsWithin g' × (shown_nodes g' ≡ shown_nodes g ++ nodes)

is_active-same :
    (active : List Bytes) (key k : Bytes)
    → same key k ≡ true
    → is_active active key ≡ is_active active k
is_active-same active key k e = ap (is_active active) ((same_iff key k).0 e)

none_either : (b : Bool) → ◌≡◌ {A = Option CachedTelemetry} none (if b then none else none)
none_either true = refl
none_either false = refl

-- The pruned telemetry cache has the entry of a descriptor that was seen and nothing for any other.
pub lookup-prune :
    (active : List Bytes) (cache : TelemetryCache) (key : Bytes)
    → lookup key (prune active cache) ≡ (if is_active active key then lookup key cache else none)
unfolding lookup prune
lookup-prune active [] key = none_either (is_active active key)
lookup-prune active ((k, c) ∷ rest) key = elim (Bool-cases (is_active active k)) [
  | inl seen ↦ rw (seen) (elim (Bool-cases (same key k)) [
    | inl this ↦ rw (this, is_active-same active key k this, seen) refl
    | inr other ↦ rw (other) (lookup-prune active rest key)
  ])
  | inr unseen ↦ rw (unseen) (elim (Bool-cases (same key k)) [
    | inl this ↦ rw (lookup-prune active rest key, is_active-same active key k this, unseen) refl
    | inr other ↦ rw (other) (lookup-prune active rest key)
  ])
]
