-- ===== src/Snapshot/Nodes.antt =====
-- src/page.h, json_epose_snapshot: the endpoint and the telemetry of each service node, and the two
-- caches that serve them. A std::map is a list of entries, its first with a key the one that counts.
use explorer_qwertycoin_org.Base.{
  ℕ, zero, suc, Bool, false, ◌||◌, List, [], ◌∷◌, ◌++◌, Option, none, some, Bytes, same, ltb,
  if◌then◌else◌, length,
}
use explorer_qwertycoin_org.Telemetry.{RemoteTelemetry, endpoint_unavailable, not_checked_capacity}
use explorer_qwertycoin_org.Endpoint.{ChainAnchor}
use explorer_qwertycoin_org.Api.{Query, ◌>>=◌, return}
use explorer_qwertycoin_org.Snapshot.Views.{
  ServiceNode, Offer, Endpoint, TelemetryView, NodeView, Job, EndpointCache, TelemetryCache, lookup,
  without_report, telemetry_json, endpoint_of, blank_telemetry, if_fresh,
}

-- What the loop over the service nodes has collected.
pub record Gathered : Type 0 where
  pub nodes : List NodeView
  pub endpoints : EndpointCache
  pub jobs : List Job
  pub active : List Bytes

abbrev pub maximum_telemetry_checks : ℕ
maximum_telemetry_checks = 64

abbrev pub emplace : Bytes → Endpoint → EndpointCache → Option Endpoint → EndpointCache
emplace key e cache none = cache ++ (key, e) ∷ []
emplace key e cache (some old) = cache

module _ (before : ChainAnchor) (telemetry_now : ℕ) where
  -- The telemetry of a node with an endpoint: cached, asked for by a job, or over the capacity.
  abbrev pub with_telemetry :
      Gathered → ServiceNode → Endpoint → NodeView → Option RemoteTelemetry → Query Gathered
  with_telemetry g node e view (some t) = do
    shown ← telemetry_json before t
    return (record g { nodes = g.nodes ++ (record view { node_telemetry = shown }) ∷ [] })
  with_telemetry g node e view none =
      if ltb (length g.jobs) maximum_telemetry_checks
      then return (record g {
        nodes = g.nodes ++ view ∷ [];
        jobs =
            g.jobs
            ++ (record {
              node_index = length g.nodes;
              descriptor_hash = node.endpoint_commitment;
              service_public_key = node.service_public_key;
              host = e.host;
              port = e.port;
              transport = e.transport_code;
            })
              ∷ [];
      })
      else (do
        shown ← telemetry_json before (blank_telemetry not_checked_capacity telemetry_now)
        return (record g { nodes = g.nodes ++ (record view { node_telemetry = shown }) ∷ [] }))

  abbrev pub with_endpoint :
      TelemetryCache → Gathered → ServiceNode → NodeView → Option Endpoint → Query Gathered
  with_endpoint cache g node view none = return (record g { nodes = g.nodes ++ view ∷ [] })
  with_endpoint cache g node view (some e) =
      with_telemetry
        (record g {
          endpoints =
              emplace node.endpoint_commitment e g.endpoints
                (lookup node.endpoint_commitment g.endpoints);
          active = node.endpoint_commitment ∷ g.active;
        })
        node e view (if_fresh telemetry_now (lookup node.endpoint_commitment cache))

  unfoldable pub gather_from :
      (Bytes → Bool)
      → (Bytes → Option Offer)
      → EndpointCache
      → TelemetryCache
      → Gathered
      → List ServiceNode
      → Query Gathered
  gather_from is_qualified offer endpoints cache g [] = return g
  gather_from is_qualified offer endpoints cache g (node ∷ rest) = do
    next ←
        with_endpoint cache g node
          (record {
            node = node;
            qualified_for_source_epoch = is_qualified node.service_public_key;
            advertised_endpoint = endpoint_of offer endpoints node;
            node_telemetry = without_report (blank_telemetry endpoint_unavailable 0);
          })
          (endpoint_of offer endpoints node)
    gather_from is_qualified offer endpoints cache next rest

  unfoldable pub gather_nodes :
      (Bytes → Bool)
      → (Bytes → Option Offer)
      → EndpointCache
      → TelemetryCache
      → List ServiceNode
      → Query Gathered
  unfolding gather_from
  gather_nodes is_qualified offer endpoints cache nodes =
      gather_from is_qualified offer endpoints cache
        (record { nodes = []; endpoints = []; jobs = []; active = [] }) nodes

  -- The telemetry of the node at a place.
  unfoldable pub show_at : ℕ → TelemetryView → List NodeView → List NodeView
  show_at i shown [] = []
  show_at zero shown (v ∷ vs) = record v { node_telemetry = shown } ∷ vs
  show_at (suc i) shown (v ∷ vs) = v ∷ show_at i shown vs

  -- The answers are taken in the order of the jobs, whatever 32 of them run at once.
  unfoldable pub run_jobs :
      (Job → RemoteTelemetry)
      → List Job
      → List NodeView
      → TelemetryCache
      → Query (List NodeView × TelemetryCache)
  unfolding show_at
  run_jobs fetch [] nodes cache = return (nodes, cache)
  run_jobs fetch (job ∷ jobs) nodes cache = do
    shown ← telemetry_json before (fetch job)
    run_jobs fetch jobs (show_at job.node_index shown nodes)
        ((job.descriptor_hash, record { telemetry = fetch job; time = telemetry_now }) ∷ cache)

unfoldable pub is_active : List Bytes → Bytes → Bool
is_active [] key = false
is_active (k ∷ ks) key = same key k || is_active ks key

-- Every entry whose descriptor was not seen is erased.
unfoldable pub prune : List Bytes → TelemetryCache → TelemetryCache
prune active [] = []
prune active ((key, t) ∷ rest) =
    let kept = prune active rest in if is_active active key then (key, t) ∷ kept else kept
