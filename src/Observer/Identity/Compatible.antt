-- ===== src/Observer/Identity/Compatible.antt =====
-- What the identity of json_identity says of the network info, the snapshot and the chain.
use explorer_qwertycoin_org.Base.{
  ℕ, suc, ◌+◌, ◌-◌, ◌<◌, Bool, true, ◌&&◌, not, Option, none, some, Bytes, codes, if◌then◌else◌,
  refl, same_iff, ◌==◌, length, ◌≡◌, ◌↔◌, sym, arith, if-elim, subst,
}
use explorer_qwertycoin_org.Address.{all_of}
use explorer_qwertycoin_org.Mempool.{NetType, mainnet, testnet, stagenet, NetworkInfo}
use explorer_qwertycoin_org.Api.{Node, Query, Answer, success, refused, fail, error, thrown}
use explorer_qwertycoin_org.Api.Laws.{
  Yields, Yields-success, Yields-intro, Yields-bind, Yields-refuse_if, Yields-any,
}
use explorer_qwertycoin_org.Snapshot.{
  EposeInfo, SnapshotData, Snapshot, ready, unavailable, Caches, Calls, json_epose_snapshot,
}
use explorer_qwertycoin_org.Snapshot.Anchored.{
  HeldAt, IsCoherent, IsCached, Answered, json_epose_snapshot-Answered,
}
use explorer_qwertycoin_org.Observer.{
  Shared, NetworkJson, json_networkinfo, last_block_time, is_testnet, is_stagenet,
}
use explorer_qwertycoin_org.Observer.Overview.{settled, attempt}
use explorer_qwertycoin_org.Observer.Identity.{
  Profile, IdentityData, Identified, identified, unidentified, is_xdigit, make_identity, Section,
  part, no_snapshot, section_of, json_epose_info, identify, json_identity,
}

-- What holds of a page that was there.
abbrev pub IfSome : {A : Type 0} → (A → ℕ → Type 0) → Option A → ℕ → Type 0
IfSome P none u = Unit {0}
IfSome P (some a) u = P a u

pub settled-IfSome :
    {A : Type 0} (P : A → ℕ → Type 0) (o : Answer A) → Yields P o → Yields (IfSome P) (settled o)
settled-IfSome P (success a t) h = h
settled-IfSome P (refused thrown t) h = tt
settled-IfSome P (refused (fail e) t) h = tt
settled-IfSome P (refused (error e) t) h = tt

-- The page repeats the info that was loaded first, which is current.
abbrev pub Repeats : NetworkInfo → NetworkJson → Type 0
Repeats info n =
    (info.current ≡ true)
    × (n.current ≡ true)
    × (n.testnet ≡ is_testnet info.nettype)
    × (n.stagenet ≡ is_stagenet info.nettype)
    × (n.height ≡ info.height)
    × (n.top_block_hash ≡ info.top_block_hash)
    × (n.current_hf_version ≡ info.current_hf_version)

json_networkinfo-Repeats :
    (shared : Shared) (views : ℕ → Node) (t : ℕ)
    → Yields
        (λ n u. Repeats (shared.status t).current_network_info n)
        (json_networkinfo shared views t)
unfolding json_networkinfo
json_networkinfo-Repeats shared views t =
    let info = (shared.status t).current_network_info in
    let Q = λ (n : NetworkJson) (u : ℕ). Repeats info n in
    Yields-refuse_if Q (not info.current) _ views (suc t) _ λ current.
      Yields-bind Q (λ o u. Unit {0})
        (last_block_time (views (suc (suc (suc t)))).height views (suc (suc (suc (suc t))))) _
        (Yields-any _)
        λ last u _. (ground (arith, current), ground (arith, current), refl, refl, refl, refl, refl)

mainnet_of : (n : NetType) → ((not (is_testnet n) && not (is_stagenet n)) ≡ true) ↔ (n ≡ mainnet)
mainnet_of mainnet = ((λ e. refl), λ e. refl)
mainnet_of testnet = ((λ e. absurd (cc)), λ e. absurd (cc))
mainnet_of stagenet = ((λ e. absurd (cc)), λ e. absurd (cc))

-- The tests that make an observer compatible, on what the page was made of.
abbrev pub IsCompatible : Profile → NetworkInfo → EposeInfo → ℕ → Bytes → Bytes → Type 0
IsCompatible profile info epose block_count genesis_hash db_tip_hash =
    (info.nettype ≡ mainnet)
    × (info.height ≡ block_count)
    × (info.top_block_hash ≡ db_tip_hash)
    × (info.current_hf_version ≡ 17)
    × (epose.enabled ≡ true)
    × (epose.protocol_version ≡ 2)
    × (genesis_hash ≡ profile.final_genesis_hash)
    × (length profile.build.qwc_source_sha ≡ 40)
    × (all_of is_xdigit profile.build.qwc_source_sha ≡ true)

abbrev network_name : NetType → Bytes
network_name mainnet = codes "mainnet"
network_name testnet = codes "testnet"
network_name stagenet = codes "stagenet"

network_name_lem :
    (n : NetType)
    → (if not (is_testnet n) && not (is_stagenet n)
        then codes "mainnet"
        else if is_testnet n
        then codes "testnet"
        else codes "stagenet")
      ≡ network_name n
network_name_lem mainnet = refl
network_name_lem testnet = refl
network_name_lem stagenet = refl

-- What the page shows is what it was made of.
abbrev pub Shows : Profile → NetworkInfo → EposeInfo → IdentityData → Type 0
Shows profile info epose d =
    (d.network ≡ network_name info.nettype)
    × (d.current_hf_version ≡ info.current_hf_version)
    × (d.epose_protocol_version ≡ epose.protocol_version)
    × (d.epose_enabled ≡ epose.enabled)
    × (d.snapshot_current ≡ true)
    × (d.chain_anchor_hash ≡ info.top_block_hash)
    × (d.expected_genesis_hash ≡ profile.final_genesis_hash)
    × (d.consensus_parameter_fingerprint ≡ profile.final_parameter_set_hash)
    × (d.build ≡ profile.build)
    × ((d.genesis_matches ≡ true) ↔ (d.genesis_hash ≡ profile.final_genesis_hash))
    × ((d.rpc_db_anchor_matches ≡ true)
        ↔ ((info.height ≡ d.block_count) × (info.top_block_hash ≡ d.db_tip_hash)))
    × ((d.core_source_sha_recorded ≡ true) ↔ (
        (length profile.build.qwc_source_sha ≡ 40)
        × (all_of is_xdigit profile.build.qwc_source_sha ≡ true)))

make_identity-Shows :
    (profile : Profile) (block_count : ℕ) (info : NetworkInfo) (n : NetworkJson) (epose : EposeInfo)
    (genesis tip : Bytes)
    → Repeats info n
    → Shows profile info epose (make_identity profile block_count n epose genesis tip)
make_identity-Shows profile block_count info n epose genesis tip (c, c', tn, sn, h, top, hf) = (
  rw (tn, sn) (network_name_lem info.nettype),
  hf,
  refl,
  refl,
  c',
  top,
  refl,
  refl,
  refl,
  same_iff genesis profile.final_genesis_hash,
  rw (h, top)
      (
        (λ e. ground (arith, e, same_iff info.top_block_hash tip)),
        (λ e. ground (arith, e, same_iff info.top_block_hash tip)),
      ),
  ((λ e. ground (arith, e)), (λ e. ground (arith, e))),
)

compatible_iff :
    (profile : Profile) (block_count : ℕ) (info : NetworkInfo) (n : NetworkJson) (epose : EposeInfo)
    (genesis tip : Bytes)
    → Repeats info n
    → ((make_identity profile block_count n epose genesis tip).compatible ≡ true)
      ↔ IsCompatible profile info epose block_count genesis tip
compatible_iff profile block_count info n epose genesis tip (c, c', tn, sn, h, top, hf) =
    rw (tn, sn, c', h, top, hf)
      (
        (λ e. ground (
          arith,
          mainnet_of info.nettype,
          same_iff info.top_block_hash tip,
          same_iff genesis profile.final_genesis_hash,
        )),
        λ e. ground (
          arith,
          mainnet_of info.nettype,
          same_iff info.top_block_hash tip,
          same_iff genesis profile.final_genesis_hash,
        ),
      )

module _ (is_key : Bytes → Bool) (request_time : ℕ) (calls : ℕ → Calls) where
  -- The caches that are left are coherent, and the section is of a snapshot that held at the end.
  abbrev Sectioned : (ℕ → Node) → Section EposeInfo × Caches → ℕ → Type 0
  Sectioned views (part e, left) u =
      IsCoherent is_key left.snapshot
      × (s : SnapshotData) × (s.info ≡ e)
      × HeldAt views s.anchor u
      × IsCached is_key s left
  Sectioned views (no_snapshot e, left) u = IsCoherent is_key left.snapshot

  section-Sectioned :
      (views : ℕ → Node) (r : Snapshot) (left : Caches) (u : ℕ)
      → Answered is_key views (r, left) u
      → Sectioned views (section_of (λ d. d.info) r, left) u
  section-Sectioned views (ready d) left u h = (h.0, d, refl, h.1 d refl, h.2 d refl)
  section-Sectioned views (unavailable e) left u h = h.0

  info-Sectioned :
      (caches : Caches) (views : ℕ → Node) (t : ℕ)
      → IsCoherent is_key caches.snapshot
      → Yields (Sectioned views) (json_epose_info is_key request_time calls caches views t)
  unfolding json_epose_info
  info-Sectioned caches views t kept =
      Yields-bind (Sectioned views) (Answered is_key views)
        (json_epose_snapshot is_key request_time calls caches views t) _
        (Yields-intro (Answered is_key views) _ λ (r, left) u e.
          json_epose_snapshot-Answered is_key request_time calls caches views t u kept e)
        λ (r, left) u h. section-Sectioned views r left u h

  module _ (profile : Profile) (shared : Shared) where
    -- What an identity is, for the height that its first call saw: the info is the one that the
    -- second call loaded, the snapshot held just before the last two calls, which read the hashes of
    -- the first and the last block, and it is the snapshot of the cache that is left.
    abbrev pub IsIdentity : (ℕ → Node) → ℕ → NetworkInfo → IdentityData → Caches → ℕ → Type 0
    IsIdentity views block_count info d left u =
        (info.current ≡ true)
        × (d.block_count ≡ block_count)
        × (d.tip_height + 1 ≡ block_count)
        × (s : SnapshotData) × (v : ℕ) × (u ≡ suc (suc v))
        × HeldAt views s.anchor v
        × IsCached is_key s left
        × Shows profile info s.info d
        × (d.genesis_hash ≡ (views v).block_id 0)
        × (d.db_tip_hash ≡ (views (suc v)).block_id (block_count - 1))
        × ((d.compatible ≡ true)
            ↔ IsCompatible profile info s.info block_count d.genesis_hash d.db_tip_hash)

    -- Coherent caches, and an identity where there is one.
    abbrev pub IsIdentified : (ℕ → Node) → ℕ → NetworkInfo → Identified × Caches → ℕ → Type 0
    IsIdentified views block_count info (unidentified e, left) u = IsCoherent is_key left.snapshot
    IsIdentified views block_count info (identified d, left) u =
        IsCoherent is_key left.snapshot × IsIdentity views block_count info d left u

    identify-IsIdentified :
        (block_count : ℕ) (info : NetworkInfo) (network : Option NetworkJson)
        (epose : Section EposeInfo) (left : Caches) (views : ℕ → Node) (u w : ℕ)
        → 0 < block_count
        → IfSome (λ n w'. Repeats info n) network w
        → Sectioned views (epose, left) u
        → Yields (IsIdentified views block_count info) (
            identify is_key request_time calls profile shared block_count network epose left views
              u)
    identify-IsIdentified block_count info none (part e) left views u w pos same_info h = h.0
    identify-IsIdentified block_count info none (no_snapshot e) left views u w pos same_info h = h
    identify-IsIdentified block_count info (some n) (no_snapshot e) left views u w pos same_info h =
        h
    identify-IsIdentified block_count info (some n) (part e) left views u w pos same_info
          (kept, s, of_snapshot, held, cached) =
        let genesis = (views u).block_id 0 in
        let tip = (views (suc u)).block_id (block_count - 1) in
        (
          kept,
          (
            same_info.0,
            refl,
            omega arith,
            s,
            u,
            refl,
            held,
            cached,
            subst (λ x. Shows profile info x (make_identity profile block_count n e genesis tip))
                (sym of_snapshot)
                (make_identity-Shows profile block_count info n e genesis tip same_info),
            refl,
            refl,
            subst
                (λ x.
                  ((make_identity profile block_count n e genesis tip).compatible ≡ true)
                  ↔ IsCompatible profile info x block_count genesis tip)
                (sym of_snapshot)
                (compatible_iff profile block_count info n e genesis tip same_info),
          ),
        )

    pub identity-Yields :
        (caches : Caches) (views : ℕ → Node) (t : ℕ)
        → IsCoherent is_key caches.snapshot
        → Yields
            (IsIdentified views (views t).height (shared.status (suc t)).current_network_info)
            (json_identity is_key request_time calls profile shared caches views t)
    unfolding json_identity
    identity-Yields caches views t kept =
        let info = (shared.status (suc t)).current_network_info in
        let Q = IsIdentified views (views t).height info in
        if-elim (λ (m : Query (Identified × Caches)). Yields Q (m views (suc t)))
          ((views t).height == 0) (λ empty. kept)
          λ above.
            Yields-bind Q (IfSome (λ n u. Repeats info n))
              (attempt (json_networkinfo shared) views (suc t)) _
              (settled-IfSome (λ n u. Repeats info n) (json_networkinfo shared views (suc t))
                (json_networkinfo-Repeats shared views (suc t)))
              λ network w repeats.
                Yields-bind Q (Sectioned views)
                  (json_epose_info is_key request_time calls caches views w) _
                  (info-Sectioned caches views w kept)
                  λ (epose, left) u h.
                    identify-IsIdentified (views t).height info network epose left views u w
                      (ground (arith, above)) repeats h

    -- From coherent caches, json_identity leaves coherent ones, and an identity is of the height that
    -- its first call saw and of a network info that was current. It is compatible exactly if that
    -- info is of the main network and fork 17 and names this height and the tip's hash, the EPoSe
    -- snapshot is enabled with version 2, the genesis hash is the expected one and the recorded
    -- source hash is 40 hexadecimal digits; and that snapshot is the one in the cache and held just
    -- before both hashes were read. The network, fork, versions, hashes and test results that the
    -- page shows are those.
    pub json_identity-IsIdentified :
        (caches left : Caches) (views : ℕ → Node) (t t' : ℕ) (r : Identified)
        → IsCoherent is_key caches.snapshot
        → json_identity is_key request_time calls profile shared caches views t
          ≡ success (r, left) t'
        → IsIdentified views
            (views t).height
            (shared.status (suc t)).current_network_info
            (r, left)
            t'
    json_identity-IsIdentified caches left views t t' r kept h =
        Yields-success
          (IsIdentified views (views t).height (shared.status (suc t)).current_network_info) _ h
          (identity-Yields caches views t kept)
