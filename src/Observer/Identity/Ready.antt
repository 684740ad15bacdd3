-- ===== src/Observer/Identity/Ready.antt =====
-- What /readyz of main.cpp has verified where it answers with a success.
use explorer_qwertycoin_org.Base.{
  ℕ, suc, Bool, true, false, ◌||◌, not, Option, none, some, Bytes, same_iff, length, ◌≡◌, ◌≢◌, refl,
  sym, ap, ◌∙◌, arith, if-elim,
}
use explorer_qwertycoin_org.Supply.Ledger.{IsLedger}
use explorer_qwertycoin_org.Rpc.{Attempt, Reply, get_network_info, core_rpc_status_ok}
use explorer_qwertycoin_org.Mempool.Network.{Info}
use explorer_qwertycoin_org.Supply.Text.{WideText}
use explorer_qwertycoin_org.Supply.Index.{SupplyIndex, SupplySnapshot}
use explorer_qwertycoin_org.Supply.Index.Rounds.{IsSound}
use explorer_qwertycoin_org.Supply.Index.Updates.{shown_minted, shown_coinbase, shown_fees}
use explorer_qwertycoin_org.Api.{Node, Query, success}
use explorer_qwertycoin_org.Api.Laws.{
  Yields, Yields-success, Yields-bind, Yields-or_refuse, Yields-intro,
}
use explorer_qwertycoin_org.Snapshot.{Caches, Calls}
use explorer_qwertycoin_org.Snapshot.Anchored.{IsCoherent}
use explorer_qwertycoin_org.Observer.{Shared, EmissionJson, json_emission}
use explorer_qwertycoin_org.Observer.Overview.{attempt}
use explorer_qwertycoin_org.Observer.Identity.{
  Profile, Identified, identified, unidentified, json_identity, ReadyData, Readiness, verified,
  unverified, is_usable, verify, after_probe, readyz,
}
use explorer_qwertycoin_org.Observer.Identity.Compatible.{
  IsIdentified, IsIdentity, identity-Yields, IfSome, settled-IfSome,
}

-- The supply that was read at some moment.
abbrev Supplied : Shared → EmissionJson → ℕ → Type 0
Supplied shared e u = (m : ℕ) × (shared.supply m ≡ some e.supply)

json_emission-Supplied :
    (shared : Shared) (views : ℕ → Node) (t : ℕ)
    → Yields (Supplied shared) (json_emission shared views t)
unfolding json_emission
json_emission-Supplied shared views t =
    Yields-or_refuse (Supplied shared) (shared.supply t) _ views (suc t) _ λ current e. (t, e)

module _ (is_key : Bytes → Bool) (request_time : ℕ) (calls : ℕ → Calls) (profile : Profile)
    (shared : Shared) where
  -- A success: what the restricted daemon answered, an identity of the moment behind the first call
  -- that is compatible, and a supply that is complete.
  abbrev pub IsVerified : Caches → (ℕ → Node) → ℕ → Option Info → ReadyData → Caches → Type 0
  IsVerified caches views t answer d left =
      ((info : Info) × (answer ≡ some info)
        × (info.status ≡ core_rpc_status_ok)
        × (info.testnet ≡ false)
        × (info.stagenet ≡ false)
        × (info.height ≢ 0)
        × (info.target ≢ 0)
        × (d.wallet_rpc_height ≡ info.height))
      × ((w : ℕ) × (json_identity is_key request_time calls profile shared caches views t
            ≡ success (identified d.identity, left) w)
          × IsIdentity is_key request_time calls profile shared views (views t).height
              (shared.status (suc t)).current_network_info d.identity left w)
      × (d.identity.compatible ≡ true)
      × ((m : ℕ) × (shared.supply m ≡ some d.supply.supply))
      × (d.supply.supply.complete ≡ true)

  abbrev pub Verdict : Caches → (ℕ → Node) → ℕ → Option Info → Readiness × Caches → ℕ → Type 0
  Verdict caches views t answer (verified d, left) u =
      IsCoherent is_key left.snapshot × IsVerified caches views t answer d left
  Verdict caches views t answer (unverified e, left) u = IsCoherent is_key left.snapshot

  usable :
      (info : Info)
      → is_usable info ≡ true
      → (info.status ≡ core_rpc_status_ok)
        × (info.testnet ≡ false)
        × (info.stagenet ≡ false)
        × (info.height ≢ 0)
        × (info.target ≢ 0)
  usable info e = ground (arith, e, same_iff info.status core_rpc_status_ok)

  -- What json_identity has answered, and what that says.
  abbrev Known : Caches → (ℕ → Node) → ℕ → Identified × Caches → ℕ → Type 0
  Known caches views t r w =
      (json_identity is_key request_time calls profile shared caches views t ≡ success r w)
      × IsIdentified is_key request_time calls profile shared views (views t).height
          (shared.status (suc t)).current_network_info r w

  identity-Known :
      (caches : Caches) (views : ℕ → Node) (t : ℕ)
      → IsCoherent is_key caches.snapshot
      → Yields
          (Known caches views t)
          (json_identity is_key request_time calls profile shared caches views t)
  identity-Known caches views t kept = Yields-intro (Known caches views t) _ λ r w made. (
    made,
    Yields-success
        (IsIdentified is_key request_time calls profile shared views (views t).height
          (shared.status (suc t)).current_network_info)
        _ made (identity-Yields is_key request_time calls profile shared caches views t kept),
  )

  verify-Verdict :
      (info : Info) (identity : Identified) (supply : Option EmissionJson) (caches left : Caches)
      (views : ℕ → Node) (t w u : ℕ)
      → is_usable info ≡ true
      → Known caches views t (identity, left) w
      → IfSome (Supplied shared) supply u
      → Verdict caches views t (some info) (verify info identity supply, left) u
  verify-Verdict info (unidentified e) supply caches left views t w u good (made, kept) h = kept
  verify-Verdict info (identified d) none caches left views t w u good (made, kept) h = kept.0
  verify-Verdict info (identified d) (some supply) caches left views t w u good (made, kept) h =
      if-elim (λ (r : Readiness). Verdict caches views t (some info) (r, left) u)
        (not d.compatible || not supply.supply.complete) (λ bad. kept.0)
        λ fine.
          let (ok, main, not_stage, height, target) = usable info good in
          (
            kept.0,
            (
              (info, refl, ok, main, not_stage, height, target, refl),
              (w, made, kept.1),
              ground (arith, fine),
              h,
              ground (arith, fine),
            ),
          )

  after_probe-Verdict :
      (answer : Option Info) (caches : Caches) (views : ℕ → Node) (t : ℕ)
      → IsCoherent is_key caches.snapshot
      → Yields
          (Verdict caches views t answer)
          (after_probe is_key request_time calls profile shared answer caches views t)
  after_probe-Verdict none caches views t kept = kept
  after_probe-Verdict (some info) caches views t kept =
      if-elim
        (λ (m : Query (Readiness × Caches)).
          Yields (Verdict caches views t (some info)) (m views t))
        (not (is_usable info)) (λ bad. kept)
        λ good.
          Yields-bind (Verdict caches views t (some info)) (Known caches views t)
            (json_identity is_key request_time calls profile shared caches views t) _
            (identity-Known caches views t kept)
            λ (identity, left) w known.
              Yields-bind (Verdict caches views t (some info)) (IfSome (Supplied shared))
                (attempt (json_emission shared) views w) _
                (settled-IfSome (Supplied shared) (json_emission shared views w)
                  (json_emission-Supplied shared views w))
                λ supply u given.
                  verify-Verdict info identity supply caches left views t w u (ground (arith, good))
                    known given

  -- Where /readyz succeeds, the restricted daemon answered with status OK, not of a test network and
  -- with a height and a target that are not 0; the identity is the one that json_identity answers from the caches,
  -- and compatible;
  -- and the supply is complete and was the index's at some moment. The caches stay coherent.
  pub readyz-Verdict :
      (empty : Reply Info) (env : ℕ → Attempt (Reply Info)) (connected : Bool)
      (caches left : Caches) (views : ℕ → Node) (t t' : ℕ) (r : Readiness)
      → IsCoherent is_key caches.snapshot
      → readyz is_key request_time calls profile shared empty env connected caches views t
        ≡ success (r, left) t'
      → Verdict caches views t (get_network_info empty env connected).answer (r, left) t'
  unfolding readyz
  readyz-Verdict empty env connected caches left views t t' r kept h =
      Yields-success (Verdict caches views t (get_network_info empty env connected).answer) _ h
        (after_probe-Verdict (get_network_info empty env connected).answer caches views t kept)

-- Over a supply index whose states are sound: where /readyz succeeds, the supply that it shows is
-- that of a state whose records are a ledger of exactly as many blocks as the shown block count,
-- with the cumulative minted, coinbase and fee sums of these records.
pub readyz-covers :
    (is_key : Bytes → Bool) (request_time : ℕ) (calls : ℕ → Calls) (profile : Profile)
    (shared : Shared) (wide : WideText) (states : ℕ → SupplyIndex) (empty : Reply Info)
    (env : ℕ → Attempt (Reply Info)) (connected : Bool) (caches left : Caches) (views : ℕ → Node)
    (t t' : ℕ) (d : ReadyData)
    → ((m : ℕ) → IsSound wide (states m))
    → ((m : ℕ) → shared.supply m ≡ some (states m).snapshot)
    → IsCoherent is_key caches.snapshot
    → readyz is_key request_time calls profile shared empty env connected caches views t
      ≡ success (verified d, left) t'
    → (m : ℕ) × IsLedger (states m).records
      × (d.supply.supply.block_count ≡ length (states m).records)
      × (d.supply.supply.minted_supply_atomic ≡ shown_minted wide (states m).records)
      × (d.supply.supply.gross_coinbase_atomic ≡ shown_coinbase wide (states m).records)
      × (d.supply.supply.cumulative_fees_atomic ≡ shown_fees wide (states m).records)
readyz-covers is_key request_time calls profile shared wide states empty env connected caches left
      views t t' d sound shows kept h =
    let (k, (probe, known, compatible, (m, given), complete)) =
      readyz-Verdict is_key request_time calls profile shared empty env connected caches left views
        t t' (verified d) kept h in
    let same_supply : (states m).snapshot ≡ d.supply.supply =
      some_injective (sym (shows m) ∙ given) in
    let covered : (states m).snapshot.complete ≡ true =
      ap (λ (x : SupplySnapshot). x.complete) same_supply ∙ complete in
    (
      m,
      (sound m).ledger,
      ap (λ (x : SupplySnapshot). x.block_count) (sym same_supply)
          ∙ (sound m).reflects.covers covered,
      ap (λ (x : SupplySnapshot). x.minted_supply_atomic) (sym same_supply)
          ∙ (sound m).reflects.minted,
      ap (λ (x : SupplySnapshot). x.gross_coinbase_atomic) (sym same_supply)
          ∙ (sound m).reflects.coinbase,
      ap (λ (x : SupplySnapshot). x.cumulative_fees_atomic) (sym same_supply)
          ∙ (sound m).reflects.fees,
    )
  where
    some_injective : {a b : SupplySnapshot} → some a ≡ some b → a ≡ b
    some_injective e = cc
