-- ===== src/Supply/Index/Updates.antt =====
-- update_once as a whole: it advances the records, the checkpoint and the snapshot together, or
-- leaves all three; and the rounds of run keep a ledger that the snapshot shows.
use explorer_qwertycoin_org.Base.{
  ℕ, suc, ◌-◌, ◌≡◌, ◌≢◌, ◌⊎◌, inl, inr, refl, sym, subst, Bool, true, List, [], ◌∷◌, Option, none,
  some, Bytes, codes, ltb, length, arith, Bool-cases,
}
use explorer_qwertycoin_org.Supply.{SupplyRecord}
use explorer_qwertycoin_org.Supply.Ledger.{IsLedger}
use explorer_qwertycoin_org.Supply.Text.{WideText}
use explorer_qwertycoin_org.Supply.Checkpoint.{Identity, checkpoint_text}
use explorer_qwertycoin_org.Supply.Node.{Node, Outcome, done, failed}
use explorer_qwertycoin_org.Supply.Index.{
  SupplyIndex, Files, Disk, publish, persist, gather, update_once, conclude, commit, after_gather,
  finish, look_again,
}
use explorer_qwertycoin_org.Supply.Index.Safety.{IsGathered, gather-inversion}

module _ (wide : WideText) where
  -- On every answer of the disk, persist either reports no error and has replaced the state file by
  -- a file that holds the whole checkpoint of the records and was synced before, or reports one and has left the state file as it was.
  pub persist-atomic :
      (disk : Disk) (i : Identity) (rs : List SupplyRecord) (files : Files)
      → (((persist wide disk i rs files).0 ≡ none)
          × ((persist wide disk i rs files).1.state_file
              ≡ some (record { text = checkpoint_text wide i rs; synced = true })))
        ⊎ (((persist wide disk i rs files).0 ≢ none)
            × ((persist wide disk i rs files).1.state_file ≡ files.state_file))
  unfolding persist
  persist-atomic disk i rs files = ground arith

  abbrev pub shown_minted : List SupplyRecord → Bytes
  shown_minted [] = codes "0"
  shown_minted (r ∷ rs) = wide.print r.cumulative_minted

  abbrev pub shown_coinbase : List SupplyRecord → Bytes
  shown_coinbase [] = codes "0"
  shown_coinbase (r ∷ rs) = wide.print r.cumulative_coinbase

  abbrev pub shown_fees : List SupplyRecord → Bytes
  shown_fees [] = codes "0"
  shown_fees (r ∷ rs) = wide.print r.cumulative_fees

  -- The snapshot shows the records, and claims to be complete only where they cover the chain.
  pub record Reflects (s : SupplyIndex) : Type 0 where
    pub counted : s.snapshot.indexed_block_count ≡ length s.records
    pub minted : s.snapshot.minted_supply_atomic ≡ shown_minted s.records
    pub coinbase : s.snapshot.gross_coinbase_atomic ≡ shown_coinbase s.records
    pub fees : s.snapshot.cumulative_fees_atomic ≡ shown_fees s.records
    pub covers : s.snapshot.complete ≡ true → s.snapshot.block_count ≡ length s.records

  pub publish-Reflects :
      (s : SupplyIndex) (availability message : Bytes) (count : ℕ) (tip : Bytes)
      (rs : List SupplyRecord) (complete : Bool) (now : ℕ)
      → s.records ≡ rs
      → (complete ≡ true → count ≡ length rs)
      → Reflects (publish wide s availability message count tip rs complete now)
  unfolding publish
  publish-Reflects s availability message count tip [] complete now e h = ground arith
  publish-Reflects s availability message count tip (r ∷ rs) complete now e h = ground arith

  pub look_again_done :
      (views : ℕ → Node) (t : ℕ)
      → (final : ℕ × Bytes) × (t' : ℕ) × (look_again views t ≡ done final t')
  look_again_done views t = elim (Bool-cases (ltb 0 (views t).height)) [
    | inl full ↦
        (((views t).height, (views (suc t)).block_id ((views t).height - 1)), suc (suc t), rw full)
    | inr bare ↦ (((views t).height, []), suc t, rw bare)
  ]

  finish-Reflects :
      (s : SupplyIndex) (count : ℕ) (tip : Bytes) (rs : List SupplyRecord) (files : Files) (now : ℕ)
      (final : ℕ × Bytes)
      → Reflects (finish wide s (count, tip, rs) files now final)
  finish-Reflects s count tip rs files now (final_count, final_tip) =
      publish-Reflects _ _ _ final_count final_tip rs _ now refl (ground arith)

  -- A round that succeeded.
  pub record Advanced (s s' : SupplyIndex) (views : ℕ → Node) (t : ℕ) : Type 0 where
    pub gathered : IsGathered s views (views t).height s'.records
    pub stored :
        s'.files.state_file
        ≡ some (record { text = checkpoint_text wide s.identity s'.records; synced = true })
    pub reflects : Reflects s'
    pub same_identity : s'.identity ≡ s.identity

  -- A round that failed.
  pub record Kept (s s' : SupplyIndex) : Type 0 where
    pub records_kept : s'.records ≡ s.records
    pub snapshot_kept : s'.snapshot ≡ s.snapshot
    pub state_file_kept : s'.files.state_file ≡ s.files.state_file
    pub identity_kept : s'.identity ≡ s.identity

  abbrev pub Updated : SupplyIndex → (ℕ → Node) → ℕ → SupplyIndex × Outcome (Unit {0}) → Type 0
  Updated s views t (s', done _ u) = Advanced s s' views t
  Updated s views t (s', failed e u) = Kept s s'

  conclude-Updated :
      (s : SupplyIndex) (now count : ℕ) (tip : Bytes) (rs : List SupplyRecord) (views : ℕ → Node)
      (t : ℕ) (files : Files) (o : Outcome (ℕ × Bytes)) {final : ℕ × Bytes} {u : ℕ}
      → IsGathered s views (views t).height rs
      → files.state_file
        ≡ some (record { text = checkpoint_text wide s.identity rs; synced = true })
      → o ≡ done final u
      → Updated s views t (conclude wide s (count, tip, rs) files now o)
  unfolding publish
  conclude-Updated s now count tip rs views t files (done (final_count, final_tip) u) g p e =
      record {
        gathered = g;
        stored = p;
        reflects = finish-Reflects s count tip rs files now (final_count, final_tip);
        same_identity = refl;
      }
  conclude-Updated s now count tip rs views t files (failed e' u) g p e = absurd (cc)

  commit-Updated :
      (s : SupplyIndex) (now count : ℕ) (tip : Bytes) (rs : List SupplyRecord) (views : ℕ → Node)
      (t u : ℕ) (written : Option Bytes × Files)
      → IsGathered s views (views t).height rs
      → ((written.0 ≡ none)
          × (written.1.state_file
              ≡ some (record { text = checkpoint_text wide s.identity rs; synced = true })))
        ⊎ ((written.0 ≢ none) × (written.1.state_file ≡ s.files.state_file))
      → Updated s views t (commit wide s now (count, tip, rs) views u written)
  commit-Updated s now count tip rs views t u (some e, files) g (inl p) = absurd (cc)
  commit-Updated s now count tip rs views t u (some e, files) g (inr p) = record {
    records_kept = refl;
    snapshot_kept = refl;
    state_file_kept = p.1;
    identity_kept = refl;
  }
  commit-Updated s now count tip rs views t u (none, files) g (inr p) = absurd (p.0 refl)
  commit-Updated s now count tip rs views t u (none, files) g (inl p) =
      conclude-Updated s now count tip rs views t files (look_again views u) g p.1
        (look_again_done views u).2

  after_gather-Updated :
      (s : SupplyIndex) (disk : Disk) (now : ℕ) (views : ℕ → Node) (t : ℕ)
      (o : Outcome (ℕ × Bytes × List SupplyRecord))
      → IsLedger s.records
      → gather s views t ≡ o
      → Updated s views t (after_gather wide s disk now views o)
  after_gather-Updated s disk now views t (done (count, tip, rs) u) h e =
      let (gathered, seen) = gather-inversion s views t u count tip rs h e in
      commit-Updated s now count tip rs views t u (persist wide disk s.identity rs s.files)
        (subst (λ n. IsGathered s views n rs) (sym seen) gathered)
        (persist-atomic disk s.identity rs s.files)
  after_gather-Updated s disk now views t (failed e' u) h e = record {
    records_kept = refl;
    snapshot_kept = refl;
    state_file_kept = refl;
    identity_kept = refl;
  }

  -- An update from a ledger either succeeds or fails. If it succeeds, the new records are a ledger
  -- of at most the block count that the first call saw and at most a batch longer, whose back was seen on the chain by one
  -- of the calls, the state file is the checkpoint of exactly these records, and the snapshot shows
  -- them. If it fails, the records, the snapshot and the state file are as before.
  pub update_once-Updated :
      (s : SupplyIndex) (disk : Disk) (now : ℕ) (views : ℕ → Node) (t : ℕ)
      → IsLedger s.records
      → Updated s views t (update_once wide s disk now views t)
  unfolding update_once
  update_once-Updated s disk now views t h =
      after_gather-Updated s disk now views t (gather s views t) h refl
