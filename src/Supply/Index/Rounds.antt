-- ===== src/Supply/Index/Rounds.antt =====
-- The rounds of run: from a ledger, each keeps a ledger and publishes what it shows; and what start
-- loads is a ledger.
use explorer_qwertycoin_org.Supply.Index.{
  File, File, SupplyIndex, Files, Disk, make_index, publish, update_once, look_again,
}
use explorer_qwertycoin_org.Base.{
  ℕ, ◌≡◌, refl, sym, subst, Bool, true, false, List, [], ◌∷◌, Option, none, some, Bytes, arith,
  if-elim,
}
use explorer_qwertycoin_org.Supply.{SupplyRecord}
use explorer_qwertycoin_org.Supply.Ledger.{IsLedger}
use explorer_qwertycoin_org.Supply.Text.{WideText}
use explorer_qwertycoin_org.Supply.Checkpoint.{Identity, load_text}
use explorer_qwertycoin_org.Supply.Checkpoint.RoundTrip.{load_text-IsLedger}
use explorer_qwertycoin_org.Supply.Node.{Node, Outcome, done, failed}
use explorer_qwertycoin_org.Supply.Index.Run.{
  Round, round, run, load, start, report, after_update, loaded, load_file,
}
use explorer_qwertycoin_org.Supply.Index.Updates.{
  Reflects, Updated, update_once-Updated, publish-Reflects, look_again_done,
}

module _ (wide : WideText) where
  -- The records are a ledger and the snapshot shows them.
  pub record IsSound (s : SupplyIndex) : Type 0 where
    pub ledger : IsLedger s.records
    pub reflects : Reflects wide s

  report-IsSound :
      (s : SupplyIndex) (e : Bytes) (now : ℕ) (o : Outcome (ℕ × Bytes)) {final : ℕ × Bytes} {t : ℕ}
      → IsLedger s.records
      → o ≡ done final t
      → IsSound (report wide s e now o)
  unfolding publish
  report-IsSound s e now (done (count, tip) t) h p = record {
    ledger = h;
    reflects = publish-Reflects wide s _ e count tip s.records false now refl (λ c. cc);
  }
  report-IsSound s e now (failed e' t) h p = absurd (cc)

  after_update-IsSound :
      (s : SupplyIndex) (now : ℕ) (views : ℕ → Node) (u : SupplyIndex × Outcome (Unit {0}))
      → IsLedger s.records
      → Updated wide s views 0 u
      → IsSound (after_update wide now views u)
  after_update-IsSound s now views (s', done _ t) h a = record {
    ledger = a.gathered.ledger;
    reflects = a.reflects;
  }
  after_update-IsSound s now views (s', failed e t) h k =
      report-IsSound s' e now (look_again views t) (subst IsLedger (sym k.records_kept) h)
        (look_again_done wide views t).2

  pub round-IsSound :
      (s : SupplyIndex) (disk : Disk) (now : ℕ) (views : ℕ → Node)
      → IsLedger s.records
      → IsSound (round wide s disk now views)
  unfolding round
  round-IsSound s disk now views h =
      after_update-IsSound s now views (update_once wide s disk now views 0) h
        (update_once-Updated wide s disk now views 0 h)

  run-IsSound : (s : SupplyIndex) (rounds : List Round) → IsSound s → IsSound (run wide s rounds)
  unfolding run
  run-IsSound s [] h = h
  run-IsSound s (r ∷ rest) h =
      if-elim IsSound s.stop_requested (λ _. h)
        (λ _.
          run-IsSound (round wide s r.disk r.now r.views) rest
            (round-IsSound s r.disk r.now r.views h.ledger))

  loaded-IsLedger :
      (s : SupplyIndex) (text : Bytes) (o : Option (List SupplyRecord))
      → IsLedger s.records
      → load_text wide s.identity text ≡ o
      → IsLedger (loaded wide s o).records
  loaded-IsLedger s text none h e = h
  loaded-IsLedger s text (some rs) h e = load_text-IsLedger wide s.identity text rs e

  pub load-IsLedger : (s : SupplyIndex) → IsLedger s.records → IsLedger (load wide s).records
  unfolding load
  load-IsLedger s h = load_file-IsLedger s.files.state_file
    where
      load_file-IsLedger : (o : Option File) → IsLedger (load_file wide s o).records
      load_file-IsLedger none = h
      load_file-IsLedger (some f) =
          loaded-IsLedger s f.text (load_text wide s.identity f.text) h refl

  start-IsLedger :
      (s : SupplyIndex) (creates : Bool) (now : ℕ)
      → IsLedger s.records
      → IsLedger (start wide s creates now).0.records
  unfolding start publish
  start-IsLedger s creates now h = ground (arith, load-IsLedger s h)

  start-goes :
      (s : SupplyIndex) (creates : Bool) (now : ℕ)
      → s.running ≡ false
      → (start wide s creates now).1 ≡ true
      → (start wide s creates now).0.stop_requested ≡ false
  unfolding start
  start-goes s creates now idle e = ground arith

  -- Whatever the state file, the disk, the clock and the views of the node give, after a start that
  -- succeeds and at least one round the records are a ledger, and the snapshot shows their number
  -- and their cumulative sums and is marked complete only where its block count is the number of
  -- records.
  pub run-start-IsSound :
      (data_path : Bytes) (i : Identity) (batch_size : ℕ) (files : Files) (creates : Bool) (now : ℕ)
      (r : Round) (rounds : List Round)
      → (start wide (make_index data_path i batch_size files) creates now).1 ≡ true
      → IsSound (
          run wide
            (start wide (make_index data_path i batch_size files) creates now).0
            (r ∷ rounds))
  unfolding run
  run-start-IsSound data_path i batch_size files creates now r rounds e =
      if-elim IsSound (start wide fresh creates now).0.stop_requested
        (λ stopped. absurd (ground (arith, start-goes fresh creates now fresh_idle e)))
        (λ _.
          run-IsSound _ rounds
            (round-IsSound _ r.disk r.now r.views (start-IsLedger fresh creates now fresh_empty)))
    where
      fresh : SupplyIndex
      fresh = make_index data_path i batch_size files

      fresh_idle : fresh.running ≡ false
      fresh_idle = unfold make_index in refl

      fresh_empty : IsLedger fresh.records
      fresh_empty = unfold make_index in tt
