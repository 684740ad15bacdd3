-- ===== src/Supply/Index/Run.antt =====
-- src/SupplyIndex.cpp: run, load, start and stop over update_once.
use explorer_qwertycoin_org.Supply.Index.{File, Disk, SupplyIndex, look_again, publish, update_once}
use explorer_qwertycoin_org.Base.{
  ℕ, Bool, true, false, ◌||◌, not, List, [], ◌∷◌, Option, none, some, Bytes, codes, if◌then◌else◌,
  is_empty,
}
use explorer_qwertycoin_org.Supply.{SupplyRecord}
use explorer_qwertycoin_org.Supply.Text.{WideText}
use explorer_qwertycoin_org.Supply.Checkpoint.{load_text}
use explorer_qwertycoin_org.Supply.Node.{Node, Outcome, done, failed}

-- What one round of run meets: the file system's answers, the clock and the views of the node.
pub record Round : Type 0 where
  pub disk : Disk
  pub now : ℕ
  pub views : ℕ → Node

module _ (wide : WideText) where
  abbrev pub report : SupplyIndex → Bytes → ℕ → Outcome (ℕ × Bytes) → SupplyIndex
  report s e now (done (count, tip) t) =
      publish wide s (codes "error") e count tip s.records false now
  report s e now (failed e' t) = s

  abbrev pub after_update : ℕ → (ℕ → Node) → SupplyIndex × Outcome (Unit {0}) → SupplyIndex
  after_update now views (s, done _ t) = s
  after_update now views (s, failed e t) = report s e now (look_again views t)

  -- One round of the loop in run.
  unfoldable pub round : SupplyIndex → Disk → ℕ → (ℕ → Node) → SupplyIndex
  round s disk now views = after_update now views (update_once wide s disk now views 0)

  -- The loop in run, from the answers that its rounds meet.
  unfoldable pub run : SupplyIndex → List Round → SupplyIndex
  run s [] = s
  run s (r ∷ rest) =
      let more = run (round s r.disk r.now r.views) rest in if s.stop_requested then s else more

  -- load: the records are replaced only where the whole file is accepted.
  abbrev pub loaded : SupplyIndex → Option (List SupplyRecord) → SupplyIndex
  loaded s none = s
  loaded s (some records) = record s { records = records }

  abbrev pub load_file : SupplyIndex → Option File → SupplyIndex
  load_file s none = s
  load_file s (some f) = loaded s (load_text wide s.identity f.text)

  unfoldable pub load : SupplyIndex → SupplyIndex
  load s = load_file s s.files.state_file

  -- start: `creates` is whether the data directory can be made.
  unfoldable pub start : SupplyIndex → Bool → ℕ → SupplyIndex × Bool
  start s creates now =
      if s.running
      then (s, true)
      else if is_empty s.data_path
          || is_empty s.identity.chain_reset_id
          || is_empty s.identity.genesis_hash
      then (
        publish wide s (codes "error")
            (codes "Supply index configuration or genesis is unavailable") 0 [] [] false now,
        false,
      )
      else if not creates
      then (
        publish wide s (codes "error") (codes "Cannot create explorer-derived data directory") 0 []
            [] false now,
        false,
      )
      else (record (load s) { running = true; stop_requested = false }, true)

unfoldable pub stop : SupplyIndex → SupplyIndex
stop s = if s.running then record s { running = false; stop_requested = true } else s
