-- ===== src/Supply/Index.antt =====
-- The SupplyIndex class of src/SupplyIndex.cpp: its state, update_once and publish. The records and
-- the snapshot are read and written under mutex_ by one thread that changes them, so a round is a
-- function of the state, of the views that its calls of the node meet, of the file system's answers
-- and of the clock.
pub mod Run
pub mod Safety
pub mod Updates
pub mod Rounds
pub mod Progress
use explorer_qwertycoin_org.Base.{
  true, ℕ, zero, suc, ◌+◌, ◌-◌, min, max, Bool, false, ◌&&◌, not, List, [], ◌∷◌, Option, none, some,
  Bytes, codes, ltb, ◌==◌, if◌then◌else◌, length, same,
}
use explorer_qwertycoin_org.Supply.{
  SupplyRecord, back_hash, append_supply_record, rollback_supply_records,
}
use explorer_qwertycoin_org.Supply.Text.{WideText}
use explorer_qwertycoin_org.Supply.Checkpoint.{Identity, calculation_version, checkpoint_text}
use explorer_qwertycoin_org.Supply.Node.{
  Node, Outcome, done, failed, Reading, ◌>>=◌, ◌>>◌, return, observe, refuse_if, or_throw,
  read_record,
}

pub record SupplySnapshot : Type 0 where
  pub availability : Bytes
  pub message : Bytes
  pub genesis_hash : Bytes
  pub chain_reset_id : Bytes
  pub version : Bytes
  pub block_count : ℕ
  pub tip_height : ℕ
  pub tip_hash : Bytes
  pub indexed_block_count : ℕ
  pub indexed_through_height : ℕ
  pub indexed_through_hash : Bytes
  pub minted_supply_atomic : Bytes
  pub gross_coinbase_atomic : Bytes
  pub cumulative_fees_atomic : Bytes
  pub observed_at : ℕ
  pub complete : Bool

-- What a file holds, and whether fsync has succeeded since it was written.
pub record File : Type 0 where
  pub text : Bytes
  pub synced : Bool

-- The checkpoint and its temporary file.
pub record Files : Type 0 where
  pub state_file : Option File
  pub temporary : Option File

pub record SupplyIndex : Type 0 where
  pub data_path : Bytes
  pub identity : Identity
  pub batch_size : ℕ
  pub records : List SupplyRecord
  pub snapshot : SupplySnapshot
  pub files : Files
  pub stop_requested : Bool
  pub running : Bool

-- The answers of the file system to one call of persist; `partial` is what the temporary file
-- holds where the stream failed before its end.
pub record Disk : Type 0 where
  pub opens : Bool
  pub flushes : Bool
  pub partial : Bytes
  pub syncs : Bool
  pub renames : Bool

-- The stream leaves the whole text where it is good after the flush, and a part of it where not.
abbrev pub write_temporary : Disk → Bytes → Files → Files
write_temporary disk text files = record files {
  temporary = some (record { text = if disk.flushes then text else disk.partial; synced = false });
}

abbrev pub mark_synced : Option File → Option File
mark_synced none = none
mark_synced (some f) = some (record f { synced = true })

-- fsync of the temporary file.
abbrev pub sync_temporary : Disk → Files → Files
sync_temporary disk files =
    if disk.syncs then record files { temporary = mark_synced files.temporary } else files

-- rename(2) moves what the temporary file is, or changes nothing.
abbrev pub rename_temporary : Disk → Files → Files
rename_temporary disk files =
    if disk.renames then record { state_file = files.temporary; temporary = none } else files

abbrev pub initial_snapshot : Identity → SupplySnapshot
initial_snapshot i = record {
  availability = codes "indexing";
  message = [];
  genesis_hash = i.genesis_hash;
  chain_reset_id = i.chain_reset_id;
  version = calculation_version;
  block_count = 0;
  tip_height = 0;
  tip_hash = [];
  indexed_block_count = 0;
  indexed_through_height = 0;
  indexed_through_hash = [];
  minted_supply_atomic = codes "0";
  gross_coinbase_atomic = codes "0";
  cumulative_fees_atomic = codes "0";
  observed_at = 0;
  complete = false;
}

-- The constructor; `genesis` is the hash of block 0, empty where there is none.
unfoldable pub make_index : Bytes → Identity → ℕ → Files → SupplyIndex
make_index data_path identity batch_size files = record {
  data_path = data_path;
  identity = identity;
  batch_size = max 1 (min batch_size 4096);
  records = [];
  snapshot = initial_snapshot identity;
  files = files;
  stop_requested = false;
  running = false;
}

abbrev pub with_back : WideText → List SupplyRecord → SupplySnapshot → SupplySnapshot
with_back wide [] next = next
with_back wide (r ∷ rs) next = record next {
  indexed_through_height = r.height;
  indexed_through_hash = r.hash;
  minted_supply_atomic = wide.print r.cumulative_minted;
  gross_coinbase_atomic = wide.print r.cumulative_coinbase;
  cumulative_fees_atomic = wide.print r.cumulative_fees;
}

module _ (wide : WideText) where
  unfoldable pub publish :
      SupplyIndex → Bytes → Bytes → ℕ → Bytes → List SupplyRecord → Bool → ℕ → SupplyIndex
  publish s availability message block_count tip_hash records complete now = record s {
    snapshot = with_back wide records (record (initial_snapshot s.identity) {
      availability = availability;
      message = message;
      block_count = block_count;
      tip_height = if ltb 0 block_count then block_count - 1 else 0;
      tip_hash = tip_hash;
      indexed_block_count = length records;
      observed_at = now;
      complete = complete;
    });
  }

  -- The temporary file is written and synced before it is renamed; the error is the text set. The
  -- directory is synced last, whose answer is not looked at.
  unfoldable pub persist : Disk → Identity → List SupplyRecord → Files → Option Bytes × Files
  persist disk i records files =
      let written = write_temporary disk (checkpoint_text wide i records) files in
      let synced = sync_temporary disk written in
      if not disk.opens
      then (some (codes "Cannot open temporary supply checkpoint"), files)
      else if not disk.flushes
      then (some (codes "Cannot flush supply checkpoint"), written)
      else if not disk.syncs
      then (some (codes "Cannot sync supply checkpoint"), synced)
      else if not disk.renames
      then (
        some (codes "Cannot atomically publish supply checkpoint"),
        rename_temporary disk synced,
      )
      else (none, rename_temporary disk synced)

-- The hash of each height as the calls of a rollback from `n` records meet it: the records are
-- looked at from the back, each at a view of its own.
abbrev pub hash_during : (ℕ → Node) → ℕ → ℕ → ℕ → Bytes
hash_during views t n height = (views (t + (n - 1 - height))).block_id height

unfoldable pub roll_back : List SupplyRecord → ℕ → Reading (List SupplyRecord)
roll_back records count views t =
    done (rollback_supply_records records count (hash_during views t (length records)))
      (t + length records)

-- The loop that reads records until there are `target`.
unfoldable pub extend_to : ℕ → ℕ → List SupplyRecord → Reading (List SupplyRecord)
extend_to zero target candidate = return candidate
extend_to (suc rounds) target candidate =
    if ltb (length candidate) target
    then (do
      r ← read_record (length candidate) (back_hash candidate)
      more ←
          or_throw (append_supply_record candidate r)
            (codes "Invalid or overflowing cumulative supply record")
      extend_to rounds target more)
    else return candidate

unfoldable pub check_back : List SupplyRecord → Reading (Unit {0})
check_back [] = return tt
check_back (r ∷ rs) = do
  hash ← observe (λ c. c.block_id r.height)
  refuse_if (not (same hash r.hash)) (codes "Canonical chain changed during supply batch")

abbrev pub tip_of : ℕ → Reading Bytes
tip_of count = if ltb 0 count then observe (λ c. c.block_id (count - 1)) else return []

-- update_once up to the call of persist: the block count, the tip and the new records.
unfoldable pub gather : SupplyIndex → Reading (ℕ × Bytes × List SupplyRecord)
gather s = do
  block_count ← observe (λ c. c.height)
  refuse_if (block_count == 0) (codes "Canonical chain is empty")
  genesis ← observe (λ c. c.block_id 0)
  refuse_if (not (same genesis s.identity.genesis_hash))
      (codes "Genesis changed; supply index reset context is invalid")
  observed_tip ← observe (λ c. c.block_id (block_count - 1))
  kept ← roll_back s.records block_count
  let target = min block_count (length kept + s.batch_size)
  candidate ← extend_to (target - length kept) target kept
  check_back candidate
  return (block_count, observed_tip, candidate)

-- The count and the tip after the checkpoint is written.
abbrev pub look_again : Reading (ℕ × Bytes)
look_again = do
  final_count ← observe (λ c. c.height)
  final_tip ← tip_of final_count
  return (final_count, final_tip)

module _ (wide : WideText) where
  abbrev pub finish :
      SupplyIndex → ℕ × Bytes × List SupplyRecord → Files → ℕ → ℕ × Bytes → SupplyIndex
  finish s (block_count, observed_tip, candidate) files now (final_count, final_tip) =
      let complete =
        final_count == length candidate
        && final_count == block_count
        && same final_tip observed_tip in
      publish wide (record s { records = candidate; files = files })
        (if complete then codes "current" else codes "indexing") [] final_count final_tip candidate
        complete now

  abbrev pub conclude :
      SupplyIndex
      → ℕ × Bytes × List SupplyRecord
      → Files
      → ℕ
      → Outcome (ℕ × Bytes)
      → SupplyIndex × Outcome (Unit {0})
  conclude s g files now (done final t) = (finish s g files now final, done tt t)
  conclude s g files now (failed e t) = (record s { files = files }, failed e t)

  abbrev pub commit :
      SupplyIndex
      → ℕ
      → ℕ × Bytes × List SupplyRecord
      → (ℕ → Node)
      → ℕ
      → Option Bytes × Files
      → SupplyIndex × Outcome (Unit {0})
  commit s now g views t (some e, files) = (record s { files = files }, failed e t)
  commit s now g views t (none, files) = conclude s g files now (look_again views t)

  abbrev pub after_gather :
      SupplyIndex
      → Disk
      → ℕ
      → (ℕ → Node)
      → Outcome (ℕ × Bytes × List SupplyRecord)
      → SupplyIndex × Outcome (Unit {0})
  after_gather s disk now views (failed e t) = (s, failed e t)
  after_gather s disk now views (done (count, tip, candidate) t) =
      commit s now (count, tip, candidate) views t (persist wide disk s.identity candidate s.files)

  unfoldable pub update_once :
      SupplyIndex → Disk → ℕ → (ℕ → Node) → ℕ → SupplyIndex × Outcome (Unit {0})
  update_once s disk now views t = after_gather s disk now views (gather s views t)
