-- ===== src/Examples/Supplies.antt =====
-- A chain of two blocks, its ledger, its checkpoint and one round of the index.
use explorer_qwertycoin_org.Base.{
  zero, suc, min, ◌<◌, suc, min, ◌<◌, length, ◌++◌, ap, ℕ, ◌≡◌, ◌≢◌, ◌⊎◌, ◌≤◌, ◌+◌, inl, inr, refl,
  true, false, [], ◌∷◌, none, some, Bytes, arith, codes, same, u128_max, All, is_empty, ◌&&◌, leb,
  if◌then◌else◌,
}
use explorer_qwertycoin_org.Supply.Node.{
  done, Block, read_record, check_parent, read_fees, sum_fees, Node,
}
use explorer_qwertycoin_org.Decimal.{to_text, take_digits}
use explorer_qwertycoin_org.Decimal.Laws.{take_digits-to_text, to_text-IsDigit, to_text-ne-nil}
use explorer_qwertycoin_org.Supply.{
  SupplyRecord, append_supply_record, rollback_supply_records, is_next, minted_delta,
  checked_supply_add,
}
use explorer_qwertycoin_org.Supply.Ledger.{
  IsLedger, append_lem, rollback_lem, extended, popped, IsCanonical, BackIsCanonical,
}
use explorer_qwertycoin_org.Supply.Text.{WideText, Extraction, extracted}
use explorer_qwertycoin_org.Supply.Checkpoint.{Identity, load_text, checkpoint_text}
use explorer_qwertycoin_org.Supply.Checkpoint.RoundTrip.{
  load_text-IsLedger, load_text-checkpoint_text, IsNameable, IsStorable,
}
use explorer_qwertycoin_org.Supply.Index.{
  SupplyIndex, Files, Disk, make_index, publish, update_once, persist, gather, roll_back, extend_to,
  check_back,
}
use explorer_qwertycoin_org.Supply.Index.Run.{Round, round, run, start}
use explorer_qwertycoin_org.Supply.Index.Updates.{Updated, update_once-Updated, persist-atomic}
use explorer_qwertycoin_org.Supply.Index.Progress.{
  update_once-ledger_of, ledger_of, accepting_disk, InOrder,
}
use explorer_qwertycoin_org.Supply.Index.Rounds.{IsSound, run-start-IsSound}

abbrev read_wide : ℕ × Bytes → Extraction
read_wide (n, rest) = extracted false n (is_empty rest)

abbrev pub decimal_wide : WideText
decimal_wide = record {
  print = to_text;
  extract = λ s. read_wide (take_digits 0 s);
  print-IsDigit = λ n _. to_text-IsDigit n;
  print-ne-nil = λ n _. to_text-ne-nil n;
  extract-print = λ n _. ap read_wide (take_digits-to_text n);
}

abbrev pub first_record : SupplyRecord
first_record = record {
  height = 0;
  hash = codes "aa";
  parent_hash = [];
  coinbase_atomic = 50;
  fees_atomic = 0;
  minted_atomic = 50;
  cumulative_coinbase = 50;
  cumulative_fees = 0;
  cumulative_minted = 50;
}

abbrev next_record : SupplyRecord
next_record = record {
  height = 1;
  hash = codes "bb";
  parent_hash = codes "aa";
  coinbase_atomic = 53;
  fees_atomic = 3;
  minted_atomic = 0;
  cumulative_coinbase = 0;
  cumulative_fees = 0;
  cumulative_minted = 0;
}

pub first-IsLedger : IsLedger (first_record ∷ [])
first-IsLedger = (
  record {
    place = refl;
    parent = refl;
    covered = omega arith;
    minted = refl;
    sum_coinbase = refl;
    sum_fees = refl;
    sum_minted = refl;
    fits = omega arith;
  },
  tt,
)

append_lem_example : append_supply_record (first_record ∷ []) next_record ≡ (
    if is_next (first_record ∷ []) next_record && leb 3 53 && leb (50 + 53) u128_max
    then some (extended (first_record ∷ []) next_record ∷ first_record ∷ [])
    else none)
append_lem_example = append_lem (first_record ∷ []) next_record first-IsLedger

appended :
    append_supply_record (first_record ∷ []) next_record
    ≡ some (extended (first_record ∷ []) next_record ∷ first_record ∷ [])
unfolding append_supply_record is_next minted_delta checked_supply_add same
appended = refl

-- The hashes after a reorganisation that replaced the block of first_record.
abbrev other_hashes : ℕ → Bytes
other_hashes h = codes "cc"

rollback_lem_example :
    let kept = rollback_supply_records (first_record ∷ []) 1 other_hashes in
    (popped (first_record ∷ []) 1 other_hashes ++ kept ≡ first_record ∷ [])
    × All (λ r. ¬ IsCanonical 1 other_hashes r) (popped (first_record ∷ []) 1 other_hashes)
    × BackIsCanonical 1 other_hashes kept
    × IsLedger kept
    × (length kept ≤ 1)
rollback_lem_example = rollback_lem (first_record ∷ []) 1 other_hashes first-IsLedger

abbrev pub test_identity : Identity
test_identity = record {
  network_name = codes "testnet";
  genesis_hash = codes "aa";
  chain_reset_id = codes "r1";
}

test_identity-IsNameable : IsNameable test_identity
test_identity-IsNameable = record {
  network_clean = omega arith;
  genesis_clean = omega arith;
  reset_clean = omega arith;
}

first_record-IsStorable : IsStorable first_record
first_record-IsStorable = record {
  height_fits = omega arith;
  coinbase_fits = omega arith;
  hash_clean = omega arith;
  parent_clean = tt;
}

load_text-checkpoint_text_example :
    ((test_identity ≡ test_identity)
      × (load_text decimal_wide test_identity
            (checkpoint_text decimal_wide test_identity (first_record ∷ []))
          ≡ some (first_record ∷ [])))
    ⊎ ((test_identity ≢ test_identity)
        × (load_text decimal_wide test_identity
              (checkpoint_text decimal_wide test_identity (first_record ∷ []))
            ≡ none))
load_text-checkpoint_text_example =
    load_text-checkpoint_text decimal_wide test_identity test_identity (first_record ∷ [])
      test_identity-IsNameable first-IsLedger (first_record-IsStorable, tt)

read_again :
    load_text decimal_wide test_identity
      (checkpoint_text decimal_wide test_identity (first_record ∷ []))
    ≡ some (first_record ∷ [])
read_again =
    elim (load_text-checkpoint_text decimal_wide test_identity test_identity (first_record ∷ [])
      test_identity-IsNameable first-IsLedger (first_record-IsStorable, tt)) [
        | inl h ↦ h.1
        | inr h ↦ absurd (h.0 refl)
      ]

load_text-IsLedger_example : IsLedger (first_record ∷ [])
load_text-IsLedger_example =
    load_text-IsLedger decimal_wide test_identity
      (checkpoint_text decimal_wide test_identity (first_record ∷ [])) (first_record ∷ [])
      read_again

abbrev pub test_files : Files
test_files = record { state_file = none; temporary = none }

abbrev good_disk : Disk
good_disk = record { opens = true; flushes = true; partial = []; syncs = true; renames = true }

abbrev test_index : SupplyIndex
test_index = make_index (codes "data") test_identity 100 test_files

abbrev test_node : Node
test_node = record {
  height = 1;
  block_id = λ h. codes "aa";
  block_at = λ h.
      some (record { coinbase_amount = 50; block_hash = codes "aa"; prev_id = []; tx_hashes = [] });
  transactions = λ hashes. record { succeeded = true; fees = []; missed = [] };
}

persist-atomic_example :
    (((persist decimal_wide good_disk test_identity (first_record ∷ []) test_files).0 ≡ none)
      × ((persist decimal_wide good_disk test_identity (first_record ∷ []) test_files).1.state_file
          ≡ some (record {
            text = checkpoint_text decimal_wide test_identity (first_record ∷ []);
            synced = true;
          })))
    ⊎ (((persist decimal_wide good_disk test_identity (first_record ∷ []) test_files).0 ≢ none)
        × ((persist decimal_wide good_disk test_identity
              (first_record ∷ [])
              test_files).1.state_file
            ≡ none))
persist-atomic_example =
    persist-atomic decimal_wide good_disk test_identity (first_record ∷ []) test_files

no_records : IsLedger test_index.records
unfolding make_index
no_records = tt

update_once-Updated_example :
    Updated decimal_wide test_index
      (λ t. test_node)
      0
      (update_once decimal_wide test_index good_disk 7 (λ t. test_node) 0)
update_once-Updated_example =
    update_once-Updated decimal_wide test_index good_disk 7 (λ t. test_node) 0 no_records

abbrev test_round : Round
test_round = record { disk = good_disk; now = 7; views = λ t. test_node }

started : (start decimal_wide test_index true 7).1 ≡ true
unfolding start make_index
started = refl

run-start-IsSound_example :
    IsSound decimal_wide
      (run decimal_wide (start decimal_wide test_index true 7).0 (test_round ∷ []))
run-start-IsSound_example =
    run-start-IsSound decimal_wide (codes "data") test_identity 100 test_files true 7 test_round []
      started

abbrev test_blocks : ℕ → Block
test_blocks h = record {
  coinbase_amount = 50;
  block_hash = codes "aa";
  prev_id = [];
  tx_hashes = [];
}

test_node-InOrder : (h : ℕ) → h < 1 → InOrder test_node test_blocks h
test_node-InOrder zero lt = record {
  found = refl;
  named = refl;
  name_some = cc;
  follows = λ k e. absurd (omega arith);
  all_found = refl;
  none_missed = refl;
  all_fees = refl;
  fees_fit = omega arith;
  covered = omega arith;
}
test_node-InOrder (suc h) lt = absurd (omega arith)

test_genesis : test_node.block_id 0 ≡ test_index.identity.genesis_hash
unfolding make_index
test_genesis = refl

no_blocks_yet : test_index.records ≡ ledger_of test_node test_blocks 0
unfolding make_index
no_blocks_yet = refl

update_once-ledger_of_example :
    let u = update_once decimal_wide test_index accepting_disk 7 (λ t. test_node) 0 in
    (u.0.records ≡ ledger_of test_node test_blocks (min 1 (0 + test_index.batch_size)))
    × (t' : ℕ) × (u.1 ≡ done tt t')
update_once-ledger_of_example =
    update_once-ledger_of decimal_wide test_node test_blocks test_index 7 0 0 no_blocks_yet
      (omega arith) (omega arith) test_genesis (test_node-InOrder, omega arith)

-- The round reads the block, and the snapshot is current.
one_round :
    ((round decimal_wide test_index good_disk 7 (λ t. test_node)).records ≡ first_record ∷ [])
    × ((round decimal_wide test_index good_disk 7 (λ t. test_node)).snapshot.complete ≡ true)
unfolding round update_once gather make_index roll_back extend_to check_back read_record
    check_parent read_fees sum_fees append_supply_record is_next minted_delta checked_supply_add
    same rollback_supply_records persist publish
one_round = (refl, refl)
