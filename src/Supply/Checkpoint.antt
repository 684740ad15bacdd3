-- ===== src/Supply/Checkpoint.antt =====
-- The checkpoint file of src/SupplyIndex.cpp: the text that persist writes and load reads.
pub mod RoundTrip
use explorer_qwertycoin_org.Base.{
  ◌+◌, ◌-◌, Bool, false, ◌&&◌, not, List, [], ◌∷◌, ◌++◌, Option, none, some, Bytes, codes, ltb,
  ◌==◌, if◌then◌else◌, length, is_empty, same,
}
use explorer_qwertycoin_org.Decimal.{to_text}
use explorer_qwertycoin_org.Supply.{
  SupplyRecord, checked_supply_add, back_hash, prior_coinbase, prior_fees, prior_minted, ◌>>=◌,
}
use explorer_qwertycoin_org.Supply.Text.{
  WideText, tab, newline, split_tabs, lines, parse_u64, parse_supply_wide,
}

abbrev pub state_magic : Bytes
state_magic = codes "QWC_SUPPLY_INDEX_V2"

abbrev pub calculation_version : Bytes
calculation_version = codes "actual-coinbase-minus-fees-v1"

-- What a checkpoint must name besides the format: network_name_, genesis_hash_, chain_reset_id_.
pub record Identity : Type 0 where
  pub network_name : Bytes
  pub genesis_hash : Bytes
  pub chain_reset_id : Bytes

unfoldable pub header_line : Identity → Bytes
header_line i =
    state_magic
    ++ tab
      ∷ (i.network_name
          ++ tab ∷ (i.genesis_hash ++ tab ∷ (i.chain_reset_id ++ tab ∷ calculation_version)))

unfoldable pub header_matches : Identity → List Bytes → Bool
header_matches i (magic ∷ network ∷ genesis ∷ reset ∷ version ∷ []) =
    same magic state_magic
    && same network i.network_name
    && same genesis i.genesis_hash
    && same reset i.chain_reset_id
    && same version calculation_version
header_matches i other = false

module _ (wide : WideText) where
  unfoldable pub record_line : SupplyRecord → Bytes
  record_line r =
      to_text r.height
      ++ tab
        ∷ (r.hash
            ++ tab
              ∷ (r.parent_hash
                  ++ tab
                    ∷ (to_text r.coinbase_atomic
                        ++ tab
                          ∷ (to_text r.fees_atomic
                              ++ tab
                                ∷ (to_text r.minted_atomic
                                    ++ tab
                                      ∷ (wide.print r.cumulative_coinbase
                                          ++ tab
                                            ∷ (wide.print r.cumulative_fees
                                                ++ tab ∷ wide.print r.cumulative_minted)))))))

  -- One line for each record, oldest first.
  unfoldable pub record_lines : List SupplyRecord → Bytes
  record_lines [] = []
  record_lines (r ∷ rs) = record_lines rs ++ (record_line r ++ newline ∷ [])

  -- The whole file that persist writes.
  unfoldable pub checkpoint_text : Identity → List SupplyRecord → Bytes
  checkpoint_text i records = header_line i ++ newline ∷ record_lines records

  -- The nine fields of a line as a record; `none` where one is no number, or their count is wrong.
  unfoldable pub parse_record : List Bytes → Option SupplyRecord
  parse_record (f0 ∷ f1 ∷ f2 ∷ f3 ∷ f4 ∷ f5 ∷ f6 ∷ f7 ∷ f8 ∷ []) = do
    height ← parse_u64 f0
    coinbase ← parse_u64 f3
    fees ← parse_u64 f4
    minted ← parse_u64 f5
    sum_coinbase ← parse_supply_wide wide f6
    sum_fees ← parse_supply_wide wide f7
    sum_minted ← parse_supply_wide wide f8
    some (record {
      height = height;
      hash = f1;
      parent_hash = f2;
      coinbase_atomic = coinbase;
      fees_atomic = fees;
      minted_atomic = minted;
      cumulative_coinbase = sum_coinbase;
      cumulative_fees = sum_fees;
      cumulative_minted = sum_minted;
    })
  parse_record other = none

-- load's tests on a record behind the records loaded so far.
unfoldable pub fits_behind : List SupplyRecord → SupplyRecord → Bool
fits_behind loaded r =
    (r.height == length loaded)
    && not (ltb r.coinbase_atomic r.fees_atomic)
    && (r.minted_atomic == (r.coinbase_atomic - r.fees_atomic))
    && not (r.height == 0 && not (is_empty r.parent_hash))
    && not (ltb 0 r.height && not (same r.parent_hash (back_hash loaded)))

-- load's recomputation of the running sums.
unfoldable pub push_checked : List SupplyRecord → SupplyRecord → Option (List SupplyRecord)
push_checked loaded r = do
  coinbase_sum ← checked_supply_add (prior_coinbase loaded) r.coinbase_atomic
  fees_sum ← checked_supply_add (prior_fees loaded) r.fees_atomic
  minted_sum ← checked_supply_add (prior_minted loaded) r.minted_atomic
  if coinbase_sum == r.cumulative_coinbase
        && fees_sum == r.cumulative_fees
        && minted_sum == r.cumulative_minted
      then some (r ∷ loaded)
      else none

module _ (wide : WideText) where
  unfoldable pub load_line : List SupplyRecord → Bytes → Option (List SupplyRecord)
  load_line loaded line = do
    r ← parse_record wide (split_tabs line)
    if fits_behind loaded r then push_checked loaded r else none

  unfoldable pub load_lines : List SupplyRecord → List Bytes → Option (List SupplyRecord)
  load_lines loaded [] = some loaded
  load_lines loaded (line ∷ rest) = do more ← load_line loaded line; load_lines more rest

  abbrev load_parts : Identity → List Bytes → Option (List SupplyRecord)
  load_parts i [] = none
  load_parts i (header ∷ rest) =
      if header_matches i (split_tabs header) then load_lines [] rest else none

  -- `none` is `return false`, which leaves the records as they were.
  unfoldable pub load_text : Identity → Bytes → Option (List SupplyRecord)
  load_text i text = load_parts i (lines text)
