-- ===== src/Emission.antt =====
-- src/CurrentBlockchainStatus.h and src/CurrentBlockchainStatus.cpp: the running total of what was
-- emitted. The chain is what the node answers for each height: the outputs of the miner
-- transaction and the fees of the transactions that were found. All sums are uint64_t and wrap.
pub mod Totals
pub mod File
use explorer_qwertycoin_org.Base.{
  ℕ, zero, suc, ◌+◌, ◌-◌, ◌&&◌, List, [], ◌∷◌, ◌++◌, Bytes, codes, ltb, leb, if◌then◌else◌, add64,
  sub64,
}
use explorer_qwertycoin_org.Decimal.{to_text}

pub record Emission : Type 0 where
  pub coinbase : ℕ
  pub fee : ℕ
  pub blk_no : ℕ

unfoldable pub checksum : Emission → ℕ
checksum e = add64 (add64 e.coinbase e.fee) e.blk_no

-- The text of an emission, as it is saved.
unfoldable pub emission_text : Emission → Bytes
emission_text e =
    to_text e.blk_no
    ++ codes ","
    ++ to_text e.coinbase
    ++ codes ","
    ++ to_text e.fee
    ++ codes ","
    ++ to_text (checksum e)

-- What get_block_by_height and get_transactions give at a height: get_outs_money_amount of the
-- miner transaction, and get_tx_fee of each transaction that was found.
pub record BlockAnswer : Type 0 where
  pub miner_outputs : ℕ
  pub fees : List ℕ

unfoldable pub sum_tx_fees : List ℕ → ℕ → ℕ
sum_tx_fees [] sum = sum
sum_tx_fees (f ∷ fs) sum = sum_tx_fees fs (add64 sum f)

unfoldable pub add_block : BlockAnswer → Emission → Emission
add_block b e =
    let tx_fee_amount = sum_tx_fees b.fees 0 in
    record e {
      coinbase = add64 e.coinbase (sub64 b.miner_outputs tx_fee_amount);
      fee = add64 e.fee tx_fee_amount;
    }

-- The loop: the number of blocks that are left below end_blk, and start_blk.
unfoldable pub emission_loop : (ℕ → BlockAnswer) → ℕ → ℕ → Emission → Emission
emission_loop chain zero start_blk e = record e { blk_no = start_blk }
emission_loop chain (suc n) start_blk e =
    emission_loop chain n (suc start_blk) (add_block (chain start_blk) e)

-- `start_blk < end_blk` holds once for each block between them.
unfoldable pub calculate_emission_in_blocks : (ℕ → BlockAnswer) → ℕ → ℕ → Emission
calculate_emission_in_blocks chain start_blk end_blk =
    emission_loop chain (end_blk - start_blk) start_blk
      (record { coinbase = 0; fee = 0; blk_no = 0 })

abbrev pub blockchain_chunk_size : ℕ
blockchain_chunk_size = 10000

abbrev pub blockchain_chunk_gap : ℕ
blockchain_chunk_gap = 3

-- Where an update stops.
unfoldable pub update_end : ℕ → ℕ → ℕ
update_end blk_no height =
    let end_block = add64 blk_no blockchain_chunk_size in
    if ltb height end_block then sub64 height blockchain_chunk_gap else end_block

unfoldable pub update_current_emission_amount : (ℕ → BlockAnswer) → ℕ → Emission → Emission
update_current_emission_amount chain height total =
    let calculated =
      calculate_emission_in_blocks chain total.blk_no (update_end total.blk_no height) in
    record {
      coinbase = add64 total.coinbase calculated.coinbase;
      fee = add64 total.fee calculated.fee;
      blk_no = calculated.blk_no;
    }

unfoldable pub get_emission : (ℕ → BlockAnswer) → ℕ → Emission → Emission
get_emission chain height total =
    let end_block = add64 total.blk_no blockchain_chunk_gap in
    let gap =
      calculate_emission_in_blocks chain total.blk_no
        (if ltb height end_block then height else end_block) in
    if leb height end_block && ltb total.blk_no height
    then record {
      coinbase = add64 total.coinbase gap.coinbase;
      fee = add64 total.fee gap.fee;
      blk_no = if ltb 0 gap.blk_no then gap.blk_no else total.blk_no;
    }
    else total
