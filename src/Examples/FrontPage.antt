-- ===== src/Examples/FrontPage.antt =====
-- The front page, over a chain of five blocks with one transaction each, the block at height 3 gone.
use explorer_qwertycoin_org.Api.{
  get_block_by_height, tx_fee_of, is_searched, get_tx_details, Node, Answer, success,
}
use explorer_qwertycoin_org.Index.{
  index_block, recheck, index_blocks, page_snapshot, sum_index_fees,
}
use explorer_qwertycoin_org.Index.Page.{index_range, db_tip, IndexPage, index2}
use explorer_qwertycoin_org.Base.{
  ◌==◌, if◌then◌else◌, none, some, [], ◌∷◌, ℕ, codes, false, true, same, ◌≡◌, refl,
}
use explorer_qwertycoin_org.Transaction.{Transaction, to_key}
use explorer_qwertycoin_org.Observer.{last_block_time}
use explorer_qwertycoin_org.Pagination.{make_descending_block_range}
use explorer_qwertycoin_org.Index.Page.Anchored.{IsIndex, index2-IsIndex}
use explorer_qwertycoin_org.Examples.Pages.{mined_tx}
use explorer_qwertycoin_org.Examples.Snapshots.{tip, value_or, end_of}
use explorer_qwertycoin_org.Examples.Observers.{observed, shared_state}

abbrev spending : Transaction
spending = record mined_tx {
  vin = to_key (record { amount = 9; key_offsets = []; key_image = codes "i" }) ∷ [];
  fee = 3;
  begins_with_gen = false;
}

abbrev with_fees : Node
with_fees = record observed {
  db_block = λ height.
      if height == 3
      then none
      else some (record { timestamp = 50; miner_tx = mined_tx; tx_hashes = codes "t" ∷ [] });
  transactions = λ hs. record { succeeded = true; txs = spending ∷ []; missed = [] };
}

abbrev with_fees_views : ℕ → Node
with_fees_views n = with_fees

abbrev front_page : Answer IndexPage
front_page = index2 shared_state 2 10 (codes "overview") 0 5 tip 90 with_fees_views 0

abbrev no_page : IndexPage
no_page = record {
  block_count = 0;
  page_no = 0;
  total_pages = 0;
  is_last_page = true;
  no_of_last_blocks = 0;
  snapshot_block_count = 0;
  snapshot_tip_hash = [];
  next_page_url = [];
  prev_page_url = [];
  blocks = [];
  supply_complete = false;
  supply_mined = [];
  chain_anchor_consistent = false;
  is_current_info = false;
  last_block_time = none;
  pool = none;
}

front_page_read : front_page ≡ success (value_or no_page front_page) (end_of front_page)
unfolding index2 sum_index_fees page_snapshot index_blocks recheck db_tip index_range get_tx_details
    is_searched tx_fee_of index_block get_block_by_height last_block_time same
    make_descending_block_range
front_page_read = refl

index2-IsIndex_example :
    IsIndex shared_state 2 10
      (codes "overview")
      0
      5
      tip
      90
      with_fees_views
      0
      (value_or no_page front_page)
      (end_of front_page)
index2-IsIndex_example =
    index2-IsIndex shared_state 2 10 (codes "overview") 0 5 tip 90 with_fees_views 0
      (end_of front_page) front_page_read
