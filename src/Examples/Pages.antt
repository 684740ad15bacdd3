-- ===== src/Examples/Pages.antt =====
-- The JSON pages over a chain of three blocks that does not change.
use explorer_qwertycoin_org.Base.{
  ℕ, ◌-◌, ◌/◌, true, false, [], ◌∷◌, Option, none, some, codes, same, ◌≡◌, ◌≢◌, ◌⊎◌, refl, arith,
  ltb, if◌then◌else◌, drop, take, map,
}
use explorer_qwertycoin_org.Decimal.{from_chars, take_digits}
use explorer_qwertycoin_org.Pagination.{
  BoundedPagination, parse_bounded_pagination, parse_uint64_strict, make_descending_block_range,
}
use explorer_qwertycoin_org.Transaction.{Transaction}
use explorer_qwertycoin_org.Mempool.{MempoolTx}
use explorer_qwertycoin_org.Api.{
  Node, tx_dne, ChainBlock, Answer, success, refused, find_tx, get_tx, search_mempool,
  get_block_by_height, get_tx_details, is_searched,
}
use explorer_qwertycoin_org.Api.Listing.{
  TransactionsPage, json_transactions, json_mempool, bad_pagination, snapshot_height, tip_hash_at,
  blocks_json, block_json, txs_json, check_anchor,
}
use explorer_qwertycoin_org.Api.Listing.Pages.{IsPage, json_transactions-IsPage}
use explorer_qwertycoin_org.Api.Listing.Pool.{entry_json, json_mempool_lem}
use explorer_qwertycoin_org.Api.Outputs.{
  Crypto, OutputsBlocksPage, outputs_loop, json_outputsblocks,
}
use explorer_qwertycoin_org.Api.Outputs.Loop.{outputs_loop-ends}
use explorer_qwertycoin_org.Api.Search.Found.{Source, find_tx-Source}

abbrev pub mined_tx : Transaction
mined_tx = record {
  vin = [];
  vout = record { amount = 6; public_key = some (codes "k"); view_tag = none } ∷ [];
  fee = 0;
  is_coinbase = true;
  rct_type_null = true;
  begins_with_gen = true;
  pruned = false;
  full_hash = codes "m";
  pruned_hash = none;
  public_key = codes "k1";
  additional_pks = [];
  blob_size = 90;
  version = 1;
  unlock_time = 60;
  extra = [];
}

abbrev pool_entry : MempoolTx
pool_entry = record {
  tx_hash = codes "p";
  tx = mined_tx;
  receive_time = 70;
  sum_inputs = 0;
  sum_outputs = 6;
  no_inputs = 0;
  no_outputs = 1;
  num_nonrct_inputs = 0;
  confidential_amounts = false;
  mixin_no = 0;
}

abbrev block_of : ℕ → Option ChainBlock
block_of height =
    if ltb height 3
    then some (record { timestamp = 50; miner_tx = mined_tx; tx_hashes = [] })
    else none

abbrev three_blocks : Node
three_blocks = record {
  height = 3;
  block_id = λ height. codes "b";
  db_block = block_of;
  block_by_hash = λ h. none;
  block_height = λ h. none;
  block_weight = λ height. some 90;
  transactions = λ hs. record { succeeded = true; txs = []; missed = [] };
  have_tx = λ h. false;
  db_tx = λ h. tx_dne;
  db_pruned_tx = λ h. tx_dne;
  tx_block_height = λ h. none;
  num_outputs = λ amount. 0;
  output_keys = λ amount os. none;
  output_tx = λ amount o. none;
  mempool = pool_entry ∷ [];
}

abbrev steady : ℕ → Node
steady n = three_blocks

abbrev value_of : {A : Type 0} → A → Answer A → A
value_of a (success b t) = b
value_of a (refused e t) = a

abbrev no_page : TransactionsPage
no_page = record {
  blocks = [];
  page = 0;
  limit = 0;
  block_count = 0;
  tip_height = 0;
  tip_hash = [];
  returned_count = 0;
  expanded_transaction_count = 0;
  total_page_no = 0;
}

abbrev ended_at : {A : Type 0} → Answer A → ℕ
ended_at (success b t) = t
ended_at (refused e t) = t

abbrev two_newest : Answer TransactionsPage
two_newest = json_transactions (codes "0") (codes "2") [] [] 100 steady 0

two_newest_read : two_newest ≡ success (value_of no_page two_newest) (ended_at two_newest)
unfolding json_transactions parse_bounded_pagination parse_uint64_strict from_chars take_digits
    snapshot_height tip_hash_at blocks_json block_json txs_json get_block_by_height get_tx_details
    is_searched check_anchor make_descending_block_range same
two_newest_read = refl

json_transactions-IsPage_example :
    IsPage (codes "0") (codes "2") [] steady (value_of no_page two_newest) (ended_at two_newest)
json_transactions-IsPage_example =
    json_transactions-IsPage (codes "0") (codes "2") [] [] 100 steady 0 (ended_at two_newest)
      two_newest_read

json_mempool_lem_example :
    ((parse_bounded_pagination (codes "0") (codes "5") 100 ≡ none)
      × (json_mempool (codes "0") (codes "5") steady 0 ≡ refused bad_pagination 0))
    ⊎ ((g : BoundedPagination) × (parse_bounded_pagination (codes "0") (codes "5") 100 ≡ some g)
        × (json_mempool (codes "0") (codes "5") steady 0
            ≡ success
                (record {
                  txs = map (entry_json 3) (take g.limit (drop g.offset (pool_entry ∷ [])));
                  page = g.page;
                  limit = g.limit;
                  txs_no = 1;
                  total_page_no = if ltb 0 1 then (1 - 1) / g.limit else 0;
                })
                2))
json_mempool_lem_example = json_mempool_lem (codes "0") (codes "5") steady 0 (omega arith)

abbrev in_pool : Answer (Option (Transaction × Option ℕ))
in_pool = find_tx (codes "p") steady 0

in_pool_read : in_pool ≡ success (some (mined_tx, some 70)) 2
unfolding find_tx get_tx search_mempool same
in_pool_read = refl

find_tx-Source_example : Source steady (codes "p") (some (mined_tx, some 70)) 2
find_tx-Source_example = find_tx-Source steady (codes "p") 0 2 in_pool_read

abbrev test_crypto : Crypto
test_crypto = record {
  generate_key_derivation = λ pk sk. some [];
  derive_public_key = λ d i spend. codes "k";
  decode_ringct = λ tx d i. none;
  parse_hash = λ s. some s;
  parse_str_address = λ s. some (record { view_public_key = []; spend_public_key = [] });
  lexical_cast = parse_uint64_strict;
  trim = λ s. s;
}

outputs_loop-ends_example :
    (outputs_loop test_crypto 6 [] [] 1 2 steady 0 ≡ outputs_loop test_crypto 9 [] [] 1 2 steady 0)
    × ((u : ℕ) → outputs_loop test_crypto 6 [] [] 1 2 steady 0 ≢ success none u)
outputs_loop-ends_example =
    outputs_loop-ends test_crypto 6 9 [] [] 1 2 steady 0 (omega arith) (omega arith) (omega arith)
      (omega arith) (omega arith) (omega arith)

abbrev no_blocks_page : OutputsBlocksPage
no_blocks_page = record { outputs = []; startblock = 0; endblock = 0; height = 0; mempool = false }

abbrev last_two : Answer OutputsBlocksPage
last_two =
    json_outputsblocks test_crypto (codes "1") (codes "2") (codes "a") (codes "v") true steady 0
