-- ===== src/Index/Page.antt =====
-- src/page.h: index2 as a whole, up to the template that renders it.
pub mod Anchored
use explorer_qwertycoin_org.Base.{
  ℕ, ◌+◌, ◌-◌, ◌*◌, ◌/◌, min, max, Bool, true, false, ◌&&◌, ◌||◌, not, List, ◌++◌, Option, none,
  some, Bytes, codes, same, ltb, leb, ◌==◌, if◌then◌else◌, u64_max, add64,
}
use explorer_qwertycoin_org.Decimal.{to_text}
use explorer_qwertycoin_org.Amount.{format_atomic_decimal_string}
use explorer_qwertycoin_org.Pagination.{DescendingBlockRange, make_descending_block_range}
use explorer_qwertycoin_org.Mempool.{NetworkInfo, MempoolSnapshot, get_mempool_snapshot}
use explorer_qwertycoin_org.Supply.Index.{SupplySnapshot}
use explorer_qwertycoin_org.Api.{Query, ◌>>=◌, ◌>>◌, return, observe, null_hash}
use explorer_qwertycoin_org.Observer.{Shared, glance, last_block_time}
use explorer_qwertycoin_org.Index.{IndexBlock, page_snapshot, index_blocks, recheck}

-- What the template is given and the page works out.
pub record IndexPage : Type 0 where
  pub block_count : ℕ
  pub page_no : ℕ
  pub total_pages : ℕ
  pub is_last_page : Bool
  pub no_of_last_blocks : ℕ
  pub snapshot_block_count : ℕ
  pub snapshot_tip_hash : Bytes
  pub next_page_url : Bytes
  pub prev_page_url : Bytes
  pub blocks : List IndexBlock
  pub supply_complete : Bool
  pub supply_mined : Bytes
  pub chain_anchor_consistent : Bool
  pub is_current_info : Bool
  pub last_block_time : Option ℕ
  pub pool : Option MempoolSnapshot

unfoldable pub db_tip : ℕ → Query Bytes
db_tip height = if ltb 0 height then observe (λ c. c.block_id (height - 1)) else return null_hash

abbrev pub shows_blocks : Bytes → Bool
shows_blocks view = same view (codes "overview") || same view (codes "blocks")

abbrev pub blocks_per_page : Bytes → ℕ → ℕ → ℕ
blocks_per_page view no_blocks_on_index block_count =
    if shows_blocks view then min (add64 no_blocks_on_index 1) block_count else 0

-- An offset that does not fit is put at the live height, where there is no block.
unfoldable pub index_range : Bytes → ℕ → ℕ → ℕ → ℕ → DescendingBlockRange
unfolding make_descending_block_range
index_range view no_blocks_on_index page_no block_count height =
    let per_page = blocks_per_page view no_blocks_on_index block_count in
    if shows_blocks view
    then make_descending_block_range block_count
        (if leb page_no (u64_max / max 1 per_page) then page_no * per_page else height) per_page
    else record { begin = 0; end_exclusive = 0; returned_count = 0; empty = true }

abbrev pub total_pages_of : ℕ → ℕ → ℕ
total_pages_of block_count per_page =
    if ltb 0 block_count && ltb 0 per_page then (block_count - 1) / per_page + 1 else 0

abbrev pub page_url : Bytes → ℕ → ℕ → Bytes → Bytes
page_url view page_no block_count tip_hash =
    (if same view (codes "blocks") then codes "/blocks/" else codes "/page/")
    ++ to_text page_no
    ++ codes "?block_count="
    ++ to_text block_count
    ++ codes "&tip_hash="
    ++ tip_hash

abbrev pub mined_text : Option SupplySnapshot → Bytes
mined_text none = codes "Indexing 0/0 blocks"
mined_text (some s) =
    if s.complete
    then format_atomic_decimal_string s.minted_supply_atomic 8
    else codes "Indexing "
      ++ to_text s.indexed_block_count
      ++ codes "/"
      ++ to_text s.block_count
      ++ codes " blocks"

abbrev pub is_complete : Option SupplySnapshot → Bool
is_complete none = false
is_complete (some s) = s.complete

module _ (shared : Shared) (no_blocks_on_index no_of_mempool_tx : ℕ) where
  abbrev pub pool_of : Bytes → Query (Option MempoolSnapshot)
  pool_of view =
      if same view (codes "overview")
      then (do
        pool ← glance (λ t. get_mempool_snapshot no_of_mempool_tx (shared.status t))
        return (some pool))
      else return none

  abbrev pub make_page :
      Bytes
      → ℕ
      → ℕ
      → ℕ
      → Bytes
      → NetworkInfo
      → Option SupplySnapshot
      → List IndexBlock
      → ℕ
      → Bytes
      → Option ℕ
      → Option MempoolSnapshot
      → IndexPage
  make_page view page_no height count tip info supply rows height_after db_tip_hash last_time pool =
      let total = total_pages_of count (blocks_per_page view no_blocks_on_index count) in
      let consistent =
        ltb 0 height
        && height == height_after
        && info.height == height_after
        && same info.top_block_hash db_tip_hash in
      record {
        block_count = height;
        page_no = page_no;
        total_pages = total;
        is_last_page = leb (total - 1) page_no;
        no_of_last_blocks =
            (index_range view no_blocks_on_index page_no count height).returned_count;
        snapshot_block_count = count;
        snapshot_tip_hash = tip;
        next_page_url = page_url view (add64 page_no 1) count tip;
        prev_page_url = page_url view (page_no - 1) count tip;
        blocks = rows;
        supply_complete = is_complete supply;
        supply_mined = mined_text supply;
        chain_anchor_consistent = consistent;
        is_current_info = info.current && consistent;
        last_block_time = last_time;
        pool = pool;
      }

  unfoldable pub index2 : Bytes → ℕ → ℕ → Bytes → ℕ → Query IndexPage
  unfolding page_snapshot index_blocks recheck db_tip last_block_time
  index2 view page_no asked_count asked_tip now = do
    height ← observe (λ c. c.height)
    (count, tip) ← page_snapshot asked_count asked_tip height
    info ← glance (λ t. (shared.status t).current_network_info)
    supply ← glance shared.supply
    rows ←
        index_blocks shared now height
          (index_range view no_blocks_on_index page_no count height).returned_count
          (index_range view no_blocks_on_index page_no count height).begin
    recheck count tip
    height_after ← observe (λ c. c.height)
    db_tip_hash ← db_tip height_after
    last_time ← last_block_time height
    pool ← pool_of view
    return (
        make_page view page_no height count tip info supply rows height_after db_tip_hash last_time
          pool)
