-- ===== src/Api/Block.antt =====
-- src/page.h: json_block and json_rawblock, a block by its height or its hash.
use explorer_qwertycoin_org.Base.{
  ℕ, Bool, true, false, List, [], ◌∷◌, ◌++◌, Option, none, some, Bytes, codes, ltb, leb, ◌==◌,
  if◌then◌else◌, length,
}
use explorer_qwertycoin_org.Decimal.{to_text}
use explorer_qwertycoin_org.Reward.{Response, Expected, RewardView, make_epose_reward_view}
use explorer_qwertycoin_org.Api.{
  ChainBlock, Query, fail, error, thrown, ◌>>=◌, ◌>>◌, return, refuse, observe, refuse_if,
  or_refuse, with_number, get_block_by_height, get_tx, get_tx_details, get_tx_json, TxJson,
}

-- The block that a text names, with its height, its hash and the height of the chain.
pub record NamedBlock : Type 0 where
  pub block_height : ℕ
  pub blk_hash : Bytes
  pub blk : ChainBlock
  pub current_height : ℕ

pub record BlockPage : Type 0 where
  pub block_height : ℕ
  pub blk_hash : Bytes
  pub timestamp : ℕ
  pub size : ℕ
  pub txs : List TxJson
  pub current_height : ℕ
  pub epose_reward : Option RewardView

abbrev pub if_true : Bool × RewardView → Option RewardView
if_true (true, view) = some view
if_true (false, view) = none

-- get_epose_block_reward and then make_epose_reward_view.
abbrev pub reward_of : Option Response → Expected → Option RewardView
reward_of none expected = none
reward_of (some response) expected = if_true (make_epose_reward_view response expected)

-- `lexical_cast` is boost's of a uint64_t and `parse_hash` parse_hash256 in hex, each with nothing for
-- a text that it does not take; `block_reward` is what the daemon answers about a block's hash.
module _ (lexical_cast : Bytes → Option ℕ) (parse_hash : Bytes → Option Bytes) where
  unfoldable pub block_at_height : Bytes → ℕ → Query NamedBlock
  block_at_height text current_height = do
    block_height ← or_refuse (lexical_cast text) (fail (codes "Cant parse block number: " ++ text))
    refuse_if (ltb current_height block_height) (
        fail (
          codes "Requested block is higher than blockchain: "
          ++ to_text block_height
          ++ codes ", "
          ++ to_text current_height))
    found ← get_block_by_height block_height
    blk ← or_refuse found (fail (with_number (codes "Cant get block: ") block_height))
    blk_hash ← observe (λ c. c.block_id block_height)
    return (record {
      block_height = block_height;
      blk_hash = blk_hash;
      blk = blk;
      current_height = current_height;
    })

  unfoldable pub block_with_hash : Bytes → ℕ → Query NamedBlock
  block_with_hash text current_height = do
    blk_hash ← or_refuse (parse_hash text) (fail (codes "Cant parse blk hash: " ++ text))
    found ← observe (λ c. c.block_by_hash blk_hash)
    blk ← or_refuse found (fail (codes "Cant get block: " ++ blk_hash))
    height ← observe (λ c. c.block_height blk_hash)
    block_height ← or_refuse height thrown
    return (record {
      block_height = block_height;
      blk_hash = blk_hash;
      blk = blk;
      current_height = current_height;
    })

  -- A text of at most 8 characters is a height, one of 64 a hash.
  unfoldable pub named_block : Bytes → Query NamedBlock
  unfolding block_at_height block_with_hash
  named_block text = do
    current_height ← observe (λ c. c.height)
    if leb (length text) 8
        then block_at_height text current_height
        else if length text == 64
        then block_with_hash text current_height
        else refuse (fail (codes "Cant find blk using search string: " ++ text))

  -- The transactions of the block, in the order of their hashes.
  unfoldable pub block_txs : NamedBlock → List Bytes → Query (List TxJson)
  block_txs b [] = return []
  block_txs b (tx_hash ∷ rest) = do
    found ← get_tx tx_hash
    tx ←
        or_refuse found
          (error (with_number (codes "Cant get transactions in block: ") b.block_height))
    txd ← get_tx_details tx false b.block_height b.current_height
    more ← block_txs b rest
    return (get_tx_json tx txd ∷ more)

  unfoldable pub json_block : (Bytes → Option Response) → Bytes → Query BlockPage
  unfolding named_block block_txs
  json_block block_reward text = do
    b ← named_block text
    weight ← observe (λ c. c.block_weight b.block_height)
    blk_size ← or_refuse weight thrown
    txd_coinbase ← get_tx_details b.blk.miner_tx true b.block_height b.current_height
    txs ← block_txs b b.blk.tx_hashes
    return (record {
      block_height = b.block_height;
      blk_hash = b.blk_hash;
      timestamp = b.blk.timestamp;
      size = blk_size;
      txs = get_tx_json b.blk.miner_tx txd_coinbase ∷ txs;
      current_height = b.current_height;
      epose_reward = reward_of (block_reward b.blk_hash) (record {
        block_hash = b.blk_hash;
        height = b.block_height;
        coinbase_total = txd_coinbase.xmr_outputs;
        output_count = length b.blk.miner_tx.vout;
      });
    })

  -- The block itself, which obj_to_json_str prints.
  unfoldable pub json_rawblock : Bytes → Query ChainBlock
  unfolding named_block
  json_rawblock text = do b ← named_block text; return b.blk
