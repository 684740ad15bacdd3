-- ===== src/Api/Search.antt =====
-- src/page.h: json_transaction, the page of one transaction, and json_search, which takes a text for
-- a transaction, a block's hash or a block's height.
pub mod Found
use explorer_qwertycoin_org.Base.{
  ℕ, suc, ◌+◌, Bool, true, ◌&&◌, not, List, [], ◌∷◌, ◌++◌, Option, none, some, Bytes, codes, ltb,
  leb, ◌==◌, if◌then◌else◌, length, get_elem?,
}
use explorer_qwertycoin_org.Decimal.{to_text}
use explorer_qwertycoin_org.Transaction.{KeyInput, OutputTuple}
use explorer_qwertycoin_org.Reward.{Response}
use explorer_qwertycoin_org.Api.{
  OutputKey, Query, success, refused, fail, error, thrown, ◌>>=◌, ◌>>◌, return, refuse, observe,
  or_refuse, with_number, get_block_by_height, find_tx, get_tx_details, get_tx_json, TxDetails,
  TxJson,
}
use explorer_qwertycoin_org.Api.Block.{BlockPage, json_block}

pub record OutputJson : Type 0 where
  pub public_key : Option Bytes
  pub amount_atomic : Option Bytes

pub record MixinJson : Type 0 where
  pub public_key : Bytes
  pub tx_hash : Bytes
  pub block_no : ℕ

pub record InputJson : Type 0 where
  pub key_image : Bytes
  pub amount_atomic : Option Bytes
  pub mixins : List MixinJson

pub record TransactionPage : Type 0 where
  pub tx : TxJson
  pub timestamp : ℕ
  pub block_height : ℕ
  pub confirmations : ℕ
  pub outputs : List OutputJson
  pub inputs : List InputJson
  pub current_height : ℕ

-- The amount as text, null where it is confidential.
unfoldable pub amount_json : Bool → ℕ → Option Bytes
amount_json confidential amount = if confidential then none else some (to_text amount)

unfoldable pub outputs_json : Bool → List OutputTuple → List OutputJson
outputs_json confidential [] = []
outputs_json confidential (o ∷ os) =
    record { public_key = o.public_key; amount_atomic = amount_json confidential o.amount }
    ∷ outputs_json confidential os

unfoldable pub all_below : ℕ → List ℕ → Bool
all_below no_outputs [] = true
all_below no_outputs (o ∷ os) = ltb o no_outputs && all_below no_outputs os

unfoldable pub are_absolute_offsets_good : List ℕ → KeyInput → Query Bool
unfolding all_below
are_absolute_offsets_good absolute_offsets in_key = do
  no_outputs ← observe (λ c. c.num_outputs in_key.amount)
  return (all_below no_outputs absolute_offsets)

-- The members from a place on; the loop ends where the database does not have an output, and `at`
-- throws where there are fewer keys than offsets.
abbrev pub or_end : Option Bytes → (Bytes → Query (List MixinJson)) → Query (List MixinJson)
or_end none rest = return []
or_end (some tx_hash) rest = rest tx_hash

unfoldable pub mixins_json : ℕ → List OutputKey → ℕ → List ℕ → Query (List MixinJson)
mixins_json amount keys count [] = return []
mixins_json amount keys count (abs_offset ∷ rest) = do
  key ← or_refuse (get_elem? keys count) thrown
  found ← observe (λ c. c.output_tx amount abs_offset)
  or_end found (λ tx_hash. do
    more ← mixins_json amount keys (suc count) rest
    return
        (record { public_key = key.public_key; tx_hash = tx_hash; block_no = key.height } ∷ more))

-- `absolute` is relative_output_offsets_to_absolute.
module _ (absolute : List ℕ → List ℕ) where
  unfoldable pub inputs_json : Bool → List KeyInput → Query (List InputJson)
  inputs_json confidential [] = return []
  inputs_json confidential (k ∷ ks) = do
    good ← are_absolute_offsets_good (absolute k.key_offsets) k
    if not good then inputs_json confidential ks else (do
      found ← observe (λ c. c.output_keys k.amount (absolute k.key_offsets))
      keys ← or_refuse found (error (codes "Failed to retrive outputs (mixins) used in key images"))
      mixins ← mixins_json k.amount keys 0 (absolute k.key_offsets)
      more ← inputs_json confidential ks
      return (
          record {
            key_image = k.key_image;
            amount_atomic = amount_json confidential k.amount;
            mixins = mixins;
          }
          ∷ more))

module _ (lexical_cast : Bytes → Option ℕ) (parse_hash : Bytes → Option Bytes)
    (absolute : List ℕ → List ℕ) (block_reward : Bytes → Option Response) where
  unfoldable pub locate : Bytes → Bytes → Option ℕ → Query (ℕ × ℕ)
  locate text tx_hash (some receive_time) = return (0, receive_time)
  locate text tx_hash none = do
    height ← observe (λ c. c.tx_block_height tx_hash)
    block_height ←
        or_refuse height
          (error (codes "Tx does not exist in blockchain, but was there before: " ++ text))
    found ← get_block_by_height block_height
    blk ← or_refuse found (fail (with_number (codes "Cant get block: ") block_height))
    return (block_height, blk.timestamp)

  abbrev pub confirmations_of : Option ℕ → TxDetails → ℕ
  confirmations_of none txd = txd.no_confirmations
  confirmations_of (some receive_time) txd = 0

  unfoldable pub json_transaction : Bytes → Query TransactionPage
  unfolding locate
  json_transaction text = do
    tx_hash ← or_refuse (parse_hash text) (fail (codes "Cant parse tx hash: " ++ text))
    found ← find_tx tx_hash
    (tx, arrival) ← or_refuse found (fail (codes "Cant find tx hash: " ++ text))
    (block_height, timestamp) ← locate text tx_hash arrival
    bc_height ← observe (λ c. c.height)
    txd ← get_tx_details tx tx.is_coinbase block_height bc_height
    inputs ← inputs_json absolute (not tx.is_coinbase && not tx.rct_type_null) txd.input_key_imgs
    return (record {
      tx = get_tx_json tx txd;
      timestamp = timestamp;
      block_height = block_height;
      confirmations = confirmations_of arrival txd;
      outputs = outputs_json (not tx.is_coinbase && not tx.rct_type_null) txd.output_pub_keys;
      inputs = inputs;
      current_height = bc_height;
    })

  -- What json_search hands on as its data.
  pub data SearchResult : Type 0 where
    a_transaction : TransactionPage → SearchResult
    a_block : BlockPage → SearchResult

  -- The next search is made where one does not succeed; an exception leaves the page.
  unfoldable pub otherwise :
      {A : Type 0} → Query A → (A → SearchResult) → Query SearchResult → Query SearchResult
  otherwise m wrap next views t = elim (m views t) [
    | success a u ↦ success (wrap a) u
    | refused (fail title) u ↦ next views u
    | refused (error message) u ↦ next views u
    | refused thrown u ↦ refused thrown u
  ]

  abbrev pub nothing_found : Bytes → Query SearchResult
  nothing_found text =
      refuse (fail (codes "Nothing was found that matches search string: " ++ text))

  unfoldable pub json_search : Bytes → Query SearchResult
  unfolding otherwise
  json_search text = do
    height ← observe (λ c. c.height)
    if length text == 64
        then otherwise (json_transaction text) a_transaction (
            otherwise (json_block lexical_cast parse_hash block_reward text) a_block
              (nothing_found text))
        else if leb (length text) 8
        then otherwise (json_block lexical_cast parse_hash block_reward text) a_block
            (nothing_found text)
        else nothing_found text
