-- ===== src/Api/Outputs.antt =====
-- src/page.h: find_our_outputs and json_outputsblocks, the outputs of some blocks that belong to an
-- address. The cryptography is the libraries', the payment id of an output is not in the model.
pub mod Origin
pub mod Loop
pub mod Range
pub mod Single
use explorer_qwertycoin_org.Base.{
  ℕ, zero, suc, ◌+◌, ◌-◌, ◌^◌, Bool, true, false, ◌&&◌, not, List, [], ◌∷◌, ◌++◌, Option, none,
  some, Bytes, codes, same, is_empty, ltb, leb, ◌==◌, if◌then◌else◌, length, get_elem?, sub64, map,
}
use explorer_qwertycoin_org.Decimal.{to_text}
use explorer_qwertycoin_org.Transaction.{Transaction, OutputTuple}
use explorer_qwertycoin_org.Mempool.{MempoolTx}
use explorer_qwertycoin_org.Api.{
  Query, Refusal, fail, error, thrown, ◌>>=◌, ◌>>◌, return, observe, refuse_if, or_refuse, or_null,
  get_block_by_height, get_tx_details, TxDetails,
}

-- What the sources call of the libraries and of decode_ringct, which wraps the ring signatures': a
-- derivation, the key of an output's place, the amount of an output, the parsed hash of a text and
-- the view and spend keys of an address.
pub record Address : Type 0 where
  pub view_public_key : Bytes
  pub spend_public_key : Bytes

pub record Crypto : Type 0 where
  pub generate_key_derivation : Bytes → Bytes → Option Bytes
  pub derive_public_key : Bytes → ℕ → Bytes → Bytes
  pub decode_ringct : Transaction → Bytes → ℕ → Option ℕ
  pub parse_hash : Bytes → Option Bytes
  pub parse_str_address : Bytes → Option Address
  pub lexical_cast : Bytes → Option ℕ
  pub trim : Bytes → Bytes

-- An output that is looked at: whether its key is the address's, and the derivation that decodes it.
pub record Matched : Type 0 where
  pub mine_output : Bool
  pub derivation_to_use : Bytes

pub record OurOutput : Type 0 where
  pub output_pubkey : Bytes
  pub amount : ℕ
  pub block_no : ℕ
  pub in_mempool : Bool
  pub output_idx : ℕ
  pub tx_hash : Bytes

pub record OutputsBlocksPage : Type 0 where
  pub outputs : List OurOutput
  pub startblock : ℕ
  pub endblock : ℕ
  pub height : ℕ
  pub mempool : Bool

module _ (crypto : Crypto) where
  -- One derivation for each additional key, or nothing where one cannot be made.
  unfoldable pub derive_all : List Bytes → Bytes → Option (List Bytes)
  derive_all [] view_key = some []
  derive_all (pk ∷ pks) view_key =
      let rest = derive_all pks view_key in
      elim (crypto.generate_key_derivation pk view_key) [
        | none ↦ none
        | some d ↦ elim rest [ none ↦ none | some ds ↦ some (d ∷ ds) ]
      ]

  abbrev pub by_additional : Bytes → Bytes → ℕ → OutputTuple → Option Bytes → Matched
  by_additional derivation spend_key output_idx outp none = record {
    mine_output = false;
    derivation_to_use = derivation;
  }
  by_additional derivation spend_key output_idx outp (some additional) = record {
    mine_output =
        same (or_null outp.public_key) (crypto.derive_public_key additional output_idx spend_key);
    derivation_to_use = additional;
  }

  -- The additional derivations count only where there is one for each output.
  unfoldable pub match_output : Bytes → List Bytes → ℕ → Bytes → ℕ → OutputTuple → Matched
  match_output derivation additional outputs spend_key output_idx outp =
      if same (or_null outp.public_key) (crypto.derive_public_key derivation output_idx spend_key)
      then record { mine_output = true; derivation_to_use = derivation }
      else if length additional == outputs
      then by_additional derivation spend_key output_idx outp (get_elem? additional output_idx)
      else record { mine_output = false; derivation_to_use = derivation }

  -- Whether the amount is hidden in the ring signature.
  unfoldable pub is_hidden : Transaction → Matched → Bool
  is_hidden tx m = m.mine_output && tx.version == 2 && not tx.is_coinbase

  -- The amount of an output that is looked at.
  unfoldable pub amount_of : Transaction → TxDetails → Matched → ℕ → OutputTuple → Query ℕ
  amount_of tx txd m output_idx outp =
      if is_hidden tx m
      then or_refuse (crypto.decode_ringct tx m.derivation_to_use output_idx)
          (error (codes "Cant decode ringct for tx: " ++ txd.tx_hash))
      else return outp.amount

  module _ (spend_key : Bytes) (block_no : ℕ) (is_mempool : Bool) (tx : Transaction)
      (txd : TxDetails) (derivation : Bytes) (additional : List Bytes) where
    abbrev pub our_output : ℕ → ℕ → OutputTuple → OurOutput
    our_output output_idx amount outp = record {
      output_pubkey = or_null outp.public_key;
      amount = amount;
      block_no = block_no;
      in_mempool = is_mempool;
      output_idx = output_idx;
      tx_hash = txd.tx_hash;
    }

    unfoldable pub our_outputs : ℕ → List OutputTuple → Query (List OurOutput)
    unfolding amount_of
    our_outputs output_idx [] = return []
    our_outputs output_idx (outp ∷ rest) = do
      let m =
          match_output derivation additional (length txd.output_pub_keys) spend_key output_idx outp
      amount ← amount_of tx txd m output_idx outp
      more ← our_outputs (suc output_idx) rest
      return (if m.mine_output then our_output output_idx amount outp ∷ more else more)

  abbrev pub no_derivation : Refusal
  no_derivation = error (codes "Cant calculate key_derivation")

  unfoldable pub find_our_outputs :
      Bytes → Bytes → ℕ → Bool → List Transaction → Query (List OurOutput)
  unfolding our_outputs
  find_our_outputs spend_key view_key block_no is_mempool [] = return []
  find_our_outputs spend_key view_key block_no is_mempool (tx ∷ txs) = do
    txd ← get_tx_details tx false 0 0
    derivation ← or_refuse (crypto.generate_key_derivation txd.pk view_key) no_derivation
    additional ← or_refuse (derive_all txd.additional_pks view_key) no_derivation
    here ←
        our_outputs spend_key block_no is_mempool tx txd derivation additional 0 txd.output_pub_keys
    more ← find_our_outputs spend_key view_key block_no is_mempool txs
    return (here ++ more)

  abbrev pub prepend : List OurOutput → Option (List OurOutput) → Option (List OurOutput)
  prepend here none = none
  prepend here (some more) = some (here ++ more)

  -- How the int64_t counter is printed.
  unfoldable pub signed_text : ℕ → Bytes
  signed_text block_no =
      if ltb block_no (2 ^ 63) then to_text block_no else codes "-" ++ to_text (2 ^ 64 - block_no)

  -- The outputs of one block; the hashes that get_transactions missed are not looked at.
  unfoldable pub block_outputs : Bytes → Bytes → ℕ → Query (List OurOutput)
  unfolding find_our_outputs
  block_outputs spend_key view_key block_no = do
    found ← get_block_by_height block_no
    blk ← or_refuse found (error (codes "Cant get block: " ++ signed_text block_no))
    got ← observe (λ c. c.transactions blk.tx_hashes)
    refuse_if (not got.succeeded)
        (error (codes "Cant get transactions in block: " ++ signed_text block_no))
    find_our_outputs spend_key view_key block_no false (blk.miner_tx ∷ got.txs)

  -- `while (block_no >= start_block)` with `--block_no`. The int64_t counter is compared as the
  -- uint64_t that it converts to, so below 0 stands 2^64 - 1. `none` is a run out of fuel.
  unfoldable pub outputs_loop : ℕ → Bytes → Bytes → ℕ → ℕ → Query (Option (List OurOutput))
  unfolding block_outputs
  outputs_loop zero spend_key view_key start_block block_no = return none
  outputs_loop (suc fuel) spend_key view_key start_block block_no =
      if leb start_block block_no
      then (do
        here ← block_outputs spend_key view_key block_no
        more ← outputs_loop fuel spend_key view_key start_block (sub64 block_no 1)
        return (prepend here more))
      else return (some [])

  unfoldable pub pool_outputs : Bytes → Bytes → Bool → Query (List OurOutput)
  unfolding find_our_outputs
  pool_outputs spend_key view_key in_mempool_aswell =
      if in_mempool_aswell
      then (do
        pool ← observe (λ c. c.mempool)
        find_our_outputs spend_key view_key 0 true (map (λ (e : MempoolTx). e.tx) pool))
      else return []

  -- At most five blocks and the step below the first: a fuel of 6.
  unfoldable pub json_outputsblocks : Bytes → Bytes → Bytes → Bytes → Bool → Query OutputsBlocksPage
  unfolding outputs_loop pool_outputs
  json_outputsblocks startblock endblock address_str viewkey_str in_mempool_aswell = do
    start_block ←
        or_refuse (crypto.lexical_cast (crypto.trim startblock))
          (fail (codes "Cant parse startblock number: " ++ crypto.trim startblock))
    end_block ←
        or_refuse (crypto.lexical_cast (crypto.trim endblock))
          (fail (codes "Cant parse endblock number: " ++ crypto.trim endblock))
    current ← observe (λ c. c.height)
    refuse_if (ltb end_block start_block) (
        error (
          codes "Start block "
          ++ to_text start_block
          ++ codes " cannot be higher than end block: "
          ++ to_text end_block))
    refuse_if (ltb (sub64 current 1) end_block) (
        error (
          codes "Start block "
          ++ to_text start_block
          ++ codes " is higher than current blockchain height: "
          ++ to_text (sub64 current 1)))
    refuse_if (leb 5 (end_block - start_block))
        (error (codes "Cant check more than 5 blocks at time"))
    refuse_if (is_empty (crypto.trim address_str)) (error (codes "Qwertycoin address not provided"))
    refuse_if (is_empty (crypto.trim viewkey_str)) (error (codes "Viewkey not provided"))
    address ←
        or_refuse (crypto.parse_str_address (crypto.trim address_str))
          (error (codes "Cant parse Qwertycoin address: " ++ crypto.trim address_str))
    view_key ←
        or_refuse (crypto.parse_hash (crypto.trim viewkey_str))
          (error (codes "Cant parse view key"))
    pool ← pool_outputs address.spend_public_key view_key in_mempool_aswell
    looped ← outputs_loop 6 address.spend_public_key view_key start_block end_block
    chain ← or_refuse looped thrown
    return (record {
      outputs = pool ++ chain;
      startblock = start_block;
      endblock = end_block;
      height = sub64 current 1;
      mempool = in_mempool_aswell;
    })
