-- ===== src/Api/Outputs/Single.antt =====
-- src/page.h: json_outputs, the outputs of one transaction and which of them belong to an address.
use explorer_qwertycoin_org.Base.{
  ℕ, suc, Bool, false, not, List, [], ◌∷◌, ◌++◌, Option, none, some, Bytes, codes, is_empty, ltb,
  if◌then◌else◌, length,
}
use explorer_qwertycoin_org.Transaction.{Transaction, OutputTuple}
use explorer_qwertycoin_org.Api.{
  ChainBlock, Query, fail, error, ◌>>=◌, ◌>>◌, return, refuse_if, or_refuse, or_null,
  get_block_by_height, find_tx, get_tx_details,
}
use explorer_qwertycoin_org.Api.Outputs.{Crypto, match_output, is_hidden, derive_all, no_derivation}

pub record OutputMatch : Type 0 where
  pub output_pubkey : Bytes
  pub amount : ℕ
  pub mine_output : Bool
  pub output_idx : ℕ

pub record OutputsPage : Type 0 where
  pub outputs : List OutputMatch
  pub tx_hash : Bytes
  pub tx_prove : Bool
  pub tx_confirmations : ℕ
  pub tx_timestamp : ℕ

module _ (crypto : Crypto) where
  -- json_outputs: an amount that does not decode stays 0 there, and every output is shown.
  abbrev pub or_zero : Option ℕ → ℕ
  or_zero none = 0
  or_zero (some n) = n

  unfoldable pub output_matches :
      Bytes → Transaction → Bytes → List Bytes → ℕ → ℕ → List OutputTuple → List OutputMatch
  output_matches spend_key tx derivation additional outputs output_idx [] = []
  output_matches spend_key tx derivation additional outputs output_idx (outp ∷ rest) =
      let m = match_output crypto derivation additional outputs spend_key output_idx outp in
      record {
        output_pubkey = or_null outp.public_key;
        amount =
            if is_hidden crypto tx m
            then or_zero (crypto.decode_ringct tx m.derivation_to_use output_idx)
            else outp.amount;
        mine_output = m.mine_output;
        output_idx = output_idx;
      }
      ∷ output_matches spend_key tx derivation additional outputs (suc output_idx) rest

  abbrev pub time_of : Option ChainBlock → ℕ
  time_of none = 0
  time_of (some blk) = blk.timestamp

  -- The time of arrival, or that of the block that get_tx_details has found.
  abbrev pub output_time : Option ℕ → Option ℕ → Query ℕ
  output_time (some receive_time) blk_height = return receive_time
  output_time none none = return 0
  output_time none (some blk_height) =
      if ltb 0 blk_height
      then (do found ← get_block_by_height blk_height; return (time_of found))
      else return 0

  unfoldable pub json_outputs : Bytes → Bytes → Bytes → Bool → Query OutputsPage
  json_outputs tx_hash_str address_str viewkey_str tx_prove = do
    refuse_if (is_empty (crypto.trim tx_hash_str)) (error (codes "Tx hash not provided"))
    refuse_if (is_empty (crypto.trim address_str)) (error (codes "Qwertycoin address not provided"))
    refuse_if (is_empty (crypto.trim viewkey_str)) (
        error (
          if not tx_prove
          then codes "Viewkey not provided"
          else codes "Tx private key not provided"))
    tx_hash ←
        or_refuse (crypto.parse_hash (crypto.trim tx_hash_str))
          (error (codes "Cant parse tx hash: " ++ crypto.trim tx_hash_str))
    address ←
        or_refuse (crypto.parse_str_address (crypto.trim address_str))
          (error (codes "Cant parse Qwertycoin address: " ++ crypto.trim address_str))
    view_key ←
        or_refuse (crypto.parse_hash (crypto.trim viewkey_str))
          (error (codes "Cant parse view key or tx private key"))
    found ← find_tx tx_hash
    (tx, arrival) ← or_refuse found (fail (codes "Cant find tx hash: " ++ crypto.trim tx_hash_str))
    txd ← get_tx_details tx false 0 0
    derivation ←
        or_refuse
          (crypto.generate_key_derivation (if tx_prove then address.view_public_key else txd.pk)
            view_key)
          (no_derivation crypto)
    additional ← or_refuse (derive_all crypto txd.additional_pks view_key) (no_derivation crypto)
    tx_timestamp ← output_time arrival txd.blk_height
    return (record {
      outputs =
          output_matches address.spend_public_key tx derivation additional
            (length txd.output_pub_keys) 0 txd.output_pub_keys;
      tx_hash = txd.tx_hash;
      tx_prove = tx_prove;
      tx_confirmations = txd.no_confirmations;
      tx_timestamp = tx_timestamp;
    })
