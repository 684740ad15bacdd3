-- ===== src/Transaction.antt =====
-- src/tools.cpp: what is summed and counted over a transaction, and src/transaction_amounts.h. The
-- transaction is the node's; the fields that the sources read stand in a record.
pub mod Summary
use explorer_qwertycoin_org.Base.{
  ℕ, zero, suc, ◌+◌, ◌-◌, Bool, ◌&&◌, not, List, [], ◌∷◌, ◌++◌, Option, none, some, Bytes, ltb,
  ◌==◌, if◌then◌else◌, length, add64,
}

-- An output: its amount, the key that get_output_public_key finds, and the view tag of a tagged
-- target.
pub record TxOut : Type 0 where
  pub amount : ℕ
  pub public_key : Option Bytes
  pub view_tag : Option ℕ

-- txin_to_key
pub record KeyInput : Type 0 where
  pub amount : ℕ
  pub key_offsets : List ℕ
  pub key_image : Bytes

pub data TxIn : Type 0 where
  to_key : KeyInput → TxIn
  other : TxIn

-- `fee` is get_tx_fee; the hashes are the library's of the whole and of the pruned transaction, the
-- last nothing where it fails; the keys are those that stand in the extra field.
pub record Transaction : Type 0 where
  pub vin : List TxIn
  pub vout : List TxOut
  pub fee : ℕ
  pub is_coinbase : Bool
  pub rct_type_null : Bool
  pub begins_with_gen : Bool
  pub pruned : Bool
  pub full_hash : Bytes
  pub pruned_hash : Option Bytes
  pub public_key : Bytes
  pub additional_pks : List Bytes
  pub blob_size : ℕ
  pub version : ℕ
  pub unlock_time : ℕ
  pub extra : Bytes

-- output_tuple_with_tag: the key (all zero bytes for `none`), the amount and the tag.
pub record OutputTuple : Type 0 where
  pub public_key : Option Bytes
  pub amount : ℕ
  pub view_tag : Option ℕ

abbrev pub empty_tuple : OutputTuple
empty_tuple = record { public_key = none; amount = 0; view_tag = none }

unfoldable pub transaction_amounts_confidential : Transaction → Bool
transaction_amounts_confidential tx = not tx.is_coinbase && not tx.rct_type_null

unfoldable pub sum_outputs : List TxOut → ℕ → ℕ
sum_outputs [] sum = sum
sum_outputs (o ∷ rest) sum = sum_outputs rest (add64 sum o.amount)

unfoldable pub sum_money_in_outputs : Transaction → ℕ
sum_money_in_outputs tx = sum_outputs tx.vout 0

unfoldable pub sum_inputs : List TxIn → ℕ → ℕ
sum_inputs [] sum = sum
sum_inputs (other ∷ rest) sum = sum_inputs rest sum
sum_inputs (to_key k ∷ rest) sum = sum_inputs rest (add64 sum k.amount)

unfoldable pub sum_money_in_inputs : Transaction → ℕ
sum_money_in_inputs tx = sum_inputs tx.vin 0

unfoldable pub count_nonrct : List TxIn → ℕ → ℕ
count_nonrct [] num = num
count_nonrct (other ∷ rest) num = count_nonrct rest num
count_nonrct (to_key k ∷ rest) num = count_nonrct rest (if k.amount == 0 then num else add64 num 1)

unfoldable pub count_nonrct_inputs : Transaction → ℕ
count_nonrct_inputs tx = count_nonrct tx.vin 0

-- The loop that stops at the first input with a positive number.
unfoldable pub first_mixin : List TxIn → ℕ → ℕ
first_mixin [] mixin_no = mixin_no
first_mixin (other ∷ rest) mixin_no = first_mixin rest mixin_no
first_mixin (to_key k ∷ rest) mixin_no =
    let more = first_mixin rest (length k.key_offsets) in
    if ltb 0 (length k.key_offsets) then length k.key_offsets else more

unfoldable pub get_mixin_no : Transaction → ℕ
get_mixin_no tx = first_mixin tx.vin 0

unfoldable pub get_mixin_no_in_txs : List Transaction → List ℕ
get_mixin_no_in_txs [] = []
get_mixin_no_in_txs (tx ∷ txs) = get_mixin_no tx ∷ get_mixin_no_in_txs txs

unfoldable pub output_tuple : TxOut → OutputTuple
output_tuple o = elim o.public_key [
  | none ↦ empty_tuple
  | some key ↦ record { public_key = some key; amount = o.amount; view_tag = o.view_tag }
]

unfoldable pub output_tuples : List TxOut → List OutputTuple → List OutputTuple
output_tuples [] outputs = outputs
output_tuples (o ∷ rest) outputs = output_tuples rest (outputs ++ output_tuple o ∷ [])

unfoldable pub get_ouputs : Transaction → List OutputTuple
get_ouputs tx = output_tuples tx.vout []

abbrev numbered : TxOut → ℕ → Option (Bytes × ℕ × ℕ)
numbered o n = elim o.public_key [ none ↦ none | some key ↦ some (key, o.amount, n) ]

abbrev keep : Option (Bytes × ℕ × ℕ) → List (Bytes × ℕ × ℕ) → List (Bytes × ℕ × ℕ)
keep none rest = rest
keep (some t) rest = t ∷ rest

-- The outputs with a key, each with its place; `n` counts the outputs before.
unfoldable pub numbered_outputs : ℕ → List TxOut → List (Bytes × ℕ × ℕ)
numbered_outputs n [] = []
numbered_outputs n (o ∷ rest) = keep (numbered o n) (numbered_outputs (suc n) rest)

unfoldable pub get_ouputs_tuple : Transaction → List (Bytes × ℕ × ℕ)
get_ouputs_tuple tx = numbered_outputs 0 tx.vout

unfoldable pub key_inputs : List TxIn → List KeyInput → List KeyInput
key_inputs [] images = images
key_inputs (other ∷ rest) images = key_inputs rest images
key_inputs (to_key k ∷ rest) images = key_inputs rest (images ++ k ∷ [])

unfoldable pub get_key_images : Transaction → List KeyInput
get_key_images tx = key_inputs tx.vin []

-- What summary_of_in_out_rct has collected: its four counters and the two vectors.
pub record Totals : Type 0 where
  pub xmr_outputs : ℕ
  pub xmr_inputs : ℕ
  pub mixin_no : ℕ
  pub num_nonrct_inputs : ℕ
  pub output_pub_keys : List OutputTuple
  pub input_key_imgs : List KeyInput

unfoldable pub add_output : Totals → TxOut → Totals
add_output t o = elim o.public_key [
  | none ↦ record t { output_pub_keys = t.output_pub_keys ++ empty_tuple ∷ [] }
  | some key ↦ record t {
    xmr_outputs = add64 t.xmr_outputs o.amount;
    output_pub_keys =
        t.output_pub_keys
        ++ (record { public_key = some key; amount = o.amount; view_tag = o.view_tag } ∷ []);
  }
]

unfoldable pub add_input : Totals → TxIn → Totals
add_input t other = t
add_input t (to_key k) = record t {
  xmr_inputs = add64 t.xmr_inputs k.amount;
  num_nonrct_inputs = if k.amount == 0 then t.num_nonrct_inputs else add64 t.num_nonrct_inputs 1;
  mixin_no = if t.mixin_no == 0 then length k.key_offsets else t.mixin_no;
  input_key_imgs = t.input_key_imgs ++ k ∷ [];
}

unfoldable pub add_outputs : List TxOut → Totals → Totals
add_outputs [] t = t
add_outputs (o ∷ rest) t = add_outputs rest (add_output t o)

unfoldable pub add_inputs : List TxIn → Totals → Totals
add_inputs [] t = t
add_inputs (i ∷ rest) t = add_inputs rest (add_input t i)

abbrev pub no_totals : Totals
no_totals = record {
  xmr_outputs = 0;
  xmr_inputs = 0;
  mixin_no = 0;
  num_nonrct_inputs = 0;
  output_pub_keys = [];
  input_key_imgs = [];
}

unfoldable pub summary_of_in_out_rct : Transaction → Totals
summary_of_in_out_rct tx = add_inputs tx.vin (add_outputs tx.vout no_totals)

unfoldable pub sum_money_in_tx : Transaction → ℕ × ℕ
sum_money_in_tx tx = (sum_money_in_inputs tx, sum_money_in_outputs tx)

unfoldable pub sum_txs : List Transaction → ℕ → ℕ → ℕ × ℕ
sum_txs [] inputs outputs = (inputs, outputs)
sum_txs (tx ∷ txs) inputs outputs =
    sum_txs txs (add64 inputs (sum_money_in_inputs tx)) (add64 outputs (sum_money_in_outputs tx))

unfoldable pub sum_money_in_txs : List Transaction → ℕ × ℕ
sum_money_in_txs txs = sum_txs txs 0 0

unfoldable pub sum_fees : List Transaction → ℕ → ℕ
sum_fees [] fees = fees
sum_fees (tx ∷ txs) fees = sum_fees txs (add64 fees tx.fee)

unfoldable pub sum_fees_in_txs : List Transaction → ℕ
sum_fees_in_txs txs = sum_fees txs 0
