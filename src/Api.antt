-- ===== src/Api.antt =====
-- src/page.h and src/MicroCore.cpp: what the JSON pages read of the node, and the details of a
-- transaction. The node may change between any two calls, so a page is given a sequence of views,
-- and each call looks at the next one.
pub mod Laws
pub mod Block
pub mod Search
pub mod Listing
pub mod Outputs
use explorer_qwertycoin_org.Base.{
  ℕ, suc, ◌+◌, ◌-◌, Bool, true, false, ◌&&◌, ◌||◌, not, List, [], ◌∷◌, ◌++◌, Option, none, some,
  Bytes, codes, same, ltb, ◌==◌, if◌then◌else◌, length, replicate, sub64,
}
use explorer_qwertycoin_org.Decimal.{to_text}
use explorer_qwertycoin_org.Time.{timestamp_difference}
use explorer_qwertycoin_org.Transaction.{
  Transaction, OutputTuple, KeyInput, summary_of_in_out_rct, transaction_amounts_confidential,
}
use explorer_qwertycoin_org.Mempool.{MempoolTx}

pub record ChainBlock : Type 0 where
  pub timestamp : ℕ
  pub miner_tx : Transaction
  pub tx_hashes : List Bytes

-- What Blockchain::get_transactions leaves.
pub record FoundTxs : Type 0 where
  pub succeeded : Bool
  pub txs : List Transaction
  pub missed : List Bytes

-- A member of a ring: its public key and its block.
pub record OutputKey : Type 0 where
  pub public_key : Bytes
  pub height : ℕ

-- What get_tx and get_pruned_tx of the database do: a transaction, TX_DNE, or another exception.
pub data DbTx : Type 0 where
  in_db : Transaction → DbTx
  tx_dne db_thrown : DbTx

-- One view of the node, hashes in hex. `none` stands for an exception of the database, or for false
-- in `block_by_hash`; `mempool` is what get_mempool_txs points to.
pub record Node : Type 0 where
  pub height : ℕ
  pub block_id : ℕ → Bytes
  pub db_block : ℕ → Option ChainBlock
  pub block_by_hash : Bytes → Option ChainBlock
  pub block_height : Bytes → Option ℕ
  pub block_weight : ℕ → Option ℕ
  pub transactions : List Bytes → FoundTxs
  pub have_tx : Bytes → Bool
  pub db_tx : Bytes → DbTx
  pub db_pruned_tx : Bytes → DbTx
  pub tx_block_height : Bytes → Option ℕ
  pub num_outputs : ℕ → ℕ
  pub output_keys : ℕ → List ℕ → Option (List OutputKey)
  pub output_tx : ℕ → ℕ → Option Bytes
  pub mempool : List MempoolTx

-- How a page is left early: "fail" with a title, "error" with a message, or by an exception.
pub data Refusal : Type 0 where
  fail : Bytes → Refusal
  error : Bytes → Refusal
  thrown : Refusal

-- "success" with its data or a refusal, and the number of the next view.
pub data Answer (A : Type 0) : Type 0 where
  success : A → ℕ → Answer A
  refused : Refusal → ℕ → Answer A

abbrev pub Query : Type 0 → Type 0
Query A = (ℕ → Node) → ℕ → Answer A

abbrev pub continue : {A B : Type 0} → Answer A → (A → ℕ → Answer B) → Answer B
continue (success a t) f = f a t
continue (refused e t) f = refused e t

infixl 5 ◌>>=◌ ◌>>◌
abbrev pub ◌>>=◌ : {A B : Type 0} → Query A → (A → Query B) → Query B
◌>>=◌ m f views t = continue (m views t) (λ a t'. f a views t')

abbrev pub ◌>>◌ : {B : Type 0} → Query (Unit {0}) → Query B → Query B
m >> k = m >>= λ _. k

abbrev pub return : {A : Type 0} → A → Query A
return a views t = success a t

abbrev pub refuse : {A : Type 0} → Refusal → Query A
refuse e views t = refused e t

-- One call of the node.
abbrev pub observe : {A : Type 0} → (Node → A) → Query A
observe f views t = success (f (views t)) (suc t)

abbrev pub refuse_if : Bool → Refusal → Query (Unit {0})
refuse_if true e = refuse e
refuse_if false e = return tt

abbrev pub or_refuse : {A : Type 0} → Option A → Refusal → Query A
or_refuse none e = refuse e
or_refuse (some a) e = return a

abbrev pub with_number : Bytes → ℕ → Bytes
with_number text n = text ++ to_text n

-- MicroCore::get_block_by_height: false for whatever the database throws.
unfoldable pub get_block_by_height : ℕ → Query (Option ChainBlock)
get_block_by_height height = observe (λ c. c.db_block height)

-- Only TX_DNE is caught, in both lookups.
abbrev pub after_pruned : DbTx → Query (Option Transaction)
after_pruned (in_db tx) = return (some tx)
after_pruned tx_dne = return none
after_pruned db_thrown = refuse thrown

abbrev pub or_pruned : Bytes → DbTx → Query (Option Transaction)
or_pruned tx_hash (in_db tx) = return (some tx)
or_pruned tx_hash tx_dne = do pruned ← observe (λ c. c.db_pruned_tx tx_hash); after_pruned pruned
or_pruned tx_hash db_thrown = refuse thrown

-- MicroCore::get_tx
unfoldable pub get_tx : Bytes → Query (Option Transaction)
get_tx tx_hash = do
  known ← observe (λ c. c.have_tx tx_hash)
  if known
      then (do found ← observe (λ c. c.db_tx tx_hash); or_pruned tx_hash found)
      else return none

abbrev pub null_hash : Bytes
null_hash = replicate 64 48

-- The pool entries with the hash, of which the first is enough; all of them for the null hash.
unfoldable pub search_mempool : Bytes → List MempoolTx → List MempoolTx
search_mempool tx_hash [] = []
search_mempool tx_hash (e ∷ es) =
    let rest = search_mempool tx_hash es in
    if same tx_hash e.tx_hash || same tx_hash null_hash
    then (if not (same tx_hash null_hash) then e ∷ [] else e ∷ rest)
    else rest

-- The transaction, and the arrival time where it was found in the pool.
abbrev pub in_mempool : List MempoolTx → Option (Transaction × Option ℕ)
in_mempool [] = none
in_mempool (e ∷ es) = some (e.tx, some e.receive_time)

abbrev pub or_mempool : Bytes → Option Transaction → Query (Option (Transaction × Option ℕ))
or_mempool tx_hash none = do
  pool ← observe (λ c. c.mempool)
  return (in_mempool (search_mempool tx_hash pool))
or_mempool tx_hash (some tx) = return (some (tx, none))

unfoldable pub find_tx : Bytes → Query (Option (Transaction × Option ℕ))
unfolding get_tx search_mempool
find_tx tx_hash = do found ← get_tx tx_hash; or_mempool tx_hash found

-- tx_details, less the payment ids, the signatures and the prefix hash. `blk_height` is left unset
-- where the caller gives a height or the chain does not have the transaction.
pub record TxDetails : Type 0 where
  pub tx_hash : Bytes
  pub pk : Bytes
  pub additional_pks : List Bytes
  pub xmr_inputs : ℕ
  pub xmr_outputs : ℕ
  pub num_nonrct_inputs : ℕ
  pub fee : ℕ
  pub mixin_no : ℕ
  pub size : ℕ
  pub blk_height : Option ℕ
  pub version : ℕ
  pub confidential_amounts : Bool
  pub unlock_time : ℕ
  pub no_confirmations : ℕ
  pub extra : Bytes
  pub input_key_imgs : List KeyInput
  pub output_pub_keys : List OutputTuple

abbrev pub or_null : Option Bytes → Bytes
or_null none = null_hash
or_null (some h) = h

unfoldable pub tx_hash_of : Transaction → Bytes
tx_hash_of tx = if tx.pruned then or_null tx.pruned_hash else tx.full_hash

-- The fee is read unless the caller says that it is a coinbase, or the first input generates coins.
unfoldable pub tx_fee_of : Transaction → Bool → ℕ
tx_fee_of tx coinbase =
    if not coinbase && ltb 0 (length tx.vin) && not tx.begins_with_gen then tx.fee else 0

abbrev pub make_details : Transaction → Bool → Option ℕ → ℕ → TxDetails
make_details tx coinbase blk_height no_confirmations =
    let sums = summary_of_in_out_rct tx in
    record {
      tx_hash = tx_hash_of tx;
      pk = tx.public_key;
      additional_pks = tx.additional_pks;
      xmr_inputs = sums.xmr_inputs;
      xmr_outputs = sums.xmr_outputs;
      num_nonrct_inputs = sums.num_nonrct_inputs;
      fee = tx_fee_of tx coinbase;
      mixin_no = sums.mixin_no;
      size = tx.blob_size;
      blk_height = blk_height;
      version = tx.version;
      confidential_amounts = transaction_amounts_confidential tx;
      unlock_time = tx.unlock_time;
      no_confirmations = no_confirmations;
      extra = tx.extra;
      input_key_imgs = sums.input_key_imgs;
      output_pub_keys = sums.output_pub_keys;
    }

-- Whether the block is searched for: `blk_height == 0 && have_tx`, the second only after the first.
unfoldable pub is_searched : ℕ → Bytes → Query Bool
is_searched blk_height tx_hash =
    if blk_height == 0 then observe (λ c. c.have_tx tx_hash) else return false

unfoldable pub get_tx_details : Transaction → Bool → ℕ → ℕ → Query TxDetails
unfolding is_searched
get_tx_details tx coinbase blk_height bc_height = do
  searched ← is_searched blk_height (tx_hash_of tx)
  if searched
      then (do
        found ← observe (λ c. c.tx_block_height (tx_hash_of tx))
        height ← or_refuse found thrown
        top ← observe (λ c. c.height)
        return (make_details tx coinbase (some height) (sub64 top height)))
      else return (make_details tx coinbase none (sub64 bc_height blk_height))

-- get_tx_json, less the texts that are made of floating-point numbers and the payment ids. The
-- amounts are null for a confidential transaction.
pub record TxJson : Type 0 where
  pub tx_hash : Bytes
  pub tx_fee_atomic : Bytes
  pub mixin : ℕ
  pub tx_size_bytes : ℕ
  pub outputs_atomic : Option Bytes
  pub inputs_atomic : Option Bytes
  pub amount_availability : Bytes
  pub tx_version : ℕ
  pub is_ringct : Bool
  pub coinbase : Bool
  pub extra : Bytes

unfoldable pub get_tx_json : Transaction → TxDetails → TxJson
get_tx_json tx txd =
    let ringct = not tx.is_coinbase && not tx.rct_type_null in
    record {
      tx_hash = txd.tx_hash;
      tx_fee_atomic = to_text txd.fee;
      mixin = txd.mixin_no;
      tx_size_bytes = txd.size;
      outputs_atomic = if ringct then none else some (to_text txd.xmr_outputs);
      inputs_atomic = if ringct then none else some (to_text txd.xmr_inputs);
      amount_availability = if ringct then codes "confidential" else codes "public";
      tx_version = txd.version;
      is_ringct = ringct;
      coinbase = tx.is_coinbase;
      extra = txd.extra;
    }

-- A number with zeros before it up to a width.
unfoldable pub padded : ℕ → ℕ → Bytes
padded width n = replicate (width - length (to_text n)) 48 ++ to_text n

abbrev colon : Bytes
colon = codes ":"

-- The text and its format; the callers of these pages leave full_format at false.
unfoldable pub get_age : ℕ → ℕ → Bytes × Bytes
get_age timestamp1 timestamp2 =
    let d = timestamp_difference timestamp1 timestamp2 in
    let day = padded 2 d.hours ++ colon ++ padded 2 d.minutes ++ colon ++ padded 2 d.seconds in
    if ltb 0 d.years
    then (padded 2 d.years ++ colon ++ padded 3 d.days ++ colon ++ day, codes "[y:d:h:m:s]")
    else if ltb 0 d.days
    then (padded 2 d.days ++ colon ++ day, codes "[d:h:m:s]")
    else (day, codes "[h:m:s]")
