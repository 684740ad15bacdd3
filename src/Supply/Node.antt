-- ===== src/Supply/Node.antt =====
-- What the supply index sees of the node, and read_record of src/SupplyIndex.cpp.
-- The node (Blockchain, MicroCore and their libraries) is a parameter. It may change between any
-- two calls, so a run is given a sequence of views, and each call looks at the next one.
use explorer_qwertycoin_org.Base.{
  ℕ, suc, ◌-◌, Bool, true, false, ◌&&◌, ◌||◌, not, List, [], ◌∷◌, ◌++◌, Option, none, some, Bytes,
  codes, ltb, ◌==◌, if◌then◌else◌, length, is_empty, same, u64_max, add64,
}
use explorer_qwertycoin_org.Decimal.{to_text}
use explorer_qwertycoin_org.Supply.{SupplyRecord, minted_delta}

-- A block as the index uses it: get_outs_money_amount of its miner transaction, get_block_hash and
-- prev_id in hex, and its transaction hashes.
pub record Block : Type 0 where
  pub coinbase_amount : ℕ
  pub block_hash : Bytes
  pub prev_id : Bytes
  pub tx_hashes : List Bytes

-- What get_transactions leaves: its result, the fee of each transaction found, the hashes missed.
pub record Transactions : Type 0 where
  pub succeeded : Bool
  pub fees : List ℕ
  pub missed : List Bytes

-- One view of the node. `block_id` is get_block_id_by_height in hex.
pub record Node : Type 0 where
  pub height : ℕ
  pub block_id : ℕ → Bytes
  pub block_at : ℕ → Option Block
  pub transactions : List Bytes → Transactions

-- The result of a run of calls: a value or an error text, and the number of the next view.
pub data Outcome (A : Type 0) : Type 0 where
  done : A → ℕ → Outcome A
  failed : Bytes → ℕ → Outcome A

abbrev pub Reading : Type 0 → Type 0
Reading A = (ℕ → Node) → ℕ → Outcome A

abbrev pub continue : {A B : Type 0} → Outcome A → (A → ℕ → Outcome B) → Outcome B
continue (done a t) f = f a t
continue (failed e t) f = failed e t

infixl 5 ◌>>=◌ ◌>>◌
abbrev pub ◌>>=◌ : {A B : Type 0} → Reading A → (A → Reading B) → Reading B
◌>>=◌ m f views t = continue (m views t) (λ a t'. f a views t')

abbrev pub ◌>>◌ : {B : Type 0} → Reading (Unit {0}) → Reading B → Reading B
m >> k = m >>= λ _. k

abbrev pub return : {A : Type 0} → A → Reading A
return a views t = done a t

abbrev pub throw : {A : Type 0} → Bytes → Reading A
throw e views t = failed e t

-- One call of the node.
abbrev pub observe : {A : Type 0} → (Node → A) → Reading A
observe f views t = done (f (views t)) (suc t)

abbrev pub refuse_if : Bool → Bytes → Reading (Unit {0})
refuse_if true e = throw e
refuse_if false e = return tt

abbrev pub or_throw : {A : Type 0} → Option A → Bytes → Reading A
or_throw none e = throw e
or_throw (some a) e = return a

abbrev at_block : Bytes → ℕ → Bytes
at_block text height = text ++ to_text height

-- The fee total, or nothing where it does not fit a uint64_t.
unfoldable pub sum_fees : ℕ → List ℕ → Option ℕ
sum_fees fees [] = some fees
sum_fees fees (fee ∷ rest) =
    if ltb (u64_max - fees) fee then none else sum_fees (add64 fees fee) rest

unfoldable pub check_parent : ℕ → Bytes → Block → Reading (Unit {0})
check_parent height expected blk =
    if ltb 0 height
    then (do
      actual ← observe (λ c. c.block_id (height - 1))
      refuse_if (not (same actual expected) || not (same blk.prev_id expected))
          (codes "Canonical parent changed while indexing"))
    else return tt

unfoldable pub read_fees : ℕ → Block → Reading ℕ
unfolding sum_fees
read_fees height blk = do
  got ← observe (λ c. c.transactions blk.tx_hashes)
  refuse_if
      (not got.succeeded
        || not (is_empty got.missed)
        || not (length got.fees == length blk.tx_hashes))
      (at_block (codes "Cannot read every transaction for block ") height)
  or_throw (sum_fees 0 got.fees) (at_block (codes "Fee total overflow at block ") height)

unfoldable pub read_record : ℕ → Bytes → Reading SupplyRecord
unfolding check_parent read_fees
read_record height expected = do
  found ← observe (λ c. c.block_at height)
  blk ← or_throw found (at_block (codes "Cannot read canonical block ") height)
  hash ← observe (λ c. c.block_id height)
  refuse_if (is_empty hash || not (same blk.block_hash hash) || (ltb 0 height && is_empty expected))
      (at_block (codes "Cannot anchor canonical block ") height)
  check_parent height expected blk
  fees ← read_fees height blk
  refuse_if (ltb blk.coinbase_amount fees)
      (at_block (codes "Coinbase is smaller than fees at block ") height)
  minted ←
      or_throw (minted_delta blk.coinbase_amount fees)
        (at_block (codes "Invalid issuance delta at block ") height)
  return (record {
    height = height;
    hash = hash;
    parent_hash = if height == 0 then [] else expected;
    coinbase_atomic = blk.coinbase_amount;
    fees_atomic = fees;
    minted_atomic = minted;
    cumulative_coinbase = 0;
    cumulative_fees = 0;
    cumulative_minted = 0;
  })
