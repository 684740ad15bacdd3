-- ===== src/Supply.antt =====
-- src/supply_math.h: the records of the supply index and the operations on them.
-- A vector of records is a list with its back at the head, so `records.back()` is the head,
-- `push_back` is `∷` and `pop_back` is the tail.
pub mod Ledger
pub mod Text
pub mod Checkpoint
pub mod Node
pub mod Index
use explorer_qwertycoin_org.Base.{
  ℕ, ◌+◌, ◌-◌, ◌^◌, ◌%◌, Bool, false, ◌&&◌, not, List, [], ◌∷◌, Option, none, some, Bytes, ltb,
  ◌==◌, if◌then◌else◌, u128_max, length, is_empty, same,
}

pub record SupplyRecord : Type 0 where
  pub height : ℕ
  pub hash : Bytes
  pub parent_hash : Bytes
  pub coinbase_atomic : ℕ
  pub fees_atomic : ℕ
  pub minted_atomic : ℕ
  pub cumulative_coinbase : ℕ
  pub cumulative_fees : ℕ
  pub cumulative_minted : ℕ

-- The sum of two uint128_t, or nothing where it does not fit.
unfoldable pub checked_supply_add : ℕ → ℕ → Option ℕ
checked_supply_add lhs rhs = if ltb (u128_max - lhs) rhs then none else some ((lhs + rhs) % 2 ^ 128)

unfoldable pub minted_delta : ℕ → ℕ → Option ℕ
minted_delta coinbase fees = if ltb coinbase fees then none else some (coinbase - fees)

abbrev pub back_hash : List SupplyRecord → Bytes
back_hash [] = []
back_hash (r ∷ rs) = r.hash

abbrev pub prior_coinbase : List SupplyRecord → ℕ
prior_coinbase [] = 0
prior_coinbase (r ∷ rs) = r.cumulative_coinbase

abbrev pub prior_fees : List SupplyRecord → ℕ
prior_fees [] = 0
prior_fees (r ∷ rs) = r.cumulative_fees

abbrev pub prior_minted : List SupplyRecord → ℕ
prior_minted [] = 0
prior_minted (r ∷ rs) = r.cumulative_minted

infixl 5 ◌>>=◌
abbrev pub ◌>>=◌ {ℓ κ} : {A : Type ℓ} {B : Type κ} → Option A → (A → Option B) → Option B
none >>= f = none
some a >>= f = f a

-- The tests on a record before its sums: its place, its hash and its link to the back.
unfoldable pub is_next : List SupplyRecord → SupplyRecord → Bool
is_next records r =
    (r.height == length records)
    && not (is_empty r.hash)
    && not (r.height == 0 && not (is_empty r.parent_hash))
    && not (ltb 0 r.height && not (same r.parent_hash (back_hash records)))

-- `none` is `return false`, where the vector stays as it was.
unfoldable pub append_supply_record : List SupplyRecord → SupplyRecord → Option (List SupplyRecord)
append_supply_record records r =
    if is_next records r
    then (do
      minted ← minted_delta r.coinbase_atomic r.fees_atomic
      coinbase_sum ← checked_supply_add (prior_coinbase records) r.coinbase_atomic
      fees_sum ← checked_supply_add (prior_fees records) r.fees_atomic
      minted_sum ← checked_supply_add (prior_minted records) minted
      some (
          record r {
            minted_atomic = minted;
            cumulative_coinbase = coinbase_sum;
            cumulative_fees = fees_sum;
            cumulative_minted = minted_sum;
          }
          ∷ records))
    else none

-- The records are popped until the back stands on the canonical chain.
unfoldable pub rollback_supply_records : List SupplyRecord → ℕ → (ℕ → Bytes) → List SupplyRecord
rollback_supply_records [] count hash_at_height = []
rollback_supply_records (r ∷ rs) count hash_at_height =
    if ltb r.height count && same (hash_at_height r.height) r.hash
    then r ∷ rs
    else rollback_supply_records rs count hash_at_height
