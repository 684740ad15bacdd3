-- ===== src/Supply/Ledger.antt =====
-- The invariant of the record list, and that the operations of supply_math.h keep it.
use explorer_qwertycoin_org.Base.{
  ℕ, ◌+◌, ◌-◌, ◌≤◌, ◌<◌, ◌≡◌, ◌≢◌, refl, subst, sym, true, ◌&&◌, List, [], ◌∷◌, arith, none, some,
  Bytes, ltb, leb, if◌then◌else◌, u128_max, length, same, same_iff, All, ◌++◌,
}
use explorer_qwertycoin_org.Supply.{
  SupplyRecord, checked_supply_add, minted_delta, back_hash, prior_coinbase, prior_fees,
  prior_minted, is_next, append_supply_record, rollback_supply_records,
}

-- What one record says of the records below it.
pub record Follows (rs : List SupplyRecord) (r : SupplyRecord) : Type 0 where
  pub place : r.height ≡ length rs
  pub parent : r.parent_hash ≡ back_hash rs
  pub covered : r.fees_atomic ≤ r.coinbase_atomic
  pub minted : r.minted_atomic ≡ r.coinbase_atomic - r.fees_atomic
  pub sum_coinbase : r.cumulative_coinbase ≡ prior_coinbase rs + r.coinbase_atomic
  pub sum_fees : r.cumulative_fees ≡ prior_fees rs + r.fees_atomic
  pub sum_minted : r.cumulative_minted ≡ prior_minted rs + r.minted_atomic
  pub fits : r.cumulative_coinbase ≤ u128_max

abbrev pub IsLedger : List SupplyRecord → Type 0
IsLedger [] = Unit {0}
IsLedger (r ∷ rs) = Follows rs r × IsLedger rs

-- Sums over the records, as the cumulative fields should have them.
unfoldable pub total : (SupplyRecord → ℕ) → List SupplyRecord → ℕ
total f [] = 0
total f (r ∷ rs) = total f rs + f r

-- The cumulative fields at the back of a ledger are the sums of the coinbase, fee and minted
-- amounts over all of its records.
pub prior-total :
    (rs : List SupplyRecord)
    → IsLedger rs
    → (prior_coinbase rs ≡ total (λ r. r.coinbase_atomic) rs)
      × (prior_fees rs ≡ total (λ r. r.fees_atomic) rs)
      × (prior_minted rs ≡ total (λ r. r.minted_atomic) rs)
unfolding total
prior-total [] h = (refl, refl, refl)
prior-total (r ∷ rs) (f, h) = ground (arith, prior-total rs h)

pub prior-conserved :
    (rs : List SupplyRecord)
    → IsLedger rs
    → (prior_minted rs + prior_fees rs ≡ prior_coinbase rs) × (prior_coinbase rs ≤ u128_max)
prior-conserved [] h = (omega arith, omega arith)
prior-conserved (r ∷ rs) (f, h) = omega (arith, prior-conserved rs h)

-- The record that is appended: its delta and its running sums, as plain sums.
abbrev pub extended : List SupplyRecord → SupplyRecord → SupplyRecord
extended rs r = record r {
  minted_atomic = r.coinbase_atomic - r.fees_atomic;
  cumulative_coinbase = prior_coinbase rs + r.coinbase_atomic;
  cumulative_fees = prior_fees rs + r.fees_atomic;
  cumulative_minted = prior_minted rs + (r.coinbase_atomic - r.fees_atomic);
}

pub checked_supply_add_lem :
    (a b : ℕ)
    → a ≤ u128_max
    → checked_supply_add a b ≡ (if leb (a + b) u128_max then some (a + b) else none)
unfolding checked_supply_add
checked_supply_add_lem a b h = ground arith

-- Onto a ledger, a record is appended exactly if it is next in place, hash and parent, its fees are
-- at most its coinbase and the coinbase sum fits 128 bits; the appended record then has the plain
-- sums. So on a ledger neither the fee sum nor the minted sum overflows first.
pub append_lem :
    (rs : List SupplyRecord) (r : SupplyRecord)
    → IsLedger rs
    → append_supply_record rs r ≡ (
        if is_next rs r
          && leb r.fees_atomic r.coinbase_atomic
          && leb (prior_coinbase rs + r.coinbase_atomic) u128_max
        then some (extended rs r ∷ rs)
        else none)
unfolding append_supply_record minted_delta
append_lem rs r h = ground (
  arith,
  prior-conserved rs h,
  checked_supply_add_lem (prior_coinbase rs) r.coinbase_atomic,
  checked_supply_add_lem (prior_fees rs) r.fees_atomic,
  checked_supply_add_lem (prior_minted rs) (r.coinbase_atomic - r.fees_atomic),
)

is_next_place :
    (rs : List SupplyRecord) (r : SupplyRecord)
    → is_next rs r ≡ true
    → (r.height ≡ length rs) × (r.parent_hash ≡ back_hash rs) × (r.hash ≢ [])
unfolding is_next
is_next_place [] r h = ground (arith)
is_next_place (p ∷ rs) r h = ground (arith, same_iff r.parent_hash p.hash)

pub append-inversion :
    (rs qs : List SupplyRecord) (r : SupplyRecord)
    → IsLedger rs
    → append_supply_record rs r ≡ some qs
    → (is_next rs r ≡ true)
      × (r.fees_atomic ≤ r.coinbase_atomic)
      × (prior_coinbase rs + r.coinbase_atomic ≤ u128_max)
      × (qs ≡ extended rs r ∷ rs)
append-inversion rs qs r h e = ground (arith, append_lem rs r h)

extended-Follows :
    (rs : List SupplyRecord) (r : SupplyRecord)
    → is_next rs r ≡ true
    → r.fees_atomic ≤ r.coinbase_atomic
    → prior_coinbase rs + r.coinbase_atomic ≤ u128_max
    → Follows rs (extended rs r)
extended-Follows rs r n c f = record {
  place = (is_next_place rs r n).0;
  parent = (is_next_place rs r n).1;
  covered = c;
  minted = refl;
  sum_coinbase = refl;
  sum_fees = refl;
  sum_minted = refl;
  fits = f;
}

-- Where append_supply_record accepts a record onto a ledger, the result is a ledger.
pub append-IsLedger :
    (rs qs : List SupplyRecord) (r : SupplyRecord)
    → IsLedger rs
    → append_supply_record rs r ≡ some qs
    → IsLedger qs
append-IsLedger rs qs r h e =
    let (n, c, f, q) = append-inversion rs qs r h e in
    subst IsLedger (sym q) (extended-Follows rs r n c f, h)

-- A record is canonical if it lies below the block count and carries the hash of its height.
abbrev pub IsCanonical : ℕ → (ℕ → Bytes) → SupplyRecord → Type 0
IsCanonical count at r = (r.height < count) × (at r.height ≡ r.hash)

abbrev pub BackIsCanonical : ℕ → (ℕ → Bytes) → List SupplyRecord → Type 0
BackIsCanonical count at [] = Unit {0}
BackIsCanonical count at (r ∷ rs) = IsCanonical count at r

pub rollback-IsLedger :
    (rs : List SupplyRecord) (count : ℕ) (at : ℕ → Bytes)
    → IsLedger rs
    → IsLedger (rollback_supply_records rs count at)
unfolding rollback_supply_records
rollback-IsLedger [] count at h = tt
rollback-IsLedger (r ∷ rs) count at h = ground (arith, rollback-IsLedger rs count at h.1)

pub rollback-BackIsCanonical :
    (rs : List SupplyRecord) (count : ℕ) (at : ℕ → Bytes)
    → BackIsCanonical count at (rollback_supply_records rs count at)
unfolding rollback_supply_records
rollback-BackIsCanonical [] count at = tt
rollback-BackIsCanonical (r ∷ rs) count at =
    ground (arith, rollback-BackIsCanonical rs count at, same_iff (at r.height) r.hash)

-- The popped records, newest first.
unfoldable pub popped : List SupplyRecord → ℕ → (ℕ → Bytes) → List SupplyRecord
popped [] count at = []
popped (r ∷ rs) count at =
    if ltb r.height count && same (at r.height) r.hash then [] else r ∷ popped rs count at

pub popped-append-rollback :
    (rs : List SupplyRecord) (count : ℕ) (at : ℕ → Bytes)
    → popped rs count at ++ rollback_supply_records rs count at ≡ rs
unfolding popped rollback_supply_records
popped-append-rollback [] count at = refl
popped-append-rollback (r ∷ rs) count at = ground (arith, popped-append-rollback rs count at)

pub popped-stale :
    (rs : List SupplyRecord) (count : ℕ) (at : ℕ → Bytes)
    → All (λ r. ¬ IsCanonical count at r) (popped rs count at)
unfolding popped
popped-stale [] count at = tt
popped-stale (r ∷ rs) count at =
    ground (arith, popped-stale rs count at, same_iff (at r.height) r.hash)

pub length-rollback-le :
    (rs : List SupplyRecord) (count : ℕ) (at : ℕ → Bytes)
    → length (rollback_supply_records rs count at) ≤ length rs
unfolding rollback_supply_records
length-rollback-le [] count at = omega arith
length-rollback-le (r ∷ rs) count at = ground (arith, length-rollback-le rs count at)

-- A ledger that is rolled back to a block count is no longer than that count.
pub length-rollback-le-count :
    (rs : List SupplyRecord) (count : ℕ) (at : ℕ → Bytes)
    → IsLedger rs
    → length (rollback_supply_records rs count at) ≤ count
unfolding rollback_supply_records
length-rollback-le-count [] count at h = omega arith
length-rollback-le-count (r ∷ rs) count at h =
    ground (arith, length-rollback-le-count rs count at h.1)

-- A rollback of a ledger pops some records and keeps the others in their order: none of the popped
-- ones is canonical, the back of those kept is, where any are kept, and those kept are a ledger that
-- is no longer than the block count.
pub rollback_lem :
    (rs : List SupplyRecord) (count : ℕ) (at : ℕ → Bytes)
    → IsLedger rs
    → let kept = rollback_supply_records rs count at in
      (popped rs count at ++ kept ≡ rs)
      × All (λ r. ¬ IsCanonical count at r) (popped rs count at)
      × BackIsCanonical count at kept
      × IsLedger kept
      × (length kept ≤ count)
rollback_lem rs count at h = (
  popped-append-rollback rs count at,
  popped-stale rs count at,
  rollback-BackIsCanonical rs count at,
  rollback-IsLedger rs count at h,
  length-rollback-le-count rs count at h,
)
