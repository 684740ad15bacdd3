-- ===== src/Reward.antt =====
-- src/epose_reward_view.h: the view of a block's reward, made from the daemon's response after its
-- accounting is checked. The numbers of the response are uint64_t.
pub mod Accounting
pub mod Acceptance
use explorer_qwertycoin_org.Base.{
  ℕ, ◌+◌, ◌-◌, Bool, true, false, ◌&&◌, ◌||◌, not, List, [], ◌∷◌, Option, none, some, Bytes, ltb,
  leb, ◌==◌, if◌then◌else◌, length, is_empty, same, u64_max, add64,
}

pub record RewardOutput : Type 0 where
  pub index : ℕ
  pub amount : ℕ
  pub public_key : Bytes

pub record RewardView : Type 0 where
  pub payout_epoch : ℕ
  pub source_epoch : ℕ
  pub qualified_count : ℕ
  pub scheduled_subsidy : ℕ
  pub transaction_fees : ℕ
  pub miner_subsidy : ℕ
  pub miner_fees : ℕ
  pub issued_subsidy : ℕ
  pub emission_advance : ℕ
  pub coinbase_total : ℕ
  pub miner_reward : ℕ
  pub service_reward : ℕ
  pub permanently_unissued : ℕ
  pub service_reward_active : Bool
  pub qualification_hash : Bytes
  pub payee_service_public_key : Bytes
  pub service_outputs : List RewardOutput

abbrev pub empty_view : RewardView
empty_view = record {
  payout_epoch = 0;
  source_epoch = 0;
  qualified_count = 0;
  scheduled_subsidy = 0;
  transaction_fees = 0;
  miner_subsidy = 0;
  miner_fees = 0;
  issued_subsidy = 0;
  emission_advance = 0;
  coinbase_total = 0;
  miner_reward = 0;
  service_reward = 0;
  permanently_unissued = 0;
  service_reward_active = false;
  qualification_hash = [];
  payee_service_public_key = [];
  service_outputs = [];
}

-- The fields of the daemon's response that the template reads: those that it copies to the view,
-- and the others.
pub record Response : Type 0 where
  pub fields : RewardView
  pub open fields use *
  pub mapping_available : Bool
  pub payment_proof_valid : Bool
  pub block_hash : Bytes
  pub parent_hash : Bytes
  pub height : ℕ
  pub reward_view_public_key : Bytes
  pub reward_spend_public_key : Bytes

-- What the caller knows of the block.
pub record Expected : Type 0 where
  pub block_hash : Bytes
  pub height : ℕ
  pub coinbase_total : ℕ
  pub output_count : ℕ

unfoldable pub all_lower_hex : Bytes → Bool
all_lower_hex [] = true
all_lower_hex (c ∷ s) =
    ((leb b'0' c && leb c b'9') || (leb b'a' c && leb c b'f')) && all_lower_hex s

unfoldable pub is_lower_hex_64 : Bytes → Bool
is_lower_hex_64 value = if not (length value == 64) then false else all_lower_hex value

-- The first tests: the response is about the expected block.
unfoldable pub is_about : Response → Expected → Bool
is_about r e = not (
    not r.mapping_available
    || not (same r.block_hash e.block_hash)
    || not (r.height == e.height)
    || not (r.coinbase_total == e.coinbase_total)
    || not (is_lower_hex_64 r.block_hash)
    || not (is_lower_hex_64 r.parent_hash)
    || not (is_lower_hex_64 r.qualification_hash))

-- `a > max() - b`, which the source tests before it adds.
abbrev pub overflows : ℕ → ℕ → Bool
overflows a b = ltb (u64_max - b) a

-- `a > max() - b || a + b != total`
unfoldable pub misses : ℕ → ℕ → ℕ → Bool
misses a b total = overflows a b || not (add64 a b == total)

-- The identities, given the two sums over the components of the subsidy.
unfoldable pub identities_hold : Response → ℕ → ℕ → Bool
identities_hold r issued_from_components scheduled_from_components = not (
    misses r.miner_reward r.service_reward r.coinbase_total
    || misses r.issued_subsidy r.transaction_fees r.coinbase_total
    || misses r.miner_subsidy r.miner_fees r.miner_reward
    || not (r.miner_fees == r.transaction_fees)
    || not (r.issued_subsidy == issued_from_components)
    || not (r.scheduled_subsidy == scheduled_from_components)
    || not (r.emission_advance == r.scheduled_subsidy))

-- The accounting tests, each sum in uint64_t behind its overflow test.
unfoldable pub is_balanced : Response → Bool
is_balanced r =
    let issued_from_components = add64 r.miner_subsidy r.service_reward in
    let scheduled_from_components = add64 issued_from_components r.permanently_unissued in
    if overflows r.miner_subsidy r.service_reward
    then false
    else if overflows issued_from_components r.permanently_unissued
    then false
    else identities_hold r issued_from_components scheduled_from_components

unfoldable pub seen_before : ℕ → List ℕ → Bool
seen_before i [] = false
seen_before i (j ∷ js) = i == j || seen_before i js

-- The loop over the outputs, from the running total and the indices so far; the outputs are copied
-- as they are, so the result is the total alone.
unfoldable pub check_outputs : ℕ → List RewardOutput → ℕ → List ℕ → Option ℕ
check_outputs count [] total indices = some total
check_outputs count (o ∷ rest) total indices =
    let more = check_outputs count rest (add64 total o.amount) (o.index ∷ indices) in
    if leb count o.index
      || seen_before o.index indices
      || not (is_lower_hex_64 o.public_key)
      || overflows total o.amount
    then none
    else more

-- The tests on the service reward, given the total of the outputs.
unfoldable pub is_paid : Response → ℕ → Bool
is_paid r output_total =
    if r.service_reward_active
    then not (
        not r.payment_proof_valid
        || r.service_reward == 0
        || r.qualified_count == 0
        || is_empty r.service_outputs
        || not (output_total == r.service_reward)
        || not (is_lower_hex_64 r.payee_service_public_key)
        || not (is_lower_hex_64 r.reward_view_public_key)
        || not (is_lower_hex_64 r.reward_spend_public_key))
    else not
        (r.payment_proof_valid || not (r.service_reward == 0) || not (is_empty r.service_outputs))

abbrev pub paid_view : Response → Option ℕ → Bool × RewardView
paid_view r none = (false, empty_view)
paid_view r (some total) = if is_paid r total then (true, r.fields) else (false, empty_view)

-- The result and the view that is left in the caller's variable.
unfoldable pub make_epose_reward_view : Response → Expected → Bool × RewardView
make_epose_reward_view r e =
    if is_about r e
    then if is_balanced r
      then paid_view r (check_outputs e.output_count r.service_outputs 0 [])
      else (false, empty_view)
    else (false, empty_view)
