-- ===== src/Reward/Accounting.antt =====
-- What an accepted reward view says, in numbers that do not wrap.
use explorer_qwertycoin_org.Base.{ℕ, ◌+◌, ◌≤◌, ◌≡◌, ◌↔◌, true, false, u64_max, add64, arith}
use explorer_qwertycoin_org.Reward.{RewardView, Response, misses, identities_hold, is_balanced}

-- The numbers of a response are uint64_t.
pub record IsWords (r : Response) : Type 0 where
  pub scheduled_fits : r.scheduled_subsidy ≤ u64_max
  pub fees_fit : r.transaction_fees ≤ u64_max
  pub miner_subsidy_fits : r.miner_subsidy ≤ u64_max
  pub miner_fees_fit : r.miner_fees ≤ u64_max
  pub issued_fits : r.issued_subsidy ≤ u64_max
  pub coinbase_fits : r.coinbase_total ≤ u64_max
  pub miner_reward_fits : r.miner_reward ≤ u64_max
  pub service_reward_fits : r.service_reward ≤ u64_max
  pub unissued_fits : r.permanently_unissued ≤ u64_max

-- The coinbase is the miner's part and the service's part, and also the issued subsidy and the
-- fees; what was scheduled is what was issued and what stays unissued for ever.
pub record Balances (v : RewardView) : Type 0 where
  pub coinbase_parts : v.miner_reward + v.service_reward ≡ v.coinbase_total
  pub coinbase_sources : v.issued_subsidy + v.transaction_fees ≡ v.coinbase_total
  pub miner_parts : v.miner_subsidy + v.transaction_fees ≡ v.miner_reward
  pub miner_fees_all : v.miner_fees ≡ v.transaction_fees
  pub issued_parts : v.issued_subsidy ≡ v.miner_subsidy + v.service_reward
  pub scheduled_parts : v.scheduled_subsidy ≡ v.issued_subsidy + v.permanently_unissued
  pub advance_whole : v.emission_advance ≡ v.scheduled_subsidy

misses_iff :
    (a b total : ℕ) → b ≤ u64_max → total ≤ u64_max → (misses a b total ≡ false) ↔ (a + b ≡ total)
unfolding misses
misses_iff a b total hb ht = ground arith

abbrev Identities : Response → ℕ → ℕ → Type 0
Identities r issued scheduled =
    (r.miner_reward + r.service_reward ≡ r.coinbase_total)
    × (r.issued_subsidy + r.transaction_fees ≡ r.coinbase_total)
    × (r.miner_subsidy + r.miner_fees ≡ r.miner_reward)
    × (r.miner_fees ≡ r.transaction_fees)
    × (r.issued_subsidy ≡ issued)
    × (r.scheduled_subsidy ≡ scheduled)
    × (r.emission_advance ≡ r.scheduled_subsidy)

module _ (r : Response) (w : IsWords r) (issued scheduled : ℕ) where
  Identities-hold : identities_hold r issued scheduled ≡ true → Identities r issued scheduled
  unfolding identities_hold
  Identities-hold h = ground (
    arith,
    misses_iff r.miner_reward r.service_reward r.coinbase_total w.service_reward_fits
        w.coinbase_fits,
    misses_iff r.issued_subsidy r.transaction_fees r.coinbase_total w.fees_fit w.coinbase_fits,
    misses_iff r.miner_subsidy r.miner_fees r.miner_reward w.miner_fees_fit w.miner_reward_fits,
  )

  hold-Identities : Identities r issued scheduled → identities_hold r issued scheduled ≡ true
  unfolding identities_hold
  hold-Identities h = ground (
    arith,
    misses_iff r.miner_reward r.service_reward r.coinbase_total w.service_reward_fits
        w.coinbase_fits,
    misses_iff r.issued_subsidy r.transaction_fees r.coinbase_total w.fees_fit w.coinbase_fits,
    misses_iff r.miner_subsidy r.miner_fees r.miner_reward w.miner_fees_fit w.miner_reward_fits,
  )

-- For a response whose numbers are uint64_t, the tests in wrapping arithmetic pass exactly if the
-- identities between the parts of the reward hold over unbounded numbers.
pub is_balanced_iff : (r : Response) → IsWords r → (is_balanced r ≡ true) ↔ Balances r.fields
unfolding is_balanced
is_balanced_iff r w =
    let issued = add64 r.miner_subsidy r.service_reward in
    let scheduled = add64 issued r.permanently_unissued in
    (
      λ h. ground (arith, Identities-hold r w issued scheduled),
      λ b. ground (arith, hold-Identities r w issued scheduled),
    )
