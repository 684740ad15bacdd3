-- ===== src/Examples/Rewards.antt =====
-- A block whose service reward is paid in one output.
use explorer_qwertycoin_org.Base.{
  ◌≡◌, ◌⊎◌, refl, true, false, [], ◌∷◌, Bytes, arith, replicate, same,
}
use explorer_qwertycoin_org.Reward.{
  is_about, identities_hold, misses, check_outputs, seen_before, is_paid, is_lower_hex_64,
  all_lower_hex, Response, Expected, empty_view, make_epose_reward_view, is_balanced,
}
use explorer_qwertycoin_org.Reward.Accounting.{IsWords}
use explorer_qwertycoin_org.Reward.Acceptance.{IsAcceptable, make-accepts}

abbrev test_key : Bytes
test_key = replicate 64 b'a'

abbrev test_response : Response
test_response = record {
  fields = record {
    payout_epoch = 2;
    source_epoch = 1;
    qualified_count = 3;
    scheduled_subsidy = 100;
    transaction_fees = 5;
    miner_subsidy = 70;
    miner_fees = 5;
    issued_subsidy = 90;
    emission_advance = 100;
    coinbase_total = 95;
    miner_reward = 75;
    service_reward = 20;
    permanently_unissued = 10;
    service_reward_active = true;
    qualification_hash = test_key;
    payee_service_public_key = test_key;
    service_outputs = record { index = 1; amount = 20; public_key = test_key } ∷ [];
  };
  mapping_available = true;
  payment_proof_valid = true;
  block_hash = test_key;
  parent_hash = test_key;
  height = 9;
  reward_view_public_key = test_key;
  reward_spend_public_key = test_key;
}

abbrev test_expected : Expected
test_expected = record { block_hash = test_key; height = 9; coinbase_total = 95; output_count = 2 }

test-IsWords : IsWords test_response
test-IsWords = record {
  scheduled_fits = omega arith;
  fees_fit = omega arith;
  miner_subsidy_fits = omega arith;
  miner_fees_fit = omega arith;
  issued_fits = omega arith;
  coinbase_fits = omega arith;
  miner_reward_fits = omega arith;
  service_reward_fits = omega arith;
  unissued_fits = omega arith;
}

make-accepts_example :
    (make_epose_reward_view test_response test_expected ≡ (true, test_response.fields))
      × IsAcceptable test_response test_expected
    ⊎ (make_epose_reward_view test_response test_expected ≡ (false, empty_view))
      × ¬ IsAcceptable test_response test_expected
make-accepts_example = make-accepts test_response test_expected test-IsWords (omega arith, tt)

-- The response is accepted, and its fields are the view.
accepts_response : make_epose_reward_view test_response test_expected ≡ (true, test_response.fields)
unfolding make_epose_reward_view is_about is_balanced identities_hold misses check_outputs
    seen_before is_paid is_lower_hex_64 all_lower_hex same
accepts_response = refl
