-- ===== src/Reward/Acceptance.antt =====
-- When make_epose_reward_view accepts a response, as statements about its fields.
use explorer_qwertycoin_org.Base.{
  ap, none, inl, inr, Bool-cases, Option, ℕ, ◌+◌, ◌≤◌, ◌<◌, ◌≡◌, ◌≢◌, ◌⊎◌, ◌↔◌, refl, ◌∙◌, true,
  false, List, [], ◌∷◌, some, Bytes, length, same_iff, u64_max, add64, All, arith,
}
use explorer_qwertycoin_org.Reward.{
  is_balanced, empty_view, paid_view, make_epose_reward_view, RewardOutput, Response, Expected,
  all_lower_hex, is_lower_hex_64, is_about, seen_before, check_outputs, is_paid,
}
use explorer_qwertycoin_org.Reward.Accounting.{IsWords, Balances, is_balanced_iff}

abbrev pub IsHexKey : Bytes → Type 0
IsHexKey s = is_lower_hex_64 s ≡ true

-- The digits of a key: 64 of them, each a decimal digit or a lower-case letter up to f.
abbrev pub IsLowerHex : ℕ → Type 0
IsLowerHex c = ((b'0' ≤ c) × (c ≤ b'9')) ⊎ ((b'a' ≤ c) × (c ≤ b'f'))

all_lower_hex_iff : (s : Bytes) → (all_lower_hex s ≡ true) ↔ All IsLowerHex s
unfolding all_lower_hex
all_lower_hex_iff [] = (λ h. tt, λ h. refl)
all_lower_hex_iff (c ∷ s) =
    (λ h. ground (arith, all_lower_hex_iff s), λ h. ground (arith, all_lower_hex_iff s))

pub is_lower_hex_64_iff :
    (s : Bytes) → (is_lower_hex_64 s ≡ true) ↔ ((length s ≡ 64) × All IsLowerHex s)
unfolding is_lower_hex_64
is_lower_hex_64_iff s =
    (λ h. ground (arith, all_lower_hex_iff s), λ h. ground (arith, all_lower_hex_iff s))

seen_before_iff : (i : ℕ) (js : List ℕ) → (seen_before i js ≡ false) ↔ All (λ j. i ≢ j) js
unfolding seen_before
seen_before_iff i [] = (λ h. tt, λ h. refl)
seen_before_iff i (j ∷ js) =
    (λ h. ground (arith, seen_before_iff i js), λ h. ground (arith, seen_before_iff i js))

abbrev pub amounts : List RewardOutput → ℕ
amounts [] = 0
amounts (o ∷ rest) = o.amount + amounts rest

-- The outputs are outputs of the coinbase, at different indices, each under a proper key; `taken`
-- are the indices of those before them.
abbrev pub AreOutputs : ℕ → List ℕ → List RewardOutput → Type 0
AreOutputs count taken [] = Unit {0}
AreOutputs count taken (o ∷ rest) =
    (o.index < count)
    × All (λ j. o.index ≢ j) taken
    × IsHexKey o.public_key
    × AreOutputs count (o.index ∷ taken) rest

check_outputs_sound :
    (count : ℕ) (os : List RewardOutput) (total sum : ℕ) (taken : List ℕ)
    → total ≤ u64_max
    → All (λ o. o.amount ≤ u64_max) os
    → check_outputs count os total taken ≡ some sum
    → AreOutputs count taken os × (sum ≡ total + amounts os) × (sum ≤ u64_max)
unfolding check_outputs
check_outputs_sound count [] total sum taken b w e = ground arith
check_outputs_sound count (o ∷ rest) total sum taken b w e = ground (
  arith,
  seen_before_iff o.index taken,
  check_outputs_sound count rest (add64 total o.amount) sum (o.index ∷ taken) (omega arith) w.1,
)

check_outputs_complete :
    (count : ℕ) (os : List RewardOutput) (total : ℕ) (taken : List ℕ)
    → AreOutputs count taken os
    → total + amounts os ≤ u64_max
    → check_outputs count os total taken ≡ some (total + amounts os)
unfolding check_outputs
check_outputs_complete count [] total taken a b = ground arith
check_outputs_complete count (o ∷ rest) total taken a b = ground (
  arith,
  seen_before_iff o.index taken,
  check_outputs_complete count rest (add64 total o.amount) (o.index ∷ taken) a.3,
)

check_outputs_all :
    (count : ℕ) (os : List RewardOutput)
    → AreOutputs count [] os
    → amounts os ≤ u64_max
    → check_outputs count os 0 [] ≡ some (amounts os)
check_outputs_all count os a b =
    check_outputs_complete count os 0 [] a (omega arith) ∙ ap some (omega arith)

-- The response is about the expected block.
pub record IsAbout (r : Response) (e : Expected) : Type 0 where
  pub mapped : r.mapping_available ≡ true
  pub block : r.block_hash ≡ e.block_hash
  pub at_height : r.height ≡ e.height
  pub coinbase : r.coinbase_total ≡ e.coinbase_total
  pub block_key : IsHexKey r.block_hash
  pub parent_key : IsHexKey r.parent_hash
  pub qualification_key : IsHexKey r.qualification_hash

is_about_iff : (r : Response) (e : Expected) → (is_about r e ≡ true) ↔ IsAbout r e
unfolding is_about
is_about_iff r e = (
  λ h. ground (arith, same_iff r.block_hash e.block_hash),
  λ h. ground (arith, same_iff r.block_hash e.block_hash),
)

-- An active service reward is proved and paid by the outputs, to the last unit; an inactive one is
-- absent altogether.
abbrev pub IsPaid : Response → Type 0
IsPaid r =
    ((r.service_reward_active ≡ true)
      × (r.payment_proof_valid ≡ true)
      × (0 < r.service_reward)
      × (0 < r.qualified_count)
      × (r.service_outputs ≢ [])
      × (amounts r.service_outputs ≡ r.service_reward)
      × IsHexKey r.payee_service_public_key
      × IsHexKey r.reward_view_public_key
      × IsHexKey r.reward_spend_public_key)
    ⊎ ((r.service_reward_active ≡ false)
        × (r.payment_proof_valid ≡ false)
        × (r.service_reward ≡ 0)
        × (r.service_outputs ≡ []))

is_paid_iff : (r : Response) → (is_paid r (amounts r.service_outputs) ≡ true) ↔ IsPaid r
unfolding is_paid
is_paid_iff r = (λ h. ground arith, λ h. ground arith)

-- All that an accepted response satisfies.
pub record IsAcceptable (r : Response) (e : Expected) : Type 0 where
  pub about : IsAbout r e
  pub balances : Balances r.fields
  pub outputs : AreOutputs e.output_count [] r.service_outputs
  pub outputs_fit : amounts r.service_outputs ≤ u64_max
  pub paid : IsPaid r

module _ (r : Response) (e : Expected) (w : IsWords r)
    (wo : All (λ o. o.amount ≤ u64_max) r.service_outputs) where
  paid_view-accepts :
      (o : Option ℕ)
      → check_outputs e.output_count r.service_outputs 0 [] ≡ o
      → (paid_view r o ≡ (false, empty_view))
        ⊎ (AreOutputs e.output_count [] r.service_outputs
            × (amounts r.service_outputs ≤ u64_max)
            × (is_paid r (amounts r.service_outputs) ≡ true)
            × (paid_view r o ≡ (true, r.fields)))
  paid_view-accepts none h = inl refl
  paid_view-accepts (some total) h =
      ground
        (arith, check_outputs_sound e.output_count r.service_outputs 0 total [] (omega arith) wo h)

  make-passes :
      make_epose_reward_view r e ≡ paid_view r (check_outputs e.output_count r.service_outputs 0 [])
        × IsAbout r e
        × Balances r.fields
      ⊎ (make_epose_reward_view r e ≡ (false, empty_view))
  unfolding make_epose_reward_view
  make-passes = elim (Bool-cases (is_about r e)) [
    | inr other ↦ inr (rw other)
    | inl about ↦ elim (Bool-cases (is_balanced r)) [
      | inr off ↦ inr (rw (about, off))
      | inl even ↦ inl (rw (about, even), (is_about_iff r e).0 about, (is_balanced_iff r w).0 even)
    ]
  ]

  accepts : IsAcceptable r e → make_epose_reward_view r e ≡ (true, r.fields)
  unfolding make_epose_reward_view
  accepts a = rw (
    (is_about_iff r e).1 a.about,
    (is_balanced_iff r w).1 a.balances,
    check_outputs_all e.output_count r.service_outputs a.outputs a.outputs_fit,
    (is_paid_iff r).1 a.paid,
  )

  accepted : make_epose_reward_view r e ≡ (false, empty_view) ⊎ IsAcceptable r e
  accepted = elim make-passes [
    | inr f ↦ inl f
    | inl (m, about, balances) ↦
        elim (paid_view-accepts (check_outputs e.output_count r.service_outputs 0 []) refl) [
          | inl n ↦ inl (m ∙ n)
          | inr (outputs, fit, paid, _) ↦ inr (record {
            about = about;
            balances = balances;
            outputs = outputs;
            outputs_fit = fit;
            paid = (is_paid_iff r).0 paid;
          })
        ]
  ]

  -- For a response whose numbers are uint64_t: it is accepted, and then shown with its fields
  -- unchanged, exactly if it is about the expected block, its accounting balances over unbounded
  -- numbers, its outputs are different outputs of the coinbase with proper keys whose amounts fit
  -- uint64_t in sum, and its service reward is proved and paid in full or absent. Otherwise the
  -- answer is false and an empty view.
  pub make-accepts :
      (make_epose_reward_view r e ≡ (true, r.fields)) × IsAcceptable r e
      ⊎ (make_epose_reward_view r e ≡ (false, empty_view)) × ¬ IsAcceptable r e
  make-accepts = elim accepted [ inr a ↦ inl (accepts a, a) | inl f ↦ inr (f, λ a. cc (accepts a)) ]
