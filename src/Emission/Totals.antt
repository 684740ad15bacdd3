-- ===== src/Emission/Totals.antt =====
-- What the running totals of src/CurrentBlockchainStatus.cpp are: the sums over the blocks so far.
use explorer_qwertycoin_org.Base.{
  ℕ, zero, suc, ◌+◌, ◌-◌, ◌%◌, ◌≤◌, ◌<◌, max, ◌⊎◌, true, ◌&&◌, List, [], ◌∷◌, ltb, leb,
  if◌then◌else◌, ◌≡◌, arith, add64, u64_mod, if-elim,
}
use explorer_qwertycoin_org.Emission.{
  Emission, BlockAnswer, sum_tx_fees, add_block, emission_loop, calculate_emission_in_blocks,
  update_end, update_current_emission_amount, get_emission,
}

-- The true sums over the first blocks, without any wrapping.
abbrev pub fees_of : List ℕ → ℕ
fees_of [] = 0
fees_of (f ∷ fs) = f + fees_of fs

abbrev pub fee_below : (ℕ → BlockAnswer) → ℕ → ℕ
fee_below chain zero = 0
fee_below chain (suc n) = fee_below chain n + fees_of (chain n).fees

abbrev pub outputs_below : (ℕ → BlockAnswer) → ℕ → ℕ
outputs_below chain zero = 0
outputs_below chain (suc n) = outputs_below chain n + (chain n).miner_outputs

-- The totals over the blocks below blk_no: the fees, and the outputs less the fees, as uint64_t.
abbrev pub IsTotal : (ℕ → BlockAnswer) → Emission → Type 0
IsTotal chain e =
    (e.fee ≡ fee_below chain e.blk_no % u64_mod)
    × ((e.coinbase + e.fee) % u64_mod ≡ outputs_below chain e.blk_no % u64_mod)
    × (e.coinbase < u64_mod)

sum_tx_fees_lem :
    (fs : List ℕ) (s : ℕ) → s < u64_mod → sum_tx_fees fs s ≡ (s + fees_of fs) % u64_mod
unfolding sum_tx_fees
sum_tx_fees_lem [] s h = omega arith
sum_tx_fees_lem (f ∷ fs) s h = omega (arith, sum_tx_fees_lem fs (add64 s f) (omega arith))

-- The loop from start_blk on, beside a running total of the blocks before.
abbrev With : (ℕ → BlockAnswer) → Emission → Emission → ℕ → Type 0
With chain t e n =
    ((t.fee + e.fee) % u64_mod ≡ fee_below chain n % u64_mod)
    × ((t.coinbase + t.fee + e.coinbase + e.fee) % u64_mod ≡ outputs_below chain n % u64_mod)
    × (e.fee < u64_mod)
    × (e.coinbase < u64_mod)

add_block-With :
    (chain : ℕ → BlockAnswer) (t e : Emission) (n : ℕ)
    → With chain t e n
    → With chain t (add_block (chain n) e) (suc n)
unfolding add_block
add_block-With chain t e n h =
    let f = sum_tx_fees_lem (chain n).fees 0 (omega arith) in
    (omega (arith, h, f), omega (arith, h, f), omega arith, omega arith)

emission_loop-With :
    (chain : ℕ → BlockAnswer) (t : Emission) (n start_blk : ℕ) (e : Emission)
    → With chain t e start_blk
    → let r = emission_loop chain n start_blk e in
      With chain t r r.blk_no × (r.blk_no ≡ start_blk + n)
unfolding emission_loop
emission_loop-With chain t zero s e h = (h, omega arith)
emission_loop-With chain t (suc n) s e h =
    let r =
      emission_loop-With chain t n (suc s) (add_block (chain s) e) (add_block-With chain t e s h) in
    (r.0, omega (arith, r.1))

extend-IsTotal :
    (chain : ℕ → BlockAnswer) (t : Emission) (end_blk : ℕ)
    → IsTotal chain t
    → let c = calculate_emission_in_blocks chain t.blk_no end_blk in
      IsTotal chain (record {
        coinbase = add64 t.coinbase c.coinbase;
        fee = add64 t.fee c.fee;
        blk_no = c.blk_no;
      })
      × (c.blk_no ≡ t.blk_no + (end_blk - t.blk_no))
unfolding calculate_emission_in_blocks
extend-IsTotal chain t end_blk h =
    let r =
      emission_loop-With chain t (end_blk - t.blk_no) t.blk_no
        (record { coinbase = 0; fee = 0; blk_no = 0 })
        (omega (arith, h), omega (arith, h), omega arith, omega arith) in
    ((omega (arith, r), omega (arith, r), omega arith), r.1)

-- From totals that are true of the blocks below blk_no, where blk_no + 10000 and the height are
-- uint64_t and the height is at least 3: after an update the totals are true of the blocks below
-- the new blk_no, which is not before the old one, and is 10000 blocks further or the larger of the
-- old one and three blocks below the height.
pub update-IsTotal :
    (chain : ℕ → BlockAnswer) (height : ℕ) (t : Emission)
    → IsTotal chain t
    → t.blk_no + 10000 < u64_mod
    → 3 ≤ height
    → height < u64_mod
    → let u = update_current_emission_amount chain height t in
      IsTotal chain u
      × (t.blk_no ≤ u.blk_no)
      × ((u.blk_no ≡ t.blk_no + 10000) ⊎ (u.blk_no ≡ max t.blk_no (height - 3)))
unfolding update_current_emission_amount update_end
update-IsTotal chain height t h b g l =
    let x = extend-IsTotal chain t (update_end t.blk_no height) h in
    (x.0, omega (arith, x.1), ground (arith, x.1))

-- An update does not go past the height, nor back.
pub update-le :
    (chain : ℕ → BlockAnswer) (height : ℕ) (t : Emission)
    → IsTotal chain t
    → t.blk_no + 10000 < u64_mod
    → 3 ≤ height
    → height < u64_mod
    → (update_current_emission_amount chain height t).blk_no ≤ max t.blk_no height
unfolding update_current_emission_amount update_end
update-le chain height t h b g l =
    let x = extend-IsTotal chain t (update_end t.blk_no height) h in ground (arith, x.1)

extended-pos :
    (chain : ℕ → BlockAnswer) (t : Emission) (end_blk : ℕ)
    → IsTotal chain t
    → t.blk_no < end_blk
    → ltb 0 (calculate_emission_in_blocks chain t.blk_no end_blk).blk_no ≡ true
extended-pos chain t end_blk h l = ground (arith, (extend-IsTotal chain t end_blk h).1)

-- From totals that are true of the blocks below blk_no, which is at most the height, where the
-- height + 3 is a uint64_t: the emission that is answered is true of the blocks below its own
-- blk_no, which is the height where the totals stand at most three blocks below it.
pub get_emission-IsTotal :
    (chain : ℕ → BlockAnswer) (height : ℕ) (t : Emission)
    → IsTotal chain t
    → t.blk_no ≤ height
    → height + 3 < u64_mod
    → let e = get_emission chain height t in
      IsTotal chain e × (height ≤ t.blk_no + 3 → e.blk_no ≡ height)
unfolding get_emission
get_emission-IsTotal chain height t h b l =
    if-elim (λ e. IsTotal chain e × (height ≤ t.blk_no + 3 → e.blk_no ≡ height))
      (leb height (add64 t.blk_no 3) && ltb t.blk_no height)
      (λ c.
        let stop = if ltb height (add64 t.blk_no 3) then height else add64 t.blk_no 3 in
        let x = extend-IsTotal chain t stop h in
        rw (extended-pos chain t stop h (ground arith)) (x.0, λ k. ground (arith, x.1)))
      (λ c. (h, λ k. ground arith))
