-- ===== src/Amount/Hashrate.antt =====
-- The ratio and the unit that hashrate.h prints.
use native.Mathlib.Nat.{pow-zero, pow-suc, pow-le-pow_right, mul-le-mul, div-le_self}
use native.Mathlib.Decide.{dec_lt}
use explorer_qwertycoin_org.Decimal.Laws.{IsDigit}
use explorer_qwertycoin_org.Base.{
  All, inl, inr, ◌∙◌, ℕ, zero, suc, ◌+◌, ◌*◌, ◌/◌, ◌%◌, ◌^◌, ◌≤◌, ◌<◌, ◌≡◌, ◌∙◌, ◌⊎◌, inl, inr,
  refl, sym, subst, ap, ◌&&◌, Bytes, ltb, leb, u128_max, u64_max, arith, if-elim,
}
use explorer_qwertycoin_org.Amount.{insert_point, scale_of, decimal_ratio, find_unit}
use explorer_qwertycoin_org.Amount.Digits.{number, HasPoint, insert_point-HasPoint}

-- Up to 38 decimals the scale is a power of ten that fits.
ten-pow-le : (d : ℕ) → d ≤ 38 → 10 ^ d ≤ 10 ^ 38
ten-pow-le d h = pow-le-pow_right (omega arith) h

scale_of-pow :
    (rounds done : ℕ) → done + rounds ≤ 38 → scale_of rounds (10 ^ done) ≡ 10 ^ (done + rounds)
unfolding scale_of
scale_of-pow zero done h = let e : done ≡ done + zero = omega arith in ap (λ k. 10 ^ k) e
scale_of-pow (suc rounds) done h =
    let next : 10 ^ done * 10 % 2 ^ 256 ≡ 10 ^ suc done =
      omega (arith, pow-suc 10 done, ten-pow-le (suc done) (omega arith)) in
    let count : suc done + rounds ≡ done + suc rounds = omega arith in
    ap (scale_of rounds) next
    ∙ scale_of-pow rounds (suc done) (omega arith)
    ∙ ap (λ k. 10 ^ k) count

-- The scaled numerator fits a uint256_t.
scaled_lem :
    (numerator decimals : ℕ)
    → numerator ≤ u128_max
    → decimals ≤ 38
    → (numerator * scale_of decimals 1) % 2 ^ 256 ≡ numerator * 10 ^ decimals
scaled_lem numerator decimals fits few =
    let scale : scale_of decimals 1 ≡ 10 ^ decimals =
      scale_of-pow decimals 0 (omega arith) ∙ ap (λ k. 10 ^ k) (sym (add_zero decimals)) in
    let bound : numerator * 10 ^ decimals ≤ u128_max * 10 ^ 38 =
      mul-le-mul fits (ten-pow-le decimals few) in
    ap (λ k. numerator * k % 2 ^ 256) scale ∙ omega arith
  where
    add_zero : (n : ℕ) → n ≡ 0 + n
    add_zero n = omega arith

-- Where the print of a number below 2 ^ 256 spells it in digits: for a numerator of 128 bits, a positive
-- denominator and 1 to 38 decimals, the text spells the quotient rounded down to that many
-- decimals.
pub decimal_ratio-HasPoint :
    (print : ℕ → Bytes)
    → ((n : ℕ) → n < 2 ^ 256 → (number (print n) ≡ n) × All IsDigit (print n))
    → (numerator denominator decimals : ℕ) → numerator ≤ u128_max
    → 0 < denominator
    → 0 < decimals
    → decimals ≤ 38
    → HasPoint
        (decimal_ratio print numerator denominator decimals)
        decimals
        (numerator * 10 ^ decimals / denominator)
unfolding decimal_ratio
decimal_ratio-HasPoint print exact numerator denominator decimals fits pos places few =
    let whole = (numerator * scale_of decimals 1) % 2 ^ 256 in
    let ratio = whole / denominator in
    let small : ratio < 2 ^ 256 = omega (arith, div-le_self whole denominator) in
    let value : number (print ratio) ≡ numerator * 10 ^ decimals / denominator =
      (exact ratio small).0 ∙ ap (λ k. k / denominator) (scaled_lem numerator decimals fits few) in
    subst (λ text. HasPoint text decimals (numerator * 10 ^ decimals / denominator)) (ground arith)
      (subst (HasPoint (insert_point (print ratio) decimals) decimals) value
        (insert_point-HasPoint (print ratio) decimals (exact ratio small).1))

-- A divisor and its unit: the unit is the largest of the seven whose value is at least one, or H/s.
pub record IsUnit (difficulty target unit : ℕ) (r : ℕ × ℕ) : Type 0 where
  pub divisor : r.0 ≡ target * 1000 ^ r.1
  pub not_before : unit ≤ r.1
  pub last : r.1 ≤ 6
  pub reached : unit < r.1 → r.0 ≤ difficulty
  pub largest : (r.1 ≡ 6) ⊎ (difficulty < r.0 * 1000)

next_divisor :
    (target unit : ℕ)
    → target ≤ u64_max
    → unit ≤ 5
    → (target * 1000 ^ unit * 1000) % 2 ^ 128 ≡ target * 1000 ^ suc unit
next_divisor target unit fits few =
    let bound : target * 1000 ^ suc unit ≤ u64_max * 1000 ^ 6 =
      mul-le-mul fits
        (pow-le-pow_right {n = 1000} (omega arith) {i = suc unit} {j = 6} (omega arith)) in
    let step : target * 1000 ^ suc unit ≡ target * 1000 ^ unit * 1000 =
      ap (λ k. target * k) (pow-suc 1000 unit) ∙ omega arith in
    omega arith

widen :
    (difficulty target unit : ℕ) (r : ℕ × ℕ)
    → target * 1000 ^ suc unit ≤ difficulty
    → IsUnit difficulty target (suc unit) r
    → IsUnit difficulty target unit r
widen difficulty target unit (divisor, last) reaches u = record {
  divisor = u.divisor;
  not_before = omega (arith, u.not_before);
  last = u.last;
  reached = λ later. elim (dec_lt (suc unit) last) [
    | yes far ↦ u.reached far
    | no near ↦
        let here : last ≡ suc unit = omega (arith, u.not_before) in
        omega (arith, u.divisor, ap (λ k. target * 1000 ^ k) here)
  ];
  largest = u.largest;
}

stays :
    (difficulty target unit : ℕ)
    → (unit ≡ 6) ⊎ (difficulty < target * 1000 ^ suc unit)
    → unit ≤ 6
    → IsUnit difficulty target unit (target * 1000 ^ unit, unit)
stays difficulty target unit done fits = record {
  divisor = refl;
  not_before = omega arith;
  last = fits;
  reached = λ later. absurd (omega arith);
  largest = elim done [ inl top ↦ inl top | inr low ↦ inr (omega (arith, power target unit)) ];
}
  where
    power : (t u : ℕ) → t * 1000 ^ suc u ≡ t * 1000 ^ u * 1000
    power t u = ap (λ k. t * k) (pow-suc 1000 u) ∙ omega arith

find_unit-IsUnit :
    (rounds difficulty target unit : ℕ)
    → target ≤ u64_max
    → rounds + unit ≡ 6
    → IsUnit difficulty target unit (find_unit rounds difficulty (target * 1000 ^ unit) unit)
unfolding find_unit
find_unit-IsUnit zero difficulty target unit fits total = ground arith
find_unit-IsUnit (suc rounds) difficulty target unit fits total =
    rw (next_divisor target unit fits (omega arith)) (
      if-elim (IsUnit difficulty target unit)
        (ltb (suc unit) 7 && leb (target * 1000 ^ suc unit) difficulty)
        (λ t.
          widen difficulty target unit _ (ground arith)
            (find_unit-IsUnit rounds difficulty target (suc unit) fits (omega arith)))
        (λ t. stays difficulty target unit (ground arith) (omega arith)))

-- For a target of 64 bits, the divisor is the target times 1000 to the power of the unit, without
-- wrapping, and the unit is the largest of the seven at which the hash rate is at least one, or
-- H/s.
pub find_unit_lem :
    (difficulty target : ℕ)
    → target ≤ u64_max
    → IsUnit difficulty target 0 (find_unit 6 difficulty target 0)
find_unit_lem difficulty target fits =
    let one : target ≡ target * 1000 ^ 0 = omega (arith, pow-zero 1000) in
    subst (λ d. IsUnit difficulty target 0 (find_unit 6 difficulty d 0)) (sym one)
      (find_unit-IsUnit 6 difficulty target 0 fits (omega arith))
