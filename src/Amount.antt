-- ===== src/Amount.antt =====
-- src/exact_amount.h and src/hashrate.h: amounts and ratios as exact decimal text.
pub mod Digits
pub mod Exact
pub mod Hashrate
use explorer_qwertycoin_org.Base.{
  ℕ, zero, suc, ◌+◌, ◌-◌, ◌*◌, ◌/◌, ◌%◌, ◌^◌, Bool, true, ◌&&◌, ◌||◌, not, [], ◌∷◌, ◌++◌, Bytes,
  codes, ltb, leb, ◌==◌, if◌then◌else◌, is_empty, length, replicate, take, drop,
}
use explorer_qwertycoin_org.Decimal.{to_text, is_digit}

abbrev pub unavailable : Bytes
unavailable = codes "unavailable"

abbrev pub zeros : ℕ → Bytes
zeros n = replicate n b'0'

-- std::setw(width) with std::setfill('0')
unfoldable pub pad : ℕ → Bytes → Bytes
pad width s = zeros (width - length s) ++ s

unfoldable pub format_atomic_amount : ℕ → ℕ → ℕ → Bytes
format_atomic_amount amount coin decimal_places =
    if coin == 0
    then unavailable
    else if ltb 0 decimal_places
    then to_text (amount / coin) ++ b'.' ∷ pad decimal_places (to_text (amount % coin))
    else to_text (amount / coin)

unfoldable pub only_digits : Bytes → Bool
only_digits [] = true
only_digits (c ∷ s) = is_digit c && only_digits s

-- The text from its first character that is not a zero.
unfoldable pub skip_zeros : Bytes → Bytes
skip_zeros [] = []
skip_zeros (c ∷ s) = if c == b'0' then skip_zeros s else c ∷ s

unfoldable pub normalize : Bytes → Bytes
normalize s = if is_empty (skip_zeros s) then b'0' ∷ [] else skip_zeros s

-- Zeros in front, so that a digit stands before the point, and the point: the same two statements
-- end format_atomic_decimal_string and decimal_ratio.
unfoldable pub insert_point : Bytes → ℕ → Bytes
insert_point digits places =
    let padded =
      if leb (length digits) places then zeros (places + 1 - length digits) ++ digits else digits in
    take (length padded - places) padded ++ b'.' ∷ drop (length padded - places) padded

unfoldable pub format_atomic_decimal_string : Bytes → ℕ → Bytes
format_atomic_decimal_string atomic decimal_places =
    if is_empty atomic || not (only_digits atomic)
    then unavailable
    else if decimal_places == 0
    then normalize atomic
    else insert_point (normalize atomic) decimal_places

-- The loop that multiplies the scale by ten, in uint256_t.
unfoldable pub scale_of : ℕ → ℕ → ℕ
scale_of zero scale = scale
scale_of (suc rounds) scale = scale_of rounds ((scale * 10) % 2 ^ 256)

-- The ratio in uint256_t, rounded down; `print` is boost's print of a wide integer.
unfoldable pub decimal_ratio : (ℕ → Bytes) → ℕ → ℕ → ℕ → Bytes
decimal_ratio print numerator denominator decimals =
    let digits = print ((numerator * scale_of decimals 1) % 2 ^ 256 / denominator) in
    if denominator == 0
    then unavailable
    else if decimals == 0
    then digits
    else insert_point digits decimals

abbrev pub unit_name : ℕ → Bytes
unit_name zero = codes "H/s"
unit_name (suc zero) = codes "kH/s"
unit_name (suc (suc zero)) = codes "MH/s"
unit_name (suc (suc (suc zero))) = codes "GH/s"
unit_name (suc (suc (suc (suc zero)))) = codes "TH/s"
unit_name (suc (suc (suc (suc (suc zero))))) = codes "PH/s"
unit_name (suc (suc (suc (suc (suc (suc n)))))) = codes "EH/s"

-- The divisor and the unit after the loop; there are seven units, so six rounds at most.
unfoldable pub find_unit : ℕ → ℕ → ℕ → ℕ → ℕ × ℕ
find_unit zero difficulty divisor unit = (divisor, unit)
find_unit (suc rounds) difficulty divisor unit =
    let next = find_unit rounds difficulty ((divisor * 1000) % 2 ^ 128) (suc unit) in
    if ltb (suc unit) 7 && leb ((divisor * 1000) % 2 ^ 128) difficulty
    then next
    else (divisor, unit)

unfoldable pub format_hashrate_si : (ℕ → Bytes) → ℕ → ℕ → Bytes
format_hashrate_si print difficulty target =
    let (divisor, unit) = find_unit 6 difficulty target 0 in
    if target == 0
    then unavailable
    else decimal_ratio print difficulty divisor 3 ++ b' ' ∷ unit_name unit
