-- ===== src/Amount/Exact.antt =====
-- The formatters of exact_amount.h lose nothing: the digits around the point spell the amount.
use explorer_qwertycoin_org.Base.{
  zero, suc, All-append, take, if-elim, false, ◌++◌, leb, length-append, length-replicate, ◌⊎◌, ℕ,
  ◌+◌, ◌-◌, ◌*◌, ◌/◌, ◌%◌, ◌^◌, ◌<◌, ◌≡◌, ◌≢◌, ◌∙◌, ◌↔◌, inl, inr, refl, subst, ap, true, [], ◌∷◌,
  Bytes, ◌==◌, length, is_empty, arith, All, Bool-cases,
}
use native.Mathlib.Nat.{div-add-mod', mod-lt, one-le-pow}
use mathlib.Core.List.{cons-ne-nil}
use explorer_qwertycoin_org.Decimal.{to_text}
use explorer_qwertycoin_org.Decimal.Laws.{to_text-IsDigit, IsDigit, to_text-ne-nil}
use explorer_qwertycoin_org.Amount.{
  zeros, pad, unavailable, format_atomic_amount, only_digits, skip_zeros, normalize, insert_point,
  format_atomic_decimal_string,
}
use explorer_qwertycoin_org.Amount.Digits.{
  zeros-IsDigit, number, number-to_text, number-pad, length-pad, length-to_text, HasPoint,
  insert_point-HasPoint,
}

pos-length : (s : Bytes) → s ≢ [] → 0 < length s
pos-length [] h = absurd (h refl)
pos-length (c ∷ s) h = omega arith

-- With a coin of 10 to the number of decimal places, and at least one place: the text is digits
-- with a point before the last `places` of them, and the digits spell the amount.
pub format_atomic_amount-HasPoint :
    (amount places : ℕ)
    → 0 < places
    → HasPoint (format_atomic_amount amount (10 ^ places) places) places amount
unfolding format_atomic_amount pad
format_atomic_amount-HasPoint amount places pos = record {
  whole = to_text (amount / coin);
  part = pad places (to_text (amount % coin));
  text_parts = ground (arith, coin_pos);
  whole_some = pos-length (to_text (amount / coin)) (to_text-ne-nil (amount / coin));
  whole_digits = to_text-IsDigit (amount / coin);
  part_digits =
      All-append _ (zeros (places - length (to_text (amount % coin)))) (to_text (amount % coin))
        (zeros-IsDigit (places - length (to_text (amount % coin))))
        (to_text-IsDigit (amount % coin));
  part_length =
      length-pad places (to_text (amount % coin))
        (length-to_text places (amount % coin) pos (mod-lt amount coin_pos));
  spells = omega (
    arith,
    ap (λ k. k * coin) (number-to_text (amount / coin)),
    number-pad places (to_text (amount % coin)),
    number-to_text (amount % coin),
    div-add-mod' amount coin,
  );
}
  where
    coin : ℕ
    coin = 10 ^ places

    coin_pos : 0 < 10 ^ places
    coin_pos = one-le-pow places 10 (omega arith)

pub only_digits_iff : (s : Bytes) → (only_digits s ≡ true) ↔ All IsDigit s
unfolding only_digits
only_digits_iff [] = (λ h. tt, λ h. refl)
only_digits_iff (c ∷ s) =
    (λ h. ground (arith, only_digits_iff s), λ h. ground (arith, only_digits_iff s))

number-skip_zeros : (s : Bytes) → number (skip_zeros s) ≡ number s
unfolding skip_zeros number
number-skip_zeros [] = refl
number-skip_zeros (c ∷ s) = elim (Bool-cases (c == b'0')) [
  | inl z ↦ rw z (number-skip_zeros s ∙ zero_digit c (10 ^ length s) (number s) (ground arith))
  | inr d ↦ rw d
]
  where
    zero_digit : (c p n : ℕ) → c ≡ b'0' → n ≡ (c - b'0') * p + n
    zero_digit c p n e = rw e (omega arith)

number-normalize : (s : Bytes) → number (normalize s) ≡ number s
unfolding normalize
number-normalize s = elim (Bool-cases (is_empty (skip_zeros s))) [
  | inl e ↦ rw e (zero_number (skip_zeros s) e ∙ number-skip_zeros s)
  | inr e ↦ rw e (number-skip_zeros s)
]
  where
    zero_number : (t : Bytes) → is_empty t ≡ true → number (b'0' ∷ []) ≡ number t
    zero_number [] e = unfold number in refl
    zero_number (c ∷ t) e = absurd (cc)

skip_zeros-IsDigit : (s : Bytes) → All IsDigit s → All IsDigit (skip_zeros s)
unfolding skip_zeros
skip_zeros-IsDigit [] h = tt
skip_zeros-IsDigit (c ∷ s) h =
    if-elim (All IsDigit) (c == b'0') (λ e. skip_zeros-IsDigit s h.1) (λ e. h)

normalize-IsDigit : (s : Bytes) → All IsDigit s → All IsDigit (normalize s)
unfolding normalize
normalize-IsDigit s h =
    if-elim (All IsDigit) (is_empty (skip_zeros s)) (λ e. ((omega arith, omega arith), tt))
      (λ e. skip_zeros-IsDigit s h)

-- A text that does not begin with a zero, unless that is all of it.
abbrev IsPlain : Bytes → Type 0
IsPlain [] = ⊥
IsPlain (c ∷ []) = Unit {0}
IsPlain (c ∷ d ∷ s) = c ≢ b'0'

-- A text that does not begin with a zero, unless a point is next.
abbrev pub IsTrimmed : Bytes → Type 0
IsTrimmed [] = ⊥
IsTrimmed (c ∷ []) = ⊥
IsTrimmed (c ∷ d ∷ s) = c ≡ b'0' → d ≡ b'.'

some-IsPlain : (c : ℕ) (s : Bytes) → c ≢ b'0' → IsPlain (c ∷ s)
some-IsPlain c [] h = tt
some-IsPlain c (d ∷ s) h = h

skip_zeros-IsPlain : (s : Bytes) → is_empty (skip_zeros s) ≡ false → IsPlain (skip_zeros s)
unfolding skip_zeros
skip_zeros-IsPlain [] h = absurd (cc)
skip_zeros-IsPlain (c ∷ s) h = elim (Bool-cases (c == b'0')) [
  | inl zero_first ↦ rw (zero_first) (skip_zeros-IsPlain s (ground (arith, zero_first, h)))
  | inr other ↦ rw (other) (some-IsPlain c s (ground (arith, other)))
]

normalize-IsPlain : (s : Bytes) → IsPlain (normalize s)
unfolding normalize
normalize-IsPlain s =
    if-elim IsPlain (is_empty (skip_zeros s)) (λ e. tt) (λ e. skip_zeros-IsPlain s e)

-- The first characters, and a point behind them.
cut-IsTrimmed :
    (n : ℕ) (s rest : Bytes)
    → 0 < length s
    → (n ≡ 1) ⊎ (IsPlain s × (0 < n) × (n < length s))
    → IsTrimmed (take n s ++ b'.' ∷ rest)
cut-IsTrimmed n [] rest some_there h = absurd (omega (arith, some_there))
cut-IsTrimmed zero (c ∷ s) rest some_there h = absurd (ground (arith, h))
cut-IsTrimmed (suc zero) (c ∷ s) rest some_there h = λ e. refl
cut-IsTrimmed (suc (suc n)) (c ∷ []) rest some_there h = absurd (ground (arith, h))
cut-IsTrimmed (suc (suc n)) (c ∷ d ∷ s) rest some_there (inl e) = absurd (omega (arith, e))
cut-IsTrimmed (suc (suc n)) (c ∷ d ∷ s) rest some_there (inr h) = λ e. absurd (h.0 e)

insert_point-IsTrimmed :
    (s : Bytes) (places : ℕ) → 0 < places → IsPlain s → IsTrimmed (insert_point s places)
unfolding insert_point
insert_point-IsTrimmed s places pos plain = elim (Bool-cases (leb (length s) places)) [
  | inl short ↦
      let all = zeros (places + 1 - length s) ++ s in
      let size : length all ≡ places + 1 = ground (
        arith,
        short,
        length-append (zeros (places + 1 - length s)) s,
        length-replicate {A = ℕ} (places + 1 - length s) b'0',
      ) in
      rw (short) (
        cut-IsTrimmed (length all - places) all _ (omega (arith, size)) (inl (omega (arith, size))))
  | inr long ↦ rw (long) (
      cut-IsTrimmed (length s - places) s _ (ground (arith, long))
        (inr (plain, ground (arith, long), ground (arith, long, pos))))
]

-- With at least one decimal place: a non-empty text of digits, with leading zeros or not, is shown
-- as digits that spell the same number, with a point before the last `places` of them and no zero
-- in front but one right before the point; any other
-- text is shown as "unavailable".
pub format_atomic_decimal_string-HasPoint :
    (atomic : Bytes) (places : ℕ)
    → 0 < places
    → ((atomic ≢ [])
        × All IsDigit atomic
        × HasPoint (format_atomic_decimal_string atomic places) places (number atomic)
        × IsTrimmed (format_atomic_decimal_string atomic places))
      ⊎ (¬ ((atomic ≢ []) × All IsDigit atomic)
          × (format_atomic_decimal_string atomic places ≡ unavailable))
unfolding format_atomic_decimal_string
format_atomic_decimal_string-HasPoint [] places pos = inr (λ h. h.0 refl, refl)
format_atomic_decimal_string-HasPoint (c ∷ s) places pos = elim (Bool-cases (only_digits (c ∷ s))) [
  | inl digits ↦ inl (
    cons-ne-nil c s,
    (only_digits_iff (c ∷ s)).0 digits,
    subst (λ text. HasPoint text places (number (c ∷ s))) (ground arith)
        (subst (HasPoint (insert_point (normalize (c ∷ s)) places) places)
          (number-normalize (c ∷ s))
          (insert_point-HasPoint (normalize (c ∷ s)) places
            (normalize-IsDigit (c ∷ s) ((only_digits_iff (c ∷ s)).0 digits)))),
    subst IsTrimmed (ground arith)
        (insert_point-IsTrimmed (normalize (c ∷ s)) places pos (normalize-IsPlain (c ∷ s))),
  )
  | inr other ↦ inr ((λ h. cc ((only_digits_iff (c ∷ s)).1 h.1)), rw other)
]
