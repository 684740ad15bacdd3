-- ===== src/Amount/Digits.antt =====
-- The number that a text of digits spells, and where the point goes.
use native.Mathlib.Nat.{pow-suc}
use explorer_qwertycoin_org.Base.{
  All-append, sym, ℕ, zero, suc, ◌+◌, ◌-◌, ◌*◌, ◌/◌, ◌%◌, ◌^◌, ◌≤◌, ◌<◌, ◌≡◌, ◌∙◌, inl, inr, refl,
  sym, subst, ap, [], ◌∷◌, ◌++◌, Bytes, leb, ◌==◌, length, take, drop, arith, All, length-append,
  length-replicate, length-take, take-append-drop, Bool-cases,
}
use explorer_qwertycoin_org.Decimal.{to_text, take_digits, emit}
use explorer_qwertycoin_org.Decimal.Laws.{IsDigit, take_digits-to_text, to_text-IsDigit}
use explorer_qwertycoin_org.Amount.{zeros, pad, insert_point}

-- The number that digits spell.
unfoldable pub number : Bytes → ℕ
number [] = 0
number (c ∷ s) = (c - b'0') * 10 ^ length s + number s

take_digits_digit :
    (a c : ℕ) (s : Bytes) → IsDigit c → take_digits a (c ∷ s) ≡ take_digits (a * 10 + (c - b'0')) s
unfolding take_digits
take_digits_digit a c s h = ground arith

ten-pow-add : (m n : ℕ) → 10 ^ (m + n) ≡ 10 ^ m * 10 ^ n
ten-pow-add zero n =
    let e : zero + n ≡ n = omega arith in
    let one : 10 ^ n ≡ 1 * 10 ^ n = omega arith in ap (λ k. 10 ^ k) e ∙ one
ten-pow-add (suc m) n =
    let e : suc m + n ≡ suc (m + n) = omega arith in
    let swap : 10 ^ m * 10 ^ n * 10 ≡ 10 ^ m * 10 * 10 ^ n = omega arith in
    ap (λ k. 10 ^ k) e
    ∙ pow-suc 10 (m + n)
    ∙ ap (λ k. k * 10) (ten-pow-add m n)
    ∙ swap
    ∙ ap (λ k. k * 10 ^ n) (sym (pow-suc 10 m))

shift_digit : (a d p n : ℕ) → (a * 10 + d) * p + n ≡ a * (p * 10) + (d * p + n)
shift_digit a d p n = omega arith

take_digits-number :
    (s : Bytes) (a : ℕ) → All IsDigit s → take_digits a s ≡ (a * 10 ^ length s + number s, [])
unfolding take_digits number
take_digits-number [] a h = ap (λ n. (n, [])) (omega arith)
take_digits-number (c ∷ s) a h =
    take_digits_digit a c s h.0
    ∙ take_digits-number s (a * 10 + (c - b'0')) h.1
    ∙ ap (λ n. (n, []))
        (shift_digit a (c - b'0') (10 ^ length s) (number s)
          ∙ ap (λ k. a * k + ((c - b'0') * 10 ^ length s + number s)) (sym (pow-suc 10 (length s))))

pub number-append : (s t : Bytes) → number (s ++ t) ≡ number s * 10 ^ length t + number t
unfolding number
number-append [] t = omega arith
number-append (c ∷ s) t = omega (
  arith,
  number-append s t,
  ap (λ k. (c - b'0') * 10 ^ k) (length-append s t),
  ap (λ k. (c - b'0') * k) (ten-pow-add (length s) (length t)),
)

pub number-zeros : (n : ℕ) → number (zeros n) ≡ 0
unfolding number
number-zeros zero = refl
number-zeros (suc n) = omega (arith, number-zeros n)

pub number-to_text : (n : ℕ) → number (to_text n) ≡ n
number-to_text n = omega (
  arith,
  ap (λ (r : ℕ × Bytes). r.0) (take_digits-number (to_text n) 0 (to_text-IsDigit n)),
  ap (λ (r : ℕ × Bytes). r.0) (take_digits-to_text n),
)

length-emit : (fuel p n : ℕ) (out : Bytes) → n < 10 ^ p → length (emit fuel n out) ≤ p + length out
unfolding emit
length-emit zero p n out h = omega arith
length-emit (suc fuel) zero n out h = elim (Bool-cases (n == 0)) [
  | inl done ↦ rw done (omega arith)
  | inr more ↦ absurd (ground arith)
]
length-emit (suc fuel) (suc p) n out h = elim (Bool-cases (n == 0)) [
  | inl done ↦ rw done (omega arith)
  | inr more ↦ rw more (
      omega
        (arith, length-emit fuel p (n / 10) ((b'0' + n % 10) ∷ out) (omega (arith, pow-suc 10 p))))
]

pub length-to_text : (p n : ℕ) → 0 < p → n < 10 ^ p → length (to_text n) ≤ p
unfolding to_text
length-to_text p n pos h = elim (Bool-cases (n == 0)) [
  | inl z ↦ rw z (omega arith)
  | inr more ↦ rw more (omega (arith, length-emit n p n [] h))
]

pub length-pad : (width : ℕ) (s : Bytes) → length s ≤ width → length (pad width s) ≡ width
unfolding pad
length-pad width s h = omega (
  arith,
  length-append (zeros (width - length s)) s,
  length-replicate {A = ℕ} (width - length s) b'0',
)

pub number-pad : (width : ℕ) (s : Bytes) → number (pad width s) ≡ number s
unfolding pad
number-pad width s = omega (
  arith,
  number-append (zeros (width - length s)) s,
  ap (λ k. k * 10 ^ length s) (number-zeros (width - length s)),
)

-- Digits with a point before the last `places` of them: the text, the number, and a digit at least
-- before the point.
pub record HasPoint (text : Bytes) (places n : ℕ) : Type 0 where
  pub whole : Bytes
  pub part : Bytes
  pub text_parts : text ≡ whole ++ b'.' ∷ part
  pub whole_some : 0 < length whole
  pub whole_digits : All IsDigit whole
  pub part_digits : All IsDigit part
  pub part_length : length part ≡ places
  pub spells : number whole * 10 ^ places + number part ≡ n

All-cut : (n : ℕ) (s : Bytes) → All IsDigit s → All IsDigit (take n s) × All IsDigit (drop n s)
All-cut zero s h = (tt, h)
All-cut (suc n) [] h = (tt, tt)
All-cut (suc n) (c ∷ s) h = ((h.0, (All-cut n s h.1).0), (All-cut n s h.1).1)

pub zeros-IsDigit : (n : ℕ) → All IsDigit (zeros n)
zeros-IsDigit zero = tt
zeros-IsDigit (suc n) = ((omega arith, omega arith), zeros-IsDigit n)

split_point :
    (s : Bytes) (places : ℕ)
    → places < length s
    → All IsDigit s
    → HasPoint (take (length s - places) s ++ b'.' ∷ drop (length s - places) s) places (number s)
split_point s places h digits = record {
  whole = take (length s - places) s;
  part = drop (length s - places) s;
  text_parts = refl;
  whole_some = omega (arith, length-take (length s - places) s);
  whole_digits = (All-cut (length s - places) s digits).0;
  part_digits = (All-cut (length s - places) s digits).1;
  part_length = tail_length;
  spells = omega (
    arith,
    ap number (take-append-drop (length s - places) s),
    number-append (take (length s - places) s) (drop (length s - places) s),
    ap (λ k. number (take (length s - places) s) * 10 ^ k) tail_length,
  );
}
  where
    tail_length : length (drop (length s - places) s) ≡ places
    tail_length = omega (
      arith,
      ap length (take-append-drop (length s - places) s),
      length-append (take (length s - places) s) (drop (length s - places) s),
      length-take (length s - places) s,
    )

pub insert_point-HasPoint :
    (s : Bytes) (places : ℕ) → All IsDigit s → HasPoint (insert_point s places) places (number s)
unfolding insert_point
insert_point-HasPoint s places digits = elim (Bool-cases (leb (length s) places)) [
  | inl short ↦ rw short (
      subst (HasPoint _ places)
        (number-append (zeros (places + 1 - length s)) s
          ∙ omega (arith, ap (λ k. k * 10 ^ length s) (number-zeros (places + 1 - length s))))
        (split_point (zeros (places + 1 - length s) ++ s) places
          (ground (
            arith,
            length-append (zeros (places + 1 - length s)) s,
            length-replicate {A = ℕ} (places + 1 - length s) b'0',
          ))
          (All-append _ (zeros (places + 1 - length s)) s (zeros-IsDigit (places + 1 - length s))
            digits)))
  | inr long ↦ rw long (split_point s places (ground arith) digits)
]
