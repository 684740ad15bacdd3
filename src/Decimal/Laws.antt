-- ===== src/Decimal/Laws.antt =====
-- What is printed in decimal is made of digits, and is read back.
use explorer_qwertycoin_org.Base.{
  ℕ, zero, suc, ◌+◌, ◌*◌, ◌/◌, ◌%◌, ◌≤◌, ◌<◌, ◌≡◌, ◌≢◌, refl, ap, ◌∙◌, inl, inr, false, [], ◌∷◌,
  some, arith, Bytes, ◌==◌, u64_max, All, Bool-cases,
}
use explorer_qwertycoin_org.Decimal.{
  emit, to_text, take_digits, from_chars, skip_space, signed, stoull,
}
use mathlib.Core.List.{cons-ne-nil}

abbrev pub IsDigit : ℕ → Type 0
IsDigit c = (b'0' ≤ c) × (c ≤ b'9')

take_digits_one :
    (a d : ℕ) (s : Bytes) → d < 10 → take_digits a ((b'0' + d) ∷ s) ≡ take_digits (a * 10 + d) s
unfolding take_digits
take_digits_one a d s h = ground arith

take_digits-emit :
    (fuel n : ℕ) (out : Bytes) → n ≤ fuel → take_digits 0 (emit fuel n out) ≡ take_digits n out
unfolding emit
take_digits-emit zero n out h = ap (λ k. take_digits k out) (omega arith)
take_digits-emit (suc fuel) n out h = elim (Bool-cases (n == 0)) [
  | inl done ↦ rw done (ap (λ k. take_digits k out) (ground arith))
  | inr more ↦ rw more (
      take_digits-emit fuel (n / 10) ((b'0' + n % 10) ∷ out) (ground arith)
      ∙ take_digits_one (n / 10) (n % 10) out (omega arith)
      ∙ ap (λ k. take_digits k out) (omega arith))
]

take_digits-nil : (n : ℕ) → take_digits n [] ≡ (n, [])
unfolding take_digits
take_digits-nil n = refl

pub take_digits-to_text : (n : ℕ) → take_digits 0 (to_text n) ≡ (n, [])
unfolding to_text
take_digits-to_text n = elim (Bool-cases (n == 0)) [
  | inl z ↦ rw z (
      take_digits_one 0 0 [] (omega arith)
      ∙ ap (λ k. take_digits k []) (ground arith)
      ∙ take_digits-nil n)
  | inr p ↦ rw p (take_digits-emit n n [] (omega arith) ∙ take_digits-nil n)
]

emit-IsDigit : (fuel n : ℕ) (out : Bytes) → All IsDigit out → All IsDigit (emit fuel n out)
unfolding emit
emit-IsDigit zero n out h = h
emit-IsDigit (suc fuel) n out h = elim (Bool-cases (n == 0)) [
  | inl done ↦ rw done h
  | inr more ↦
      rw more (emit-IsDigit fuel (n / 10) ((b'0' + n % 10) ∷ out) ((omega arith, omega arith), h))
]

emit-ne-nil : (fuel n : ℕ) (out : Bytes) → out ≢ [] → emit fuel n out ≢ []
unfolding emit
emit-ne-nil zero n out h = h
emit-ne-nil (suc fuel) n out h = elim (Bool-cases (n == 0)) [
  | inl done ↦ rw done h
  | inr more ↦ rw more (emit-ne-nil fuel (n / 10) ((b'0' + n % 10) ∷ out) (cons-ne-nil _ _))
]

pub to_text-IsDigit : (n : ℕ) → All IsDigit (to_text n)
unfolding to_text
to_text-IsDigit n = elim (Bool-cases (n == 0)) [
  | inl z ↦ rw z (omega arith)
  | inr p ↦ rw p (emit-IsDigit n n [] tt)
]

emit_pos : (n : ℕ) → (n == 0) ≡ false → emit n n [] ≢ []
unfolding emit
emit_pos zero h = cc
emit_pos (suc n) h = rw h (emit-ne-nil n (suc n / 10) _ (cons-ne-nil _ _))

pub to_text-ne-nil : (n : ℕ) → to_text n ≢ []
unfolding to_text
to_text-ne-nil n = elim (Bool-cases (n == 0)) [
  | inl z ↦ rw z (cons-ne-nil _ _)
  | inr p ↦ rw p (emit_pos n p)
]

-- A text of digits starts with a digit, and with no space and no sign.
from_chars_digits :
    (s : Bytes) (n : ℕ)
    → s ≢ []
    → All IsDigit s
    → take_digits 0 s ≡ (n, [])
    → n ≤ u64_max
    → from_chars s ≡ some (n, [])
unfolding from_chars
from_chars_digits [] n ne h e b = absurd (ne refl)
from_chars_digits (c ∷ s) n ne h e b = ground arith

stoull_digits : (s : Bytes) → s ≢ [] → All IsDigit s → stoull s ≡ from_chars s
unfolding stoull skip_space signed
stoull_digits [] ne h = absurd (ne refl)
stoull_digits (c ∷ s) ne h = ground arith

-- Every uint64_t is read back from its print, by both readers.
pub from_chars-to_text : (n : ℕ) → n ≤ u64_max → from_chars (to_text n) ≡ some (n, [])
from_chars-to_text n h =
    from_chars_digits (to_text n) n (to_text-ne-nil n) (to_text-IsDigit n) (take_digits-to_text n) h

pub stoull-to_text : (n : ℕ) → n ≤ u64_max → stoull (to_text n) ≡ some (n, [])
stoull-to_text n h =
    stoull_digits (to_text n) (to_text-ne-nil n) (to_text-IsDigit n) ∙ from_chars-to_text n h
