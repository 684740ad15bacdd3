-- ===== src/Decimal.antt =====
-- Numbers as decimal text, as the sources print and read them through the C++ standard library:
-- operator<< and std::to_string, std::from_chars and std::stoull on uint64_t.
pub mod Laws
use explorer_qwertycoin_org.Base.{
  ℕ, zero, suc, ◌+◌, ◌-◌, ◌*◌, ◌/◌, ◌%◌, Bool, true, false, ◌&&◌, ◌||◌, [], ◌∷◌, Option, none, some,
  Bytes, ltb, leb, ◌==◌, if◌then◌else◌, u64_max, sub64,
}

abbrev pub is_digit : ℕ → Bool
is_digit c = leb b'0' c && leb c b'9'

-- The digits of `n` in front of `out`, last digit first; `n` rounds are enough.
unfoldable pub emit : ℕ → ℕ → Bytes → Bytes
emit zero n out = out
emit (suc fuel) n out =
    let rest = emit fuel (n / 10) ((b'0' + n % 10) ∷ out) in if n == 0 then out else rest

-- std::to_string and operator<<
unfoldable pub to_text : ℕ → Bytes
unfolding emit
to_text n = if n == 0 then b'0' ∷ [] else emit n n []

-- The number that the longest run of digits spells behind `acc`, and the text after it.
unfoldable pub take_digits : ℕ → Bytes → ℕ × Bytes
take_digits acc [] = (acc, [])
take_digits acc (c ∷ s) = elim (is_digit c) [
  | true ↦ take_digits (acc * 10 + (c - b'0')) s
  | false ↦ (acc, c ∷ s)
]

abbrev pub starts_with_digit : Bytes → Bool
starts_with_digit [] = false
starts_with_digit (c ∷ s) = is_digit c

abbrev in_range : ℕ × Bytes → Option (ℕ × Bytes)
in_range (n, rest) = if ltb u64_max n then none else some (n, rest)

-- std::from_chars at base 10: the number and the unread text, or an error.
unfoldable pub from_chars : Bytes → Option (ℕ × Bytes)
from_chars s = if starts_with_digit s then in_range (take_digits 0 s) else none

abbrev is_space : ℕ → Bool
is_space c = c == 32 || (leb 9 c && leb c 13)

unfoldable pub skip_space : Bytes → Bytes
skip_space [] = []
skip_space (c ∷ s) = if is_space c then skip_space s else c ∷ s

-- strtoull takes a sign, and a negative number wraps round.
abbrev negate : Option (ℕ × Bytes) → Option (ℕ × Bytes)
negate none = none
negate (some (n, rest)) = some (sub64 0 n, rest)

unfoldable pub signed : Bytes → Option (ℕ × Bytes)
signed [] = none
signed (c ∷ s) =
    if c == b'+'
    then from_chars s
    else if c == b'-'
    then negate (from_chars s)
    else from_chars (c ∷ s)

-- std::stoull at base 10: the number and the unread text, or an exception.
unfoldable pub stoull : Bytes → Option (ℕ × Bytes)
stoull s = signed (skip_space s)
