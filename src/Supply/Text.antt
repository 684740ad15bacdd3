-- ===== src/Supply/Text.antt =====
-- How SupplyIndex.cpp and supply_math.h cut, read and write text: split_tabs, parse_u64,
-- parse_supply_wide and supply_wide_to_string, and the lines that std::getline gives.
use explorer_qwertycoin_org.Base.{
  ℕ, ◌≡◌, ◌≤◌, ◌≢◌, refl, Bool, true, false, ◌&&◌, ◌||◌, not, List, [], ◌∷◌, Option, arith, none,
  some, Bytes, ltb, ◌==◌, if◌then◌else◌, u64_max, u128_max, is_empty, All, ◌++◌, split_on, IsFreeOf,
  split_on_last, split_on_field,
}
use explorer_qwertycoin_org.Decimal.{is_digit, stoull, to_text}
use explorer_qwertycoin_org.Decimal.Laws.{IsDigit, stoull-to_text, to_text-IsDigit, to_text-ne-nil}

abbrev pub tab : ℕ
tab = 9

abbrev pub newline : ℕ
newline = 10

abbrev onto_first : ℕ → List Bytes → List Bytes
onto_first c [] = (c ∷ []) ∷ []
onto_first c (p ∷ ps) = (c ∷ p) ∷ ps

-- The parts between the tabs; there is always at least one.
unfoldable pub split_tabs : Bytes → List Bytes
unfolding split_on
split_tabs s = split_on tab s

-- What repeated std::getline reads from a text.
unfoldable pub lines : Bytes → List Bytes
lines [] = []
lines (c ∷ s) = let parts = lines s in if c == newline then [] ∷ parts else onto_first c parts

abbrev read_whole : Option (ℕ × Bytes) → Option ℕ
read_whole none = none
read_whole (some (n, rest)) = if is_empty rest then some n else none

unfoldable pub parse_u64 : Bytes → Option ℕ
parse_u64 text = if is_empty text then none else read_whole (stoull text)

-- What `input >> candidate` leaves for a boost cpp_int: an exception or a failed stream, or the
-- candidate (its sign and its magnitude) and whether the stream met its end.
pub data Extraction : Type 0 where
  failed : Extraction
  extracted : Bool → ℕ → Bool → Extraction

-- The text of boost's wide integers, with what the index relies on: a uint128_t is printed as
-- digits, and reading such a print gives the number and uses up the text.
pub record WideText : Type 0 where
  pub print : ℕ → Bytes
  pub extract : Bytes → Extraction
  pub print-IsDigit : (n : ℕ) → n ≤ u128_max → All IsDigit (print n)
  pub print-ne-nil : (n : ℕ) → n ≤ u128_max → print n ≢ []
  pub extract-print : (n : ℕ) → n ≤ u128_max → extract (print n) ≡ extracted false n true

unfoldable pub all_digits : Bytes → Bool
all_digits [] = true
all_digits (c ∷ s) = is_digit c && all_digits s

abbrev accept_wide : Extraction → Option ℕ
accept_wide failed = none
accept_wide (extracted negative n at_end) =
    if not at_end || negative || ltb u128_max n then none else some n

unfoldable pub parse_supply_wide : WideText → Bytes → Option ℕ
parse_supply_wide wide text =
    if is_empty text || not (all_digits text) then none else accept_wide (wide.extract text)

-- A field of the checkpoint holds no tab and no line end.
abbrev pub IsClean : Bytes → Type 0
IsClean = All (λ c. (c ≢ tab) × (c ≢ newline))

digits-IsClean : (s : Bytes) → All IsDigit s → IsClean s
digits-IsClean [] h = tt
digits-IsClean (c ∷ s) h = ((omega arith, omega arith), digits-IsClean s h.1)

pub to_text-IsClean : (n : ℕ) → IsClean (to_text n)
to_text-IsClean n = digits-IsClean (to_text n) (to_text-IsDigit n)

clean-IsFreeOf : (p : Bytes) → IsClean p → IsFreeOf tab p
clean-IsFreeOf [] h = tt
clean-IsFreeOf (c ∷ p) h = (h.0.0, clean-IsFreeOf p h.1)

pub split_tabs_last : (p : Bytes) → IsClean p → split_tabs p ≡ p ∷ []
unfolding split_tabs
split_tabs_last p h = split_on_last tab p (clean-IsFreeOf p h)

pub split_tabs_field : (p s : Bytes) → IsClean p → split_tabs (p ++ tab ∷ s) ≡ p ∷ split_tabs s
unfolding split_tabs
split_tabs_field p s h = split_on_field tab p s (clean-IsFreeOf p h)

abbrev pub IsLine : Bytes → Type 0
IsLine = All (λ c. c ≢ newline)

pub lines_line : (p s : Bytes) → IsLine p → lines (p ++ newline ∷ s) ≡ p ∷ lines s
unfolding lines
lines_line [] s h = refl
lines_line (c ∷ p) s h = ground (arith, lines_line p s h.1)

pub clean-IsLine : (p : Bytes) → IsClean p → IsLine p
clean-IsLine [] h = tt
clean-IsLine (c ∷ p) h = (h.0.1, clean-IsLine p h.1)

pub parse_u64-to_text : (n : ℕ) → n ≤ u64_max → parse_u64 (to_text n) ≡ some n
unfolding parse_u64
parse_u64-to_text n h = ground (arith, stoull-to_text n h, to_text-ne-nil n)

all_digits_lem : (s : Bytes) → All IsDigit s → all_digits s ≡ true
unfolding all_digits
all_digits_lem [] h = refl
all_digits_lem (c ∷ s) h = ground (arith, all_digits_lem s h.1)

module _ (wide : WideText) where
  pub parse_supply_wide-print :
      (n : ℕ) → n ≤ u128_max → parse_supply_wide wide (wide.print n) ≡ some n
  unfolding parse_supply_wide
  parse_supply_wide-print n h = ground (
    arith,
    wide.extract-print n h,
    wide.print-ne-nil n h,
    all_digits_lem (wide.print n) (wide.print-IsDigit n h),
  )

  pub print-IsClean : (n : ℕ) → n ≤ u128_max → IsClean (wide.print n)
  print-IsClean n h = digits-IsClean (wide.print n) (wide.print-IsDigit n h)
