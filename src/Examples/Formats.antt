-- ===== src/Examples/Formats.antt =====
-- Pages, amounts, times and sums at concrete numbers.
use explorer_qwertycoin_org.Decimal.{take_digits, from_chars, to_text}
use explorer_qwertycoin_org.Base.{
  ℕ, ◌≡◌, ◌≢◌, ◌⊎◌, ◌↔◌, ◌<◌, ◌-◌, ◌*◌, ◌/◌, ◌^◌, refl, true, false, [], ◌∷◌, none, some, arith,
  codes, All,
}
use explorer_qwertycoin_org.Decimal.Laws.{IsDigit}
use explorer_qwertycoin_org.Pagination.{
  BoundedPagination, make_descending_block_range, parse_bounded_pagination, parse_uint64_strict,
}
use explorer_qwertycoin_org.Pagination.Pages.{pages_tile, Holds}
use explorer_qwertycoin_org.Amount.{format_atomic_decimal_string, unavailable}
use explorer_qwertycoin_org.Amount.Digits.{number, HasPoint, number-to_text}
use explorer_qwertycoin_org.Amount.Exact.{IsTrimmed, format_atomic_decimal_string-HasPoint}
use explorer_qwertycoin_org.Transaction.{to_key, other, Transaction}

pages_tile_example :
    Holds (make_descending_block_range 107 (10 * 10) 10) 3 ↔ ◌≡◌ {A = ℕ} 10 ((107 - 1 - 3) / 10)
pages_tile_example = pages_tile 107 10 10 3 (omega arith) (omega arith)

abbrev third_page : BoundedPagination
third_page = record { page = 3; limit = 25; offset = 75 }

third_page_parsed : parse_bounded_pagination (codes "3") (codes "25") 100 ≡ some third_page
unfolding parse_bounded_pagination parse_uint64_strict from_chars take_digits
third_page_parsed = refl

format_atomic_decimal_string-HasPoint_example :
    ((codes "00120" ≢ [])
      × All IsDigit (codes "00120")
      × HasPoint (format_atomic_decimal_string (codes "00120") 8) 8 (number (codes "00120"))
      × IsTrimmed (format_atomic_decimal_string (codes "00120") 8))
    ⊎ (¬ ((codes "00120" ≢ []) × All IsDigit (codes "00120"))
        × (format_atomic_decimal_string (codes "00120") 8 ≡ unavailable))
format_atomic_decimal_string-HasPoint_example =
    format_atomic_decimal_string-HasPoint (codes "00120") 8 (omega arith)

number_of_text : (n : ℕ) → n < 2 ^ 256 → number (to_text n) ≡ n
number_of_text n h = number-to_text n

abbrev test_tx : Transaction
test_tx = record {
  vin =
      to_key (record { amount = 9; key_offsets = 4 ∷ 5 ∷ []; key_image = codes "i" }) ∷ other ∷ [];
  vout =
      record { amount = 6; public_key = some (codes "k"); view_tag = none }
      ∷ record { amount = 2; public_key = none; view_tag = none }
      ∷ [];
  fee = 1;
  is_coinbase = false;
  rct_type_null = true;
  begins_with_gen = false;
  pruned = false;
  full_hash = codes "f1";
  pruned_hash = none;
  public_key = codes "k1";
  additional_pks = [];
  blob_size = 512;
  version = 1;
  unlock_time = 0;
  extra = [];
}
