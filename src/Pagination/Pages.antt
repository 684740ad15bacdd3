-- ===== src/Pagination/Pages.antt =====
-- A page holds the heights that it should, the pages tile the chain, and the parameters are exact.
use explorer_qwertycoin_org.Base.{
  zero, suc, suc, ℕ, ◌+◌, ◌-◌, ◌*◌, ◌/◌, ◌≤◌, ◌<◌, ◌≡◌, ◌⊎◌, ◌↔◌, min, true, false, Option, none,
  some, Bytes, u64_max, u64_mod, arith,
}
use native.Mathlib.Nat.{le-div_iff_mul-le, mod-eq_of_lt}
use explorer_qwertycoin_org.Decimal.{to_text}
use explorer_qwertycoin_org.Decimal.Laws.{from_chars-to_text, to_text-ne-nil}
use explorer_qwertycoin_org.Pagination.{
  BoundedPagination, DescendingBlockRange, make_descending_block_range, parse_uint64_strict,
  bounded, parse_bounded_pagination,
}

-- A range holds the limit or what the offset leaves of the block count, whichever is less, in
-- heights below the block count that end where the offset says; it is marked empty exactly if it
-- holds none.
pub range_lem :
    (count offset limit : ℕ)
    → let r = make_descending_block_range count offset limit in
      (r.returned_count ≡ min limit (count - offset))
      × (r.begin + r.returned_count ≡ r.end_exclusive)
      × (r.end_exclusive ≤ count)
      × ((r.empty ≡ true) ↔ (r.returned_count ≡ 0))
      × (r.empty ≡ false → r.end_exclusive + offset ≡ count)
unfolding make_descending_block_range
range_lem count offset limit = ground arith

abbrev pub Holds : DescendingBlockRange → ℕ → Type 0
Holds r h = (r.begin ≤ h) × (h < r.end_exclusive)

Holds-iff :
    (count offset limit h : ℕ)
    → h < count
    → Holds (make_descending_block_range count offset limit) h
      ↔ ((offset ≤ count - 1 - h) × (count - 1 - h < offset + limit))
unfolding make_descending_block_range
Holds-iff count offset limit h lt = (λ p. ground arith, λ p. ground arith)

quotient_unique : (p q limit : ℕ) → p * limit ≤ q → q < p * limit + limit → p ≡ q / limit
quotient_unique p q limit lo hi = grind arith

quotient_bounds :
    (p q limit : ℕ) → 0 < limit → p ≡ q / limit → (p * limit ≤ q) × (q < p * limit + limit)
quotient_bounds p q limit pos e = grind arith

-- For a positive limit, the height of a block below the block count stands on a page exactly if
-- that page is its distance from the top divided by the limit: every block is on one page and on
-- that page only.
pub pages_tile :
    (count limit page h : ℕ)
    → 0 < limit
    → h < count
    → Holds (make_descending_block_range count (page * limit) limit) h
      ↔ (page ≡ (count - 1 - h) / limit)
pages_tile count limit page h pos lt = (
  λ held. quotient_unique page (count - 1 - h) limit (there.0 held).0 (there.0 held).1,
  λ e. there.1 (quotient_bounds page (count - 1 - h) limit pos e),
)
  where
    there :
        Holds (make_descending_block_range count (page * limit) limit) h
        ↔ ((page * limit ≤ count - 1 - h) × (count - 1 - h < page * limit + limit))
    there = Holds-iff count (page * limit) limit h lt

pub parse_uint64_strict-to_text : (n : ℕ) → n ≤ u64_max → parse_uint64_strict (to_text n) ≡ some n
unfolding parse_uint64_strict
parse_uint64_strict-to_text n h = ground (arith, from_chars-to_text n h, to_text-ne-nil n)

bounded_cases :
    (maximum page limit : ℕ)
    → ((bounded maximum (some page) (some limit)
          ≡ some (record { page = page; limit = limit; offset = page * limit }))
        × (0 < limit)
        × (limit ≤ maximum)
        × (page * limit ≤ u64_max))
      ⊎ ((bounded maximum (some page) (some limit) ≡ none)
          × ((limit ≡ 0) ⊎ (maximum < limit) ⊎ (u64_max < page * limit)))
bounded_cases maximum page zero = ground arith
bounded_cases maximum page (suc l) = ground (
  arith,
  le-div_iff_mul-le {k = suc l} {x = page} {y = u64_max} (omega arith),
  mod-eq_of_lt {n = page * suc l} {m = u64_mod},
)

-- Whatever the texts, an accepted pagination has a limit between 1 and the maximum, and an offset
-- that is the product of page and limit, without wrapping.
pub parse_bounded_sound :
    (page_text limit_text : Bytes) (maximum : ℕ) {r : BoundedPagination}
    → parse_bounded_pagination page_text limit_text maximum ≡ some r
    → (r.offset ≡ r.page * r.limit) × (0 < r.limit) × (r.limit ≤ maximum) × (r.offset ≤ u64_max)
unfolding parse_bounded_pagination
parse_bounded_sound page_text limit_text maximum {r} e =
    inner (parse_uint64_strict page_text) (parse_uint64_strict limit_text) e
  where
    inner :
        (a b : Option ℕ)
        → bounded maximum a b ≡ some r
        → (r.offset ≡ r.page * r.limit) × (0 < r.limit) × (r.limit ≤ maximum) × (r.offset ≤ u64_max)
    inner none b h = absurd (cc)
    inner (some page) none h = absurd (cc)
    inner (some page) (some limit) h = ground (arith, bounded_cases maximum page limit)

-- The prints of two uint64_t are accepted, with their product as the offset, exactly if the limit
-- is between 1 and the maximum and the product fits uint64_t; otherwise they are refused.
pub parse_bounded-to_text :
    (page limit maximum : ℕ)
    → page ≤ u64_max
    → limit ≤ u64_max
    → ((parse_bounded_pagination (to_text page) (to_text limit) maximum
          ≡ some (record { page = page; limit = limit; offset = page * limit }))
        × (0 < limit)
        × (limit ≤ maximum)
        × (page * limit ≤ u64_max))
      ⊎ ((parse_bounded_pagination (to_text page) (to_text limit) maximum ≡ none)
          × ((limit ≡ 0) ⊎ (maximum < limit) ⊎ (u64_max < page * limit)))
unfolding parse_bounded_pagination
parse_bounded-to_text page limit maximum hp hl =
    rw (parse_uint64_strict-to_text page hp, parse_uint64_strict-to_text limit hl)
      (bounded_cases maximum page limit)
