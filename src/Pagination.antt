-- ===== src/Pagination.antt =====
-- src/pagination.h: page and limit parameters, and the block heights of a descending page.
pub mod Pages
use explorer_qwertycoin_org.Base.{
  ℕ, ◌-◌, ◌*◌, ◌/◌, ◌%◌, Bool, true, false, ◌||◌, Option, none, some, Bytes, ltb, leb, ◌==◌,
  if◌then◌else◌, is_empty, u64_max, u64_mod,
}
use explorer_qwertycoin_org.Decimal.{from_chars}

pub record BoundedPagination : Type 0 where
  pub page : ℕ
  pub limit : ℕ
  pub offset : ℕ

pub record DescendingBlockRange : Type 0 where
  pub begin : ℕ
  pub end_exclusive : ℕ
  pub returned_count : ℕ
  pub empty : Bool

unfoldable pub make_descending_block_range : ℕ → ℕ → ℕ → DescendingBlockRange
make_descending_block_range block_count offset limit =
    if limit == 0 || leb block_count offset
    then record { begin = 0; end_exclusive = 0; returned_count = 0; empty = true }
    else let end_exclusive = block_count - offset in
      let begin = if ltb limit end_exclusive then end_exclusive - limit else 0 in
      record {
        begin = begin;
        end_exclusive = end_exclusive;
        returned_count = end_exclusive - begin;
        empty = false;
      }

abbrev at_end : Option (ℕ × Bytes) → Option ℕ
at_end none = none
at_end (some (n, rest)) = if is_empty rest then some n else none

unfoldable pub parse_uint64_strict : Bytes → Option ℕ
parse_uint64_strict input = if is_empty input then none else at_end (from_chars input)

-- The tests on the two numbers; the product is a uint64_t.
abbrev pub bounded : ℕ → Option ℕ → Option ℕ → Option BoundedPagination
bounded maximum none limit = none
bounded maximum (some page) none = none
bounded maximum (some page) (some limit) =
    if limit == 0 || ltb maximum limit || ltb (u64_max / limit) page
    then none
    else some (record { page = page; limit = limit; offset = (page * limit) % u64_mod })

unfoldable pub parse_bounded_pagination : Bytes → Bytes → ℕ → Option BoundedPagination
parse_bounded_pagination page_text limit_text maximum =
    bounded maximum (parse_uint64_strict page_text) (parse_uint64_strict limit_text)
