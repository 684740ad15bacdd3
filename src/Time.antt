-- ===== src/Time.antt =====
-- src/tools.cpp: the difference of two timestamps in years, days, hours, minutes and seconds.
use explorer_qwertycoin_org.Base.{
  ℕ, ◌+◌, ◌-◌, ◌*◌, ◌/◌, ◌<◌, ltb, if◌then◌else◌, sub64, u64_mod, ◌≡◌, arith,
}

-- The array of five.
pub record TimeParts : Type 0 where
  pub years : ℕ
  pub days : ℕ
  pub hours : ℕ
  pub minutes : ℕ
  pub seconds : ℕ

-- The parts of a difference.
unfoldable pub split_difference : ℕ → TimeParts
split_difference timestamp_diff =
    let time_diff_years = timestamp_diff / 31536000 in
    let in_year = sub64 timestamp_diff (time_diff_years * 31536000) in
    let time_diff_days = in_year / 86400 in
    let in_day = sub64 in_year (time_diff_days * 86400) in
    let time_diff_hours = in_day / 3600 in
    let in_hour = sub64 in_day (time_diff_hours * 3600) in
    let time_diff_minutes = in_hour / 60 in
    record {
      years = time_diff_years;
      days = time_diff_days;
      hours = time_diff_hours;
      minutes = time_diff_minutes;
      seconds = sub64 in_hour (time_diff_minutes * 60);
    }

unfoldable pub timestamp_difference : ℕ → ℕ → TimeParts
timestamp_difference t1 t2 = split_difference (if ltb t1 t2 then sub64 t2 t1 else sub64 t1 t2)

abbrev pub in_seconds : TimeParts → ℕ
in_seconds p = p.years * 31536000 + p.days * 86400 + p.hours * 3600 + p.minutes * 60 + p.seconds

split_difference_lem :
    (n : ℕ)
    → n < u64_mod
    → let p = split_difference n in
      (in_seconds p ≡ n) × (p.days < 365) × (p.hours < 24) × (p.minutes < 60) × (p.seconds < 60)
unfolding split_difference
split_difference_lem n h = (omega arith, omega arith, omega arith, omega arith, omega arith)

distance_lem :
    (t1 t2 : ℕ)
    → t1 < u64_mod
    → t2 < u64_mod
    → (if ltb t1 t2 then sub64 t2 t1 else sub64 t1 t2) ≡ (t1 - t2) + (t2 - t1)
distance_lem t1 t2 h k = ground arith

-- For two uint64_t timestamps, in either order, the five parts add up to their distance, and each
-- part is below what would make up one of the next larger part.
pub timestamp_difference_lem :
    (t1 t2 : ℕ)
    → t1 < u64_mod
    → t2 < u64_mod
    → let p = timestamp_difference t1 t2 in
      (in_seconds p ≡ (t1 - t2) + (t2 - t1))
      × (p.days < 365)
      × (p.hours < 24)
      × (p.minutes < 60)
      × (p.seconds < 60)
unfolding timestamp_difference
timestamp_difference_lem t1 t2 h k =
    rw (distance_lem t1 t2 h k) (split_difference_lem ((t1 - t2) + (t2 - t1)) (omega arith))
