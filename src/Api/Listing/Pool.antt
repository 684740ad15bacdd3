-- ===== src/Api/Listing/Pool.antt =====
-- json_mempool of src/page.h shows exactly the pool entries of its page.
use explorer_qwertycoin_org.Base.{
  ℕ, zero, suc, ◌+◌, ◌-◌, ◌/◌, ◌≤◌, ◌<◌, min, false, List, [], ◌∷◌, none, some, Bytes, ltb, leb,
  if◌then◌else◌, length, get_elem?, add64, sub64, ◌≡◌, refl, ap, arith, map, take, drop, u64_mod,
  ◌⊎◌, inl, inr, Bool-cases, Option-cases,
}
use explorer_qwertycoin_org.Pagination.{BoundedPagination, parse_bounded_pagination}
use explorer_qwertycoin_org.Pagination.Pages.{parse_bounded_sound}
use explorer_qwertycoin_org.Mempool.{MempoolTx}
use explorer_qwertycoin_org.Api.{
  Node, success, refused, get_tx_details, get_tx_json, is_searched, make_details,
}
use explorer_qwertycoin_org.Api.Listing.{MempoolJson, mempool_json, json_mempool, bad_pagination}

-- What a page shows of an entry; 1 is the dummy height that the page passes on.
abbrev pub entry_json : ℕ → MempoolTx → MempoolJson
entry_json height e = record {
  tx = get_tx_json e.tx (make_details e.tx false none (sub64 height 1));
  timestamp = e.receive_time;
}

elem-drop :
    (xs : List MempoolTx) (i : ℕ)
    → i < length xs
    → (x : MempoolTx) × (get_elem? xs i ≡ some x) × (drop i xs ≡ x ∷ drop (suc i) xs)
elem-drop [] i h = absurd (omega arith)
elem-drop (x ∷ xs) zero h = (x, refl, refl)
elem-drop (x ∷ xs) (suc i) h = elem-drop xs i (omega arith)

mempool_json_lem :
    (n i height : ℕ) (pool : List MempoolTx) (views : ℕ → Node) (t : ℕ)
    → i + n ≤ length pool
    → mempool_json n i height pool views t
      ≡ success (map (entry_json height) (take n (drop i pool))) t
unfolding mempool_json get_tx_details is_searched
mempool_json_lem zero i height pool views t h = refl
mempool_json_lem (suc n) i height pool views t h =
    let (x, found, split) = elem-drop pool i (omega arith) in
    let rest = mempool_json_lem n (suc i) height pool views t (omega arith) in
    rw (found, split, rest) refl

drop-past : (i : ℕ) (xs : List MempoolTx) → length xs ≤ i → drop i xs ≡ []
drop-past zero [] h = refl
drop-past zero (x ∷ xs) h = absurd (omega arith)
drop-past (suc i) [] h = refl
drop-past (suc i) (x ∷ xs) h = drop-past i xs (omega arith)

take-past : (n k : ℕ) (xs : List MempoolTx) → length xs ≤ n → length xs ≤ k → take n xs ≡ take k xs
take-past zero zero xs h h' = refl
take-past zero (suc k) [] h h' = refl
take-past zero (suc k) (x ∷ xs) h h' = absurd (omega arith)
take-past (suc n) zero [] h h' = refl
take-past (suc n) zero (x ∷ xs) h h' = absurd (omega arith)
take-past (suc n) (suc k) [] h h' = refl
take-past (suc n) (suc k) (x ∷ xs) h h' =
    ap (λ ys. x ∷ ys) (take-past n k xs (omega arith) (omega arith))

length-drop : (n : ℕ) (xs : List MempoolTx) → length (drop n xs) ≡ length xs - n
length-drop zero xs = omega arith
length-drop (suc n) [] = omega arith
length-drop (suc n) (x ∷ xs) = omega (arith, length-drop n xs)

-- The bounds of the loop, as json_mempool computes them, cut the page out of the pool.
abbrev end_of : ℕ → ℕ → ℕ → ℕ
end_of txs_no offset limit = if leb txs_no offset then txs_no else min txs_no (add64 offset limit)

cut_lem :
    (offset limit : ℕ) (pool : List MempoolTx)
    → length pool + limit < u64_mod
    → let first = min offset (length pool) in
      let n = end_of (length pool) offset limit - first in
      (first + n ≤ length pool) × (take n (drop first pool) ≡ take limit (drop offset pool))
cut_lem offset limit pool small = elim (Bool-cases (leb (length pool) offset)) [
  | inl past ↦
      let first : min offset (length pool) ≡ length pool = ground (arith, past) in
      let none_left : drop offset pool ≡ [] = drop-past offset pool (ground (arith, past)) in
      rw (past, first, none_left, drop-past (length pool) pool (omega arith))
        (omega arith, take-past (length pool - length pool) limit [] (omega arith) (omega arith))
  | inr within ↦
      let inside : offset < length pool = ground (arith, within) in
      let first : min offset (length pool) ≡ offset = omega arith in
      rw (within, first) (omega arith, within_lem inside)
]
  where
    within_lem :
        offset < length pool
        → take (min (length pool) (add64 offset limit) - offset) (drop offset pool)
          ≡ take limit (drop offset pool)
    within_lem inside = elim (Bool-cases (leb limit (length pool - offset))) [
      | inl whole ↦
          let n : min (length pool) (add64 offset limit) - offset ≡ limit = ground (arith, whole) in
          ap (λ k. take k (drop offset pool)) n
      | inr short ↦
          let len = length-drop offset pool in
          take-past _ limit (drop offset pool) (ground (arith, short, len))
            (ground (arith, short, len))
    ]

-- For a pool of fewer than 2^64 - 100 transactions, json_mempool either refuses the two texts as
-- pagination, or shows, in order, what the page's offset and limit cut out of the pool, each entry
-- with its details and arrival time; it never fails for another reason.
pub json_mempool_lem :
    (page limit : Bytes) (views : ℕ → Node) (t : ℕ)
    → length (views (suc t)).mempool + 100 < u64_mod
    → ((parse_bounded_pagination page limit 100 ≡ none)
        × (json_mempool page limit views t ≡ refused bad_pagination t))
      ⊎ ((g : BoundedPagination) × (parse_bounded_pagination page limit 100 ≡ some g)
          × (let pool = (views (suc t)).mempool in
              json_mempool page limit views t
              ≡ success
                  (record {
                    txs = map (entry_json (views t).height) (take g.limit (drop g.offset pool));
                    page = g.page;
                    limit = g.limit;
                    txs_no = length pool;
                    total_page_no = if ltb 0 (length pool) then (length pool - 1) / g.limit else 0;
                  })
                  (suc (suc t))))
unfolding json_mempool
json_mempool_lem page limit views t small =
    elim (Option-cases (parse_bounded_pagination page limit 100)) [
      | inl bad ↦ inl (bad, rw (bad) refl)
      | inr (g, good) ↦
          let pool = (views (suc t)).mempool in
          let sound = parse_bounded_sound page limit 100 good in
          let cut = cut_lem g.offset g.limit pool (omega (arith, sound)) in
          inr (
            g,
            good,
            rw
                (
                  good,
                  mempool_json_lem
                      (end_of (length pool) g.offset g.limit - min g.offset (length pool))
                      (min g.offset (length pool)) (views t).height pool views (suc (suc t)) cut.0,
                  cut.1,
                )
                refl,
          )
    ]
