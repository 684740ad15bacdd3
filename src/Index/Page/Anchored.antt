-- ===== src/Index/Page/Anchored.antt =====
-- What the page of index2 is, of whatever views of the node it was made.
use native.Mathlib.Nat.{le-div_iff_mul-le}
use explorer_qwertycoin_org.Pagination.{DescendingBlockRange, make_descending_block_range}
use explorer_qwertycoin_org.Base.{
  zero, ◌+◌, ◌*◌, ◌/◌, max, min, u64_max, add64, leb, if◌then◌else◌, inl, inr, false, Bool-cases, ℕ,
  suc, ◌-◌, ◌≤◌, ◌<◌, true, ◌&&◌, ◌||◌, not, Bytes, same, same_iff, ltb, ◌==◌, length, ◌≡◌, refl,
  sym, ◌∙◌, subst, arith, if-elim,
}
use explorer_qwertycoin_org.Mempool.{NetworkInfo}
use explorer_qwertycoin_org.Api.{Node, Query, success}
use explorer_qwertycoin_org.Api.Laws.{
  Yields, Yields-success, Yields-bind, Yields-refuse_if, Yields-any,
}
use explorer_qwertycoin_org.Api.Listing.Pages.{Seen}
use explorer_qwertycoin_org.Observer.{Shared, last_block_time}
use explorer_qwertycoin_org.Index.{page_snapshot, index_blocks, recheck, invalidated}
use explorer_qwertycoin_org.Index.Page.{
  shows_blocks, IndexPage, db_tip, index_range, pool_of, make_page, index2,
}
use explorer_qwertycoin_org.Index.Rows.{IsListing, Listed, index_blocks-IsListing, recheck-Seen}

-- The snapshot is the one that is asked for, if any is, and then within the live chain.
abbrev pub Chosen : ℕ → Bytes → ℕ → ℕ × Bytes → ℕ → Type 0
Chosen asked_count asked_tip height (count, tip) u =
    (0 < asked_count → (count ≡ asked_count) × (tip ≡ asked_tip))
    × (asked_count ≡ 0 → count ≡ height)
    × (count ≤ height)

page_snapshot-Chosen :
    (asked_count : ℕ) (asked_tip : Bytes) (height : ℕ) (views : ℕ → Node) (t : ℕ)
    → Yields
        (Chosen asked_count asked_tip height)
        (page_snapshot asked_count asked_tip height views t)
unfolding page_snapshot
page_snapshot-Chosen asked_count asked_tip height views t =
    let Q = Chosen asked_count asked_tip height in
    let M = λ (m : Query (ℕ × Bytes)). Yields Q (m views t) in
    if-elim M (ltb 0 asked_count)
      (λ asked.
        if-elim M (ltb height asked_count || not (length asked_tip == 64)) (λ outside. tt)
          (λ inside.
            Yields-refuse_if Q (not (same ((views t).block_id (asked_count - 1)) asked_tip))
              invalidated views (suc t) _
              (λ e. (λ p. (refl, refl), λ z. ground (arith, asked, z), ground (arith, inside)))))
      (λ unasked.
        if-elim M (ltb 0 height)
          (λ above. (λ p. absurd (ground (arith, unasked, p)), λ z. refl, omega arith))
          (λ empty. (λ p. absurd (ground (arith, unasked, p)), λ z. refl, omega arith)))

-- The tip of the database is that of the view, or the null hash of an empty chain.
db_tip-seen :
    (height : ℕ) (views : ℕ → Node) (t : ℕ)
    → Yields (λ id u. 0 < height → id ≡ (views t).block_id (height - 1)) (db_tip height views t)
unfolding db_tip
db_tip-seen height views t =
    if-elim
      (λ (m : Query Bytes).
        Yields (λ id u. 0 < height → id ≡ (views t).block_id (height - 1)) (m views t))
      (ltb 0 height) (λ above. λ p. refl)
      (λ none_below. λ p. absurd (ground (arith, none_below, p)))

-- The range of a page of n blocks is cut off the top of the chain, `page_no * n` blocks down; it is
-- empty where that does not fit 64 bits.
abbrev pub IsPageRange : ℕ → ℕ → ℕ → ℕ → DescendingBlockRange → Type 0
IsPageRange n page_no count height r =
    (page_no * n ≤ u64_max
      → (r.returned_count ≡ min n (count - page_no * n))
        × (0 < r.returned_count → r.begin + r.returned_count ≡ count - page_no * n))
    × (u64_max < page_no * n → count ≤ height → r.returned_count ≡ 0)

page_range_lem :
    (n page_no count height : ℕ)
    → IsPageRange n page_no count height (
        make_descending_block_range count
          (if leb page_no (u64_max / max 1 n) then page_no * n else height)
          n)
unfolding make_descending_block_range
page_range_lem zero page_no count height = ground arith
page_range_lem (suc l) page_no count height =
    let fits = le-div_iff_mul-le {k = suc l} {x = page_no} {y = u64_max} (omega arith) in
    let one : max 1 (suc l) ≡ suc l = omega arith in
    rw (one) (elim (Bool-cases (leb page_no (u64_max / suc l))) [
      | inl within ↦ rw (within) (
        λ le. (ground arith, λ some_there. ground arith),
        λ over below. absurd (ground (arith, within, fits, over)),
      )
      | inr beyond ↦
          rw (beyond) (λ le. absurd (ground (arith, beyond, fits, le)), λ over below. ground arith)
    ])

-- The range of index2: none on a page without blocks.
abbrev pub IsRange : Bytes → ℕ → ℕ → ℕ → ℕ → DescendingBlockRange → Type 0
IsRange view no_blocks_on_index page_no count height r =
    (shows_blocks view ≡ false → r.returned_count ≡ 0)
    × (shows_blocks view ≡ true
        → IsPageRange (min (add64 no_blocks_on_index 1) count) page_no count height r)

index_range-IsRange :
    (view : Bytes) (no_blocks_on_index page_no count height : ℕ)
    → IsRange view no_blocks_on_index page_no count height
        (index_range view no_blocks_on_index page_no count height)
unfolding index_range
index_range-IsRange view no_blocks_on_index page_no count height =
    elim (Bool-cases (shows_blocks view)) [
      | inl shown ↦ rw (shown) (
        λ e. absurd (cc),
        λ e. page_range_lem (min (add64 no_blocks_on_index 1) count) page_no count height,
      )
      | inr hidden ↦ rw (hidden) (λ e. refl, λ e. absurd (cc))
    ]

module _ (shared : Shared) (no_blocks_on_index no_of_mempool_tx : ℕ) where
  -- A page that calls its anchor consistent has read an announced height and tip that two calls in a
  -- row saw in the database.
  abbrev pub IsConsistent : (ℕ → Node) → IndexPage → Type 0
  IsConsistent views p =
      (s : ℕ) × (v : ℕ) × (let info = (shared.status s).current_network_info in
        (0 < p.block_count)
        × (info.height ≡ p.block_count)
        × ((views v).height ≡ p.block_count)
        × ((views (suc v)).block_id (p.block_count - 1) ≡ info.top_block_hash))

  abbrev pub IsIndex : Bytes → ℕ → ℕ → Bytes → ℕ → (ℕ → Node) → ℕ → IndexPage → ℕ → Type 0
  IsIndex view page_no asked_count asked_tip now views t p u =
      (p.block_count ≡ (views t).height)
      × Chosen asked_count asked_tip p.block_count (p.snapshot_block_count, p.snapshot_tip_hash) u
      × (let r = index_range view no_blocks_on_index page_no p.snapshot_block_count p.block_count in
          (w : ℕ) × IsRange view no_blocks_on_index page_no p.snapshot_block_count p.block_count r
          × IsListing shared now p.block_count views r.begin r.returned_count p.blocks w
          × (0 < p.snapshot_block_count
              → (p.snapshot_block_count ≤ (views w).height)
                × ((views (suc w)).block_id (p.snapshot_block_count - 1) ≡ p.snapshot_tip_hash)))
      × (p.chain_anchor_consistent ≡ true → IsConsistent views p)

  index2-Yields :
      (view : Bytes) (page_no asked_count : ℕ) (asked_tip : Bytes) (now : ℕ) (views : ℕ → Node)
      (t : ℕ)
      → Yields (IsIndex view page_no asked_count asked_tip now views t) (
          index2 shared no_blocks_on_index no_of_mempool_tx view page_no asked_count asked_tip now
            views t)
  unfolding index2
  index2-Yields view page_no asked_count asked_tip now views t =
      let Q = IsIndex view page_no asked_count asked_tip now views t in
      let height = (views t).height in
      Yields-bind Q (Chosen asked_count asked_tip height)
        (page_snapshot asked_count asked_tip height views (suc t)) _
        (page_snapshot-Chosen asked_count asked_tip height views (suc t))
        λ (count, tip) u chosen.
          let r = index_range view no_blocks_on_index page_no count height in
          let info = (shared.status u).current_network_info in
          let supply = shared.supply (suc u) in
          Yields-bind Q (Listed shared now height views r.begin r.returned_count (suc (suc u)))
            (index_blocks shared now height r.returned_count r.begin views (suc (suc u))) _
            (index_blocks-IsListing shared now height r.returned_count r.begin views (suc (suc u)))
            λ rows v listed.
              Yields-bind Q (λ x w. Seen count tip views v w) (recheck count tip views v) _
                (recheck-Seen count tip views v)
                λ _ w anchored.
                  let after = (views w).height in
                  Yields-bind Q (λ id k. 0 < after → id ≡ (views (suc w)).block_id (after - 1))
                    (db_tip after views (suc w)) _ (db_tip-seen after views (suc w))
                    λ id k seen.
                      Yields-bind Q (λ x z. Unit {0}) (last_block_time height views k) _
                        (Yields-any _)
                        λ last_time z _.
                          Yields-bind Q (λ x y. Unit {0})
                            (pool_of shared no_blocks_on_index no_of_mempool_tx view views z) _
                            (Yields-any _)
                            λ pool y _.
                              let p =
                                make_page shared no_blocks_on_index no_of_mempool_tx view page_no
                                  height count tip info supply rows after id last_time pool in
                              let held : Q p y = (
                                refl,
                                chosen,
                                (
                                  v,
                                  index_range-IsRange view no_blocks_on_index page_no count height,
                                  listed.1,
                                  λ e. ((anchored e).1, (anchored e).2),
                                ),
                                λ e. (u, w, consistent info height after id views w e seen refl),
                              ) in
                              held
    where
      consistent :
          (info : NetworkInfo) (height after : ℕ) (id : Bytes) (views : ℕ → Node) (w : ℕ)
          → (ltb 0 height && height == after && info.height == after && same info.top_block_hash id)
            ≡ true
          → (0 < after → id ≡ (views (suc w)).block_id (after - 1))
          → after ≡ (views w).height
          → (0 < height)
            × (info.height ≡ height)
            × ((views w).height ≡ height)
            × ((views (suc w)).block_id (height - 1) ≡ info.top_block_hash)
      consistent info height after id views w e seen live =
          let same_height : after ≡ height = ground (arith, e) in
          let above : 0 < after = ground (arith, e) in
          let top : info.top_block_hash ≡ id =
            (same_iff info.top_block_hash id).0 (ground (arith, e)) in
          (
            ground (arith, e),
            ground (arith, e),
            omega (arith, same_height, live),
            subst (λ n. (views (suc w)).block_id (n - 1) ≡ info.top_block_hash) same_height
                (sym (top ∙ seen above)),
          )

  -- A page of index2 that is rendered shows the block count that the node had first. Its snapshot
  -- is the one that was asked for, if one was, and otherwise has the live block count. The page's
  -- range is as many blocks as a page has, or are left, that many pages below the top. Every
  -- height of the range has a row, from the top down, made of a block, a hash and transactions
  -- that three views of the node had, with the fees of all of them where it shows fees; or it is
  -- left out, and then a view had no block there or failed on its transactions. Two calls in a row
  -- that came behind all of these views still saw a chain of the snapshot's length with its tip
  -- hash. And a page that calls its anchor consistent has read an announced height and tip that
  -- two calls in a row saw in the database.
  pub index2-IsIndex :
      (view : Bytes) (page_no asked_count : ℕ) (asked_tip : Bytes) (now : ℕ) (views : ℕ → Node)
      (t t' : ℕ) {p : IndexPage}
      → index2 shared no_blocks_on_index no_of_mempool_tx view page_no asked_count asked_tip now
          views t
        ≡ success p t'
      → IsIndex view page_no asked_count asked_tip now views t p t'
  index2-IsIndex view page_no asked_count asked_tip now views t t' h =
      Yields-success (IsIndex view page_no asked_count asked_tip now views t) _ h
        (index2-Yields view page_no asked_count asked_tip now views t)
