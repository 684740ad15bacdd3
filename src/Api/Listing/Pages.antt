-- ===== src/Api/Listing/Pages.antt =====
-- What the pages of json_transactions and json_mempool hold.
use explorer_qwertycoin_org.Api.Laws.{
  Yields, Yields-success, Yields-mono, Yields-bind, Yields-or_refuse, Yields-refuse_if, Yields-any,
}
use explorer_qwertycoin_org.Base.{
  ℕ, zero, suc, ◌+◌, ◌-◌, ◌≤◌, ◌<◌, true, false, ◌||◌, not, List, [], ◌∷◌, Option, none, some,
  Bytes, same, is_empty, ltb, ◌==◌, length, sub64, ◌≡◌, refl, ap, ◌∙◌, arith, map, inl, inr,
  same_iff, Bool-cases, if◌then◌else◌, if-elim,
}
use explorer_qwertycoin_org.Pagination.{
  BoundedPagination, make_descending_block_range, parse_uint64_strict, parse_bounded_pagination,
}
use explorer_qwertycoin_org.Transaction.{Transaction}
use explorer_qwertycoin_org.Api.{
  Node, Query, success, get_block_by_height, get_tx_details, Refusal, observe, refuse, refuse_if,
  return, ◌>>=◌,
}
use explorer_qwertycoin_org.Api.Listing.{
  BlockJson, TransactionsPage, txs_json, block_json, blocks_json, over_budget,
  maximum_expanded_transactions, check_anchor, check_asked, json_transactions, snapshot_height,
  tip_hash_at, bad_pagination, bad_snapshot, chain_changed,
}

-- The heights of n blocks from start up, the highest first.
unfoldable pub descending : ℕ → ℕ → List ℕ
descending start zero = []
descending start (suc n) = (start + n) ∷ descending start n

unfoldable pub tx_total : List BlockJson → ℕ
tx_total [] = 0
tx_total (b ∷ bs) = length b.txs + tx_total bs

length-txs_json :
    (i height : ℕ) (txs : List Transaction) (views : ℕ → Node) (t : ℕ)
    → Yields (λ js u. length js ≡ length txs) (txs_json i height txs views t)
unfolding txs_json
length-txs_json i height [] views t = refl
length-txs_json i height (tx ∷ txs) views t =
    Yields-bind _ _ (get_tx_details tx false i height views t) _ (Yields-any _) λ txd u _.
      Yields-bind _ _ (txs_json i height txs views u) _ (length-txs_json i height txs views u)
        λ rest v e. ap suc e

-- What a block of the page is: its height, its transactions counted, the budget kept.
abbrev Counted : ℕ → ℕ → BlockJson × ℕ → ℕ → Type 0
Counted i expanded (b, more) u =
    (b.height ≡ i) × (more ≡ expanded + length b.txs) × (more ≤ maximum_expanded_transactions)

block_json-Counted :
    (now height i expanded : ℕ) (views : ℕ → Node) (t : ℕ)
    → expanded ≤ maximum_expanded_transactions
    → Yields (Counted i expanded) (block_json now height i expanded views t)
unfolding block_json get_block_by_height
block_json-Counted now height i expanded views t small =
    Yields-or_refuse (Counted i expanded) ((views t).db_block i) _ views (suc t) _ λ blk _.
      Yields-or_refuse (Counted i expanded) ((views (suc t)).block_weight i) _ views (suc (suc t)) _
        λ weight _.
          Yields-refuse_if (Counted i expanded)
            (ltb (sub64 maximum_expanded_transactions expanded) (length blk.tx_hashes + 1))
            over_budget views (suc (suc (suc t))) _
            λ fits.
              let got = (views (suc (suc (suc t)))).transactions blk.tx_hashes in
              Yields-refuse_if (Counted i expanded)
                (not got.succeeded
                  || not (is_empty got.missed)
                  || not (length (blk.miner_tx ∷ got.txs) == length blk.tx_hashes + 1))
                _ views (suc (suc (suc (suc t)))) _
                λ complete.
                  Yields-bind (Counted i expanded)
                    (λ js u. length js ≡ length (blk.miner_tx ∷ got.txs))
                    (txs_json i height (blk.miner_tx ∷ got.txs) views (suc (suc (suc (suc t))))) _
                    (length-txs_json i height (blk.miner_tx ∷ got.txs) views
                      (suc (suc (suc (suc t)))))
                    λ js v e.
                      let sizes : length got.txs ≡ length blk.tx_hashes =
                        ground (arith, complete) in
                      (refl, ground (arith, fits, e, sizes), ground (arith, fits))

-- What a run of the loop is: the heights from the top down, every transaction counted, the budget
-- kept.
abbrev Listed : ℕ → ℕ → ℕ → List BlockJson × ℕ → ℕ → Type 0
Listed n start expanded (bs, total) u =
    (map (λ (b : BlockJson). b.height) bs ≡ descending start n)
    × (total ≡ expanded + tx_total bs)
    × (total ≤ maximum_expanded_transactions)

blocks_json-Listed :
    (n now height start expanded : ℕ) (views : ℕ → Node) (t : ℕ)
    → expanded ≤ maximum_expanded_transactions
    → Yields (Listed n start expanded) (blocks_json n now height start expanded views t)
unfolding blocks_json descending tx_total
blocks_json-Listed zero now height start expanded views t small = (refl, omega arith, small)
blocks_json-Listed (suc n) now height start expanded views t small =
    Yields-bind (Listed (suc n) start expanded) (Counted (start + n) expanded)
      (block_json now height (start + n) expanded views t) _
      (block_json-Counted now height (start + n) expanded views t small)
      λ (b, more) u first.
        Yields-bind (Listed (suc n) start expanded) (Listed n start more)
          (blocks_json n now height start more views u) _
          (blocks_json-Listed n now height start more views u first.2)
          λ (bs, total) v rest. (
            ap (λ k. k ∷ map (λ (c : BlockJson). c.height) bs) first.0
                ∙ ap (λ ks. (start + n) ∷ ks) rest.0,
            omega (arith, first, rest),
            rest.2,
          )

-- The page's height is the one that is asked for, or without a question the live one.
abbrev Chosen : Bytes → ℕ → ℕ → ℕ → Type 0
Chosen asked_count live_height height u =
    (is_empty asked_count ≡ false → parse_uint64_strict asked_count ≡ some height)
    × (is_empty asked_count ≡ true → height ≡ live_height)

check_asked-same :
    (o : Option ℕ) (asked_tip : Bytes) (live_height : ℕ) (views : ℕ → Node) (t : ℕ)
    → Yields (λ height u. o ≡ some height) (check_asked o asked_tip live_height views t)
check_asked-same none asked_tip live_height views t = tt
check_asked-same (some height) asked_tip live_height views t =
    elim (Bool-cases (height == 0 || ltb live_height height)) [
      | inl outside ↦ rw (outside) tt
      | inr inside ↦ rw (inside) (
          Yields-refuse_if (λ h u. some height ≡ some h)
            (not (same ((views t).block_id (height - 1)) asked_tip)) bad_snapshot views (suc t) _
            (λ e. refl))
    ]

snapshot_height-Chosen :
    (asked_count asked_tip : Bytes) (live_height : ℕ) (views : ℕ → Node) (t : ℕ)
    → Yields
        (Chosen asked_count live_height)
        (snapshot_height asked_count asked_tip live_height views t)
unfolding snapshot_height
snapshot_height-Chosen [] [] live_height views t = (λ e. absurd (ground (arith, e)), λ e. refl)
snapshot_height-Chosen [] (c ∷ tip) live_height views t = tt
snapshot_height-Chosen (c ∷ count) tip live_height views t =
    if-elim (λ (m : Query ℕ). Yields (Chosen (c ∷ count) live_height) (m views t))
      (not (length tip == 64)) (λ short. tt)
      (λ full.
        Yields-mono (Chosen (c ∷ count) live_height)
          (λ height u. parse_uint64_strict (c ∷ count) ≡ some height) _
          (check_asked-same (parse_uint64_strict (c ∷ count)) tip live_height views t)
          (λ height u e. (λ asked. e, λ missing. absurd (ground (arith, missing)))))

-- The last two calls of a page saw a chain that reaches the page's height and has its tip.
abbrev Anchored : ℕ → Bytes → (ℕ → Node) → ℕ → Type 0
Anchored height tip_hash views u =
    0 < height
    → (v : ℕ) × (u ≡ suc (suc v))
      × (height ≤ (views v).height)
      × ((views (suc v)).block_id (height - 1) ≡ tip_hash)

-- Two calls in a row, the first at the view t, saw the height and the tip.
abbrev pub Seen : ℕ → Bytes → (ℕ → Node) → ℕ → ℕ → Type 0
Seen height tip_hash views t u =
    0 < height
    → (u ≡ suc (suc t))
      × (height ≤ (views t).height)
      × ((views (suc t)).block_id (height - 1) ≡ tip_hash)

-- A check of the height and the tip, whatever it refuses with.
pub check-Seen :
    (e : Refusal) (height : ℕ) (tip_hash : Bytes) (views : ℕ → Node) (t : ℕ)
    → Yields
        (λ x u. Seen height tip_hash views t u)
        ((if ltb 0 height
            then (do
              top ← observe (λ c. c.height)
              if ltb top height then refuse e else (do
                id ← observe (λ c. c.block_id (height - 1))
                refuse_if (not (same id tip_hash)) e))
            else return tt)
          views t)
check-Seen e height tip_hash views t =
    if-elim (λ (m : Query (Unit {0})). Yields (λ x u. Seen height tip_hash views t u) (m views t))
      (ltb 0 height)
      (λ above.
        if-elim
          (λ (m : Query (Unit {0})).
            Yields (λ x u. Seen height tip_hash views t u) (m views (suc t)))
          (ltb (views t).height height) (λ lower. tt)
          (λ reaches. elim (Bool-cases (same ((views (suc t)).block_id (height - 1)) tip_hash)) [
            | inl held ↦ rw (held) (λ p. (
              refl,
              ground (arith, reaches),
              (same_iff ((views (suc t)).block_id (height - 1)) tip_hash).0 held,
            ))
            | inr moved ↦ rw (moved) tt
          ]))
      (λ none_below. λ p. absurd (ground (arith, none_below, p)))

check_anchor-Anchored :
    (height : ℕ) (tip_hash : Bytes) (views : ℕ → Node) (t : ℕ)
    → Yields (λ x u. Anchored height tip_hash views u) (check_anchor height tip_hash views t)
unfolding check_anchor
check_anchor-Anchored height tip_hash views t =
    Yields-mono (λ x u. Anchored height tip_hash views u) (λ x u. Seen height tip_hash views t u) _
      (check-Seen chain_changed height tip_hash views t) (λ x u h p. (t, (h p).0, (h p).1, (h p).2))

-- What a page is: the pagination that its texts say, the heights of its range from the top down, the
-- transactions of its blocks counted and within the budget, the height asked for, the anchor.
abbrev pub IsPage : Bytes → Bytes → Bytes → (ℕ → Node) → TransactionsPage → ℕ → Type 0
IsPage page limit asked_count views p u =
    (pagination : BoundedPagination) × (parse_bounded_pagination page limit 100 ≡ some pagination)
    × (p.page ≡ pagination.page)
    × (let r = make_descending_block_range p.block_count pagination.offset pagination.limit in
        (map (λ (b : BlockJson). b.height) p.blocks ≡ descending r.begin r.returned_count))
    × (p.returned_count ≡ length p.blocks)
    × (p.expanded_transaction_count ≡ tx_total p.blocks)
    × (p.expanded_transaction_count ≤ maximum_expanded_transactions)
    × (is_empty asked_count ≡ false → parse_uint64_strict asked_count ≡ some p.block_count)
    × Anchored p.block_count p.tip_hash views u

json_transactions-Yields :
    (page limit asked_count asked_tip : Bytes) (now : ℕ) (views : ℕ → Node) (t : ℕ)
    → Yields
        (IsPage page limit asked_count views)
        (json_transactions page limit asked_count asked_tip now views t)
unfolding json_transactions
json_transactions-Yields page limit asked_count asked_tip now views t =
    let Q = IsPage page limit asked_count views in
    Yields-or_refuse Q (parse_bounded_pagination page limit 100) bad_pagination views t _
      λ g parsed.
        Yields-bind Q (Chosen asked_count (views t).height)
          (snapshot_height asked_count asked_tip (views t).height views (suc t)) _
          (snapshot_height-Chosen asked_count asked_tip (views t).height views (suc t))
          λ height u chosen.
            Yields-bind Q (λ x v. Unit {0}) (tip_hash_at height views u) _ (Yields-any _)
              λ tip_hash v _.
                let r = make_descending_block_range height g.offset g.limit in
                Yields-bind Q (Listed r.returned_count r.begin 0)
                  (blocks_json r.returned_count now height r.begin 0 views v) _
                  (blocks_json-Listed r.returned_count now height r.begin 0 views v (omega arith))
                  λ (bs, total) w listed.
                    Yields-bind Q (λ x z. Anchored height tip_hash views z)
                      (check_anchor height tip_hash views w) _
                      (check_anchor-Anchored height tip_hash views w)
                      λ _ z anchored. (
                        g,
                        parsed,
                        refl,
                        listed.0,
                        refl,
                        omega (arith, listed.1),
                        listed.2,
                        chosen.0,
                        anchored,
                      )

-- A page of json_transactions that succeeds has the page number and range of its two texts; its
-- blocks are the heights of that range from the top down and none else; it counts their
-- transactions, at most 5000; its block count is the one asked for, if any was; and, above height 0,
-- the node's last two answers still had a chain of that height with the page's tip hash.
pub json_transactions-IsPage :
    (page limit asked_count asked_tip : Bytes) (now : ℕ) (views : ℕ → Node) (t t' : ℕ)
    {p : TransactionsPage}
    → json_transactions page limit asked_count asked_tip now views t ≡ success p t'
    → IsPage page limit asked_count views p t'
json_transactions-IsPage page limit asked_count asked_tip now views t t' h =
    Yields-success (IsPage page limit asked_count views) _ h
      (json_transactions-Yields page limit asked_count asked_tip now views t)
