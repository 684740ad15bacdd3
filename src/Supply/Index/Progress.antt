-- ===== src/Supply/Index/Progress.antt =====
-- On a chain that stays the same and is in order, update_once reads the next batch: its records are
-- those of a reference ledger that is written from the chain alone.
use explorer_qwertycoin_org.Base.{
  ◌⊎◌, ==_iff, ℕ, zero, suc, ◌+◌, ◌-◌, ◌≤◌, ◌<◌, ◌≡◌, ◌≢◌, refl, sym, ap, subst, ◌∙◌, min, true,
  false, List, [], ◌∷◌, some, Bytes, ltb, ◌==◌, length, is_empty, same_refl, arith, u64_max,
  u128_max, Bool-cases, inl, inr,
}
use explorer_qwertycoin_org.Supply.{
  SupplyRecord, back_hash, prior_coinbase, append_supply_record, rollback_supply_records, is_next,
  minted_delta,
}
use explorer_qwertycoin_org.Supply.Ledger.{IsLedger, extended, append_lem, append-IsLedger}
use explorer_qwertycoin_org.Supply.Text.{WideText}
use explorer_qwertycoin_org.Supply.Index.{publish}
use explorer_qwertycoin_org.Supply.Node.{Block, Node, done, read_record, read_fees, sum_fees}
use explorer_qwertycoin_org.Supply.Index.{
  SupplyIndex, Disk, gather, roll_back, extend_to, check_back, persist, update_once, hash_during,
}

abbrev pub fee_sum : List ℕ → ℕ
fee_sum [] = 0
fee_sum (f ∷ fs) = f + fee_sum fs

sum_fees_lem :
    (fs : List ℕ) (s : ℕ) → s + fee_sum fs ≤ u64_max → sum_fees s fs ≡ some (s + fee_sum fs)
unfolding sum_fees
sum_fees_lem [] s h = ground arith
sum_fees_lem (f ∷ fs) s h = ground (arith, sum_fees_lem fs (s + f))

not_empty : (s : Bytes) → s ≢ [] → is_empty s ≡ false
not_empty [] h = absurd (h refl)
not_empty (x ∷ s) h = refl

positive : (h : ℕ) → ltb 0 (suc h) ≡ true
positive h = ground arith

not_zero : (h : ℕ) → (suc h == 0) ≡ false
not_zero h = ground arith

pred_suc : (h : ℕ) → suc h - 1 ≡ h
pred_suc h = omega arith

not_less : (coinbase fees : ℕ) → fees ≤ coinbase → ltb coinbase fees ≡ false
not_less coinbase fees h = ground arith

minted_delta_lem :
    (coinbase fees : ℕ) → fees ≤ coinbase → minted_delta coinbase fees ≡ some (coinbase - fees)
unfolding minted_delta
minted_delta_lem coinbase fees h = ground arith

positive_test : (height : ℕ) → 0 < height → (height == 0) ≡ false
positive_test height h = ground arith

positive_height : (height : ℕ) → 0 < height → ltb 0 height ≡ true
positive_height height h = ground arith

module _ (c : Node) (blocks : ℕ → Block) where
  abbrev pub fees_at : ℕ → ℕ
  fees_at h = fee_sum (c.transactions (blocks h).tx_hashes).fees

  abbrev pub parent_at : ℕ → Bytes
  parent_at zero = []
  parent_at (suc h) = c.block_id h

  -- The block at a height is found, is the one that the chain names, follows the block below it,
  -- and its transactions are all found, with fees that fit and that the coinbase covers.
  pub record InOrder (h : ℕ) : Type 0 where
    pub found : c.block_at h ≡ some (blocks h)
    pub named : (blocks h).block_hash ≡ c.block_id h
    pub name_some : c.block_id h ≢ []
    pub follows : (k : ℕ) → h ≡ suc k → ((blocks h).prev_id ≡ c.block_id k)
    pub all_found : (c.transactions (blocks h).tx_hashes).succeeded ≡ true
    pub none_missed : (c.transactions (blocks h).tx_hashes).missed ≡ []
    pub all_fees : length (c.transactions (blocks h).tx_hashes).fees ≡ length (blocks h).tx_hashes
    pub fees_fit : fees_at h ≤ u64_max
    pub covered : fees_at h ≤ (blocks h).coinbase_amount

  abbrev pub record_at : ℕ → SupplyRecord
  record_at h = record {
    height = h;
    hash = c.block_id h;
    parent_hash = parent_at h;
    coinbase_atomic = (blocks h).coinbase_amount;
    fees_atomic = fees_at h;
    minted_atomic = (blocks h).coinbase_amount - fees_at h;
    cumulative_coinbase = 0;
    cumulative_fees = 0;
    cumulative_minted = 0;
  }

  -- The reference: the records of the first blocks.
  abbrev pub ledger_of : ℕ → List SupplyRecord
  ledger_of zero = []
  ledger_of (suc n) = extended (ledger_of n) (record_at n) ∷ ledger_of n

  fees_read :
      (h : ℕ) → InOrder h → sum_fees 0 (c.transactions (blocks h).tx_hashes).fees ≡ some (fees_at h)
  fees_read h o =
      sum_fees_lem (c.transactions (blocks h).tx_hashes).fees 0 (omega (arith, o.fees_fit))
      ∙ ap some (omega arith)

  read_fees_lem :
      (h t : ℕ) → InOrder h → read_fees h (blocks h) (λ t. c) t ≡ done (fees_at h) (suc t)
  unfolding read_fees
  read_fees_lem h t o =
      rw (o.all_found, o.none_missed, (==_iff _ _).1 o.all_fees, fees_read h o) refl

  name_not_empty : (h : ℕ) → InOrder h → is_empty (c.block_id h) ≡ false
  name_not_empty h o = not_empty (c.block_id h) o.name_some

  below_named :
      (h : ℕ) → (suc h ≡ 0) ⊎ (c.block_id (suc h - 1) ≢ []) → is_empty (c.block_id h) ≡ false
  below_named h (inl e) = absurd (omega arith)
  below_named h (inr e) = not_empty (c.block_id h) (subst (λ k. c.block_id k ≢ []) (pred_suc h) e)

  read_record_lem :
      (h t : ℕ)
      → InOrder h
      → (h ≡ 0) ⊎ (c.block_id (h - 1) ≢ [])
      → (t' : ℕ) × (read_record h (parent_at h) (λ t. c) t ≡ done (record_at h) t')
  unfolding read_record
  read_record_lem zero t o below = (
    suc (suc (suc t)),
    rw
        (
          o.found,
          name_not_empty 0 o,
          o.named,
          same_refl (c.block_id 0),
          read_fees_lem 0 (suc (suc t)) o,
          not_less (blocks 0).coinbase_amount (fees_at 0) o.covered,
          minted_delta_lem (blocks 0).coinbase_amount (fees_at 0) o.covered,
        )
        refl,
  )
  read_record_lem (suc h) t o below = (
    suc (suc (suc (suc t))),
    rw
        (
          o.found,
          name_not_empty (suc h) o,
          o.named,
          same_refl (c.block_id (suc h)),
          positive h,
          below_named h below,
          pred_suc h,
          o.follows h refl,
          same_refl (c.block_id h),
          read_fees_lem (suc h) (suc (suc (suc t))) o,
          not_less (blocks (suc h)).coinbase_amount (fees_at (suc h)) o.covered,
          minted_delta_lem (blocks (suc h)).coinbase_amount (fees_at (suc h)) o.covered,
          not_zero h,
        )
        refl,
  )

  -- The first n blocks are in order, and the sum of their coinbases fits 128 bits.
  abbrev pub Healthy : ℕ → Type 0
  Healthy n = ((h : ℕ) → h < n → InOrder h) × (prior_coinbase (ledger_of n) ≤ u128_max)

  length-ledger_of : (n : ℕ) → length (ledger_of n) ≡ n
  length-ledger_of zero = refl
  length-ledger_of (suc n) = ap suc (length-ledger_of n)

  back-ledger_of : (n : ℕ) → back_hash (ledger_of n) ≡ parent_at n
  back-ledger_of zero = refl
  back-ledger_of (suc n) = refl

  is_next-record_at : (n : ℕ) → InOrder n → is_next (ledger_of n) (record_at n) ≡ true
  unfolding is_next
  is_next-record_at zero o = ground (arith, name_not_empty 0 o)
  is_next-record_at (suc n) o =
      ground (arith, name_not_empty (suc n) o, same_refl (c.block_id n), length-ledger_of (suc n))

  append-ledger_of :
      (n : ℕ)
      → IsLedger (ledger_of n)
      → InOrder n
      → prior_coinbase (ledger_of (suc n)) ≤ u128_max
      → append_supply_record (ledger_of n) (record_at n) ≡ some (ledger_of (suc n))
  append-ledger_of n l o fits =
      append_lem (ledger_of n) (record_at n) l
      ∙ rw (is_next-record_at n o) (ground (arith, o.covered))

  ledger_of-IsLedger : (n : ℕ) → Healthy n → IsLedger (ledger_of n)
  ledger_of-IsLedger zero h = tt
  ledger_of-IsLedger (suc n) h =
      let before = ledger_of-IsLedger n (λ k lt. h.0 k (omega arith), omega (arith, h.1)) in
      append-IsLedger (ledger_of n) (ledger_of (suc n)) (record_at n) before
        (append-ledger_of n before (h.0 n (omega arith)) h.1)

  fewer-Healthy : (m n : ℕ) → m ≤ n → Healthy n → Healthy m
  fewer-Healthy m zero le h = subst Healthy (omega arith) h
  fewer-Healthy m (suc n) le h = elim (Bool-cases (m == suc n)) [
    | inl whole ↦ subst Healthy (sym ((==_iff m (suc n)).0 whole)) h
    | inr part ↦ fewer-Healthy m n (ground arith) (λ k lt. h.0 k (omega arith), omega (arith, h.1))
  ]

  below_lem : (n : ℕ) → Healthy n → (n ≡ 0) ⊎ (c.block_id (n - 1) ≢ [])
  below_lem zero h = inl refl
  below_lem (suc n) h =
      inr (subst (λ k. c.block_id k ≢ []) (sym (pred_suc n)) (h.0 n (omega arith)).name_some)

  extend_to_lem :
      (rounds n target t : ℕ)
      → n ≤ target
      → target ≤ n + rounds
      → Healthy target
      → (t' : ℕ) × (extend_to rounds target (ledger_of n) (λ t. c) t ≡ done (ledger_of target) t')
  unfolding extend_to
  extend_to_lem zero n target t lo hi h = (t, ap (λ k. done (ledger_of k) t) (omega arith))
  extend_to_lem (suc rounds) n target t lo hi h = elim (Bool-cases (ltb n target)) [
    | inl room ↦
        let here = fewer-Healthy n target lo h in
        let o = h.0 n (ground arith) in
        let (t', read) = read_record_lem n t o (below_lem n here) in
        let more = extend_to_lem rounds (suc n) target t' (ground arith) (omega arith) h in
        let next = fewer-Healthy (suc n) target (ground arith) h in
        (
          more.0,
          rw
              (
                length-ledger_of n,
                back-ledger_of n,
                room,
                read,
                append-ledger_of n (ledger_of-IsLedger n here) o next.1,
              )
              more.1,
        )
    | inr full ↦ (t, rw (length-ledger_of n, full) (ap (λ k. done (ledger_of k) t) (ground arith)))
  ]

  kept_lem :
      (n count t : ℕ)
      → n ≤ count
      → rollback_supply_records (ledger_of n) count (hash_during (λ t. c) t (length (ledger_of n)))
        ≡ ledger_of n
  unfolding rollback_supply_records
  kept_lem zero count t h = refl
  kept_lem (suc n) count t h = ground (arith, same_refl (c.block_id n))

  check_back_lem : (n t : ℕ) → (t' : ℕ) × (check_back (ledger_of n) (λ t. c) t ≡ done tt t')
  unfolding check_back
  check_back_lem zero t = (t, refl)
  check_back_lem (suc n) t = (suc t, rw (same_refl (c.block_id n)) refl)

  -- A state whose records are the first n of the chain.
  gather_lem :
      (s : SupplyIndex) (n t : ℕ)
      → s.records ≡ ledger_of n
      → n ≤ c.height
      → 0 < c.height
      → c.block_id 0 ≡ s.identity.genesis_hash
      → Healthy c.height
      → (t' : ℕ) × (gather s (λ t. c) t
          ≡ done
              (c.height, c.block_id (c.height - 1), ledger_of (min c.height (n + s.batch_size)))
              t')
  unfolding gather roll_back
  gather_lem s n t known le pos genesis h =
      let target = min c.height (n + s.batch_size) in
      let (t1, extends) =
        extend_to_lem (target - n) n target (suc (suc (suc t)) + n) (omega arith) (omega arith)
          (fewer-Healthy target c.height (omega arith) h) in
      let (t2, seen) = check_back_lem target t1 in
      (
        t2,
        rw
            (
              positive_test c.height pos,
              genesis,
              same_refl s.identity.genesis_hash,
              known,
              kept_lem n c.height (suc (suc (suc t))) le,
              length-ledger_of n,
              extends,
              seen,
            )
            refl,
      )

-- A disk on which every step of persist succeeds.
abbrev pub accepting_disk : Disk
accepting_disk = record { opens = true; flushes = true; partial = []; syncs = true; renames = true }

module _ (wide : WideText) (c : Node) (blocks : ℕ → Block) where
  -- On a chain that does not change, whose blocks are in order and whose coinbase sum fits 128 bits,
  -- and with a disk that takes the checkpoint: an update from the records of the first n blocks
  -- succeeds, and leaves the records of as many more blocks as a batch holds or the chain has.
  pub update_once-ledger_of :
      (s : SupplyIndex) (now n t : ℕ)
      → s.records ≡ ledger_of c blocks n
      → n ≤ c.height
      → 0 < c.height
      → c.block_id 0 ≡ s.identity.genesis_hash
      → Healthy c blocks c.height
      → let u = update_once wide s accepting_disk now (λ t. c) t in
        (u.0.records ≡ ledger_of c blocks (min c.height (n + s.batch_size)))
        × (t' : ℕ) × (u.1 ≡ done tt t')
  unfolding update_once persist publish
  update_once-ledger_of s now n t known le pos genesis h =
      let (t1, gathered) = gather_lem c blocks s n t known le pos genesis h in
      rw (gathered, positive_height c.height pos) (refl, suc (suc t1), refl)
