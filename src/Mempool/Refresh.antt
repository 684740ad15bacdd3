-- ===== src/Mempool/Refresh.antt =====
-- What a reading of the pool and of the network info publishes, and that a failed one publishes
-- nothing.
use explorer_qwertycoin_org.Base.{
  ℕ, ◌+◌, ◌/◌, ◌%◌, ◌^◌, ◌<◌, Bool, true, false, List, [], ◌∷◌, ◌++◌, Option, none, some, Bytes,
  ◌==◌, length, add64, u64_mod, ◌≡◌, ◌⊎◌, refl, sym, ◌∙◌, subst, inl, inr, arith, Option-cases,
  Bool-cases, append_assoc, append-nil,
}
use mathlib.Core.List.{Permᴰ}
use native.Mathlib.Nat.{div-le_self}
use explorer_qwertycoin_org.Rpc.{TxInfo, sort_txs}
use explorer_qwertycoin_org.Rpc.Calls.{Newest, sort_txs-Newest, sort_txs-Perm}
use explorer_qwertycoin_org.Transaction.{Transaction}
use explorer_qwertycoin_org.Mempool.{
  MempoolTx, MempoolStatus, make_entry, read_entries, read_mempool,
}
use explorer_qwertycoin_org.Mempool.Network.{
  Info, Answers, read_network_info, fetch_network_info, make_network_info, make_difficulty,
}

module _ (parse : Bytes → Option (Transaction × Bytes)) where
  -- One entry for each pool transaction in the same order, each made of what its blob parses to.
  abbrev pub Entries : List TxInfo → List MempoolTx → Type 0
  Entries [] [] = Unit {0}
  Entries [] (e ∷ es) = ⊥
  Entries (i ∷ is) [] = ⊥
  Entries (i ∷ is) (e ∷ es) =
      ((p : Transaction × Bytes) × (parse i.tx_blob ≡ some p) × (make_entry i p ≡ e))
      × Entries is es

  unfoldable pub total_size : List TxInfo → ℕ
  total_size [] = 0
  total_size (i ∷ is) = i.blob_size + total_size is

  read_entries_lem :
      (is : List TxInfo) (copy es : List MempoolTx) (size n : ℕ)
      → read_entries parse is copy size ≡ some (es, n)
      → (made : List MempoolTx) × Entries is made
        × (copy ++ made ≡ es)
        × (n % u64_mod ≡ (size + total_size is) % u64_mod)
  unfolding read_entries total_size
  read_entries_lem [] copy es size n h =
      let done : (copy ≡ es) × (size ≡ n) = ground (arith, h) in
      ([], tt, append-nil copy ∙ done.0, ground (arith, done.1))
  read_entries_lem (i ∷ is) copy es size n h = elim (Option-cases (parse i.tx_blob)) [
    | inl missing ↦ ground (arith, missing, h)
    | inr (p, found) ↦
        let h' : read_entries parse is (copy ++ make_entry i p ∷ []) (add64 size i.blob_size)
            ≡ some (es, n) =
          ground (arith, found, h) in
        let (made, each, all, sum) = read_entries_lem is _ es _ n h' in
        (
          make_entry i p ∷ made,
          ((p, found, refl), each),
          sym (append_assoc copy (make_entry i p ∷ []) made) ∙ all,
          omega (arith, sum),
        )
  ]

  -- What a successful reading publishes, of the pool that the node gave and the state before.
  pub record Published (pool : List TxInfo) (now : ℕ) (s t : MempoolStatus) : Type 0 where
    pub sorted : List TxInfo
    pub newest : Newest sorted
    pub permuted : Permᴰ pool sorted
    pub entries : Entries sorted t.mempool_txs
    pub counted : t.mempool_no ≡ length t.mempool_txs
    pub sized : t.mempool_size % u64_mod ≡ total_size sorted % u64_mod
    pub stamped : t.mempool_info_timestamp ≡ now
    pub kept : t.current_network_info ≡ s.current_network_info

  -- A transaction of the list does not parse.
  unfoldable pub HasUnparsed : List TxInfo → Type 0
  HasUnparsed [] = ⊥
  HasUnparsed (i ∷ is) = (parse i.tx_blob ≡ none) ⊎ HasUnparsed is

  read_entries-HasUnparsed :
      (is : List TxInfo) (copy : List MempoolTx) (size : ℕ)
      → read_entries parse is copy size ≡ none
      → HasUnparsed is
  unfolding read_entries HasUnparsed
  read_entries-HasUnparsed [] copy size h = absurd (cc)
  read_entries-HasUnparsed (i ∷ is) copy size h = elim (Option-cases (parse i.tx_blob)) [
    | inl missing ↦ inl missing
    | inr (p, found) ↦ inr (
        read_entries-HasUnparsed is _ _ (
          subst
            (λ o.
              elim o [
                | none ↦ none
                | some parsed ↦
                    read_entries parse is (copy ++ make_entry i parsed ∷ [])
                      (add64 size i.blob_size)
              ]
              ≡ none)
            found h))
  ]

  -- A reading of the pool fails and changes nothing, where the node gave no pool or one of its
  -- transactions does not parse, or replaces the pool's entries, their number, size and time at
  -- once: one entry for each transaction of the node's pool, newest first, each made of its parsed
  -- blob, and their number and size in bytes; the network info stays.
  pub read_mempool_lem :
      (given : Option (List TxInfo)) (now : ℕ) (s : MempoolStatus)
      → ((read_mempool parse given now s ≡ (false, s))
          × ((pool : List TxInfo) → given ≡ some pool → HasUnparsed (sort_txs pool)))
        ⊎ ((pool : List TxInfo) × (given ≡ some pool)
            × ((read_mempool parse given now s).0 ≡ true)
            × Published pool now s (read_mempool parse given now s).1)
  unfolding read_mempool
  read_mempool_lem none now s = inl (refl, λ pool e. absurd (cc))
  read_mempool_lem (some pool) now s =
      elim (Option-cases (read_entries parse (sort_txs pool) [] 0)) [
        | inl missing ↦ inl (
          rw (missing) refl,
          λ other e.
              subst (λ p. HasUnparsed (sort_txs p)) (some_injective e)
                (read_entries-HasUnparsed (sort_txs pool) [] 0 missing),
        )
        | inr ((es, n), found) ↦
            let (made, each, all, sum) = read_entries_lem (sort_txs pool) [] es 0 n found in
            inr (
              pool,
              refl,
              rw (found) refl,
              rw (found) (record {
                sorted = sort_txs pool;
                newest = sort_txs-Newest pool;
                permuted = sort_txs-Perm pool;
                entries = subst (Entries (sort_txs pool)) all each;
                counted = refl;
                sized = omega (arith, sum);
                stamped = refl;
                kept = refl;
              }),
            )
      ]
    where
      some_injective : {a b : List TxInfo} → some a ≡ some b → a ≡ b
      some_injective e = cc

make_difficulty-split :
    (d : ℕ) → d < 2 ^ 128 → make_difficulty (d % 2 ^ 64) (d / 2 ^ 64 % 2 ^ 64) ≡ d
unfolding make_difficulty
make_difficulty-split d h = omega arith

-- What read_network_info has published where it did not fail.
abbrev pub Renewed : Bool → Answers → ℕ → MempoolStatus → Type 0
Renewed has_client a now s =
    (info : Info) × (fee : ℕ) × (version : ℕ) × (has_client ≡ true)
    × (a.info ≡ some info)
    × (a.fee_estimated ≡ some fee)
    × (a.hardfork_version ≡ some version)
    × (0 < info.target)
    × (read_network_info has_client a now s
        ≡ (true, record s { current_network_info = make_network_info info fee version now }))

fetch_cases :
    (i : Option Info) (f v : Option ℕ) (now : ℕ) (s : MempoolStatus)
    → let a : Answers = record { info = i; fee_estimated = f; hardfork_version = v } in
      (read_network_info true a now s ≡ (false, s)) ⊎ Renewed true a now s
unfolding read_network_info fetch_network_info
fetch_cases none f v now s = inl refl
fetch_cases (some i) none v now s = inl refl
fetch_cases (some i) (some f) none now s = inl refl
fetch_cases (some i) (some f) (some v) now s = elim (Bool-cases (i.target == 0)) [
  | inl zero_target ↦ inl (rw (zero_target) refl)
  | inr positive ↦
      inr (i, f, v, refl, refl, refl, refl, ground (arith, positive), rw (positive) refl)
]

-- A reading of the network info fails and changes nothing, or the client was there, the three calls
-- answered and the target is not 0, and the info made of the answers is published.
pub read_network_info_lem :
    (has_client : Bool) (a : Answers) (now : ℕ) (s : MempoolStatus)
    → (read_network_info has_client a now s ≡ (false, s)) ⊎ Renewed has_client a now s
unfolding read_network_info fetch_network_info
read_network_info_lem false a now s = inl refl
read_network_info_lem true a now s = fetch_cases a.info a.fee_estimated a.hardfork_version now s

-- The two words of the published hash rate are, put together by make_difficulty, the difficulty
-- divided by the target, for a difficulty of at most 128 bits; the info is marked as current.
pub make_network_info-hash_rate :
    (info : Info) (fee version now : ℕ)
    → info.wide_difficulty < 2 ^ 128
    → let made = make_network_info info fee version now in
      (make_difficulty made.hash_rate made.hash_rate_top64 ≡ info.wide_difficulty / info.target)
      × (made.current ≡ true)
make_network_info-hash_rate info fee version now h = (
  make_difficulty-split (info.wide_difficulty / info.target)
      (omega (arith, div-le_self info.wide_difficulty info.target)),
  refl,
)
