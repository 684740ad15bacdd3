-- ===== src/Emission/File/RoundTrip.antt =====
-- A saved emission is taken again, and the totals stay true over the rounds and restarts.
use explorer_qwertycoin_org.Base.{
  ℕ, ◌+◌, ◌≤◌, ◌<◌, Bool, false, not, List, [], ◌∷◌, ◌++◌, Option, none, some, Bytes, is_empty, ◌≡◌,
  ◌≢◌, refl, arith, u64_max, u64_mod, All, All-append, append_assoc, split_on, split_on_field,
  split_on_last, IsFreeOf, if-elim, subst, sym,
}
use explorer_qwertycoin_org.Decimal.{to_text}
use explorer_qwertycoin_org.Decimal.Laws.{IsDigit, to_text-IsDigit, to_text-ne-nil}
use explorer_qwertycoin_org.Emission.{
  Emission, BlockAnswer, checksum, emission_text, update_current_emission_amount,
}
use explorer_qwertycoin_org.Emission.Totals.{IsTotal, update-IsTotal, update-le}
use explorer_qwertycoin_org.Emission.File.{
  taken, trim_right, load_fields, load_current_emission_amount, Disk, save_current_emission_amount,
  Status, Round, monitor_round, monitor_rounds,
}

-- No character that is trimmed.
abbrev IsKeptByte : ℕ → Type 0
IsKeptByte c = (c ≢ 32) × (c ≢ 10) × (c ≢ 13) × (c ≢ 9)

trim_right-kept : (s : Bytes) → All IsKeptByte s → trim_right s ≡ s
unfolding trim_right
trim_right-kept [] h = refl
trim_right-kept (c ∷ s) h = ground (arith, trim_right-kept s h.1)

digits-kept : (s : Bytes) → All IsDigit s → All IsKeptByte s
digits-kept [] h = tt
digits-kept (c ∷ s) h = ((omega arith, omega arith, omega arith, omega arith), digits-kept s h.1)

digits-free : (s : Bytes) → All IsDigit s → IsFreeOf b',' s
digits-free [] h = tt
digits-free (c ∷ s) h = (omega arith, digits-free s h.1)

-- A number, a comma and the rest.
field-kept : (n : ℕ) (s : Bytes) → All IsKeptByte s → All IsKeptByte (to_text n ++ b',' ∷ s)
field-kept n s h =
    All-append IsKeptByte (to_text n) (b',' ∷ s) (digits-kept (to_text n) (to_text-IsDigit n))
      ((omega arith, omega arith, omega arith, omega arith), h)

field-split :
    (n : ℕ) (s : Bytes) → split_on b',' (to_text n ++ b',' ∷ s) ≡ to_text n ∷ split_on b',' s
field-split n s = split_on_field b',' (to_text n) s (digits-free (to_text n) (to_text-IsDigit n))

abbrev joined : Emission → Bytes
joined e =
    to_text e.blk_no
    ++ b',' ∷ (to_text e.coinbase ++ b',' ∷ (to_text e.fee ++ b',' ∷ to_text (checksum e)))

emission_text-joined : (e : Emission) → emission_text e ≡ joined e
unfolding emission_text
emission_text-joined e = simp append_assoc

joined-kept : (e : Emission) → All IsKeptByte (joined e)
joined-kept e = field-kept e.blk_no _ (
    field-kept e.coinbase _
      (field-kept e.fee _ (digits-kept (to_text (checksum e)) (to_text-IsDigit (checksum e)))))

joined-split :
    (e : Emission)
    → split_on b',' (joined e)
      ≡ to_text e.blk_no ∷ to_text e.coinbase ∷ to_text e.fee ∷ to_text (checksum e) ∷ []
joined-split e = rw (
  field-split e.blk_no
      (to_text e.coinbase ++ b',' ∷ (to_text e.fee ++ b',' ∷ to_text (checksum e))),
  field-split e.coinbase (to_text e.fee ++ b',' ∷ to_text (checksum e)),
  field-split e.fee (to_text (checksum e)),
  split_on_last b',' (to_text (checksum e))
      (digits-free (to_text (checksum e)) (to_text-IsDigit (checksum e))),
)

joined-ne-nil : (e : Emission) → is_empty (joined e) ≡ false
joined-ne-nil e = not_empty (to_text e.blk_no) _ (to_text-ne-nil e.blk_no)
  where
    not_empty : (p s : Bytes) → p ≢ [] → is_empty (p ++ s) ≡ false
    not_empty [] s h = absurd (h refl)
    not_empty (c ∷ p) s h = refl

-- The fields are uint64_t.
abbrev pub IsWords : Emission → Type 0
IsWords e = (e.coinbase ≤ u64_max) × (e.fee ≤ u64_max) × (e.blk_no ≤ u64_max)

checksum-le : (e : Emission) → checksum e ≤ u64_max
unfolding checksum
checksum-le e = omega arith

module _ (lexical_cast : Bytes → Option ℕ)
    (reads : (n : ℕ) → n ≤ u64_max → lexical_cast (to_text n) ≡ some n) where
  fields-taken :
      (e : Emission)
      → IsWords e
      → load_fields lexical_cast
          (to_text e.blk_no ∷ to_text e.coinbase ∷ to_text e.fee ∷ to_text (checksum e) ∷ [])
        ≡ taken e
  fields-taken e h =
      rw
        (
          reads e.blk_no h.2,
          reads e.coinbase h.0,
          reads e.fee h.1,
          reads (checksum e) (checksum-le e),
        )
        (ground arith)

  -- Where lexical_cast reads a uint64_t back from its print, a saved emission is taken as it was.
  pub load-emission_text :
      (e : Emission)
      → IsWords e
      → load_current_emission_amount lexical_cast (emission_text e) ≡ taken e
  unfolding load_current_emission_amount
  load-emission_text e h =
      rw
        (
          emission_text-joined e,
          joined-ne-nil e,
          trim_right-kept (joined e) (joined-kept e),
          joined-split e,
        )
        (fields-taken e h)

-- Totals that are true of the blocks below blk_no, and leave room for another chunk.
abbrev pub IsGood : (ℕ → BlockAnswer) → Emission → Type 0
IsGood chain e = IsTotal chain e × (e.blk_no + 10000 < u64_mod)

-- A file is missing, or holds the text of totals that are true of the chain.
abbrev pub IsSaved : (ℕ → BlockAnswer) → Option Bytes → Type 0
IsSaved chain none = Unit {0}
IsSaved chain (some text) = (e : Emission) × (text ≡ emission_text e) × IsGood chain e

-- The totals and the file are true of the chain.
abbrev pub IsKept : (ℕ → BlockAnswer) → Status → Type 0
IsKept chain s = IsGood chain s.total_emission_atomic × IsSaved chain s.file

-- A round over the chain at a possible height, whose disk writes all or does not open.
abbrev pub IsFine : (ℕ → BlockAnswer) → Round → Type 0
IsFine chain r =
    (r.chain ≡ chain) × (3 ≤ r.height) × (r.height + 10000 < u64_mod) × (r.disk.partial ≡ none)

save_current-IsSaved :
    (chain : ℕ → BlockAnswer) (disk : Disk) (e : Emission) (file : Option Bytes)
    → disk.partial ≡ none
    → IsGood chain e
    → IsSaved chain file
    → IsSaved chain (save_current_emission_amount disk e file).0
unfolding save_current_emission_amount
save_current-IsSaved chain disk e file whole good kept =
    if-elim (λ (x : Option Bytes × Bool). IsSaved chain x.0) (not disk.opens) (λ closed. kept)
      (λ open_file. (e, rw (whole) refl, good))

update-IsGood :
    (chain : ℕ → BlockAnswer) (height : ℕ) (e : Emission)
    → IsGood chain e
    → 3 ≤ height
    → height + 10000 < u64_mod
    → IsGood chain (update_current_emission_amount chain height e)
update-IsGood chain height e (total, room) high word =
    let short : height < u64_mod = omega (arith, word) in
    let le = update-le chain height e total room high short in
    ((update-IsTotal chain height e total room high short).0, omega (arith, le, room, word))

monitor_round-IsKept :
    (chain : ℕ → BlockAnswer) (r : Round) (s : Status)
    → IsFine chain r
    → IsKept chain s
    → IsKept chain (monitor_round r s).0
unfolding monitor_round
monitor_round-IsKept chain r s (same_chain, high, word, whole) (good, saved) =
    let good' : IsGood chain
        (update_current_emission_amount r.chain r.height s.total_emission_atomic) =
      subst (λ c. IsGood chain (update_current_emission_amount c r.height s.total_emission_atomic))
        (sym same_chain) (update-IsGood chain r.height s.total_emission_atomic good high word) in
    (good', save_current-IsSaved chain r.disk _ s.file whole good' saved)

pub monitor_rounds-IsKept :
    (chain : ℕ → BlockAnswer) (rounds : List Round) (s : Status)
    → All (IsFine chain) rounds
    → IsKept chain s
    → IsKept chain (monitor_rounds rounds s)
unfolding monitor_rounds
monitor_rounds-IsKept chain [] s fine kept = kept
monitor_rounds-IsKept chain (r ∷ rs) s fine kept =
    monitor_rounds-IsKept chain rs (monitor_round r s).0 fine.1
      (monitor_round-IsKept chain r s fine.0 kept)
