-- ===== src/Supply/Checkpoint/RoundTrip.antt =====
-- A checkpoint is read back as it was written, and whatever a file holds, what is loaded is a
-- ledger.
use explorer_qwertycoin_org.Base.{
  ◌≡◌, ◌≤◌, ◌≢◌, ◌↔◌, ◌⊎◌, inl, inr, refl, subst, sym, true, List, [], ◌∷◌, ◌++◌, none, some, Bytes,
  same_iff, same_refl, arith, u64_max, u128_max, All, All-append, append_assoc, append-nil,
  Option-cases,
}
use explorer_qwertycoin_org.Decimal.{to_text}
use explorer_qwertycoin_org.Supply.{
  SupplyRecord, back_hash, prior_coinbase, prior_fees, prior_minted,
}
use explorer_qwertycoin_org.Supply.Ledger.{
  IsLedger, Follows, prior-conserved, checked_supply_add_lem,
}
use explorer_qwertycoin_org.Supply.Text.{
  WideText, tab, newline, split_tabs, lines, IsClean, IsLine, clean-IsLine, to_text-IsClean,
  split_tabs_last, split_tabs_field, lines_line, parse_u64-to_text, parse_supply_wide-print,
  print-IsClean,
}
use explorer_qwertycoin_org.Supply.Checkpoint.{
  Identity, state_magic, calculation_version, header_line, header_matches, record_line,
  record_lines, checkpoint_text, parse_record, fits_behind, push_checked, load_line, load_lines,
  load_parts, load_text,
}

-- A record whose numbers are machine words and whose hashes can stand in a line.
pub record IsStorable (r : SupplyRecord) : Type 0 where
  pub height_fits : r.height ≤ u64_max
  pub coinbase_fits : r.coinbase_atomic ≤ u64_max
  pub hash_clean : IsClean r.hash
  pub parent_clean : IsClean r.parent_hash

fits_behind-Follows :
    (rs : List SupplyRecord) (r : SupplyRecord) → Follows rs r → fits_behind rs r ≡ true
unfolding fits_behind
fits_behind-Follows rs r f = ground (arith, same_iff r.parent_hash (back_hash rs))

push_checked_lem :
    (rs : List SupplyRecord) (r : SupplyRecord)
    → IsLedger rs
    → Follows rs r
    → push_checked rs r ≡ some (r ∷ rs)
unfolding push_checked
push_checked_lem rs r h f = ground (
  arith,
  prior-conserved rs h,
  checked_supply_add_lem (prior_coinbase rs) r.coinbase_atomic,
  checked_supply_add_lem (prior_fees rs) r.fees_atomic,
  checked_supply_add_lem (prior_minted rs) r.minted_atomic,
)

push_checked-inversion :
    (rs qs : List SupplyRecord) (r : SupplyRecord)
    → IsLedger rs
    → fits_behind rs r ≡ true
    → push_checked rs r ≡ some qs
    → Follows rs r × (qs ≡ r ∷ rs)
unfolding push_checked fits_behind
push_checked-inversion [] qs r h f e = ground (
  arith,
  checked_supply_add_lem 0 r.coinbase_atomic,
  checked_supply_add_lem 0 r.fees_atomic,
  checked_supply_add_lem 0 r.minted_atomic,
)
push_checked-inversion (p ∷ rs) qs r h f e = ground (
  arith,
  prior-conserved (p ∷ rs) h,
  same_iff r.parent_hash p.hash,
  checked_supply_add_lem p.cumulative_coinbase r.coinbase_atomic,
  checked_supply_add_lem p.cumulative_fees r.fees_atomic,
  checked_supply_add_lem p.cumulative_minted r.minted_atomic,
)

-- The names of a checkpoint's header can stand in a line.
pub record IsNameable (i : Identity) : Type 0 where
  pub network_clean : IsClean i.network_name
  pub genesis_clean : IsClean i.genesis_hash
  pub reset_clean : IsClean i.chain_reset_id

split_tabs-header_line :
    (i : Identity)
    → IsNameable i
    → split_tabs (header_line i)
      ≡ state_magic ∷ i.network_name ∷ i.genesis_hash ∷ i.chain_reset_id ∷ calculation_version ∷ []
unfolding header_line
split_tabs-header_line i n = rw (
  split_tabs_field state_magic _ (omega arith),
  split_tabs_field i.network_name _ n.network_clean,
  split_tabs_field i.genesis_hash _ n.genesis_clean,
  split_tabs_field i.chain_reset_id _ n.reset_clean,
  split_tabs_last calculation_version (omega arith),
)

field-IsLine : (p s : Bytes) → IsClean p → IsLine s → IsLine (p ++ tab ∷ s)
field-IsLine p s hp hs = All-append _ p (tab ∷ s) (clean-IsLine p hp) (omega arith, hs)

header_line-IsLine : (i : Identity) → IsNameable i → IsLine (header_line i)
unfolding header_line
header_line-IsLine i n = field-IsLine state_magic _ (omega arith) (
    field-IsLine _ _ n.network_clean
      (field-IsLine _ _ n.genesis_clean (field-IsLine _ _ n.reset_clean (omega arith))))

header_matches_lem :
    (i j : Identity)
    → IsNameable i
    → (header_matches j (split_tabs (header_line i)) ≡ true) ↔ (i ≡ j)
unfolding header_matches
header_matches_lem i j n =
    rw (split_tabs-header_line i n, same_refl state_magic, same_refl calculation_version)
      (ground (
        arith,
        same_iff i.network_name j.network_name,
        same_iff i.genesis_hash j.genesis_hash,
        same_iff i.chain_reset_id j.chain_reset_id,
      ))

module _ (wide : WideText) where
  load_line-inversion :
      (rs qs : List SupplyRecord) (line : Bytes)
      → load_line wide rs line ≡ some qs
      → (r : SupplyRecord) × (fits_behind rs r ≡ true) × (push_checked rs r ≡ some qs)
  unfolding load_line
  load_line-inversion rs qs line e = elim (Option-cases (parse_record wide (split_tabs line))) [
    | inl n ↦ absurd (ground arith)
    | inr (r, p) ↦ (r, ground arith, ground arith)
  ]

  load_line-IsLedger :
      (rs qs : List SupplyRecord) (line : Bytes)
      → IsLedger rs
      → load_line wide rs line ≡ some qs
      → IsLedger qs
  load_line-IsLedger rs qs line h e =
      let (r, f, c) = load_line-inversion rs qs line e in
      let (follows, q) = push_checked-inversion rs qs r h f c in subst IsLedger (sym q) (follows, h)

  load_lines-IsLedger :
      (ls : List Bytes) (rs qs : List SupplyRecord)
      → IsLedger rs
      → load_lines wide rs ls ≡ some qs
      → IsLedger qs
  unfolding load_lines
  load_lines-IsLedger [] rs qs h e = ground arith
  load_lines-IsLedger (l ∷ ls) rs qs h e = elim (Option-cases (load_line wide rs l)) [
    | inl n ↦ absurd (ground arith)
    | inr (more, m) ↦
        load_lines-IsLedger ls more qs (load_line-IsLedger rs more l h m) (ground arith)
  ]

  load_parts-IsLedger :
      (i : Identity) (parts : List Bytes) (qs : List SupplyRecord)
      → load_parts wide i parts ≡ some qs
      → IsLedger qs
  load_parts-IsLedger i [] qs e = cc
  load_parts-IsLedger i (h ∷ rest) qs e = load_lines-IsLedger rest [] qs tt (ground arith)

  -- Whatever bytes a state file holds, records that are loaded from it are a ledger.
  pub load_text-IsLedger :
      (i : Identity) (text : Bytes) (qs : List SupplyRecord)
      → load_text wide i text ≡ some qs
      → IsLedger qs
  unfolding load_text
  load_text-IsLedger i text qs e = load_parts-IsLedger i (lines text) qs e

  split_tabs-record_line :
      (r : SupplyRecord)
      → IsStorable r
      → r.cumulative_coinbase ≤ u128_max
      → r.cumulative_fees ≤ u128_max
      → r.cumulative_minted ≤ u128_max
      → split_tabs (record_line wide r)
        ≡ to_text r.height
          ∷ r.hash
          ∷ r.parent_hash
          ∷ to_text r.coinbase_atomic
          ∷ to_text r.fees_atomic
          ∷ to_text r.minted_atomic
          ∷ wide.print r.cumulative_coinbase
          ∷ wide.print r.cumulative_fees
          ∷ wide.print r.cumulative_minted
          ∷ []
  unfolding record_line
  split_tabs-record_line r s c f m = rw (
    split_tabs_field (to_text r.height) _ (to_text-IsClean r.height),
    split_tabs_field r.hash _ s.hash_clean,
    split_tabs_field r.parent_hash _ s.parent_clean,
    split_tabs_field (to_text r.coinbase_atomic) _ (to_text-IsClean r.coinbase_atomic),
    split_tabs_field (to_text r.fees_atomic) _ (to_text-IsClean r.fees_atomic),
    split_tabs_field (to_text r.minted_atomic) _ (to_text-IsClean r.minted_atomic),
    split_tabs_field (wide.print r.cumulative_coinbase) _ (print-IsClean wide _ c),
    split_tabs_field (wide.print r.cumulative_fees) _ (print-IsClean wide _ f),
    split_tabs_last (wide.print r.cumulative_minted) (print-IsClean wide _ m),
  )

  load_line-record_line :
      (rs : List SupplyRecord) (r : SupplyRecord)
      → IsLedger (r ∷ rs)
      → IsStorable r
      → load_line wide rs (record_line wide r) ≡ some (r ∷ rs)
  unfolding load_line parse_record
  load_line-record_line rs r h s =
      let (sums, fits) = prior-conserved (r ∷ rs) h in
      rw
        (
          split_tabs-record_line r s (omega arith) (omega arith) (omega arith),
          parse_u64-to_text r.height s.height_fits,
          parse_u64-to_text r.coinbase_atomic s.coinbase_fits,
          parse_u64-to_text r.fees_atomic (omega (arith, h.0.covered, s.coinbase_fits)),
          parse_u64-to_text r.minted_atomic (omega (arith, h.0.minted, s.coinbase_fits)),
          parse_supply_wide-print wide r.cumulative_coinbase (omega arith),
          parse_supply_wide-print wide r.cumulative_fees (omega arith),
          parse_supply_wide-print wide r.cumulative_minted (omega arith),
          fits_behind-Follows rs r h.0,
        )
        (push_checked_lem rs r h.1 h.0)

  record_line-IsLine :
      (rs : List SupplyRecord) (r : SupplyRecord)
      → IsLedger (r ∷ rs)
      → IsStorable r
      → IsLine (record_line wide r)
  unfolding record_line
  record_line-IsLine rs r h s =
      let (sums, fits) = prior-conserved (r ∷ rs) h in
      field-IsLine _ _ (to_text-IsClean r.height) (
        field-IsLine _ _ s.hash_clean (
          field-IsLine _ _ s.parent_clean (
            field-IsLine _ _ (to_text-IsClean r.coinbase_atomic) (
              field-IsLine _ _ (to_text-IsClean r.fees_atomic) (
                field-IsLine _ _ (to_text-IsClean r.minted_atomic) (
                  field-IsLine _ _ (print-IsClean wide _ (omega arith)) (
                    field-IsLine _ _ (print-IsClean wide _ (omega arith))
                      (clean-IsLine _ (print-IsClean wide _ (omega arith))))))))))

  load_lines_done : (rs : List SupplyRecord) → load_lines wide rs (lines []) ≡ some rs
  unfolding load_lines lines
  load_lines_done rs = refl

  -- Reading the lines of a ledger in front of other text goes on from that ledger.
  load_lines-record_lines :
      (rs : List SupplyRecord) (t : Bytes)
      → IsLedger rs
      → All IsStorable rs
      → load_lines wide [] (lines (record_lines wide rs ++ t)) ≡ load_lines wide rs (lines t)
  unfolding record_lines load_lines
  load_lines-record_lines [] t h s = refl
  load_lines-record_lines (r ∷ rs) t h s = rw (
    append_assoc (record_lines wide rs) (record_line wide r ++ newline ∷ []) t,
    append_assoc (record_line wide r) (newline ∷ []) t,
    load_lines-record_lines rs (record_line wide r ++ newline ∷ t) h.1 s.1,
    lines_line (record_line wide r) t (record_line-IsLine rs r h s.0),
    load_line-record_line rs r h s.0,
  )

  -- For a ledger of storable records written under names that hold no tab and no line end: read
  -- under the same identity, the checkpoint gives back exactly its records, and read under any
  -- other identity it gives nothing.
  pub load_text-checkpoint_text :
      (i j : Identity) (rs : List SupplyRecord)
      → IsNameable i
      → IsLedger rs
      → All IsStorable rs
      → ((i ≡ j) × (load_text wide j (checkpoint_text wide i rs) ≡ some rs))
        ⊎ ((i ≢ j) × (load_text wide j (checkpoint_text wide i rs) ≡ none))
  unfolding load_text checkpoint_text
  load_text-checkpoint_text i j rs n h s = ground (
    arith,
    header_matches_lem i j n,
    lines_line (header_line i) (record_lines wide rs) (header_line-IsLine i n),
    load_lines-record_lines rs [] h s,
    append-nil (record_lines wide rs),
    load_lines_done rs,
  )
