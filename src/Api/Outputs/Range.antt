-- ===== src/Api/Outputs/Range.antt =====
-- Which blocks the outputs of json_outputsblocks of src/page.h are of.
use explorer_qwertycoin_org.Base.{ℕ, ◌+◌, ◌≤◌, ◌<◌, true, ◌≡◌, All, ◌⊎◌}
use explorer_qwertycoin_org.Api.Outputs.{Crypto, OurOutput, OutputsBlocksPage}

module _ (crypto : Crypto) where
  -- What a page of json_outputsblocks is: at most five blocks above height 0 and within the chain,
  -- and outputs that are of the pool or of one of them.
  abbrev pub IsRange : OutputsBlocksPage → ℕ → Type 0
  IsRange p u =
      (0 < p.startblock)
      × (p.startblock ≤ p.endblock)
      × (p.endblock < p.startblock + 5)
      × (p.endblock ≤ p.height)
      × All
          (λ (o : OurOutput).
            (o.in_mempool ≡ true) ⊎ ((p.startblock ≤ o.block_no) × (o.block_no ≤ p.endblock)))
          p.outputs
