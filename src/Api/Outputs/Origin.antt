-- ===== src/Api/Outputs/Origin.antt =====
-- Where the outputs come from that find_our_outputs of src/page.h finds.
use explorer_qwertycoin_org.Base.{
  ℕ, suc, Bool, false, not, List, [], ◌∷◌, Bytes, if-elim, length, ◌≡◌, refl, All, All-append,
}
use explorer_qwertycoin_org.Transaction.{Transaction, OutputTuple}
use explorer_qwertycoin_org.Api.{Node, get_block_by_height, get_tx_details, TxDetails}
use explorer_qwertycoin_org.Api.Laws.{
  Yields, Yields-bind, Yields-or_refuse, Yields-refuse_if, Yields-any,
}
use explorer_qwertycoin_org.Api.Outputs.{
  Crypto, OurOutput, derive_all, match_output, amount_of, our_output, our_outputs, no_derivation,
  find_our_outputs, block_outputs,
}

-- An output that was found in a block of the given height, or in the pool.
abbrev pub IsFrom : ℕ → Bool → OurOutput → Type 0
IsFrom block_no is_mempool o = (o.block_no ≡ block_no) × (o.in_mempool ≡ is_mempool)

module _ (crypto : Crypto) where
  module _ (spend_key : Bytes) (block_no : ℕ) (is_mempool : Bool) (tx : Transaction)
      (txd : TxDetails) (derivation : Bytes) (additional : List Bytes) where
    our_outputs-IsFrom :
        (output_idx : ℕ) (outs : List OutputTuple) (views : ℕ → Node) (t : ℕ)
        → Yields
            (λ os u. All (IsFrom block_no is_mempool) os)
            (our_outputs crypto spend_key block_no is_mempool tx txd derivation additional
              output_idx outs views t)
    unfolding our_outputs
    our_outputs-IsFrom output_idx [] views t = tt
    our_outputs-IsFrom output_idx (outp ∷ rest) views t =
        let Q = λ (os : List OurOutput) (u : ℕ). All (IsFrom block_no is_mempool) os in
        let m =
          match_output crypto derivation additional (length txd.output_pub_keys) spend_key
            output_idx outp in
        Yields-bind Q (λ a u. Unit {0}) (amount_of crypto tx txd m output_idx outp views t) _
          (Yields-any _)
          λ amount u _.
            Yields-bind Q Q
              (our_outputs crypto spend_key block_no is_mempool tx txd derivation additional
                (suc output_idx) rest views u)
              _ (our_outputs-IsFrom (suc output_idx) rest views u)
              λ more v held.
                if-elim (All (IsFrom block_no is_mempool)) m.mine_output
                  {x = our_output crypto spend_key block_no is_mempool tx txd derivation additional
                      output_idx amount outp
                    ∷ more}
                  (λ _. ((refl, refl), held)) (λ _. held)

  pub find_our_outputs-IsFrom :
      (spend_key view_key : Bytes) (block_no : ℕ) (is_mempool : Bool) (txs : List Transaction)
      (views : ℕ → Node) (t : ℕ)
      → Yields
          (λ os u. All (IsFrom block_no is_mempool) os)
          (find_our_outputs crypto spend_key view_key block_no is_mempool txs views t)
  unfolding find_our_outputs
  find_our_outputs-IsFrom spend_key view_key block_no is_mempool [] views t = tt
  find_our_outputs-IsFrom spend_key view_key block_no is_mempool (tx ∷ txs) views t =
      let Q = λ (os : List OurOutput) (u : ℕ). All (IsFrom block_no is_mempool) os in
      Yields-bind Q (λ a u. Unit {0}) (get_tx_details tx false 0 0 views t) _ (Yields-any _)
        λ txd u _.
          Yields-or_refuse Q (crypto.generate_key_derivation txd.pk view_key) (no_derivation crypto)
            views u _
            λ derivation _.
              Yields-or_refuse Q (derive_all crypto txd.additional_pks view_key)
                (no_derivation crypto) views u _
                λ additional _.
                  Yields-bind Q Q
                    (our_outputs crypto spend_key block_no is_mempool tx txd derivation additional 0
                      txd.output_pub_keys views u)
                    _
                    (our_outputs-IsFrom spend_key block_no is_mempool tx txd derivation additional 0
                      txd.output_pub_keys views u)
                    λ here v held.
                      Yields-bind Q Q
                        (find_our_outputs crypto spend_key view_key block_no is_mempool txs views v)
                        _
                        (find_our_outputs-IsFrom spend_key view_key block_no is_mempool txs views v)
                        λ more w kept. All-append (IsFrom block_no is_mempool) here more held kept

  pub block_outputs-IsFrom :
      (spend_key view_key : Bytes) (block_no : ℕ) (views : ℕ → Node) (t : ℕ)
      → Yields
          (λ os u. All (IsFrom block_no false) os)
          (block_outputs crypto spend_key view_key block_no views t)
  unfolding block_outputs get_block_by_height
  block_outputs-IsFrom spend_key view_key block_no views t =
      let Q = λ (os : List OurOutput) (u : ℕ). All (IsFrom block_no false) os in
      Yields-or_refuse Q ((views t).db_block block_no) _ views (suc t) _ λ blk _.
        let got = (views (suc t)).transactions blk.tx_hashes in
        Yields-refuse_if Q (not got.succeeded) _ views (suc (suc t)) _ λ _.
          find_our_outputs-IsFrom spend_key view_key block_no false (blk.miner_tx ∷ got.txs) views
            (suc (suc t))
