-- ===== src/Transaction/Summary.antt =====
-- The one pass of summary_of_in_out_rct gives what the separate passes give, and the sums are the
-- true sums modulo 2 ^ 64.
use explorer_qwertycoin_org.Base.{
  ℕ, ◌+◌, ◌%◌, ◌<◌, ◌≡◌, refl, List, [], ◌∷◌, none, some, ◌==◌, if◌then◌else◌, add64, u64_mod,
  arith,
}
use explorer_qwertycoin_org.Transaction.{
  TxOut, TxIn, to_key, other, Transaction, Totals, sum_outputs, sum_money_in_outputs, sum_inputs,
  sum_money_in_inputs, count_nonrct, count_nonrct_inputs, first_mixin, get_mixin_no, output_tuple,
  output_tuples, get_ouputs, key_inputs, get_key_images, add_output, add_input, add_outputs,
  add_inputs, summary_of_in_out_rct, no_totals, sum_fees, sum_fees_in_txs,
}

-- The outputs that have a key.
abbrev pub with_key : List TxOut → List TxOut
with_key [] = []
with_key (o ∷ rest) = elim o.public_key [ none ↦ with_key rest | some k ↦ o ∷ with_key rest ]

add_outputs_lem :
    (os : List TxOut) (t : Totals)
    → add_outputs os t ≡ record t {
      xmr_outputs = sum_outputs (with_key os) t.xmr_outputs;
      output_pub_keys = output_tuples os t.output_pub_keys;
    }
unfolding add_outputs sum_outputs output_tuples output_tuple add_output
add_outputs_lem [] t = refl
add_outputs_lem (o ∷ rest) t = ground (arith, add_outputs_lem rest (add_output t o))

add_inputs_lem :
    (is : List TxIn) (t : Totals)
    → add_inputs is t ≡ record t {
      xmr_inputs = sum_inputs is t.xmr_inputs;
      num_nonrct_inputs = count_nonrct is t.num_nonrct_inputs;
      mixin_no = if t.mixin_no == 0 then first_mixin is 0 else t.mixin_no;
      input_key_imgs = key_inputs is t.input_key_imgs;
    }
unfolding add_inputs sum_inputs count_nonrct first_mixin key_inputs add_input
add_inputs_lem [] t = ground arith
add_inputs_lem (other ∷ rest) t = add_inputs_lem rest t
add_inputs_lem (to_key k ∷ rest) t = ground (arith, add_inputs_lem rest (add_input t (to_key k)))

-- The one pass of summary_of_in_out_rct gives what the separate functions give of the transaction:
-- its input sum, its mixin number, the number of inputs with an amount, the outputs and the key
-- images; only its output sum is over the outputs that have a key.
pub summary_lem :
    (tx : Transaction)
    → summary_of_in_out_rct tx ≡ record {
      xmr_outputs = sum_outputs (with_key tx.vout) 0;
      xmr_inputs = sum_money_in_inputs tx;
      mixin_no = get_mixin_no tx;
      num_nonrct_inputs = count_nonrct_inputs tx;
      output_pub_keys = get_ouputs tx;
      input_key_imgs = get_key_images tx;
    }
unfolding summary_of_in_out_rct sum_money_in_inputs get_mixin_no count_nonrct_inputs get_ouputs
    get_key_images
summary_lem tx = ground (
  arith,
  add_outputs_lem tx.vout no_totals,
  add_inputs_lem tx.vin (add_outputs tx.vout no_totals),
)

-- The true sum of the output amounts.
abbrev pub output_total : List TxOut → ℕ
output_total [] = 0
output_total (o ∷ rest) = o.amount + output_total rest

abbrev pub input_total : List TxIn → ℕ
input_total [] = 0
input_total (other ∷ rest) = input_total rest
input_total (to_key k ∷ rest) = k.amount + input_total rest

abbrev pub fee_total : List Transaction → ℕ
fee_total [] = 0
fee_total (tx ∷ txs) = tx.fee + fee_total txs

sum_outputs_lem :
    (os : List TxOut) (s : ℕ) → s < u64_mod → sum_outputs os s ≡ (s + output_total os) % u64_mod
unfolding sum_outputs
sum_outputs_lem [] s h = omega arith
sum_outputs_lem (o ∷ rest) s h =
    omega (arith, sum_outputs_lem rest (add64 s o.amount) (omega arith))

sum_inputs_lem :
    (is : List TxIn) (s : ℕ) → s < u64_mod → sum_inputs is s ≡ (s + input_total is) % u64_mod
unfolding sum_inputs
sum_inputs_lem [] s h = omega arith
sum_inputs_lem (other ∷ rest) s h = sum_inputs_lem rest s h
sum_inputs_lem (to_key k ∷ rest) s h =
    omega (arith, sum_inputs_lem rest (add64 s k.amount) (omega arith))

sum_fees_lem :
    (txs : List Transaction) (s : ℕ) → s < u64_mod → sum_fees txs s ≡ (s + fee_total txs) % u64_mod
unfolding sum_fees
sum_fees_lem [] s h = omega arith
sum_fees_lem (tx ∷ txs) s h = omega (arith, sum_fees_lem txs (add64 s tx.fee) (omega arith))

-- The sums of a transaction's outputs and inputs and of the fees of transactions are the true sums
-- modulo 2 ^ 64.
pub sums_lem :
    (tx : Transaction) (txs : List Transaction)
    → (sum_money_in_outputs tx ≡ output_total tx.vout % u64_mod)
      × (sum_money_in_inputs tx ≡ input_total tx.vin % u64_mod)
      × (sum_fees_in_txs txs ≡ fee_total txs % u64_mod)
unfolding sum_money_in_outputs sum_money_in_inputs sum_fees_in_txs
sums_lem tx txs = (
  omega (arith, sum_outputs_lem tx.vout 0 (omega arith)),
  omega (arith, sum_inputs_lem tx.vin 0 (omega arith)),
  omega (arith, sum_fees_lem txs 0 (omega arith)),
)
