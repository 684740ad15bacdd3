-- ===== src/Emission/File.antt =====
-- src/CurrentBlockchainStatus.cpp: the file that the emission is saved to and taken from, and the
-- rounds of the thread that keeps it.
pub mod RoundTrip
use explorer_qwertycoin_org.Base.{
  ℕ, ◌-◌, Bool, true, false, ◌&&◌, ◌||◌, not, List, [], ◌∷◌, Option, none, some, Bytes, ltb, ◌==◌,
  if◌then◌else◌, is_empty, split_on, sub64,
}
use explorer_qwertycoin_org.Emission.{
  Emission, BlockAnswer, checksum, emission_text, update_current_emission_amount,
  blockchain_chunk_size,
}

-- A load ends with an emission or with false, or at() throws out_of_range, which nothing catches.
pub data Loaded : Type 0 where
  taken : Emission → Loaded
  rejected : Loaded
  thrown : Loaded

abbrev pub is_trimmed : ℕ → Bool
is_trimmed c = c == b' ' || c == 10 || c == 13 || c == 9

-- Without the spaces and line ends behind it.
unfoldable pub trim_right : Bytes → Bytes
trim_right [] = []
trim_right (c ∷ s) =
    let rest = trim_right s in if is_trimmed c && is_empty rest then [] else c ∷ rest

-- boost::lexical_cast<uint64_t> is a parameter: a number, or bad_lexical_cast.
module _ (lexical_cast : Bytes → Option ℕ) where
  abbrev pub check_sum : Emission → Option ℕ → Loaded
  check_sum e none = rejected
  check_sum e (some read_check_sum) =
      if not (read_check_sum == checksum e) then rejected else taken e

  -- The fields by their place: a missing one throws when it is its turn.
  abbrev pub take_check_sum : Emission → List Bytes → Loaded
  take_check_sum e [] = thrown
  take_check_sum e (text ∷ strs) = check_sum e (lexical_cast text)

  abbrev pub with_fee : ℕ → ℕ → Option ℕ → List Bytes → Loaded
  with_fee blk_no coinbase none strs = rejected
  with_fee blk_no coinbase (some fee) strs =
      take_check_sum (record { coinbase = coinbase; fee = fee; blk_no = blk_no }) strs

  abbrev pub take_fee : ℕ → ℕ → List Bytes → Loaded
  take_fee blk_no coinbase [] = thrown
  take_fee blk_no coinbase (text ∷ strs) = with_fee blk_no coinbase (lexical_cast text) strs

  abbrev pub with_coinbase : ℕ → Option ℕ → List Bytes → Loaded
  with_coinbase blk_no none strs = rejected
  with_coinbase blk_no (some coinbase) strs = take_fee blk_no coinbase strs

  abbrev pub take_coinbase : ℕ → List Bytes → Loaded
  take_coinbase blk_no [] = thrown
  take_coinbase blk_no (text ∷ strs) = with_coinbase blk_no (lexical_cast text) strs

  abbrev pub with_blk_no : Option ℕ → List Bytes → Loaded
  with_blk_no none strs = rejected
  with_blk_no (some blk_no) strs = take_coinbase blk_no strs

  abbrev pub load_fields : List Bytes → Loaded
  load_fields [] = rejected
  load_fields (text ∷ strs) = with_blk_no (lexical_cast text) strs

  -- load_current_emission_amount, of what xmreg::read gives; a file of nothing counts as unreadable.
  unfoldable pub load_current_emission_amount : Bytes → Loaded
  unfolding trim_right
  load_current_emission_amount text =
      if is_empty text then rejected else load_fields (split_on b',' (trim_right text))

-- How the file system answers a save: whether the file opens, and what is left where the write does
-- not come through, which the code does not notice.
pub record Disk : Type 0 where
  pub opens : Bool
  pub partial : Option Bytes

abbrev pub written : Emission → Option Bytes → Bytes
written e none = emission_text e
written e (some left) = left

-- The file, and what the call returns.
unfoldable pub save_current_emission_amount : Disk → Emission → Option Bytes → Option Bytes × Bool
save_current_emission_amount disk e file =
    if not disk.opens then (file, false) else (some (written e disk.partial), true)

-- The static members and the file.
pub record Status : Type 0 where
  pub total_emission_atomic : Emission
  pub current_height : ℕ
  pub file : Option Bytes
  pub is_running : Bool

-- What a round of the thread meets: the height, the blocks and the disk.
pub record Round : Type 0 where
  pub height : ℕ
  pub chain : ℕ → BlockAnswer
  pub disk : Disk

-- One round; the second part is the number of seconds that the thread then sleeps.
unfoldable pub monitor_round : Round → Status → Status × ℕ
monitor_round r s =
    let total = update_current_emission_amount r.chain r.height s.total_emission_atomic in
    let file = (save_current_emission_amount r.disk total s.file).0 in
    (
      record s { total_emission_atomic = total; current_height = r.height; file = file },
      if ltb s.total_emission_atomic.blk_no (sub64 r.height blockchain_chunk_size) then 1 else 60,
    )

unfoldable pub monitor_rounds : List Round → Status → Status
unfolding monitor_round
monitor_rounds [] s = s
monitor_rounds (r ∷ rs) s = monitor_rounds rs (monitor_round r s).0

abbrev pub no_emission : Emission
no_emission = record { coinbase = 0; fee = 0; blk_no = 0 }

-- The state that start_monitor_blockchain_thread leaves before the thread's first round, and whether
-- it starts a thread; nothing where load throws.
abbrev pub after_load : Loaded → Status → Option (Status × Bool)
after_load thrown s = none
after_load rejected s = some (record s { total_emission_atomic = no_emission }, false)
after_load (taken e) s =
    some (record s { total_emission_atomic = e; is_running = true }, not s.is_running)

module _ (lexical_cast : Bytes → Option ℕ) where
  abbrev pub load_if_there : Option Bytes → Status → Option (Status × Bool)
  load_if_there none s =
      some (record s { total_emission_atomic = no_emission; is_running = true }, not s.is_running)
  load_if_there (some text) s = after_load (load_current_emission_amount lexical_cast text) s

  unfoldable pub start_monitor_blockchain_thread : Status → Option (Status × Bool)
  unfolding load_current_emission_amount
  start_monitor_blockchain_thread s = load_if_there s.file s
