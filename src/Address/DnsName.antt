-- ===== src/Address/DnsName.antt =====
-- What valid_epose_dns_name accepts.
use explorer_qwertycoin_org.Base.{
  ℕ, ◌≤◌, ◌<◌, ◌≡◌, ◌≢◌, ◌↔◌, ◌⊎◌, inl, refl, Bool, true, false, ◌||◌, List, [], ◌∷◌, Bytes, arith,
  All, length,
}
use explorer_qwertycoin_org.Address.{
  all_of, is_label_char, front, back, labels, has_non_numeric, valid_label, check_labels,
  valid_epose_dns_name,
}

-- A letter, a digit or a dash.
abbrev pub IsLabelChar : ℕ → Type 0
IsLabelChar c = is_label_char c ≡ true

-- A label has 1 to 63 characters, no dash at either end, and letters, digits and dashes only.
pub record IsLabel (l : Bytes) : Type 0 where
  pub some : 0 < length l
  pub short : length l ≤ 63
  pub front_ok : front 0 l ≢ b'-'
  pub back_ok : back 0 l ≢ b'-'
  pub chars : All IsLabelChar l

all_of_iff : (p : ℕ → Bool) (s : Bytes) → (all_of p s ≡ true) ↔ All (λ c. p c ≡ true) s
unfolding all_of
all_of_iff p [] = (λ h. tt, λ h. refl)
all_of_iff p (c ∷ s) = (λ h. ground (arith, all_of_iff p s), λ h. ground (arith, all_of_iff p s))

valid_label_iff : (l : Bytes) → (valid_label l ≡ true) ↔ IsLabel l
unfolding valid_label
valid_label_iff l = (
  λ h. ground (arith, all_of_iff is_label_char l),
  λ h. ground (arith, all_of_iff is_label_char l),
)

-- Some label has a letter or a dash.
abbrev pub SomeNonNumeric : List Bytes → Type 0
SomeNonNumeric [] = ⊥
SomeNonNumeric (l ∷ ls) = (has_non_numeric l ≡ true) ⊎ SomeNonNumeric ls

check_labels_iff :
    (ls : List Bytes) (seen : Bool)
    → (check_labels ls seen ≡ true) ↔ (All IsLabel ls × ((seen ≡ true) ⊎ SomeNonNumeric ls))
unfolding check_labels
check_labels_iff [] seen = (λ h. (tt, inl h), λ h. ground arith)
check_labels_iff (l ∷ ls) seen = (
  λ h. ground (arith, valid_label_iff l, check_labels_iff ls (seen || has_non_numeric l)),
  λ h. ground (arith, valid_label_iff l, check_labels_iff ls (seen || has_non_numeric l)),
)

-- A host name that the telemetry may resolve.
pub record IsHostName (host : Bytes) : Type 0 where
  pub some : 0 < length host
  pub short : length host ≤ 253
  pub front_ok : front 0 host ≢ b'.'
  pub back_ok : back 0 host ≢ b'.'
  pub all_labels : All IsLabel (labels host)
  pub not_numeric : SomeNonNumeric (labels host)

-- A host name is valid exactly if it has 1 to 253 characters, starts and ends with no dot, each of
-- its labels has 1 to 63 letters, digits and dashes with no dash at either end, and some label has
-- a letter or a dash.
pub valid_epose_dns_name_iff : (host : Bytes) → (valid_epose_dns_name host ≡ true) ↔ IsHostName host
unfolding valid_epose_dns_name
valid_epose_dns_name_iff [] = (λ h. absurd (cc), λ h. absurd (omega (arith, h.some)))
valid_epose_dns_name_iff (c ∷ s) = (
  λ h. ground (arith, check_labels_iff (labels (c ∷ s)) false),
  λ h. ground (arith, check_labels_iff (labels (c ∷ s)) false),
)
