-- ===== src/Address.antt =====
-- src/epose_telemetry.cpp: which host names and which addresses may be contacted.
pub mod DnsName
pub mod PublicAddress
use Prim.Native.Nat.{bit_and}
use explorer_qwertycoin_org.Base.{
  ℕ, zero, suc, ◌-◌, Bool, true, false, ◌&&◌, ◌||◌, not, List, [], ◌∷◌, Option, none, some, Bytes,
  ltb, leb, ◌==◌, if◌then◌else◌, is_empty, length,
}

unfoldable pub all_of : (ℕ → Bool) → Bytes → Bool
all_of p [] = true
all_of p (c ∷ s) = p c && all_of p s

abbrev pub is_hex_digit : ℕ → Bool
is_hex_digit c = (leb b'0' c && leb c b'9') || (leb b'a' c && leb c b'f')

unfoldable pub is_lower_hex_telemetry_hash : Bytes → Bool
is_lower_hex_telemetry_hash value = length value == 64 && all_of is_hex_digit value

unfoldable pub valid_epose_software_version : Bytes → Bool
valid_epose_software_version value =
    not (is_empty value) && leb (length value) 64 && all_of (λ c. leb 0x20 c && leb c 0x7e) value

-- The labels of a host name, which a dot ends.
abbrev onto_label : ℕ → List Bytes → List Bytes
onto_label c [] = (c ∷ []) ∷ []
onto_label c (l ∷ ls) = (c ∷ l) ∷ ls

unfoldable pub labels : Bytes → List Bytes
labels [] = [] ∷ []
labels (c ∷ s) = let rest = labels s in if c == b'.' then [] ∷ rest else onto_label c rest

abbrev pub is_letter : ℕ → Bool
is_letter c = (leb b'A' c && leb c b'Z') || (leb b'a' c && leb c b'z')

abbrev pub is_label_char : ℕ → Bool
is_label_char c = is_letter c || (leb b'0' c && leb c b'9') || c == b'-'

abbrev pub front : ℕ → Bytes → ℕ
front d [] = d
front d (c ∷ s) = c

abbrev pub back : ℕ → Bytes → ℕ
back d [] = d
back d (c ∷ s) = back c s

unfoldable pub has_non_numeric : Bytes → Bool
has_non_numeric [] = false
has_non_numeric (c ∷ s) = is_letter c || c == b'-' || has_non_numeric s

unfoldable pub valid_label : Bytes → Bool
valid_label l =
    not (length l == 0 || ltb 63 (length l) || front 0 l == b'-' || back 0 l == b'-')
    && all_of is_label_char l

-- The loop over the labels; the flag is whether a letter or a dash was seen.
unfoldable pub check_labels : List Bytes → Bool → Bool
check_labels [] seen = seen
check_labels (l ∷ ls) seen =
    let rest = check_labels ls (seen || has_non_numeric l) in if valid_label l then rest else false

unfoldable pub valid_epose_dns_name : Bytes → Bool
valid_epose_dns_name host =
    if is_empty host || ltb 253 (length host) || front 0 host == b'.' || back 0 host == b'.'
    then false
    else check_labels (labels host) false

-- An address of boost::asio: four bytes or sixteen.
pub data Address : Type 0 where
  v4 : ℕ → ℕ → ℕ → ℕ → Address
  v6 : List ℕ → Address

abbrev pub is_v4 : Address → Bool
is_v4 (v4 a b c d) = true
is_v4 (v6 bytes) = false

-- What the sources use of boost::asio: how it classifies, reads and prints addresses, and the
-- resolver under its deadline (`none` where it fails or the time runs out).
pub record Net : Type 0 where
  pub is_unspecified : Address → Bool
  pub is_loopback : Address → Bool
  pub is_multicast : Address → Bool
  pub from_string : Bytes → Option Address
  pub to_string : Address → Bytes
  pub resolve : Bytes → ℕ → Option (List Address)

unfoldable pub is_public_v4 : ℕ → ℕ → ℕ → Bool
is_public_v4 a b c = not (
    a == 0
    || a == 10
    || a == 127
    || leb 224 a
    || (a == 100 && leb 64 b && leb b 127)
    || (a == 169 && b == 254)
    || (a == 172 && leb 16 b && leb b 31)
    || (a == 192 && b == 0 && c == 0)
    || (a == 192 && b == 0 && c == 2)
    || (a == 192 && b == 88 && c == 99)
    || (a == 192 && b == 168)
    || (a == 198 && (b == 18 || b == 19))
    || (a == 198 && b == 51 && c == 100)
    || (a == 203 && b == 0 && c == 113))

-- std::all_of over the first ten bytes, and the two bytes behind them.
unfoldable pub is_ipv4_mapped : ℕ → List ℕ → Bool
is_ipv4_mapped zero (x ∷ y ∷ rest) = x == 0xff && y == 0xff
is_ipv4_mapped zero other = false
is_ipv4_mapped (suc n) [] = false
is_ipv4_mapped (suc n) (x ∷ rest) = x == 0 && is_ipv4_mapped n rest

unfoldable pub is_public_v6 : List ℕ → Bool
is_public_v6 (b0 ∷ b1 ∷ b2 ∷ b3 ∷ rest) =
    bit_and b0 0xe0 == 0x20
    && not (b0 == 0x20 && b1 == 0x01 && b2 == 0x0d && b3 == 0xb8)
    && not (is_ipv4_mapped 10 (b0 ∷ b1 ∷ b2 ∷ b3 ∷ rest))
is_public_v6 other = false

abbrev pub is_public_bytes : Address → Bool
is_public_bytes (v4 a b c d) = is_public_v4 a b c
is_public_bytes (v6 bytes) = is_public_v6 bytes

module _ (net : Net) where
  unfoldable pub is_public_epose_address : Address → Bool
  is_public_epose_address a =
      if net.is_unspecified a || net.is_loopback a || net.is_multicast a
      then false
      else is_public_bytes a

  abbrev accepts_literal : Option Address → Bool
  accepts_literal none = false
  accepts_literal (some a) = is_public_epose_address a

  -- The overload for a literal.
  unfoldable pub is_public_epose_literal : Bytes → Bool
  is_public_epose_literal literal = accepts_literal (net.from_string literal)
