-- ===== src/Address/PublicAddress.antt =====
-- Which addresses count as public, against the blocks of special-purpose addresses.
use explorer_qwertycoin_org.Base.{
  if◌then◌else◌, zero, suc, ◌&&◌, ◌==◌, ltb, leb, refl, Bool, true, false, ◌≡◌, ◌≤◌, ◌<◌, ℕ, ◌+◌,
  ◌-◌, ◌*◌, ◌/◌, ◌^◌, ◌↔◌, ◌⊎◌, List, [], ◌∷◌, arith,
}
use explorer_qwertycoin_org.Address.{bit_and, is_ipv4_mapped, is_public_v6, is_public_v4}

-- An IPv4 address as a number.
abbrev pub number_v4 : ℕ → ℕ → ℕ → ℕ → ℕ
number_v4 a b c d = ((a * 256 + b) * 256 + c) * 256 + d

-- A block: its first address, and how many low bits are free in it.
pub record AddressBlock : Type 0 where
  pub first : ℕ
  pub free_bits : ℕ

abbrev block : ℕ → ℕ → ℕ → ℕ → ℕ → AddressBlock
block a b c d prefix = record { first = number_v4 a b c d; free_bits = 32 - prefix }

abbrev pub Lies : ℕ → AddressBlock → Type 0
Lies n k = n / 2 ^ k.free_bits ≡ k.first / 2 ^ k.free_bits

abbrev pub LiesInOne : ℕ → List AddressBlock → Type 0
LiesInOne n [] = ⊥
LiesInOne n (k ∷ ks) = Lies n k ⊎ LiesInOne n ks

-- "This network", private and shared space, loopback, link-local, documentation, relay and
-- benchmarking blocks, and everything from the multicast block up.
abbrev pub special_blocks : List AddressBlock
special_blocks =
    block 0 0 0 0 8
    ∷ block 10 0 0 0 8
    ∷ block 100 64 0 0 10
    ∷ block 127 0 0 0 8
    ∷ block 169 254 0 0 16
    ∷ block 172 16 0 0 12
    ∷ block 192 0 0 0 24
    ∷ block 192 0 2 0 24
    ∷ block 192 88 99 0 24
    ∷ block 192 168 0 0 16
    ∷ block 198 18 0 0 15
    ∷ block 198 51 100 0 24
    ∷ block 203 0 113 0 24
    ∷ block 224 0 0 0 3
    ∷ []

-- For four bytes, an IPv4 address counts as public exactly if it lies in none of the listed blocks
-- of special-purpose addresses.
pub is_public_v4_iff :
    (a b c d : ℕ)
    → a < 256
    → b < 256
    → c < 256
    → d < 256
    → (is_public_v4 a b c ≡ true) ↔ ¬ LiesInOne (number_v4 a b c d) special_blocks
unfolding is_public_v4
is_public_v4_iff a b c d ha hb hc hd = (λ h l. ground arith, λ h. ground arith)

-- The test of the mask, and what it stands for.
abbrev masked : ℕ → Bool
masked byte = bit_and byte 0xe0 == 0x20

abbrev ranged : ℕ → Bool
ranged byte = leb 0x20 byte && ltb byte 0x40

-- The numbers below `count` at which the two differ.
strays : ℕ → List ℕ
strays zero = []
strays (suc byte) =
    let below = strays byte in
    if masked byte
    then (if ranged byte then below else byte ∷ below)
    else if ranged byte
    then byte ∷ below
    else below

no_strays : strays 256 ≡ []
unfolding strays
no_strays = refl

masked-ranged : (byte count : ℕ) → byte < count → strays count ≡ [] → masked byte ≡ ranged byte
unfolding strays
masked-ranged byte zero lt none_differ = absurd (omega arith)
masked-ranged byte (suc last) lt none_differ = ground (arith, masked-ranged byte last)

mask_lem : (b0 : ℕ) → b0 < 256 → (bit_and b0 0xe0 == 0x20) ≡ (leb 0x20 b0 && ltb b0 0x40)
mask_lem b0 small = masked-ranged b0 256 small no_strays

-- For a first byte below 256, an IPv6 address counts as public exactly in 2000::/3 outside the
-- documentation block 2001:db8::/32; the test for mapped IPv4 addresses refuses nothing more.
pub is_public_v6_iff :
    (b0 b1 b2 b3 : ℕ) (rest : List ℕ)
    → b0 < 256
    → (is_public_v6 (b0 ∷ b1 ∷ b2 ∷ b3 ∷ rest) ≡ true)
      ↔ ((0x20 ≤ b0) × (b0 < 0x40) × ¬ ((b0 ≡ 0x20) × (b1 ≡ 0x01) × (b2 ≡ 0x0d) × (b3 ≡ 0xb8)))
unfolding is_public_v6
is_public_v6_iff b0 b1 b2 b3 rest h = (
  λ p. ground (arith, mask_lem b0 h, not_mapped b0 (b1 ∷ b2 ∷ b3 ∷ rest)),
  λ p. ground (arith, mask_lem b0 h, not_mapped b0 (b1 ∷ b2 ∷ b3 ∷ rest)),
)
  where
    not_mapped : (x : ℕ) (s : List ℕ) → 0x20 ≤ x → is_ipv4_mapped 10 (x ∷ s) ≡ false
    not_mapped x s lo = unfold is_ipv4_mapped in ground arith
