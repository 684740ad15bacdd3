-- ===== src/Base/Text.antt =====
-- Texts as lists of bytes: literals and equality.
use Prim.Native.Nat.{ℕ}
use Prim.Native.Char.{code}
use Prim.Native.String.{String}
use mathlib.Core.Path.{◌≡◌, refl}
use mathlib.Core.Logic.{◌↔◌, ◌≢◌}
use mathlib.Core.Bool.{Bool, true, false, ◌&&◌}
use mathlib.Core.List.{List, [], ◌∷◌, ◌++◌}
use native.Mathlib.Omega.{arith}
use explorer_qwertycoin_org.Base.Tests.{◌==◌, if◌then◌else◌}
use explorer_qwertycoin_org.Base.Lists.{All}

abbrev pub Bytes : Type 0
Bytes = List ℕ

-- The code points of a literal: its bytes, if it is ASCII.
abbrev pub codes : String → Bytes
codes String.[] = []
codes (String.◌∷◌ c s) = code c ∷ codes s

abbrev pub is_empty {ℓ} : {A : Type ℓ} → List A → Bool
is_empty [] = true
is_empty (x ∷ xs) = false

-- `==` of two std::string values.
unfoldable pub same : Bytes → Bytes → Bool
same [] [] = true
same [] (y ∷ ys) = false
same (x ∷ xs) [] = false
same (x ∷ xs) (y ∷ ys) = (x == y) && same xs ys

pub same_iff : (s t : Bytes) → (same s t ≡ true) ↔ (s ≡ t)
unfolding same
same_iff [] [] = ground arith
same_iff [] (y ∷ ys) = ground arith
same_iff (x ∷ xs) [] = ground arith
same_iff (x ∷ xs) (y ∷ ys) = ground (arith, same_iff xs ys)

pub same_refl : (s : Bytes) → same s s ≡ true
same_refl s = (same_iff s s).1 refl

abbrev onto_first : ℕ → List Bytes → List Bytes
onto_first c [] = (c ∷ []) ∷ []
onto_first c (p ∷ ps) = (c ∷ p) ∷ ps

-- The parts between the separators, as boost::split cuts a text; there is always at least one.
unfoldable pub split_on : ℕ → Bytes → List Bytes
split_on sep [] = [] ∷ []
split_on sep (c ∷ s) =
    let parts = split_on sep s in if c == sep then [] ∷ parts else onto_first c parts

abbrev pub IsFreeOf : ℕ → Bytes → Type 0
IsFreeOf sep = All (λ c. c ≢ sep)

pub split_on_last : (sep : ℕ) (p : Bytes) → IsFreeOf sep p → split_on sep p ≡ p ∷ []
unfolding split_on
split_on_last sep [] h = refl
split_on_last sep (c ∷ p) h = ground (arith, split_on_last sep p h.1)

pub split_on_field :
    (sep : ℕ) (p s : Bytes) → IsFreeOf sep p → split_on sep (p ++ sep ∷ s) ≡ p ∷ split_on sep s
unfolding split_on
split_on_field sep [] s h = ground arith
split_on_field sep (c ∷ p) s h = ground (arith, split_on_field sep p s h.1)
