-- ===== src/Gateway/Inflight.antt =====
-- The in-flight counter of the wallet_rpc_handler of main.cpp under concurrent requests: fetch_add
-- and fetch_sub are atomic, and the steps of the requests interleave in any order.
use explorer_qwertycoin_org.Base.{
  ◌↔◌, ℕ, zero, suc, ◌+◌, ◌^◌, ◌≤◌, ◌<◌, List, [], ◌∷◌, ◌++◌, ◌≡◌, leb, if◌then◌else◌, arith, refl,
  Bool-cases, inl, inr,
}
use explorer_qwertycoin_org.Gateway.{maximum_inflight, fetch_add, fetch_sub}

-- Where a request stands: before fetch_add, between a refused fetch_add and its fetch_sub, behind an
-- admitted fetch_add with the guard alive, and behind its fetch_sub.
pub data Stage : Type 0 where
  arriving : Stage
  refused : Stage
  forwarding : Stage
  gone : Stage

pub record System : Type 0 where
  pub inflight : ℕ
  pub stages : List Stage

-- `fetch_add(1) >= 16`, by the value before the addition.
abbrev pub admit : ℕ → Stage
admit before = if leb maximum_inflight before then refused else forwarding

pub data Step : System → System → Type 0 where
  enter :
      (n : ℕ) (xs ys : List Stage)
      → Step
          (record { inflight = n; stages = xs ++ arriving ∷ ys })
          (record { inflight = fetch_add n; stages = xs ++ admit n ∷ ys })
  bounce :
      (n : ℕ) (xs ys : List Stage)
      → Step
          (record { inflight = n; stages = xs ++ refused ∷ ys })
          (record { inflight = fetch_sub n; stages = xs ++ gone ∷ ys })
  leave :
      (n : ℕ) (xs ys : List Stage)
      → Step
          (record { inflight = n; stages = xs ++ forwarding ∷ ys })
          (record { inflight = fetch_sub n; stages = xs ++ gone ∷ ys })

unfoldable pub arrivals : ℕ → List Stage
arrivals zero = []
arrivals (suc n) = arriving ∷ arrivals n

-- What any number of requests can reach, from the counter at 0.
pub data Reach (requests : ℕ) : System → Type 0 where
  start : Reach requests (record { inflight = 0; stages = arrivals requests })
  later : {s t : System} → Reach requests s → Step s t → Reach requests t

unfoldable pub total : (Stage → ℕ) → List Stage → ℕ
total w [] = 0
total w (s ∷ ss) = w s + total w ss

abbrev pub is_forwarding : Stage → ℕ
is_forwarding arriving = 0
is_forwarding refused = 0
is_forwarding forwarding = 1
is_forwarding gone = 0

abbrev pub is_counted : Stage → ℕ
is_counted arriving = 0
is_counted refused = 1
is_counted forwarding = 1
is_counted gone = 0

total-append : (w : Stage → ℕ) (xs ys : List Stage) → total w (xs ++ ys) ≡ total w xs + total w ys
unfolding total
total-append w [] ys = omega arith
total-append w (x ∷ xs) ys = omega (arith, total-append w xs ys)

total-middle :
    (w : Stage → ℕ) (s : Stage) (xs ys : List Stage)
    → total w (xs ++ s ∷ ys) ≡ w s + (total w xs + total w ys)
unfolding total
total-middle w s xs ys = omega (arith, total-append w xs (s ∷ ys))

abbrev one : Stage → ℕ
one s = 1

total-le :
    (ss : List Stage)
    → (total is_forwarding ss ≤ total is_counted ss) × (total is_counted ss ≤ total one ss)
unfolding total
total-le [] = ground arith
total-le (arriving ∷ ss) = ground (arith, total-le ss)
total-le (refused ∷ ss) = ground (arith, total-le ss)
total-le (forwarding ∷ ss) = ground (arith, total-le ss)
total-le (gone ∷ ss) = ground (arith, total-le ss)

total-arrivals :
    (n : ℕ)
    → (total is_forwarding (arrivals n) ≡ 0)
      × (total is_counted (arrivals n) ≡ 0)
      × (total one (arrivals n) ≡ n)
unfolding total arrivals
total-arrivals zero = ground arith
total-arrivals (suc n) = ground (arith, total-arrivals n)

-- The counter counts those that are refused or forwarding, at most 16 of them forwarding.
abbrev IsCounted : ℕ → System → Type 0
IsCounted requests s =
    (s.inflight ≡ total is_counted s.stages)
    × (total is_forwarding s.stages ≤ maximum_inflight)
    × (total one s.stages ≡ requests)

-- What IsCounted says of a system with one request looked at, the others summed up.
abbrev IsCountedAt : ℕ → ℕ → Stage → List Stage → List Stage → Type 0
IsCountedAt requests n s xs ys =
    (n ≡ is_counted s + (total is_counted xs + total is_counted ys))
    × (is_forwarding s + (total is_forwarding xs + total is_forwarding ys) ≤ maximum_inflight)
    × (1 + (total one xs + total one ys) ≡ requests)

IsCounted-at_iff :
    (requests n : ℕ) (s : Stage) (xs ys : List Stage)
    → IsCounted requests (record { inflight = n; stages = xs ++ s ∷ ys })
      ↔ IsCountedAt requests n s xs ys
IsCounted-at_iff requests n s xs ys = ground (
  arith,
  total-middle is_counted s xs ys,
  total-middle is_forwarding s xs ys,
  total-middle one s xs ys,
)

enter-IsCountedAt :
    (requests n : ℕ) (xs ys : List Stage)
    → requests < 2 ^ 32
    → IsCountedAt requests n arriving xs ys
    → IsCountedAt requests (fetch_add n) (admit n) xs ys
enter-IsCountedAt requests n xs ys small inv =
    let before = total-le xs in
    let behind = total-le ys in
    elim (Bool-cases (leb maximum_inflight n)) [
      | inl full ↦ rw full ground arith
      | inr free ↦ rw free ground arith
    ]

leave-IsCountedAt :
    (requests n : ℕ) (s : Stage) (xs ys : List Stage)
    → requests < 2 ^ 32
    → is_counted s ≡ 1
    → IsCountedAt requests n s xs ys
    → IsCountedAt requests (fetch_sub n) gone xs ys
leave-IsCountedAt requests n s xs ys small counted inv =
    let before = total-le xs in let behind = total-le ys in ground arith

Step-IsCounted :
    (requests : ℕ) (s t : System)
    → requests < 2 ^ 32
    → Step s t
    → IsCounted requests s
    → IsCounted requests t
Step-IsCounted requests _ _ small (enter n xs ys) inv =
    (IsCounted-at_iff requests (fetch_add n) (admit n) xs ys).1 (
      enter-IsCountedAt requests n xs ys small ((IsCounted-at_iff requests n arriving xs ys).0 inv))
Step-IsCounted requests _ _ small (bounce n xs ys) inv =
    (IsCounted-at_iff requests (fetch_sub n) gone xs ys).1 (
      leave-IsCountedAt requests n refused xs ys small refl
        ((IsCounted-at_iff requests n refused xs ys).0 inv))
Step-IsCounted requests _ _ small (leave n xs ys) inv =
    (IsCounted-at_iff requests (fetch_sub n) gone xs ys).1 (
      leave-IsCountedAt requests n forwarding xs ys small refl
        ((IsCounted-at_iff requests n forwarding xs ys).0 inv))

-- However the steps of fewer than 2^32 requests interleave, the counter is the number of requests
-- that have added themselves and not yet taken themselves back, and at most 16 requests are being
-- forwarded at once.
pub Reach-inflight :
    (requests : ℕ) (s : System)
    → requests < 2 ^ 32
    → Reach requests s
    → (s.inflight ≡ total is_counted s.stages) × (total is_forwarding s.stages ≤ maximum_inflight)
Reach-inflight requests s small r = let inv = reach r in (inv.0, inv.1)
  where
    reach : {t : System} → Reach requests t → IsCounted requests t
    reach start = ground (arith, total-arrivals requests)
    reach (later before step) = Step-IsCounted requests _ _ small step (reach before)
