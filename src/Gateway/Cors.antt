-- ===== src/Gateway/Cors.antt =====
-- The Origin that the wallet_rpc_handler of main.cpp lets a browser read the response from.
use explorer_qwertycoin_org.Base.{
  subst, ℕ, zero, suc, ◌+◌, ◌-◌, ◌≤◌, ◌<◌, Bool, true, false, ◌&&◌, ◌||◌, [], ◌∷◌, ◌++◌, ◌≡◌, ltb,
  ◌==◌, ==_iff, if◌then◌else◌, length, arith, refl, Bool-cases, inl, inr, Option, none, some, Bytes,
  append-nil, subst, codes, same, same_iff, take, drop, take-append-drop, length-take, ◌⊎◌, ap, sym,
  ◌∙◌, ltb→lt, Option-cases,
}

-- `rfind(needle, 0) == 0`.
unfoldable pub starts_with : Bytes → Bytes → Bool
starts_with [] s = true
starts_with (c ∷ cs) [] = false
starts_with (c ∷ cs) (d ∷ ds) = c == d && starts_with cs ds

-- std::string::find; `none` is npos.
unfoldable pub find : Bytes → Bytes → Option ℕ
find needle [] = if starts_with needle [] then some 0 else none
find needle (d ∷ ds) =
    let rest = find needle ds in
    if starts_with needle (d ∷ ds)
    then some 0
    else elim rest [ none ↦ none | some k ↦ some (suc k) ]

unfoldable pub is_found_at : Option ℕ → ℕ → Bool
is_found_at none n = false
is_found_at (some k) n = k == n

unfoldable pub is_allowed_origin : Bytes → Bool
is_allowed_origin origin =
    same origin (codes "https://wallet.qwertycoin.org")
    || (ltb 18 (length origin)
        && starts_with (codes "https://") origin
        && is_found_at (find (codes ".pages.dev") origin) (length origin - 10))

starts_with-append : (p s : Bytes) → starts_with p s ≡ true → p ++ drop (length p) s ≡ s
unfolding starts_with
starts_with-append [] s h = refl
starts_with-append (c ∷ cs) [] h = ground arith
starts_with-append (c ∷ cs) (d ∷ ds) h = ground (arith, starts_with-append cs ds)

find-starts_with : (p s : Bytes) (k : ℕ) → find p s ≡ some k → starts_with p (drop k s) ≡ true
unfolding find
find-starts_with p [] k h = elim (Bool-cases (starts_with p [])) [
  | inl here ↦ ground (arith, here, h)
  | inr other ↦ ground (arith, other, h)
]
find-starts_with p (d ∷ ds) k h = elim (Bool-cases (starts_with p (d ∷ ds))) [
  | inl here ↦ ground (arith, here, h)
  | inr other ↦ elim (Option-cases (find p ds)) [
    | inl missing ↦ ground (arith, other, missing, h)
    | inr (j, found) ↦
        let at : suc j ≡ k = ground (arith, other, found, h) in
        subst (λ i. starts_with p (drop i (d ∷ ds)) ≡ true) at (find-starts_with p ds j found)
  ]
]

length-drop : (n : ℕ) (s : Bytes) → length (drop n s) ≡ length s - n
length-drop zero s = omega arith
length-drop (suc n) [] = omega arith
length-drop (suc n) (x ∷ xs) = omega (arith, length-drop n xs)

nil_lem : (s : Bytes) → length s ≡ 0 → s ≡ []
nil_lem [] h = refl
nil_lem (x ∷ xs) h = absurd (omega arith)

-- A text that stands where exactly its length is left is the whole rest.
suffix_lem :
    (p s : Bytes) (k : ℕ)
    → starts_with p (drop k s) ≡ true
    → length s ≡ k + length p
    → take k s ++ p ≡ s
suffix_lem p s k h e =
    let whole = starts_with-append p (drop k s) h in
    let nothing =
      nil_lem (drop (length p) (drop k s))
        (omega (arith, length-drop (length p) (drop k s), length-drop k s)) in
    let rest : drop k s ≡ p = sym whole ∙ (ap (λ r. p ++ r) nothing ∙ append-nil p) in
    ap (λ r. take k s ++ r) (sym rest) ∙ take-append-drop k s

drop-nil : (n : ℕ) → ◌≡◌ {A = Bytes} (drop n []) []
drop-nil zero = refl
drop-nil (suc n) = refl

drop-drop : (n k : ℕ) (s : Bytes) → n ≤ k → drop (k - n) (drop n s) ≡ drop k s
drop-drop zero k s h = let e : k - 0 ≡ k = omega arith in rw (e) refl
drop-drop (suc n) zero s h = absurd (omega arith)
drop-drop (suc n) (suc k) [] h = drop-nil (suc k - suc n)
drop-drop (suc n) (suc k) (x ∷ xs) h =
    let e : suc k - suc n ≡ k - n = omega arith in rw (e) (drop-drop n k xs (omega arith))

middle_lem :
    (p q s : Bytes) (k : ℕ)
    → starts_with p s ≡ true
    → starts_with q (drop k s) ≡ true
    → length s ≡ k + length q
    → length p < k
    → (name : Bytes) × (0 < length name) × (p ++ (name ++ q) ≡ s)
middle_lem p q s k front behind e longer =
    let whole = starts_with-append p s front in
    let back =
      suffix_lem q (drop (length p) s) (k - length p)
        (rw (drop-drop (length p) k s (omega arith)) behind)
        (omega (arith, length-drop (length p) s)) in
    (
      take (k - length p) (drop (length p) s),
      omega (arith, length-take (k - length p) (drop (length p) s), length-drop (length p) s),
      ap (λ r. p ++ r) back ∙ whole,
    )

is_found_at-some : (o : Option ℕ) (n : ℕ) → is_found_at o n ≡ true → o ≡ some n
unfolding is_found_at
is_found_at-some none n h = ground arith
is_found_at-some (some k) n h = ground (arith, ==_iff k n)

ends_lem :
    (p q s : Bytes)
    → length p + length q < length s
    → starts_with p s ≡ true
    → is_found_at (find q s) (length s - length q) ≡ true
    → (name : Bytes) × (0 < length name) × (p ++ (name ++ q) ≡ s)
ends_lem p q s longer front behind =
    let found = is_found_at-some (find q s) (length s - length q) behind in
    middle_lem p q s (length s - length q) front (find-starts_with q s (length s - length q) found)
      (omega arith) (omega arith)

-- An origin that may read the response is the wallet's own, or an https origin of a host that ends
-- in ".pages.dev" with something before it.
pub is_allowed_origin_sound :
    (origin : Bytes)
    → is_allowed_origin origin ≡ true
    → (origin ≡ codes "https://wallet.qwertycoin.org")
      ⊎ ((name : Bytes) × (0 < length name)
          × (codes "https://" ++ (name ++ codes ".pages.dev") ≡ origin))
unfolding is_allowed_origin
is_allowed_origin_sound origin h =
    elim (Bool-cases (same origin (codes "https://wallet.qwertycoin.org"))) [
      | inl own ↦ inl ((same_iff origin (codes "https://wallet.qwertycoin.org")).0 own)
      | inr other ↦
          let parts : (18 < length origin)
              × (starts_with (codes "https://") origin ≡ true)
              × (is_found_at (find (codes ".pages.dev") origin) (length origin - 10) ≡ true) =
            ground (arith, other, h, ltb→lt 18 (length origin)) in
          inr (ends_lem (codes "https://") (codes ".pages.dev") origin parts.0 parts.1 parts.2)
    ]
