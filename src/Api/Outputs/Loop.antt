-- ===== src/Api/Outputs/Loop.antt =====
-- The loop of json_outputsblocks of src/page.h: which blocks it looks at, and that it ends.
use explorer_qwertycoin_org.Base.{
  ℕ, zero, suc, ◌+◌, ◌-◌, ◌≤◌, ◌<◌, true, false, List, [], ◌∷◌, Option, none, some, Bytes, leb,
  if-elim, sub64, ◌≡◌, ◌≢◌, refl, sym, ap, subst, arith, u64_max, u64_mod, All, All-append,
  Bool-cases, inl, inr,
}
use explorer_qwertycoin_org.Api.{
  Node, Query, Answer, success, refused, continue, get_block_by_height,
}
use explorer_qwertycoin_org.Api.Laws.{Yields, Yields-success, Yields-bind, Yields-any}
use explorer_qwertycoin_org.Api.Outputs.{Crypto, OurOutput, prepend, block_outputs, outputs_loop}
use explorer_qwertycoin_org.Api.Outputs.Origin.{IsFrom, block_outputs-IsFrom}

continue-ext :
    {A B : Type 0} (o : Answer A) (f g : A → ℕ → Answer B)
    → ((a : A) (t : ℕ) → f a t ≡ g a t)
    → continue o f ≡ continue o g
continue-ext (success a t) f g h = h a t
continue-ext (refused e t) f g h = refl

module _ (crypto : Crypto) where
  -- A run of the loop that has ended, with what it found in blocks from the first to a last one.
  abbrev pub Ended : ℕ → ℕ → Option (List OurOutput) → Type 0
  Ended start last none = ⊥
  Ended start last (some os) =
      All (λ (o : OurOutput). (start ≤ o.block_no) × (o.block_no ≤ last) × (o.in_mempool ≡ false))
        os

  IsFrom-within :
      (start last n : ℕ) (os : List OurOutput)
      → start ≤ n
      → n ≤ last
      → All (IsFrom n false) os
      → All
          (λ (o : OurOutput). (start ≤ o.block_no) × (o.block_no ≤ last) × (o.in_mempool ≡ false))
          os
  IsFrom-within start last n [] lo hi h = tt
  IsFrom-within start last n (o ∷ os) lo hi h =
      ((omega (arith, h.0), omega (arith, h.0), h.0.1), IsFrom-within start last n os lo hi h.1)

  prepend-Ended :
      (start last : ℕ) (here : List OurOutput) (more : Option (List OurOutput))
      → All
          (λ (o : OurOutput). (start ≤ o.block_no) × (o.block_no ≤ last) × (o.in_mempool ≡ false))
          here
      → Ended start last more
      → Ended start last (prepend crypto here more)
  prepend-Ended start last here none h rest = rest
  prepend-Ended start last here (some more) h rest = All-append _ here more h rest

  pub outputs_loop-Ended :
      (fuel : ℕ) (spend_key view_key : Bytes) (start last n : ℕ) (views : ℕ → Node) (t : ℕ)
      → 0 < start
      → 0 < fuel
      → n + 1 < start + fuel
      → n ≤ last
      → n < u64_mod
      → Yields
          (λ o u. Ended start last o)
          (outputs_loop crypto fuel spend_key view_key start n views t)
  unfolding outputs_loop
  outputs_loop-Ended zero spend_key view_key start last n views t pos some_fuel enough le small =
      absurd (omega arith)
  outputs_loop-Ended (suc fuel) spend_key view_key start last n views t pos some_fuel enough le
        small =
      let Q = λ (o : Option (List OurOutput)) (u : ℕ). Ended start last o in
      if-elim (λ (m : Query (Option (List OurOutput))). Yields Q (m views t)) (leb start n)
        (λ inside.
          let lo : start ≤ n = ground (arith, inside) in
          let before : sub64 n 1 ≡ n - 1 = omega arith in
          Yields-bind Q (λ os u. All (IsFrom n false) os)
            (block_outputs crypto spend_key view_key n views t) _
            (block_outputs-IsFrom crypto spend_key view_key n views t)
            λ here u found.
              Yields-bind Q Q
                (outputs_loop crypto fuel spend_key view_key start (sub64 n 1) views u) _
                (rw (before) (
                  outputs_loop-Ended fuel spend_key view_key start last (n - 1) views u pos
                    (omega arith) (omega arith) (omega arith) (omega arith)))
                λ more v rest.
                  prepend-Ended start last here more (IsFrom-within start last n here lo le found)
                    rest)
        (λ outside. tt)

  block_outputs-absent :
      (spend_key view_key : Bytes) (block_no : ℕ) (views : ℕ → Node) (t : ℕ)
      → (views t).db_block block_no ≡ none
      → Yields (λ os u. ⊥) (block_outputs crypto spend_key view_key block_no views t)
  unfolding block_outputs get_block_by_height
  block_outputs-absent spend_key view_key block_no views t gone = rw (gone) tt

  -- From the first block 0 the counter passes below 0 and the loop runs into a block that is not
  -- there.
  pub outputs_loop-zero :
      (fuel : ℕ) (spend_key view_key : Bytes) (n : ℕ) (views : ℕ → Node) (t : ℕ)
      → n + 1 < fuel
      → n < u64_mod
      → ((u : ℕ) → (views u).db_block u64_max ≡ none)
      → Yields (λ o u. ⊥) (outputs_loop crypto fuel spend_key view_key 0 n views t)
  unfolding outputs_loop
  outputs_loop-zero zero spend_key view_key n views t enough small absent = absurd (omega arith)
  outputs_loop-zero (suc zero) spend_key view_key n views t enough small absent =
      absurd (omega arith)
  outputs_loop-zero (suc (suc fuel)) spend_key view_key zero views t enough small absent =
      let Q = λ (o : Option (List OurOutput)) (u : ℕ). ⊥ in
      Yields-bind Q (λ os u. Unit {0}) (block_outputs crypto spend_key view_key 0 views t) _
        (Yields-any _)
        λ here u _.
          Yields-bind Q Q (outputs_loop crypto (suc fuel) spend_key view_key 0 u64_max views u) _
            (Yields-bind Q (λ os v. ⊥) (block_outputs crypto spend_key view_key u64_max views u) _
              (block_outputs-absent spend_key view_key u64_max views u (absent u))
              (λ os v x. absurd x))
            (λ o v x. x)
  outputs_loop-zero (suc (suc fuel)) spend_key view_key (suc n) views t enough small absent =
      let Q = λ (o : Option (List OurOutput)) (u : ℕ). ⊥ in
      let before : sub64 (suc n) 1 ≡ n = omega arith in
      let inside : leb 0 (suc n) ≡ true = ground arith in
      rw (inside) (
        Yields-bind Q (λ os u. Unit {0}) (block_outputs crypto spend_key view_key (suc n) views t) _
          (Yields-any _)
          λ here u _.
            Yields-bind Q Q
              (outputs_loop crypto (suc fuel) spend_key view_key 0 (sub64 (suc n) 1) views u) _
              (subst (λ b. Yields Q (outputs_loop crypto (suc fuel) spend_key view_key 0 b views u))
                (sym before)
                (outputs_loop-zero (suc fuel) spend_key view_key n views u (omega arith)
                  (omega arith) absent))
              (λ o v x. x))

  outputs_loop-enough :
      (f g : ℕ) (spend_key view_key : Bytes) (start n : ℕ) (views : ℕ → Node) (t : ℕ)
      → 0 < start
      → 0 < f
      → 0 < g
      → n + 1 < start + f
      → n + 1 < start + g
      → n < u64_mod
      → outputs_loop crypto f spend_key view_key start n views t
        ≡ outputs_loop crypto g spend_key view_key start n views t
  unfolding outputs_loop
  outputs_loop-enough zero g spend_key view_key start n views t pos pf pg ef eg small =
      absurd (omega arith)
  outputs_loop-enough (suc f) zero spend_key view_key start n views t pos pf pg ef eg small =
      absurd (omega arith)
  outputs_loop-enough (suc f) (suc g) spend_key view_key start n views t pos pf pg ef eg small =
      elim (Bool-cases (leb start n)) [
        | inr outside ↦ rw (outside) refl
        | inl inside ↦
            let lo : start ≤ n = ground (arith, inside) in
            let before : sub64 n 1 ≡ n - 1 = omega arith in
            rw (inside) (
              continue-ext (block_outputs crypto spend_key view_key n views t) _ _ λ here u.
                ap (λ o. continue o (λ more v. success (prepend crypto here more) v))
                  (subst
                    (λ b.
                      outputs_loop crypto f spend_key view_key start b views u
                      ≡ outputs_loop crypto g spend_key view_key start b views u)
                    (sym before)
                    (outputs_loop-enough f g spend_key view_key start (n - 1) views u pos
                      (omega arith) (omega arith) (omega arith) (omega arith) (omega arith))))
      ]

  -- From a first block above 0, from any block below 2^64 and with fuel for the blocks between and
  -- one round more, the loop of json_outputsblocks ends: it does not run out of fuel, and more or
  -- less fuel of that size gives the same answer.
  pub outputs_loop-ends :
      (f g : ℕ) (spend_key view_key : Bytes) (start n : ℕ) (views : ℕ → Node) (t : ℕ)
      → 0 < start
      → 0 < f
      → 0 < g
      → n + 1 < start + f
      → n + 1 < start + g
      → n < u64_mod
      → (outputs_loop crypto f spend_key view_key start n views t
          ≡ outputs_loop crypto g spend_key view_key start n views t)
        × ((u : ℕ) → outputs_loop crypto f spend_key view_key start n views t ≢ success none u)
  outputs_loop-ends f g spend_key view_key start n views t pos pf pg ef eg small = (
    outputs_loop-enough f g spend_key view_key start n views t pos pf pg ef eg small,
    λ u e.
        Yields-success (λ o v. Ended start n o) _ e
          (outputs_loop-Ended f spend_key view_key start n n views t pos pf ef (omega arith) small),
  )
