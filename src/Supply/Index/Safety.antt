-- ===== src/Supply/Index/Safety.antt =====
-- What update_once and the rounds of run keep, whatever the node does between two calls.
use explorer_qwertycoin_org.Base.{
  ℕ, zero, suc, ◌+◌, ◌-◌, ◌≤◌, ◌≡◌, inl, inr, refl, sym, subst, subst₂, ap, min, Bool, true, false,
  not, List, [], ◌∷◌, Option, none, some, Bytes, ltb, ◌==◌, length, same, same_iff, arith,
  Bool-cases,
}
use explorer_qwertycoin_org.Supply.{
  SupplyRecord, back_hash, append_supply_record, rollback_supply_records,
}
use explorer_qwertycoin_org.Supply.Ledger.{
  IsLedger, append-IsLedger, append-inversion, rollback-IsLedger, length-rollback-le,
  length-rollback-le-count,
}
use explorer_qwertycoin_org.Supply.Node.{
  Node, Outcome, done, failed, continue, refuse_if, or_throw, read_record,
}
use explorer_qwertycoin_org.Supply.Index.{
  SupplyIndex, roll_back, extend_to, check_back, gather, hash_during,
}

pub continue-inversion :
    {A B : Type 0} (o : Outcome A) (f : A → ℕ → Outcome B) {b : B} {t : ℕ}
    → continue o f ≡ done b t
    → (a : A) × (t' : ℕ) × (o ≡ done a t') × (f a t' ≡ done b t)
continue-inversion (done a t') f h = (a, t', refl, h)
continue-inversion (failed e t') f h = absurd (cc)

abbrev Gathered : Type 0
Gathered = ℕ × Bytes × List SupplyRecord

done-injective : {A : Type 0} {a b : A} {t u : ℕ} → done a t ≡ done b u → a ≡ b
done-injective h = cc

or_throw-inversion :
    {A : Type 0} (o : Option A) (e : Bytes) (views : ℕ → Node) (t t' : ℕ) {a : A}
    → or_throw o e views t ≡ done a t'
    → (o ≡ some a) × (t ≡ t')
or_throw-inversion none e views t t' h = absurd (cc)
or_throw-inversion (some a) e views t t' h = (cc, cc)

refuse_if-inversion :
    (b : Bool) (e : Bytes) (views : ℕ → Node) (t t' : ℕ) {a : Unit {0}}
    → refuse_if b e views t ≡ done a t'
    → (b ≡ false) × (t ≡ t')
refuse_if-inversion true e views t t' h = absurd (cc)
refuse_if-inversion false e views t t' h = (refl, cc)

pub extend_to_step-inversion :
    (rounds target : ℕ) (rs qs : List SupplyRecord) (views : ℕ → Node) (t t' : ℕ)
    → ltb (length rs) target ≡ true
    → extend_to (suc rounds) target rs views t ≡ done qs t'
    → (r : SupplyRecord) × (more : List SupplyRecord) × (u : ℕ) × (read_record
          (length rs)
          (back_hash rs)
          views
          t
        ≡ done r u)
      × (append_supply_record rs r ≡ some more)
      × (extend_to rounds target more views u ≡ done qs t')
unfolding extend_to
extend_to_step-inversion rounds target rs qs views t t' room e =
    let (r, u, read, next) =
      continue-inversion (read_record (length rs) (back_hash rs) views t) _ (rw room at e) in
    let (more, u', appended, rest) =
      continue-inversion (or_throw (append_supply_record rs r) _ views u) _ next in
    let (taken, same_time) = or_throw-inversion (append_supply_record rs r) _ views u u' appended in
    (
      r,
      more,
      u,
      read,
      taken,
      subst (λ v. extend_to rounds target more views v ≡ done qs t') (sym same_time) rest,
    )

extend_to_full :
    (rounds target : ℕ) (rs : List SupplyRecord) (views : ℕ → Node) (t : ℕ)
    → ltb (length rs) target ≡ false
    → extend_to rounds target rs views t ≡ done rs t
unfolding extend_to
extend_to_full zero target rs views t full = refl
extend_to_full (suc rounds) target rs views t full = rw full

length-append_supply_record :
    (rs qs : List SupplyRecord) (r : SupplyRecord)
    → IsLedger rs
    → append_supply_record rs r ≡ some qs
    → length qs ≡ suc (length rs)
length-append_supply_record rs qs r h e = ap length (append-inversion rs qs r h e).3

-- The back of the list was seen on the chain, at its height, by one of the calls.
abbrev pub BackSeen : (ℕ → Node) → List SupplyRecord → Type 0
BackSeen views [] = Unit {0}
BackSeen views (r ∷ rs) = (t : ℕ) × ((views t).block_id r.height ≡ r.hash)

-- The loop gives a ledger that is as long as was asked for.
extend_to-IsLedger :
    (rounds target : ℕ) (rs qs : List SupplyRecord) (views : ℕ → Node) (t t' : ℕ)
    → IsLedger rs
    → length rs ≤ target
    → target ≤ length rs + rounds
    → extend_to rounds target rs views t ≡ done qs t'
    → IsLedger qs × (length qs ≡ target)
extend_to-IsLedger zero target rs qs views t t' h lo hi e =
    let q : rs ≡ qs = unfold extend_to in cc in (subst IsLedger q h, omega (arith, ap length q))
extend_to-IsLedger (suc rounds) target rs qs views t t' h lo hi e =
    elim (Bool-cases (ltb (length rs) target)) [
      | inl room ↦
          let (r, more, u, read, appended, rest) =
            extend_to_step-inversion rounds target rs qs views t t' room e in
          let longer = length-append_supply_record rs more r h appended in
          extend_to-IsLedger rounds target more qs views u t' (append-IsLedger rs more r h appended)
            (ground arith) (ground arith) rest
      | inr full ↦
          let q : rs ≡ qs = cc (extend_to_full (suc rounds) target rs views t full) in
          (subst IsLedger q h, ground (arith, ap length q))
    ]

check_back-inversion :
    (rs : List SupplyRecord) (views : ℕ → Node) (t t' : ℕ) {a : Unit {0}}
    → check_back rs views t ≡ done a t'
    → BackSeen views rs
unfolding check_back
check_back-inversion [] views t t' e = tt
check_back-inversion (r ∷ rs) views t t' e =
    let (seen, _) =
      refuse_if-inversion (not (same ((views t).block_id r.height) r.hash)) _ views (suc t) t' e in
    (t, ground (arith, same_iff ((views t).block_id r.height) r.hash))

-- What a gathered candidate is: a ledger within the block count that it was read under, at most a
-- batch longer than before, whose back was seen on the chain.
pub record IsGathered (s : SupplyIndex) (views : ℕ → Node) (count : ℕ)
    (candidate : List SupplyRecord) : Type 0 where
  pub ledger : IsLedger candidate
  pub counted : length candidate ≤ count
  pub batched : length candidate ≤ length s.records + s.batch_size
  pub genesis : (t : ℕ) × ((views t).block_id 0 ≡ s.identity.genesis_hash)
  pub back_seen : BackSeen views candidate

-- The candidate that a gathering leaves before its last test.
extended-IsGathered :
    (s : SupplyIndex) (views : ℕ → Node) (t u u' u'' count : ℕ) (candidate : List SupplyRecord)
    → IsLedger s.records
    → (views t).block_id 0 ≡ s.identity.genesis_hash
    → let kept = rollback_supply_records s.records count (hash_during views u (length s.records)) in
      let target = min count (length kept + s.batch_size) in
      extend_to (target - length kept) target kept views u' ≡ done candidate u''
      → BackSeen views candidate
      → IsGathered s views count candidate
extended-IsGathered s views t u u' u'' count candidate h g e b =
    let at = hash_during views u (length s.records) in
    let kept = rollback_supply_records s.records count at in
    let shorter = length-rollback-le s.records count at in
    let within = length-rollback-le-count s.records count at h in
    let target = min count (length kept + s.batch_size) in
    let (ledger, long) =
      extend_to-IsLedger (target - length kept) target kept candidate views u' u''
        (rollback-IsLedger s.records count at h) (omega arith) (omega arith) e in
    record {
      ledger = ledger;
      counted = omega arith;
      batched = omega arith;
      genesis = (t, g);
      back_seen = b;
    }

pub gather-inversion :
    (s : SupplyIndex) (views : ℕ → Node) (t t' count : ℕ) (tip : Bytes)
    (candidate : List SupplyRecord)
    → IsLedger s.records
    → gather s views t ≡ done (count, tip, candidate) t'
    → IsGathered s views count candidate × ((views t).height ≡ count)
unfolding gather roll_back
gather-inversion s views t t' count tip candidate h e =
    let (_, t1, nonempty, e1) =
      continue-inversion (refuse_if ((views t).height == 0) _ views (suc t)) _ e in
    let (_, t2, ok_genesis, e2) =
      continue-inversion
        (refuse_if (not (same ((views t1).block_id 0) s.identity.genesis_hash)) _ views (suc t1)) _
        e1 in
    let kept =
      rollback_supply_records s.records (views t).height
        (hash_during views (suc t2) (length s.records)) in
    let target = min (views t).height (length kept + s.batch_size) in
    let (grown, t3, extends, e3) =
      continue-inversion
        (extend_to (target - length kept) target kept views (suc t2 + length s.records)) _ e2 in
    let (_, t4, seen, e4) = continue-inversion (check_back grown views t3) _ e3 in
    let same_genesis : (views t1).block_id 0 ≡ s.identity.genesis_hash = (same_iff _ _).0 (
      ground (
        arith,
        (refuse_if-inversion (not (same ((views t1).block_id 0) s.identity.genesis_hash)) _ views
            (suc t1) t2 ok_genesis).0,
      )) in
    let gathered =
      extended-IsGathered s views t1 (suc t2) (suc t2 + length s.records) t3 (views t).height grown
        h same_genesis extends (check_back-inversion grown views t3 t4 seen) in
    let value = done-injective e4 in
    (
      subst₂ (IsGathered s views) (ap (λ (x : Gathered). x.0) value)
          (ap (λ (x : Gathered). x.2) value) gathered,
      ap (λ (x : Gathered). x.0) value,
    )
