-- ===== src/Api/Laws.antt =====
-- How what holds of a successful answer follows from what holds of the calls that it came from.
use explorer_qwertycoin_org.Base.{ℕ, Bool, true, false, Option, none, some, ◌≡◌, refl, subst}
use explorer_qwertycoin_org.Api.{
  Node, Answer, success, refused, Refusal, continue, or_refuse, refuse_if,
}

-- A predicate holds of the value and of the next view's number of an answer, if it is a success.
abbrev pub Yields : {A : Type 0} → (A → ℕ → Type 0) → Answer A → Type 0
Yields Q (success a t) = Q a t
Yields Q (refused e t) = Unit {0}

module _ {A : Type 0} (Q : A → ℕ → Type 0) where
  pub Yields-success : (o : Answer A) {a : A} {t : ℕ} → o ≡ success a t → Yields Q o → Q a t
  Yields-success o e h = subst (Yields Q) e h

  pub Yields-intro : (o : Answer A) → ((a : A) (t : ℕ) → o ≡ success a t → Q a t) → Yields Q o
  Yields-intro (success a t) h = h a t refl
  Yields-intro (refused e t) h = tt

  pub Yields-mono :
      (P : A → ℕ → Type 0) (o : Answer A)
      → Yields P o
      → ((a : A) (t : ℕ) → P a t → Q a t)
      → Yields Q o
  Yields-mono P (success a t) h keep = keep a t h
  Yields-mono P (refused e t) h keep = tt

  pub Yields-continue :
      {B : Type 0} (o : Answer B) (f : B → ℕ → Answer A)
      → Yields (λ b t. Yields Q (f b t)) o
      → Yields Q (continue o f)
  Yields-continue (success b t) f h = h
  Yields-continue (refused e t) f h = tt

  -- A call whose yield is known, and the rest.
  pub Yields-bind :
      {B : Type 0} (P : B → ℕ → Type 0) (o : Answer B) (f : B → ℕ → Answer A)
      → Yields P o
      → ((b : B) (t : ℕ) → P b t → Yields Q (f b t))
      → Yields Q (continue o f)
  Yields-bind P (success b t) f h rest = rest b t h
  Yields-bind P (refused e t) f h rest = tt

  pub Yields-or_refuse :
      {B : Type 0} (o : Option B) (e : Refusal) (views : ℕ → Node) (t : ℕ) (f : B → ℕ → Answer A)
      → ((b : B) → o ≡ some b → Yields Q (f b t))
      → Yields Q (continue (or_refuse o e views t) f)
  Yields-or_refuse none e views t f rest = tt
  Yields-or_refuse (some b) e views t f rest = rest b refl

  pub Yields-refuse_if :
      (b : Bool) (e : Refusal) (views : ℕ → Node) (t : ℕ) (f : Unit {0} → ℕ → Answer A)
      → (b ≡ false → Yields Q (f tt t))
      → Yields Q (continue (refuse_if b e views t) f)
  Yields-refuse_if true e views t f rest = tt
  Yields-refuse_if false e views t f rest = rest refl

-- Any predicate holds of what comes out of a call, where that is all that is known.
pub Yields-any : {A : Type 0} (o : Answer A) → Yields (λ a t. Unit {0}) o
Yields-any (success a t) = tt
Yields-any (refused e t) = tt
