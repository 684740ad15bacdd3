-- ===== src/Observer/Overview/Cached.antt =====
-- What json_overview answers from its cache and anew, and what it leaves in the cache.
use explorer_qwertycoin_org.Base.{
  ℕ, ◌+◌, ◌≤◌, ◌<◌, true, Option, none, some, Bytes, ◌≡◌, refl, sym, subst, ap, arith, inl, inr,
  ◌⊎◌, if-elim, ◌∙◌,
}
use explorer_qwertycoin_org.Api.{Node, Query, Answer, success, refused, fail, error, thrown}
use explorer_qwertycoin_org.Api.Laws.{Yields, Yields-success, Yields-bind, Yields-any}
use explorer_qwertycoin_org.Observer.{
  Shared, NetworkJson, EmissionJson, json_networkinfo, json_emission,
}
use explorer_qwertycoin_org.Observer.Overview.{
  OverviewData, Overview, ready, unavailable, OverviewCache, attempt, overview_data, conclude,
  not_there, from_pages, new_overview, is_fresh, or_fresh, json_overview,
}
use explorer_qwertycoin_org.Observer.Overview.Anchored.{IsOverview, overview_data-IsOverview}

-- A cached success was made at the time that it is kept with.
abbrev pub IsCoherent : Option OverviewCache → Type 0
IsCoherent none = Unit {0}
IsCoherent (some e) = (d : OverviewData) → e.response ≡ ready d → d.rendered_at_unix ≡ e.time

ready_injective : {a b : OverviewData} → ready a ≡ ready b → a ≡ b
ready_injective e = cc

module _ (shared : Shared) (views : ℕ → Node) (k now : ℕ) (cache : Option OverviewCache) where
  -- What a request answers and leaves. A success is at most 5 seconds old: it is cached, or new and
  -- then the cache. An error leaves the cache, or stands in it because a page was missing.
  abbrev pub Shown : Overview × Option OverviewCache → ℕ → Type 0
  Shown (r, left) u =
      IsCoherent left
      × ((d : OverviewData)
          → r ≡ ready d
          → (d.rendered_at_unix ≤ now)
            × (now < d.rendered_at_unix + 5)
            × (((left ≡ cache) × (e : OverviewCache) × (cache ≡ some e) × (e.response ≡ r))
                ⊎ (IsOverview shared views k d u
                    × (left ≡ some (record { response = r; time = now })))))
      × ((e : Bytes)
          → r ≡ unavailable e
          → (left ≡ cache) ⊎ (left ≡ some (record { response = r; time = now })))

  conclude-Shown :
      (o : Answer OverviewData)
      → IsCoherent cache
      → Yields (λ d u. IsOverview shared views k d u × (d.rendered_at_unix ≡ now)) o
      → Yields Shown (conclude shared now cache o)
  conclude-Shown (success d t) kept (held, dated) = (
    (λ d' e. ap (λ (x : OverviewData). x.rendered_at_unix) (sym (ready_injective e)) ∙ dated),
    (λ d' e.
        subst
          (λ (x : OverviewData).
            (x.rendered_at_unix ≤ now)
            × (now < x.rendered_at_unix + 5)
            × (((some (record { response = ready d; time = now }) ≡ cache)
                  × (e : OverviewCache) × (cache ≡ some e)
                  × (e.response ≡ ready d))
                ⊎ (IsOverview shared views k x t
                    × (◌≡◌ {A = Option OverviewCache}
                        (some (record { response = ready d; time = now }))
                        (some (record { response = ready d; time = now }))))))
          (ready_injective e) (omega (arith, dated), omega (arith, dated), inr (held, refl))),
    λ e h. absurd (cc),
  )
  conclude-Shown (refused thrown t) kept h = tt
  conclude-Shown (refused (fail e) t) kept h = (kept, (λ d h'. absurd (cc)), λ e' h'. inl refl)
  conclude-Shown (refused (error e) t) kept h = (kept, (λ d h'. absurd (cc)), λ e' h'. inl refl)

  not_there-Shown : (u : ℕ) → Shown (not_there shared now) u
  not_there-Shown u = ((λ d h. absurd (cc)), (λ d h. absurd (cc)), λ e h. inr refl)

  from_pages-Shown :
      (network : Option NetworkJson) (supply : Option EmissionJson) (t : ℕ)
      → IsCoherent cache
      → Yields Shown (from_pages shared k now cache network supply views t)
  from_pages-Shown none supply t kept = not_there-Shown t
  from_pages-Shown (some network) none t kept = not_there-Shown t
  from_pages-Shown (some network) (some supply) t kept =
      conclude-Shown (overview_data shared k now network supply views t) kept
        (overview_data-IsOverview shared k now network supply views t)

  new_overview-Shown :
      (t : ℕ) → IsCoherent cache → Yields Shown (new_overview shared k now cache views t)
  unfolding new_overview
  new_overview-Shown t kept =
      Yields-bind Shown (λ o u. Unit {0}) (attempt (json_networkinfo shared) views t) _
        (Yields-any _)
        λ network u _.
          Yields-bind Shown (λ o w. Unit {0}) (attempt (json_emission shared) views u) _
            (Yields-any _) λ supply w _. from_pages-Shown network supply w kept

cached-Shown :
    (shared : Shared) (views : ℕ → Node) (k now : ℕ) (e : OverviewCache) (t : ℕ)
    → IsCoherent (some e)
    → is_fresh shared now e ≡ true
    → Shown shared views k now (some e) (e.response, some e) t
cached-Shown shared views k now e t kept young = (
  kept,
  (λ d r.
      let dated : d.rendered_at_unix ≡ e.time = kept d r in
      (ground (arith, dated, young), ground (arith, dated, young), inl (refl, e, refl, refl))),
  λ m h. inl refl,
)

or_fresh-Shown :
    (shared : Shared) (views : ℕ → Node) (k now : ℕ) (cache : Option OverviewCache) (t : ℕ)
    → IsCoherent cache
    → Yields (Shown shared views k now cache) (or_fresh shared k now cache views t)
or_fresh-Shown shared views k now none t kept = new_overview-Shown shared views k now none t kept
or_fresh-Shown shared views k now (some e) t kept =
    if-elim
      (λ (m : Query (Overview × Option OverviewCache)).
        Yields (Shown shared views k now (some e)) (m views t))
      (is_fresh shared now e) (cached-Shown shared views k now e t kept)
      (λ old. new_overview-Shown shared views k now (some e) t kept)

-- From a coherent cache, json_overview leaves one. A success is less than 5 seconds old, and is the
-- cached one or is new and cached; a new one shows the top blocks of the chain and no others, at
-- most 25, each with the plain sum of the fees of all its transactions, and between its rows and the
-- pool it reads, the node still had the height and the tip that it names. An error is cached only
-- at the time it is made, or leaves the cache.
pub json_overview-Shown :
    (shared : Shared) (k now : ℕ) (cache left : Option OverviewCache) (views : ℕ → Node) (t t' : ℕ)
    (r : Overview)
    → IsCoherent cache
    → json_overview shared k now cache views t ≡ success (r, left) t'
    → Shown shared views k now cache (r, left) t'
unfolding json_overview
json_overview-Shown shared k now cache left views t t' r kept h =
    Yields-success (Shown shared views k now cache) _ h
      (or_fresh-Shown shared views k now cache t kept)
