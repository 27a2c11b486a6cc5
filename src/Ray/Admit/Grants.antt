-- ===== src/Ray/Admit/Grants.antt =====
-- What an admission does to the grants, and what any number of them add up to.
use purdue_af.Common.{
  ℕ, ◌+◌, ◌*◌, ◌≤◌, String, ◌≡◌, refl, ◌⊎◌, inl, inr, false, none, some, List, [], ◌∷◌, arith,
  str_eq, ltb, ◌==◌, if◌then◌else◌, Bool-cases, All, ap, ◌∙◌,
}
use purdue_af.Common.Exec.{ok, err}
use purdue_af.Common.Dict.{
  Dict, get, put, remove, merge, total, get-put, total-put, total-remove-le,
}
use purdue_af.Ray.Base.{Flavor, Shape, Refusal, refused, unavailable, resource_exhausted, flavors}
use purdue_af.Ray.Admit.{
  Market, Supply, Grant, Answers, ListedCluster, count_of, supply_of, gpus_in, workers_of, mix_of,
  unexpired, gpus_only, granted_to_others, taken, times, market, admit,
}
use purdue_af.Ray.Admit.Mix.{workers-mix_of-le, mix_of-Fits}
use purdue_af.Ray.Admit.Outage.{AreDistinct, mix_of-within}

-- The GPUs of a resource that the grants count as taken.
abbrev pub granted : String → Dict Grant → ℕ
granted r = total (λ g. count_of r g.gpus)

module _ (all : List Flavor) (grant_ms : ℕ) (a : Answers) (shape : Shape) (replaced : Dict ℕ)
    (name : String) (grants : Dict Grant) where
  abbrev pub the_market : Market
  the_market = market all a shape replaced name grants

  abbrev pub the_mix : Dict ℕ
  the_mix = mix_of (market all a shape replaced name grants) (flavors all shape)

  abbrev pub grant_of : Dict ℕ → Grant
  grant_of mix = record { gpus = times shape.per_worker mix; until = a.now + grant_ms }

  -- Every result of an admission: admitted, short of GPUs, or Kubernetes did not answer.
  admit-cases :
      ((ltb (workers_of the_mix) shape.least ≡ false)
        × (admit all grant_ms a shape replaced name grants
            ≡ (ok the_mix, put name (grant_of the_mix) (unexpired a.now grants))))
      ⊎ ((r : Refusal) × (grants' : Dict Grant) × (admit all grant_ms a shape replaced name grants
            ≡ (err r, grants'))
          × ((grants' ≡ grants) ⊎ (grants' ≡ unexpired a.now grants)))
  unfolding admit
  admit-cases = elim (Bool-cases (a.status == 200)) [
    | inr e ↦
        inr (refused unavailable "Kubernetes did not list the Ray clusters", grants, rw e, inl refl)
    | inl e ↦ elim (Bool-cases (ltb (workers_of the_mix) shape.least)) [
      | inl t ↦ inr (
        refused resource_exhausted "fewer GPUs are free than it starts with",
        unexpired a.now grants,
        rw (e, t),
        inr refl,
      )
      | inr t ↦ inl (t, rw (e, t))
    ]
  ]

  -- If a shape asks for a worker or more and the admission succeeds, the mix has at least the
  -- workers it starts with and at most those it asks for; its own grant is the mix's GPUs until the
  -- grant's time, and every other name has its unexpired grant.
  pub admit-bounds :
      (mix : Dict ℕ) (grants' : Dict Grant)
      → 1 ≤ shape.workers
      → admit all grant_ms a shape replaced name grants ≡ (ok mix, grants')
      → (shape.least ≤ workers_of mix)
        × (workers_of mix ≤ shape.workers)
        × ((c : String)
            → get c grants'
              ≡ (if str_eq name c then some (grant_of mix) else get c (unexpired a.now grants)))
  unfolding market
  admit-bounds mix grants' w e = elim admit-cases [
    | inr (r, g, p, q) ↦ cc
    | inl (t, p) ↦
        let same : the_mix ≡ mix = cc in
        let stored : put name (grant_of the_mix) (unexpired a.now grants) ≡ grants' = cc in
        rw (← same, ← stored)
          (
            ground (arith, t),
            workers-mix_of-le the_market (flavors all shape) w,
            λ c. get-put name c (grant_of the_mix) (unexpired a.now grants),
          )
  ]

  -- While Prometheus does not answer, each GPU kind's workers, with what the other grants and the
  -- listed clusters hold, are within the kind's budget, or there are none.
  pub admit_outage :
      (mix : Dict ℕ) (grants' : Dict Grant)
      → a.free ≡ none
      → AreDistinct (flavors all shape)
      → admit all grant_ms a shape replaced name grants ≡ (ok mix, grants')
      → All
          (λ f.
            (count_of f.resource mix ≡ 0)
            ⊎ (count_of f.resource mix * shape.per_worker
                  + gpus_in f.resource (merge the_market.granted the_market.others)
                ≤ f.budget))
          (flavors all shape)
  unfolding market
  admit_outage mix grants' silent d e = elim admit-cases [
    | inr (r, g, p, q) ↦ cc
    | inl (t, p) ↦
        let same : the_mix ≡ mix = cc in
        rw (← same) (mix_of-within the_market silent (flavors all shape) d)
  ]

gpus_in-gpus_only : (r : String) (gs : Dict Grant) → gpus_in r (gpus_only gs) ≡ granted r gs
unfolding gpus_only total
gpus_in-gpus_only r [] = refl
gpus_in-gpus_only r ((c, g) ∷ gs) = omega (arith, gpus_in-gpus_only r gs)

granted-unexpired-le :
    (r : String) (now : ℕ) (gs : Dict Grant) → granted r (unexpired now gs) ≤ granted r gs
unfolding unexpired total
granted-unexpired-le r now [] = omega arith
granted-unexpired-le r now ((c, g) ∷ gs) = ground (arith, granted-unexpired-le r now gs)

count-times : (r : String) (p : ℕ) (mix : Dict ℕ) → count_of r (times p mix) ≡ count_of r mix * p
unfolding times get
count-times r p [] = omega arith
count-times r p ((k, n) ∷ mix) = elim (Bool-cases (str_eq k r)) [
  | inl e ↦ rw e
  | inr e ↦ rw e (count-times r p mix)
]

granted-put :
    (r name : String) (p until : ℕ) (mix : Dict ℕ) (gs : Dict Grant)
    → granted r (put name (record { gpus = times p mix; until = until }) gs)
      ≡ count_of r mix * p + granted r (remove name gs)
granted-put r name p until mix gs =
    total-put (λ g. count_of r g.gpus) name (record { gpus = times p mix; until = until }) gs
    ∙ ap (λ (k : ℕ). k + granted r (remove name gs)) (count-times r p mix)

-- One request for GPUs, with those that the cluster it replaces holds, and what Kubernetes answers.
pub record Request : Type 0 where
  pub shape : Shape
  pub replaced : Dict ℕ
  pub name : String
  pub status : ℕ
  pub listing : List ListedCluster
  pub now : ℕ

within :
    (n p rest limit more most : ℕ)
    → rest ≤ limit + most
    → more ≤ most
    → (n ≡ 0) ⊎ (n * p + rest ≤ limit + more)
    → n * p + rest ≤ limit + most
within n p rest limit more most h le (inl e) = rw e (omega arith)
within n p rest limit more most h le (inr k) = omega arith

-- Admissions in a row, all of which hear the same of Prometheus, as it lags behind them.
module _ (all : List Flavor) (grant_ms : ℕ) (free : Dict Supply) where
  abbrev pub limit_of : String → ℕ
  limit_of r = (supply_of r free).unheld + (supply_of r free).preemptible

  abbrev pub answers_of : Request → Answers
  answers_of q = record { status = q.status; listing = q.listing; free = some free; now = q.now }

  unfoldable pub admit_all : List Request → Dict Grant → Dict Grant
  admit_all [] grants = grants
  admit_all (q ∷ qs) grants =
      admit_all qs (admit all grant_ms (answers_of q) q.shape q.replaced q.name grants).1

  fits :
      (q : Request) (r : String) (most : ℕ) (grants : Dict Grant)
      → count_of r q.replaced ≤ most
      → granted r grants ≤ limit_of r + most
      → granted r (
          put q.name
            (grant_of all grant_ms
              (answers_of q)
              q.shape
              q.replaced
              q.name
              grants
              (the_mix all grant_ms (answers_of q) q.shape q.replaced q.name grants))
            (unexpired q.now grants))
        ≤ limit_of r + most
  unfolding market granted_to_others taken get
  fits q r most grants le h =
      let live = unexpired q.now grants in
      let mix = the_mix all grant_ms (answers_of q) q.shape q.replaced q.name grants in
      let m = market all (answers_of q) q.shape q.replaced q.name grants in
      rw (granted-put r q.name q.shape.per_worker (q.now + grant_ms) mix live) (
        within (count_of r mix) q.shape.per_worker (granted r (remove q.name live)) (limit_of r)
          (count_of r q.replaced) most
          (omega (
            arith,
            total-remove-le (λ (g : Grant). count_of r g.gpus) q.name live,
            granted-unexpired-le r q.now grants,
          ))
          le
          (rw (gpus_in-gpus_only r (remove q.name live)) at
            (mix_of-Fits m free refl (flavors all q.shape) r)))

  admit-within :
      (q : Request) (r : String) (most : ℕ) (grants : Dict Grant)
      → count_of r q.replaced ≤ most
      → granted r grants ≤ limit_of r + most
      → granted r (admit all grant_ms (answers_of q) q.shape q.replaced q.name grants).1
        ≤ limit_of r + most
  unfolding market granted_to_others get
  admit-within q r most grants le h =
      elim (admit-cases all grant_ms (answers_of q) q.shape q.replaced q.name grants) [
        | inr (f, g, p, inl e) ↦ rw (p, e) h
        | inr (f, g, p, inr e) ↦ rw (p, e) (omega (arith, granted-unexpired-le r q.now grants))
        | inl (t, p) ↦ rw p (fits q r most grants le h)
      ]

  -- However many admissions hear the same of Prometheus, whatever they ask and whether they are
  -- admitted or refused, where none replaces a cluster that holds more than `most` of a resource: if
  -- the grants of the resource are within what is unheld and preemptible and `most`, they still are.
  pub admit_all-within :
      (qs : List Request) (r : String) (most : ℕ) (grants : Dict Grant)
      → All (λ (q : Request). count_of r q.replaced ≤ most) qs
      → granted r grants ≤ limit_of r + most
      → granted r (admit_all qs grants) ≤ limit_of r + most
  unfolding admit_all
  admit_all-within [] r most grants le h = h
  admit_all-within (q ∷ qs) r most grants le h =
      admit_all-within qs r most
        (admit all grant_ms (answers_of q) q.shape q.replaced q.name grants).1 le.1
        (admit-within q r most grants le.0 h)
