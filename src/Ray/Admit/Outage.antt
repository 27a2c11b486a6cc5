-- ===== src/Ray/Admit/Outage.antt =====
-- An admission while Prometheus does not answer stays within config.yaml's budgets.
use purdue_af.Common.{
  ℕ, ◌+◌, ◌-◌, ◌*◌, ◌/◌, ◌≤◌, min, String, ◌≡◌, refl, ◌⊎◌, false, none, List, [], ◌∷◌, ◌∙◌, sym,
  arith, str_eq, eq_refl, All,
}
use mathlib.Core.Path.{subst}
use purdue_af.Common.Dict.{get-put, merge}
use purdue_af.Ray.Base.{Flavor}
use purdue_af.Ray.Admit.{
  Market, Offer, count_of, gpus_in, workers_of, available, evicts, offer_flavor, offer_flavors,
  evict, mix_of,
}
use purdue_af.Ray.Admit.Mix.{fits_of}

abbrev pub IsAbsent : String → List Flavor → Type 0
IsAbsent r = All (λ f. str_eq f.resource r ≡ false)

-- No two kinds of GPU are of one resource.
abbrev pub AreDistinct : List Flavor → Type 0
AreDistinct [] = Unit
AreDistinct (f ∷ fs) = IsAbsent f.resource fs × AreDistinct fs

module _ (m : Market) (silent : m.free ≡ none) where
  abbrev pub IsWithinBudget : Flavor → ℕ → Type 0
  IsWithinBudget f n =
      (n ≡ 0) ⊎ (n * m.per_worker + gpus_in f.resource (merge m.granted m.others) ≤ f.budget)

  offered-within :
      (f : Flavor) (room : ℕ) → IsWithinBudget f (min (available m f / m.per_worker) room)
  unfolding available
  offered-within f room =
      let held = gpus_in f.resource (merge m.granted m.others) in
      rw silent (fits_of (f.budget - held) held f.budget m.per_worker room (omega arith))

  evicting-offer_flavor : (f : Flavor) (o : Offer) → (offer_flavor m f o).evicting ≡ o.evicting
  unfolding offer_flavor evicts
  evicting-offer_flavor f o = rw silent

  evicting-offer_flavors :
      (fs : List Flavor) (o : Offer) → (offer_flavors m fs o).evicting ≡ o.evicting
  unfolding offer_flavors
  evicting-offer_flavors [] o = refl
  evicting-offer_flavors (f ∷ fs) o =
      evicting-offer_flavors fs (offer_flavor m f o) ∙ evicting-offer_flavor f o

  -- The later kinds leave the entry of an earlier one.
  count-offer_flavors :
      (r : String) (fs : List Flavor) (o : Offer)
      → IsAbsent r fs
      → count_of r (offer_flavors m fs o).mix ≡ count_of r o.mix
  unfolding offer_flavors offer_flavor
  count-offer_flavors r [] o h = refl
  count-offer_flavors r (f ∷ fs) o h =
      count-offer_flavors r fs (offer_flavor m f o) h.1
      ∙ rw (
        get-put f.resource r (min (available m f / m.per_worker) (m.wanted - workers_of o.mix))
            o.mix,
        h.0,
      )

  count-offer_flavor :
      (f : Flavor) (o : Offer)
      → count_of f.resource (offer_flavor m f o).mix
        ≡ min (available m f / m.per_worker) (m.wanted - workers_of o.mix)
  unfolding offer_flavor
  count-offer_flavor f o = rw (
    get-put f.resource f.resource (min (available m f / m.per_worker) (m.wanted - workers_of o.mix))
        o.mix,
    eq_refl f.resource,
  )

  offer_flavors-within :
      (fs : List Flavor) (o : Offer)
      → AreDistinct fs
      → All (λ f. IsWithinBudget f (count_of f.resource (offer_flavors m fs o).mix)) fs
  unfolding offer_flavors
  offer_flavors-within [] o d = tt
  offer_flavors-within (f ∷ fs) o d = (
    subst (IsWithinBudget f)
        (sym (count-offer_flavors f.resource fs (offer_flavor m f o) d.0 ∙ count-offer_flavor f o))
        (offered-within f (m.wanted - workers_of o.mix)),
    offer_flavors-within fs (offer_flavor m f o) d.1,
  )

  pub mix_of-within :
      (fs : List Flavor)
      → AreDistinct fs
      → All (λ f. IsWithinBudget f (count_of f.resource (mix_of m fs))) fs
  unfolding mix_of evict
  mix_of-within fs d =
      let start : Offer = record { mix = []; evicting = none } in
      rw (evicting-offer_flavors fs start, evict) (offer_flavors-within fs start d)
