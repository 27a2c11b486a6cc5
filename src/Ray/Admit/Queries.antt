-- ===== src/Ray/Admit/Queries.antt =====
-- Gateway.free_gpus: when Prometheus answers, it has every flavor's resource, so no lookup of an
-- admission misses.
use purdue_af.Common.{
  ℕ, String, ◌≡◌, inl, inr, true, Option, none, some, List, [], ◌∷◌, arith, eq_refl, Option-cases,
  All, is_some,
}
use purdue_af.Common.Dict.{Dict, get, put, get-put}
use purdue_af.Ray.Base.{Flavor}
use purdue_af.Ray.Admit.{Supply, free_of, free_gpus}

none-ne-some : {A : Type 0} {a : A} → ◌≡◌ {A = Option A} none (some a) → ⊥
none-ne-some e = cc

module _ (metrics : Dict String) (allocatable used preemptible : Dict ℕ) where
  free_of-step :
      (f : Flavor) (fs : List Flavor) (free free' : Dict Supply)
      → free_of metrics allocatable used preemptible (f ∷ fs) free ≡ some free'
      → (s : Supply) × (free_of metrics allocatable used preemptible fs (put f.resource s free)
          ≡ some free')
  unfolding free_of
  free_of-step f fs free free' e = elim (Option-cases (get f.resource metrics)) [
    | inl n ↦ absurd (none-ne-some (rw (n, free_of) at e))
    | inr (metric, p) ↦ elim (Option-cases (get metric allocatable)) [
      | inl n ↦ absurd (none-ne-some (rw (p, n, free_of) at e))
      | inr (a, q) ↦ (_, rw (p, q, free_of) at e)
    ]
  ]

  free_of-keeps :
      (r : String) (fs : List Flavor) (free free' : Dict Supply)
      → is_some (get r free) ≡ true
      → free_of metrics allocatable used preemptible fs free ≡ some free'
      → is_some (get r free') ≡ true
  free_of-keeps r [] free free' h e = unfold free_of in cc
  free_of-keeps r (f ∷ fs) free free' h e =
      let (s, e') = free_of-step f fs free free' e in
      free_of-keeps r fs (put f.resource s free) free'
        (rw (get-put f.resource r s free) (ground (arith, h))) e'

  free_of_complete :
      (fs : List Flavor) (free free' : Dict Supply)
      → free_of metrics allocatable used preemptible fs free ≡ some free'
      → All (λ f. is_some (get f.resource free') ≡ true) fs
  free_of_complete [] free free' e = tt
  free_of_complete (f ∷ fs) free free' e =
      let (s, e') = free_of-step f fs free free' e in
      (
        free_of-keeps f.resource fs (put f.resource s free) free'
            (rw (get-put f.resource f.resource s free, eq_refl f.resource)) e',
        free_of_complete fs (put f.resource s free) free' e',
      )

-- If the three queries answer and no flavor's metric is missing, each flavor has an entry.
pub free_gpus_complete :
    (metrics : Dict String) (all : List Flavor) (allocatable used preemptible : Option (Dict ℕ))
    {free : Dict Supply}
    → free_gpus metrics all allocatable used preemptible ≡ some free
    → All (λ f. is_some (get f.resource free) ≡ true) all
unfolding free_gpus
free_gpus_complete metrics all (some a) (some u) (some p) {free} e =
    free_of_complete metrics a u p all [] free e
free_gpus_complete metrics all none u p e = cc
free_gpus_complete metrics all (some a) none p e = cc
free_gpus_complete metrics all (some a) (some u) none e = cc
