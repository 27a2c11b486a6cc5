-- ===== src/Ray/Cluster/Gpus.antt =====
-- The GPUs that a created cluster holds are those that it was admitted with.
use purdue_af.Common.{
  ℕ, ◌+◌, ◌-◌, ◌*◌, min, String, ◌≡◌, refl, sym, ap, ◌∙◌, inl, inr, Bool, true, false, List, [],
  ◌∷◌, ◌++◌, map, arith, ltb, if◌then◌else◌, str_eq, eq_iff, Bool-cases, Option-cases, sum_by,
}
use purdue_af.Common.Dict.{Dict, get, put, remove, get-put, get-remove}
use purdue_af.Ray.Base.{Flavor}
use purdue_af.Ray.Admit.{
  count_of, hold_flavor, hold_flavors, hold_containers, hold_groups, held_gpus, times,
}
use purdue_af.Ray.Cluster.{
  Group, without_gpus, set_gpus, worker_group, group_if, groups_from, build_groups, listed,
}

-- How many kinds of GPU are of a resource.
abbrev pub kinds_of : String → List Flavor → ℕ
kinds_of r [] = 0
kinds_of r (f ∷ fs) = (if str_eq f.resource r then 1 else 0) + kinds_of r fs

count-put :
    (r k : String) (n : ℕ) (d : Dict ℕ)
    → count_of r (put k n d) ≡ (if str_eq k r then n else count_of r d)
count-put r k n d = elim (Bool-cases (str_eq k r)) [
  | inl e ↦ simp (get-put k r n d, e)
  | inr e ↦ simp (get-put k r n d, e)
]

hold_flavor-count :
    (r : String) (n : ℕ) (limits : Dict ℕ) (f : Flavor) (held : Dict ℕ)
    → count_of r (hold_flavor n limits f held)
      ≡ count_of r held + (if str_eq f.resource r then n * count_of r limits else 0)
unfolding hold_flavor
hold_flavor-count r n limits f held = elim (Option-cases (get f.resource limits)) [
  | inl p ↦ rw (p, hold_flavor) (ground (arith, eq_iff f.resource r, p))
  | inr (x, p) ↦
      rw (p, hold_flavor)
        (ground (
          arith,
          eq_iff f.resource r,
          p,
          get-put f.resource r (count_of f.resource held + n * x) held,
        ))
]

hold_flavors-count :
    (r : String) (n : ℕ) (limits : Dict ℕ) (fs : List Flavor) (held : Dict ℕ)
    → count_of r (hold_flavors n limits fs held)
      ≡ count_of r held + kinds_of r fs * (n * count_of r limits)
unfolding hold_flavors
hold_flavors-count r n limits [] held = omega arith
hold_flavors-count r n limits (f ∷ fs) held = ground (
  arith,
  hold_flavors-count r n limits fs (hold_flavor n limits f held),
  hold_flavor-count r n limits f held,
)

hold_groups-append :
    (all : List Flavor) (gs hs : List Group) (held : Dict ℕ)
    → hold_groups all (map listed (gs ++ hs)) held
      ≡ hold_groups all (map listed hs) (hold_groups all (map listed gs) held)
unfolding hold_groups
hold_groups-append all [] hs held = refl
hold_groups-append all (g ∷ gs) hs held =
    hold_groups-append all gs hs (hold_containers all g.replicas g.limits held)

times-count : (r : String) (n : ℕ) (mix : Dict ℕ) → count_of r (times n mix) ≡ count_of r mix * n
unfolding times get
times-count r n [] = omega arith
times-count r n ((s, m) ∷ mix) = ground (arith, times-count r n mix)

kept_or_not : (kept workers : ℕ) → min kept workers + (workers - kept) ≡ workers
kept_or_not kept workers = ground arith

-- A container of the template keeps none of the kinds' GPUs.
without_gpus-count :
    (r : String) (fs : List Flavor) (c : Dict ℕ)
    → count_of r (without_gpus fs c) ≡ (if ltb 0 (kinds_of r fs) then 0 else count_of r c)
unfolding without_gpus
without_gpus-count r [] c = refl
without_gpus-count r (f ∷ fs) c = ground (
  arith,
  eq_iff f.resource r,
  without_gpus-count r fs (remove f.resource c),
  get-remove f.resource r c,
)

-- A resource that is one GPU kind's.
module _ (r : String) (all : List Flavor) (one : kinds_of r all ≡ 1) where
  set_gpus-count :
      (f : Flavor) (per_worker : ℕ) (c : Dict ℕ)
      → count_of r (set_gpus all f per_worker c) ≡ (if str_eq f.resource r then per_worker else 0)
  unfolding set_gpus
  set_gpus-count f per_worker c =
      ground (
        arith,
        one,
        get-put f.resource r per_worker (without_gpus all c),
        without_gpus-count r all c,
      )

  group_if-count :
      (c : Dict ℕ) (per_worker : ℕ) (f : Flavor) (n : ℕ) (p : Bool) (held : Dict ℕ)
      → count_of r (hold_groups all (map listed (group_if all (c ∷ []) f per_worker n p)) held)
        ≡ count_of r held + (if str_eq f.resource r then n * per_worker else 0)
  unfolding hold_groups hold_containers group_if worker_group
  group_if-count c per_worker f n p held = elim (Bool-cases (ltb 0 n)) [
    | inl e ↦ rw e (
        ground (
          arith,
          one,
          set_gpus-count f per_worker c,
          hold_flavors-count r n (set_gpus all f per_worker c) all held,
        ))
    | inr e ↦ rw e (ground (arith, e))
  ]

  groups_from-count :
      (c : Dict ℕ) (per_worker : ℕ) (mix : Dict ℕ) (kept : ℕ) (fs : List Flavor) (held : Dict ℕ)
      → count_of r
          (hold_groups all (map listed (groups_from all (c ∷ []) per_worker mix kept fs)) held)
        ≡ count_of r held + kinds_of r fs * (count_of r mix * per_worker)
  unfolding groups_from hold_groups
  groups_from-count c per_worker mix kept [] held = omega arith
  groups_from-count c per_worker mix kept (f ∷ fs) held =
      let w = count_of f.resource mix in
      let first = group_if all (c ∷ []) f per_worker (min kept w) false in
      let second = group_if all (c ∷ []) f per_worker (w - kept) true in
      let rest = groups_from all (c ∷ []) per_worker mix (kept - w) fs in
      let held1 = hold_groups all (map listed first) held in
      let held2 = hold_groups all (map listed second) held1 in
      rw (hold_groups-append all first (second ++ rest) held) (
        rw (hold_groups-append all second rest held1) (
          ground (
            arith,
            eq_iff f.resource r,
            groups_from-count c per_worker mix (kept - w) fs held2,
            group_if-count c per_worker f (min kept w) false held,
            group_if-count c per_worker f (w - kept) true held1,
            ap (λ n. n * per_worker) (kept_or_not kept w),
          )))

  pub build_groups-count :
      (c : Dict ℕ) (per_worker : ℕ) (mix : Dict ℕ)
      → count_of r (held_gpus all (map listed (build_groups all (c ∷ []) per_worker mix)))
        ≡ count_of r mix * per_worker
  unfolding build_groups held_gpus get
  build_groups-count c per_worker mix = omega (
    arith,
    ap (λ n. n * (count_of r mix * per_worker)) one,
    groups_from-count c per_worker mix 1 all [],
  )

-- Workers that do not give way to other pods.
abbrev pub kept_workers : List Group → ℕ
kept_workers gs = sum_by (λ g. if g.preemptible then 0 else g.replicas) gs

kept_workers-append :
    (gs hs : List Group) → kept_workers (gs ++ hs) ≡ kept_workers gs + kept_workers hs
kept_workers-append [] hs = omega arith
kept_workers-append (g ∷ gs) hs = omega (arith, kept_workers-append gs hs)

group_if-kept :
    (all : List Flavor) (template : List (Dict ℕ)) (f : Flavor) (per_worker n : ℕ) (p : Bool)
    → kept_workers (group_if all template f per_worker n p) ≡ (if p then 0 else n)
unfolding group_if worker_group
group_if-kept all template f per_worker n p = ground arith

groups_from-kept :
    (all : List Flavor) (template : List (Dict ℕ)) (per_worker : ℕ) (mix : Dict ℕ) (kept : ℕ)
    (fs : List Flavor)
    → kept_workers (groups_from all template per_worker mix kept fs)
      ≡ min kept (sum_by (λ f. count_of f.resource mix) fs)
unfolding groups_from
groups_from-kept all template per_worker mix kept [] = ground arith
groups_from-kept all template per_worker mix kept (f ∷ fs) =
    let w = count_of f.resource mix in
    let first = group_if all template f per_worker (min kept w) false in
    let second = group_if all template f per_worker (w - kept) true in
    let rest = groups_from all template per_worker mix (kept - w) fs in
    ground (
      arith,
      kept_workers-append first (second ++ rest),
      kept_workers-append second rest,
      group_if-kept all template f per_worker (min kept w) false,
      group_if-kept all template f per_worker (w - kept) true,
      groups_from-kept all template per_worker mix (kept - w) fs,
    )

-- A created cluster, listed again, holds of a GPU kind's resource exactly what its mix of workers
-- was granted (the resource is one kind's, and the template's pod has one container), and exactly
-- one of its workers, if it has any, does not give way to pods of the default priority.
pub build_groups-held_gpus :
    (r : String) (all : List Flavor) (c : Dict ℕ) (per_worker : ℕ) (mix : Dict ℕ)
    → kinds_of r all ≡ 1
    → (count_of r (held_gpus all (map listed (build_groups all (c ∷ []) per_worker mix)))
        ≡ count_of r (times per_worker mix))
      × (kept_workers (build_groups all (c ∷ []) per_worker mix)
          ≡ min 1 (sum_by (λ f. count_of f.resource mix) all))
unfolding build_groups
build_groups-held_gpus r all c per_worker mix one = (
  build_groups-count r all one c per_worker mix ∙ sym (times-count r per_worker mix),
  groups_from-kept all (c ∷ []) per_worker mix 1 all,
)
