-- ===== src/Ray/Admit.antt =====
-- Gateway.admit, Gateway.free_gpus and held_gpus of apps/ray-train/gateway.py: how many workers of
-- each GPU kind a cluster gets. The proofs are in the modules below.
-- Where Python's numbers fall below 0 (a budget that is overdrawn, GPUs that are), the code takes
-- `max(…, 0)` or tests `> 0` next, so the subtraction that stops at 0 gives the same.
pub mod Mix
pub mod Queries
pub mod Outage
pub mod Grants
mod Examples
use purdue_af.Common.{
  ℕ, ◌+◌, ◌-◌, ◌*◌, ◌/◌, ◌<◌, min, String, Bool, true, false, ◌&&◌, not, Option, none, some, List,
  [], ◌∷◌, map, ltb, leb, ◌==◌, if◌then◌else◌, or_default, keep,
}
use purdue_af.Common.Exec.{Outcome, ok, err, Exec}
use purdue_af.Common.Dict.{Dict, get, put, remove, merge, total}
use purdue_af.Ray.Base.{Flavor, Shape, flavors, Refusal, refused, unavailable, resource_exhausted}

-- `d.get(key, 0)`
abbrev pub count_of : String → Dict ℕ → ℕ
count_of r d = or_default (get r d) 0

-- A worker group of a listed cluster, with the limits of each container.
pub record WorkerGroup : Type 0 where
  pub replicas : Option ℕ
  pub limits : List (Dict ℕ)

pub record ListedCluster : Type 0 where
  pub name : String
  pub origin : Option String
  pub groups : List WorkerGroup

unfoldable pub hold_flavor : ℕ → Dict ℕ → Flavor → Dict ℕ → Dict ℕ
hold_flavor replicas limits f held = elim (get f.resource limits) [
  | none ↦ held
  | some limit ↦ put f.resource (count_of f.resource held + replicas * limit) held
]

unfoldable pub hold_flavors : ℕ → Dict ℕ → List Flavor → Dict ℕ → Dict ℕ
unfolding hold_flavor
hold_flavors replicas limits [] held = held
hold_flavors replicas limits (f ∷ fs) held =
    hold_flavors replicas limits fs (hold_flavor replicas limits f held)

unfoldable pub hold_containers : List Flavor → ℕ → List (Dict ℕ) → Dict ℕ → Dict ℕ
unfolding hold_flavors
hold_containers all replicas [] held = held
hold_containers all replicas (limits ∷ rest) held =
    hold_containers all replicas rest (hold_flavors replicas limits all held)

unfoldable pub hold_groups : List Flavor → List WorkerGroup → Dict ℕ → Dict ℕ
unfolding hold_containers
hold_groups all [] held = held
hold_groups all (g ∷ gs) held =
    hold_groups all gs (hold_containers all (or_default g.replicas 0) g.limits held)

unfoldable pub held_gpus : List Flavor → List WorkerGroup → Dict ℕ
unfolding hold_groups
held_gpus all groups = hold_groups all groups []

-- What Prometheus says of one resource: the GPUs no pod holds, and those preemptible pods hold.
pub record Supply : Type 0 where
  pub unheld : ℕ
  pub preemptible : ℕ

-- `none` is the refusal to say: a metric is missing, a query failed.
free_of : Dict String → Dict ℕ → Dict ℕ → Dict ℕ → List Flavor → Dict Supply → Option (Dict Supply)
free_of metrics allocatable used preemptible [] free = some free
free_of metrics allocatable used preemptible (f ∷ fs) free = elim (get f.resource metrics) [
  | none ↦ none
  | some metric ↦ elim (get metric allocatable) [
    | none ↦ none
    | some n ↦
        let evictable = count_of metric preemptible in
        free_of metrics allocatable used preemptible fs (
          put f.resource
            (record { unheld = n - (count_of metric used + evictable); preemptible = evictable })
            free)
  ]
]

-- The three queries' answers; `none` for a query that failed.
unfoldable pub free_gpus :
    Dict String
    → List Flavor
    → Option (Dict ℕ)
    → Option (Dict ℕ)
    → Option (Dict ℕ)
    → Option (Dict Supply)
unfolding free_of
free_gpus metrics all (some allocatable) (some used) (some preemptible) =
    free_of metrics allocatable used preemptible all []
free_gpus metrics all _ _ _ = none

-- A cluster's grant: the GPUs it was admitted with, and until when they count as taken.
pub record Grant : Type 0 where
  pub gpus : Dict ℕ
  pub until : ℕ

-- `free[resource]`: `free_gpus` has an entry for every flavor (`Queries.free_gpus_complete`).
abbrev pub supply_of : String → Dict Supply → Supply
supply_of r free = or_default (get r free) (record { unheld = 0; preemptible = 0 })

-- What is the same for every flavor of one admission.
pub record Market : Type 0 where
  pub free : Option (Dict Supply)
  pub granted : Dict (Dict ℕ)
  pub others : Dict (Dict ℕ)
  pub replaced : Dict ℕ
  pub wanted : ℕ
  pub per_worker : ℕ

-- The GPUs of `resource` that a dict of clusters has.
abbrev pub gpus_in : String → Dict (Dict ℕ) → ℕ
gpus_in r clusters = total (count_of r) clusters

unfoldable pub taken : Market → String → ℕ
taken m r = gpus_in r m.granted

unfoldable pub available : Market → Flavor → ℕ
unfolding taken
available m f = elim m.free [
  | none ↦ f.budget - gpus_in f.resource (merge m.granted m.others)
  | some free ↦
      (supply_of f.resource free).unheld + count_of f.resource m.replaced - taken m f.resource
]

-- Whether one worker may take a preemptible worker's GPU of this resource.
unfoldable pub evicts : Market → Flavor → Bool
unfolding taken
evicts m f = elim m.free [
  | none ↦ false
  | some free ↦
      let s = supply_of f.resource free in
      ltb (count_of f.resource m.replaced + taken m f.resource) (s.unheld + s.preemptible)
]

pub record Offer : Type 0 where
  pub mix : Dict ℕ
  pub evicting : Option String

abbrev pub workers_of : Dict ℕ → ℕ
workers_of mix = total (λ n. n) mix

unfoldable pub offer_flavor : Market → Flavor → Offer → Offer
unfolding available evicts
offer_flavor m f o = record {
  mix = put f.resource (min (available m f / m.per_worker) (m.wanted - workers_of o.mix)) o.mix;
  evicting = elim (evicts m f) [
    | true ↦ some (or_default o.evicting f.resource)
    | false ↦ o.evicting
  ];
}

unfoldable pub offer_flavors : Market → List Flavor → Offer → Offer
unfolding offer_flavor
offer_flavors m [] o = o
offer_flavors m (f ∷ fs) o = offer_flavors m fs (offer_flavor m f o)

-- One worker, and no more, may evict a preemptible one.
evict : Market → Dict ℕ → Option String → Dict ℕ
evict m mix none = mix
evict m mix (some r) = if m.per_worker == 1 && workers_of mix == 0 then put r 1 mix else mix

unfoldable pub mix_of : Market → List Flavor → Dict ℕ
unfolding offer_flavors evict
mix_of m fs =
    let o = offer_flavors m fs (record { mix = []; evicting = none }) in evict m o.mix o.evicting

-- `{c: g for c, g in grants.items() if g[1] > now}`
unfoldable pub unexpired : ℕ → Dict Grant → Dict Grant
unexpired now [] = []
unexpired now ((c, g) ∷ grants) =
    let rest = unexpired now grants in if ltb now g.until then (c, g) ∷ rest else rest

gpus_only : Dict Grant → Dict (Dict ℕ)
gpus_only [] = []
gpus_only ((c, g) ∷ rest) = (c, g.gpus) ∷ gpus_only rest

-- `{c: gpus for c, (gpus, _) in grants.items() if c != name}`
unfoldable pub granted_to_others : String → Dict Grant → Dict (Dict ℕ)
unfolding gpus_only
granted_to_others name grants = gpus_only (remove name grants)

-- A RayJob's cluster goes under the name of the RayJob it was granted to.
unfoldable pub clusters_held : List Flavor → List ListedCluster → Dict (Dict ℕ) → Dict (Dict ℕ)
unfolding held_gpus
clusters_held all [] found = found
clusters_held all (c ∷ cs) found =
    clusters_held all cs (put (or_default c.origin c.name) (held_gpus all c.groups) found)

-- `{resource: workers * per_worker for resource, workers in mix.items()}`
unfoldable pub times : ℕ → Dict ℕ → Dict ℕ
times per_worker [] = []
times per_worker ((r, n) ∷ mix) = (r, n * per_worker) ∷ times per_worker mix

-- What Kubernetes and Prometheus answer to an admission, and the time.
pub record Answers : Type 0 where
  pub status : ℕ
  pub listing : List ListedCluster
  pub free : Option (Dict Supply)
  pub now : ℕ

unfoldable pub market : List Flavor → Answers → Shape → Dict ℕ → String → Dict Grant → Market
unfolding clusters_held unexpired granted_to_others
market all a shape replaced name grants = record {
  free = a.free;
  granted = granted_to_others name (unexpired a.now grants);
  others = remove name (clusters_held all a.listing []);
  replaced = replaced;
  wanted = shape.workers;
  per_worker = shape.per_worker;
}

-- The state is `self.grants`; `name` is the RayJob's or the user's own cluster's.
unfoldable pub admit :
    List Flavor → ℕ → Answers → Shape → Dict ℕ → String → Exec (Dict Grant) Refusal (Dict ℕ)
admit all grant_ms a shape replaced name grants =
    if a.status == 200
    then (let live = unexpired a.now grants in
        let mix = mix_of (market all a shape replaced name grants) (flavors all shape) in
        if ltb (workers_of mix) shape.least
        then (err (refused resource_exhausted "fewer GPUs are free than it starts with"), live)
        else (
          ok mix,
          put name (record { gpus = times shape.per_worker mix; until = a.now + grant_ms }) live,
        ))
    else (err (refused unavailable "Kubernetes did not list the Ray clusters"), grants)
