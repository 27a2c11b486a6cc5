-- ===== src/Ray/Cluster/Examples.antt =====
-- A cluster with the GPU kinds of apps/ray-train/config.yaml: tests, and the theorems at it.
use purdue_af.Common.{ℕ, min, ◌≡◌, refl, Bool, true, false, none, some, List, [], ◌∷◌, map, sum_by}
use purdue_af.Common.Dict.{Dict, get}
use purdue_af.Ray.Base.{Flavor, User}
use purdue_af.Ray.Admit.{count_of, held_gpus, times}
use purdue_af.Ray.Cluster.{Pod, Template, cluster_template, build_groups, worker_group, listed}
use purdue_af.Ray.Cluster.Gpus.{kept_workers, build_groups-held_gpus}

abbrev mig : Flavor
mig = record { resource = "nvidia.com/mig-1g.5gb"; memory = 5; budget = 14; per_worker = 1 }

abbrev gpu : Flavor
gpu = record { resource = "nvidia.com/gpu"; memory = 16; budget = 8; per_worker = 2 }

abbrev kinds : List Flavor
kinds = mig ∷ gpu ∷ []

abbrev container : Dict ℕ
container = ("cpu", 4) ∷ ("nvidia.com/gpu", 1) ∷ []

abbrev mix : Dict ℕ
mix = ("nvidia.com/mig-1g.5gb", 3) ∷ ("nvidia.com/gpu", 2) ∷ []

build_groups-four :
    map {B = Bool × ℕ}
      (λ g. (g.preemptible, g.replicas))
      (build_groups kinds (container ∷ []) 2 mix)
    ≡ (false, 1) ∷ (true, 2) ∷ (true, 2) ∷ []
unfolding build_groups get worker_group
build_groups-four = refl

build_groups-held_gpus_example :
    (count_of "nvidia.com/gpu"
        (held_gpus kinds (map listed (build_groups kinds (container ∷ []) 2 mix)))
      ≡ count_of "nvidia.com/gpu" (times 2 mix))
    × (kept_workers (build_groups kinds (container ∷ []) 2 mix)
        ≡ min 1 (sum_by (λ f. count_of f.resource mix) kinds))
build_groups-held_gpus_example = build_groups-held_gpus "nvidia.com/gpu" kinds container 2 mix refl

abbrev person : User
person = record {
  name = "ana";
  account = "ana";
  uid = 1001;
  gid = 1001;
  session_gpu = false;
  workload = false;
}

abbrev cms : User
cms = record {
  name = "cms-ops";
  account = "cms-ops";
  uid = 2001;
  gid = 2001;
  session_gpu = false;
  workload = true;
}

abbrev pod : Pod
pod = record {
  part_of = none;
  volumes =
      record { name = "home"; claim = some "homes" }
      ∷ record { name = "cvmfs"; claim = some "cvmfs" }
      ∷ [];
  containers =
      (record { name = "home"; path = "/home" } ∷ record { name = "cvmfs"; path = "/cvmfs" } ∷ [])
      ∷ [];
}

abbrev raycluster : Template
raycluster = record { head = pod; workers = pod ∷ [] }

cluster_template-names :
    map (λ v. v.name) (cluster_template ("cvmfs" ∷ []) "/cms-ops" cms raycluster).head.volumes
    ≡ "cvmfs" ∷ "cms-ops" ∷ []
unfolding cluster_template
cluster_template-names = refl
