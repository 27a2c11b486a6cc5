-- ===== src/Ray/Cluster.antt =====
-- The RayCluster that the gateway creates: cluster_template, build_cluster, worker_group,
-- cluster_owner, refuse_others and owns of apps/ray-train/gateway.py, as far as they choose a pod's
-- volumes, its labels, and the worker groups with their GPUs. The proofs are in the modules below.
pub mod Gpus
pub mod Volumes
mod Examples
use purdue_af.Common.{
  ℕ, ◌+◌, ◌-◌, ◌*◌, ◌<◌, min, String, Bool, true, false, ◌&&◌, Option, none, some, List, [], ◌∷◌,
  ◌++◌, map, ltb, if◌then◌else◌, str_eq, or_default, keep, text_in, is_text,
}
use purdue_af.Common.Exec.{Outcome, ok, err}
use purdue_af.Common.Dict.{Dict, get, put, remove}
use purdue_af.Ray.Base.{Flavor, User, Refusal, refused, permission_denied}
use purdue_af.Ray.Admit.{WorkerGroup, count_of}

pub record Volume : Type 0 where
  pub name : String
  pub claim : Option String

pub record Mount : Type 0 where
  pub name : String
  pub path : String

pub record Pod : Type 0 where
  pub part_of : Option String
  pub volumes : List Volume
  pub containers : List (List Mount)

-- raycluster.yaml's head pod and the pods of its worker groups.
pub record Template : Type 0 where
  pub head : Pod
  pub workers : List Pod

unfoldable pub own_mounts : List String → Mount → List Mount → List Mount
own_mounts kept own mounts = keep (λ m. text_in m.name kept) mounts ++ own ∷ []

unfoldable pub own_pod : List String → String → String → Pod → Pod
unfolding own_mounts
own_pod kept name path pod = record {
  part_of = some name;
  volumes =
      keep (λ v. text_in v.name kept) pod.volumes ++ record { name = name; claim = some name } ∷ [];
  containers = map (own_mounts kept (record { name = name; path = path })) pod.containers;
}

-- `kept` is ACCOUNT_KEPT_VOLUMES, and `path` is f"/{user.name}".
unfoldable pub cluster_template : List String → String → User → Template → Template
unfolding own_pod
cluster_template kept path user template =
    if user.workload
    then record {
      head = own_pod kept user.name path template.head;
      workers = map (own_pod kept user.name path) template.workers;
    }
    else template

-- User.owner
unfoldable pub owner : User → String
owner user = if user.workload then user.name else ""

unfoldable pub cluster_owner : Template → String
cluster_owner cluster = or_default cluster.head.part_of ""

unfoldable pub refuse_others : Template → User → Outcome Refusal (Unit {0})
refuse_others cluster user =
    if str_eq (cluster_owner cluster) (owner user)
    then ok tt
    else err (refused permission_denied "someone else's Ray cluster")

-- owns: `label` is the RayJob's OWNER_LABEL, and `name` is the user's cluster.
unfoldable pub owns : String → User → Option String → Template → Bool
owns name user label cluster = is_text label name && str_eq (cluster_owner cluster) (owner user)

-- A worker group of build_cluster; its containers have these amounts of countable resources.
pub record Group : Type 0 where
  pub flavor : Flavor
  pub preemptible : Bool
  pub replicas : ℕ
  pub limits : List (Dict ℕ)

without_gpus : List Flavor → Dict ℕ → Dict ℕ
without_gpus [] amounts = amounts
without_gpus (f ∷ fs) amounts = without_gpus fs (remove f.resource amounts)

set_gpus : List Flavor → Flavor → ℕ → Dict ℕ → Dict ℕ
set_gpus all f per_worker amounts = put f.resource per_worker (without_gpus all amounts)

unfoldable pub worker_group : List Flavor → List (Dict ℕ) → Flavor → ℕ → ℕ → Bool → Group
unfolding set_gpus without_gpus
worker_group all template f per_worker replicas preemptible = record {
  flavor = f;
  preemptible = preemptible;
  replicas = replicas;
  limits = map (set_gpus all f per_worker) template;
}

group_if : List Flavor → List (Dict ℕ) → Flavor → ℕ → ℕ → Bool → List Group
group_if all template f per_worker replicas preemptible =
    if ltb 0 replicas then worker_group all template f per_worker replicas preemptible ∷ [] else []

-- `kept` workers are still to be kept from giving way to pods of the default priority.
groups_from : List Flavor → List (Dict ℕ) → ℕ → Dict ℕ → ℕ → List Flavor → List Group
groups_from all template per_worker mix kept [] = []
groups_from all template per_worker mix kept (f ∷ fs) =
    let workers = count_of f.resource mix in
    group_if all template f per_worker (min kept workers) false
    ++ (group_if all template f per_worker (workers - kept) true
        ++ groups_from all template per_worker mix (kept - workers) fs)

-- build_cluster's workerGroupSpecs: every worker but the first gives way.
unfoldable pub build_groups : List Flavor → List (Dict ℕ) → ℕ → Dict ℕ → List Group
unfolding groups_from group_if
build_groups all template per_worker mix = groups_from all template per_worker mix 1 all

-- The group as Kubernetes lists it.
abbrev pub listed : Group → WorkerGroup
listed g = record { replicas = some g.replicas; limits = g.limits }
