-- ===== src/Ray/Cluster/Volumes.antt =====
-- Whose a cluster is, and which volumes a workload account's pods mount.
use purdue_af.Common.{
  All-keep, String, ◌≡◌, refl, inl, inr, true, none, List, [], ◌∷◌, map, arith, if◌then◌else◌,
  str_eq, eq_refl, Bool-cases, keep, text_in, All, All-append,
}
use purdue_af.Common.Exec.{ok, err}
use purdue_af.Ray.Base.{User, refused, permission_denied}
use purdue_af.Ray.Cluster.{
  Mount, Pod, Template, own_mounts, own_pod, cluster_template, owner, cluster_owner, refuse_others,
}

abbrev pub IsKeptOr : List String → String → String → Type 0
IsKeptOr kept own name = (if text_in name kept then true else str_eq name own) ≡ true

All-each :
    {A B : Type 0} (P : B → Type 0) (g : A → B) (f : (x : A) → P (g x)) (xs : List A)
    → All P (map g xs)
All-each P g f [] = tt
All-each P g f (x ∷ xs) = (f x, All-each P g f xs)

-- A pod's volumes, and the mounts of each container, are of kept names or the account's own.
abbrev pub MountsOnly : List String → String → Pod → Type 0
MountsOnly kept name pod =
    All (λ v. IsKeptOr kept name v.name) pod.volumes
    × All (λ mounts. All (λ m. IsKeptOr kept name m.name) mounts) pod.containers

own_mounts-only :
    (kept : List String) (name path : String) (mounts : List Mount)
    → All
        (λ m. IsKeptOr kept name m.name)
        (own_mounts kept (record { name = name; path = path }) mounts)
unfolding own_mounts
own_mounts-only kept name path mounts =
    All-append (λ m. IsKeptOr kept name m.name) (keep (λ m. text_in m.name kept) mounts) _
      (All-keep _ (λ m. text_in m.name kept) (λ m e. ground (arith, e)) mounts)
      (ground (arith, eq_refl name), tt)

own_pod-only :
    (kept : List String) (name path : String) (pod : Pod)
    → MountsOnly kept name (own_pod kept name path pod)
unfolding own_pod
own_pod-only kept name path pod = (
  All-append (λ v. IsKeptOr kept name v.name) (keep (λ v. text_in v.name kept) pod.volumes) _
      (All-keep _ (λ v. text_in v.name kept) (λ v e. ground (arith, e)) pod.volumes)
      (ground (arith, eq_refl name), tt),
  All-each _ (own_mounts kept (record { name = name; path = path }))
      (own_mounts-only kept name path) pod.containers,
)

-- Every pod of a workload account's cluster, its head's and its workers', has no volume and no
-- mount but those of the kept names and of the account's own name.
cluster_template-MountsOnly :
    (kept : List String) (path : String) (user : User) (template : Template)
    → user.workload ≡ true
    → MountsOnly kept user.name (cluster_template kept path user template).head
      × All (MountsOnly kept user.name) (cluster_template kept path user template).workers
unfolding cluster_template
cluster_template-MountsOnly kept path user template w = rw w (
  own_pod-only kept user.name path template.head,
  All-each _ (own_pod kept user.name path) (own_pod-only kept user.name path) template.workers,
)

cluster_template-owner :
    (kept : List String) (path : String) (user : User) (template : Template)
    → template.head.part_of ≡ none
    → cluster_owner (cluster_template kept path user template) ≡ owner user
unfolding cluster_template cluster_owner owner own_pod
cluster_template-owner kept path user template h = elim (Bool-cases user.workload) [
  | inl e ↦ rw e refl
  | inr e ↦ rw (e, h) refl
]

-- If raycluster.yaml names no part of a system, then a user may reach the cluster that is made for
-- another one exactly if both are no workload accounts, or both are and have one name.
pub refuse_others-cluster_template :
    (kept : List String) (path : String) (user other : User) (template : Template)
    → template.head.part_of ≡ none
    → refuse_others (cluster_template kept path user template) other ≡ (
        if str_eq (owner user) (owner other)
        then ok tt
        else err (refused permission_denied "someone else's Ray cluster"))
unfolding refuse_others
refuse_others-cluster_template kept path user other template h =
    rw (cluster_template-owner kept path user template h) refl
