-- ===== src/Hub/Cull/Pods.antt =====
-- Which servers' pods cull-gpu-sessions.py finds.
use purdue_af.Common.{
  String, true, false, ◌&&◌, Option, none, some, List, [], ◌∷◌, str_eq, ◌≡◌, refl, sym, subst, ap,
  ◌↔◌, ◌⊎◌, inl, inr, arith, eq_iff, Bool-cases, some_eq, none≢some,
}
use mathlib.Core.List.{Memᴰ}
use purdue_af.Hub.Cull.{Pod, pod_holds_gpu, pod_server, add_server, gpu_servers}

-- A running pod of the user's server of that name, that holds a GPU.
pub record IsPodOf (user name : String) (pod : Pod) : Type 0 where
  pub phase_running : pod.phase ≡ "Running"
  pub holds : pod_holds_gpu pod ≡ true
  pub of_user : (pod_server pod).0 ≡ some user
  pub of_name : (pod_server pod).1 ≡ name

abbrev pub IsGpuPod : List Pod → String → String → Type 0
IsGpuPod pods user name = (pod : Pod) × Memᴰ pod pods × IsPodOf user name pod

-- The pod's own server is what the pod adds.
add_server_iff :
    (user name : String) (o : Option String × String) (servers : List (String × String))
    → Memᴰ (user, name) (add_server o servers)
      ↔ (Memᴰ (user, name) servers ⊎ ((o.0 ≡ some user) × (o.1 ≡ name)))
add_server_iff user name (none, n) servers =
    ((λ m. inl m), (λ h. elim h [ inl m ↦ m | inr (e, _) ↦ absurd (none≢some e) ]))
add_server_iff user name (some u, n) servers = (
  there,
  λ h. elim h [ inl m ↦ Memᴰ.tail m | inr (e, same) ↦ Memᴰ.head (pair (some_eq u user e) same) ],
)
  where
    there :
        Memᴰ (user, name) ((u, n) ∷ servers)
        → Memᴰ (user, name) servers ⊎ ((some u ≡ some user) × (n ≡ name))
    there (Memᴰ.head e) =
        inr (
          ap (λ (x : String × String). some x.0) (sym e),
          ap (λ (x : String × String). x.1) (sym e),
        )
    there (Memᴰ.tail m) = inl m

    pair : u ≡ user → n ≡ name → Path (String × String) (user, name) (u, n)
    pair p q = cc

module _ (user name : String) (pod : Pod) (pods : List Pod) where
  first_or_rest : IsGpuPod (pod ∷ pods) user name → IsGpuPod pods user name ⊎ IsPodOf user name pod
  first_or_rest (p, Memᴰ.head e, is) = inr (subst (IsPodOf user name) e is)
  first_or_rest (p, Memᴰ.tail m, is) = inl (p, m, is)

  in_rest : IsGpuPod pods user name → IsGpuPod (pod ∷ pods) user name
  in_rest (p, m, is) = (p, Memᴰ.tail m, is)

  taken :
      (str_eq pod.phase "Running" && pod_holds_gpu pod) ≡ true
      → (pod_server pod).0 ≡ some user
      → (pod_server pod).1 ≡ name
      → IsPodOf user name pod
  taken e u n = record {
    phase_running = (eq_iff pod.phase "Running").0 (ground (arith, e));
    holds = ground (arith, e);
    of_user = u;
    of_name = n;
  }

  left_out : (str_eq pod.phase "Running" && pod_holds_gpu pod) ≡ false → IsPodOf user name pod → ⊥
  left_out e is =
      let running = (eq_iff pod.phase "Running").1 is.phase_running in
      let holds = is.holds in ground arith

pub gpu_servers_iff :
    (user name : String) (pods : List Pod)
    → Memᴰ (user, name) (gpu_servers pods) ↔ IsGpuPod pods user name
unfolding gpu_servers
gpu_servers_iff user name [] = ((λ m. elim m [ ]), (λ (p, m, is). elim m [ ]))
gpu_servers_iff user name (pod ∷ pods) =
    let rest = gpu_servers_iff user name pods in
    let here = add_server_iff user name (pod_server pod) (gpu_servers pods) in
    elim (Bool-cases (str_eq pod.phase "Running" && pod_holds_gpu pod)) [
      | inl yes_ ↦ rw yes_ (
        (λ m. elim (here.0 m) [
          | inl later ↦ in_rest user name pod pods (rest.0 later)
          | inr (u, n) ↦ (pod, Memᴰ.head refl, taken user name pod pods yes_ u n)
        ]),
        (λ g. elim (first_or_rest user name pod pods g) [
          | inl later ↦ here.1 (inl (rest.1 later))
          | inr is ↦ here.1 (inr (is.of_user, is.of_name))
        ]),
      )
      | inr no_ ↦ rw no_ (
        (λ m. in_rest user name pod pods (rest.0 m)),
        (λ g. elim (first_or_rest user name pod pods g) [
          | inl later ↦ rest.1 later
          | inr is ↦ absurd (left_out user name pod pods no_ is)
        ]),
      )
    ]
