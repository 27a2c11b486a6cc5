-- ===== src/Ray/Reap/Choice.antt =====
-- Which clusters the reaper asks Kubernetes to delete.
use purdue_af.Common.{
  ℕ, ◌+◌, String, ◌≡◌, refl, ◌∙◌, inl, inr, Bool, true, false, Option, none, some, List, [], ◌∷◌,
  arith, All, All-map, leb, if◌then◌else◌, or_default, is_text, str_eq, eq_iff, Bool-cases,
}
use purdue_af.Common.Dict.{Dict, get, put, get-put, get-remove}
use purdue_af.Ray.Reap.{
  Cluster, Gateway, Limits, unprovisioned, busy, delete, forget, is_deleted, remove_unprovisioned,
  remove_idle, reap_cluster, reap_all, used_or,
}

-- The names are all different.
abbrev pub AreApart : List Cluster → Type 0
AreApart [] = Unit
AreApart (c ∷ cs) = All (λ d. str_eq c.name d.name ≡ false) cs × AreApart cs

-- Whether a cluster goes, by when it was last used.
abbrev pub goes : Limits → ℕ → ℕ → Cluster → ℕ → Bool
goes k now wall c last =
    if is_text c.origin "RayJob"
    then false
    else if unprovisioned k.provision_timeout c wall
    then true
    else if busy c
    then false
    else leb (last + k.idle_timeout) now

reap_cluster-asked :
    (k : Limits) (now wall : ℕ) (c : Cluster) (g : Gateway)
    → (reap_cluster k now wall c g).1.asked
      ≡ (if goes k now wall c (used_or c now g) then c.name ∷ g.asked else g.asked)
unfolding reap_cluster remove_unprovisioned remove_idle delete forget
reap_cluster-asked k now wall c g = elim (Bool-cases (is_text c.origin "RayJob")) [
  | inl o ↦ rw o refl
  | inr o ↦ elim (Bool-cases (unprovisioned k.provision_timeout c wall)) [
    | inl u ↦ elim (Bool-cases (is_deleted c.delete_status)) [
      | inl d ↦ rw (o, u, d) refl
      | inr d ↦ rw (o, u, d) refl
    ]
    | inr u ↦ elim (Bool-cases (busy c)) [
      | inl b ↦ rw (o, u, b) refl
      | inr b ↦ elim (Bool-cases (leb (used_or c now g + k.idle_timeout) now)) [
        | inl l ↦ elim (Bool-cases (is_deleted c.delete_status)) [
          | inl d ↦ rw (o, u, b, l, d) refl
          | inr d ↦ rw (o, u, b, l, d) refl
        ]
        | inr l ↦ rw (o, u, b, l) refl
      ]
    ]
  ]
]

-- When a cluster counts as last used after its turn.
abbrev pub clock : Limits → ℕ → ℕ → Cluster → Option ℕ → Option ℕ
clock k now wall c last =
    if is_text c.origin "RayJob"
    then last
    else if unprovisioned k.provision_timeout c wall
    then (if is_deleted c.delete_status then none else last)
    else if busy c
    then some now
    else if leb (or_default last now + k.idle_timeout) now
    then (if is_deleted c.delete_status then none else some (or_default last now))
    else some (or_default last now)

pub reap_cluster-last_used :
    (k : Limits) (now wall : ℕ) (c : Cluster) (g : Gateway) (j : String)
    → get j (reap_cluster k now wall c g).1.last_used
      ≡ (if str_eq c.name j then clock k now wall c (get c.name g.last_used) else get j g.last_used)
unfolding reap_cluster remove_unprovisioned remove_idle delete forget
reap_cluster-last_used k now wall c g j = elim (Bool-cases (is_text c.origin "RayJob")) [
  | inl o ↦ rw o (ground (arith, eq_iff c.name j))
  | inr o ↦ elim (Bool-cases (unprovisioned k.provision_timeout c wall)) [
    | inl u ↦ elim (Bool-cases (is_deleted c.delete_status)) [
      | inl d ↦ rw (o, u, d) (get-remove c.name j g.last_used)
      | inr d ↦ rw (o, u, d) (ground (arith, eq_iff c.name j))
    ]
    | inr u ↦ elim (Bool-cases (busy c)) [
      | inl b ↦ rw (o, u, b) (get-put c.name j now g.last_used)
      | inr b ↦ elim (Bool-cases (leb (used_or c now g + k.idle_timeout) now)) [
        | inl l ↦ elim (Bool-cases (is_deleted c.delete_status)) [
          | inl d ↦
              rw (o, u, b, l, d)
                (ground (
                  arith,
                  eq_iff c.name j,
                  get-remove c.name j (put c.name (used_or c now g) g.last_used),
                  get-put c.name j (used_or c now g) g.last_used,
                ))
          | inr d ↦ rw (o, u, b, l, d) (get-put c.name j (used_or c now g) g.last_used)
        ]
        | inr l ↦ rw (o, u, b, l) (get-put c.name j (used_or c now g) g.last_used)
      ]
    ]
  ]
]

-- The names of the clusters that go, the last one first, over those asked for before.
abbrev pub chosen : Limits → ℕ → ℕ → Dict ℕ → List Cluster → List String → List String
chosen k now wall last [] asked = asked
chosen k now wall last (c ∷ cs) asked =
    chosen k now wall last cs
      (if goes k now wall c (or_default (get c.name last) now) then c.name ∷ asked else asked)

chosen-same :
    (k : Limits) (now wall : ℕ) (a b : Dict ℕ) (cs : List Cluster) (asked : List String)
    → All (λ d. get d.name a ≡ get d.name b) cs
    → chosen k now wall a cs asked ≡ chosen k now wall b cs asked
chosen-same k now wall a b [] asked h = refl
chosen-same k now wall a b (c ∷ cs) asked h = rw h.0 (
    chosen-same k now wall a b cs
      (if goes k now wall c (or_default (get c.name b) now) then c.name ∷ asked else asked) h.1)

-- A pass over clusters of different names asks to delete, one by one, exactly those that are no
-- Ray job's and are past their time to provision, or not busy and past their idle time since they
-- were last used, counted from the pass's start if they were never seen before. What the others
-- answer, and how their deletions end, changes nothing for a cluster.
pub reap_all-asked :
    (k : Limits) (now wall : ℕ) (cs : List Cluster) (g : Gateway)
    → AreApart cs
    → (reap_all k now wall cs g).asked ≡ chosen k now wall g.last_used cs g.asked
unfolding reap_all
reap_all-asked k now wall [] g apart = refl
reap_all-asked k now wall (c ∷ cs) g apart =
    let g1 = (reap_cluster k now wall c g).1 in
    let same_clocks =
      All-map {P = λ d. str_eq c.name d.name ≡ false}
        {Q = λ d. get d.name g1.last_used ≡ get d.name g.last_used}
        (λ d e. reap_cluster-last_used k now wall c g d.name ∙ rw e refl) cs apart.0 in
    reap_all-asked k now wall cs g1 apart.1
    ∙ rw (reap_cluster-asked k now wall c g) (
        chosen-same k now wall g1.last_used g.last_used cs
          (if goes k now wall c (used_or c now g) then c.name ∷ g.asked else g.asked) same_clocks)
