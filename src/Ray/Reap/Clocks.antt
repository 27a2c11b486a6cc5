-- ===== src/Ray/Reap/Clocks.antt =====
-- The idle clocks over a pass and over passes.
use purdue_af.Common.{
  ℕ, ◌+◌, ◌≤◌, String, ◌≡◌, refl, sym, ap, ◌∙◌, subst, ◌⊎◌, inl, inr, true, false, some, List, [],
  ◌∷◌, arith, All, All-map, All-mem, leb, if◌then◌else◌, or_default, is_text, str_eq, eq_iff,
  eq_refl, Bool-cases,
}
use mathlib.Core.List.{Memᴰ}
use purdue_af.Common.Dict.{Dict, get}
use purdue_af.Ray.Reap.{
  Cluster, Gateway, Limits, unprovisioned, busy, reap_cluster, reap_all, reap_idle,
}
use purdue_af.Ray.Reap.Choice.{
  AreApart, goes, clock, chosen, reap_cluster-last_used, reap_all-asked,
}

reap_all-unlisted :
    (k : Limits) (now wall : ℕ) (cs : List Cluster) (g : Gateway) (j : String)
    → All (λ d. str_eq d.name j ≡ false) cs
    → get j (reap_all k now wall cs g).last_used ≡ get j g.last_used
unfolding reap_all
reap_all-unlisted k now wall [] g j h = refl
reap_all-unlisted k now wall (c ∷ cs) g j h =
    reap_all-unlisted k now wall cs (reap_cluster k now wall c g).1 j h.1
    ∙ reap_cluster-last_used k now wall c g j
    ∙ rw h.0 refl

flip_ne : (a b : String) → str_eq a b ≡ false → str_eq b a ≡ false
flip_ne a b h = ground (arith, eq_iff a b, eq_iff b a)

-- After a pass over clusters of different names, each listed one was last used when the clock of its
-- own turn says.
pub reap_all-clock :
    (k : Limits) (now wall : ℕ) (cs : List Cluster) (g : Gateway) (c : Cluster)
    → AreApart cs
    → Memᴰ c cs
    → get c.name (reap_all k now wall cs g).last_used ≡ clock k now wall c (get c.name g.last_used)
unfolding reap_all
reap_all-clock k now wall [] g c apart m = elim m [ ]
reap_all-clock k now wall (d ∷ ds) g c apart (Memᴰ.head e) =
    subst
      (λ x.
        get x.name (reap_all k now wall (d ∷ ds) g).last_used
        ≡ clock k now wall x (get x.name g.last_used))
      (sym e)
      (reap_all-unlisted k now wall ds (reap_cluster k now wall d g).1 d.name (
          All-map {P = λ x. str_eq d.name x.name ≡ false} {Q = λ x. str_eq x.name d.name ≡ false}
            (λ x h. flip_ne d.name x.name h) ds apart.0)
        ∙ reap_cluster-last_used k now wall d g d.name
        ∙ rw (eq_refl d.name) refl)
reap_all-clock k now wall (d ∷ ds) g c apart (Memᴰ.tail t) =
    let g1 = (reap_cluster k now wall d g).1 in
    let other = All-mem (λ x. str_eq d.name x.name ≡ false) c ds apart.0 t in
    let same_clock : get c.name g1.last_used ≡ get c.name g.last_used =
      reap_cluster-last_used k now wall d g c.name ∙ rw other refl in
    reap_all-clock k now wall ds g1 c apart.1 t ∙ ap (clock k now wall c) same_clock

chosen-keeps :
    (k : Limits) (now wall : ℕ) (last : Dict ℕ) (cs : List Cluster) (asked : List String)
    (n : String)
    → Memᴰ n asked
    → Memᴰ n (chosen k now wall last cs asked)
chosen-keeps k now wall last [] asked n m = m
chosen-keeps k now wall last (c ∷ cs) asked n m =
    elim (Bool-cases (goes k now wall c (or_default (get c.name last) now))) [
      | inl e ↦ rw e (chosen-keeps k now wall last cs (c.name ∷ asked) n (Memᴰ.tail m))
      | inr e ↦ rw e (chosen-keeps k now wall last cs asked n m)
    ]

chosen-goes :
    (k : Limits) (now wall : ℕ) (last : Dict ℕ) (cs : List Cluster) (asked : List String)
    (c : Cluster)
    → Memᴰ c cs
    → goes k now wall c (or_default (get c.name last) now) ≡ true
    → Memᴰ c.name (chosen k now wall last cs asked)
chosen-goes k now wall last [] asked c m h = elim m [ ]
chosen-goes k now wall last (d ∷ ds) asked c (Memᴰ.head e) h =
    let hd = subst (λ x. goes k now wall x (or_default (get x.name last) now) ≡ true) e h in
    subst (λ x. Memᴰ x.name (chosen k now wall last (d ∷ ds) asked)) (sym e)
      (rw hd (chosen-keeps k now wall last ds (d.name ∷ asked) d.name (Memᴰ.head refl)))
chosen-goes k now wall last (d ∷ ds) asked c (Memᴰ.tail t) h =
    chosen-goes k now wall last ds
      (if goes k now wall d (or_default (get d.name last) now) then d.name ∷ asked else asked) c t h

-- One pass, whose listing Kubernetes gives.
pub record Round : Type 0 where
  pub now : ℕ
  pub wall : ℕ
  pub listing : List Cluster

abbrev pub passes : Limits → List Round → Gateway → Gateway
passes k [] g = g
passes k (r ∷ rs) g = passes k rs (reap_idle k r.now r.wall 200 r.listing g)

-- The cluster is listed, belongs to no Ray job, is within its time to provision and is not busy.
abbrev pub IsQuiet : Limits → String → Round → Type 0
IsQuiet k n r =
    AreApart r.listing
    × (c : Cluster) × Memᴰ c r.listing
    × (c.name ≡ n)
    × (is_text c.origin "RayJob" ≡ false)
    × (unprovisioned k.provision_timeout c r.wall ≡ false)
    × (busy c ≡ false)

-- It was asked for, or still counts as used last at the one time.
abbrev Waits : String → ℕ → Gateway → Type 0
Waits n last g = Memᴰ n g.asked ⊎ (get n g.last_used ≡ some last)

pass-Waits :
    (k : Limits) (n : String) (last : ℕ) (r : Round) (g : Gateway)
    → IsQuiet k n r
    → Waits n last g
    → Waits n last (reap_idle k r.now r.wall 200 r.listing g)
unfolding reap_idle
pass-Waits k n last r g (apart, c, m, e, o, u, b) (inl a) = inl (
    rw (reap_all-asked k r.now r.wall r.listing g apart)
      (chosen-keeps k r.now r.wall g.last_used r.listing g.asked n a))
pass-Waits k n last r g (apart, c, m, e, o, u, b) (inr l) =
    let l' : get c.name g.last_used ≡ some last = rw e l in
    elim (Bool-cases (leb (last + k.idle_timeout) r.now)) [
      | inl t ↦ inl (
          rw (reap_all-asked k r.now r.wall r.listing g apart) (
            rw (← e)
              (chosen-goes k r.now r.wall g.last_used r.listing g.asked c m (rw (o, u, b, l') t))))
      | inr t ↦ inr (
          rw (← e) (reap_all-clock k r.now r.wall r.listing g c apart m ∙ rw (o, u, b, l', t) refl))
    ]

passes-Waits :
    (k : Limits) (n : String) (last : ℕ) (rs : List Round) (g : Gateway)
    → All (IsQuiet k n) rs
    → Waits n last g
    → Waits n last (passes k rs g)
passes-Waits k n last [] g h w = w
passes-Waits k n last (r ∷ rs) g h w =
    passes-Waits k n last rs (reap_idle k r.now r.wall 200 r.listing g) h.1
      (pass-Waits k n last r g h.0 w)

-- A cluster that no call uses, and that every pass finds quiet (listed under its name alone, no Ray
-- job's, within its time to provision, not busy), is asked to be deleted by the end of a pass that
-- starts the idle time or more after it was last used, after however many passes before.
pub passes-deletes :
    (k : Limits) (n : String) (last : ℕ) (rs : List Round) (r : Round) (g : Gateway)
    → get n g.last_used ≡ some last
    → All (IsQuiet k n) rs
    → IsQuiet k n r
    → last + k.idle_timeout ≤ r.now
    → Memᴰ n (reap_idle k r.now r.wall 200 r.listing (passes k rs g)).asked
unfolding reap_idle
passes-deletes k n last rs r g h quiet (apart, c, m, e, o, u, b) late =
    let s = passes k rs g in
    elim (passes-Waits k n last rs g quiet (inr h)) [
      | inl a ↦
          rw (reap_all-asked k r.now r.wall r.listing s apart)
            (chosen-keeps k r.now r.wall s.last_used r.listing s.asked n a)
      | inr l ↦
          let l' : get c.name s.last_used ≡ some last = rw e l in
          let t : leb (last + k.idle_timeout) r.now ≡ true = ground (arith, late) in
          rw (reap_all-asked k r.now r.wall r.listing s apart) (
            rw (← e)
              (chosen-goes k r.now r.wall s.last_used r.listing s.asked c m (rw (o, u, b, l') t)))
    ]
