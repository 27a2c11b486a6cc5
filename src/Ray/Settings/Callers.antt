-- ===== src/Ray/Settings/Callers.antt =====
-- What the shape of an accepted call is: one that GPUs of config.yaml serve.
use purdue_af.Common.{
  All-mem, ℕ, ◌≤◌, max, ◌≡◌, refl, sym, ap, subst, ◌⊎◌, inl, inr, Bool, true, false, not, none,
  some, List, [], ◌∷◌, arith, All, any_of, any_of-All,
}
use mathlib.Core.List.{Memᴰ}
use purdue_af.Common.Exec.{Outcome, ok}
use purdue_af.Common.Result.{check, after_ok, check-ok, or_refuse, or_refuse-ok, ok_eq}
use purdue_af.Common.Dict.{Dict}
use purdue_af.Common.Text.{Text}
use purdue_af.Ray.Base.{Shape, Site, purdue, nrp, flavors, User, Refusal}
use purdue_af.Ray.Paths.{requested_env}
use purdue_af.Ray.Paths.Storage.{IsNormal}
use purdue_af.Ray.Paths.Storage.{IsAtOrBelow, mounted_env-IsAtOrBelow}
use purdue_af.Ray.Settings.{
  room_for, Config, purdue_shape, cluster_shape, nrp_shape, shape_at, caller, is_unknown, value_of,
  site_of,
}
use purdue_af.Ray.Requested.{
  requested_size, gpu_memory, requested_memory, most_per_worker, requested_per_worker,
  requested_workers, bearer_token,
}
use purdue_af.Ray.Settings.Parts.{
  most_per_worker-mem, HasKind, kind_for, requested_memory-kind, requested_per_worker-bounds,
  InOrder, requested_workers-InOrder,
}

-- The environment is the global one, or a normal path at or below storage that the cluster mounts.
abbrev pub IsOnStorage : Config → List Text → Text → Type 0
IsOnStorage config roots env =
    (env ≡ config.default_env)
    ⊎ (((root : Text) × Memᴰ root roots × IsAtOrBelow root env) × IsNormal env)

requested_env-IsOnStorage :
    (config : Config) (roots : List Text) (value env : Text)
    → requested_env roots config.default_env value ≡ ok env
    → IsOnStorage config roots env
unfolding requested_env
requested_env-IsOnStorage config roots [] env h = inl (sym (ok_eq config.default_env env h))
requested_env-IsOnStorage config roots (c ∷ value) env h =
    inr (mounted_env-IsAtOrBelow roots (c ∷ value) env h)

-- A shape that a cluster at Purdue can be made in.
abbrev pub IsServable : Config → List Text → Shape → Type 0
IsServable config roots shape =
    (shape.site ≡ purdue)
    × InOrder (shape.workers, shape.least)
    × (shape.workers ≤ max 1 (room_for config.kinds shape))
    × (1 ≤ shape.per_worker)
    × HasKind config.kinds shape.memory shape.per_worker
    × IsOnStorage config roots shape.env

some_worker :
    (config : Config) (value : Text) (memory : ℕ)
    → All (λ f. 1 ≤ f.per_worker) config.kinds
    → requested_memory config.kinds config.reads value ≡ ok memory
    → 1 ≤ most_per_worker memory config.kinds
some_worker config value memory ones p =
    let (f, m, e) = requested_memory-kind config.kinds config.reads value memory p in
    let most = most_per_worker-mem f config.kinds memory m (omega (arith, e)) in
    let one = All-mem (λ f. 1 ≤ f.per_worker) f config.kinds ones m in omega (arith, most, one)

purdue_shape-kind :
    (config : Config) (roots : List Text) (values : Dict Text) (shape : Shape)
    → All (λ f. 1 ≤ f.per_worker) config.kinds
    → purdue_shape config roots values ≡ ok shape
    → (shape.site ≡ purdue)
      × (1 ≤ shape.per_worker)
      × HasKind config.kinds shape.memory shape.per_worker
      × IsOnStorage config roots shape.env
unfolding purdue_shape
purdue_shape-kind config roots values shape ones h =
    after_ok (requested_memory config.kinds config.reads _) _ shape h λ memory p1 h1.
      after_ok (requested_env roots config.default_env _) _ shape h1 λ env p2 h2.
        after_ok (requested_size (value_of "af-cpus-per-worker" values) _ _ _) _ shape h2
          λ cpus p3 h3.
            after_ok (requested_size (value_of "af-ram-per-worker-gb" values) _ _ _) _ shape h3
              λ ram p4 h4.
                after_ok (requested_per_worker config.kinds _ memory) _ shape h4 λ per_worker p5 h5.
                  let (least, most) =
                    requested_per_worker-bounds config.kinds _ memory per_worker
                      (some_worker config _ memory ones p1) p5 in
                  rw (← ok_eq _ shape h5) (
                    refl,
                    least,
                    kind_for config.kinds memory per_worker least most,
                    requested_env-IsOnStorage config roots _ env p2,
                  )

cluster_shape-IsServable :
    (config : Config) (roots : List Text) (values : Dict Text) (shape : Shape)
    → All (λ f. 1 ≤ f.per_worker) config.kinds
    → cluster_shape config roots values ≡ ok shape
    → IsServable config roots shape
unfolding cluster_shape flavors
cluster_shape-IsServable config roots values shape ones h =
    after_ok (purdue_shape config roots values) _ shape h λ made p1 h1.
      after_ok (requested_workers _ _ (some (room_for config.kinds made))) _ shape h1 λ asked p2 h2.
        let (order, most) =
          requested_workers-InOrder _ _ (some (room_for config.kinds made)) asked p2 in
        let (site, one, kind, env) = purdue_shape-kind config roots values made ones p1 in
        rw (← ok_eq _ shape h2) (site, order, most, one, kind, env)

nrp_shape-InOrder :
    (config : Config) (values : Dict Text) (shape : Shape)
    → nrp_shape config values ≡ ok shape
    → (shape.site ≡ nrp) × InOrder (shape.workers, shape.least)
unfolding nrp_shape
nrp_shape-InOrder config values shape h = after_ok (check _ _) _ shape h λ done p1 h1.
    after_ok (requested_workers _ _ none) _ shape h1 λ asked p2 h2.
      after_ok (gpu_memory config.reads _) _ shape h2 λ memory p3 h3.
        let (order, most) = requested_workers-InOrder _ _ none asked p2 in
        subst (λ s. (s.site ≡ nrp) × InOrder (s.workers, s.least)) (ok_eq _ shape h3) (refl, order)

-- What an accepted call asks for: a cluster at Purdue, or a job on NRP.
abbrev pub IsAccepted : Config → User → Shape → Type 0
IsAccepted config user shape =
    IsServable config (config.roots user) shape
    ⊎ ((shape.site ≡ nrp) × InOrder (shape.workers, shape.least))

shape_at-IsAccepted :
    (site : Site) (config : Config) (user : User) (values : Dict Text) (shape : Shape)
    → All (λ f. 1 ≤ f.per_worker) config.kinds
    → shape_at site config (config.roots user) values ≡ ok shape
    → IsAccepted config user shape
unfolding shape_at
shape_at-IsAccepted purdue config user values shape ones h =
    inl (cluster_shape-IsServable config (config.roots user) values shape ones h)
shape_at-IsAccepted nrp config user values shape ones h =
    inr (nrp_shape-InOrder config values shape h)

not-true : (b : Bool) → not b ≡ true → b ≡ false
not-true b h = ground arith

-- Where each kind of GPU gives a worker one or more (maxPerWorker is 1 or more), a call is accepted
-- only if none of its headers is an unknown setting, its user is who `user_for` says its token is,
-- and what it asks for can be had: at Purdue one worker or more to start with and no more than all,
-- no more of them than the budgets of the kinds that serve it allow (or one), a kind of GPU that has
-- the memory and the GPUs of a worker, and an environment that is the global one or at or below
-- storage that the user's cluster mounts; on NRP one worker or more to start with and no more than
-- all.
pub caller-IsAccepted :
    (config : Config) (service_token : Text) (user_for : Text → Outcome Refusal User)
    (values : Dict Text) (user : User) (shape : Shape)
    → All (λ f. 1 ≤ f.per_worker) config.kinds
    → caller config service_token user_for values ≡ ok (user, shape)
    → All (λ v. is_unknown v.0 ≡ false) values
      × ((token : Text) × (bearer_token (value_of "authorization" values) ≡ some token)
          × (user_for token ≡ ok user))
      × IsAccepted config user shape
unfolding caller
caller-IsAccepted config service_token user_for values user shape ones h =
    after_ok (check _ _) _ _ h λ done p1 h1.
      after_ok (or_refuse (bearer_token _) _) _ _ h1 λ token p2 h2.
        after_ok (check (not (any_of (λ v. is_unknown v.0) values)) _) _ _ h2 λ known p3 h3.
          after_ok (or_refuse (site_of _) _) _ _ h3 λ site p4 h4.
            after_ok (user_for token) _ _ h4 λ owner p5 h5.
              after_ok (shape_at site config _ _) _ _ h5 λ made p6 h6.
                let e : Path (User × Shape) (owner, made) (user, shape) = ok_eq _ _ h6 in
                let owner_eq : owner ≡ user = ap (λ p. p.0) e in
                let made_eq : made ≡ shape = ap (λ p. p.1) e in
                (
                  any_of-All (λ v. is_unknown v.0) values (not-true _ (check-ok _ _ p3)),
                  (token, or_refuse-ok _ _ token p2, rw (← owner_eq) p5),
                  rw (← owner_eq, ← made_eq)
                      (shape_at-IsAccepted site config owner values made ones p6),
                )
