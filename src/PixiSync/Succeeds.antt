-- ===== src/PixiSync/Succeeds.antt =====
-- What a success of the steps that sync-global-env.py's reconcile tries leaves behind.
use purdue_af.Common.{
  Bool, true, false, ◌==◌, Option, none, some, List, [], ◌∷◌, ◌≡◌, refl, subst, by_if,
}
use purdue_af.Common.Exec.{Outcome, ok, err, ◌>>=◌, ◌>>◌, continue}
use purdue_af.Common.Result.{err≢ok, ok_eq}
use purdue_af.PixiSync.{
  Manifests, Act, staged, wiped, ran_install, purged, validated, Daemon, Run, exited, raised, Round,
  Answers, Raised, Step, act, write_toml, write_lock, stage_manifests, wipe_env_prefix,
  pixi_install, validate_env, validated_by, build, after_second, after_first, wipe_sick, sync,
}

-- The manifests staged last.
abbrev pub IsStaged : Manifests → List Act → Type 0
IsStaged m [] = ⊥
IsStaged m (staged n ∷ acts) = n ≡ m
IsStaged m (wiped ∷ acts) = IsStaged m acts
IsStaged m (ran_install ∷ acts) = IsStaged m acts
IsStaged m (purged ∷ acts) = IsStaged m acts
IsStaged m (validated b ∷ acts) = IsStaged m acts

-- Since then they were installed, and nothing was wiped after it.
abbrev pub IsBuilt : Manifests → List Act → Type 0
IsBuilt m (purged ∷ ran_install ∷ acts) = IsStaged m acts
IsBuilt m (validated b ∷ acts) = IsBuilt m acts
IsBuilt m _ = ⊥

-- And what was installed was found valid by the last validation.
abbrev pub IsProven : Manifests → List Act → Type 0
IsProven m (validated true ∷ acts) = IsBuilt m acts
IsProven m _ = ⊥

abbrev pub IsLive : Manifests → Daemon → Type 0
IsLive m d = (d.live_toml ≡ some m.toml) × (d.live_lock ≡ some m.lock)

-- Where the first holds before a step that succeeds, the second holds after it.
pub record Leads {A : Type 0} (P : Daemon → Type 0) (s : Step A) (Q : A → Daemon → Type 0)
    : Type 0 where
  pub at : (d : Daemon) → P d → (a : A) → (s d).0 ≡ ok a → Q a (s d).1

Leads-bind :
    {A B : Type 0} {P : Daemon → Type 0} {Q : A → Daemon → Type 0} {R : B → Daemon → Type 0}
    (s : Step A) (f : A → Step B)
    → Leads P s Q
    → ((a : A) → Leads (Q a) (f a) R)
    → Leads P (s >>= f) R
Leads-bind {Q = Q} {R = R} s f first next = record {
  at = λ d p b e. go (s d).0 (s d).1 (first.at d p) b e;
}
  where
    go :
        (o : Outcome Raised _) (d : Daemon)
        → ((a : _) → o ≡ ok a → Q a d)
        → (b : _) → (continue o f d).0 ≡ ok b
        → R b (continue o f d).1
    go (ok a) d q b e = (next a).at d (q a refl) b e
    go (err x) d q b e = absurd (err≢ok _ _ e)

module _ (m : Manifests) where
  abbrev pub Ready : Daemon → Type 0
  Ready d = IsLive m d × IsStaged m d.acts

  abbrev pub Done : Bool → Daemon → Type 0
  Done true d = IsLive m d × IsProven m d.acts
  Done false d = Ready d

  stage_manifests-Leads : (a : Answers) → Leads (λ d. Unit {0}) (stage_manifests a m) (λ _. Ready)
  unfolding stage_manifests
  stage_manifests-Leads a = record { at = λ d p u e. go a.toml_written a.lock_written d u e }
    where
      go :
          (t l : Bool) (d : Daemon) (u : Unit {0})
          → ((write_toml t m >> (write_lock l m >> act (staged m))) d).0 ≡ ok u
          → Ready ((write_toml t m >> (write_lock l m >> act (staged m))) d).1
      go true true d u e = ((refl, refl), refl)
      go true false d u e = absurd (err≢ok _ _ e)
      go false l d u e = absurd (err≢ok _ _ e)

  wipe_env_prefix-Ready : (whole : Bool) (d : Daemon) → Ready d → Ready (wipe_env_prefix whole d).1
  unfolding wipe_env_prefix
  wipe_env_prefix-Ready whole d p = p

  wipe_env_prefix-Leads : (whole : Bool) → Leads Ready (wipe_env_prefix whole) (λ _. Ready)
  wipe_env_prefix-Leads whole = record { at = λ d p u e. wipe_env_prefix-Ready whole d p }

  wipe_sick-Leads : (a : Answers) → Leads Ready (wipe_sick a) (λ _. Ready)
  wipe_sick-Leads a = record {
    at = λ d p u e.
        by_if {A = Outcome Raised (Unit {0}) × Daemon} (λ x. Ready x.1) d.env_healthy (ok tt, d)
          (wipe_env_prefix a.first_wipe d) (λ _. p) (λ _. (wipe_env_prefix-Ready a.first_wipe d p));
  }

  pixi_install-Leads :
      (r : Round) → Leads Ready (pixi_install r) (λ _ d. IsLive m d × IsBuilt m (purged ∷ d.acts))
  unfolding pixi_install
  pixi_install-Leads r = record { at = λ d p u e. p }

  purge-Leads :
      Leads
        (λ d. IsLive m d × IsBuilt m (purged ∷ d.acts))
        (act purged)
        (λ _ d. IsLive m d × IsBuilt m d.acts)
  purge-Leads = record { at = λ d p u e. p }

  built_Staged : (acts : List Act) → IsBuilt m acts → IsStaged m acts
  built_Staged [] h = h
  built_Staged (staged n ∷ acts) h = absurd h
  built_Staged (wiped ∷ acts) h = absurd h
  built_Staged (ran_install ∷ acts) h = absurd h
  built_Staged (purged ∷ []) h = absurd h
  built_Staged (purged ∷ staged n ∷ acts) h = absurd h
  built_Staged (purged ∷ wiped ∷ acts) h = absurd h
  built_Staged (purged ∷ ran_install ∷ acts) h = h
  built_Staged (purged ∷ purged ∷ acts) h = absurd h
  built_Staged (purged ∷ validated b ∷ acts) h = absurd h
  built_Staged (validated b ∷ acts) h = built_Staged acts h

  -- What a validation says of an environment that was built.
  said :
      (d : Daemon) (b : Bool)
      → IsLive m d × IsBuilt m d.acts
      → Done b (record d { acts = validated b ∷ d.acts })
  said d true p = p
  said d false p = (p.0, built_Staged d.acts p.1)

  validated_by-Done :
      (o : Option Run) (d : Daemon)
      → IsLive m d × IsBuilt m d.acts
      → (b : Bool) → (validated_by o d).0 ≡ ok b
      → Done b (validated_by o d).1
  validated_by-Done none d p b e =
      subst (λ c. Done c (record d { acts = validated false ∷ d.acts })) (ok_eq false b e)
        (said d false p)
  validated_by-Done (some raised) d p b e = absurd (err≢ok Raised.interrupted b e)
  validated_by-Done (some (exited code)) d p b e =
      subst (λ c. Done c (record d { acts = validated (code == 0) ∷ d.acts }))
        (ok_eq (code == 0) b e) (said d (code == 0) p)

  validate_env-Leads :
      (r : Round) → Leads (λ d. IsLive m d × IsBuilt m d.acts) (validate_env r) Done
  unfolding validate_env
  validate_env-Leads r = record { at = λ d p b e. validated_by-Done r.validation d p b e }

  build-Leads : (r : Round) → Leads Ready (build r) Done
  unfolding build
  build-Leads r =
      Leads-bind _ _ (pixi_install-Leads r)
        (λ _. Leads-bind _ _ purge-Leads (λ _. validate_env-Leads r))

  after_second-Leads : (b : Bool) → Leads (Done b) (after_second b) (λ _. Done true)
  after_second-Leads true = record { at = λ d p u e. p }
  after_second-Leads false = record { at = λ d p u e. absurd (err≢ok _ _ e) }

  after_first-Leads : (a : Answers) (b : Bool) → Leads (Done b) (after_first a b) (λ _. Done true)
  after_first-Leads a true = record { at = λ d p u e. p }
  after_first-Leads a false =
      Leads-bind _ _ (wipe_env_prefix-Leads a.second_wipe)
        (λ _. Leads-bind _ _ (build-Leads a.second) after_second-Leads)

  pub sync-Leads : (a : Answers) → Leads (λ d. Unit {0}) (sync a m) (λ _. Done true)
  unfolding sync
  sync-Leads a = Leads-bind _ _ (stage_manifests-Leads a) (λ _.
      Leads-bind _ _ (wipe_sick-Leads a)
        (λ _. Leads-bind _ _ (build-Leads a.first) (after_first-Leads a)))
