-- ===== src/PixiSync/Proven.antt =====
-- What the variables of sync-global-env.py stand for, and that the steps reconcile tries leave them.
use purdue_af.Common.{
  Bool, true, false, Option, none, some, List, [], ◌∷◌, ◌≡◌, sym, ◌∙◌, by_if, none≢some,
}
use purdue_af.Common.Exec.{Outcome, ok}
use purdue_af.Common.Exec.Keeps.{Keeps, Keeps-bind}
use purdue_af.PixiSync.{
  Manifests, Act, staged, wiped, ran_install, purged, validated, Daemon, Run, exited, raised, Round,
  Answers, Raised, act, write_toml, write_lock, stage_manifests, wipe_env_prefix, pixi_install,
  validate_env, validated_by, build, after_second, after_first, wipe_sick, sync,
}
use purdue_af.PixiSync.Succeeds.{IsBuilt, IsProven}

-- What the daemon remembers as installed was installed, with no wipe since, and while the environment
-- counts as healthy the last validation found it valid.
abbrev pub Known : Daemon → Type 0
Known d =
    (i : Manifests)
    → d.installed ≡ some i
    → IsBuilt i d.acts × (d.env_healthy ≡ true → IsProven i d.acts)

abbrev pub Forgot : Daemon → Type 0
Forgot d = d.installed ≡ none

pub Forgot-Known : (d : Daemon) → Forgot d → Known d
Forgot-Known d f i e = absurd (none≢some (sym f ∙ e))

-- Nothing that reconcile tries remembers an installation.
Keeps-act : (x : Act) → Keeps Forgot (act x)
Keeps-act x = record { at = λ d h. h }

module _ (m : Manifests) where
  Keeps-stage : (a : Answers) → Keeps Forgot (stage_manifests a m)
  unfolding stage_manifests
  Keeps-stage a =
      Keeps-bind _ _ (toml a.toml_written)
        (λ _. Keeps-bind _ _ (lock a.lock_written) (λ _. Keeps-act (staged m)))
    where
      toml : (b : Bool) → Keeps Forgot (write_toml b m)
      toml true = record { at = λ d h. h }
      toml false = record { at = λ d h. h }

      lock : (b : Bool) → Keeps Forgot (write_lock b m)
      lock true = record { at = λ d h. h }
      lock false = record { at = λ d h. h }

Keeps-wipe : (b : Bool) → Keeps Forgot (wipe_env_prefix b)
unfolding wipe_env_prefix
Keeps-wipe b = record { at = λ d h. h }

Keeps-wipe_sick : (a : Answers) → Keeps Forgot (wipe_sick a)
Keeps-wipe_sick a = record {
  at = λ d h.
      by_if {A = Outcome Raised (Unit {0}) × Daemon} (λ x. Forgot x.1) d.env_healthy (ok tt, d)
        (wipe_env_prefix a.first_wipe d) (λ _. h) (λ _. (Keeps-wipe a.first_wipe).at d h);
}

Keeps-build : (r : Round) → Keeps Forgot (build r)
unfolding build pixi_install validate_env
Keeps-build r =
    Keeps-bind (pixi_install r) _ (record { at = λ d h. h })
      (λ _. Keeps-bind (act purged) _ (Keeps-act purged) (λ _. checked r.validation))
  where
    checked : (o : Option Run) → Keeps Forgot (validated_by o)
    checked none = record { at = λ d h. h }
    checked (some raised) = record { at = λ d h. h }
    checked (some (exited c)) = record { at = λ d h. h }

pub Keeps-sync : (a : Answers) (m : Manifests) → Keeps Forgot (sync a m)
unfolding sync
Keeps-sync a m =
    Keeps-bind _ _ (Keeps-stage m a)
      (λ _. Keeps-bind _ _ (Keeps-wipe_sick a) (λ _. Keeps-bind _ _ (Keeps-build a.first) first))
  where
    second : (b : Bool) → Keeps Forgot (after_second b)
    second true = record { at = λ d h. h }
    second false = record { at = λ d h. h }

    first : (b : Bool) → Keeps Forgot (after_first a b)
    first true = record { at = λ d h. h }
    first false =
        Keeps-bind _ _ (Keeps-wipe a.second_wipe)
          (λ _. Keeps-bind _ _ (Keeps-build a.second) second)

pub IsProven-IsBuilt : (m : Manifests) (acts : List Act) → IsProven m acts → IsBuilt m acts
IsProven-IsBuilt m [] h = absurd h
IsProven-IsBuilt m (staged n ∷ acts) h = absurd h
IsProven-IsBuilt m (wiped ∷ acts) h = absurd h
IsProven-IsBuilt m (ran_install ∷ acts) h = absurd h
IsProven-IsBuilt m (purged ∷ acts) h = absurd h
IsProven-IsBuilt m (validated true ∷ acts) h = h
IsProven-IsBuilt m (validated false ∷ acts) h = absurd h
