-- ===== src/PixiSync/Passes.antt =====
-- The daemon of sync-global-env.py over its passes, with what others write in between.
use purdue_af.Common.{
  ◌-◌, Bool, true, false, not, ◌==◌, ◌&&◌, Option, none, some, ◌∷◌, ltb, ◌≡◌, refl, ◌∙◌, ap, subst,
  arith, some_eq, by_if,
}
use purdue_af.Common.Exec.{Outcome, ok, err}
use purdue_af.Common.Result.{ok_eq}
use purdue_af.Common.Text.{Text, same→eq}
use purdue_af.PixiSync.{
  Manifests, validated, Daemon, at_start, is_file, is_in_sync, is_installed, Run, exited, raised,
  Round, Answers, Raised, after_sync, reconcile_unpaused, reconcile_read, reconcile, pause,
  after_verify, validated_by, validate_env, deep_verify,
}
use purdue_af.PixiSync.Proven.{Known, Forgot, Forgot-Known, Keeps-sync, IsProven-IsBuilt}
use purdue_af.PixiSync.Succeeds.{IsProven, IsLive, Done, sync-Leads}

-- What a pass leaves that is not paused and succeeds.
abbrev Succeeds : Manifests → Outcome Raised Bool × Daemon → Type 0
Succeeds m x = x.0 ≡ ok true → IsLive m x.1 × IsProven m x.1.acts

is_file_eq : (f : Option Text) (t : Text) → is_file f t ≡ true → f ≡ some t
is_file_eq none t e = cc
is_file_eq (some g) t e = ap some (same→eq g t e)

is_in_sync-IsLive : (d : Daemon) (m : Manifests) → is_in_sync d m ≡ true → IsLive m d
unfolding is_in_sync
is_in_sync-IsLive d m e = (
  is_file_eq d.live_toml m.toml (ground (arith, e)),
  is_file_eq d.live_lock m.lock (ground (arith, e)),
)

is_installed_eq : (o : Option Manifests) (m : Manifests) → is_installed o m ≡ true → o ≡ some m
unfolding is_installed
is_installed_eq none m e = cc
is_installed_eq (some i) m e =
    ap some
      (both (same→eq i.toml m.toml (ground (arith, e))) (same→eq i.lock m.lock (ground (arith, e))))
  where
    of : Text → Text → Manifests
    of t l = record { toml = t; lock = l }

    both : i.toml ≡ m.toml → i.lock ≡ m.lock → i ≡ m
    both p q = ap (λ t. of t i.lock) p ∙ ap (λ l. of m.toml l) q

-- What becomes of the invariant, and what a success means.
abbrev Fine : Manifests → Outcome Raised Bool × Daemon → Type 0
Fine m x = Known x.1 × Succeeds m x

false-true : false ≡ true → ⊥
false-true e = cc

after_sync-Fine :
    (a : Answers) (m : Manifests) (x : Outcome Raised (Unit {0}) × Daemon)
    → (x.0 ≡ ok tt → Done m true x.1)
    → Forgot x.1
    → Fine m (after_sync a m x)
after_sync-Fine a m (ok u, d) done forgot =
    let (live, proven) = done refl in
    (
      (λ i e.
          let p = subst (λ n. IsProven n d.acts) (some_eq m i e) proven in
          (IsProven-IsBuilt i d.acts p, λ _. p)),
      λ t. (live, proven),
    )
after_sync-Fine a m (err e, d) done forgot = (
  Forgot-Known (after_sync a m (err e, d)).1 forgot,
  λ t. absurd (false-true (ok_eq false true t)),
)

reconcile_unpaused-Fine :
    (force : Bool) (a : Answers) (m : Manifests) (d : Daemon)
    → Known d
    → Fine m (reconcile_unpaused force a m d)
unfolding reconcile_unpaused
reconcile_unpaused-Fine force a m d known =
    by_if {A = Outcome Raised Bool × Daemon} (Fine m)
      (is_in_sync d m && is_installed d.installed m && not force && d.env_healthy) _ _
      (λ e. (
        known,
        λ t. (
          is_in_sync-IsLive d m (first_of e),
          (known m (is_installed_eq d.installed m (second_of e))).1 (last_of e),
        ),
      ))
      (λ _.
        by_if {A = Outcome Raised Bool × Daemon} (Fine m)
          (not force && ltb (a.now - d.last_failure) 1800000) _ _
          (λ _. (known, λ t. absurd (false-true (ok_eq false true t))))
          (λ _.
            after_sync-Fine a m _ (λ t. (sync-Leads m a).at _ tt tt t)
              ((Keeps-sync a m).at _ refl)))
  where
    first_of :
        (is_in_sync d m && is_installed d.installed m && not force && d.env_healthy) ≡ true
        → is_in_sync d m ≡ true
    first_of e = ground arith

    second_of :
        (is_in_sync d m && is_installed d.installed m && not force && d.env_healthy) ≡ true
        → is_installed d.installed m ≡ true
    second_of e = ground arith

    last_of :
        (is_in_sync d m && is_installed d.installed m && not force && d.env_healthy) ≡ true
        → d.env_healthy ≡ true
    last_of e = ground arith

reconcile_read-Known :
    (force : Bool) (a : Answers) (o : Option Manifests) (d : Daemon)
    → Known d
    → Known (reconcile_read force a o d).1
reconcile_read-Known force a none d known = known
reconcile_read-Known force a (some m) d known =
    by_if {A = Outcome Raised Bool × Daemon} (λ x. Known x.1) a.is_paused (ok true, pause m d) _
      (λ _. Forgot-Known (pause m d) refl)
      (λ _. (reconcile_unpaused-Fine force a m (record d { was_paused = false }) known).0)

reconcile-Known :
    (force : Bool) (a : Answers) (d : Daemon) → Known d → Known (reconcile force a d).1
unfolding reconcile
reconcile-Known force a d known = reconcile_read-Known force a a.desired d known

-- A validation that passes proves what is built; one that fails is remembered until the next success.
after_verify-Known :
    (a : Answers) (o : Option Run) (d : Daemon)
    → Known d
    → Known (after_verify a (validated_by o d)).1
after_verify-Known a none d known =
    reconcile-Known true a _ (λ i e. ((known i e).0, λ h. absurd (false-true h)))
after_verify-Known a (some raised) d known = known
after_verify-Known a (some (exited code)) d known = by (code == 0)
  where
    by : (b : Bool) → Known (after_verify a (ok b, record d { acts = validated b ∷ d.acts })).1
    by true = λ i e. ((known i e).0, λ h. (known i e).0)
    by false = reconcile-Known true a _ (λ i e. ((known i e).0, λ h. absurd (false-true h)))

deep_verify-Known :
    (skipped : Bool) (r : Round) (a : Answers) (d : Daemon)
    → Known d
    → Known (deep_verify skipped r a d).1
unfolding deep_verify validate_env
deep_verify-Known skipped r a d known =
    by_if {A = Outcome Raised Bool × Daemon} (λ x. Known x.1) skipped (ok true, d) _ (λ _. known)
      (λ _. after_verify-Known a r.validation d known)

-- The states of the daemon: its passes, its deep verifications, and others who write the manifests.
pub data Reach : Daemon → Type 0 where
  starts : (toml lock : Option Text) → Reach (at_start toml lock)
  edited :
      {d : Daemon} (toml lock : Option Text)
      → Reach d
      → Reach (record d { live_toml = toml; live_lock = lock })
  reconciled : {d : Daemon} (force : Bool) (a : Answers) → Reach d → Reach (reconcile force a d).1
  verified :
      {d : Daemon} (skipped : Bool) (r : Round) (a : Answers)
      → Reach d
      → Reach (deep_verify skipped r a d).1

Reach-Known : (d : Daemon) → Reach d → Known d
Reach-Known d (starts toml lock) = Forgot-Known (at_start toml lock) refl
Reach-Known d (edited toml lock reach) = Reach-Known _ reach
Reach-Known d (reconciled force a reach) = reconcile-Known force a _ (Reach-Known _ reach)
Reach-Known d (verified skipped r a reach) = deep_verify-Known skipped r a _ (Reach-Known _ reach)

-- After any passes and deep verifications, whatever files and subprocesses answered, and whoever wrote
-- the live manifests in between: a pass that is not paused and says that it succeeded leaves the live
-- manifests as the repository has them, and the environment as it was installed from just those,
-- wiped by nothing since and found valid by the last validation.
pub reconcile-IsProven :
    (d : Daemon)
    → Reach d
    → (force : Bool) (a : Answers) (m : Manifests) → a.desired ≡ some m
    → a.is_paused ≡ false
    → (reconcile force a d).0 ≡ ok true
    → IsLive m (reconcile force a d).1 × IsProven m (reconcile force a d).1.acts
unfolding reconcile
reconcile-IsProven d reach force a m read unpaused success = rw read (
    rw unpaused (
      (reconcile_unpaused-Fine force a m (record d { was_paused = false }) (Reach-Known d reach)).1
        (rw unpaused at (rw read at success))))
