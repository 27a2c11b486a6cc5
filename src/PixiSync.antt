-- ===== src/PixiSync.antt =====
-- sync-global-env.py (apps/af-utils/pixi-global-sync): the daemon that keeps an installed environment
-- in sync with the repository's manifests. The state is the live manifests, the module's variables and
-- the metrics that decisions read (1.0 is `true`), with the log of what was done to the environment,
-- the last first. What files, subprocesses and the clock answer is an argument. Times are milliseconds.
pub mod Succeeds
pub mod Proven
pub mod Passes
pub mod Lock
mod Examples
use purdue_af.Common.{
  ℕ, zero, suc, ◌+◌, ◌-◌, Bool, true, false, not, ◌&&◌, Option, none, some, List, [], ◌∷◌, ltb,
  ◌==◌, if◌then◌else◌,
}
use purdue_af.Common.Exec.{Outcome, ok, err, Exec, ◌>>=◌, ◌>>◌, pure}
use purdue_af.Common.Text.{Text, same}

-- pixi.toml and pixi.lock
pub record Manifests : Type 0 where
  pub toml : Text
  pub lock : Text

pub data Act : Type 0 where
  staged : Manifests → Act
  wiped ran_install purged : Act
  validated : Bool → Act

pub record Daemon : Type 0 where
  pub live_toml : Option Text
  pub live_lock : Option Text
  pub was_paused : Bool
  pub installed : Option Manifests
  pub last_failure : ℕ
  pub paused : Bool
  pub in_sync : Bool
  pub env_healthy : Bool
  pub syncs_total : ℕ
  pub sync_failures_total : ℕ
  pub last_success : ℕ
  pub acts : List Act

abbrev pub at_start : Option Text → Option Text → Daemon
at_start toml lock = record {
  live_toml = toml;
  live_lock = lock;
  was_paused = false;
  installed = none;
  last_failure = 0;
  paused = false;
  in_sync = false;
  env_healthy = true;
  syncs_total = 0;
  sync_failures_total = 0;
  last_success = 0;
  acts = [];
}

abbrev pub is_file : Option Text → Text → Bool
is_file none bytes = false
is_file (some file) bytes = same file bytes

unfoldable pub is_in_sync : Daemon → Manifests → Bool
is_in_sync d m = is_file d.live_toml m.toml && is_file d.live_lock m.lock

-- `installed == desired`
unfoldable pub is_installed : Option Manifests → Manifests → Bool
is_installed none m = false
is_installed (some i) m = same i.toml m.toml && same i.lock m.lock

-- What a subprocess ends with: its code, or what run_with_heartbeat raises.
pub data Run : Type 0 where
  exited : ℕ → Run
  raised : Run

-- One round of an installation and its validation: each attempt's end by its number, whether the
-- daemon is stopped in the wait after it, and the validation's; `none` if there is no python.
pub record Round : Type 0 where
  pub attempts : ℕ → Run
  pub stops : ℕ → Bool
  pub validation : Option Run

-- What a pass of reconcile is answered. `desired` is `none` where it cannot be read.
pub record Answers : Type 0 where
  pub desired : Option Manifests
  pub is_paused : Bool
  pub now : ℕ
  pub toml_written : Bool
  pub lock_written : Bool
  pub first_wipe : Bool
  pub second_wipe : Bool
  pub first : Round
  pub second : Round
  pub done_at : ℕ

pub data Raised : Type 0 where
  os_error interrupted stopping gave_up invalid : Raised

abbrev pub Step : Type 0 → Type 0
Step A = Exec Daemon Raised A

-- What is done to the environment is logged.
abbrev pub act : Act → Step (Unit {0})
act x d = (ok tt, record d { acts = x ∷ d.acts })

abbrev pub write_toml : Bool → Manifests → Step (Unit {0})
write_toml true m d = (ok tt, record d { live_toml = some m.toml })
write_toml false m d = (err os_error, d)

abbrev pub write_lock : Bool → Manifests → Step (Unit {0})
write_lock true m d = (ok tt, record d { live_lock = some m.lock })
write_lock false m d = (err os_error, d)

unfoldable pub stage_manifests : Answers → Manifests → Step (Unit {0})
stage_manifests a m = write_toml a.toml_written m >> (write_lock a.lock_written m >> act (staged m))

-- Where the deletion raises, some of the prefix may be gone.
unfoldable pub wipe_env_prefix : Bool → Step (Unit {0})
wipe_env_prefix whole = act wiped >> (λ d. (if whole then ok tt else err os_error, d))

install_after : Bool → Bool → Outcome Raised (Unit {0}) → Outcome Raised (Unit {0})
install_after true stopped rest = ok tt
install_after false true rest = err stopping
install_after false false rest = rest

-- The loop of pixi_install from an attempt on, with how many are left.
install_from : ℕ → ℕ → Round → Outcome Raised (Unit {0})
unfolding install_after
install_from zero attempt r = err gave_up
install_from (suc left) attempt r =
    let rest = install_from left (suc attempt) r in
    elim (r.attempts attempt) [
      | raised ↦ err interrupted
      | exited code ↦ install_after (code == 0) (not (left == 0) && r.stops attempt) rest
    ]

unfoldable pub pixi_install : Round → Step (Unit {0})
unfolding install_from
pixi_install r = act ran_install >> (λ d. (install_from 3 1 r, d))

abbrev pub validated_by : Option Run → Step Bool
validated_by none d = (ok false, record d { acts = validated false ∷ d.acts })
validated_by (some raised) d = (err interrupted, d)
validated_by (some (exited code)) d =
    (ok (code == 0), record d { acts = validated (code == 0) ∷ d.acts })

unfoldable pub validate_env : Round → Step Bool
validate_env r = validated_by r.validation

unfoldable pub build : Round → Step Bool
unfolding pixi_install validate_env
build r = pixi_install r >> (act purged >> validate_env r)

abbrev pub after_second : Bool → Step (Unit {0})
after_second true d = (ok tt, d)
after_second false d = (err invalid, record d { env_healthy = false })

abbrev pub after_first : Answers → Bool → Step (Unit {0})
after_first a true = pure tt
after_first a false = wipe_env_prefix a.second_wipe >> (build a.second >>= after_second)

abbrev pub wipe_sick : Answers → Step (Unit {0})
wipe_sick a d = if d.env_healthy then (ok tt, d) else wipe_env_prefix a.first_wipe d

-- What reconcile tries.
unfoldable pub sync : Answers → Manifests → Step (Unit {0})
unfolding stage_manifests wipe_env_prefix build
sync a m = stage_manifests a m >> (wipe_sick a >> (build a.first >>= after_first a))

abbrev pub after_sync :
    Answers → Manifests → Outcome Raised (Unit {0}) × Daemon → Outcome Raised Bool × Daemon
after_sync a m (ok u, d) = (
  ok true,
  record d { installed = some m; in_sync = true; env_healthy = true; last_success = a.done_at },
)
after_sync a m (err e, d) = (
  ok false,
  record d { sync_failures_total = d.sync_failures_total + 1; last_failure = a.done_at },
)

unfoldable pub reconcile_unpaused :
    Bool → Answers → Manifests → Daemon → Outcome Raised Bool × Daemon
unfolding is_in_sync is_installed sync
reconcile_unpaused force a m d =
    let synced = is_in_sync d m && is_installed d.installed m in
    let d' = record d { paused = false; in_sync = synced } in
    if synced && not force && d.env_healthy
    then (ok true, d')
    else if not force && ltb (a.now - d.last_failure) 1800000
    then (ok false, d')
    else after_sync a m (sync a m (record d' { installed = none; syncs_total = d.syncs_total + 1 }))

abbrev pub pause : Manifests → Daemon → Daemon
pause m d = record d {
  was_paused = true;
  installed = none;
  paused = true;
  in_sync = is_in_sync d m;
}

abbrev pub reconcile_read :
    Bool → Answers → Option Manifests → Daemon → Outcome Raised Bool × Daemon
reconcile_read force a none d = (err os_error, d)
reconcile_read force a (some m) d =
    if a.is_paused
    then (ok true, pause m d)
    else reconcile_unpaused force a m (record d { was_paused = false })

unfoldable pub reconcile : Bool → Answers → Daemon → Outcome Raised Bool × Daemon
unfolding reconcile_unpaused
reconcile force a d = reconcile_read force a a.desired d

-- deep_verify where it is not paused and there is a pixi.toml: its validation, and what a reconcile
-- after it is answered.
abbrev pub after_verify : Answers → Outcome Raised Bool × Daemon → Outcome Raised Bool × Daemon
after_verify a (err e, d) = (err e, d)
after_verify a (ok true, d) = (ok true, record d { env_healthy = true })
after_verify a (ok false, d) = reconcile true a (record d { env_healthy = false })

unfoldable pub deep_verify : Bool → Round → Answers → Daemon → Outcome Raised Bool × Daemon
unfolding validate_env reconcile
deep_verify skipped r a d = if skipped then (ok true, d) else after_verify a (validate_env r d)
