-- ===== src/PixiSync/Examples.antt =====
-- Tests of PixiSync and its modules at concrete inputs.
use purdue_af.Common.{
  ℕ, true, false, Option, none, some, List, [], ◌∷◌, ◌==◌, if◌then◌else◌, ◌≡◌, refl,
}
use purdue_af.Common.Exec.{ok}
use purdue_af.Common.Text.{codes, same}
use purdue_af.PixiSync.{
  Manifests, staged, wiped, ran_install, purged, validated, Daemon, at_start, exited, Round,
  Answers, reconcile, build, sync, stage_manifests, wipe_env_prefix, pixi_install, validate_env,
  is_in_sync,
}
use purdue_af.PixiSync.Succeeds.{IsLive, IsProven}
use purdue_af.PixiSync.Passes.{starts, edited, reconcile-IsProven}
use purdue_af.PixiSync.Lock.{Look, took_over, frozen, acquire_lock, IsFrozen, acquire_lock-IsFrozen}

abbrev wanted : Manifests
wanted = record { toml = codes "toml"; lock = codes "lock" }

-- The first attempt fails and the second works, with a validation that fails or passes.
abbrev round_of : ℕ → Round
round_of code = record {
  attempts = λ n. if n == 1 then exited 1 else exited 0;
  stops = λ n. false;
  validation = some (exited code);
}

abbrev answers : Answers
answers = record {
  desired = some wanted;
  is_paused = false;
  now = 2000000;
  toml_written = true;
  lock_written = true;
  first_wipe = true;
  second_wipe = true;
  first = round_of 1;
  second = round_of 0;
  done_at = 2600000;
}

abbrev before : Daemon
before = record (at_start none none) { live_toml = some (codes "old"); live_lock = none }

second_round : (reconcile false answers before).0 ≡ ok true
unfolding reconcile stage_manifests wipe_env_prefix pixi_install validate_env is_in_sync same build
    sync
second_round = refl

second_round_acts :
    (reconcile false answers before).1.acts
    ≡ validated true
      ∷ purged
      ∷ ran_install
      ∷ wiped
      ∷ validated false
      ∷ purged
      ∷ ran_install
      ∷ staged wanted
      ∷ []
unfolding reconcile stage_manifests wipe_env_prefix pixi_install validate_env is_in_sync same build
    sync
second_round_acts = refl

reconcile-IsProven_example :
    IsLive wanted (reconcile false answers before).1
    × IsProven wanted (reconcile false answers before).1.acts
reconcile-IsProven_example =
    reconcile-IsProven before (edited (some (codes "old")) none (starts none none)) false answers
      wanted refl refl second_round

abbrev look : ℕ → Option ℕ → Look
look t b = record { made = false; beat = b; now = t }

abbrev looks : List Look
looks = look 0 (some 7) ∷ look 30000 (some 9) ∷ look 60000 (some 9) ∷ look 120001 (some 9) ∷ []

taken_over : acquire_lock looks none ≡ took_over 120001
unfolding acquire_lock frozen
taken_over = refl

acquire_lock-IsFrozen_example : IsFrozen 120001 looks
acquire_lock-IsFrozen_example = acquire_lock-IsFrozen 120001 looks taken_over
