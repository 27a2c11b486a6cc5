-- ===== src/Ray/Nrp/Examples.antt =====
-- Passes over a job on NRP: tests, and the theorems at them.
use purdue_af.Common.{
  ℕ, String, ◌≡◌, refl, ◌≢◌, false, Option, none, some, List, [], ◌∷◌, arith, All, or_default,
}
use purdue_af.Ray.Nrp.{copy_of, advance_nrp}
use purdue_af.Ray.NrpState.{
  running, Output, to_copy, Job, succeeded, copy_succeeded, Answers, Settings,
}
use purdue_af.Ray.Nrp.Outputs.{KeepsData, ends, advance-KeepsData}
use purdue_af.Ray.Nrp.Progress.{answered, goal, advance-goal}

-- config.yaml's times, in milliseconds: half an hour to start, and a week of records.
abbrev settings : Settings
settings = record {
  start_timeout = 1800000;
  window = 1800000;
  least_busy = 40;
  record_time = 604800000;
}

-- A copy that succeeded, to a pass at the time `now`.
abbrev hears : List (Option String × Option String) → ℕ → Answers
hears conditions now = record {
  now = now;
  written = now;
  answer = λ n. some 200;
  copy = λ d. record { conditions = conditions; suspend = false };
  samples = [];
}

abbrev copied : List (Option String × Option String)
copied = (some "True", some "Complete") ∷ []

-- A job that ended eight days after it started.
abbrev long_job : Output → Job
long_job output = record {
  stage = some running;
  since = some 0;
  created = 0;
  output = output;
  stopped_for = none;
  status = some succeeded;
  deployment = some "Complete";
  start = some 60000;
  cluster = some "rayjob-1";
  suspended = false;
}

still_copying :
    copy_of settings (hears [] 691200000) (record { conditions = []; suspend = false })
    ≢ copy_succeeded
unfolding copy_of
still_copying e = cc

advance-KeepsData_example :
    All KeepsData
      (advance_nrp settings
        (hears [] 691200000)
        (record { job = long_job to_copy; log = []; cleaned = false })).1.log
advance-KeepsData_example =
    advance-KeepsData settings (hears [] 691200000) (long_job to_copy) false
      (ends refl still_copying (omega arith))

advance-goal_example :
    or_default
      (advance_nrp settings
        (answered (hears copied 691200000))
        (record { job = long_job to_copy; log = []; cleaned = false })).1.job.stage
      running
    ≡ goal settings (answered (hears copied 691200000)) (long_job to_copy) 0 running
advance-goal_example = advance-goal settings (hears copied 691200000) (long_job to_copy) false
