-- ===== src/Ray/Jobs/Examples.antt =====
-- Passes over Ray jobs: tests, and the theorems at them.
use purdue_af.Common.{◌<◌, ◌⊎◌, ◌≤◌, ◌≡◌, refl, true, false, none, some, [], ◌∷◌, All, length}
use purdue_af.Common.Exec.{ok, err}
use purdue_af.Ray.NrpState.{succeeded, job_ended}
use purdue_af.Ray.Reap.{Cluster, Limits, client_error, live}
use purdue_af.Ray.Jobs.{
  messages, RayJob, delete_rayjob, suspend_workers, keep_logs_of, annotate_logs, Pass, Times, ask,
  remove_record, last, keep_from, decoded, after_line, kept_logs, after_logs, store_logs, keep_logs,
  running_groups, suspend, free_found, free_workers, remove_ended, at_status, reap_job,
}
use purdue_af.Ray.Jobs.Records.{Allowed, reap_job-Allowed}
use purdue_af.Ray.Jobs.Logs.{IsKept, all_of, kept_logs-last}

abbrev limits : Limits
limits = record { idle_timeout = 600000; provision_timeout = 900000; gone_time = 3600000 }

abbrev times : Times
times = record { start_timeout = 300000; record_time = 86400000; log_bytes = 4 }

abbrev cluster : Cluster
cluster = record {
  name = "ray-job-x";
  origin = some "RayJob";
  deleting = false;
  conditions = [];
  created = 0;
  head = record { tasks = ok none; jobs = ok none };
  delete_status = some 200;
  deleted_at = 0;
}

abbrev job : RayJob
job = record {
  name = "ray-job-x";
  created = 0;
  deleting = false;
  submission = some "raysubmit_1";
  status = some succeeded;
  cluster = some "ray-job-x";
  ended = some 1000;
  has_logs = false;
  answers = record {
    asked = ok (some (record { cluster = cluster; suspended = false ∷ true ∷ false ∷ [] }));
    asked_again = err client_error;
    on_head = none;
    suspend_status = some 200;
    stream = messages ((1 ∷ 2 ∷ []) ∷ (3 ∷ []) ∷ []);
    logs_status = some 201;
    annotate_status = some 200;
    delete_status = some 200;
  };
}

abbrev start : Pass
start = record {
  gateway = record {
    last_used = [];
    started = [];
    channels = [];
    clients = [];
    gone = [];
    never_started = [];
    asked = [];
  };
  log = [];
}

reap_job-ended :
    (reap_job limits times 90000000 false job start).1.log
    ≡ keep_logs_of "ray-job-x" false (1 ∷ 2 ∷ 3 ∷ [])
      ∷ annotate_logs "ray-job-x"
      ∷ suspend_workers "ray-job-x" (0 ∷ 2 ∷ [])
      ∷ delete_rayjob "ray-job-x"
      ∷ []
unfolding reap_job job_ended at_status free_workers free_found live keep_logs store_logs after_logs
    kept_logs keep_from last decoded ask suspend running_groups remove_ended remove_record
reap_job-ended = refl

reap_job-Allowed_example :
    All
      (Allowed limits times 90000000 false job)
      (reap_job limits times 90000000 false job start).1.log
reap_job-Allowed_example = reap_job-Allowed limits times 90000000 false job start refl

-- Bytes that are dropped as they come, and no more after them, leave a log that is not marked as cut.
kept_logs-unmarked : kept_logs 1 ((1 ∷ 2 ∷ 3 ∷ []) ∷ []) ≡ (false, 3 ∷ [])
unfolding kept_logs keep_from last decoded
kept_logs-unmarked = refl

-- "ab", a newline, and "é" and "c": the line that is cut goes.
kept_logs-line :
    kept_logs 5 ((97 ∷ 98 ∷ 10 ∷ []) ∷ (195 ∷ 169 ∷ 99 ∷ []) ∷ []) ≡ (true, 195 ∷ 169 ∷ 99 ∷ [])
unfolding kept_logs keep_from last decoded after_line
kept_logs-line = refl

kept_logs-last_example :
    IsKept 1 (all_of ((1 ∷ 2 ∷ 3 ∷ []) ∷ [])) (kept_logs 1 ((1 ∷ 2 ∷ 3 ∷ []) ∷ []))
    × (length (kept_logs 1 ((1 ∷ 2 ∷ 3 ∷ []) ∷ [])).1 ≤ 1)
    × ((1 < length (all_of ((1 ∷ 2 ∷ 3 ∷ []) ∷ [])))
        ⊎ (kept_logs 1 ((1 ∷ 2 ∷ 3 ∷ []) ∷ []) ≡ (false, decoded (all_of ((1 ∷ 2 ∷ 3 ∷ []) ∷ [])))))
kept_logs-last_example = kept_logs-last 1 ((1 ∷ 2 ∷ 3 ∷ []) ∷ [])
