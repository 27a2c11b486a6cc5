-- ===== src/Ray/NrpState.antt =====
-- A job on NRP Nautilus as apps/ray-train/gateway.py sees it: its record's annotations, what a pass
-- calls and what it is answered. Times are in milliseconds.
use purdue_af.Common.{ℕ, ◌*◌, ◌/◌, String, Bool, true, false, Option, some, List}
use purdue_af.Common.Exec.{Exec}
use purdue_af.Ray.Base.{Refusal}

-- STAGE_ANNOTATION's values, and any other text.
pub data Stage : Type 0 where
  inputs placing running outputs done : Stage
  unknown : String → Stage

-- OUTPUT_ANNOTATION's: none or "", "true", and OUTPUT_FAILED.
pub data Output : Type 0 where
  no_output to_copy output_failed : Output

pub data JobStatus : Type 0 where
  pending active succeeded failed stopped : JobStatus

pub record Job : Type 0 where
  pub stage : Option Stage
  pub since : Option ℕ
  pub created : ℕ
  pub output : Output
  pub stopped_for : Option String
  pub status : Option JobStatus
  pub deployment : Option String
  pub start : Option ℕ
  pub cluster : Option String
  pub suspended : Bool

-- job_ended
unfoldable pub job_ended : Option JobStatus → Bool
job_ended (some succeeded) = true
job_ended (some failed) = true
job_ended (some stopped) = true
job_ended _ = false

pub data Direction : Type 0 where
  in_copy out_copy : Direction

-- What a change of stage writes besides: `**more`.
pub data More : Type 0 where
  nothing : More
  stopped_because : String → More
  output_lost : More

pub data Call : Type 0 where
  patch_stage : Stage → ℕ → More → Call
  resume : ℕ → Call
  suspend : Call
  get_copy : Direction → Call
  start_copy_back : Call
  query_utilization : Call
  delete_rayjob : Call
  delete_copy : Direction → Call
  delete_prefix : Call

-- A Geddes Job that copies: its conditions, each with its status and its type, and `spec.suspend`.
pub record CopyJob : Type 0 where
  pub conditions : List (Option String × Option String)
  pub suspend : Bool

pub data CopyState : Type 0 where
  copy_suspended copy_running copy_succeeded copy_failed : CopyState

-- `answer k` is the status that the pass's k-th call gets, or `none` if it raises.
pub record Answers : Type 0 where
  pub now : ℕ
  pub written : ℕ
  pub answer : ℕ → Option ℕ
  pub copy : Direction → CopyJob
  pub samples : List ℕ

pub record Settings : Type 0 where
  pub start_timeout : ℕ
  pub window : ℕ
  pub least_busy : ℕ
  pub record_time : ℕ

pub record Pass : Type 0 where
  pub job : Job
  pub log : List Call
  pub cleaned : Bool

pub data Fault : Type 0 where
  refusal : Refusal → Fault
  client_error : Fault

abbrev pub Nrp : Type 0 → Type 0
Nrp A = Exec Pass Fault A

-- stamp: whole seconds
abbrev pub stamp : ℕ → ℕ
stamp t = t / 1000 * 1000

abbrev pub stopped_inputs : String
stopped_inputs = "Copying its inputs to NRP failed: is it a directory you can read?"

abbrev pub stopped_not_started : String
stopped_not_started = "Its Ray cluster on NRP did not start in time."

abbrev pub stopped_idle : String
stopped_idle = "Its idlest GPU was too idle over the window."

unfoldable pub local_more : More → Job → Job
local_more nothing j = j
local_more (stopped_because why) j = record j { stopped_for = some why }
local_more output_lost j = record j { output = output_failed }
