-- ===== src/Ray/Nrp.antt =====
-- A job on NRP Nautilus as the reaper moves it on: advance_nrp and what it calls (stop_nrp,
-- resume_nrp, set_stage, nrp_patch, stage_state, idle_utilization, delete_nrp) of
-- apps/ray-train/gateway.py, and job_ended. The proofs are in the modules below.
-- Kubernetes, NRP, its Prometheus and the S3 bucket answer as `Answers` says, call by call; what a
-- pass asks of them is its log.
mod Calls
pub mod Stages
pub mod Outputs
pub mod Progress
mod Examples
use purdue_af.Common.{
  ℕ, ◌+◌, ◌*◌, ◌/◌, min, String, Bool, true, false, not, ◌&&◌, ◌||◌, Option, none, some, List, [],
  ◌∷◌, ◌++◌, ltb, leb, ◌==◌, if◌then◌else◌, or_default, is_some, is_text, str_eq, length,
}
use purdue_af.Common.Exec.{Outcome, ok, err, Exec, ◌>>=◌, ◌>>◌, pure}
use purdue_af.Ray.Base.{Refusal, refused, unavailable}
use purdue_af.Ray.NrpState.{
  Stage, inputs, placing, running, outputs, done, unknown, Output, to_copy, output_failed, active,
  Job, job_ended, Direction, in_copy, out_copy, More, nothing, stopped_because, output_lost, Call,
  patch_stage, suspend, resume, get_copy, start_copy_back, query_utilization, delete_rayjob,
  delete_copy, delete_prefix, CopyJob, CopyState, copy_suspended, copy_running, copy_succeeded,
  copy_failed, Answers, Settings, Fault, refusal, client_error, Nrp, stamp, stopped_inputs,
  stopped_not_started, stopped_idle, local_more,
}

module _ (k : Settings) (a : Answers) where
  pub ask : Call → Nrp ℕ
  ask c s = (
    elim (a.answer (length s.log)) [ none ↦ err client_error | some status ↦ ok status ],
    record s { log = s.log ++ c ∷ [] },
  )

  pub accept : ℕ → Nrp (Unit {0})
  accept status s = (
    if status == 200
        then ok tt
        else err (refusal (refused unavailable "NRP did not change the Ray job")),
    s,
  )

  pub nrp_patch : Call → Nrp (Unit {0})
  unfolding ask accept
  nrp_patch c = do status ← ask c; accept status

  pub edit : (Job → Job) → Nrp (Unit {0})
  edit f s = (ok tt, record s { job = f s.job })

  pub set_stage : Stage → More → Nrp (Unit {0})
  unfolding nrp_patch edit local_more
  set_stage stage more = do
    edit (λ j. local_more more (record j { stage = some stage; since = some (stamp a.written) }))
    nrp_patch (patch_stage stage (stamp a.written) more)

  pub resume_nrp : Nrp (Unit {0})
  unfolding nrp_patch edit
  resume_nrp = do
    nrp_patch (resume (stamp a.written))
    edit (λ j. record j { stage = some running; since = some (stamp a.written); suspended = false })

  abbrev wants_copy : Output → Bool
  wants_copy to_copy = true
  wants_copy _ = false

  pub suspend_unless : Bool → Nrp (Unit {0})
  unfolding nrp_patch
  suspend_unless true = pure tt
  suspend_unless false = nrp_patch suspend

  pub stop_nrp : String → Nrp (Unit {0})
  stop_nrp why s =
      (do
        suspend_unless (job_ended s.job.status)
        set_stage (if wants_copy s.job.output && is_some s.job.start then outputs else done)
            (stopped_because why))
        s

  -- the first condition that holds and says how the copy ended
  copy_end : List (Option String × Option String) → Option CopyState
  copy_end [] = none
  copy_end ((status, type) ∷ rest) =
      if is_text status "True" && (is_text type "Complete" || is_text type "Failed")
      then (if is_text type "Complete" then some copy_succeeded else some copy_failed)
      else copy_end rest

  pub copy_of : CopyJob → CopyState
  unfolding copy_end
  copy_of c =
      or_default (copy_end c.conditions) (if c.suspend then copy_suspended else copy_running)

  pub read_copy : Direction → ℕ → Nrp (Option CopyState)
  read_copy d status s = (
    if status == 404
        then ok none
        else if status == 200
        then ok (some (copy_of (a.copy d)))
        else err (refusal (refused unavailable "Kubernetes did not show the Job")),
    s,
  )

  pub stage_state : Direction → Nrp (Option CopyState)
  stage_state d = do status ← ask (get_copy d); read_copy d status

  -- min(busy of the samples), if there are any
  least_of : List ℕ → Option ℕ
  least_of [] = none
  least_of (x ∷ xs) = some (elim (least_of xs) [ none ↦ x | some y ↦ min x y ])

  -- Whether the job has run the whole window, on a cluster of a known name.
  pub spans_window : Job → Bool
  spans_window j = elim j.status [
    | some active ↦ elim j.start [
      | none ↦ false
      | some t ↦ is_some j.cluster && leb (t + k.window) a.now
    ]
    | _ ↦ false
  ]

  -- A query that raises, or an answer with no sample, says nothing.
  pub busy_of : Outcome Fault ℕ → Option ℕ
  unfolding least_of
  busy_of (err f) = none
  busy_of (ok status) = elim (least_of a.samples) [
    | none ↦ none
    | some busy ↦ if ltb busy k.least_busy then some busy else none
  ]

  pub idle_utilization : Nrp (Option ℕ)
  idle_utilization s =
      if spans_window s.job
      then (let (r, s') = ask query_utilization s in (ok (busy_of r), s'))
      else (ok none, s)

  pub set_cleaned : Bool → Nrp (Unit {0})
  set_cleaned b s = (ok tt, record s { cleaned = b })

  pub delete_nrp : Nrp (Unit {0})
  unfolding ask set_cleaned
  delete_nrp = do
    ask delete_rayjob
    ask (delete_copy in_copy)
    ask (delete_copy out_copy)
    set_cleaned false
    ask delete_prefix
    pure tt

  pub after_inputs : Option CopyState → Nrp (Unit {0})
  after_inputs none = stop_nrp stopped_inputs
  after_inputs (some copy_failed) = stop_nrp stopped_inputs
  after_inputs (some copy_succeeded) = resume_nrp
  after_inputs (some _) = pure tt

  -- Outputs that did not come back stay until the record goes. `annotations` is the job's own dict
  -- unless that was empty, when it names no outputs: so this reads what `set_stage` wrote.
  pub is_lost : Output → Bool
  is_lost output_failed = true
  is_lost _ = false

  pub clean : Nrp (Unit {0})
  unfolding is_lost ask set_cleaned
  clean s =
      if not s.cleaned && not (is_lost s.job.output)
      then (do ask delete_prefix; set_cleaned true) s
      else (ok tt, s)

  -- stage "done", since `since`
  pub finish : ℕ → Nrp (Unit {0})
  finish since = do clean; if leb (since + k.record_time) a.now then delete_nrp else pure tt

  pub after_outputs : Option CopyState → Nrp (Unit {0})
  after_outputs (some copy_suspended) = do ask start_copy_back; pure tt
  after_outputs (some copy_running) = pure tt
  after_outputs (some copy_succeeded) = do set_stage done nothing; finish a.now
  after_outputs _ = do set_stage done output_lost; finish a.now

  -- stage "outputs"
  pub copy_back : Nrp (Unit {0})
  copy_back = do copied ← stage_state out_copy; after_outputs copied

  pub after_busy : Option ℕ → Nrp (Unit {0})
  after_busy none = pure tt
  after_busy (some busy) = stop_nrp stopped_idle

  pub is_starting : Option String → Bool
  is_starting none = true
  is_starting (some d) = str_eq d "" || str_eq d "Initializing"

  -- An ended job's time at the stage it leaves is the one that `finish` then measures.
  pub ended : ℕ → Output → Nrp (Unit {0})
  ended since to_copy = do set_stage outputs nothing; copy_back
  ended since _ = do set_stage done nothing; finish since

  -- stage "running", since `since`
  pub follow : ℕ → Nrp (Unit {0})
  follow since s =
      if job_ended s.job.status
      then ended since s.job.output s
      else if is_starting s.job.deployment && leb (since + k.start_timeout) a.now
      then stop_nrp stopped_not_started s
      else (do busy ← idle_utilization; after_busy busy) s

  pub at_stage : Stage → ℕ → Nrp (Unit {0})
  at_stage inputs since = do copied ← stage_state in_copy; after_inputs copied
  at_stage placing since = resume_nrp
  at_stage running since = follow since
  at_stage outputs since = copy_back
  at_stage done since = finish since
  at_stage (unknown t) since = pure tt

  -- A job from before its progress was kept runs, since it was made.
  pub advance_nrp : Nrp (Unit {0})
  advance_nrp s = at_stage (or_default s.job.stage running) (or_default s.job.since s.job.created) s
