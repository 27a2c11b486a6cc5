-- ===== src/Ray/Nrp/Progress.antt =====
-- A pass that hears from everything it asks moves a job as an abstract function of its stage says.
use purdue_af.Common.{
  ℕ, ◌+◌, String, ◌≡◌, refl, inl, inr, Bool, ◌&&◌, ◌||◌, some, [], ◌∷◌, arith, leb, Bool-cases,
  Option-cases, or_default, is_some, if◌then◌else◌, not, ◌∙◌, ap, ◌++◌,
}
use purdue_af.Common.Exec.{ok, ◌>>=◌, ◌>>◌}
use purdue_af.Ray.Nrp.{
  ask, accept, nrp_patch, edit, set_stage, resume_nrp, wants_copy, suspend_unless, stop_nrp,
  copy_of, read_copy, stage_state, spans_window, busy_of, idle_utilization, delete_nrp, set_cleaned,
  after_inputs, is_lost, clean, finish, after_outputs, copy_back, after_busy, is_starting, ended,
  follow, at_stage, advance_nrp,
}
use purdue_af.Ray.NrpState.{
  Stage, inputs, placing, running, outputs, done, unknown, Output, no_output, to_copy,
  output_failed, Job, in_copy, out_copy, CopyState, copy_suspended, copy_running, copy_succeeded,
  copy_failed, Answers, Settings, Pass, More, stopped_because, output_lost, job_ended, local_more,
  get_copy, stopped_inputs, stopped_not_started, stopped_idle, query_utilization, nothing,
}

-- Every call is answered, with 200.
abbrev pub answered : Answers → Answers
answered a = record a { answer = λ n. some 200 }

module _ (k : Settings) (a : Answers) where
  -- A job that is stopped has its outputs copied back if it started and has some.
  abbrev stop_goal : Job → Stage
  stop_goal j = if wants_copy k a j.output && is_some j.start then outputs else done

  abbrev inputs_goal : Job → CopyState → Stage
  inputs_goal j copy_succeeded = running
  inputs_goal j copy_failed = stop_goal j
  inputs_goal j _ = inputs

  abbrev outputs_goal : CopyState → Stage
  outputs_goal copy_suspended = outputs
  outputs_goal copy_running = outputs
  outputs_goal _ = done

  -- It has waited too long for its cluster.
  abbrev is_late : Job → ℕ → Bool
  is_late j since = is_starting k a j.deployment && leb (since + k.start_timeout) a.now

  -- Prometheus has samples of it over the window, the least of them under NRP's ask.
  abbrev is_idle : Job → Bool
  is_idle j = spans_window k a j && is_some (busy_of k a (ok 200))

  abbrev running_goal : Job → ℕ → Stage
  running_goal j since =
      if job_ended j.status
      then (if wants_copy k a j.output then outputs_goal (copy_of k a (a.copy out_copy)) else done)
      else if is_late j since || is_idle j
      then stop_goal j
      else running

  abbrev pub goal : Job → ℕ → Stage → Stage
  goal j since inputs = inputs_goal j (copy_of k a (a.copy in_copy))
  goal j since placing = running
  goal j since running = running_goal j since
  goal j since outputs = outputs_goal (copy_of k a (a.copy out_copy))
  goal j since done = done
  goal j since (unknown t) = unknown t

abbrev stage_of : Pass → Stage
stage_of s = or_default s.job.stage running

module _ (k : Settings) (b : Answers) where
  abbrev a : Answers
  a = answered b

  set_stage-runs :
      (t : Stage) (m : More) (s : Pass)
      → ((set_stage k a t m s).0 ≡ ok tt)
        × ((set_stage k a t m s).1.job.stage ≡ some t)
        × ((set_stage k a t m s).1.cleaned ≡ s.cleaned)
  unfolding set_stage nrp_patch ask accept edit local_more
  set_stage-runs t nothing s = (refl, refl, refl)
  set_stage-runs t (stopped_because w) s = (refl, refl, refl)
  set_stage-runs t output_lost s = (refl, refl, refl)

  stop_nrp-stage : (why : String) (s : Pass) → stage_of (stop_nrp k a why s).1 ≡ stop_goal k a s.job
  unfolding stop_nrp suspend_unless set_stage nrp_patch ask accept edit local_more
  stop_nrp-stage why s = ground arith

  delete_nrp-stage : (s : Pass) → (delete_nrp k a s).1.job ≡ s.job
  unfolding delete_nrp ask set_cleaned
  delete_nrp-stage s = refl

  clean-stage : (s : Pass) → ((clean k a s).0 ≡ ok tt) × ((clean k a s).1.job ≡ s.job)
  unfolding clean ask set_cleaned
  clean-stage s = elim (Bool-cases (not s.cleaned && not (is_lost k a s.job.output))) [
    | inl e ↦ simp e (refl, refl)
    | inr e ↦ simp e (refl, refl)
  ]

  finish-stage : (since : ℕ) (s : Pass) → (finish k a since s).1.job ≡ s.job
  unfolding finish
  finish-stage since s =
      simp ((clean-stage s).0) (elim (Bool-cases (leb (since + k.record_time) a.now)) [
        | inl e ↦ simp e (delete_nrp-stage (clean k a s).1 ∙ (clean-stage s).1)
        | inr e ↦ simp e ((clean-stage s).1)
      ])

  done-stage :
      (m : More) (since : ℕ) (s : Pass)
      → stage_of ((do set_stage k a done m; finish k a since) s).1 ≡ done
  done-stage m since s =
      let (ran, there, _) = set_stage-runs done m s in
      simp ran (
        ap (λ (j : Job). or_default j.stage running) (finish-stage since (set_stage k a done m s).1)
        ∙ simp there)

  after_outputs-stage :
      (c : CopyState) (s : Pass)
      → stage_of s ≡ outputs
      → stage_of (after_outputs k a (some c) s).1 ≡ outputs_goal k a c
  unfolding after_outputs ask
  after_outputs-stage copy_suspended s h = h
  after_outputs-stage copy_running s h = h
  after_outputs-stage copy_succeeded s h = done-stage nothing a.now s
  after_outputs-stage copy_failed s h = done-stage output_lost a.now s

  copy_back-stage :
      (s : Pass)
      → stage_of s ≡ outputs
      → stage_of (copy_back k a s).1 ≡ outputs_goal k a (copy_of k a (a.copy out_copy))
  unfolding copy_back stage_state ask read_copy
  copy_back-stage s h =
      after_outputs-stage (copy_of k a (a.copy out_copy))
        (record s { log = s.log ++ get_copy out_copy ∷ [] }) h

  after_inputs-stage :
      (c : CopyState) (s : Pass)
      → stage_of s ≡ inputs
      → stage_of (after_inputs k a (some c) s).1 ≡ inputs_goal k a s.job c
  unfolding after_inputs resume_nrp nrp_patch ask accept edit
  after_inputs-stage copy_suspended s h = h
  after_inputs-stage copy_running s h = h
  after_inputs-stage copy_succeeded s h = refl
  after_inputs-stage copy_failed s h = stop_nrp-stage stopped_inputs s

  ended-stage :
      (since : ℕ) (o : Output) (s : Pass)
      → stage_of (ended k a since o s).1
        ≡ (if wants_copy k a o then outputs_goal k a (copy_of k a (a.copy out_copy)) else done)
  unfolding ended
  ended-stage since to_copy s =
      let (ran, there, _) = set_stage-runs outputs nothing s in
      simp ran (copy_back-stage (set_stage k a outputs nothing s).1 (simp there))
  ended-stage since no_output s = done-stage nothing since s
  ended-stage since output_failed s = done-stage nothing since s

  idle-stage :
      (s : Pass)
      → stage_of s ≡ running
      → stage_of ((do busy ← idle_utilization k a; after_busy k a busy) s).1
        ≡ (if is_idle k a s.job then stop_goal k a s.job else running)
  unfolding idle_utilization after_busy ask
  idle-stage s h = elim (Bool-cases (spans_window k a s.job)) [
    | inr e ↦ simp e h
    | inl e ↦ elim (Option-cases (busy_of k a (ok 200))) [
      | inl p ↦ simp (e, p) h
      | inr (busy, p) ↦
          simp (e, p)
            (stop_nrp-stage stopped_idle (record s { log = s.log ++ query_utilization ∷ [] }))
    ]
  ]

  follow-stage :
      (since : ℕ) (s : Pass)
      → stage_of s ≡ running
      → stage_of (follow k a since s).1 ≡ running_goal k a s.job since
  unfolding follow
  follow-stage since s h = elim (Bool-cases (job_ended s.job.status)) [
    | inl e ↦ simp e (ended-stage since s.job.output s)
    | inr e ↦ elim (Bool-cases (is_late k a s.job since)) [
      | inl p ↦ simp (e, p) (stop_nrp-stage stopped_not_started s)
      | inr p ↦ simp (e, p) (idle-stage s h)
    ]
  ]

  at_stage-stage :
      (t : Stage) (since : ℕ) (s : Pass)
      → stage_of s ≡ t
      → stage_of (at_stage k a t since s).1 ≡ goal k a s.job since t
  unfolding at_stage stage_state ask read_copy resume_nrp nrp_patch accept edit
  at_stage-stage inputs since s h =
      after_inputs-stage (copy_of k a (a.copy in_copy))
        (record s { log = s.log ++ get_copy in_copy ∷ [] }) h
  at_stage-stage placing since s h = refl
  at_stage-stage running since s h = follow-stage since s h
  at_stage-stage outputs since s h = copy_back-stage s h
  at_stage-stage done since s h =
      ap (λ (j : Job). or_default j.stage running) (finish-stage since s) ∙ h
  at_stage-stage (unknown t) since s h = h

  -- A pass whose every call is answered, with 200, leaves the job at the stage that `goal` gives
  -- from the job, the state of its two Jobs and the samples of Prometheus.
  pub advance-goal :
      (job : Job) (cleaned : Bool)
      → or_default
          (advance_nrp k
            (answered b)
            (record { job = job; log = []; cleaned = cleaned })).1.job.stage
          running
        ≡ goal k (answered b) job (or_default job.since job.created) (or_default job.stage running)
  unfolding advance_nrp
  advance-goal job cleaned =
      at_stage-stage (or_default job.stage running) (or_default job.since job.created)
        (record { job = job; log = []; cleaned = cleaned }) refl
