-- ===== src/Ray/Nrp/Calls.antt =====
-- Rules for what every call of a pass over a job satisfies, one for each handler of advance_nrp.
use purdue_af.Common.{
  ℕ, ◌+◌, String, ◌≡◌, inl, inr, Bool, true, false, Option, none, some, [], ◌∷◌, if◌then◌else◌,
  Bool-cases, All, All-append, leb, ◌&&◌, not,
}
use purdue_af.Common.Exec.{◌>>=◌, ◌>>◌, pure}
use purdue_af.Common.Exec.Keeps.{Keeps, Keeps-pure, Keeps-bind, Keeps-if, Keeps-at_if, keeps_rules}
use purdue_af.Ray.Nrp.{
  ask, accept, nrp_patch, edit, set_stage, resume_nrp, suspend_unless, stop_nrp, read_copy,
  stage_state, idle_utilization, delete_nrp, set_cleaned, after_inputs, clean, finish,
  after_outputs, copy_back, after_busy, ended, follow, is_starting, is_lost, spans_window,
}
use purdue_af.Ray.NrpState.{
  Stage, outputs, done, Output, no_output, to_copy, output_failed, Job, Call, patch_stage, resume,
  suspend, get_copy, start_copy_back, query_utilization, delete_rayjob, delete_copy, delete_prefix,
  More, nothing, stopped_because, Direction, in_copy, out_copy, CopyState, copy_suspended,
  copy_running, copy_succeeded, copy_failed, Answers, Settings, Pass, job_ended, stamp,
  stopped_inputs, stopped_not_started, stopped_idle,
}

-- Every call that a handler makes is allowed.
abbrev pub Allowed : (Call → Type 0) → Pass → Type 0
Allowed P s = All P s.log

module _ (k : Settings) (a : Answers) (P : Call → Type 0) where
  pub ask-Keeps : (c : Call) → P c → Keeps (Allowed P) (ask k a c)
  unfolding ask
  ask-Keeps c h = record { at = λ s l. All-append P s.log (c ∷ []) l (h, tt) }

  accept-Keeps : (status : ℕ) → Keeps (Allowed P) (accept k a status)
  unfolding accept
  accept-Keeps status = record { at = λ s l. l }

  pub nrp_patch-Keeps : (c : Call) → P c → Keeps (Allowed P) (nrp_patch k a c)
  unfolding nrp_patch
  nrp_patch-Keeps c h = search (keeps_rules, ask-Keeps, accept-Keeps)

  edit-Keeps : (f : Job → Job) → Keeps (Allowed P) (edit k a f)
  unfolding edit
  edit-Keeps f = record { at = λ s l. l }

  set_cleaned-Keeps : (b : Bool) → Keeps (Allowed P) (set_cleaned k a b)
  unfolding set_cleaned
  set_cleaned-Keeps b = record { at = λ s l. l }

  read_copy-Keeps : (d : Direction) (status : ℕ) → Keeps (Allowed P) (read_copy k a d status)
  unfolding read_copy
  read_copy-Keeps d status = record { at = λ s l. l }

  pub set_stage-Keeps :
      (t : Stage) (m : More)
      → P (patch_stage t (stamp a.written) m)
      → Keeps (Allowed P) (set_stage k a t m)
  unfolding set_stage
  set_stage-Keeps t m h = search (keeps_rules, edit-Keeps, nrp_patch-Keeps)

  pub resume_nrp-Keeps : P (resume (stamp a.written)) → Keeps (Allowed P) (resume_nrp k a)
  unfolding resume_nrp
  resume_nrp-Keeps h = search (keeps_rules, edit-Keeps, nrp_patch-Keeps)

  pub stage_state-Keeps : (d : Direction) → P (get_copy d) → Keeps (Allowed P) (stage_state k a d)
  unfolding stage_state
  stage_state-Keeps d h = search (keeps_rules, ask-Keeps, read_copy-Keeps)

  suspend_unless-Keeps : (b : Bool) → P suspend → Keeps (Allowed P) (suspend_unless k a b)
  unfolding suspend_unless
  suspend_unless-Keeps true h = Keeps-pure tt
  suspend_unless-Keeps false h = nrp_patch-Keeps suspend h

  pub stop_nrp-Keeps :
      (why : String)
      → P suspend
      → P (patch_stage outputs (stamp a.written) (stopped_because why))
      → P (patch_stage done (stamp a.written) (stopped_because why))
      → Keeps (Allowed P) (stop_nrp k a why)
  unfolding stop_nrp
  stop_nrp-Keeps why hs ho hd = record {
    at = λ s.
        (Keeps-bind (suspend_unless k a (job_ended s.job.status)) _
            (suspend_unless-Keeps (job_ended s.job.status) hs)
            (λ u. set_stage-Keeps _ (stopped_because why) (outputs_or_done _ ho hd))).at
          s;
  }
    where
      outputs_or_done :
          (b : Bool)
          → P (patch_stage outputs (stamp a.written) (stopped_because why))
          → P (patch_stage done (stamp a.written) (stopped_because why))
          → P (patch_stage (if b then outputs else done) (stamp a.written) (stopped_because why))
      outputs_or_done true ho hd = ho
      outputs_or_done false ho hd = hd

  pub idle_utilization-Keeps : P query_utilization → Keeps (Allowed P) (idle_utilization k a)
  unfolding idle_utilization
  idle_utilization-Keeps h = record {
    at = λ s l. elim (Bool-cases (spans_window k a s.job)) [
      | inl e ↦ rw e ((ask-Keeps query_utilization h).at s l)
      | inr e ↦ rw e l
    ];
  }

  pub delete_nrp-Keeps :
      P delete_rayjob
      → P (delete_copy in_copy)
      → P (delete_copy out_copy)
      → P delete_prefix
      → Keeps (Allowed P) (delete_nrp k a)
  unfolding delete_nrp
  delete_nrp-Keeps h i o p = search (keeps_rules, set_cleaned-Keeps, ask-Keeps) depth 12

  pub after_inputs-Keeps :
      (c : Option CopyState)
      → P (resume (stamp a.written))
      → P suspend
      → P (patch_stage outputs (stamp a.written) (stopped_because stopped_inputs))
      → P (patch_stage done (stamp a.written) (stopped_because stopped_inputs))
      → Keeps (Allowed P) (after_inputs k a c)
  unfolding after_inputs
  after_inputs-Keeps none r s o d = stop_nrp-Keeps stopped_inputs s o d
  after_inputs-Keeps (some copy_failed) r s o d = stop_nrp-Keeps stopped_inputs s o d
  after_inputs-Keeps (some copy_succeeded) r s o d = resume_nrp-Keeps r
  after_inputs-Keeps (some copy_running) r s o d = Keeps-pure tt
  after_inputs-Keeps (some copy_suspended) r s o d = Keeps-pure tt

  pub after_busy-Keeps :
      (b : Option ℕ)
      → P suspend
      → P (patch_stage outputs (stamp a.written) (stopped_because stopped_idle))
      → P (patch_stage done (stamp a.written) (stopped_because stopped_idle))
      → Keeps (Allowed P) (after_busy k a b)
  unfolding after_busy
  after_busy-Keeps none s o d = Keeps-pure tt
  after_busy-Keeps (some b) s o d = stop_nrp-Keeps stopped_idle s o d

  -- A job that has not ended is stopped, or asked after.
  pub follow_unended :
      (since : ℕ) (s : Pass)
      → job_ended s.job.status ≡ false
      → P suspend
      → P query_utilization
      → ((why : String) → P (patch_stage outputs (stamp a.written) (stopped_because why)))
      → ((why : String) → P (patch_stage done (stamp a.written) (stopped_because why)))
      → Allowed P s
      → Allowed P (follow k a since s).1
  unfolding follow
  follow_unended since s e hs hq o d l = rw e (
      Keeps-at_if (is_starting k a s.job.deployment && leb (since + k.start_timeout) a.now)
        (stop_nrp k a stopped_not_started) (do busy ← idle_utilization k a; after_busy k a busy) s l
        (λ _. stop_nrp-Keeps stopped_not_started hs (o stopped_not_started) (d stopped_not_started))
        (λ _.
          Keeps-bind (idle_utilization k a) (after_busy k a) (idle_utilization-Keeps hq)
            (λ b. after_busy-Keeps b hs (o stopped_idle) (d stopped_idle))))

  clean-Keeps : P delete_prefix → Keeps (Allowed P) (clean k a)
  unfolding clean
  clean-Keeps h = record {
    at = λ s l.
        Keeps-at_if (not s.cleaned && not (is_lost k a s.job.output))
          (do ask k a delete_prefix; set_cleaned k a true) (pure tt) s l
          (λ _.
            Keeps-bind (ask k a delete_prefix) _ (ask-Keeps delete_prefix h)
              (λ _. set_cleaned-Keeps true))
          (λ _. Keeps-pure tt);
  }

  module _ (r : P delete_rayjob) (ci : P (delete_copy in_copy)) (co : P (delete_copy out_copy))
      (p : P delete_prefix) where
    pub finish-Keeps : (since : ℕ) → Keeps (Allowed P) (finish k a since)
    unfolding finish
    finish-Keeps since = Keeps-bind (clean k a) _ (clean-Keeps p) (λ _.
        Keeps-if (leb (since + k.record_time) a.now) (delete_nrp k a) (pure tt)
          (delete_nrp-Keeps r ci co p) (Keeps-pure tt))

    module _ (g : P (get_copy out_copy)) (start : P start_copy_back)
        (d : (m : More) → P (patch_stage done (stamp a.written) m)) where
      pub after_outputs-Keeps : (c : Option CopyState) → Keeps (Allowed P) (after_outputs k a c)
      unfolding after_outputs
      after_outputs-Keeps none = search (keeps_rules, set_stage-Keeps, finish-Keeps, d)
      after_outputs-Keeps (some copy_suspended) = search (keeps_rules, ask-Keeps, start)
      after_outputs-Keeps (some copy_running) = Keeps-pure tt
      after_outputs-Keeps (some copy_succeeded) =
          search (keeps_rules, set_stage-Keeps, finish-Keeps, d)
      after_outputs-Keeps (some copy_failed) =
          search (keeps_rules, set_stage-Keeps, finish-Keeps, d)

      pub copy_back-Keeps : Keeps (Allowed P) (copy_back k a)
      unfolding copy_back
      copy_back-Keeps =
          Keeps-bind (stage_state k a out_copy) _ (stage_state-Keeps out_copy g) after_outputs-Keeps

      pub ended-Keeps :
          (since : ℕ) (o : Output)
          → P (patch_stage outputs (stamp a.written) nothing)
          → Keeps (Allowed P) (ended k a since o)
      unfolding ended
      ended-Keeps since to_copy h =
          Keeps-bind (set_stage k a outputs nothing) _ (set_stage-Keeps outputs nothing h)
            (λ _. copy_back-Keeps)
      ended-Keeps since no_output h =
          Keeps-bind (set_stage k a done nothing) _ (set_stage-Keeps done nothing (d nothing))
            (λ _. finish-Keeps since)
      ended-Keeps since output_failed h =
          Keeps-bind (set_stage k a done nothing) _ (set_stage-Keeps done nothing (d nothing))
            (λ _. finish-Keeps since)

      pub follow-Keeps :
          (since : ℕ)
          → P suspend
          → P query_utilization
          → ((m : More) → P (patch_stage outputs (stamp a.written) m))
          → Keeps (Allowed P) (follow k a since)
      follow-Keeps since hs hq o = record {
        at = λ s l. elim (Bool-cases (job_ended s.job.status)) [
          | inl e ↦ unfold follow in rw e ((ended-Keeps since s.job.output (o nothing)).at s l)
          | inr e ↦
              follow_unended since s e hs hq (λ w. o (stopped_because w))
                (λ w. d (stopped_because w)) l
        ];
      }
