-- ===== src/Ray/Nrp/Outputs.antt =====
-- What a pass over a job may delete: a job that runs on, and outputs that are not back, are kept.
use purdue_af.Common.{
  ℕ, ◌+◌, ◌<◌, ◌≡◌, refl, ◌≢◌, ◌⊎◌, inl, inr, Bool, false, Option, none, some, [], arith, leb,
  Bool-cases, Option-cases, ◌∙◌, sym, All, or_default, length,
}
use purdue_af.Common.Exec.{Outcome, ok, err, ◌>>◌}
use purdue_af.Common.Exec.Keeps.{Keeps, Keeps-pure, Keeps-bind, Keeps-continue}
use purdue_af.Ray.Nrp.{
  ask, accept, nrp_patch, edit, set_stage, stage_state, copy_of, read_copy, clean, is_lost, finish,
  after_outputs, copy_back, after_inputs, ended, follow, at_stage, advance_nrp,
}
use purdue_af.Ray.NrpState.{
  Stage, inputs, placing, running, outputs, done, Output, no_output, to_copy, output_failed, Job,
  Call, patch_stage, start_copy_back, delete_rayjob, delete_copy, delete_prefix, Direction, in_copy,
  out_copy, CopyState, copy_suspended, copy_running, copy_succeeded, copy_failed, nothing,
  output_lost, Answers, Settings, Pass, Fault, job_ended, local_more, stamp,
}
use purdue_af.Ray.Nrp.Calls.{
  Allowed, ask-Keeps, nrp_patch-Keeps, set_stage-Keeps, stage_state-Keeps, resume_nrp-Keeps,
  after_inputs-Keeps, follow_unended,
}

-- The call deletes nothing of a job: not its record, its Jobs, or its S3 prefix.
abbrev pub KeepsData : Call → Type 0
KeepsData delete_rayjob = ⊥
KeepsData (delete_copy d) = ⊥
KeepsData delete_prefix = ⊥
KeepsData _ = Unit

-- Nothing is deleted, and the record says that the outputs did not come back.
abbrev KeepsLost : Pass → Type 0
KeepsLost s = Allowed KeepsData s × (s.job.output ≡ output_failed)

err-ne-ok : {A : Type 0} {f : Fault} {x : A} → ◌≡◌ {A = Outcome Fault A} (err f) (ok x) → ⊥
err-ne-ok e = cc

some_copy : {x y : CopyState} → some x ≡ some y → x ≡ y
some_copy e = cc

module _ (k : Settings) (a : Answers) where
  clean-lost : (s : Pass) → s.job.output ≡ output_failed → clean k a s ≡ (ok tt, s)
  unfolding clean is_lost
  clean-lost s lost = elim (Bool-cases s.cleaned) [ inl e ↦ simp e | inr e ↦ simp (e, lost) ]

  finish-lost :
      (since : ℕ) (s : Pass)
      → s.job.output ≡ output_failed
      → a.now < since + k.record_time
      → finish k a since s ≡ (ok tt, s)
  unfolding finish
  finish-lost since s lost early =
      let late : leb (since + k.record_time) a.now ≡ false = ground arith in
      simp (clean-lost s lost, late)

  finish-KeepsLost :
      (since : ℕ) → a.now < since + k.record_time → Keeps KeepsLost (finish k a since)
  finish-KeepsLost since early = record { at = λ s h. rw (finish-lost since s h.1 early) h }

  job-nrp_patch : (c : Call) (s : Pass) → (nrp_patch k a c s).1.job.output ≡ s.job.output
  unfolding nrp_patch ask accept
  job-nrp_patch c s = elim (Option-cases (a.answer (length s.log))) [
    | inl e ↦ simp e
    | inr (status, e) ↦ simp e
  ]

  nrp_patch-KeepsLost : (c : Call) → KeepsData c → Keeps KeepsLost (nrp_patch k a c)
  nrp_patch-KeepsLost c h = record {
    at = λ s l. ((nrp_patch-Keeps k a KeepsData c h).at s l.0, job-nrp_patch c s ∙ l.1);
  }

  lost-KeepsData :
      (s : Pass)
      → 0 < k.record_time
      → Allowed KeepsData s
      → Allowed KeepsData ((do set_stage k a done output_lost; finish k a a.now) s).1
  unfolding set_stage edit local_more
  lost-KeepsData s r l =
      let s' = record s {
        job = record s.job {
          stage = some done;
          since = some (stamp a.written);
          output = output_failed;
        };
      } in
      let patched =
        (nrp_patch-KeepsLost (patch_stage done (stamp a.written) output_lost) tt).at s' (l, refl) in
      let m = nrp_patch k a (patch_stage done (stamp a.written) output_lost) s' in
      (Keeps-continue m.0 (λ u. finish k a a.now) m.1 patched
        (λ u _. finish-KeepsLost a.now (omega arith))).0

  found :
      (d : Direction) (status : ℕ) (s : Pass) (c : Option CopyState)
      → (read_copy k a d status s).0 ≡ ok c
      → (c ≡ none) ⊎ (c ≡ some (copy_of k a (a.copy d)))
  unfolding read_copy
  found d status s c e = ground arith

  -- What a pass finds of a Job that copies: none, or the state that the Job is in.
  stage_state-found :
      (d : Direction) (s : Pass) (c : Option CopyState)
      → (stage_state k a d s).0 ≡ ok c
      → (c ≡ none) ⊎ (c ≡ some (copy_of k a (a.copy d)))
  unfolding stage_state ask read_copy
  stage_state-found d s c e = elim (Option-cases (a.answer (length s.log))) [
    | inl p ↦ absurd (err-ne-ok (simp p at e))
    | inr (status, p) ↦ found d status s c (simp p at e)
  ]

  incomplete :
      (c : Option CopyState)
      → (c ≡ none) ⊎ (c ≡ some (copy_of k a (a.copy out_copy)))
      → copy_of k a (a.copy out_copy) ≢ copy_succeeded
      → c ≢ some copy_succeeded
  incomplete c (inl p) n e = cc
  incomplete c (inr p) n e = n (some_copy (sym p ∙ e))

  after_outputs-KeepsData :
      (c : Option CopyState)
      → c ≢ some copy_succeeded
      → 0 < k.record_time
      → Keeps (Allowed KeepsData) (after_outputs k a c)
  unfolding after_outputs
  after_outputs-KeepsData none n r = record { at = λ s l. lost-KeepsData s r l }
  after_outputs-KeepsData (some copy_failed) n r = record { at = λ s l. lost-KeepsData s r l }
  after_outputs-KeepsData (some copy_suspended) n r =
      Keeps-bind (ask k a start_copy_back) _ (ask-Keeps k a KeepsData start_copy_back tt)
        (λ u. Keeps-pure tt)
  after_outputs-KeepsData (some copy_running) n r = Keeps-pure tt
  after_outputs-KeepsData (some copy_succeeded) n r = absurd (n refl)

  copy_back-KeepsData :
      (s : Pass)
      → copy_of k a (a.copy out_copy) ≢ copy_succeeded
      → 0 < k.record_time
      → Allowed KeepsData s
      → Allowed KeepsData (copy_back k a s).1
  unfolding copy_back
  copy_back-KeepsData s n r l =
      let m = stage_state k a out_copy s in
      Keeps-continue m.0 (after_outputs k a) m.1
        ((stage_state-Keeps k a KeepsData out_copy tt).at s l)
        (λ c e. after_outputs-KeepsData c (incomplete c (stage_state-found out_copy s c e) n) r)

  ended-KeepsData :
      (since : ℕ) (o : Output)
      → o ≡ to_copy
      → copy_of k a (a.copy out_copy) ≢ copy_succeeded
      → 0 < k.record_time
      → Keeps (Allowed KeepsData) (ended k a since o)
  unfolding ended
  ended-KeepsData since to_copy e n r =
      Keeps-bind (set_stage k a outputs nothing) (λ u. copy_back k a)
        (set_stage-Keeps k a KeepsData outputs nothing tt)
        (λ u. record { at = λ s l. copy_back-KeepsData s n r l })
  ended-KeepsData since no_output e n r = cc
  ended-KeepsData since output_failed e n r = cc

  follow-KeepsData :
      (since : ℕ) (s : Pass)
      → (job_ended s.job.status ≡ false)
        ⊎ ((s.job.output ≡ to_copy)
            × (copy_of k a (a.copy out_copy) ≢ copy_succeeded)
            × (0 < k.record_time))
      → Allowed KeepsData s
      → Allowed KeepsData (follow k a since s).1
  follow-KeepsData since s (inl e) l =
      follow_unended k a KeepsData since s e tt tt (λ w. tt) (λ w. tt) l
  follow-KeepsData since s (inr (o, n, r)) l = elim (Bool-cases (job_ended s.job.status)) [
    | inr e ↦ follow_unended k a KeepsData since s e tt tt (λ w. tt) (λ w. tt) l
    | inl e ↦ unfold follow in rw e ((ended-KeepsData since s.job.output o n r).at s l)
  ]

  -- When a job's data may not go: it waits or runs, or its outputs are not back.
  pub data IsKept (job : Job) (since : ℕ) : Stage → Type 0 where
    waits : IsKept job since inputs
    placed : IsKept job since placing
    runs : job_ended job.status ≡ false → IsKept job since running
    ends :
        job.output ≡ to_copy
        → copy_of k a (a.copy out_copy) ≢ copy_succeeded
        → 0 < k.record_time
        → IsKept job since running
    copies :
        copy_of k a (a.copy out_copy) ≢ copy_succeeded
        → 0 < k.record_time
        → IsKept job since outputs
    lost : job.output ≡ output_failed → a.now < since + k.record_time → IsKept job since done

  at_stage-KeepsData :
      {stage : Stage} {since : ℕ} (s : Pass)
      → IsKept s.job since stage
      → Allowed KeepsData s
      → Allowed KeepsData (at_stage k a stage since s).1
  unfolding at_stage
  at_stage-KeepsData s waits l =
      (Keeps-bind (stage_state k a in_copy) (after_inputs k a)
          (stage_state-Keeps k a KeepsData in_copy tt)
          (λ c. after_inputs-Keeps k a KeepsData c tt tt tt tt)).at
        s l
  at_stage-KeepsData s placed l = (resume_nrp-Keeps k a KeepsData tt).at s l
  at_stage-KeepsData {since = t} s (runs e) l = follow-KeepsData t s (inl e) l
  at_stage-KeepsData {since = t} s (ends o n r) l = follow-KeepsData t s (inr (o, n, r)) l
  at_stage-KeepsData s (copies n r) l = copy_back-KeepsData s n r l
  at_stage-KeepsData {since = t} s (lost o early) l = rw (finish-lost t s o early) l

  -- A job that waits or runs, one whose outputs the copy back has not brought yet (it runs, failed
  -- or is gone), and, until its record's time is over, one whose outputs did not come back: a pass
  -- over it deletes neither its record, nor its Jobs, nor its S3 prefix, whatever the outside
  -- answers and wherever the pass fails.
  pub advance-KeepsData :
      (job : Job) (cleaned : Bool)
      → IsKept job (or_default job.since job.created) (or_default job.stage running)
      → All KeepsData (advance_nrp k a (record { job = job; log = []; cleaned = cleaned })).1.log
  unfolding advance_nrp
  advance-KeepsData job cleaned h =
      at_stage-KeepsData (record { job = job; log = []; cleaned = cleaned }) h tt
