-- ===== src/Ray/Nrp/Stages.antt =====
-- The stages that the reaper's pass over a job writes.
use purdue_af.Common.{ℕ, ◌<◌, Bool, [], arith, All, or_default}
use purdue_af.Common.Exec.Keeps.{Keeps, Keeps-pure, Keeps-bind}
use purdue_af.Ray.Nrp.{stage_state, after_inputs, at_stage, advance_nrp}
use purdue_af.Ray.NrpState.{
  Stage, inputs, placing, running, outputs, done, unknown, Job, Call, patch_stage, resume, in_copy,
  Answers, Settings,
}
use purdue_af.Ray.Nrp.Calls.{
  Allowed, stage_state-Keeps, resume_nrp-Keeps, after_inputs-Keeps, copy_back-Keeps, follow-Keeps,
  finish-Keeps,
}

-- How far along a stage is; no stage is further than one that the gateway does not know.
abbrev pub rank : Stage → ℕ
rank inputs = 0
rank placing = 1
rank running = 2
rank outputs = 3
rank done = 4
rank (unknown t) = 5

-- A call that writes a stage writes a later one than `from`.
abbrev pub IsForward : Stage → Call → Type 0
IsForward from (patch_stage to since more) = rank from < rank to
IsForward from (resume since) = rank from < rank running
IsForward from _ = Unit

module _ (k : Settings) (a : Answers) where
  at_stage-IsForward :
      (from : Stage) (since : ℕ) → Keeps (Allowed (IsForward from)) (at_stage k a from since)
  unfolding at_stage
  at_stage-IsForward inputs since =
      Keeps-bind (stage_state k a in_copy) (after_inputs k a)
        (stage_state-Keeps k a (IsForward inputs) in_copy tt)
        (λ c.
          after_inputs-Keeps k a (IsForward inputs) c (omega arith) tt (omega arith) (omega arith))
  at_stage-IsForward placing since = resume_nrp-Keeps k a (IsForward placing) (omega arith)
  at_stage-IsForward running since =
      follow-Keeps k a (IsForward running) tt tt tt tt tt tt (λ m. omega arith) since tt tt
        (λ m. omega arith)
  at_stage-IsForward outputs since =
      copy_back-Keeps k a (IsForward outputs) tt tt tt tt tt tt (λ m. omega arith)
  at_stage-IsForward done since = finish-Keeps k a (IsForward done) tt tt tt tt since
  at_stage-IsForward (unknown t) since = Keeps-pure tt

  -- Whatever the outside answers, and wherever the pass fails: each stage that a pass over a job
  -- writes is later than the one it finds the job at, "running" if its record has none.
  advance-IsForward :
      (job : Job) (cleaned : Bool)
      → All
          (IsForward (or_default job.stage running))
          (advance_nrp k a (record { job = job; log = []; cleaned = cleaned })).1.log
  unfolding advance_nrp
  advance-IsForward job cleaned =
      (at_stage-IsForward (or_default job.stage running) (or_default job.since job.created)).at
        (record { job = job; log = []; cleaned = cleaned }) tt
