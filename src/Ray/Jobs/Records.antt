-- ===== src/Ray/Jobs/Records.antt =====
-- What a pass over a RayJob may ask for: when its record goes, its workers are freed, it is stopped.
use purdue_af.Common.{
  ℕ, ◌+◌, ◌*◌, String, ◌≡◌, refl, ◌⊎◌, inl, inr, Bool, true, false, not, ◌&&◌, Option, none, some,
  List, [], ◌∷◌, arith, All, All-append, leb, ◌==◌, if◌then◌else◌, is_some,
}
use purdue_af.Common.Exec.{Outcome, ok, err, ◌>>=◌, pure}
use purdue_af.Common.Exec.Keeps.{Keeps, Keeps-pure, Keeps-if, Keeps-if_eq, Keeps-bind}
use purdue_af.Ray.NrpState.{JobStatus, job_ended}
use purdue_af.Ray.Reap.{Cluster, Limits, Fault, live, unprovisioned}
use purdue_af.Ray.Jobs.{
  Found, Stream, refused_stream, lost_stream, messages, RayJob, Call, delete_rayjob,
  suspend_workers, keep_logs_of, annotate_logs, annotate_stopped, stop_on_head, Pass, Times, ask,
  said, remove_record, after_logs, store_logs, keep_logs, suspend, free_found, free_workers,
  live_found, follow_status, without_cluster, follow_on_head, delete_cluster, note,
  stop_unprovisioned, remove_ended, stop_found, check_running, at_status, reap_job, running_groups,
}

module _ (k : Limits) (t : Times) (now : ℕ) (waited_for : Bool) (j : RayJob) where
  -- Whether the job has no cluster that stays up.
  abbrev is_alone : Bool
  is_alone = elim j.cluster [
    | none ↦ true
    | some head ↦ elim j.answers.asked [ ok found ↦ not (live_found found) | err e ↦ false ]
  ]

  abbrev head_has_none : Option (Option JobStatus) → Bool
  head_has_none (some none) = true
  head_has_none _ = false

  abbrev head_says_ended : Option (Option JobStatus) → Bool
  head_says_ended (some (some status)) = job_ended (some status)
  head_says_ended _ = false

  abbrev kept_for : Option ℕ → Bool
  kept_for none = false
  kept_for (some ended) = leb (ended + t.record_time) now

  -- The record may go: of a job that nobody submitted, that no cluster or head has, or that ended.
  pub data IsDue : Type 0 where
    never_submitted :
        is_some j.submission ≡ false
        → waited_for ≡ false
        → leb (j.created + 2 * t.start_timeout) now ≡ true
        → IsDue
    no_cluster :
        leb (j.created + t.record_time) now ≡ true → j.status ≡ none → is_alone ≡ true → IsDue
    no_job :
        leb (j.created + 2 * t.start_timeout) now ≡ true
        → j.status ≡ none
        → head_has_none j.answers.on_head ≡ true
        → IsDue
    long_ended : job_ended j.status ≡ true → kept_for j.ended ≡ true → IsDue

  abbrev pub HasEnded : Type 0
  HasEnded = (job_ended j.status ≡ true) ⊎ (head_says_ended j.answers.on_head ≡ true)

  abbrev pub IsUnprovisioned : Type 0
  IsUnprovisioned =
      (f : Found) × (j.answers.asked ≡ ok (some f))
      × (unprovisioned k.provision_timeout f.cluster now ≡ true)
      × (job_ended j.status ≡ false)

  abbrev pub Allowed : Call → Type 0
  Allowed (delete_rayjob n) = IsDue
  Allowed (suspend_workers head groups) = HasEnded
  Allowed (annotate_stopped n) = IsUnprovisioned
  Allowed (stop_on_head n) = IsUnprovisioned
  Allowed (keep_logs_of n cut logs) = HasEnded ⊎ IsUnprovisioned
  Allowed (annotate_logs n) = HasEnded ⊎ IsUnprovisioned

  abbrev pub AllAllowed : Pass → Type 0
  AllAllowed s = All Allowed s.log

  ask-Allowed : (status : Option ℕ) (c : Call) → Allowed c → Keeps AllAllowed (ask status c)
  unfolding ask
  ask-Allowed status c a = record { at = λ s h. All-append Allowed s.log (c ∷ []) h (a, tt) }

  note-Allowed : (c : Call) → Allowed c → Keeps AllAllowed (note c)
  unfolding note
  note-Allowed c a = record { at = λ s h. All-append Allowed s.log (c ∷ []) h (a, tt) }

  said-Allowed : {A : Type 0} (r : Outcome Fault A) → Keeps AllAllowed (said r)
  said-Allowed r = record { at = λ s h. h }

  record-Allowed : IsDue → Keeps AllAllowed (remove_record j)
  unfolding remove_record
  record-Allowed due =
      Keeps-bind (ask j.answers.delete_status (delete_rayjob j.name)) _ (ask-Allowed _ _ due)
        (λ _. Keeps-pure tt)

  stream-Allowed :
      HasEnded ⊎ IsUnprovisioned → (stream : Stream) → Keeps AllAllowed (store_logs t j stream)
  unfolding store_logs after_logs
  stream-Allowed may refused_stream = Keeps-pure tt
  stream-Allowed may lost_stream = Keeps-pure tt
  stream-Allowed may (messages ms) =
      Keeps-bind (ask j.answers.logs_status _) _ (ask-Allowed _ _ may) (λ status.
        Keeps-if (not (status == 201) && not (status == 409)) (pure tt) _ (Keeps-pure tt) (
          Keeps-bind (ask j.answers.annotate_status (annotate_logs j.name)) _ (ask-Allowed _ _ may)
            (λ _. Keeps-pure tt)))

  logs-Allowed : HasEnded ⊎ IsUnprovisioned → Keeps AllAllowed (keep_logs t j)
  unfolding keep_logs
  logs-Allowed may =
      Keeps-if j.has_logs (pure tt) _ (Keeps-pure tt) (stream-Allowed may j.answers.stream)

  suspend-Allowed :
      HasEnded → (head : String) (groups : List ℕ) → Keeps AllAllowed (suspend j head groups)
  unfolding suspend
  suspend-Allowed ended head [] = Keeps-pure tt
  suspend-Allowed ended head (g ∷ groups) =
      Keeps-bind (ask j.answers.suspend_status _) _ (ask-Allowed _ _ ended) (λ _. Keeps-pure tt)

  free_found-Allowed :
      HasEnded
      → (head : String) (found : Option Found) → Keeps AllAllowed (free_found t j head found)
  unfolding free_found
  free_found-Allowed ended head none = Keeps-pure tt
  free_found-Allowed ended head (some f) =
      Keeps-if (live (some f.cluster)) _ (pure tt)
        (Keeps-bind (keep_logs t j) _ (logs-Allowed (inl ended))
          (λ _. suspend-Allowed ended head (running_groups 0 f.suspended)))
        (Keeps-pure tt)

  free-Allowed :
      HasEnded
      → (head : Option String) (found : Outcome Fault (Option Found))
      → Keeps AllAllowed (free_workers t j head found)
  unfolding free_workers
  free-Allowed ended none found = Keeps-pure tt
  free-Allowed ended (some head) found =
      Keeps-bind (said found) _ (said-Allowed found) (λ f. free_found-Allowed ended head f)

  status-Allowed :
      (head : String) (on_head : Option (Option JobStatus))
      → j.answers.on_head ≡ on_head
      → j.status ≡ none
      → Keeps AllAllowed (follow_status t j head now on_head)
  unfolding follow_status
  status-Allowed head none e n = Keeps-pure tt
  status-Allowed head (some none) e n =
      Keeps-if_eq (leb (j.created + 2 * t.start_timeout) now) (remove_record j) (pure tt)
        (λ l. record-Allowed (IsDue.no_job l n (rw e refl))) (λ _. Keeps-pure tt)
  status-Allowed head (some (some status)) e n =
      Keeps-if_eq (job_ended (some status)) _ (pure tt)
        (λ l. free-Allowed (inr (rw e l)) (some head) j.answers.asked_again) (λ _. Keeps-pure tt)

  alone-Allowed : j.status ≡ none → is_alone ≡ true → Keeps AllAllowed (without_cluster t j now)
  unfolding without_cluster
  alone-Allowed n a =
      Keeps-if_eq (leb (j.created + t.record_time) now) (remove_record j) (pure tt)
        (λ l. record-Allowed (IsDue.no_cluster l n a)) (λ _. Keeps-pure tt)

  found-Allowed :
      (head : String) (asked : Outcome Fault (Option Found))
      → j.cluster ≡ some head
      → j.answers.asked ≡ asked
      → j.status ≡ none
      → Keeps AllAllowed (
          said asked >>= λ found.
          if live_found found
          then follow_status t j head now j.answers.on_head
          else without_cluster t j now)
  found-Allowed head (err f) c e n = record { at = λ s h. h }
  found-Allowed head (ok found) c e n = record {
    at =
        (Keeps-if_eq (live_found found) _ _ (λ l. status-Allowed head j.answers.on_head refl n)
          (λ l. alone-Allowed n (rw (c, e, l) refl))).at;
  }

  head-Allowed :
      (head : Option String)
      → j.cluster ≡ head
      → j.status ≡ none
      → Keeps AllAllowed (follow_on_head t j now head)
  unfolding follow_on_head
  head-Allowed none c n = alone-Allowed n (rw c refl)
  head-Allowed (some head) c n = found-Allowed head j.answers.asked c refl n

  delete_cluster-Allowed : (c : Cluster) (why : String) → Keeps AllAllowed (delete_cluster k c why)
  unfolding delete_cluster
  delete_cluster-Allowed c why = record { at = λ s h. h }

  stop-Allowed : (c : Cluster) → IsUnprovisioned → Keeps AllAllowed (stop_unprovisioned k t j c)
  unfolding stop_unprovisioned
  stop-Allowed c u = Keeps-bind _ _ (note-Allowed (stop_on_head j.name) u) (λ _.
      Keeps-bind _ _ (ask-Allowed j.answers.annotate_status (annotate_stopped j.name) u)
        (λ _. Keeps-bind _ _ (logs-Allowed (inr u)) (λ _. delete_cluster-Allowed c _)))

  stop_found-Allowed :
      (found : Option Found)
      → j.answers.asked ≡ ok found
      → job_ended j.status ≡ false
      → Keeps AllAllowed (stop_found k t j now found)
  unfolding stop_found
  stop_found-Allowed none e n = Keeps-pure tt
  stop_found-Allowed (some f) e n =
      Keeps-if_eq (unprovisioned k.provision_timeout f.cluster now)
        (stop_unprovisioned k t j f.cluster) (pure tt) (λ u. stop-Allowed f.cluster (f, e, u, n))
        (λ _. Keeps-pure tt)

  asked-Allowed :
      (asked : Outcome Fault (Option Found))
      → j.answers.asked ≡ asked
      → job_ended j.status ≡ false
      → Keeps AllAllowed (said asked >>= stop_found k t j now)
  asked-Allowed (err f) e n = record { at = λ s h. h }
  asked-Allowed (ok found) e n = record { at = (stop_found-Allowed found e n).at }

  running-Allowed :
      (head : Option String)
      → job_ended j.status ≡ false
      → Keeps AllAllowed (check_running k t j now head)
  unfolding check_running
  running-Allowed none n = Keeps-pure tt
  running-Allowed (some head) n = asked-Allowed j.answers.asked refl n

  ended-Allowed :
      (ended : Option ℕ)
      → j.ended ≡ ended
      → job_ended j.status ≡ true
      → Keeps AllAllowed (remove_ended t j now ended)
  unfolding remove_ended
  ended-Allowed none e n = Keeps-pure tt
  ended-Allowed (some ended) e n =
      Keeps-if_eq (leb (ended + t.record_time) now) (remove_record j) (pure tt)
        (λ l. record-Allowed (IsDue.long_ended n (rw e l))) (λ _. Keeps-pure tt)

  at_status-Allowed :
      (status : Option JobStatus)
      → j.status ≡ status
      → Keeps AllAllowed (at_status k t j now status)
  unfolding at_status
  at_status-Allowed none e = head-Allowed j.cluster refl e
  at_status-Allowed (some status) e =
      Keeps-if_eq (job_ended (some status)) _ _
        (λ l.
          Keeps-bind _ _ (free-Allowed (inl (rw e l)) j.cluster j.answers.asked)
            (λ _. ended-Allowed j.ended refl (rw e l)))
        (λ l. running-Allowed j.cluster (rw e l))

  reap_job-Keeps : Keeps AllAllowed (reap_job k t now waited_for j)
  unfolding reap_job
  reap_job-Keeps =
      Keeps-if_eq j.deleting (pure tt) _ (λ _. Keeps-pure tt)
        (λ _.
          Keeps-if_eq (is_some j.submission) _ _ (λ _. at_status-Allowed j.status refl)
            (λ n.
              Keeps-if_eq (not waited_for && leb (j.created + 2 * t.start_timeout) now)
                (remove_record j) (pure tt)
                (λ l.
                  record-Allowed (IsDue.never_submitted n (ground (arith, l)) (ground (arith, l))))
                (λ _. Keeps-pure tt)))

  -- Whatever is answered, a pass over a RayJob asks to delete its record only if nobody submitted it
  -- within twice the start's time and no upload waits for it, if it has no status and is old enough
  -- and no cluster that stays up or a head without it, or if it ended long enough ago; it suspends
  -- workers only of a job that ended by KubeRay's status or its head's; it stops a job only if it has
  -- not ended and its cluster is past its time to provision.
  pub reap_job-Allowed :
      (s : Pass) → s.log ≡ [] → All Allowed (reap_job k t now waited_for j s).1.log
  reap_job-Allowed s e = reap_job-Keeps.at s (rw e tt)
