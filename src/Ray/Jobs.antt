-- ===== src/Ray/Jobs.antt =====
-- The reaper's pass over one RayJob: reap_jobs' loop body with follow_on_head, free_workers,
-- stop_unprovisioned and keep_logs of apps/ray-train/gateway.py. The proofs are in the modules below.
-- A job comes with what is answered about it; what the pass asks for is its log. Times are in
-- milliseconds.
pub mod Records
pub mod Logs
mod Examples
use purdue_af.Common.{
  ℕ, suc, ◌+◌, ◌-◌, ◌*◌, String, Bool, true, false, not, ◌&&◌, ◌||◌, Option, none, some, List, [],
  ◌∷◌, ◌++◌, ltb, leb, ◌==◌, if◌then◌else◌, length, is_some, or_default,
}
use purdue_af.Common.Exec.{Outcome, ok, err, Exec, ◌>>=◌, ◌>>◌, pure}
use purdue_af.Ray.NrpState.{JobStatus, job_ended}
use purdue_af.Ray.Reap.{Cluster, Gateway, Limits, Fault, client_error, live, unprovisioned, delete}

-- A cluster, and which of its worker groups are suspended.
pub record Found : Type 0 where
  pub cluster : Cluster
  pub suspended : List Bool

-- How following a job's log ends: the head refuses the connection or is lost, or the messages.
pub data Stream : Type 0 where
  refused_stream lost_stream : Stream
  messages : List (List ℕ) → Stream

-- `none` for a status is an answer that does not come. `asked` and `asked_again` are what Kubernetes
-- says of the job's cluster, `on_head` what its head says of the job: `none` if it does not answer,
-- `some none` if it has no such job.
pub record Answers : Type 0 where
  pub asked : Outcome Fault (Option Found)
  pub asked_again : Outcome Fault (Option Found)
  pub on_head : Option (Option JobStatus)
  pub suspend_status : Option ℕ
  pub stream : Stream
  pub logs_status : Option ℕ
  pub annotate_status : Option ℕ
  pub delete_status : Option ℕ

pub record RayJob : Type 0 where
  pub name : String
  pub created : ℕ
  pub deleting : Bool
  pub submission : Option String
  pub status : Option JobStatus
  pub cluster : Option String
  pub ended : Option ℕ
  pub has_logs : Bool
  pub answers : Answers

pub data Call : Type 0 where
  delete_rayjob : String → Call
  suspend_workers : String → List ℕ → Call
  keep_logs_of : String → Bool → List ℕ → Call
  annotate_logs annotate_stopped stop_on_head : String → Call

pub record Pass : Type 0 where
  pub gateway : Gateway
  pub log : List Call

abbrev pub Jobs : Type 0 → Type 0
Jobs A = Exec Pass Fault A

pub record Times : Type 0 where
  pub start_timeout : ℕ
  pub record_time : ℕ
  pub log_bytes : ℕ

abbrev answered : Option ℕ → Outcome Fault ℕ
answered none = err client_error
answered (some status) = ok status

-- A call to Kubernetes: its status, or what it raises.
unfoldable pub ask : Option ℕ → Call → Jobs ℕ
ask status c s = (answered status, record s { log = s.log ++ c ∷ [] })

abbrev pub said : {A : Type 0} → Outcome Fault A → Jobs A
said r s = (r, s)

-- delete_rayjob, whose status reap_jobs does not read
unfoldable pub remove_record : RayJob → Jobs (Unit {0})
remove_record j = do ask j.answers.delete_status (delete_rayjob j.name); pure tt

-- The last n of a list.
unfoldable pub last : {A : Type 0} → ℕ → List A → List A
last n [] = []
last n (x ∷ xs) = let rest = last n xs in if ltb (length xs) n then x ∷ xs else rest

-- What is kept while the messages come.
unfoldable pub keep_from : ℕ → List ℕ → List (List ℕ) → List ℕ
keep_from bytes kept [] = kept
keep_from bytes kept (m ∷ ms) =
    keep_from bytes
      (if ltb (2 * bytes) (length (kept ++ m)) then last bytes (kept ++ m) else kept ++ m) ms

-- `decode(errors="ignore")` of the end of a text: where a character is cut, its last bytes are dropped.
unfoldable pub decoded : List ℕ → List ℕ
decoded [] = []
decoded (c ∷ s) = let rest = decoded s in if leb 128 c && ltb c 192 then rest else c ∷ s

-- `logs.partition("\n")[2]`
unfoldable pub after_line : List ℕ → List ℕ
after_line [] = []
after_line (c ∷ s) = if c == 10 then s else after_line s

-- What is kept of a log, as bytes of UTF-8, and whether a line before it says that the first lines
-- are cut; the messages' bytes are those of texts.
unfoldable pub kept_logs : ℕ → List (List ℕ) → Bool × List ℕ
kept_logs bytes ms =
    let kept = keep_from bytes [] ms in
    let logs = decoded (last bytes kept) in
    if ltb bytes (length kept) then (true, after_line logs) else (false, logs)

unfoldable pub after_logs : RayJob → ℕ → Jobs (Unit {0})
after_logs j status =
    if not (status == 201) && not (status == 409)
    then pure tt
    else (do ask j.answers.annotate_status (annotate_logs j.name); pure tt)

unfoldable pub store_logs : Times → RayJob → Stream → Jobs (Unit {0})
store_logs t j refused_stream = pure tt
store_logs t j lost_stream = pure tt
store_logs t j (messages ms) = do
  status ←
      ask j.answers.logs_status
        (keep_logs_of j.name (kept_logs t.log_bytes ms).0 (kept_logs t.log_bytes ms).1)
  after_logs j status

unfoldable pub keep_logs : Times → RayJob → Jobs (Unit {0})
keep_logs t j = if j.has_logs then pure tt else store_logs t j j.answers.stream

-- The indices, from n on, of the groups that are not suspended.
unfoldable pub running_groups : ℕ → List Bool → List ℕ
running_groups n [] = []
running_groups n (true ∷ groups) = running_groups (suc n) groups
running_groups n (false ∷ groups) = n ∷ running_groups (suc n) groups

unfoldable pub suspend : RayJob → String → List ℕ → Jobs (Unit {0})
suspend j head [] = pure tt
suspend j head (g ∷ groups) = do
  ask j.answers.suspend_status (suspend_workers head (g ∷ groups))
  pure tt

unfoldable pub free_found : Times → RayJob → String → Option Found → Jobs (Unit {0})
free_found t j head none = pure tt
free_found t j head (some f) =
    if live (some f.cluster)
    then (do keep_logs t j; suspend j head (running_groups 0 f.suspended))
    else pure tt

unfoldable pub free_workers :
    Times → RayJob → Option String → Outcome Fault (Option Found) → Jobs (Unit {0})
free_workers t j none found = pure tt
free_workers t j (some head) found = do f ← said found; free_found t j head f

abbrev pub live_found : Option Found → Bool
live_found none = false
live_found (some f) = live (some f.cluster)

-- What the head of a live cluster says of the job.
unfoldable pub follow_status :
    Times → RayJob → String → ℕ → Option (Option JobStatus) → Jobs (Unit {0})
follow_status t j head now none = pure tt
follow_status t j head now (some none) =
    if leb (j.created + 2 * t.start_timeout) now then remove_record j else pure tt
follow_status t j head now (some (some status)) =
    if job_ended (some status) then free_workers t j (some head) j.answers.asked_again else pure tt

unfoldable pub without_cluster : Times → RayJob → ℕ → Jobs (Unit {0})
without_cluster t j now = if leb (j.created + t.record_time) now then remove_record j else pure tt

unfoldable pub follow_on_head : Times → RayJob → ℕ → Option String → Jobs (Unit {0})
follow_on_head t j now none = without_cluster t j now
follow_on_head t j now (some head) = do
  found ← said j.answers.asked
  if live_found found then follow_status t j head now j.answers.on_head else without_cluster t j now

-- Gateway.delete of the cluster, on the gateway's own fields.
unfoldable pub delete_cluster : Limits → Cluster → String → Jobs (Unit {0})
delete_cluster k c why s = let (r, g) = delete k c why s.gateway in (r, record s { gateway = g })

unfoldable pub note : Call → Jobs (Unit {0})
note c s = (ok tt, record s { log = s.log ++ c ∷ [] })

unfoldable pub stop_unprovisioned : Limits → Times → RayJob → Cluster → Jobs (Unit {0})
stop_unprovisioned k t j c = do
  note (stop_on_head j.name)
  ask j.answers.annotate_status (annotate_stopped j.name)
  keep_logs t j
  delete_cluster k c
      "Your Ray cluster was removed after it went idle: run ray.shutdown(), then ray.init() again."

-- A job that ended: its workers first, then its record once it was kept long enough.
unfoldable pub remove_ended : Times → RayJob → ℕ → Option ℕ → Jobs (Unit {0})
remove_ended t j now none = pure tt
remove_ended t j now (some ended) =
    if leb (ended + t.record_time) now then remove_record j else pure tt

unfoldable pub stop_found : Limits → Times → RayJob → ℕ → Option Found → Jobs (Unit {0})
stop_found k t j now none = pure tt
stop_found k t j now (some f) =
    if unprovisioned k.provision_timeout f.cluster now
    then stop_unprovisioned k t j f.cluster
    else pure tt

unfoldable pub check_running : Limits → Times → RayJob → ℕ → Option String → Jobs (Unit {0})
check_running k t j now none = pure tt
check_running k t j now (some head) = do found ← said j.answers.asked; stop_found k t j now found

-- With a status of KubeRay's, or none.
unfoldable pub at_status : Limits → Times → RayJob → ℕ → Option JobStatus → Jobs (Unit {0})
at_status k t j now none = follow_on_head t j now j.cluster
at_status k t j now (some status) =
    if job_ended (some status)
    then (do free_workers t j j.cluster j.answers.asked; remove_ended t j now j.ended)
    else check_running k t j now j.cluster

-- `waited_for`: an upload's submission may still come to it.
unfoldable pub reap_job : Limits → Times → ℕ → Bool → RayJob → Jobs (Unit {0})
reap_job k t now waited_for j =
    if j.deleting
    then pure tt
    else if is_some j.submission
    then at_status k t j now j.status
    else if not waited_for && leb (j.created + 2 * t.start_timeout) now
    then remove_record j
    else pure tt
