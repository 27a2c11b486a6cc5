-- ===== src/Ray/Reap.antt =====
-- The reaper's pass over the Ray clusters: reap_idle, with live, head_ready, unprovisioned, busy and
-- delete, of apps/ray-train/gateway.py. The proofs are in the modules below.
-- Each listed cluster has what its head and Kubernetes answer to the pass. Times are in milliseconds.
pub mod Choice
pub mod Clocks
mod Examples
use purdue_af.Common.{
  ℕ, ◌+◌, String, Bool, true, false, not, ◌&&◌, ◌||◌, Option, none, some, List, [], ◌∷◌, ◌++◌,
  any_of, leb, ◌==◌, if◌then◌else◌, or_default, is_text, text_in,
}
use purdue_af.Common.Exec.{Outcome, ok, err, Exec, ◌>>=◌, ◌>>◌, pure}
use purdue_af.Common.Dict.{Dict, get, put, remove}
use purdue_af.Ray.Base.{Shape, Refusal, refused, unavailable}

-- What a GET of a head raises: an HTTP status, or anything else that `busy` catches.
pub data HeadFault : Type 0 where
  http_status : ℕ → HeadFault
  no_answer : HeadFault

pub record HeadJob : Type 0 where
  pub type : Option String
  pub status : Option String

-- `tasks` is whether a task runs, `jobs` the head's jobs; each is `none` in an answer that no Ray the
-- gateway knows gives. A list of jobs that are not objects, where reading their type raises an error
-- that `busy` does not catch, is left out.
pub record Head : Type 0 where
  pub tasks : Outcome HeadFault (Option Bool)
  pub jobs : Outcome HeadFault (Option (List HeadJob))

pub record Condition : Type 0 where
  pub type : Option String
  pub status : Option String

-- `delete_status` is what Kubernetes answers to its DELETE, `none` if it does not, and `deleted_at`
-- the monotonic time then.
pub record Cluster : Type 0 where
  pub name : String
  pub origin : Option String
  pub deleting : Bool
  pub conditions : List Condition
  pub created : ℕ
  pub head : Head
  pub delete_status : Option ℕ
  pub deleted_at : ℕ

-- live, of a cluster or none
unfoldable pub live : Option Cluster → Bool
live none = false
live (some c) = not c.deleting

unfoldable pub head_ready : Cluster → Bool
head_ready c = any_of (λ d. is_text d.type "HeadPodReady" && is_text d.status "True") c.conditions

unfoldable pub unprovisioned : ℕ → Cluster → ℕ → Bool
unprovisioned provision_timeout c wall =
    if c.deleting
      || not (
          any_of (λ d. is_text d.type "RayClusterProvisioned" && is_text d.status "False")
            c.conditions)
    then false
    else leb (c.created + provision_timeout) wall

unfoldable pub runs_job : HeadJob → Bool
runs_job j =
    is_text j.type "SUBMISSION" && (is_text j.status "PENDING" || is_text j.status "RUNNING")

-- `none` is an answer of another form.
unfoldable pub works : Option Bool → Option (List HeadJob) → Option Bool
works none jobs = none
works (some true) jobs = some true
works (some false) none = none
works (some false) (some jobs) = some (any_of runs_job jobs)

unfoldable pub after_fault : HeadFault → Cluster → Bool
after_fault (http_status n) c = if n == 401 || n == 403 then false else head_ready c
after_fault no_answer c = head_ready c

unfoldable pub busy : Cluster → Bool
busy c = elim c.head.tasks [
  | err f ↦ after_fault f c
  | ok tasks ↦ elim c.head.jobs [
    | err f ↦ after_fault f c
    | ok jobs ↦ or_default (works tasks jobs) (head_ready c)
  ]
]

-- The fields of Gateway that a deletion or the reaper changes. `asked` are the clusters whose
-- deletion Kubernetes was asked for, the last one first.
pub record Gateway : Type 0 where
  pub last_used : Dict ℕ
  pub started : Dict (String × Shape)
  pub channels : Dict (Unit {0})
  pub clients : Dict (List String)
  pub gone : Dict (ℕ × String)
  pub never_started : Dict String
  pub asked : List String

pub data Fault : Type 0 where
  refusal : Refusal → Fault
  client_error : Fault

pub record Limits : Type 0 where
  pub idle_timeout : ℕ
  pub provision_timeout : ℕ
  pub gone_time : ℕ

pub data Why : Type 0 where
  idle never_provisioned : Why

abbrev pub text_of : Why → String
text_of idle =
    "Your Ray cluster was removed after it went idle: run ray.shutdown(), then ray.init() again."
text_of never_provisioned =
    "Your Ray cluster was removed, as not all of its GPUs started in time: ask for fewer workers, or try again later."

unfoldable pub tell : List String → ℕ × String → Dict (ℕ × String) → Dict (ℕ × String)
tell [] news gone = gone
tell (c ∷ cs) news gone = tell cs news (put c news gone)

abbrev pub is_deleted : Option ℕ → Bool
is_deleted none = false
is_deleted (some status) = status == 200 || (status == 202 || status == 404)

-- Gateway.delete: what it leaves when Kubernetes takes the deletion.
unfoldable pub forget : Limits → Cluster → String → Gateway → Gateway
forget k c why g = record g {
  started = remove c.name g.started;
  gone = tell (or_default (get c.name g.clients) []) (c.deleted_at + k.gone_time, why) g.gone;
  clients = remove c.name g.clients;
  channels = remove c.name g.channels;
}

fault_of : Option ℕ → Fault
fault_of none = client_error
fault_of (some status) = refusal (refused unavailable "Kubernetes did not delete the Ray cluster")

unfoldable pub delete : Limits → Cluster → String → Exec Gateway Fault (Unit {0})
unfolding fault_of
delete k c why g =
    let asked = record g { asked = c.name ∷ g.asked } in
    if is_deleted c.delete_status
    then (ok tt, forget k c why asked)
    else (err (fault_of c.delete_status), asked)

abbrev pub edit : (Gateway → Gateway) → Exec Gateway Fault (Unit {0})
edit f g = (ok tt, f g)

abbrev pub unuse : Cluster → Gateway → Gateway
unuse c g = record g { last_used = remove c.name g.last_used }

unfoldable pub remove_unprovisioned : Limits → Cluster → Exec Gateway Fault (Unit {0})
remove_unprovisioned k c = do
  delete k c (text_of never_provisioned)
  edit (unuse c)
  edit (λ g. record g { never_started = put c.name (text_of never_provisioned) g.never_started })

unfoldable pub remove_idle : Limits → Cluster → Exec Gateway Fault (Unit {0})
remove_idle k c = do delete k c (text_of idle); edit (unuse c)

abbrev pub use_at : Cluster → ℕ → Gateway → Gateway
use_at c time g = record g { last_used = put c.name time g.last_used }

-- `self.last_used.setdefault(name, now)`
abbrev pub used_or : Cluster → ℕ → Gateway → ℕ
used_or c now g = or_default (get c.name g.last_used) now

-- One cluster of the loop, at the monotonic time `now` and the wall clock's `wall`.
unfoldable pub reap_cluster : Limits → ℕ → ℕ → Cluster → Exec Gateway Fault (Unit {0})
reap_cluster k now wall c g =
    if is_text c.origin "RayJob"
    then (ok tt, g)
    else if unprovisioned k.provision_timeout c wall
    then remove_unprovisioned k c g
    else if busy c
    then (ok tt, use_at c now g)
    else if leb (used_or c now g + k.idle_timeout) now
    then remove_idle k c (use_at c (used_or c now g) g)
    else (ok tt, use_at c (used_or c now g) g)

-- What one cluster raises is logged, and the next is checked.
unfoldable pub reap_all : Limits → ℕ → ℕ → List Cluster → Gateway → Gateway
reap_all k now wall [] g = g
reap_all k now wall (c ∷ cs) g = reap_all k now wall cs (reap_cluster k now wall c g).1

unfoldable pub reap_idle : Limits → ℕ → ℕ → ℕ → List Cluster → Gateway → Gateway
reap_idle k now wall status listing g = if status == 200 then reap_all k now wall listing g else g
