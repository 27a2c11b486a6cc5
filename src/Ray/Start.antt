-- ===== src/Ray/Start.antt =====
-- A user's own cluster: start_cluster, wait_until_gone, head_up, cluster_for and running of
-- apps/ray-train/gateway.py. The proofs are in the module below.
-- What Kubernetes, the head and Prometheus answer comes with the call. A poll that does not end its
-- wait is followed by the next one; after the last one the deadline has passed. Times are in
-- milliseconds.
pub mod Deletes
mod Examples
use purdue_af.Common.{
  ℕ, String, Bool, true, false, not, ◌&&◌, ◌||◌, Option, none, some, List, [], ◌∷◌, ◌==◌,
  if◌then◌else◌, str_eq, is_some,
}
use purdue_af.Common.Exec.{Outcome, ok, err, Exec, ◌>>=◌, ◌>>◌, pure}
use purdue_af.Common.Dict.{Dict, get, put, remove}
use purdue_af.Common.Text.{Text, same}
use purdue_af.Ray.Base.{
  Flavor, Shape, Site, purdue, nrp, User, Refusal, refused, invalid_argument, unavailable, aborted,
  failed_precondition, permission_denied, not_found,
}
use purdue_af.Ray.Admit.{Grant, Answers, WorkerGroup, held_gpus, admit}
use purdue_af.Ray.Cluster.{owner}
use purdue_af.Ray.Paths.{mounted_env}
use purdue_af.Ray.Reap.{Cluster, Gateway, Limits, Fault, refusal, client_error, live, busy, delete}
use purdue_af.Ray.Existing.{
  Existing, same_site, same_shape, runs, HeadPoll, Replies, World, Start, refuse_with, said, edit,
  Context, late_head, is_made, secret_fault, is_ok,
}

module _ (c : Context) (r : Replies) where
  unfoldable pub refuse_other : Existing → Start (Unit {0})
  refuse_other e =
      if str_eq e.owner (owner c.user)
      then pure tt
      else refuse_with (refused permission_denied "someone else's Ray cluster")

  unfoldable pub refuse_live : Option Existing → Start (Unit {0})
  refuse_live none = pure tt
  refuse_live (some e) = if live (some e.cluster) then refuse_other e else pure tt

  unfoldable pub lift : Outcome Refusal (Dict ℕ) → Outcome Fault (Unit {0})
  lift (ok mix) = ok tt
  lift (err e) = err (refusal e)

  -- Gateway.admit, on the gateway's grants.
  unfoldable pub admitted : List WorkerGroup → Start (Unit {0})
  admitted replaced s =
      let (mix, grants) =
        admit c.kinds c.grant_time r.admission c.shape (held_gpus c.kinds replaced) c.cluster
          s.grants in
      (lift mix, record s { grants = grants })

  unfoldable pub delete_own : Cluster → Start (Unit {0})
  delete_own cluster s =
      let (done, g) =
        delete c.limits cluster
          "Your Ray cluster was removed after it went idle: run ray.shutdown(), then ray.init() again."
          s.gateway in
      (done, record s { gateway = g })

  unfoldable pub wait_until_gone : List (Outcome Fault Bool × Bool) → Start (Unit {0})
  wait_until_gone [] = refuse_with (refused unavailable "still shutting down")
  wait_until_gone ((err e, late) ∷ polls) = said (err e)
  wait_until_gone ((ok false, late) ∷ polls) = pure tt
  wait_until_gone ((ok true, true) ∷ polls) =
      refuse_with (refused unavailable "still shutting down")
  wait_until_gone ((ok true, false) ∷ polls) = wait_until_gone polls

  -- A cluster in another shape makes way: if nothing runs in it, and once the new one is admitted.
  unfoldable pub replace_cluster : Existing → Start (Unit {0})
  replace_cluster e =
      if live (some e.cluster)
      then if busy e.cluster
        then refuse_with (refused failed_precondition "runs other settings, and tasks or jobs")
        else (do admitted e.groups; delete_own e.cluster; wait_until_gone r.gone)
      else (do admitted []; wait_until_gone r.gone)

  unfoldable pub refuse_found : Option Existing → Start (Unit {0})
  refuse_found none = pure tt
  refuse_found (some e) = refuse_other e

  unfoldable pub after_post : ℕ → Start (Option Existing)
  after_post status =
      if status == 201
      then (do
        edit (λ s. record s {
          gateway = record s.gateway { never_started = remove c.cluster s.gateway.never_started };
        })
        pure (some r.created))
      else if status == 409
      then (do found ← said r.found_again; refuse_found found; pure found)
      else (do
        edit (λ s. record s { grants = remove c.cluster s.grants })
        refuse_with (refused unavailable "could not create the Ray cluster"))

  abbrev pub answered : Option ℕ → Outcome Fault ℕ
  answered none = err client_error
  answered (some status) = ok status

  unfoldable pub create : Start (Option Existing)
  create = do status ← said (answered r.post); after_post status

  -- The cluster that the call goes on with.
  unfoldable pub at_found : Option Existing → Start (Option Existing)
  at_found none = do admitted []; create
  at_found (some e) =
      if runs (some e) c.shape then pure (some e) else (do replace_cluster e; create)

  unfoldable pub head_up : List HeadPoll → Start (Unit {0})
  head_up [] = refuse_with late_head
  head_up (p ∷ polls) =
      if not (is_made p.secret)
      then said (err (secret_fault p.secret))
      else if is_ok p.head
      then pure tt
      else if p.late
      then refuse_with late_head
      else head_up polls

  abbrev pub is_open : Bool
  is_open = is_ok r.open_status

  -- A head that answers without the token is no cluster's.
  unfoldable pub closed_head : Existing → Start (Unit {0})
  closed_head e =
      if is_open
      then (do
        delete_own e.cluster
        refuse_with (refused invalid_argument "does not enforce the cluster's token"))
      else pure tt

  unfoldable pub await_head : Option Existing → Start (Unit {0})
  await_head none = refuse_with (refused aborted "another call is replacing the Ray cluster")
  await_head (some e) =
      if runs (some e) c.shape
      then (do head_up r.polls; closed_head e)
      else refuse_with (refused aborted "another call is replacing the Ray cluster")

  abbrev pub use_now : World → World
  use_now s = record s {
    gateway = record s.gateway { last_used = put c.cluster r.now s.gateway.last_used };
  }

  unfoldable pub start_cluster : Start (Unit {0})
  start_cluster = do
    found ← said r.found
    refuse_live found
    edit use_now
    cluster ← at_found found
    await_head cluster

  -- Whether the cluster was last found to be the user's, in the shape.
  unfoldable pub is_known : Option (String × Shape) → Bool
  is_known none = false
  is_known (some (o, shape)) = str_eq o (owner c.user) && same_shape shape c.shape

  abbrev pub know : World → World
  know s = record s {
    gateway = record s.gateway {
      started = put c.cluster (owner c.user, c.shape) s.gateway.started;
    };
  }

  unfoldable pub start_unknown : Start (Unit {0})
  start_unknown s =
      if is_known (get c.cluster s.gateway.started)
      then (ok tt, s)
      else (do start_cluster; edit know) s

  -- The Refusals of a call before any cluster is looked at.
  unfoldable pub may_start : Outcome Refusal (Unit {0})
  may_start =
      if not (same_site c.shape.site purdue)
      then err (refused invalid_argument "for jobs that a JobSubmissionClient submits")
      else if c.user.session_gpu
      then err (refused failed_precondition "the session holds a GPU")
      else elim (mounted_env c.roots c.shape.env) [ ok path ↦ ok tt | err e ↦ err e ]

  abbrev pub lifted : Outcome Refusal (Unit {0}) → Outcome Fault (Unit {0})
  lifted (ok t) = ok tt
  lifted (err e) = err (refusal e)

  unfoldable pub cluster_for : Start String
  cluster_for = do said (lifted may_start); start_unknown; edit use_now; pure c.cluster

  -- What asking after jobs finds: the reason why there is no cluster is `never_started`'s.
  unfoldable pub refuse_absent : Option Existing → Start (Unit {0})
  refuse_absent none = refuse_with (refused not_found "no Ray cluster")
  refuse_absent (some e) =
      if live (some e.cluster)
      then refuse_other e
      else refuse_with (refused not_found "no Ray cluster")

  abbrev is_owner : Option (String × Shape) → Bool
  is_owner none = false
  is_owner (some (o, shape)) = str_eq o (owner c.user)

  unfoldable pub find_unknown : Start (Unit {0})
  find_unknown s =
      if is_owner (get c.cluster s.gateway.started)
      then (ok tt, s)
      else (do found ← said r.found; refuse_absent found) s

  unfoldable pub running : Start String
  running = do find_unknown; edit use_now; pure c.cluster
