-- ===== src/Hub/Cull.antt =====
-- cull-gpu-sessions.py: a pass stops the sessions that hold a GPU and are idle. Times are milliseconds;
-- what the Hub and Kubernetes answer are arguments, and the state is the calls of the Hub, the last
-- first. idle_seconds is the time since a moment, so that one in the future is less than any timeout.
pub mod Pods
pub mod Choice
mod Examples
use purdue_af.Common.{
  ℕ, ◌+◌, String, Bool, true, false, ◌||◌, ◌&&◌, Option, none, some, List, [], ◌∷◌, ltb, str_eq,
  if◌then◌else◌, or_default,
}
use purdue_af.Common.Exec.{Outcome, ok, err}
use purdue_af.Common.Dict.{Dict, get}
use purdue_af.Hub.{Container, is_gpu}

pub record Pod : Type 0 where
  pub phase : String
  pub containers : List Container
  pub annotations : Dict String

holds_in : Dict ℕ → Bool
holds_in [] = false
holds_in ((r, amount) ∷ limits) = is_gpu r amount || holds_in limits

holds_any : List Container → Bool
unfolding holds_in
holds_any [] = false
holds_any (c ∷ containers) = holds_in c.limits || holds_any containers

unfoldable pub pod_holds_gpu : Pod → Bool
unfolding holds_any
pod_holds_gpu pod = holds_any pod.containers

abbrev pub pod_server : Pod → Option String × String
pod_server pod = (
  get "hub.jupyter.org/username" pod.annotations,
  or_default (get "hub.jupyter.org/servername" pod.annotations) "",
)

abbrev pub add_server : Option String × String → List (String × String) → List (String × String)
add_server (none, name) servers = servers
add_server (some user, name) servers = (user, name) ∷ servers

unfoldable pub gpu_servers : List Pod → List (String × String)
gpu_servers [] = []
gpu_servers (pod ∷ pods) =
    let rest = gpu_servers pods in
    if str_eq pod.phase "Running" && pod_holds_gpu pod
    then add_server (pod_server pod) rest
    else rest

-- A time that the Hub gives: the moment, or a text that is no time.
pub data Stamp : Type 0 where
  moment : ℕ → Stamp
  malformed : Stamp

-- What the Hub says of a server; a text that is empty or missing is `none`.
pub record Server : Type 0 where
  pub pending : Option String
  pub last_activity : Option Stamp
  pub started : Option Stamp

-- `a or b`
abbrev pub first_of : Option Stamp → Option Stamp → Option Stamp
first_of none b = b
first_of (some a) b = some a

pub data Raised : Type 0 where
  value_error http_error : Raised

since_stamp : ℕ → Option Stamp → Outcome Raised ℕ
since_stamp now none = ok now
since_stamp now (some (moment t)) = ok t
since_stamp now (some malformed) = err value_error

-- Since when idle_seconds counts.
unfoldable pub idle_since : ℕ → Server → Outcome Raised ℕ
unfolding since_stamp
idle_since now server = since_stamp now (first_of server.last_activity server.started)

pub data Call : Type 0 where
  get_user : String → Call
  delete_server : String → String → Call

-- What the Hub answers to the GET of a user for one of their servers, with the user's servers, and to
-- the DELETE of a server; `none` and `false` are requests that fail.
pub record Answers : Type 0 where
  pub servers : String → String → Option (Dict Server)
  pub deletes : String → String → Bool

stop_idle :
    Answers
    → ℕ
    → ℕ
    → String
    → String
    → Outcome Raised ℕ
    → List Call
    → Outcome Raised (Unit {0}) × List Call
stop_idle hub now timeout user name (err e) calls = (err e, calls)
stop_idle hub now timeout user name (ok since) calls =
    if ltb now (since + timeout)
    then (ok tt, calls)
    else (if hub.deletes user name then ok tt else err http_error, delete_server user name ∷ calls)

abbrev pub is_pending : Option String → Bool
is_pending none = false
is_pending (some p) = true

at_server :
    Answers
    → ℕ
    → ℕ
    → String
    → String
    → Option Server
    → List Call
    → Outcome Raised (Unit {0}) × List Call
unfolding stop_idle
at_server hub now timeout user name none calls = (ok tt, calls)
at_server hub now timeout user name (some server) calls =
    if is_pending server.pending
    then (ok tt, calls)
    else stop_idle hub now timeout user name (idle_since now server) calls

at_user :
    Answers
    → ℕ
    → ℕ
    → String
    → String
    → Option (Dict Server)
    → List Call
    → Outcome Raised (Unit {0}) × List Call
unfolding at_server
at_user hub now timeout user name none calls = (err http_error, calls)
at_user hub now timeout user name (some servers) calls =
    at_server hub now timeout user name (get name servers) calls

unfoldable pub cull_server :
    Answers → ℕ → ℕ → String → String → List Call → Outcome Raised (Unit {0}) × List Call
unfolding at_user
cull_server hub now timeout user name calls =
    at_user hub now timeout user name (hub.servers user name) (get_user user ∷ calls)

-- cull_once's loop, which goes on after a server that raised.
unfoldable pub cull_each : Answers → ℕ → ℕ → List (String × String) → List Call → List Call
unfolding cull_server
cull_each hub now timeout [] calls = calls
cull_each hub now timeout ((user, name) ∷ servers) calls =
    cull_each hub now timeout servers (cull_server hub now timeout user name calls).1

-- `none` where Kubernetes does not list the pods: the pass fails before any call of the Hub.
unfoldable pub cull_once :
    Answers → ℕ → ℕ → Option (List Pod) → Outcome Raised (Unit {0}) × List Call
unfolding cull_each gpu_servers
cull_once hub now timeout none = (err http_error, [])
cull_once hub now timeout (some pods) = (ok tt, cull_each hub now timeout (gpu_servers pods) [])
