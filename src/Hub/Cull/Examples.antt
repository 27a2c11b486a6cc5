-- ===== src/Hub/Cull/Examples.antt =====
-- A test of Hub/Cull/Choice at concrete inputs.
use purdue_af.Common.{
  String, false, str_eq, if◌then◌else◌, none, some, ◌≡◌, refl, ◌↔◌, List, [], ◌∷◌,
}
use mathlib.Core.List.{Memᴰ}
use purdue_af.Common.Dict.{get}
use purdue_af.Common.Text.{starts_with}
use purdue_af.Hub.{is_gpu}
use purdue_af.Hub.Cull.{
  Pod, Server, moment, get_user, delete_server, Answers, cull_once, pod_holds_gpu, idle_since,
}
use purdue_af.Hub.Cull.Choice.{IsIdle, cull_once_iff}
use purdue_af.Hub.Cull.Pods.{IsGpuPod}

abbrev pod_of : String → Pod
pod_of user = record {
  phase = "Running";
  containers = record { limits = ("nvidia.com/gpu", 1) ∷ []; env = [] } ∷ [];
  annotations = ("hub.jupyter.org/username", user) ∷ [];
}

abbrev pods : List Pod
pods = pod_of "alice" ∷ pod_of "bob" ∷ []

abbrev idle_server : Server
idle_server = record { pending = none; last_activity = some (moment 1000); started = none }

-- Whatever the Hub says of alice; it knows bob's server.
abbrev hub : Answers
hub = record {
  servers = λ user name. if str_eq user "alice" then none else some (("", idle_server) ∷ []);
  deletes = λ user name. false;
}

bob_stopped :
    (cull_once hub 9000 8000 (some pods)).1
    ≡ delete_server "bob" "" ∷ get_user "bob" ∷ get_user "alice" ∷ []
unfolding cull_once pod_holds_gpu idle_since is_gpu starts_with get
bob_stopped = refl

cull_once_iff_example :
    Memᴰ (delete_server "bob" "") (cull_once hub 9000 8000 (some pods)).1
    ↔ (IsGpuPod pods "bob" "" × IsIdle hub 9000 8000 "bob" "")
cull_once_iff_example = cull_once_iff hub 9000 8000 pods "bob" ""
