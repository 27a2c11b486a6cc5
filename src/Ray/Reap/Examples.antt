-- ===== src/Ray/Reap/Examples.antt =====
-- Passes over two clusters: tests, and the theorems at them.
use purdue_af.Common.{ℕ, ◌≡◌, refl, false, none, some, [], ◌∷◌, arith}
use mathlib.Core.List.{Memᴰ}
use purdue_af.Common.Exec.{ok, err}
use purdue_af.Common.Dict.{get, put, remove}
use purdue_af.Ray.Reap.{
  after_fault, http_status, Head, Cluster, Gateway, Limits, unprovisioned, works, runs_job, busy,
  forget, tell, delete, remove_idle, reap_cluster, reap_all, reap_idle,
}
use purdue_af.Ray.Reap.Choice.{chosen, reap_all-asked}
use purdue_af.Ray.Reap.Clocks.{Round, passes, IsQuiet, passes-deletes}

abbrev limits : Limits
limits = record { idle_timeout = 600000; provision_timeout = 900000; gone_time = 3600000 }

abbrev quiet_head : Head
quiet_head = record { tasks = ok (some false); jobs = ok (some []) }

abbrev working_head : Head
working_head = record {
  tasks = ok (some false);
  jobs = ok (some (record { type = some "SUBMISSION"; status = some "PENDING" } ∷ []));
}

abbrev ana : Cluster
ana = record {
  name = "ray-train-ana";
  origin = none;
  deleting = false;
  conditions = [];
  created = 0;
  head = quiet_head;
  delete_status = some 200;
  deleted_at = 700001;
}

abbrev bob : Cluster
bob = record {
  name = "ray-train-bob";
  origin = none;
  deleting = false;
  conditions = [];
  created = 0;
  head = working_head;
  delete_status = some 200;
  deleted_at = 700001;
}

abbrev fresh : Gateway
fresh = record {
  last_used = ("ray-train-ana", 1000) ∷ [];
  started = [];
  channels = [];
  clients = ("ray-train-ana", "c1" ∷ []) ∷ [];
  gone = [];
  never_started = [];
  asked = [];
}

busy-silent :
    busy (record ana { head = record { tasks = err (http_status 403); jobs = ok none } }) ≡ false
unfolding busy after_fault
busy-silent = refl

reap_idle-two :
    (reap_idle limits 700000 700000 200 (ana ∷ bob ∷ []) fresh).gone
    ≡ (
      "c1",
      (
        4300001,
        "Your Ray cluster was removed after it went idle: run ray.shutdown(), then ray.init() again.",
      ),
    )
      ∷ []
unfolding reap_idle reap_all reap_cluster unprovisioned busy after_fault works runs_job remove_idle
    delete forget tell get put remove
reap_idle-two = refl

reap_all-asked_example :
    (reap_all limits 700000 700000 (ana ∷ bob ∷ []) fresh).asked
    ≡ chosen limits 700000 700000 fresh.last_used (ana ∷ bob ∷ []) []
reap_all-asked_example =
    reap_all-asked limits 700000 700000 (ana ∷ bob ∷ []) fresh ((refl, tt), (tt, tt))

abbrev round : ℕ → Round
round t = record { now = t; wall = t; listing = ana ∷ [] }

round-IsQuiet : (t : ℕ) → IsQuiet limits "ray-train-ana" (round t)
unfolding unprovisioned busy after_fault works
round-IsQuiet t = ((tt, tt), ana, Memᴰ.head refl, refl, refl, refl, refl)

passes-deletes_example :
    Memᴰ "ray-train-ana"
      (reap_idle limits 601000 601000 200 (ana ∷ []) (passes limits (round 30000 ∷ []) fresh)).asked
unfolding get
passes-deletes_example =
    passes-deletes limits "ray-train-ana" 1000 (round 30000 ∷ []) (round 601000) fresh refl
      (round-IsQuiet 30000, tt) (round-IsQuiet 601000) (omega arith)
