-- ===== src/Ray/Start/Examples.antt =====
-- A user's idle cluster that makes way for one in another shape: the theorem at it.
use purdue_af.Common.{ℕ, refl, true, false, none, some, [], ◌∷◌, All}
use purdue_af.Common.Exec.{ok}
use purdue_af.Common.Text.{codes}
use purdue_af.Ray.Base.{Shape, purdue}
use purdue_af.Ray.Reap.{Cluster}
use purdue_af.Ray.Start.{start_cluster}
use purdue_af.Ray.Existing.{Existing, Context, Replies, World}
use purdue_af.Ray.Start.Deletes.{MayDelete, start_cluster-MayDelete}

abbrev shape_of : ℕ → Shape
shape_of workers = record {
  env = codes "/work/env";
  workers = workers;
  memory = 5;
  cpus = codes "4";
  ram = codes "16";
  per_worker = 1;
  least = 0;
  site = purdue;
}

abbrev context : Context
context = record {
  kinds = record { resource = "nvidia.com/gpu"; memory = 16; budget = 8; per_worker = 2 } ∷ [];
  grant_time = 120000;
  limits = record { idle_timeout = 600000; provision_timeout = 900000; gone_time = 3600000 };
  user = record {
    name = "ana";
    account = "ana";
    uid = 7;
    gid = 7;
    session_gpu = false;
    workload = false;
  };
  cluster = "ray-train-ana";
  shape = shape_of 2;
  roots = codes "/work" ∷ [];
}

abbrev idle_one : Cluster
idle_one = record {
  name = "ray-train-ana";
  origin = none;
  deleting = false;
  conditions = [];
  created = 0;
  head = record { tasks = ok (some false); jobs = ok (some []) };
  delete_status = some 200;
  deleted_at = 700001;
}

abbrev in_shape : ℕ → Existing
in_shape workers = record { cluster = idle_one; owner = ""; shape = shape_of workers; groups = [] }

abbrev replies : Replies
replies = record {
  now = 700000;
  found = ok (some (in_shape 1));
  admission = record {
    status = 200;
    listing = [];
    free = some (("nvidia.com/gpu", record { unheld = 3; preemptible = 0 }) ∷ []);
    now = 700000;
  };
  gone = (ok true, false) ∷ (ok false, false) ∷ [];
  post = some 201;
  created = in_shape 2;
  found_again = ok none;
  polls =
      record { secret = some 201; head = none; late = false }
      ∷ record { secret = some 409; head = some 200; late = false }
      ∷ [];
  open_status = some 401;
}

abbrev world : World
world = record {
  gateway = record {
    last_used = [];
    started = [];
    channels = [];
    clients = [];
    gone = [];
    never_started = [];
    asked = [];
  };
  grants = [];
}

start_cluster-MayDelete_example :
    All (MayDelete context replies) (start_cluster context replies world).1.gateway.asked
start_cluster-MayDelete_example = start_cluster-MayDelete context replies world refl
