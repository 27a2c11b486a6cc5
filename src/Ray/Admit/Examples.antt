-- ===== src/Ray/Admit/Examples.antt =====
-- Admissions with the GPU kinds of apps/ray-train/config.yaml: tests, and the theorems at them.
use purdue_af.Common.{
  ℕ, ◌+◌, ◌≤◌, String, ◌≡◌, refl, Option, none, some, List, [], ◌∷◌, arith, str_eq, if◌then◌else◌,
}
use purdue_af.Common.Exec.{ok}
use purdue_af.Common.Text.{codes}
use purdue_af.Common.Dict.{Dict, get, put, remove, merge, total}
use purdue_af.Ray.Base.{Flavor, Shape, purdue, flavors}
use purdue_af.Ray.Admit.{
  Supply, Grant, Answers, WorkerGroup, workers_of, held_gpus, market, mix_of, unexpired,
  granted_to_others, clusters_held, times, admit, offer_flavors,
}
use purdue_af.Ray.Admit.Grants.{
  Request, granted, limit_of, admit_all, admit-bounds, admit_all-within,
}

abbrev kinds : List Flavor
kinds =
    record { resource = "nvidia.com/mig-1g.5gb"; memory = 5; budget = 14; per_worker = 1 }
    ∷ record { resource = "nvidia.com/gpu"; memory = 16; budget = 8; per_worker = 2 }
    ∷ []

abbrev four_workers : Shape
four_workers = record {
  env = codes "/work/env";
  workers = 4;
  memory = 5;
  cpus = codes "4";
  ram = codes "16";
  per_worker = 1;
  least = 1;
  site = purdue;
}

abbrev supply : Dict Supply
supply =
    ("nvidia.com/mig-1g.5gb", record { unheld = 3; preemptible = 0 })
    ∷ ("nvidia.com/gpu", record { unheld = 2; preemptible = 1 })
    ∷ []

abbrev answers : Option (Dict Supply) → Answers
answers free = record { status = 200; listing = []; free = free; now = 1000 }

abbrev held : List WorkerGroup
held =
    record { replicas = some 2; limits = (("nvidia.com/gpu", 2) ∷ ("cpu", 4) ∷ []) ∷ [] }
    ∷ record { replicas = none; limits = (("nvidia.com/gpu", 1) ∷ []) ∷ [] }
    ∷ []

held_gpus-groups : held_gpus kinds held ≡ ("nvidia.com/gpu", 4) ∷ []
unfolding held_gpus get put remove
held_gpus-groups = refl

abbrev mix : Dict ℕ
mix = ("nvidia.com/mig-1g.5gb", 3) ∷ ("nvidia.com/gpu", 1) ∷ []

abbrev grants : Dict Grant
grants = ("ray-train-ana", record { gpus = mix; until = 121000 }) ∷ []

admit-mix :
    admit kinds 120000 (answers (some supply)) four_workers [] "ray-train-ana" [] ≡ (ok mix, grants)
unfolding admit market mix_of flavors times unexpired granted_to_others clusters_held offer_flavors
    get put remove total merge
admit-mix = refl

admit-bounds_example :
    (1 ≤ workers_of mix)
    × (workers_of mix ≤ 4)
    × ((c : String)
        → get c grants ≡ (
            if str_eq "ray-train-ana" c
            then some (record { gpus = times 1 mix; until = 121000 })
            else get c (unexpired 1000 [])))
admit-bounds_example =
    admit-bounds kinds 120000 (answers (some supply)) four_workers [] "ray-train-ana" [] mix grants
      (omega arith) admit-mix

abbrev outage_mix : Dict ℕ
outage_mix = ("nvidia.com/mig-1g.5gb", 4) ∷ ("nvidia.com/gpu", 0) ∷ []

admit-outage_mix :
    admit kinds 120000 (answers none) four_workers [] "ray-train-ana" []
    ≡ (ok outage_mix, ("ray-train-ana", record { gpus = outage_mix; until = 121000 }) ∷ [])
unfolding admit market mix_of flavors times unexpired granted_to_others clusters_held offer_flavors
    get put remove total merge
admit-outage_mix = refl

abbrev request_of : String → Dict ℕ → Request
request_of name replaced = record {
  shape = four_workers;
  replaced = replaced;
  name = name;
  status = 200;
  listing = [];
  now = 1000;
}

abbrev requests : List Request
requests =
    request_of "ray-train-ana" (("nvidia.com/gpu", 2) ∷ []) ∷ request_of "ray-train-ben" [] ∷ []

admit_all-within_example :
    granted "nvidia.com/gpu" (admit_all kinds 120000 supply requests [])
    ≤ limit_of kinds 120000 supply "nvidia.com/gpu" + 2
unfolding get total
admit_all-within_example =
    admit_all-within kinds 120000 supply requests "nvidia.com/gpu" 2 []
      (omega arith, (omega arith, tt)) (omega arith)

abbrev metrics : Dict String
metrics =
    ("nvidia.com/mig-1g.5gb", "nvidia_com_mig_1g_5gb") ∷ ("nvidia.com/gpu", "nvidia_com_gpu") ∷ []

abbrev allocatable : Dict ℕ
allocatable = ("nvidia_com_mig_1g_5gb", 14) ∷ ("nvidia_com_gpu", 8) ∷ []

abbrev free : Dict Supply
free =
    ("nvidia.com/mig-1g.5gb", record { unheld = 14; preemptible = 0 })
    ∷ ("nvidia.com/gpu", record { unheld = 5; preemptible = 1 })
    ∷ []
