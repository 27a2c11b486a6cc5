-- ===== src/Ray/Settings.antt =====
-- The settings of a call, from its headers or metadata: Gateway.caller of apps/ray-train/gateway.py.
-- A header's value is its characters' codes.
pub mod Numbers
pub mod Parts
pub mod Callers
mod Examples
use purdue_af.Common.{
  ℕ, suc, ◌+◌, ◌-◌, ◌*◌, ◌/◌, min, max, String, Bool, true, false, not, ◌&&◌, ◌||◌, Option, none,
  some, List, [], ◌∷◌, length, keep, sum_by, any_of, ltb, leb, ◌==◌, if◌then◌else◌, or_default,
  text_in, str_eq,
}
use purdue_af.Common.Exec.{Outcome, ok, err}
use purdue_af.Common.Result.{◌>>=◌, ◌>>◌, check, or_refuse}
use purdue_af.Common.Dict.{Dict, get}
use purdue_af.Common.Text.{Text, codes, same, starts_with, strip, lower}
use purdue_af.Common.Digits.{is_digit, digits, int}
use purdue_af.Ray.Base.{
  Flavor, Shape, Site, purdue, nrp, flavors, User, Refusal, refused, invalid_argument, unavailable,
  unauthenticated,
}
use purdue_af.Ray.Paths.{requested_env}
use purdue_af.Ray.Requested.{
  requested_size, Reading, gpu_memory, requested_memory, requested_per_worker, is_empty,
  requested_workers, bearer_token,
}

abbrev pub settings : List String
settings =
    "af-env" ∷ "af-n-workers" ∷ "af-max-workers" ∷ "af-gpus-per-worker" ∷ "af-min-gpu-memory-gb"
    ∷ "af-cpus-per-worker" ∷ "af-ram-per-worker-gb" ∷ "af-site" ∷ "af-inputs" ∷ "af-output" ∷ []

-- Those that no job on NRP may set: SETTINGS - NRP_SETTINGS.
abbrev pub purdue_settings : List String
purdue_settings =
    "af-env" ∷ "af-gpus-per-worker" ∷ "af-cpus-per-worker" ∷ "af-ram-per-worker-gb" ∷ []

-- UNPREFIXED
abbrev pub unprefixed : List String
unprefixed =
    "env" ∷ "n-workers" ∷ "max-workers" ∷ "gpus-per-worker" ∷ "min-gpu-memory-gb"
    ∷ "cpus-per-worker" ∷ "ram-per-worker-gb" ∷ "site" ∷ "inputs" ∷ "output" ∷ []

unfoldable pub is_unknown : String → Bool
is_unknown name =
    text_in name unprefixed || starts_with (codes name) (codes "af-") && not (text_in name settings)

-- `values.get(name, "")`
abbrev pub value_of : String → Dict Text → Text
value_of name values = or_default (get name values) []

abbrev site_text : Text → Text
site_text [] = codes "purdue"
site_text (c ∷ cs) = c ∷ cs

-- `none` for a value that is not in SITES.
unfoldable pub site_of : Text → Option Site
site_of value =
    let site = site_text value in
    if same site (codes "purdue")
    then some purdue
    else if same site (codes "nrp")
    then some nrp
    else none

-- config.yaml, the template's storage and worker, and float().
pub record Config : Type 0 where
  pub kinds : List Flavor
  pub default_env : Text
  pub cpus_max : ℕ
  pub ram_min : ℕ
  pub ram_max : ℕ
  pub roots : User → List Text
  pub worker_size : Text × Text
  pub reads : Text → Reading

-- A call for a job on NRP: the numbers of its Shape are those asked for.
unfoldable pub nrp_shape : Config → Dict Text → Outcome Refusal Shape
nrp_shape config values = do
  check (not (any_of (λ v. text_in v.0 purdue_settings) values))
      (refused invalid_argument "sets a Ray cluster at Purdue")
  asked ← requested_workers (value_of "af-n-workers" values) (value_of "af-max-workers" values) none
  memory ← gpu_memory config.reads (value_of "af-min-gpu-memory-gb" values)
  ok (record {
    env = [];
    workers = asked.0;
    memory = memory;
    cpus = [];
    ram = [];
    per_worker = 1;
    least = asked.1;
    site = nrp;
  })

abbrev room_for : List Flavor → Shape → ℕ
room_for all shape = sum_by (λ f. f.budget / shape.per_worker) (flavors all shape)

-- The Shape before its workers are known.
unfoldable pub purdue_shape : Config → List Text → Dict Text → Outcome Refusal Shape
purdue_shape config roots values = do
  memory ← requested_memory config.kinds config.reads (value_of "af-min-gpu-memory-gb" values)
  env ← requested_env roots config.default_env (value_of "af-env" values)
  cpus ←
      requested_size (value_of "af-cpus-per-worker" values) config.worker_size.0 1 config.cpus_max
  ram ←
      requested_size (value_of "af-ram-per-worker-gb" values) config.worker_size.1 config.ram_min
        config.ram_max
  per_worker ← requested_per_worker config.kinds (value_of "af-gpus-per-worker" values) memory
  ok (record {
    env = env;
    workers = 1;
    memory = memory;
    cpus = cpus;
    ram = ram;
    per_worker = per_worker;
    least = 1;
    site = purdue;
  })

-- `dataclasses.replace(shape, workers=workers, least=least)`
abbrev pub with_workers : Shape → ℕ × ℕ → Shape
with_workers shape asked = record {
  env = shape.env;
  workers = asked.0;
  memory = shape.memory;
  cpus = shape.cpus;
  ram = shape.ram;
  per_worker = shape.per_worker;
  least = asked.1;
  site = shape.site;
}

unfoldable pub cluster_shape : Config → List Text → Dict Text → Outcome Refusal Shape
cluster_shape config roots values = do
  shape ← purdue_shape config roots values
  asked ←
      requested_workers (value_of "af-n-workers" values) (value_of "af-max-workers" values)
        (some (room_for config.kinds shape))
  ok (with_workers shape asked)

unfoldable pub shape_at : Site → Config → List Text → Dict Text → Outcome Refusal Shape
shape_at purdue config roots values = cluster_shape config roots values
shape_at nrp config roots values = nrp_shape config values

-- Gateway.caller: `user_for` is what the gateway knows of a token.
unfoldable pub caller :
    Config → Text → (Text → Outcome Refusal User) → Dict Text → Outcome Refusal (User × Shape)
caller config service_token user_for values = do
  check (not (is_empty service_token)) (refused unavailable "Ray is not enabled")
  token ←
      or_refuse (bearer_token (value_of "authorization" values))
        (refused unauthenticated "no token")
  check (not (any_of (λ v. is_unknown v.0) values))
      (refused invalid_argument "no setting of a Ray cluster")
  site ← or_refuse (site_of (value_of "af-site" values)) (refused invalid_argument "no site")
  user ← user_for token
  shape ← shape_at site config (config.roots user) values
  ok (user, shape)
