-- ===== src/Ray/Settings/Examples.antt =====
-- A call with settings, and the texts of numbers: tests, and the theorems at them.
use purdue_af.Common.{◌≡◌, refl, true, false, none, some, List, [], ◌∷◌, All, arith}
use purdue_af.Common.Exec.{Outcome, ok, err}
use purdue_af.Common.Result.{check, or_refuse}
use purdue_af.Common.Dict.{Dict, get}
use purdue_af.Common.Text.{Text, codes, same, starts_with, split, join, strip, is_space}
use purdue_af.Ray.Base.{Flavor, Shape, purdue, flavors, User, Refusal, refused, invalid_argument}
use purdue_af.Ray.Paths.{
  requested_env, mounted_env, normpath, lead, components, add_comps, add_comp, in_order, or_dot,
  is_below, rstrip_slash,
}
use purdue_af.Common.Digits.{is_digit, digits, int_from, int}
use purdue_af.Ray.Settings.{
  is_unknown, site_of, Config, value_of, purdue_shape, cluster_shape, shape_at, caller,
}
use purdue_af.Ray.Requested.{
  is_plain, whole, requested_size, amount, gpu_memory, least_memory, requested_memory,
  most_per_worker, requested_per_worker, requested_workers, before_space, after_space,
  is_printable_ascii, bearer_token,
}
use purdue_af.Ray.Settings.Callers.{IsAccepted, caller-IsAccepted}

whole-plus : whole (codes "+4") 1 none ≡ false
unfolding whole is_plain int int_from is_digit
whole-plus = refl

whole-four : whole (codes "4") 1 (some 8) ≡ true
unfolding whole is_plain int int_from is_digit digits
whole-four = refl

whole-twelve : whole (codes "12") 3 none ≡ true
unfolding whole is_plain int int_from is_digit digits
whole-twelve = refl

abbrev kinds : List Flavor
kinds =
    record { resource = "nvidia.com/mig-1g.5gb"; memory = 5; budget = 14; per_worker = 1 }
    ∷ record { resource = "nvidia.com/gpu"; memory = 16; budget = 8; per_worker = 2 }
    ∷ []

abbrev config : Config
config = record {
  kinds = kinds;
  default_env = codes "/depot/env";
  cpus_max = 16;
  ram_min = 4;
  ram_max = 64;
  roots = λ user. codes "/work" ∷ codes "/depot" ∷ [];
  worker_size = (codes "4", codes "16");
  reads = λ value. amount (int value);
}

abbrev ana : User
ana = record {
  name = "ana";
  account = "ana";
  uid = 1001;
  gid = 1001;
  session_gpu = false;
  workload = false;
}

abbrev user_for : Text → Outcome Refusal User
user_for token = ok ana

abbrev headers : Dict Text
headers =
    ("authorization", codes "Bearer abc")
    ∷ ("af-max-workers", codes "3")
    ∷ ("af-min-gpu-memory-gb", codes "10")
    ∷ ("af-env", codes "/work/users/../env")
    ∷ ("host", codes "ray")
    ∷ []

abbrev shape : Shape
shape = record {
  env = codes "/work/env";
  workers = 3;
  memory = 16;
  cpus = codes "4";
  ram = codes "16";
  per_worker = 1;
  least = 1;
  site = purdue;
}

caller-ana : caller config (codes "secret") user_for headers ≡ ok (ana, shape)
unfolding caller check or_refuse bearer_token get before_space after_space is_printable_ascii
    is_unknown site_of shape_at cluster_shape purdue_shape requested_memory gpu_memory least_memory
    requested_env mounted_env normpath lead components add_comps add_comp in_order or_dot is_below
    rstrip_slash requested_size requested_per_worker requested_workers most_per_worker whole
    is_plain int int_from is_digit digits flavors same starts_with split join strip is_space
caller-ana = refl

caller-IsAccepted_example :
    All (λ v. is_unknown v.0 ≡ false) headers
    × ((token : Text) × (bearer_token (value_of "authorization" headers) ≡ some token)
        × (user_for token ≡ ok ana))
    × IsAccepted config ana shape
caller-IsAccepted_example =
    caller-IsAccepted config (codes "secret") user_for headers ana shape
      (omega arith, (omega arith, tt)) caller-ana

caller-unprefixed :
    caller config
      (codes "secret")
      user_for
      (("authorization", codes "Bearer abc") ∷ ("env", codes "/work/env") ∷ [])
    ≡ err (refused invalid_argument "no setting of a Ray cluster")
unfolding caller check or_refuse bearer_token get before_space after_space is_printable_ascii
    is_unknown same starts_with strip is_space
caller-unprefixed = refl
