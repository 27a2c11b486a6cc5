-- ===== src/LlmProxy/Load.antt =====
-- load of llm_proxy.py: models.toml, read and checked. A table is given with the keys that `load`
-- indexes; its numbers have the units of Model, and `budget_fraction` is in thousandths.
pub mod Sound
pub mod Budget
pub mod Fair
mod Examples
use purdue_af.Common.{
  ℕ, zero, suc, ◌+◌, ◌*◌, ◌/◌, ◌%◌, String, Bool, true, false, not, ◌&&◌, ◌||◌, Option, List, [],
  ◌∷◌, ltb, leb, ◌==◌, if◌then◌else◌, str_eq, or_default, text_in,
}
use Prim.Native.Char.{code}
use purdue_af.Common.Dict.{Dict, get, put}
use purdue_af.Common.Exec.{Outcome, ok, err}
use purdue_af.Common.Result.{◌>>=◌, ◌>>◌, check, or_refuse}
use purdue_af.LlmProxy.{Model, Backend, Role}

pub record RawModel : Type 0 where
  pub context : ℕ
  pub slots : ℕ × ℕ
  pub budget : Option ℕ
  pub output_per_minute : Option ℕ
  pub max_tokens : ℕ × ℕ
  pub image_tokens : ℕ
  pub ttft : ℕ × ℕ
  pub decode : ℕ × ℕ
  pub variants : Option (List String)

pub record RawRole : Type 0 where
  pub backends : List String
  pub images : ℕ
  pub rank : ℕ

-- The two numbers of [proxy] that a model takes where it sets none.
pub record Raw : Type 0 where
  pub budget_fraction : ℕ
  pub output_per_minute : ℕ
  pub models : Dict RawModel
  pub roles : Dict RawRole

pub data ConfigError : Type 0 where
  bad_slots bad_max_tokens : String → ConfigError
  no_model no_images : String → String → ConfigError
  no_variant : String → String → String → ConfigError
  no_backends : String → ConfigError

-- n / d, to the nearest whole number, of two the even one.
unfoldable pub half_even : ℕ → ℕ → ℕ
half_even n d =
    let q = n / d in
    let r = n % d in if ltb (2 * r) d then q else if ltb d (2 * r) then q + 1 else q + q % 2

-- n / d to three significant figures, for a quotient of 100 or more.
unfoldable pub three_figures : ℕ → ℕ → ℕ → ℕ
three_figures zero n d = 0
three_figures (suc k) n d =
    let rest = three_figures k n (10 * d) in if leb (1000 * d) n then 10 * rest else half_even n d

-- The whole part of n / d to three significant figures, for a smaller quotient.
unfoldable pub few_tokens : ℕ → ℕ → ℕ
few_tokens n d =
    if ltb n d
    then half_even (1000 * n) d / 1000
    else if ltb n (10 * d)
    then half_even (100 * n) d / 100
    else half_even (10 * n) d / 10

-- _budget, in exact arithmetic: `fraction * SHARE * context` is the quotient by 100,000.
unfoldable pub share_budget : ℕ → ℕ → ℕ
share_budget fraction context =
    let n = fraction * 35 * context in
    if leb 10000000 n then three_figures 22 n 100000 else few_tokens n 100000

-- The model that a table gives, before its checks.
unfoldable pub read_model : Raw → String → RawModel → Model
read_model raw name m = record {
  name = name;
  context = m.context;
  start = m.slots.0;
  most = m.slots.1;
  budget = or_default m.budget (share_budget raw.budget_fraction m.context);
  output_per_minute = or_default m.output_per_minute raw.output_per_minute;
  floor = m.max_tokens.0;
  ceiling = m.max_tokens.1;
  image_tokens = m.image_tokens;
  ttft = m.ttft.0;
  late = m.ttft.1;
  decode = m.decode.0;
  slow = m.decode.1;
  variants = or_default m.variants [];
}

unfoldable pub load_model : Raw → String → RawModel → Outcome ConfigError Model
load_model raw name m =
    let model = read_model raw name m in
    check (leb 1 model.start && leb model.start model.most) (bad_slots name)
    >> check (ltb 0 model.floor && leb model.floor model.ceiling) (bad_max_tokens name)
    >> ok model

unfoldable pub load_models : Raw → Dict RawModel → Dict Model → Outcome ConfigError (Dict Model)
load_models raw [] models = ok models
load_models raw ((name, m) ∷ rest) models =
    load_model raw name m >>= λ model. load_models raw rest (put name model models)

-- `entry.partition("#")`: what is before the first hash, and what is after it.
unfoldable pub before_hash : String → String
before_hash String.[] = ""
before_hash (String.◌∷◌ c s) = if code c == 35 then "" else String.◌∷◌ c (before_hash s)

unfoldable pub after_hash : String → String
after_hash String.[] = ""
after_hash (String.◌∷◌ c s) = if code c == 35 then s else after_hash s

abbrev pub is_none : List Backend → Bool
is_none [] = true
is_none (b ∷ bs) = false

module _ (models : Dict Model) (name : String) (r : RawRole) where
  unfoldable pub load_backend : String → Outcome ConfigError Backend
  load_backend entry =
      let model_name = before_hash entry in
      let variant = after_hash entry in
      or_refuse (get model_name models) (no_model name model_name) >>= λ m.
      check (str_eq variant "" || text_in variant m.variants) (no_variant name model_name variant)
      >> check (r.images == 0 || not (m.image_tokens == 0)) (no_images name model_name)
      >> ok (record { model = model_name; variant = variant })

  unfoldable pub load_backends : List String → Outcome ConfigError (List Backend)
  load_backends [] = ok []
  load_backends (entry ∷ entries) =
      load_backend entry >>= λ b. load_backends entries >>= λ bs. ok (b ∷ bs)

  unfoldable pub load_role : Outcome ConfigError Role
  load_role = load_backends r.backends >>= λ backends.
      check (not (is_none backends)) (no_backends name)
      >> ok (record { name = name; backends = backends; images = r.images; rank = r.rank })

unfoldable pub load_roles : Dict Model → Dict RawRole → Dict Role → Outcome ConfigError (Dict Role)
load_roles models [] roles = ok roles
load_roles models ((name, r) ∷ rest) roles =
    load_role models name r >>= λ role. load_roles models rest (put name role roles)

unfoldable pub load : Raw → Outcome ConfigError (Dict Model × Dict Role)
load raw = load_models raw raw.models [] >>= λ models.
    load_roles models raw.roles [] >>= λ roles. ok (models, roles)
