-- ===== src/LlmProxy/Load/Examples.antt =====
-- A models.toml with one model and one role: tests, and the theorems at it.
use purdue_af.Common.{◌≡◌, refl, none, some, [], ◌∷◌, All}
use purdue_af.Common.Dict.{get, put, Each}
use purdue_af.Common.Exec.{ok, err}
use purdue_af.Common.Result.{check, or_refuse}
use purdue_af.LlmProxy.{Model, Backend, Role}
use purdue_af.LlmProxy.Forward.{forward}
use purdue_af.LlmProxy.Forward.Fair.{IsFair}
use purdue_af.LlmProxy.Examples.{settings, any_json, request, two_passes}
use purdue_af.LlmProxy.Load.{
  RawModel, RawRole, Raw, no_images, half_even, three_figures, share_budget, read_model, load_model,
  load_models, before_hash, after_hash, load_backend, load_backends, load_role, load_roles, load,
}
use purdue_af.LlmProxy.Load.Sound.{IsModelOf, IsRoleOf, load-IsSound}
use purdue_af.LlmProxy.Load.Fair.{loaded_config, loaded-IsFair}

abbrev glm_table : RawModel
glm_table = record {
  context = 1048576;
  slots = (2, 2);
  budget = none;
  output_per_minute = none;
  max_tokens = (6000, 20000);
  image_tokens = 0;
  ttft = (920, 3400);
  decode = (30300, 22800);
  variants = some ("high" ∷ "low" ∷ []);
}

abbrev writer : RawRole
writer = record { backends = "glm-5#high" ∷ "glm-5" ∷ []; images = 0; rank = 1 }

abbrev toml : Raw
toml = record {
  budget_fraction = 900;
  output_per_minute = 40800;
  models = ("glm-5", glm_table) ∷ [];
  roles = ("writer", writer) ∷ [];
}

-- 0.9 of 0.35 of the context is 330,301.44.
glm_budget : share_budget 900 1048576 ≡ 330000
unfolding share_budget three_figures half_even
glm_budget = refl

abbrev glm : Model
glm = record {
  name = "glm-5";
  context = 1048576;
  start = 2;
  most = 2;
  budget = 330000;
  output_per_minute = 40800;
  floor = 6000;
  ceiling = 20000;
  image_tokens = 0;
  ttft = 920;
  late = 3400;
  decode = 30300;
  slow = 22800;
  variants = "high" ∷ "low" ∷ [];
}

abbrev writer_role : Role
writer_role = record {
  name = "writer";
  backends =
      record { model = "glm-5"; variant = "high" } ∷ record { model = "glm-5"; variant = "" } ∷ [];
  images = 0;
  rank = 1;
}

loaded : load toml ≡ ok (("glm-5", glm) ∷ [], ("writer", writer_role) ∷ [])
unfolding load load_models load_model read_model load_roles load_role load_backends load_backend
    before_hash after_hash share_budget three_figures half_even get put check or_refuse
loaded = refl

-- The model takes no images.
with_images :
    load (record toml { roles = ("writer", record writer { images = 2 }) ∷ [] })
    ≡ err (no_images "writer" "glm-5")
unfolding load load_models load_model read_model load_roles load_role load_backends load_backend
    before_hash after_hash share_budget three_figures half_even get put check or_refuse
with_images = refl

load-IsSound_example :
    Each IsModelOf (("glm-5", glm) ∷ [])
    × Each (IsRoleOf (("glm-5", glm) ∷ [])) (("writer", writer_role) ∷ [])
load-IsSound_example = load-IsSound toml (("glm-5", glm) ∷ []) (("writer", writer_role) ∷ []) loaded

known : get "glm-5" (("glm-5", glm) ∷ []) ≡ some glm
unfolding get
known = refl

writer-known : get "writer" (("writer", writer_role) ∷ []) ≡ some writer_role
unfolding get
writer-known = refl

loaded-IsFair_example :
    All
      (λ (b : Backend).
        get b.model (("glm-5", glm) ∷ [])
        ≡ some ((loaded_config settings 3000 (("glm-5", glm) ∷ []) glm).model_of b.model))
      writer_role.backends
    × IsFair
        (loaded_config settings 3000 (("glm-5", glm) ∷ []) glm)
        (forward
          (loaded_config settings 3000 (("glm-5", glm) ∷ []) glm)
          any_json
          3600000
          writer_role
          request
          two_passes
          []).1
loaded-IsFair_example =
    loaded-IsFair toml (("glm-5", glm) ∷ []) (("writer", writer_role) ∷ []) loaded glm known
      "writer" writer_role writer-known settings 3000 any_json 3600000 request two_passes []
