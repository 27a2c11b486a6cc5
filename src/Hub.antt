-- ===== src/Hub.antt =====
-- The scripts that JupyterHub runs beside its own code (apps/jupyterhub/jupyterhub/extraFiles): what a
-- session's pod asks of GPUs.
pub mod Gpus
pub mod Cull
use purdue_af.Common.{ℕ, String, Bool, true, ◌&&◌, List, [], ◌∷◌, ltb, if◌then◌else◌}
use purdue_af.Common.Dict.{Dict}
use purdue_af.Common.Text.{codes, starts_with}

-- A container of a pod: its limits (int() of each) and the variables of its environment.
pub record Container : Type 0 where
  pub limits : Dict ℕ
  pub env : List (String × String)

-- `resource.startswith("nvidia.com/") and int(amount) > 0`
unfoldable pub is_gpu : String → ℕ → Bool
is_gpu resource amount = starts_with (codes resource) (codes "nvidia.com/") && ltb 0 amount
