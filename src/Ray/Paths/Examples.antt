-- ===== src/Ray/Paths/Examples.antt =====
-- Paths on the storage that raycluster.yaml mounts: tests, and the theorems at them.
use mathlib.Core.List.{Memᴰ}
use purdue_af.Common.{◌≡◌, refl, List, [], ◌∷◌, map}
use purdue_af.Common.Exec.{ok, err}
use purdue_af.Common.Text.{Text, codes, same, starts_with, split, join}
use purdue_af.Ray.Base.{refused, invalid_argument}
use purdue_af.Ray.Paths.{
  normpath, lead, components, or_dot, dirname, rstrip_slash, is_below, mounted_env, data_path,
  for_output,
}
use purdue_af.Ray.Paths.Storage.{IsAtOrBelow, IsNormal, mounted_env-IsAtOrBelow}

abbrev roots : List Text
roots = codes "/work" ∷ codes "/depot/cms" ∷ []

normpath_table :
    map normpath
      (codes "/work//a/./b/../c/" ∷ codes "/.." ∷ codes "//x" ∷ codes "a/../.." ∷ codes "" ∷ [])
    ≡ codes "/work/a/c" ∷ codes "/" ∷ codes "//x" ∷ codes ".." ∷ codes "." ∷ []
unfolding normpath lead components or_dot starts_with split join same
normpath_table = refl

escapes :
    mounted_env roots (codes "/work/../etc")
    ≡ err (refused invalid_argument "not on storage the Ray cluster mounts")
unfolding mounted_env normpath lead components or_dot starts_with split join same is_below
    rstrip_slash
escapes = refl

env_here : mounted_env roots (codes "/work/./env/") ≡ ok (codes "/work/env")
unfolding mounted_env normpath lead components or_dot starts_with split join same is_below
    rstrip_slash
env_here = refl

mounted_env-IsAtOrBelow_example :
    ((root : Text) × Memᴰ root roots × IsAtOrBelow root (codes "/work/env"))
    × IsNormal (codes "/work/env")
mounted_env-IsAtOrBelow_example =
    mounted_env-IsAtOrBelow roots (codes "/work/./env/") (codes "/work/env") env_here

out_here :
    data_path roots for_output (codes "/work/users/ana/out") ≡ ok (codes "/work/users/ana/out")
unfolding data_path normpath lead components or_dot starts_with split join same is_below
    rstrip_slash dirname
out_here = refl
