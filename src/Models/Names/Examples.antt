-- ===== src/Models/Names/Examples.antt =====
-- Names and paths: tests, and the theorems at them.
use purdue_af.Common.{◌≡◌, refl, true, [], ◌∷◌, ◌++◌}
use purdue_af.Common.Exec.{ok, err}
use purdue_af.Common.Text.{
  codes, same, starts_with, ends_with, split, strip, lstrip, rstrip, is_space,
}
use purdue_af.Models.Names.{
  lstrip_slash, rstrip_slash, name_chars, body_length, matches_name, validate_name, forward,
  kept_parts, safe_relpath, unsafe_path, is_archive,
}

-- A newline before a slash at the end stays in an accepted name.
validate_name-newline : validate_name (codes "net" ++ 10 ∷ b'/' ∷ []) ≡ ok (codes "net" ++ 10 ∷ [])
unfolding validate_name matches_name name_chars body_length lstrip_slash rstrip_slash strip lstrip
    rstrip is_space same starts_with
validate_name-newline = refl

validate_name-net : validate_name (codes " net-1/") ≡ ok (codes "net-1")
unfolding validate_name matches_name name_chars body_length lstrip_slash rstrip_slash strip lstrip
    rstrip is_space same starts_with
validate_name-net = refl

safe_relpath-up : safe_relpath (codes "a/../../b") ≡ err unsafe_path
unfolding safe_relpath kept_parts split lstrip_slash forward same
safe_relpath-up = refl

safe_relpath-net :
    safe_relpath (codes "/net\\1/./model.pt") ≡ ok (codes "net" ∷ codes "1" ∷ codes "model.pt" ∷ [])
unfolding safe_relpath kept_parts split lstrip_slash forward same
safe_relpath-net = refl

is_archive-upper : is_archive (codes "Net.TAR.GZ") ≡ true
unfolding is_archive ends_with same
is_archive-upper = refl
