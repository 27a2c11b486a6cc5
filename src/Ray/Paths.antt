-- ===== src/Ray/Paths.antt =====
-- Where a cluster's environment and a job's data may live: env_roots, mounted_env, requested_env
-- and data_paths of apps/ray-train/gateway.py, with the posixpath.normpath and dirname they use.
pub mod Normal
pub mod Storage
mod Examples
use purdue_af.Common.{
  ℕ, String, Bool, true, false, not, ◌&&◌, ◌||◌, Option, none, some, List, [], ◌∷◌, ◌++◌,
  if◌then◌else◌, ◌==◌, any_of, keep, or_default, text_in,
}
use purdue_af.Common.Exec.{Outcome, ok, err}
use purdue_af.Common.Text.{Text, codes, same, starts_with, split, join}
use purdue_af.Ray.Base.{Refusal, refused, invalid_argument}

abbrev pub slash : ℕ
slash = b'/'

abbrev is_rooted : Text → Bool
is_rooted value = starts_with value (slash ∷ [])

-- posixpath: two slashes at the start stay two, any other number is one.
unfoldable pub lead : Text → Text
lead path =
    if starts_with path (slash ∷ [])
    then if starts_with path (slash ∷ slash ∷ [])
        && not (starts_with path (slash ∷ slash ∷ slash ∷ []))
      then slash ∷ slash ∷ []
      else slash ∷ []
    else []

abbrev pub dot : Text
dot = b'.' ∷ []

abbrev pub dots : Text
dots = b'.' ∷ b'.' ∷ []

-- The last component is the first of the list.
abbrev top_is_dots : List Text → Bool
top_is_dots [] = false
top_is_dots (c ∷ cs) = same c dots

abbrev is_nil {ℓ} : {A : Type ℓ} → List A → Bool
is_nil [] = true
is_nil (x ∷ xs) = false

abbrev pop : List Text → List Text
pop [] = []
pop (c ∷ cs) = cs

unfoldable pub add_comp : Bool → List Text → Text → List Text
add_comp rooted new comp =
    if same comp [] || same comp dot
    then new
    else if not (same comp dots) || not rooted && is_nil new || top_is_dots new
    then comp ∷ new
    else pop new

unfoldable pub add_comps : Bool → List Text → List Text → List Text
unfolding add_comp
add_comps rooted new [] = new
add_comps rooted new (comp ∷ comps) = add_comps rooted (add_comp rooted new comp) comps

unfoldable pub in_order : List Text → List Text → List Text
in_order [] done = done
in_order (c ∷ cs) done = in_order cs (c ∷ done)

unfoldable pub components : Text → List Text
unfolding add_comps in_order
components path = in_order (add_comps (is_rooted path) [] (split slash path)) []

unfoldable pub or_dot : Text → Text
or_dot [] = dot
or_dot path = path

-- posixpath.normpath
unfoldable pub normpath : Text → Text
normpath path = or_dot (lead path ++ join slash (components path))

drop_slash : ℕ → Text → Text
drop_slash c [] = if c == slash then [] else c ∷ []
drop_slash c (d ∷ t) = c ∷ d ∷ t

-- Without the slashes at the end: s.rstrip("/")
unfoldable pub rstrip_slash : Text → Text
unfolding drop_slash
rstrip_slash [] = []
rstrip_slash (c ∷ s) = drop_slash c (rstrip_slash s)

-- posixpath.dirname: all before the last slash, without slashes at its end unless it is all slashes.
upto_slash : Text → Option Text
upto_slash [] = none
upto_slash (c ∷ s) = elim (upto_slash s) [
  | some head ↦ some (c ∷ head)
  | none ↦ if c == slash then some (c ∷ []) else none
]

unfoldable pub dirname : Text → Text
unfolding upto_slash rstrip_slash
dirname path = elim (upto_slash path) [
  | none ↦ []
  | some head ↦ if is_nil (rstrip_slash head) then head else rstrip_slash head
]

-- The path is below the root: it starts with the root and a slash.
unfoldable pub is_below : Text → Text → Bool
is_below root path = starts_with path (rstrip_slash root ++ slash ∷ [])

unfoldable pub mounted_env : List Text → Text → Outcome Refusal Text
mounted_env roots value =
    let path = normpath value in
    if not (is_rooted value) || not (any_of (λ root. same path root || is_below root path) roots)
    then err (refused invalid_argument "not on storage the Ray cluster mounts")
    else ok path

unfoldable pub requested_env : List Text → Text → Text → Outcome Refusal Text
requested_env roots default [] = ok default
requested_env roots default (c ∷ value) = mounted_env roots (c ∷ value)

pub data Purpose : Type 0 where
  for_inputs for_output : Purpose

abbrev is_output : Purpose → Bool
is_output for_inputs = false
is_output for_output = true

-- One directory of data_paths: what a job reads, or what it writes.
unfoldable pub data_path : List Text → Purpose → Text → Outcome Refusal Text
data_path roots purpose value =
    let path = normpath value in
    if not (is_rooted value) || not (any_of (λ root. is_below root path) roots)
    then err (refused invalid_argument "not on storage the jobs mount")
    else if is_output purpose && any_of (λ root. same (dirname path) (rstrip_slash root)) roots
    then err (refused invalid_argument "would be made at the top of shared storage")
    else ok path

pub record Data : Type 0 where
  pub inputs : Option Text
  pub output : Option Text

optional_path : List Text → Purpose → Text → Outcome Refusal (Option Text)
unfolding data_path
optional_path roots purpose [] = ok none
optional_path roots purpose (c ∷ value) = elim (data_path roots purpose (c ∷ value)) [
  | ok path ↦ ok (some path)
  | err e ↦ err e
]

unfoldable pub data_paths : List Text → Text → Text → Outcome Refusal Data
unfolding optional_path
data_paths roots inputs output = elim (optional_path roots for_inputs inputs) [
  | err e ↦ err e
  | ok i ↦ elim (optional_path roots for_output output) [
    | err e ↦ err e
    | ok o ↦ ok (record { inputs = i; output = o })
  ]
]
