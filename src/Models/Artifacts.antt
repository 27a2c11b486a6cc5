-- ===== src/Models/Artifacts.antt =====
-- _expected_artifact and _infer_platform of
-- docker/supersonic-model-manager/model_manager/validation.py, and the tree and the report that
-- validate_model_dir is about.
use purdue_af.Common.{
  String, Bool, true, false, not, ◌&&◌, ◌||◌, Option, none, some, List, [], ◌∷◌, ◌++◌, map, any_of,
  ltb, ◌==◌, if◌then◌else◌, or_default, is_some,
}
use purdue_af.Common.Text.{Text, codes, same}
use purdue_af.Common.Digits.{digits, int}
use purdue_af.Models.Config.{Contents}

pub data Kind : Type 0 where
  file_kind dir_kind any_kind : Kind

pub record Artifact : Type 0 where
  pub name : Text
  pub kind : Kind

-- What a version directory has: the names in it, and whether there is a file (false) or a directory
-- (true) at a path from it.
pub record Folder : Type 0 where
  pub names : List Text
  pub at : Text → Option Bool

-- An entry of the model directory: `other` is neither a file nor a directory.
pub data Node : Type 0 where
  folder : Folder → Node
  plain_file other : Node

pub record Entry : Type 0 where
  pub name : Text
  pub node : Node

-- `contents` is what reading its config.pbtxt gives.
pub record Upload : Type 0 where
  pub is_dir : Bool
  pub entries : List Entry
  pub contents : Contents

pub data Problem : Type 0 where
  no_directory no_backend_named no_version no_config_unknown : Problem
  unreadable_config other_name ignored_directory ignored_file stray_model : Text → Problem
  version_zero empty_version no_model_bin no_config_autocomplete no_config_needed : Text → Problem
  missing_artifact not_directory not_file : Text → Text → Problem

-- ValidationResult
pub record Report : Type 0 where
  pub errors : List Problem
  pub warnings : List Problem
  pub platform : Text
  pub versions : List Text

abbrev pub error : Problem → Report → Report
error p r = record r { errors = r.errors ++ p ∷ [] }

abbrev pub warn : Problem → Report → Report
warn p r = record r { warnings = r.warnings ++ p ∷ [] }

-- `if b: errors.append(p)`
unfoldable pub error_if : Bool → Problem → Report → Report
error_if b p r = if b then error p r else r

unfoldable pub warn_if : Bool → Problem → Report → Report
warn_if b p r = if b then warn p r else r

abbrev pub artifact : String → Kind → Artifact
artifact name kind = record { name = codes name; kind = kind }

-- PLATFORM_ARTIFACTS
abbrev pub platform_artifacts : List (Text × Artifact)
platform_artifacts =
    (codes "tensorrt_plan", artifact "model.plan" file_kind)
    ∷ (codes "onnxruntime_onnx", artifact "model.onnx" any_kind)
    ∷ (codes "tensorflow_savedmodel", artifact "model.savedmodel" dir_kind)
    ∷ (codes "tensorflow_graphdef", artifact "model.graphdef" file_kind)
    ∷ (codes "pytorch_libtorch", artifact "model.pt" file_kind)
    ∷ (codes "openvino", artifact "model.xml" file_kind)
    ∷ (codes "python", artifact "model.py" file_kind)
    ∷ (codes "dali", artifact "model.dali" file_kind)
    ∷ []

-- BACKEND_ARTIFACTS: `none` for a backend that accepts several layouts.
abbrev backend_artifacts : List (Text × Option Artifact)
backend_artifacts =
    (codes "tensorrt", some (artifact "model.plan" file_kind))
    ∷ (codes "onnxruntime", some (artifact "model.onnx" any_kind))
    ∷ (codes "pytorch", some (artifact "model.pt" file_kind))
    ∷ (codes "openvino", some (artifact "model.xml" file_kind))
    ∷ (codes "python", some (artifact "model.py" file_kind))
    ∷ (codes "dali", some (artifact "model.dali" file_kind))
    ∷ (codes "tensorflow", none)
    ∷ (codes "fil", none)
    ∷ (codes "vllm", none)
    ∷ []

-- AUTOCOMPLETE_PLATFORMS
abbrev pub autocomplete_platforms : List Text
autocomplete_platforms = map codes (
    "tensorrt_plan" ∷ "onnxruntime_onnx" ∷ "tensorflow_savedmodel" ∷ "pytorch_libtorch" ∷ "python"
    ∷ [])

abbrev lookup : {A : Type 0} → Text → List (Text × A) → Option A
lookup k [] = none
lookup k ((j, a) ∷ rest) = if same j k then some a else lookup k rest

abbrev pub is_in : Text → List Text → Bool
is_in t texts = any_of (λ s. same s t) texts

abbrev pub is_empty : {A : Type 0} → List A → Bool
is_empty [] = true
is_empty (x ∷ xs) = false

unfoldable pub is_version_name : Text → Bool
is_version_name name = not (is_empty name) && digits name

unfoldable pub expected_artifact : Text → Text → Text → Option Artifact
expected_artifact platform backend default_filename =
    if not (is_empty default_filename)
    then some (record { name = default_filename; kind = any_kind })
    else elim (lookup platform platform_artifacts) [
      | some a ↦ some a
      | none ↦ or_default (lookup backend backend_artifacts) none
    ]

infer_from : List (Text × Artifact) → Folder → Text
infer_from [] version = []
infer_from ((platform, a) ∷ rest) version =
    if is_some (version.at a.name) then platform else infer_from rest version

unfoldable pub infer_platform : Folder → Text
unfolding infer_from
infer_platform version = infer_from platform_artifacts version

-- sorted, by a test whether the first goes before the second: stable
abbrev put_in : {A : Type 0} → (A → A → Bool) → A → List A → List A
put_in before x [] = x ∷ []
put_in before x (y ∷ ys) =
    let rest = put_in before x ys in if before y x then y ∷ rest else x ∷ y ∷ ys

abbrev pub sorted : {A : Type 0} → (A → A → Bool) → List A → List A
sorted before [] = []
sorted before (x ∷ xs) = put_in before x (sorted before xs)

-- Whether a text comes before another one, by code points.
unfoldable pub text_before : Text → Text → Bool
text_before s [] = false
text_before [] (d ∷ t) = true
text_before (c ∷ s) (d ∷ t) = ltb c d || c == d && text_before s t

abbrev pub by_name : Entry → Entry → Bool
by_name a b = text_before a.name b.name

abbrev pub by_int : Text → Text → Bool
by_int a b = ltb (int a) (int b)

-- Path.suffix: from the last dot, if that is neither the first character nor the last.
last_dot : Text → Option Text
last_dot [] = none
last_dot (c ∷ t) = elim (last_dot t) [
  | some s ↦ some s
  | none ↦ if c == b'.' then some (c ∷ t) else none
]

abbrev without_bare_dot : Text → Text
without_bare_dot s = if same s (codes ".") then [] else s

unfoldable pub suffix : Text → Text
unfolding last_dot
suffix [] = []
suffix (c ∷ t) = without_bare_dot (or_default (last_dot t) [])

abbrev pub is_file : Entry → Bool
is_file e = elim e.node [ plain_file ↦ true | folder f ↦ false | other ↦ false ]

unfoldable pub add_version : Text → Node → List (Text × Folder) → List (Text × Folder)
add_version name (folder f) rest = if is_version_name name then (name, f) ∷ rest else rest
add_version name plain_file rest = rest
add_version name other rest = rest

-- The numeric directories, in order.
unfoldable pub version_dirs : List Entry → List (Text × Folder)
version_dirs [] = []
version_dirs (e ∷ es) = add_version e.name e.node (version_dirs es)
