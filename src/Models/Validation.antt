-- ===== src/Models/Validation.antt =====
-- The check of an uploaded model: validate_model_dir of
-- docker/supersonic-model-manager/model_manager/validation.py.
pub mod Sound
mod Examples
use purdue_af.Common.{
  ℕ, ◌+◌, String, Bool, true, false, not, ◌&&◌, ◌||◌, Option, none, some, List, [], ◌∷◌, ◌++◌, map,
  any_of, keep, ltb, leb, ◌==◌, if◌then◌else◌, or_default, is_some,
}
use purdue_af.Common.Text.{Text, codes, same, strip}
use purdue_af.Common.Digits.{digits, int}
use purdue_af.Models.Config.{Config, Contents, no_config, parse_config}
use purdue_af.Models.Artifacts.{
  Kind, file_kind, dir_kind, any_kind, Artifact, Folder, Node, folder, plain_file, other, Entry,
  Upload, Problem, no_directory, no_backend_named, no_version, no_config_unknown, unreadable_config,
  other_name, ignored_directory, ignored_file, stray_model, version_zero, empty_version,
  no_model_bin, no_config_autocomplete, no_config_needed, missing_artifact, not_directory, not_file,
  Report, error, warn, error_if, warn_if, artifact, platform_artifacts, autocomplete_platforms,
  is_in, is_empty, is_version_name, expected_artifact, infer_platform, sorted, by_name, by_int,
  suffix, is_file, add_version, version_dirs,
}

warn_file : Text → Report → Report
warn_file name =
    warn_if
      (not (same name (codes "config.pbtxt"))
        && not (is_in (suffix name) (codes ".txt" ∷ codes ".json" ∷ [])))
      (ignored_file name)

warn_folder : Text → Report → Report
warn_folder name =
    warn_if (not (is_version_name name || same name (codes "warmup"))) (ignored_directory name)

unfoldable pub warn_entry : Text → Node → Report → Report
unfolding warn_file warn_folder
warn_entry name (folder f) r = warn_folder name r
warn_entry name plain_file r = warn_file name r
warn_entry name other r = warn_file name r

unfoldable pub warn_entries : List Entry → Report → Report
warn_entries [] r = r
warn_entries (e ∷ es) r = warn_entries es (warn_entry e.name e.node r)

-- `(config.get(key) or "").strip()`
abbrev pub field_of : Option Text → Text
field_of value = strip (or_default value [])

abbrev unreadable_error : Option Text → Report → Report
unreadable_error none r = r
unreadable_error (some []) r = r
unreadable_error (some (c ∷ e)) r = error (unreadable_config (c ∷ e)) r

unfoldable pub check_config : Config → Text → Report → Report
check_config config model_name r =
    let declared = field_of config.name in
    warn_if (is_empty (field_of config.platform) && is_empty (field_of config.backend))
      no_backend_named
      (error_if (not (is_empty declared) && not (same declared model_name)) (other_name declared)
        (unreadable_error config.error r))

-- The first file that is a model's, but not in a version directory.
abbrev stray_files : List Entry → List Entry
stray_files entries =
    keep (λ e. is_file e && any_of (λ a. same a.1.name e.name) platform_artifacts) entries

stray_or_none : List Entry → Problem
stray_or_none [] = no_version
stray_or_none (e ∷ es) = stray_model e.name

unfoldable pub without_versions : List Entry → Report → Report
unfolding stray_or_none
without_versions entries = error (stray_or_none (stray_files entries))

unfoldable pub check_numbers : List (Text × Folder) → Report → Report
check_numbers [] r = r
check_numbers (v ∷ vs) r = check_numbers vs (error_if (ltb (int v.0) 1) (version_zero v.0) r)

abbrev pub warn_no_bin : Text → Artifact → Folder → Report → Report
warn_no_bin version a f =
    warn_if (same a.name (codes "model.xml") && not (is_some (f.at (codes "model.bin"))))
      (no_model_bin version)

-- Of a kind the artifact has, and whether a directory is at its path.
unfoldable pub check_kind : Kind → Bool → Text → Artifact → Folder → Report → Report
check_kind any_kind is_dir version a f r = warn_no_bin version a f r
check_kind dir_kind true version a f r = warn_no_bin version a f r
check_kind dir_kind false version a f r = error (not_directory version a.name) r
check_kind file_kind true version a f r = error (not_file version a.name) r
check_kind file_kind false version a f r = warn_no_bin version a f r

unfoldable pub check_artifact : Option Artifact → Text × Folder → Report → Report
check_artifact none v r = r
check_artifact (some a) v r = elim (v.1.at a.name) [
  | none ↦ error (missing_artifact v.0 a.name) r
  | some is_dir ↦ check_kind a.kind is_dir v.0 a v.1 r
]

unfoldable pub check_version : Text → Option Artifact → Text × Folder → Report → Report
check_version platform expected v r =
    if same platform (codes "ensemble")
    then r
    else if is_empty v.1.names
    then error (empty_version v.0) r
    else check_artifact expected v r

unfoldable pub check_versions : Text → Option Artifact → List (Text × Folder) → Report → Report
check_versions platform expected [] r = r
check_versions platform expected (v ∷ vs) r =
    check_versions platform expected vs (check_version platform expected v r)

unfoldable pub check_no_config : Bool → Text → Report → Report
check_no_config true platform r = r
check_no_config false platform r =
    if is_in platform autocomplete_platforms
    then warn (no_config_autocomplete platform) r
    else if not (is_empty platform)
    then error (no_config_needed platform) r
    else error no_config_unknown r

unfoldable pub has_config : List Entry → Bool
has_config entries = any_of (λ e. same e.name (codes "config.pbtxt") && is_file e) entries

unfoldable pub config_of : Upload → Config
config_of upload = if has_config upload.entries then parse_config upload.contents else no_config

-- The platform that config.pbtxt names, or that the first version's files tell if it names nothing.
unfoldable pub platform_of : Config → Folder → Text
platform_of config first =
    if is_empty (field_of config.platform)
      && (is_empty (field_of config.backend) && is_empty (field_of config.default_model_filename))
    then infer_platform first
    else field_of config.platform

abbrev pub or_text : Text → Text → Text
or_text [] b = b
or_text (c ∷ a) b = c ∷ a

-- The checks of an upload with a version directory or more.
unfoldable pub check_contents :
    Bool → Config → (Text × Folder) → List (Text × Folder) → Report → Report
check_contents configured config first rest r =
    let dirs = first ∷ rest in
    let platform = platform_of config first.1 in
    let backend = field_of config.backend in
    let expected = expected_artifact platform backend (field_of config.default_model_filename) in
    let numbered = record (check_numbers dirs r) {
      versions = sorted by_int (map (λ v. v.0) dirs);
      platform = or_text platform backend;
    } in
    check_no_config configured platform (check_versions platform expected dirs numbered)

abbrev pub no_report : Report
no_report = record { errors = []; warnings = []; platform = []; versions = [] }

unfoldable pub checked_entries : Upload → Text → Report
checked_entries upload model_name =
    let entries = sorted by_name upload.entries in
    let configured =
      if has_config upload.entries
      then check_config (config_of upload) model_name no_report
      else no_report in
    warn_entries entries configured

unfoldable pub validate_dirs : Upload → List (Text × Folder) → Report → Report
validate_dirs upload [] r = without_versions (sorted by_name upload.entries) r
validate_dirs upload (first ∷ rest) r =
    check_contents (has_config upload.entries) (config_of upload) first rest r

unfoldable pub validate_model_dir : Upload → Text → Report
validate_model_dir upload model_name =
    if upload.is_dir
    then validate_dirs upload (version_dirs (sorted by_name upload.entries))
        (checked_entries upload model_name)
    else error no_directory no_report
