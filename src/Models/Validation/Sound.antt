-- ===== src/Models/Validation/Sound.antt =====
-- What an upload without an error is.
use purdue_af.Common.{
  ◌≤◌, ◌≡◌, ◌≢◌, refl, sym, ◌∙◌, ◌⊎◌, inl, inr, Bool, true, false, Option, none, some, List, [],
  ◌∷◌, ◌++◌, arith, All, ltb, Bool-cases, Option-cases,
}
use purdue_af.Common.Text.{Text, codes, same}
use purdue_af.Common.Digits.{int}
use purdue_af.Models.Config.{Config}
use purdue_af.Models.Validation.{
  warn_entry, warn_entries, check_config, without_versions, check_numbers, check_artifact,
  check_version, check_versions, check_no_config, has_config, config_of, platform_of,
  check_contents, checked_entries, validate_dirs, validate_model_dir, field_of, check_kind,
  no_report,
}
use purdue_af.Models.Artifacts.{
  Node, folder, plain_file, other, add_version, Kind, file_kind, dir_kind, any_kind, Artifact,
  Folder, Entry, Upload, Report, Problem, error, error_if, warn_if, is_version_name, version_dirs,
  expected_artifact, sorted, by_name, is_in, is_empty, autocomplete_platforms,
}

append_ne : (xs : List Problem) (p : Problem) → xs ++ p ∷ [] ≢ []
append_ne [] p h = cc
append_ne (x ∷ xs) p h = cc

-- What is at the artifact's path is of its kind.
abbrev pub IsOfKind : Kind → Bool → Type 0
IsOfKind any_kind is_dir = Unit
IsOfKind dir_kind is_dir = is_dir ≡ true
IsOfKind file_kind is_dir = is_dir ≡ false

abbrev pub HasArtifact : Option Artifact → Folder → Type 0
HasArtifact none f = Unit
HasArtifact (some a) f = (is_dir : Bool) × (f.at a.name ≡ some is_dir) × IsOfKind a.kind is_dir

warn_if-errors : (b : Bool) (p : Problem) (r : Report) → (warn_if b p r).errors ≡ r.errors
unfolding warn_if
warn_if-errors true p r = refl
warn_if-errors false p r = refl

error_if_sound :
    (b : Bool) (p : Problem) (r : Report)
    → (error_if b p r).errors ≡ []
    → (r.errors ≡ []) × (b ≡ false)
unfolding error_if
error_if_sound true p r h = absurd (append_ne r.errors p h)
error_if_sound false p r h = (h, refl)

error_sound : {A : Type 0} (p : Problem) (r : Report) → (error p r).errors ≡ [] → A
error_sound p r h = absurd (append_ne r.errors p h)

check_kind_sound :
    (kind : Kind) (is_dir : Bool) (version : Text) (a : Artifact) (f : Folder) (r : Report)
    → (check_kind kind is_dir version a f r).errors ≡ []
    → (r.errors ≡ []) × IsOfKind kind is_dir
unfolding check_kind
check_kind_sound any_kind is_dir version a f r h = (sym (warn_if-errors _ _ r) ∙ h, tt)
check_kind_sound dir_kind true version a f r h = (sym (warn_if-errors _ _ r) ∙ h, refl)
check_kind_sound dir_kind false version a f r h = error_sound _ r h
check_kind_sound file_kind true version a f r h = error_sound _ r h
check_kind_sound file_kind false version a f r h = (sym (warn_if-errors _ _ r) ∙ h, refl)

check_artifact_sound :
    (expected : Option Artifact) (v : Text × Folder) (r : Report)
    → (check_artifact expected v r).errors ≡ []
    → (r.errors ≡ []) × HasArtifact expected v.1
unfolding check_artifact
check_artifact_sound none v r h = (h, tt)
check_artifact_sound (some a) v r h = elim (Option-cases (v.1.at a.name)) [
  | inl e ↦ error_sound _ r (rw (e, check_artifact) at h)
  | inr (is_dir, e) ↦
      let (p, k) = check_kind_sound a.kind is_dir v.0 a v.1 r (rw (e, check_artifact) at h) in
      (p, (is_dir, e, k))
]

-- An ensemble's version directories may be empty.
abbrev pub IsComplete : Text → Option Artifact → Text × Folder → Type 0
IsComplete platform expected v =
    (same platform (codes "ensemble") ≡ true)
    ⊎ ((is_empty v.1.names ≡ false) × HasArtifact expected v.1)

check_version_sound :
    (platform : Text) (expected : Option Artifact) (v : Text × Folder) (r : Report)
    → (check_version platform expected v r).errors ≡ []
    → (r.errors ≡ []) × IsComplete platform expected v
unfolding check_version
check_version_sound platform expected v r h = elim (Bool-cases (same platform (codes "ensemble"))) [
  | inl e ↦ (rw e at h, inl e)
  | inr e ↦ elim (Bool-cases (is_empty v.1.names)) [
    | inl n ↦ error_sound _ r (rw (e, n) at h)
    | inr n ↦ let (p, a) = check_artifact_sound expected v r (rw (e, n) at h) in (p, inr (n, a))
  ]
]

check_versions_sound :
    (platform : Text) (expected : Option Artifact) (vs : List (Text × Folder)) (r : Report)
    → (check_versions platform expected vs r).errors ≡ []
    → (r.errors ≡ []) × All (IsComplete platform expected) vs
unfolding check_versions
check_versions_sound platform expected [] r h = (h, tt)
check_versions_sound platform expected (v ∷ vs) r h =
    let (p, all) =
      check_versions_sound platform expected vs (check_version platform expected v r) h in
    let (q, one) = check_version_sound platform expected v r p in (q, (one, all))

check_numbers_sound :
    (vs : List (Text × Folder)) (r : Report)
    → (check_numbers vs r).errors ≡ []
    → (r.errors ≡ []) × All (λ v. 1 ≤ int v.0) vs
unfolding check_numbers
check_numbers_sound [] r h = (h, tt)
check_numbers_sound (v ∷ vs) r h =
    let (p, all) = check_numbers_sound vs (error_if (ltb (int v.0) 1) _ r) h in
    let (q, one) = error_if_sound (ltb (int v.0) 1) _ r p in (q, (ground (arith, one), all))

add_version-names :
    (name : Text) (node : Node) (rest : List (Text × Folder))
    → All (λ v. is_version_name v.0 ≡ true) rest
    → All (λ v. is_version_name v.0 ≡ true) (add_version name node rest)
unfolding add_version
add_version-names name (folder f) rest h = elim (Bool-cases (is_version_name name)) [
  | inl e ↦ rw e (e, h)
  | inr e ↦ rw e h
]
add_version-names name plain_file rest h = h
add_version-names name other rest h = h

version_dirs-names : (es : List Entry) → All (λ v. is_version_name v.0 ≡ true) (version_dirs es)
unfolding version_dirs
version_dirs-names [] = tt
version_dirs-names (e ∷ es) =
    add_version-names e.name e.node (version_dirs es) (version_dirs-names es)

warn_entry-errors :
    (name : Text) (node : Node) (r : Report) → (warn_entry name node r).errors ≡ r.errors
unfolding warn_entry
warn_entry-errors name (folder f) r = warn_if-errors _ _ r
warn_entry-errors name plain_file r = warn_if-errors _ _ r
warn_entry-errors name other r = warn_if-errors _ _ r

warn_entries-errors : (es : List Entry) (r : Report) → (warn_entries es r).errors ≡ r.errors
unfolding warn_entries
warn_entries-errors [] r = refl
warn_entries-errors (e ∷ es) r =
    warn_entries-errors es (warn_entry e.name e.node r) ∙ warn_entry-errors e.name e.node r

-- config.pbtxt names no model, or the one it is installed as.
abbrev pub IsNamed : Config → Text → Type 0
IsNamed config model_name =
    (is_empty (field_of config.name) ≡ true) ⊎ (same (field_of config.name) model_name ≡ true)

check_config_sound :
    (config : Config) (model_name : Text) (r : Report)
    → (check_config config model_name r).errors ≡ []
    → IsNamed config model_name
unfolding check_config
check_config_sound config model_name r h =
    let (p, e) = error_if_sound _ _ _ (sym (warn_if-errors _ _ _) ∙ h) in
    elim (Bool-cases (is_empty (field_of config.name))) [
      | inl n ↦ inl n
      | inr n ↦ inr (ground (arith, e, n))
    ]

check_no_config_sound :
    (configured : Bool) (platform : Text) (r : Report)
    → (check_no_config configured platform r).errors ≡ []
    → (r.errors ≡ []) × ((configured ≡ true) ⊎ (is_in platform autocomplete_platforms ≡ true))
unfolding check_no_config
check_no_config_sound true platform r h = (h, inl refl)
check_no_config_sound false platform r h =
    elim (Bool-cases (is_in platform autocomplete_platforms)) [
      | inl e ↦ (rw e at h, inr e)
      | inr e ↦ elim (Bool-cases (is_empty platform)) [
        | inl n ↦ error_sound _ r (rw (e, n) at h)
        | inr n ↦ error_sound _ r (rw (e, n) at h)
      ]
    ]

-- An upload that a model can be installed from, by its directories of versions.
abbrev pub IsModel : Upload → Text → List (Text × Folder) → Type 0
IsModel upload model_name [] = ⊥
IsModel upload model_name (first ∷ rest) =
    let config = config_of upload in
    let platform = platform_of config first.1 in
    let expected =
      expected_artifact platform (field_of config.backend)
        (field_of config.default_model_filename) in
    All (λ v. is_version_name v.0 ≡ true) (first ∷ rest)
    × All (λ v. 1 ≤ int v.0) (first ∷ rest)
    × All (IsComplete platform expected) (first ∷ rest)
    × ((has_config upload.entries ≡ true) ⊎ (is_in platform autocomplete_platforms ≡ true))

check_contents_sound :
    (upload : Upload) (first : Text × Folder) (rest : List (Text × Folder)) (r : Report)
    (name : Text)
    → (check_contents (has_config upload.entries) (config_of upload) first rest r).errors ≡ []
    → All (λ v. is_version_name v.0 ≡ true) (first ∷ rest)
    → (r.errors ≡ []) × IsModel upload name (first ∷ rest)
unfolding check_contents
check_contents_sound upload first rest r name h names =
    let (p, configured) = check_no_config_sound (has_config upload.entries) _ _ h in
    let (q, complete) = check_versions_sound _ _ (first ∷ rest) _ p in
    let (s, numbers) = check_numbers_sound (first ∷ rest) r q in
    (s, (names, numbers, complete, configured))

checked_entries_sound :
    (upload : Upload) (name : Text)
    → (checked_entries upload name).errors ≡ []
    → (has_config upload.entries ≡ false) ⊎ IsNamed (config_of upload) name
unfolding checked_entries
checked_entries_sound upload name h = elim (Bool-cases (has_config upload.entries)) [
  | inr e ↦ inl e
  | inl e ↦ inr (
      check_config_sound (config_of upload) name no_report
        (sym (warn_entries-errors (sorted by_name upload.entries) _) ∙ (rw e at h)))
]

validate-versions :
    (upload : Upload) (name : Text) (dirs : List (Text × Folder)) (r : Report)
    → All (λ v. is_version_name v.0 ≡ true) dirs
    → (validate_dirs upload dirs r).errors ≡ []
    → (r.errors ≡ []) × IsModel upload name dirs
unfolding validate_dirs without_versions
validate-versions upload name [] r names h = error_sound _ r h
validate-versions upload name (first ∷ rest) r names h =
    check_contents_sound upload first rest r name h names

-- An upload without an error is a directory whose config.pbtxt, if it has one, names no model or the
-- one it is installed as; it has a version directory or more, each named by a number from 1; unless
-- it is an ensemble, each has contents and, where the platform or backend asks for one artifact, that
-- one, of its kind; and it has a config.pbtxt unless Triton can do without for its platform.
pub validate_model_dir-IsModel :
    (upload : Upload) (model_name : Text)
    → (validate_model_dir upload model_name).errors ≡ []
    → (upload.is_dir ≡ true)
      × ((has_config upload.entries ≡ false) ⊎ IsNamed (config_of upload) model_name)
      × IsModel upload model_name (version_dirs (sorted by_name upload.entries))
unfolding validate_model_dir checked_entries config_of validate_dirs
validate_model_dir-IsModel upload model_name h = elim (Bool-cases upload.is_dir) [
  | inr e ↦ error_sound _ no_report (rw e at h)
  | inl e ↦
      let (p, model) =
        validate-versions upload model_name (version_dirs (sorted by_name upload.entries))
          (checked_entries upload model_name) (version_dirs-names (sorted by_name upload.entries))
          (rw e at h) in
      (e, checked_entries_sound upload model_name p, model)
]
