-- ===== src/Models/Validation/Examples.antt =====
-- Uploads of one model: tests, and the theorem at one.
use purdue_af.Common.{◌≡◌, refl, ◌⊎◌, true, false, none, some, [], ◌∷◌, if◌then◌else◌}
use purdue_af.Common.Text.{codes, same, strip, lstrip, rstrip, is_space}
use purdue_af.Common.Digits.{is_digit, digits, int, int_from}
use purdue_af.Models.Config.{readable, parse_config, scalar, strip_comments}
use purdue_af.Models.Validation.{
  warn_entries, warn_entry, check_config, without_versions, check_numbers, check_artifact,
  check_kind, check_version, check_versions, check_no_config, has_config, config_of, platform_of,
  check_contents, checked_entries, validate_dirs, validate_model_dir,
}
use purdue_af.Models.Artifacts.{
  Folder, folder, plain_file, Upload, stray_model, version_dirs, add_version, is_version_name,
  suffix, error_if, warn_if, expected_artifact, text_before, sorted, by_name,
}
use purdue_af.Models.Validation.Sound.{IsNamed, IsModel, validate_model_dir-IsModel}

scalar-nested :
    scalar (codes "input [ { name: \"x\" } ]\n  name: \"a\"\nname : \"b\"") "name"
    ≡ some (codes "b")
unfolding scalar lstrip is_space
scalar-nested = refl

abbrev onnx : Folder
onnx = record {
  names = codes "model.onnx" ∷ [];
  at = λ path. if same path (codes "model.onnx") then some false else none;
}

abbrev upload : Upload
upload = record {
  is_dir = true;
  entries =
      record { name = codes "config.pbtxt"; node = plain_file }
      ∷ record { name = codes "1"; node = folder onnx }
      ∷ [];
  contents = readable (codes "name: \"net\" # mine\nplatform: \"onnxruntime_onnx\"");
}

validate-upload : (validate_model_dir upload (codes "net")).errors ≡ []
unfolding validate_model_dir validate_dirs version_dirs add_version is_version_name digits is_digit
    warn_entries warn_entry suffix check_config error_if warn_if check_numbers int int_from
    check_artifact check_kind check_version check_versions check_no_config has_config config_of
    platform_of check_contents checked_entries expected_artifact text_before parse_config scalar
    strip_comments strip lstrip rstrip is_space same
validate-upload = refl

validate-stray :
    (validate_model_dir
      (record upload { entries = record { name = codes "model.pt"; node = plain_file } ∷ [] })
      (codes "net")).errors
    ≡ stray_model (codes "model.pt") ∷ []
unfolding validate_model_dir validate_dirs version_dirs add_version without_versions warn_entries
    warn_entry suffix warn_if has_config checked_entries same
validate-stray = refl

validate_model_dir-IsModel_example :
    (upload.is_dir ≡ true)
    × ((has_config upload.entries ≡ false) ⊎ IsNamed (config_of upload) (codes "net"))
    × IsModel upload (codes "net") (version_dirs (sorted by_name upload.entries))
validate_model_dir-IsModel_example = validate_model_dir-IsModel upload (codes "net") validate-upload
