-- ===== src/Models/Uploads/Examples.antt =====
-- An archive that is unpacked and installed: tests, and the theorems at it.
use purdue_af.Common.{ℕ, ◌≡◌, refl, true, false, some, List, [], ◌∷◌}
use purdue_af.Common.Exec.{err}
use purdue_af.Common.Dict.{Dict, get, put, remove}
use purdue_af.Common.Text.{codes, same, starts_with, split}
use purdue_af.Models.Names.{too_large, safe_relpath, kept_parts, lstrip_slash, forward, is_junk}
use purdue_af.Models.Uploads.{
  Member, regular, directory, refusal, Disk, make_folder, write_file, take_budget, unpack_at,
  at_safe_path, extract_zip, unpack_tar_member, unpack_kind, extract_tar, contains, Moves, unmoved,
  part_copied, rename, rename_found, move_in, or_restore, replace, install,
}
use purdue_af.Models.Uploads.Unpacked.{IsWithin, unpacking, extract-IsWithin}
use purdue_af.Models.Uploads.Installed.{IsInstalled, install-IsInstalled}

abbrev disk : Disk
disk path = true

abbrev members : List Member
members =
    record { name = codes "net/"; size = 0; kind = directory }
    ∷ record { name = codes "net/a.pt"; size = 60; kind = regular }
    ∷ record { name = codes "net/b.pt"; size = 50; kind = regular }
    ∷ []

extract_zip-over : (extract_zip disk members (unpacking 100)).0 ≡ err (refusal too_large)
unfolding extract_zip at_safe_path unpack_at make_folder write_file take_budget safe_relpath
    kept_parts lstrip_slash forward split same is_junk starts_with
extract_zip-over = refl

extract_tar-files :
    (extract_tar disk members (unpacking 200)).1.files
    ≡ (codes "net" ∷ codes "b.pt" ∷ [], 50) ∷ (codes "net" ∷ codes "a.pt" ∷ [], 60) ∷ []
unfolding extract_tar unpack_tar_member unpack_kind contains at_safe_path unpack_at make_folder
    write_file take_budget safe_relpath kept_parts lstrip_slash forward split same is_junk
    starts_with
extract_tar-files = refl

extract-IsWithin_example :
    IsWithin 100 (extract_zip disk members (unpacking 100)).1
    × IsWithin 100 (extract_tar disk members (unpacking 100)).1
extract-IsWithin_example = extract-IsWithin 100 disk members

abbrev models : Dict ℕ
models = ("net", 1) ∷ ("other", 7) ∷ []

abbrev failing : Moves ℕ
failing = record { set_aside = true; move = unmoved; restore = true; clear = true }

install-fails : get "net" (install failing 2 "net" ".net.replaced-9" true models).1 ≡ some 1
unfolding install replace rename rename_found move_in or_restore get put remove
install-fails = refl

-- A part of the new model is in the way of what it replaces.
abbrev part_way : Moves ℕ
part_way = record failing { move = part_copied 3; restore = false }

install-part_way :
    (install part_way 2 "net" ".net.replaced-9" true models).1
    ≡ ("other", 7) ∷ (".net.replaced-9", 1) ∷ ("net", 3) ∷ []
unfolding install replace rename rename_found move_in or_restore get put remove
install-part_way = refl

install-IsInstalled_example : IsInstalled failing 2 "net" ".net.replaced-9" true models
install-IsInstalled_example = install-IsInstalled failing 2 "net" ".net.replaced-9" refl true models
