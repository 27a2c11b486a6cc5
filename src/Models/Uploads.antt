-- ===== src/Models/Uploads.antt =====
-- Unpacking an archive and installing a model: _extract_zip, _extract_tar, _install and delete_model
-- of docker/supersonic-model-manager/model_manager/repository.py.
-- The file system may refuse any write (`Disk`); what was written before stays written.
pub mod Unpacked
pub mod Installed
mod Examples
use purdue_af.Common.{
  ℕ, ◌+◌, ◌-◌, String, Bool, true, false, not, ◌&&◌, ◌||◌, Option, none, some, List, [], ◌∷◌, ◌++◌,
  ltb, if◌then◌else◌, is_some,
}
use purdue_af.Common.Exec.{Outcome, ok, err, Exec, ◌>>=◌, ◌>>◌, pure, continue}
use purdue_af.Common.Dict.{Dict, get, put, remove}
use purdue_af.Common.Text.{Text, codes, starts_with}
use purdue_af.Models.Names.{
  RepositoryError, too_large, has_link, unsupported_entry, already_exists, not_present,
  safe_relpath, is_junk,
}

pub data MemberKind : Type 0 where
  regular directory link special : MemberKind

pub record Member : Type 0 where
  pub name : Text
  pub size : ℕ
  pub kind : MemberKind

-- What an upload raises: a refusal of its own, or the file system's.
pub data Fault : Type 0 where
  refusal : RepositoryError → Fault
  os_error : Fault

-- What has been written of an archive, and how much of the budget is left.
pub record Unpacking : Type 0 where
  pub files : List (List Text × ℕ)
  pub folders : List (List Text)
  pub remaining : ℕ

-- Whether the file system takes a path.
abbrev pub Disk : Type 0
Disk = List Text → Bool

abbrev pub Unpack : Type 0 → Type 0
Unpack A = Exec Unpacking Fault A

abbrev pub is_dir : MemberKind → Bool
is_dir directory = true
is_dir _ = false

unfoldable pub make_folder : Disk → List Text → Unpack (Unit {0})
make_folder disk path u =
    if disk path then (ok tt, record u { folders = path ∷ u.folders }) else (err os_error, u)

unfoldable pub write_file : Disk → List Text → ℕ → Unpack (Unit {0})
write_file disk path size u =
    if disk path then (ok tt, record u { files = (path, size) ∷ u.files }) else (err os_error, u)

-- `remaining -= size`, and the refusal if it is below 0
unfoldable pub take_budget : ℕ → Unpack (Unit {0})
take_budget size u =
    if ltb u.remaining size
    then (err (refusal too_large), u)
    else (ok tt, record u { remaining = u.remaining - size })

-- A member whose path is safe.
unfoldable pub unpack_at : Disk → Member → List Text → Unpack (Unit {0})
unpack_at disk m path =
    if is_junk path
    then pure tt
    else if is_dir m.kind
    then make_folder disk path
    else (do take_budget m.size; write_file disk path m.size)

unfoldable pub at_safe_path :
    Disk → Member → Outcome RepositoryError (List Text) → Unpack (Unit {0})
at_safe_path disk m (ok path) u = unpack_at disk m path u
at_safe_path disk m (err e) u = (err (refusal e), u)

unfoldable pub extract_zip : Disk → List Member → Unpack (Unit {0})
extract_zip disk [] = pure tt
extract_zip disk (m ∷ ms) = do at_safe_path disk m (safe_relpath m.name); extract_zip disk ms

-- `part in text`
unfoldable pub contains : Text → Text → Bool
contains part [] = starts_with [] part
contains part (c ∷ s) = starts_with (c ∷ s) part || contains part s

abbrev pub is_pax : Text → Bool
is_pax name = starts_with name (codes "PaxHeader") || contains (codes "/PaxHeader") name

unfoldable pub unpack_kind : MemberKind → Disk → Member → Unpack (Unit {0})
unpack_kind link disk m u = (err (refusal has_link), u)
unpack_kind special disk m u = (err (refusal unsupported_entry), u)
unpack_kind regular disk m u = at_safe_path disk m (safe_relpath m.name) u
unpack_kind directory disk m u = at_safe_path disk m (safe_relpath m.name) u

unfoldable pub unpack_tar_member : Disk → Member → Unpack (Unit {0})
unpack_tar_member disk m = if is_pax m.name then pure tt else unpack_kind m.kind disk m

unfoldable pub extract_tar : Disk → List Member → Unpack (Unit {0})
extract_tar disk [] = pure tt
extract_tar disk (m ∷ ms) = do unpack_tar_member disk m; extract_tar disk ms

-- How shutil.move of the staged model ends: it moves it, or raises with nothing moved, or raises in the
-- copy that it makes where a rename fails, with the part of the model that it has copied.
pub data Move (Model : Type 0) : Type 0 where
  moved unmoved : Move Model
  part_copied : Model → Move Model

-- How the file system answers an installation: the rename out of the way, the move into place, the
-- rename back, which a part of a model in the way may make fail, and the removal of what was replaced.
pub record Moves (Model : Type 0) : Type 0 where
  pub set_aside : Bool
  pub move : Move Model
  pub restore : Bool
  pub clear : Bool

abbrev pub Repo : Type 0 → Type 0
Repo Model = Exec (Dict Model) Fault (Unit {0})

module _ {Model : Type 0} where
  -- path.rename(target), of what is there
  unfoldable pub rename_found : Bool → Option Model → String → String → Repo Model
  rename_found true (some m) a b repo = (ok tt, put b m (remove a repo))
  rename_found true none a b repo = (err os_error, repo)
  rename_found false found a b repo = (err os_error, repo)

  unfoldable pub rename : Bool → String → String → Repo Model
  rename works a b repo = rename_found works (get a repo) a b repo

  -- shutil.move of the staged model
  unfoldable pub move_in : Move Model → Model → String → Repo Model
  move_in moved m name repo = (ok tt, put name m repo)
  move_in unmoved m name repo = (err os_error, repo)
  move_in (part_copied part) m name repo = (err os_error, put name part repo)

  -- `except Exception: backup.rename(target); raise`
  unfoldable pub or_restore : Outcome Fault (Unit {0}) → Moves Model → String → String → Repo Model
  or_restore (ok t) k name backup repo = (ok tt, if k.clear then remove backup repo else repo)
  or_restore (err e) k name backup repo = (err e, (rename k.restore backup name repo).1)

  unfoldable pub replace : Moves Model → Model → String → String → Repo Model
  replace k m name backup repo =
      let (set_aside, repo1) = rename k.set_aside name backup repo in
      continue set_aside
        (λ _ r. let (result, r') = move_in k.move m name r in or_restore result k name backup r')
        repo1

  -- `backup` is f".{name}.replaced-{int(time.time())}".
  unfoldable pub install : Moves Model → Model → String → String → Bool → Repo Model
  install k m name backup overwrite repo =
      if is_some (get name repo)
      then if overwrite then replace k m name backup repo else (err (refusal already_exists), repo)
      else move_in k.move m name repo

  unfoldable pub delete_model : String → Repo Model
  delete_model name repo =
      if is_some (get name repo)
      then (ok tt, remove name repo)
      else (err (refusal not_present), repo)
