-- ===== src/Models/Uploads/Unpacked.antt =====
-- What unpacking an archive writes: no more than its budget, and only below its directory.
use purdue_af.Common.{
  ℕ, ◌+◌, ◌≤◌, ◌≡◌, refl, inl, inr, List, [], ◌∷◌, arith, All, sum_by, ltb, if◌then◌else◌,
  Bool-cases,
}
use purdue_af.Common.Exec.{Outcome, ok, err, ◌>>◌, pure}
use purdue_af.Common.Exec.Keeps.{Keeps, Keeps-pure, Keeps-if, Keeps-bind}
use purdue_af.Common.Text.{Text}
use purdue_af.Models.Names.{RepositoryError, safe_relpath, is_junk}
use purdue_af.Models.Names.Safe.{IsPlain, safe_relpath-IsPlain}
use purdue_af.Models.Uploads.{
  MemberKind, regular, directory, link, special, Member, Unpacking, Disk, make_folder, write_file,
  take_budget, unpack_at, at_safe_path, extract_zip, unpack_tar_member, unpack_kind, extract_tar,
  is_pax, is_dir,
}

-- The sizes written are within the budget, and every path is of plain parts.
abbrev pub IsWithin : ℕ → Unpacking → Type 0
IsWithin budget u =
    (sum_by (λ f. f.1) u.files + u.remaining ≤ budget)
    × All (λ f. All IsPlain f.0) u.files
    × All (All IsPlain) u.folders

make_folder-IsWithin :
    (budget : ℕ) (disk : Disk) (path : List Text)
    → All IsPlain path
    → Keeps (IsWithin budget) (make_folder disk path)
unfolding make_folder
make_folder-IsWithin budget disk path plain = record {
  at = λ u (sizes, files, folders). elim (Bool-cases (disk path)) [
    | inl e ↦ rw e (sizes, files, (plain, folders))
    | inr e ↦ rw e (sizes, files, folders)
  ];
}

write-IsWithin :
    (budget : ℕ) (disk : Disk) (path : List Text) (size : ℕ)
    → All IsPlain path
    → Keeps (IsWithin budget) (take_budget size >> write_file disk path size)
unfolding take_budget write_file
write-IsWithin budget disk path size plain = record {
  at = λ u (sizes, files, folders). elim (Bool-cases (ltb u.remaining size)) [
    | inl e ↦ rw e (sizes, files, folders)
    | inr e ↦ elim (Bool-cases (disk path)) [
      | inl d ↦ rw (e, d) (ground (arith, e, sizes), (plain, files), folders)
      | inr d ↦ rw (e, d) (ground (arith, e, sizes), files, folders)
    ]
  ];
}

unpack_at-IsWithin :
    (budget : ℕ) (disk : Disk) (m : Member) (path : List Text)
    → All IsPlain path
    → Keeps (IsWithin budget) (unpack_at disk m path)
unfolding unpack_at
unpack_at-IsWithin budget disk m path plain = Keeps-if (is_junk path) (pure tt) _ (Keeps-pure tt) (
    Keeps-if (is_dir m.kind) (make_folder disk path) _ (make_folder-IsWithin budget disk path plain)
      (write-IsWithin budget disk path m.size plain))

at_safe_path-IsWithin :
    (budget : ℕ) (disk : Disk) (m : Member) (r : Outcome RepositoryError (List Text))
    → safe_relpath m.name ≡ r
    → Keeps (IsWithin budget) (at_safe_path disk m r)
unfolding at_safe_path
at_safe_path-IsWithin budget disk m (ok path) e = record {
  at = (unpack_at-IsWithin budget disk m path (safe_relpath-IsPlain m.name path e).1).at;
}
at_safe_path-IsWithin budget disk m (err f) e = record { at = λ u h. h }

zip-IsWithin :
    (budget : ℕ) (disk : Disk) (ms : List Member) → Keeps (IsWithin budget) (extract_zip disk ms)
unfolding extract_zip
zip-IsWithin budget disk [] = Keeps-pure tt
zip-IsWithin budget disk (m ∷ ms) =
    Keeps-bind (at_safe_path disk m (safe_relpath m.name)) _
      (at_safe_path-IsWithin budget disk m (safe_relpath m.name) refl)
      (λ _. zip-IsWithin budget disk ms)

tar_kind-IsWithin :
    (budget : ℕ) (disk : Disk) (m : Member) (kind : MemberKind)
    → Keeps (IsWithin budget) (unpack_kind kind disk m)
unfolding unpack_kind
tar_kind-IsWithin budget disk m link = record { at = λ u h. h }
tar_kind-IsWithin budget disk m special = record { at = λ u h. h }
tar_kind-IsWithin budget disk m regular = record {
  at = (at_safe_path-IsWithin budget disk m (safe_relpath m.name) refl).at;
}
tar_kind-IsWithin budget disk m directory = record {
  at = (at_safe_path-IsWithin budget disk m (safe_relpath m.name) refl).at;
}

tar-IsWithin :
    (budget : ℕ) (disk : Disk) (ms : List Member) → Keeps (IsWithin budget) (extract_tar disk ms)
unfolding extract_tar unpack_tar_member
tar-IsWithin budget disk [] = Keeps-pure tt
tar-IsWithin budget disk (m ∷ ms) =
    Keeps-bind (if is_pax m.name then pure tt else unpack_kind m.kind disk m) _
      (Keeps-if (is_pax m.name) (pure tt) (unpack_kind m.kind disk m) (Keeps-pure tt)
        (tar_kind-IsWithin budget disk m m.kind))
      (λ _. tar-IsWithin budget disk ms)

-- Nothing is written yet, and the whole budget is left.
abbrev pub unpacking : ℕ → Unpacking
unpacking budget = record { files = []; folders = []; remaining = budget }

-- However unpacking an archive ends, be it a zip or a tar, and whatever the file system refuses: the
-- sizes of the files written are within the budget, and each file and folder is below the directory
-- that it is unpacked in, at a path of plain parts.
pub extract-IsWithin :
    (budget : ℕ) (disk : Disk) (ms : List Member)
    → IsWithin budget (extract_zip disk ms (unpacking budget)).1
      × IsWithin budget (extract_tar disk ms (unpacking budget)).1
extract-IsWithin budget disk ms = (
  (zip-IsWithin budget disk ms).at (unpacking budget) (omega arith, tt, tt),
  (tar-IsWithin budget disk ms).at (unpacking budget) (omega arith, tt, tt),
)
