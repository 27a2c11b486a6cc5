-- ===== src/Models/Names.antt =====
-- Names in the model repository: _validate_name, is_internal_name, _safe_relpath, _is_junk and
-- is_archive of docker/supersonic-model-manager/model_manager/repository.py.
pub mod Safe
mod Examples
use purdue_af.Common.{
  ℕ, suc, String, Bool, true, false, not, ◌&&◌, ◌||◌, Option, none, some, List, [], ◌∷◌, map,
  any_of, keep, leb, ◌==◌, if◌then◌else◌, length,
}
use purdue_af.Common.Exec.{Outcome, ok, err}
use purdue_af.Common.Text.{ends_with, Text, codes, same, starts_with, split, strip, lower}

pub data RepositoryError : Type 0 where
  invalid_name unsafe_path too_large has_link unsupported_entry already_exists not_present :
      RepositoryError

abbrev pub slash : ℕ
slash = b'/'

-- s.lstrip("/")
unfoldable pub lstrip_slash : Text → Text
lstrip_slash [] = []
lstrip_slash (c ∷ s) = let rest = lstrip_slash s in if c == slash then rest else c ∷ s

drop_slash : ℕ → Text → Text
drop_slash c [] = if c == slash then [] else c ∷ []
drop_slash c (d ∷ t) = c ∷ d ∷ t

unfoldable pub rstrip_slash : Text → Text
unfolding drop_slash
rstrip_slash [] = []
rstrip_slash (c ∷ s) = drop_slash c (rstrip_slash s)

-- [A-Za-z0-9._-]
abbrev pub is_name_char : ℕ → Bool
is_name_char c =
    leb b'a' c && leb c b'z'
    || leb b'A' c && leb c b'Z'
    || leb b'0' c && leb c b'9'
    || c == b'.'
    || c == b'_'
    || c == b'-'

-- `$` also matches before a newline that ends the text: the characters before that are the name's.
unfoldable pub name_chars : Text → Bool
name_chars [] = true
name_chars (c ∷ []) = is_name_char c || c == 10
name_chars (c ∷ d ∷ s) = is_name_char c && name_chars (d ∷ s)

-- The characters without a newline at the end.
unfoldable pub body_length : Text → ℕ
body_length [] = 0
body_length (c ∷ []) = if c == 10 then 0 else 1
body_length (c ∷ d ∷ s) = suc (body_length (d ∷ s))

-- MODEL_NAME_RE.match
unfoldable pub matches_name : Text → Bool
matches_name name = name_chars name && (leb 1 (body_length name) && leb (body_length name) 255)

unfoldable pub validate_name : Text → Outcome RepositoryError Text
validate_name given =
    let name = rstrip_slash (lstrip_slash (strip given)) in
    if not (matches_name name)
      || same name (codes ".")
      || same name (codes "..")
      || starts_with name (codes ".")
    then err invalid_name
    else ok name

unfoldable pub is_internal_name : Text → Bool
is_internal_name [] = true
is_internal_name (c ∷ name) =
    starts_with (c ∷ name) (codes ".") || same (c ∷ name) (codes ".uploads")

abbrev pub has : ℕ → Text → Bool
has c s = any_of (λ d. d == c) s

-- `name.replace("\\", "/")`
unfoldable pub forward : Text → Text
forward [] = []
forward (c ∷ s) = (if c == 92 then slash else c) ∷ forward s

-- The parts that are kept; `none` is a refusal.
unfoldable pub kept_parts : List Text → Option (List Text)
kept_parts [] = some []
kept_parts (p ∷ ps) =
    let rest = kept_parts ps in
    if same p [] || same p (codes ".")
    then rest
    else if same p (codes "..") || has b':' p
    then none
    else elim rest [ none ↦ none | some more ↦ some (p ∷ more) ]

some_parts : Option (List Text) → Outcome RepositoryError (List Text)
some_parts none = err unsafe_path
some_parts (some []) = err unsafe_path
some_parts (some (p ∷ ps)) = ok (p ∷ ps)

-- The path as its parts.
unfoldable pub safe_relpath : Text → Outcome RepositoryError (List Text)
unfolding some_parts
safe_relpath member = some_parts (kept_parts (split slash (lstrip_slash (forward member))))

abbrev is_junk_name : Text → Bool
is_junk_name p =
    same p (codes "__MACOSX")
    || starts_with p (codes "._")
    || same p (codes ".DS_Store")
    || same p (codes "Thumbs.db")
    || same p (codes "desktop.ini")

unfoldable pub is_junk : List Text → Bool
is_junk parts = any_of is_junk_name parts

abbrev pub archive_suffixes : List Text
archive_suffixes =
    map codes
      (".zip" ∷ ".tar" ∷ ".tar.gz" ∷ ".tgz" ∷ ".tar.bz2" ∷ ".tbz2" ∷ ".tar.xz" ∷ ".txz" ∷ [])

unfoldable pub is_archive : Text → Bool
is_archive filename = any_of (λ s. ends_with (lower filename) s) archive_suffixes
