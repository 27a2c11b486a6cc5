-- ===== src/Ray/Accounts.antt =====
-- Workload accounts and the names of clusters: cluster_name, checked_account, read_accounts,
-- token_account and refuse_account_name of apps/ray-train/gateway.py. SHA-256 is a parameter.
pub mod Checked
pub mod Unique
mod Examples
use purdue_af.Common.{
  ℕ, ◌+◌, ◌-◌, String, Bool, true, false, not, ◌&&◌, ◌||◌, Option, none, some, List, [], ◌∷◌, ◌++◌,
  map, any_of, keep, leb, ltb, ◌==◌, if◌then◌else◌, length, is_some,
}
use purdue_af.Common.Exec.{Outcome, ok, err}
use purdue_af.Common.Result.{◌>>=◌, ◌>>◌, check}
use purdue_af.Common.Dict.{Dict, get}
use purdue_af.Common.Text.{Text, codes, same, starts_with, ends_with, lower}
use purdue_af.Ray.Base.{Refusal, refused, permission_denied}

-- [a-z], [a-z0-9] and [-a-z0-9]
abbrev pub is_letter : ℕ → Bool
is_letter c = leb b'a' c && leb c b'z'

abbrev pub is_alnum : ℕ → Bool
is_alnum c = is_letter c || leb b'0' c && leb c b'9'

abbrev pub is_label_char : ℕ → Bool
is_label_char c = is_alnum c || c == b'-'

-- ([-a-z0-9]*[a-z0-9])?
unfoldable pub label_rest : Text → Bool
label_rest [] = true
label_rest (c ∷ []) = is_alnum c
label_rest (c ∷ d ∷ s) = is_label_char c && label_rest (d ∷ s)

-- ACCOUNT_NAME.fullmatch
unfoldable pub is_account_name : Text → Bool
is_account_name [] = false
is_account_name (c ∷ s) = is_alnum c && label_rest s

-- DNS_LABEL.fullmatch
unfoldable pub is_dns_label : Text → Bool
is_dns_label [] = false
is_dns_label (c ∷ s) = is_letter c && label_rest s

abbrev pub prefix : Text
prefix = codes "ray-train-"

abbrev pub max_cluster_name : ℕ
max_cluster_name = 53

-- re.sub(r"[^a-z0-9]+", "-", s); `inside` is whether such a run is being read.
unfoldable pub dashes : Bool → Text → Text
dashes inside [] = []
dashes inside (c ∷ s) =
    let ended = dashes false s in
    let within = dashes true s in
    if is_alnum c then c ∷ ended else if inside then within else b'-' ∷ within

-- s.strip("-")
unfoldable pub lstrip_dash : Text → Text
lstrip_dash [] = []
lstrip_dash (c ∷ s) = let rest = lstrip_dash s in if c == b'-' then rest else c ∷ s

drop_dash : ℕ → Text → Text
drop_dash c [] = if c == b'-' then [] else c ∷ []
drop_dash c (d ∷ s) = c ∷ d ∷ s

unfoldable pub rstrip_dash : Text → Text
unfolding drop_dash
rstrip_dash [] = []
rstrip_dash (c ∷ s) = drop_dash c (rstrip_dash s)

-- s[:n]
unfoldable pub take : ℕ → Text → Text
take n [] = []
take n (c ∷ s) = let rest = take (n - 1) s in if ltb 0 n then c ∷ rest else []

module _ (sha256 : Text → Text) where
  unfoldable pub cluster_name : Text → Text
  cluster_name username =
      let name = prefix ++ username in
      let stem = rstrip_dash (lstrip_dash (dashes false (lower username))) in
      let suffix = codes "---" ++ take 8 (sha256 username) in
      if leb (length name) max_cluster_name && is_dns_label name
      then name
      else take (max_cluster_name - length suffix) (prefix ++ stem) ++ suffix

-- A YAML value, as far as a declaration's fields need it.
pub data Value : Type 0 where
  text : Text → Value
  whole : ℕ → Value
  something : Value

-- Any other document is none; each key of a mapping is a text, or some key that is not allowed.
abbrev pub Document : Type 0
Document = Option (Dict Value)

pub record Account : Type 0 where
  pub name : Text
  pub uid : ℕ
  pub gid : ℕ
  pub token_sha256 : Text

-- AccountRefused, by the reason it names.
pub data AccountRefused : Type 0 where
  keys name_rule reserved_name uid_rule gid_rule token_hash unreadable duplicate : AccountRefused

abbrev is_key : String → Bool
is_key k = any_of (λ t. same (codes t) (codes k)) ("name" ∷ "uid" ∷ "gid" ∷ "tokenSha256" ∷ [])

-- Values of the four keys, if there are these and no others.
unfoldable pub fields : Document → Option (Value × Value × Value × Value)
fields none = none
fields (some d) = if any_of (λ e. not (is_key e.0)) d then none else elim (get "name" d) [
  | none ↦ none
  | some n ↦ elim (get "uid" d) [
    | none ↦ none
    | some u ↦ elim (get "gid" d) [
      | none ↦ none
      | some g ↦ elim (get "tokenSha256" d) [ none ↦ none | some t ↦ some (n, u, g, t) ]
    ]
  ]
]

abbrev pub reserved_names : List Text
reserved_names = map codes (
    "bin" ∷ "boot" ∷ "dev" ∷ "etc" ∷ "home" ∷ "lib" ∷ "lib32" ∷ "lib64" ∷ "libx32" ∷ "media" ∷ "mnt"
    ∷ "opt" ∷ "proc" ∷ "root" ∷ "run" ∷ "sbin" ∷ "srv" ∷ "sys" ∷ "tmp" ∷ "usr" ∷ "var" ∷ "work"
    ∷ "depot" ∷ "eos" ∷ "cvmfs" ∷ "af-shared-storage" ∷ "hub-db-dir" ∷ "jovyan" ∷ "dask-credentials"
    ∷ "log-volume" ∷ [])

-- RESERVED_NAMES, RESERVED_PREFIXES and EXTERNAL_SUFFIXES
unfoldable pub is_reserved : Text → Bool
is_reserved name =
    any_of (λ r. same r name) reserved_names
    || starts_with name (codes "claim-")
    || ends_with name (codes "-cern")
    || ends_with name (codes "-fnal")

-- [0-9a-f]{64}
abbrev is_hex : ℕ → Bool
is_hex c = leb b'0' c && leb c b'9' || leb b'a' c && leb c b'f'

unfoldable pub is_hash : Text → Bool
is_hash s = length s == 64 && not (any_of (λ c. not (is_hex c)) s)

unfoldable pub checked_name : Value → Outcome AccountRefused Text
checked_name (text name) =
    if leb (length name) (max_cluster_name - length prefix) && is_account_name name
    then if is_reserved name then err reserved_name else ok name
    else err name_rule
checked_name (whole n) = err name_rule
checked_name something = err name_rule

-- ACCOUNT_IDS
unfoldable pub checked_id : AccountRefused → Value → Outcome AccountRefused ℕ
checked_id reason (whole n) = if leb 1000 n && ltb n 2000 then ok n else err reason
checked_id reason (text t) = err reason
checked_id reason something = err reason

unfoldable pub checked_hash : Value → Outcome AccountRefused Text
checked_hash (text t) = if is_hash t then ok t else err token_hash
checked_hash (whole n) = err token_hash
checked_hash something = err token_hash

unfoldable pub checked_fields :
    Option (Value × Value × Value × Value) → Outcome AccountRefused Account
checked_fields none = err keys
checked_fields (some f) = do
  name ← checked_name f.0
  uid ← checked_id uid_rule f.1
  gid ← checked_id gid_rule f.2
  hash ← checked_hash f.3
  ok (record { name = name; uid = uid; gid = gid; token_sha256 = hash })

unfoldable pub checked_account : Document → Outcome AccountRefused Account
checked_account declared = checked_fields (fields declared)

-- The accounts that the files declare by the rules; `none` is a file that cannot be read.
unfoldable pub found_accounts : List (Option Document) → List Account
found_accounts [] = []
found_accounts (none ∷ files) = found_accounts files
found_accounts (some d ∷ files) =
    let rest = found_accounts files in elim (checked_account d) [ ok a ↦ a ∷ rest | err e ↦ rest ]

unfoldable pub count_of : (Account → Text) → Text → List Account → ℕ
count_of field value [] = 0
count_of field value (a ∷ more) =
    (if same (field a) value then 1 else 0) + count_of field value more

-- Those whose name and token no other declaration has.
unfoldable pub single : List Account → List Account
single found =
    keep
      (λ a. not (
        ltb 1 (count_of (λ b. b.name) a.name found)
        || ltb 1 (count_of (λ b. b.token_sha256) a.token_sha256 found)))
      found

-- The accounts by name: an account's name is its key.
unfoldable pub read_accounts : List (Option Document) → List Account
read_accounts files = single (found_accounts files)

-- The last of the accounts whose hash is the token's.
unfoldable pub owner_from : Text → List Account → Option Account → Option Account
owner_from digest [] owner = owner
owner_from digest (a ∷ more) owner =
    owner_from digest more (if same digest a.token_sha256 then some a else owner)

module _ (sha256 : Text → Text) where
  unfoldable pub token_account : List Account → Text → Option Account
  token_account accounts token = owner_from (sha256 token) accounts none

  unfoldable pub refuse_account_name : List Account → Text → Outcome Refusal (Unit {0})
  refuse_account_name accounts name =
      if any_of (λ a. same (cluster_name sha256 a.name) (cluster_name sha256 name)) accounts
      then err (refused permission_denied "the name of a workload account")
      else ok tt
