-- ===== src/Ray/Accounts/Examples.antt =====
-- Declarations of workload accounts: tests, and the theorems at them.
use purdue_af.Common.{◌≡◌, refl, ◌↔◌, Option, none, some, List, [], ◌∷◌}
use mathlib.Core.List.{Memᴰ}
use purdue_af.Common.Exec.{ok, err}
use purdue_af.Common.Dict.{get}
use purdue_af.Common.Text.{Text, codes, same, starts_with, ends_with}
use purdue_af.Ray.Accounts.{
  text, whole, Document, Account, reserved_name, label_rest, is_account_name, is_dns_label,
  cluster_name, fields, is_reserved, is_hash, checked_name, checked_id, checked_hash,
  checked_fields, checked_account, found_accounts, count_of, single, read_accounts, token_account,
  refuse_account_name, take, dashes, lstrip_dash, rstrip_dash,
}
use purdue_af.Ray.Accounts.Unique.{IsAlone, token_account_iff}

abbrev hash_a : Text
hash_a = codes "aaaaaaaaaaaaaaaaaaaaaaaaaaaaaaaaaaaaaaaaaaaaaaaaaaaaaaaaaaaaaaaa"

abbrev hash_b : Text
hash_b = codes "bbbbbbbbbbbbbbbbbbbbbbbbbbbbbbbbbbbbbbbbbbbbbbbbbbbbbbbbbbbbbbbb"

abbrev sha256 : Text → Text
sha256 t = hash_a

abbrev declared : Text → Text → Document
declared name hash = some (
    ("name", text name)
    ∷ ("uid", whole 1500)
    ∷ ("gid", whole 1500)
    ∷ ("tokenSha256", text hash)
    ∷ [])

abbrev ops : Account
ops = record { name = codes "cms-ops"; uid = 1500; gid = 1500; token_sha256 = hash_a }

checked_account-ops : checked_account (declared (codes "cms-ops") hash_a) ≡ ok ops
unfolding checked_account checked_fields fields get checked_name is_account_name label_rest
    is_reserved starts_with ends_with same checked_id checked_hash is_hash
checked_account-ops = refl

checked_account-claim : checked_account (declared (codes "claim-x") hash_a) ≡ err reserved_name
unfolding checked_account checked_fields fields get checked_name is_account_name label_rest
    is_reserved starts_with ends_with same checked_id checked_hash is_hash
checked_account-claim = refl

cluster_name-dotted : cluster_name sha256 (codes "A.b_C.") ≡ codes "ray-train-a-b-c---aaaaaaaa"
unfolding cluster_name is_dns_label label_rest take dashes lstrip_dash rstrip_dash
cluster_name-dotted = refl

abbrev files : List (Option Document)
files =
    some (declared (codes "cms-ops") hash_a)
    ∷ none
    ∷ some (declared (codes "twin") hash_b)
    ∷ some (declared (codes "twin2") hash_b)
    ∷ []

read_accounts-twins : read_accounts files ≡ ops ∷ []
unfolding read_accounts single count_of found_accounts checked_account checked_fields fields get
    checked_name is_account_name label_rest is_reserved starts_with ends_with same checked_id
    checked_hash is_hash
read_accounts-twins = refl

ops-mem : Memᴰ ops (read_accounts files)
ops-mem = rw read_accounts-twins (Memᴰ.head refl)

token_account_iff_example :
    (token_account sha256 (read_accounts files) (codes "secret") ≡ some ops)
    ↔ (IsAlone files ops × (sha256 (codes "secret") ≡ ops.token_sha256))
token_account_iff_example = token_account_iff sha256 files (codes "secret") ops

refuse_account_name-ana : refuse_account_name sha256 (ops ∷ []) (codes "ana") ≡ ok tt
unfolding refuse_account_name cluster_name is_dns_label label_rest same
refuse_account_name-ana = refl
