-- ===== src/Ray/Accounts/Checked.antt =====
-- What a declared account is, and its cluster's name.
use purdue_af.Common.{
  ℕ, ◌-◌, ◌≤◌, ◌<◌, ◌≡◌, refl, inl, inr, true, false, ◌&&◌, Option, none, some, [], ◌∷◌, ◌++◌,
  arith, leb, ltb, Bool-cases, length,
}
use purdue_af.Common.Exec.{ok}
use purdue_af.Common.Result.{ok_eq, err≢ok, after_ok}
use purdue_af.Common.Text.{Text}
use purdue_af.Ray.Accounts.{
  Value, text, whole, something, Document, Account, AccountRefused, is_account_name, is_dns_label,
  label_rest, prefix, max_cluster_name, cluster_name, is_reserved, is_hash, checked_name,
  checked_id, checked_hash, checked_fields, checked_account, fields,
}

-- The rules that a declared account keeps.
abbrev pub IsAccount : Account → Type 0
IsAccount a =
    (is_account_name a.name ≡ true)
    × (length a.name ≤ max_cluster_name - length prefix)
    × (is_reserved a.name ≡ false)
    × ((1000 ≤ a.uid) × (a.uid < 2000))
    × ((1000 ≤ a.gid) × (a.gid < 2000))
    × (is_hash a.token_sha256 ≡ true)

checked_name-rules :
    (v : Value) (name : Text)
    → checked_name v ≡ ok name
    → (is_account_name name ≡ true)
      × (length name ≤ max_cluster_name - length prefix)
      × (is_reserved name ≡ false)
unfolding checked_name
checked_name-rules (text t) name h =
    elim (Bool-cases (leb (length t) (max_cluster_name - length prefix) && is_account_name t)) [
      | inr e ↦ absurd (err≢ok _ name (rw e at h))
      | inl e ↦ elim (Bool-cases (is_reserved t)) [
        | inl r ↦ absurd (err≢ok _ name (rw (e, r) at h))
        | inr r ↦ rw (← ok_eq t name (rw (e, r) at h)) (ground (arith, e), ground (arith, e), r)
      ]
    ]
checked_name-rules (whole n) name h = absurd (err≢ok _ name h)
checked_name-rules something name h = absurd (err≢ok _ name h)

checked_id-rules :
    (reason : AccountRefused) (v : Value) (n : ℕ)
    → checked_id reason v ≡ ok n
    → (1000 ≤ n) × (n < 2000)
unfolding checked_id
checked_id-rules reason (whole m) n h = elim (Bool-cases (leb 1000 m && ltb m 2000)) [
  | inr e ↦ absurd (err≢ok _ n (rw e at h))
  | inl e ↦ rw (← ok_eq m n (rw e at h)) (ground (arith, e), ground (arith, e))
]
checked_id-rules reason (text t) n h = absurd (err≢ok _ n h)
checked_id-rules reason something n h = absurd (err≢ok _ n h)

checked_hash-rules : (v : Value) (t : Text) → checked_hash v ≡ ok t → is_hash t ≡ true
unfolding checked_hash
checked_hash-rules (text s) t h = elim (Bool-cases (is_hash s)) [
  | inr e ↦ absurd (err≢ok _ t (rw e at h))
  | inl e ↦ rw (← ok_eq s t (rw e at h)) e
]
checked_hash-rules (whole n) t h = absurd (err≢ok _ t h)
checked_hash-rules something t h = absurd (err≢ok _ t h)

checked_fields-IsAccount :
    (f : Option (Value × Value × Value × Value)) (a : Account)
    → checked_fields f ≡ ok a
    → IsAccount a
unfolding checked_fields
checked_fields-IsAccount none a h = absurd (err≢ok _ a h)
checked_fields-IsAccount (some f) a h = after_ok (checked_name f.0) _ a h λ name p1 h1.
    after_ok (checked_id _ f.1) _ a h1 λ uid p2 h2. after_ok (checked_id _ f.2) _ a h2 λ gid p3 h3.
      after_ok (checked_hash f.3) _ a h3 λ hash p4 h4.
        let (named, short, free) = checked_name-rules f.0 name p1 in
        rw (← ok_eq _ a h4) (
          named,
          short,
          free,
          checked_id-rules _ f.1 uid p2,
          checked_id-rules _ f.2 gid p3,
          checked_hash-rules f.3 hash p4,
        )

account-dns_label :
    (name : Text) → is_account_name name ≡ true → is_dns_label (prefix ++ name) ≡ true
unfolding is_dns_label is_account_name label_rest
account-dns_label [] h = cc
account-dns_label (c ∷ []) h = ground (arith, h)
account-dns_label (c ∷ d ∷ s) h = ground (arith, h)

-- An account is accepted only if it keeps the rules of names, ids and hashes, and its cluster is then
-- named by its own name in full, whatever the hash function.
pub checked_account-IsAccount :
    (sha256 : Text → Text) (declared : Document) (a : Account)
    → checked_account declared ≡ ok a
    → IsAccount a × (cluster_name sha256 a.name ≡ prefix ++ a.name)
unfolding checked_account cluster_name
checked_account-IsAccount sha256 declared a h =
    let account = checked_fields-IsAccount (fields declared) a h in
    let (named, short, free, uid, gid, hash) = account in
    let label = account-dns_label a.name named in
    let fits : leb (length (prefix ++ a.name)) max_cluster_name ≡ true = ground (arith, short) in
    (account, rw (fits, label) refl)
