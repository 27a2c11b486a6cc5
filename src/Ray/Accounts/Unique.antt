-- ===== src/Ray/Accounts/Unique.antt =====
-- Whose a token is: no two accounts share a name or a token, and no Hub user passes who would have an
-- account's cluster.
use purdue_af.Common.{
  true≢false, ◌≤◌, ◌≡◌, ◌≢◌, refl, sym, ap, ◌∙◌, subst, ◌⊎◌, ◌↔◌, inl, inr, Bool, true, not, ◌||◌,
  Option, none, some, List, [], ◌∷◌, arith, All, All-mem, any_of, any_of-All, All-map, keep,
  keep_yes, keep_no, All-keep, ltb, if◌then◌else◌, Bool-cases,
}
use mathlib.Core.List.{Memᴰ}
use mathlib.Core.Bool.{false≢true}
use purdue_af.Common.Exec.{ok}
use purdue_af.Common.Result.{err≢ok}
use purdue_af.Common.Text.{Text, same, same→eq, same_refl}
use purdue_af.Ray.Accounts.{
  Document, Account, found_accounts, count_of, single, read_accounts, owner_from, token_account,
  refuse_account_name, cluster_name,
}

count_of-keep :
    (field : Account → Text) (value : Text) (p : Account → Bool) (xs : List Account)
    → count_of field value (keep p xs) ≤ count_of field value xs
unfolding count_of
count_of-keep field value p [] = omega arith
count_of-keep field value p (x ∷ xs) = elim (Bool-cases (p x)) [
  | inl e ↦ rw (keep_yes p x xs e) (omega (arith, count_of-keep field value p xs))
  | inr e ↦ rw (keep_no p x xs e) (omega (arith, count_of-keep field value p xs))
]

count_of-mem :
    (field : Account → Text) (a : Account) (xs : List Account)
    → Memᴰ a xs
    → 1 ≤ count_of field (field a) xs
unfolding count_of
count_of-mem field a [] m = elim m [ ]
count_of-mem field a (x ∷ xs) (Memᴰ.head e) = rw (← e) (ground (arith, same_refl (field a)))
count_of-mem field a (x ∷ xs) (Memᴰ.tail t) = omega (arith, count_of-mem field a xs t)

-- Every account's name, and its token's hash, is its own alone among the accounts.
abbrev pub AreSingle : List Account → Type 0
AreSingle accounts =
    All
      (λ a.
        (count_of (λ b. b.name) a.name accounts ≤ 1)
        × (count_of (λ b. b.token_sha256) a.token_sha256 accounts ≤ 1))
      accounts

single-AreSingle : (found : List Account) → AreSingle (single found)
unfolding single
single-AreSingle found =
    let name = λ (b : Account). b.name in
    let token = λ (b : Account). b.token_sha256 in
    let p = λ (a : Account).
      not (ltb 1 (count_of name a.name found) || ltb 1 (count_of token a.token_sha256 found)) in
    All-keep _ p
      (λ a e. (
        ground (arith, e, count_of-keep name a.name p found),
        ground (arith, e, count_of-keep token a.token_sha256 p found),
      ))
      found

count_two :
    (field : Account → Text) (value : Text) (x : Account) (xs : List Account)
    → field x ≡ value
    → 1 ≤ count_of field value xs
    → count_of field value (x ∷ xs) ≤ 1
    → ⊥
unfolding count_of
count_two field value x xs e more one =
    let found : same (field x) value ≡ true = rw (← e) (same_refl (field x)) in
    ground (arith, found, more, one)

-- Two entries of one text are one entry where the count of the text is 1.
count_one :
    (field : Account → Text) (a b : Account) (xs : List Account)
    → Memᴰ a xs
    → Memᴰ b xs
    → field a ≡ field b
    → count_of field (field a) xs ≤ 1
    → a ≡ b
unfolding count_of
count_one field a b [] m n h one = elim m [ ]
count_one field a b (x ∷ xs) (Memᴰ.head e) (Memᴰ.head f) h one = e ∙ sym f
count_one field a b (x ∷ xs) (Memᴰ.head e) (Memᴰ.tail n) h one = absurd (
    count_two field (field a) x xs (ap field (sym e))
      (subst (λ v. 1 ≤ count_of field v xs) (sym h) (count_of-mem field b xs n)) one)
count_one field a b (x ∷ xs) (Memᴰ.tail m) (Memᴰ.head f) h one =
    absurd
      (count_two field (field a) x xs (ap field (sym f) ∙ sym h) (count_of-mem field a xs m) one)
count_one field a b (x ∷ xs) (Memᴰ.tail m) (Memᴰ.tail n) h one =
    count_one field a b xs m n h (omega (arith, one))

-- Among the accounts that are read from any files, two of one name are one, and two of one token are
-- one: a duplicate leaves out all the declarations that share the name or the token.
pub read_accounts_unique :
    (files : List (Option Document)) (a b : Account)
    → Memᴰ a (read_accounts files)
    → Memᴰ b (read_accounts files)
    → (a.name ≡ b.name) ⊎ (a.token_sha256 ≡ b.token_sha256)
    → a ≡ b
unfolding read_accounts
read_accounts_unique files a b m n h =
    let accounts = single (found_accounts files) in
    let (names, tokens) = All-mem _ a accounts (single-AreSingle (found_accounts files)) m in
    elim h [
      | inl e ↦ count_one (λ c. c.name) a b accounts m n e names
      | inr e ↦ count_one (λ c. c.token_sha256) a b accounts m n e tokens
    ]

some_inj : {A : Type 0} (a b : A) → some a ≡ some b → a ≡ b
some_inj a b h = cc

none≢some : {A : Type 0} (a : A) → none ≢ some a
none≢some a h = cc

owner_from-mem :
    (digest : Text) (accounts : List Account) (owner : Option Account) (a : Account)
    → owner_from digest accounts owner ≡ some a
    → (Memᴰ a accounts × (same digest a.token_sha256 ≡ true)) ⊎ (owner ≡ some a)
unfolding owner_from
owner_from-mem digest [] owner a h = inr h
owner_from-mem digest (x ∷ xs) owner a h = elim (Bool-cases (same digest x.token_sha256)) [
  | inr e ↦ elim (owner_from-mem digest xs owner a (rw e at h)) [
    | inl (m, q) ↦ inl (Memᴰ.tail m, q)
    | inr q ↦ inr q
  ]
  | inl e ↦ elim (owner_from-mem digest xs (some x) a (rw e at h)) [
    | inl (m, q) ↦ inl (Memᴰ.tail m, q)
    | inr q ↦
        let x_eq : x ≡ a = some_inj x a q in
        inl (Memᴰ.head (sym x_eq), subst (λ y. same digest y.token_sha256 ≡ true) x_eq e)
  ]
]

owner_from-some :
    (digest : Text) (accounts : List Account) (x : Account)
    → (b : Account) × (owner_from digest accounts (some x) ≡ some b)
unfolding owner_from
owner_from-some digest [] x = (x, refl)
owner_from-some digest (y ∷ ys) x = elim (Bool-cases (same digest y.token_sha256)) [
  | inl e ↦ rw e (owner_from-some digest ys y)
  | inr e ↦ rw e (owner_from-some digest ys x)
]

owner_from-found :
    (digest : Text) (accounts : List Account) (owner : Option Account) (a : Account)
    → Memᴰ a accounts
    → same digest a.token_sha256 ≡ true
    → (b : Account) × (owner_from digest accounts owner ≡ some b)
unfolding owner_from
owner_from-found digest [] owner a m e = elim m [ ]
owner_from-found digest (x ∷ xs) owner a (Memᴰ.head f) e =
    let found = subst (λ y. same digest y.token_sha256 ≡ true) f e in
    rw found (owner_from-some digest xs x)
owner_from-found digest (x ∷ xs) owner a (Memᴰ.tail m) e =
    owner_from-found digest xs (if same digest x.token_sha256 then some x else owner) a m e

token_account-mem :
    (sha256 : Text → Text) (accounts : List Account) (token : Text) (a : Account)
    → token_account sha256 accounts token ≡ some a
    → Memᴰ a accounts × (sha256 token ≡ a.token_sha256)
unfolding token_account
token_account-mem sha256 accounts token a h =
    elim (owner_from-mem (sha256 token) accounts none a h) [
      | inl (m, q) ↦ (m, same→eq (sha256 token) a.token_sha256 q)
      | inr q ↦ absurd (none≢some a q)
    ]

token_account-found :
    (sha256 : Text → Text) (accounts : List Account) (token : Text) (a : Account)
    → Memᴰ a accounts
    → sha256 token ≡ a.token_sha256
    → (b : Account) × (token_account sha256 accounts token ≡ some b)
unfolding token_account
token_account-found sha256 accounts token a m e =
    owner_from-found (sha256 token) accounts none a m (rw (← e) (same_refl (sha256 token)))

mem_keep :
    (p : Account → Bool) (a : Account) (xs : List Account)
    → Memᴰ a (keep p xs) ↔ (Memᴰ a xs × (p a ≡ true))
mem_keep p a [] = ((λ m. elim m [ ]), (λ (m, e). elim m [ ]))
mem_keep p a (x ∷ xs) = elim (Bool-cases (p x)) [
  | inl e ↦ (
    (λ m. elim (subst (Memᴰ a) (keep_yes p x xs e) m) [
      | Memᴰ.head f ↦ (Memᴰ.head f, ap p f ∙ e)
      | Memᴰ.tail n ↦ let (n', q) = (mem_keep p a xs).0 n in (Memᴰ.tail n', q)
    ]),
    (λ (m, q). subst (Memᴰ a) (sym (keep_yes p x xs e)) (elim m [
      | Memᴰ.head f ↦ Memᴰ.head f
      | Memᴰ.tail n ↦ Memᴰ.tail ((mem_keep p a xs).1 (n, q))
    ])),
  )
  | inr e ↦ (
    (λ m.
        let (n, q) = (mem_keep p a xs).0 (subst (Memᴰ a) (keep_no p x xs e) m) in (Memᴰ.tail n, q)),
    (λ (m, q). subst (Memᴰ a) (sym (keep_no p x xs e)) (elim m [
      | Memᴰ.head f ↦ absurd (true≢false (sym q ∙ ap p f ∙ e))
      | Memᴰ.tail n ↦ (mem_keep p a xs).1 (n, q)
    ])),
  )
]

-- A file declares the account by the rules, and no other declaration by the rules, be it a twin of
-- it, has its name or its token's hash.
abbrev pub IsAlone : List (Option Document) → Account → Type 0
IsAlone files a =
    Memᴰ a (found_accounts files)
    × (count_of (λ b. b.name) a.name (found_accounts files) ≤ 1)
    × (count_of (λ b. b.token_sha256) a.token_sha256 (found_accounts files) ≤ 1)

read_accounts_iff :
    (files : List (Option Document)) (a : Account) → Memᴰ a (read_accounts files) ↔ IsAlone files a
unfolding read_accounts single
read_accounts_iff files a = (
  (λ m. let (n, e) = (mem_keep _ a (found_accounts files)).0 m in (n, ground arith, ground arith)),
  (λ (n, p, q). (mem_keep _ a (found_accounts files)).1 (n, ground arith)),
)

-- A token is an account's exactly if a file declares the account by the rules, no other declaration
-- by the rules in any file has its name or its token's hash, and its hash is the token's.
pub token_account_iff :
    (sha256 : Text → Text) (files : List (Option Document)) (token : Text) (a : Account)
    → (token_account sha256 (read_accounts files) token ≡ some a)
      ↔ (IsAlone files a × (sha256 token ≡ a.token_sha256))
token_account_iff sha256 files token a = (
  (λ h.
      let (m, e) = token_account-mem sha256 (read_accounts files) token a h in
      ((read_accounts_iff files a).0 m, e)),
  λ (alone, e).
      let m = (read_accounts_iff files a).1 alone in
      let (b, h) = token_account-found sha256 (read_accounts files) token a m e in
      let (n, f) = token_account-mem sha256 (read_accounts files) token b h in
      h ∙ ap some (read_accounts_unique files b a n m (inr (sym f ∙ e))),
)

-- A Hub user passes only if no account has the cluster that would be theirs.
pub refuse_account_name_apart :
    (sha256 : Text → Text) (accounts : List Account) (name : Text)
    → refuse_account_name sha256 accounts name ≡ ok tt
    → All (λ a. cluster_name sha256 a.name ≢ cluster_name sha256 name) accounts
unfolding refuse_account_name
refuse_account_name_apart sha256 accounts name h =
    elim (Bool-cases
      (any_of (λ a. same (cluster_name sha256 a.name) (cluster_name sha256 name)) accounts)) [
        | inl e ↦ absurd (err≢ok _ tt (rw e at h))
        | inr e ↦
            All-map (λ a f g. false≢true (sym f ∙ rw g (same_refl (cluster_name sha256 name))))
              accounts (any_of-All _ accounts e)
      ]
