-- ===== src/Models/Uploads/Installed.antt =====
-- Installing a model: what it leaves in the repository.
use purdue_af.Common.{
  by_if, true≢false, subst, eq_iff, arith, ◌⊎◌, String, ◌≡◌, refl, sym, ◌∙◌, inl, inr, Bool, true,
  false, Option, none, some, is_some, str_eq, eq_refl, Bool-cases,
}
use purdue_af.Common.Exec.{Outcome, ok, err, continue}
use purdue_af.Models.Names.{already_exists}
use purdue_af.Common.Dict.{Dict, get, put, remove, get-put, get-remove}
use purdue_af.Models.Uploads.{
  Moves, Move, moved, unmoved, part_copied, Fault, refusal, os_error, rename, rename_found, move_in,
  or_restore, replace, install,
}

-- What an installation leaves. If it succeeds: the model, where there was none or it may be replaced.
-- If it raises: what was there before; or, where that cannot be renamed back, that under its backup's
-- name; or, where nothing was there, the part of the model that was copied.
abbrev pub IsLeft :
    {Model : Type 0}
    → Outcome Fault (Unit {0})
    → Moves Model
    → Model
    → String
    → String
    → Bool
    → Dict Model
    → Dict Model
    → Type 0
IsLeft (ok t) k m name backup overwrite before later =
    (get name later ≡ some m) × ((get name before ≡ none) ⊎ (overwrite ≡ true))
IsLeft {Model} (err e) k m name backup overwrite before later =
    (get name later ≡ get name before)
    ⊎ (((k.restore ≡ false) × (get backup later ≡ get name before))
        ⊎ ((part : Model) × (k.move ≡ part_copied part)
            × (get name before ≡ none)
            × (get name later ≡ some part)))

-- The same, and a model that may not be replaced is refused and nothing changes.
abbrev pub IsInstalled :
    {Model : Type 0} → Moves Model → Model → String → String → Bool → Dict Model → Type 0
IsInstalled k m name backup overwrite repo =
    let (r, later) = install k m name backup overwrite repo in
    IsLeft r k m name backup overwrite repo later
    × ((get name repo ≡ none)
        ⊎ ((overwrite ≡ true) ⊎ ((r ≡ err (refusal already_exists)) × (later ≡ repo))))

get_new :
    {Model : Type 0} (m : Model) (name : String) (repo : Dict Model)
    → get name (put name m repo) ≡ some m
get_new m name repo = get-put name name m repo ∙ rw (eq_refl name) refl

module _ {Model : Type 0} (m : Model) (name backup : String) (apart : str_eq backup name ≡ false)
    (overwrite : Bool) (repo : Dict Model) where
  abbrev LeftBy : Moves Model → Outcome Fault (Unit {0}) × Dict Model → Type 0
  LeftBy k (r, later) = IsLeft r k m name backup overwrite repo later

  aside : Model → Dict Model
  aside old = put backup old (remove name repo)

  restored-LeftBy :
      (k : Moves Model) (old : Model) (tree : Dict Model)
      → get name repo ≡ some old
      → get backup tree ≡ some old
      → LeftBy k (or_restore (err os_error) k name backup tree)
  unfolding or_restore rename rename_found
  restored-LeftBy k old tree h b = elim (Bool-cases k.restore) [
    | inl e ↦ rw (b, e) (inl (get_new old name (remove backup tree) ∙ sym h))
    | inr e ↦ rw (b, e) (inr (inl (refl, b ∙ sym h)))
  ]

  -- The backup is another name than the model's.
  kept_backup : (old part : Model) → get backup (put name part (aside old)) ≡ some old
  unfolding aside
  kept_backup old part =
      get-put name backup part (put backup old (remove name repo))
      ∙ rw other (get_new old backup (remove name repo))
    where
      other : str_eq name backup ≡ false
      other = ground (arith, apart, eq_iff backup name, eq_iff name backup)

  moved-LeftBy :
      (k : Moves Model) (old : Model) (move : Move Model)
      → k.move ≡ move
      → get name repo ≡ some old
      → overwrite ≡ true
      → LeftBy k (
          or_restore
            (move_in move m name (aside old)).0
            k
            name
            backup
            (move_in move m name (aside old)).1)
  unfolding move_in aside or_restore
  moved-LeftBy k old moved e h o = (
    by_if (λ (x : Dict Model). get name x ≡ some m) k.clear _ _
        (λ _.
          get-remove backup name (put name m (aside old)) ∙ rw apart (get_new m name (aside old)))
        (λ _. get_new m name (aside old)),
    inr o,
  )
  moved-LeftBy k old unmoved e h o =
      restored-LeftBy k old (put backup old (remove name repo)) h
        (get_new old backup (remove name repo))
  moved-LeftBy k old (part_copied part) e h o =
      restored-LeftBy k old (put name part (put backup old (remove name repo))) h
        (kept_backup old part)

  abbrev after_aside :
      Moves Model → Outcome Fault (Unit {0}) × Dict Model → Outcome Fault (Unit {0}) × Dict Model
  after_aside k (r, tree) =
      continue r
        (λ _ s. let (result, s') = move_in k.move m name s in or_restore result k name backup s')
        tree

  renamed-LeftBy :
      (k : Moves Model) (old : Model) (works : Bool)
      → get name repo ≡ some old
      → overwrite ≡ true
      → LeftBy k (after_aside k (rename_found works (some old) name backup repo))
  unfolding rename_found aside
  renamed-LeftBy k old true h o = moved-LeftBy k old k.move refl h o
  renamed-LeftBy k old false h o = inl refl

  replace-LeftBy :
      (k : Moves Model) (old : Model)
      → get name repo ≡ some old
      → overwrite ≡ true
      → LeftBy k (replace k m name backup repo)
  unfolding replace rename
  replace-LeftBy k old h o =
      subst
        (λ (x : Option Model).
          LeftBy k (after_aside k (rename_found k.set_aside x name backup repo)))
        (sym h) (renamed-LeftBy k old k.set_aside h o)

  new-LeftBy :
      (k : Moves Model) (move : Move Model)
      → k.move ≡ move
      → get name repo ≡ none
      → LeftBy k (move_in move m name repo)
  unfolding move_in
  new-LeftBy k moved e n = (get_new m name repo, inl n)
  new-LeftBy k unmoved e n = inl refl
  new-LeftBy k (part_copied part) e n = inr (inr (part, e, n, get_new part name repo))

-- An installation that succeeds leaves the model in place of its name, where there was none or it may
-- be replaced. One that raises, at whatever call, leaves there what was there before; or, where the
-- rename back fails, leaves that under its backup's name; or, where nothing was there, leaves what it
-- had copied of the model. A model that is there and may not be replaced is refused, and nothing
-- changes.
pub install-IsInstalled :
    {Model : Type 0} (k : Moves Model) (m : Model) (name backup : String)
    → str_eq backup name ≡ false
    → (overwrite : Bool) (repo : Dict Model) → IsInstalled k m name backup overwrite repo
unfolding install
install-IsInstalled {Model} k m name backup apart overwrite repo =
    by_if P (is_some (get name repo)) _ _
      (λ found.
        by_if P overwrite _ _
          (λ o.
            let (old, n) = some_found (get name repo) found in
            (replace-LeftBy m name backup apart overwrite repo k old n o, inr (inl o)))
          (λ _. (inl refl, inr (inr (refl, refl)))))
      (λ e.
        let n = none_found (get name repo) e in
        (new-LeftBy m name backup apart overwrite repo k k.move refl n, inl n))
  where
    P : Outcome Fault (Unit {0}) × Dict Model → Type 0
    P (r, later) =
        IsLeft r k m name backup overwrite repo later
        × ((get name repo ≡ none)
            ⊎ ((overwrite ≡ true) ⊎ ((r ≡ err (refusal already_exists)) × (later ≡ repo))))

    some_found : (o : Option Model) → is_some o ≡ true → (x : Model) × (o ≡ some x)
    some_found none e = absurd (true≢false (sym e))
    some_found (some x) e = (x, refl)

    none_found : (o : Option Model) → is_some o ≡ false → o ≡ none
    none_found none e = refl
    none_found (some x) e = absurd (true≢false e)

module _ {Model : Type 0} (m : Model) (name backup j : String) (not_name : str_eq name j ≡ false)
    (not_backup : str_eq backup j ≡ false) where
  put-other :
      (k : String) (x : Model) (repo : Dict Model)
      → str_eq k j ≡ false
      → get j (put k x repo) ≡ get j repo
  put-other k x repo e = get-put k j x repo ∙ rw e refl

  remove-other :
      (k : String) (repo : Dict Model) → str_eq k j ≡ false → get j (remove k repo) ≡ get j repo
  remove-other k repo e = get-remove k j repo ∙ rw e refl

  rename-other :
      (works : Bool) (found : Option Model) (a b : String) (repo : Dict Model)
      → str_eq a j ≡ false
      → str_eq b j ≡ false
      → get j (rename_found works found a b repo).1 ≡ get j repo
  unfolding rename_found
  rename-other true (some x) a b repo ea eb =
      put-other b x (remove a repo) eb ∙ remove-other a repo ea
  rename-other true none a b repo ea eb = refl
  rename-other false found a b repo ea eb = refl

  or_restore-other :
      (r : Outcome Fault (Unit {0})) (k : Moves Model) (repo : Dict Model)
      → get j (or_restore r k name backup repo).1 ≡ get j repo
  unfolding or_restore rename
  or_restore-other (ok t) k repo = elim (Bool-cases k.clear) [
    | inl e ↦ rw e (remove-other backup repo not_backup)
    | inr e ↦ rw e refl
  ]
  or_restore-other (err e) k repo =
      rename-other k.restore (get backup repo) backup name repo not_backup not_name

  move_in-other :
      (move : Move Model) (repo : Dict Model) → get j (move_in move m name repo).1 ≡ get j repo
  unfolding move_in
  move_in-other moved repo = put-other name m repo not_name
  move_in-other unmoved repo = refl
  move_in-other (part_copied part) repo = put-other name part repo not_name

  after-other :
      (r : Outcome Fault (Unit {0})) (k : Moves Model) (repo : Dict Model)
      → get j
          (continue r
            (λ _ r.
              let (result, r') = move_in k.move m name r in or_restore result k name backup r')
            repo).1
        ≡ get j repo
  after-other (ok t) k repo =
      or_restore-other (move_in k.move m name repo).0 k (move_in k.move m name repo).1
      ∙ move_in-other k.move repo
  after-other (err e) k repo = refl

  -- However an installation ends, it changes nothing of any other name than the model's and that of
  -- its backup.
  pub install-other :
      (k : Moves Model) (overwrite : Bool) (repo : Dict Model)
      → get j (install k m name backup overwrite repo).1 ≡ get j repo
  unfolding install replace rename
  install-other k overwrite repo = elim (Bool-cases (is_some (get name repo))) [
    | inr n ↦ rw n (move_in-other k.move repo)
    | inl n ↦ elim (Bool-cases overwrite) [
      | inr o ↦ rw (n, o) refl
      | inl o ↦
          rw (n, o)
            (after-other (rename k.set_aside name backup repo).0 k
                (rename k.set_aside name backup repo).1
              ∙ rename-other k.set_aside (get name repo) name backup repo not_name not_backup)
    ]
  ]
