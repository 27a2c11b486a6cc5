-- ===== src/Models/Names/Safe.antt =====
-- What the names and the paths that are accepted are.
use purdue_af.Common.{
  ℕ, ◌≡◌, ◌≢◌, inl, inr, true, false, not, ◌||◌, none, some, List, [], ◌∷◌, arith, All, ◌==◌,
  Bool-cases, Option-cases,
}
use mathlib.Core.Bool.{false≢true}
use purdue_af.Common.Exec.{ok}
use purdue_af.Common.Result.{ok_eq, err≢ok}
use purdue_af.Common.Text.{
  Text, codes, same, starts_with, split, split-All, strip, IsFree, split-IsFree,
}
use purdue_af.Models.Names.{
  slash, lstrip_slash, forward, has, kept_parts, safe_relpath, rstrip_slash, is_name_char,
  name_chars, body_length, matches_name, validate_name, invalid_name,
}

-- A part of a path that stays where it is: neither empty nor a dot or two, without a separator of
-- either system and without a drive.
abbrev pub IsPlain : Text → Type 0
IsPlain p =
    (same p [] ≡ false)
    × (same p (codes ".") ≡ false)
    × (same p (codes "..") ≡ false)
    × (has b':' p ≡ false)
    × IsFree slash p
    × IsFree 92 p

forward-IsFree : (s : Text) → IsFree 92 (forward s)
unfolding forward
forward-IsFree [] = tt
forward-IsFree (c ∷ s) = (ground arith, forward-IsFree s)

lstrip_slash-All : (P : ℕ → Type 0) (s : Text) → All P s → All P (lstrip_slash s)
unfolding lstrip_slash
lstrip_slash-All P [] h = tt
lstrip_slash-All P (c ∷ s) h = elim (Bool-cases (c == slash)) [
  | inl e ↦ rw e (lstrip_slash-All P s h.1)
  | inr e ↦ rw e h
]

some_inj : {A : Type 0} (a b : A) → some a ≡ some b → a ≡ b
some_inj a b h = cc

cons_ne : (p : Text) (ps : List Text) → p ∷ ps ≢ []
cons_ne p ps h = cc

cons_ne_nil : (c : ℕ) (s : Text) → c ∷ s ≢ []
cons_ne_nil c s h = cc

none≢some : {A : Type 0} (a : A) → none ≢ some a
none≢some a h = cc

kept_parts-IsPlain :
    (ps kept : List Text)
    → All (IsFree slash) ps
    → All (IsFree 92) ps
    → kept_parts ps ≡ some kept
    → All IsPlain kept
unfolding kept_parts
kept_parts-IsPlain [] kept f b h = rw (← some_inj [] kept h) tt
kept_parts-IsPlain (p ∷ ps) kept f b h = elim (Bool-cases (same p [] || same p (codes "."))) [
  | inl e ↦ kept_parts-IsPlain ps kept f.1 b.1 (rw e at h)
  | inr e ↦ elim (Bool-cases (same p (codes "..") || has b':' p)) [
    | inl d ↦ absurd (none≢some kept (rw (e, d) at h))
    | inr d ↦ elim (Option-cases (kept_parts ps)) [
      | inl n ↦ absurd (none≢some kept (rw (e, d, n) at h))
      | inr (more, n) ↦
          let same_kept : Path (List Text) (p ∷ more) kept =
            some_inj (p ∷ more) kept (rw (e, d, n) at h) in
          rw (← same_kept) (
            (ground (arith, e), ground (arith, e), ground (arith, d), ground (arith, d), f.0, b.0),
            kept_parts-IsPlain ps more f.1 b.1 n,
          )
    ]
  ]
]

-- A member of an archive gets a path below the directory that it is unpacked in: of one plain part or
-- more.
pub safe_relpath-IsPlain :
    (member : Text) (parts : List Text)
    → safe_relpath member ≡ ok parts
    → (parts ≢ []) × All IsPlain parts
unfolding safe_relpath
safe_relpath-IsPlain member parts h =
    let path = lstrip_slash (forward member) in
    elim (Option-cases (kept_parts (split slash path))) [
      | inl n ↦ absurd (err≢ok _ parts (rw n at h))
      | inr ([], n) ↦ absurd (err≢ok _ parts (rw n at h))
      | inr (p ∷ ps, n) ↦
          let same_parts : Path (List Text) (p ∷ ps) parts = ok_eq (p ∷ ps) parts (rw n at h) in
          rw (← same_parts) (
            (λ e. cons_ne p ps e),
            kept_parts-IsPlain (split slash path) (p ∷ ps) (split-IsFree slash path)
                (split-All (λ c. (c == 92) ≡ false) slash path
                  (lstrip_slash-All (λ c. (c == 92) ≡ false) (forward member)
                    (forward-IsFree member)))
                n,
          )
    ]

-- The last character of an accepted name may be a newline.
abbrev pub IsNameChar : ℕ → Type 0
IsNameChar c = (is_name_char c || c == 10) ≡ true

name_chars-All : (s : Text) → name_chars s ≡ true → All IsNameChar s
unfolding name_chars
name_chars-All [] h = tt
name_chars-All (c ∷ []) h = (h, tt)
name_chars-All (c ∷ d ∷ s) h = (ground arith, name_chars-All (d ∷ s) (ground arith))

matches_name-All : (s : Text) → matches_name s ≡ true → All IsNameChar s
unfolding matches_name
matches_name-All s h = name_chars-All s (ground (arith, h))

matches_name-ne : (s : Text) → matches_name s ≡ true → s ≢ []
unfolding matches_name body_length
matches_name-ne [] h e = false≢true (ground (arith, h))
matches_name-ne (c ∷ s) h e = cons_ne_nil c s e

-- An accepted name has a character or more, no slash nor any other character but letters, digits,
-- dots, underscores, dashes and newlines, and does not start with a dot: in the repository it is a
-- directory's name, and no hidden one's.
validate_name-IsNameChar :
    (given name : Text)
    → validate_name given ≡ ok name
    → (name ≢ []) × All IsNameChar name × (starts_with name (codes ".") ≡ false)
unfolding validate_name
validate_name-IsNameChar given name h =
    let asked = rstrip_slash (lstrip_slash (strip given)) in
    elim (Bool-cases (
      not (matches_name asked)
      || same asked (codes ".")
      || same asked (codes "..")
      || starts_with asked (codes "."))) [
        | inl e ↦ absurd (err≢ok invalid_name name (rw e at h))
        | inr e ↦
            let same_name : asked ≡ name = ok_eq asked name (rw e at h) in
            rw (← same_name) (
              matches_name-ne asked (ground (arith, e)),
              matches_name-All asked (ground (arith, e)),
              ground (arith, e),
            )
      ]
