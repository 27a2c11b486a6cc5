-- ===== src/Ray/Paths/Storage.antt =====
-- An accepted directory lies below storage that the cluster mounts.
use mathlib.Core.Bool.{false≢true}
use mathlib.Core.List.{Memᴰ}
use purdue_af.Common.{
  ◌≡◌, ◌≢◌, sym, ◌∙◌, ◌⊎◌, inl, inr, true, false, not, ◌&&◌, ◌||◌, List, [], ◌∷◌, ◌++◌, Bool-cases,
  any_of, any_of-mem, any_of-All, All, All-map,
}
use purdue_af.Common.Exec.{Outcome, ok, err}
use purdue_af.Common.Text.{Text, same, same→eq, same_refl, starts_with, starts_with→append, join}
use purdue_af.Ray.Base.{Refusal}
use purdue_af.Ray.Paths.{
  slash, is_rooted, lead, components, or_dot, normpath, rstrip_slash, dirname, is_below, is_output,
  mounted_env, Purpose, for_inputs, for_output, data_path,
}
use purdue_af.Ray.Paths.Normal.{IsClean, components-IsClean}

-- The path is the root, or something behind the root and a slash.
abbrev pub IsAtOrBelow : Text → Text → Type 0
IsAtOrBelow root path =
    (path ≡ root) ⊎ ((r : Text) × (path ≡ (rstrip_slash root ++ slash ∷ []) ++ r))

-- The path is one slash, or two, and clean components: no empty one, no dot and no dot-dot.
abbrev pub IsNormal : Text → Type 0
IsNormal path =
    (comps : List Text) × ((path ≡ slash ∷ join slash comps)
      ⊎ (path ≡ slash ∷ slash ∷ join slash comps))
    × All IsClean comps

normpath-IsNormal : (value : Text) → is_rooted value ≡ true → IsNormal (normpath value)
unfolding normpath or_dot lead
normpath-IsNormal value rooted = (
  components value,
  rw rooted
      (elim (Bool-cases (
        starts_with value (slash ∷ slash ∷ [])
        && not (starts_with value (slash ∷ slash ∷ slash ∷ [])))) [
          | inl e ↦ inr (rw e)
          | inr e ↦ inl (rw e)
        ]),
  components-IsClean value rooted,
)

err-ne-ok : {e : Refusal} {x : Text} → ◌≡◌ {A = Outcome Refusal Text} (err e) (ok x) → ⊥
err-ne-ok e = cc

ok_eq : {x y : Text} → ◌≡◌ {A = Outcome Refusal Text} (ok x) (ok y) → x ≡ y
ok_eq e = cc

at_or_below :
    (root path : Text) → (same path root || is_below root path) ≡ true → IsAtOrBelow root path
unfolding is_below
at_or_below root path h = elim (Bool-cases (same path root)) [
  | inl e ↦ inl (same→eq path root e)
  | inr e ↦ inr (starts_with→append path (rstrip_slash root ++ slash ∷ []) (rw e at h))
]

-- An environment is accepted only as a normal path at or below storage the cluster mounts.
pub mounted_env-IsAtOrBelow :
    (roots : List Text) (value path : Text)
    → mounted_env roots value ≡ ok path
    → ((root : Text) × Memᴰ root roots × IsAtOrBelow root path) × IsNormal path
unfolding mounted_env
mounted_env-IsAtOrBelow roots value path h =
    let found = λ (root : Text). same (normpath value) root || is_below root (normpath value) in
    elim (Bool-cases (is_rooted value)) [
      | inr e ↦ absurd (err-ne-ok (simp e at h))
      | inl e ↦ elim (Bool-cases (any_of found roots)) [
        | inr n ↦ absurd (err-ne-ok (simp (e, n) at h))
        | inl y ↦
            let (root, m, below) = any_of-mem found roots y in
            let same_path : normpath value ≡ path = ok_eq (simp (e, y) at h) in
            rw (← same_path)
              ((root, m, at_or_below root (normpath value) below), normpath-IsNormal value e)
      ]
    ]

ne_of_same : (s t : Text) → same s t ≡ false → s ≢ t
ne_of_same s t h e = false≢true (sym h ∙ rw e (same_refl t))

-- What is made for a job is not at the top of a root.
abbrev pub IsInside : List Text → Purpose → Text → Type 0
IsInside roots for_inputs path = Unit
IsInside roots for_output path = All (λ root. dirname path ≢ rstrip_slash root) roots

is_inside :
    (roots : List Text) (purpose : Purpose) (path : Text)
    → (is_output purpose && any_of (λ root. same (dirname path) (rstrip_slash root)) roots) ≡ false
    → IsInside roots purpose path
is_inside roots for_inputs path h = tt
is_inside roots for_output path h =
    All-map (λ root e. ne_of_same (dirname path) (rstrip_slash root) e) roots
      (any_of-All (λ root. same (dirname path) (rstrip_slash root)) roots h)

-- A job's directory is accepted only as a normal path below storage that its jobs mount, and one
-- that it writes only if its parent is none of the roots.
pub data_path-IsBelow :
    (roots : List Text) (purpose : Purpose) (value path : Text)
    → data_path roots purpose value ≡ ok path
    → ((root : Text) × Memᴰ root roots
        × (r : Text) × (path ≡ (rstrip_slash root ++ slash ∷ []) ++ r))
      × IsNormal path
      × IsInside roots purpose path
unfolding data_path
data_path-IsBelow roots purpose value path h =
    let found = λ (root : Text). is_below root (normpath value) in
    let top =
      is_output purpose
      && any_of (λ root. same (dirname (normpath value)) (rstrip_slash root)) roots in
    elim (Bool-cases (is_rooted value)) [
      | inr e ↦ absurd (err-ne-ok (simp e at h))
      | inl e ↦ elim (Bool-cases (any_of found roots)) [
        | inr n ↦ absurd (err-ne-ok (simp (e, n) at h))
        | inl y ↦ elim (Bool-cases top) [
          | inl t ↦ absurd (err-ne-ok (simp (e, y, t) at h))
          | inr t ↦
              let (root, m, below) = any_of-mem found roots y in
              let (r, split_at) =
                starts_with→append (normpath value) (rstrip_slash root ++ slash ∷ [])
                  (unfold is_below in below) in
              let same_path : normpath value ≡ path = ok_eq (simp (e, y, t) at h) in
              rw (← same_path) (
                (root, m, r, split_at),
                normpath-IsNormal value e,
                is_inside roots purpose (normpath value) t,
              )
        ]
      ]
    ]
