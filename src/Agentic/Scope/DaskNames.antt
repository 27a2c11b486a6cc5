-- ===== src/Agentic/Scope/DaskNames.antt =====
-- The names of a Dask cluster's objects, and the regular expression that matches them.
use purdue_af.Common.{List, [], ◌∷◌, ◌++◌, map, ◌≡◌, refl, ◌∙◌, ap, subst, ◌↔◌, ◌⊎◌, inl, inr}
use mathlib.Core.List.{Memᴰ}
use purdue_af.Common.Text.{Text, IsFree, codes}
use purdue_af.Agentic.Regex.{Regex, nothing, dots, literal, cat, alt, text_of, Matches}
use purdue_af.Agentic.Scope.{dask_kinds, dask_name, joined}

pub text_of_iff : (p s : Text) → Matches (text_of p) s ↔ (s ≡ p)
text_of_iff [] s = ((λ e. e), (λ e. e))
text_of_iff (c ∷ p) s = (
  (λ (a, b, e, f, m). e ∙ ap (λ y. y ++ b) f ∙ ap (λ y. c ∷ y) ((text_of_iff p b).0 m)),
  (λ e. (c ∷ [], p, e, refl, (text_of_iff p p).1 refl)),
)

pub after_text_iff :
    (p : Text) (r : Regex) (s : Text)
    → Matches (cat (text_of p) r) s ↔ ((b : Text) × (s ≡ p ++ b) × Matches r b)
after_text_iff p r s = (
  (λ (a, b, e, m, n). (b, e ∙ ap (λ y. y ++ b) ((text_of_iff p a).0 m), n)),
  (λ (b, e, n). (p, b, e, (text_of_iff p p).1 refl, n)),
)

pub IsFree-rest : (p b : Text) → IsFree 10 (p ++ b) → IsFree 10 b
IsFree-rest [] b h = h
IsFree-rest (c ∷ p) b h = IsFree-rest p b h.1

-- One of the expressions matches.
unfoldable pub AnyOf : List Regex → Text → Type 0
AnyOf [] s = ⊥
AnyOf (r ∷ parts) s = Matches r s ⊎ AnyOf parts s

pub joined_iff :
    (r : Regex) (parts : List Regex) (s : Text)
    → Matches (joined r parts) s ↔ (Matches r s ⊎ AnyOf parts s)
unfolding AnyOf
joined_iff r [] s = ((λ m. inl m), (λ h. elim h [ inl m ↦ m | inr e ↦ absurd e ]))
joined_iff r (q ∷ parts) s =
    let rest = joined_iff q parts s in
    (
      (λ m. elim m [ inl a ↦ inl a | inr b ↦ inr (rest.0 b) ]),
      (λ h. elim h [ inl a ↦ inl a | inr b ↦ inr (rest.1 b) ]),
    )

pub AnyOf-append : (a b : List Regex) (s : Text) → AnyOf (a ++ b) s ↔ (AnyOf a s ⊎ AnyOf b s)
unfolding AnyOf
AnyOf-append [] b s = ((λ m. inr m), (λ h. elim h [ inl e ↦ absurd e | inr m ↦ m ]))
AnyOf-append (r ∷ a) b s =
    let rest = AnyOf-append a b s in
    (
      (λ m. elim m [
        | inl x ↦ inl (inl x)
        | inr y ↦ elim (rest.0 y) [ inl x ↦ inl (inr x) | inr z ↦ inr z ]
      ]),
      (λ h. elim h [
        | inl (inl x) ↦ inl x
        | inl (inr x) ↦ inr (rest.1 (inl x))
        | inr z ↦ inr (rest.1 (inr z))
      ]),
    )

-- One of the texts is such that its expression matches.
pub AnyOf-map :
    (f : Text → Regex) (xs : List Text) (s : Text)
    → AnyOf (map f xs) s ↔ ((x : Text) × Memᴰ x xs × Matches (f x) s)
unfolding AnyOf
AnyOf-map f [] s = ((λ e. absurd e), (λ (x, m, e). elim m [ ]))
AnyOf-map f (y ∷ xs) s =
    let rest = AnyOf-map f xs s in
    (
      (λ h. elim h [
        | inl m ↦ (y, Memᴰ.head refl, m)
        | inr a ↦ let (x, m, e) = rest.0 a in (x, Memᴰ.tail m, e)
      ]),
      back rest.1,
    )
  where
    back :
        (((x : Text) × Memᴰ x xs × Matches (f x) s) → AnyOf (map f xs) s)
        → ((x : Text) × Memᴰ x (y ∷ xs) × Matches (f x) s)
        → Matches (f y) s ⊎ AnyOf (map f xs) s
    back rest (x, Memᴰ.head e, m) = inl (subst (λ z. Matches (f z) s) e m)
    back rest (x, Memᴰ.tail t, m) = inr (rest (x, t, m))

-- A name of a Dask cluster's object: "dask-", what kind it is, the cluster, and what follows a "-".
abbrev pub IsKind : Text → Type 0
IsKind kind =
    (kind ≡ [])
    ⊎ ((kind ≡ codes "scheduler-") ⊎ ((kind ≡ codes "worker-") ⊎ (kind ≡ codes "credentials-")))

abbrev pub IsEnd : Text → Type 0
IsEnd rest = (rest ≡ []) ⊎ ((r : Text) × (rest ≡ b'-' ∷ r))

pub record IsDaskName (cluster s : Text) : Type 0 where
  pub kind : Text
  pub rest : Text
  pub is_kind : IsKind kind
  pub is_end : IsEnd rest
  pub spelled : s ≡ codes "dask-" ++ (kind ++ (cluster ++ rest))

IsEnd-iff :
    (rest : Text)
    → IsFree 10 rest
    → Matches (alt (cat (literal b'-') dots) nothing) rest ↔ IsEnd rest
IsEnd-iff rest free = (
  (λ m. elim m [ inl (a, b, e, f, d) ↦ inr (b, e ∙ ap (λ y. y ++ b) f) | inr e ↦ inl e ]),
  (λ h. elim h [
    | inl e ↦ inr e
    | inr (r, e) ↦ inl (b'-' ∷ [], r, e, refl, IsFree-rest (b'-' ∷ []) r (subst (IsFree 10) e free))
  ]),
)

IsKind-iff : (kind : Text) → Matches (alt dask_kinds nothing) kind ↔ IsKind kind
IsKind-iff kind = (
  (λ m. elim m [
    | inl (inl a) ↦ inr (inl ((text_of_iff (codes "scheduler-") kind).0 a))
    | inl (inr (inl b)) ↦ inr (inr (inl ((text_of_iff (codes "worker-") kind).0 b)))
    | inl (inr (inr c)) ↦ inr (inr (inr ((text_of_iff (codes "credentials-") kind).0 c)))
    | inr e ↦ inl e
  ]),
  (λ h. elim h [
    | inl e ↦ inr e
    | inr (inl a) ↦ inl (inl ((text_of_iff (codes "scheduler-") kind).1 a))
    | inr (inr (inl b)) ↦ inl (inr (inl ((text_of_iff (codes "worker-") kind).1 b)))
    | inr (inr (inr c)) ↦ inl (inr (inr ((text_of_iff (codes "credentials-") kind).1 c)))
  ]),
)

pub dask_name_iff :
    (cluster s : Text) → IsFree 10 s → Matches (dask_name cluster) s ↔ IsDaskName cluster s
unfolding dask_name
dask_name_iff cluster s free = (to, from)
  where
    dash : Text
    dash = codes "dask-"

    after_kind : Regex
    after_kind = cat (text_of cluster) (alt (cat (literal b'-') dots) nothing)

    free_end : (kind rest : Text) → s ≡ dash ++ (kind ++ (cluster ++ rest)) → IsFree 10 rest
    free_end kind rest e = IsFree-rest cluster rest (
        IsFree-rest kind (cluster ++ rest)
          (IsFree-rest dash (kind ++ (cluster ++ rest)) (subst (IsFree 10) e free)))

    to : Matches (dask_name cluster) s → IsDaskName cluster s
    to m =
        let (b, e, (kind, c, f, k, n)) =
          (after_text_iff dash (cat (alt dask_kinds nothing) after_kind) s).0 m in
        let (rest, g, t) = (after_text_iff cluster (alt (cat (literal b'-') dots) nothing) c).0 n in
        let whole : s ≡ dash ++ (kind ++ (cluster ++ rest)) =
          e ∙ ap (λ y. dash ++ y) (f ∙ ap (λ y. kind ++ y) g) in
        record {
          kind = kind;
          rest = rest;
          is_kind = (IsKind-iff kind).0 k;
          is_end = (IsEnd-iff rest (free_end kind rest whole)).0 t;
          spelled = whole;
        }

    from : IsDaskName cluster s → Matches (dask_name cluster) s
    from d = (after_text_iff dash (cat (alt dask_kinds nothing) after_kind) s).1 (
      d.kind ++ (cluster ++ d.rest),
      d.spelled,
      (
        d.kind,
        cluster ++ d.rest,
        refl,
        (IsKind-iff d.kind).1 d.is_kind,
        (after_text_iff cluster (alt (cat (literal b'-') dots) nothing) (cluster ++ d.rest)).1
            (d.rest, refl, (IsEnd-iff d.rest (free_end d.kind d.rest d.spelled)).1 d.is_end),
      ),
    )
