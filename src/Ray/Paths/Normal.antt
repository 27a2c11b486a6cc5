-- ===== src/Ray/Paths/Normal.antt =====
-- What posixpath.normpath leaves of an absolute path: no empty component, no dot and no dot-dot.
use purdue_af.Common.{◌≡◌, refl, inl, inr, true, false, ◌||◌, List, [], ◌∷◌, arith, All, Bool-cases}
use purdue_af.Common.Text.{Text, IsFree, split-IsFree, same, starts_with, split}
use purdue_af.Ray.Paths.{
  slash, dot, dots, top_is_dots, pop, add_comp, add_comps, in_order, components,
}

abbrev pub IsClean : Text → Type 0
IsClean c = (same c [] ≡ false) × (same c dot ≡ false) × (same c dots ≡ false) × IsFree slash c

pop-IsClean : (new : List Text) → All IsClean new → All IsClean (pop new)
pop-IsClean [] h = tt
pop-IsClean (c ∷ cs) h = h.1

top_is_dots-IsClean : (new : List Text) → All IsClean new → top_is_dots new ≡ false
top_is_dots-IsClean [] h = refl
top_is_dots-IsClean (c ∷ cs) h = h.0.2

add_comp-IsClean :
    (new : List Text) (comp : Text)
    → All IsClean new
    → IsFree slash comp
    → All IsClean (add_comp true new comp)
unfolding add_comp
add_comp-IsClean new comp h f = elim (Bool-cases (same comp [] || same comp dot)) [
  | inl e ↦ simp e h
  | inr e ↦ elim (Bool-cases (same comp dots)) [
    | inl p ↦ simp (e, p, top_is_dots-IsClean new h) (pop-IsClean new h)
    | inr p ↦ simp (e, p) ((ground arith, ground arith, refl, f), h)
  ]
]

add_comps-IsClean :
    (new comps : List Text)
    → All IsClean new
    → All (IsFree slash) comps
    → All IsClean (add_comps true new comps)
unfolding add_comps
add_comps-IsClean new [] h f = h
add_comps-IsClean new (comp ∷ comps) h f =
    add_comps-IsClean (add_comp true new comp) comps (add_comp-IsClean new comp h f.0) f.1

in_order-IsClean :
    (cs done : List Text) → All IsClean cs → All IsClean done → All IsClean (in_order cs done)
unfolding in_order
in_order-IsClean [] done h d = d
in_order-IsClean (c ∷ cs) done h d = in_order-IsClean cs (c ∷ done) h.1 (h.0, d)

-- The components of a normalised absolute path are names.
pub components-IsClean :
    (path : Text) → starts_with path (slash ∷ []) ≡ true → All IsClean (components path)
unfolding components
components-IsClean path rooted = rw rooted (
    in_order-IsClean (add_comps true [] (split slash path)) []
      (add_comps-IsClean [] (split slash path) tt (split-IsFree slash path)) tt)
