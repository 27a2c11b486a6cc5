-- ===== src/Agentic/Scope/Owners.antt =====
-- Whose objects the label matchers of promql_scope.py let a query see.
use purdue_af.Common.{
  Bool, true, false, List, [], ◌∷◌, ◌++◌, map, ◌≡◌, refl, sym, subst, ◌↔◌, ◌⊎◌, inl, inr, All,
}
use mathlib.Core.List.{Memᴰ}
use purdue_af.Common.Text.{Text, IsFree, codes, starts_with}
use purdue_af.Agentic.Regex.{dots, text_of, Matches}
use purdue_af.Agentic.Scope.{
  without_prefixes, user_prefixes, Owned, dask_name, object_names, shared_part, allowed_objects,
}
use purdue_af.Agentic.Scope.Prefixes.{IsWord, without_prefixes_iff}
use purdue_af.Agentic.Scope.DaskNames.{
  text_of_iff, after_text_iff, IsFree-rest, AnyOf, joined_iff, AnyOf-append, AnyOf-map, IsDaskName,
  dask_name_iff,
}

-- The name is one of the caller's own objects, or that of an object of one of their Dask clusters.
abbrev pub IsOwned : Owned → Text → Type 0
IsOwned owned s = Memᴰ s owned.names ⊎ ((c : Text) × Memᴰ c owned.dask_clusters × IsDaskName c s)

object_names_iff :
    (owned : Owned) (s : Text) → IsFree 10 s → AnyOf (object_names owned) s ↔ IsOwned owned s
unfolding object_names
object_names_iff owned s free =
    let parts = AnyOf-append (map text_of owned.names) (map dask_name owned.dask_clusters) s in
    let names = AnyOf-map text_of owned.names s in
    let clusters = AnyOf-map dask_name owned.dask_clusters s in
    (
      (λ m. elim (parts.0 m) [
        | inl a ↦
            let (x, mem, t) = names.0 a in
            inl (subst (λ z. Memᴰ z owned.names) (sym ((text_of_iff x s).0 t)) mem)
        | inr b ↦ let (c, mem, d) = clusters.0 b in inr (c, mem, (dask_name_iff c s free).0 d)
      ]),
      (λ h. elim h [
        | inl mem ↦ parts.1 (inl (names.1 (s, mem, (text_of_iff s s).1 refl)))
        | inr (c, mem, d) ↦ parts.1 (inr (clusters.1 (c, mem, (dask_name_iff c s free).1 d)))
      ]),
    )

all_words : List Text → Bool
all_words [] = true
all_words ([] ∷ ps) = false
all_words ((c ∷ p) ∷ ps) = all_words ps

all_words-IsWord : (ps : List Text) → all_words ps ≡ true → All IsWord ps
unfolding all_words
all_words-IsWord [] e = tt
all_words-IsWord ([] ∷ ps) e = cc
all_words-IsWord ((c ∷ p) ∷ ps) e = (tt, all_words-IsWord ps e)

user_prefixes-IsWord : All IsWord user_prefixes
unfolding user_prefixes all_words
user_prefixes-IsWord = all_words-IsWord user_prefixes refl

gateway_iff :
    (s : Text)
    → IsFree 10 s
    → Matches (shared_part (codes "ray-train-gateway")) s
      ↔ ((b : Text) × (s ≡ codes "ray-train-gateway" ++ b))
unfolding shared_part
gateway_iff s free =
    let part = after_text_iff (codes "ray-train-gateway") dots s in
    (
      (λ m. let (b, e, d) = part.0 m in (b, e)),
      (λ (b, e).
          part.1 (b, e, IsFree-rest (codes "ray-train-gateway") b (subst (IsFree 10) e free))),
    )

-- The value, of one line, of a label that names an object: a selector of the caller's query matches it
-- exactly if it starts with none of the prefixes of a person's objects, or starts as the gateway's own
-- objects do, or is one of the caller's pods, claims or volumes, or an object of one of their Dask
-- clusters.
pub allowed_objects_iff :
    (owned : Owned) (s : Text)
    → IsFree 10 s
    → Matches (allowed_objects owned) s ↔ (
        All (λ p. starts_with s p ≡ false) user_prefixes
        ⊎ (((b : Text) × (s ≡ codes "ray-train-gateway" ++ b)) ⊎ IsOwned owned s))
unfolding allowed_objects AnyOf
allowed_objects_iff owned s free =
    let all_parts =
      joined_iff (without_prefixes user_prefixes)
        (shared_part (codes "ray-train-gateway") ∷ object_names owned) s in
    let nobodys = without_prefixes_iff user_prefixes user_prefixes-IsWord s free in
    let gateways = gateway_iff s free in
    let own = object_names_iff owned s free in
    (
      (λ m. elim (all_parts.0 m) [
        | inl a ↦ inl (nobodys.0 a)
        | inr (inl g) ↦ inr (inl (gateways.0 g))
        | inr (inr o) ↦ inr (inr (own.0 o))
      ]),
      (λ h. elim h [
        | inl a ↦ all_parts.1 (inl (nobodys.1 a))
        | inr (inl g) ↦ all_parts.1 (inr (inl (gateways.1 g)))
        | inr (inr o) ↦ all_parts.1 (inr (inr (own.1 o)))
      ]),
    )
