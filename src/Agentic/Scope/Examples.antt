-- ===== src/Agentic/Scope/Examples.antt =====
-- Tests of Agentic/Scope's modules at concrete inputs.
use purdue_af.Common.{false, [], ◌∷◌, ◌++◌, ◌≡◌, refl, All, ◌↔◌, ◌⊎◌}
use purdue_af.Common.Text.{Text, codes, starts_with}
use purdue_af.Agentic.Regex.{nothing, dots, literal, none_of, cat, alt, Matches}
use purdue_af.Agentic.Scope.{
  Owned, walk, without_prefixes, add_prefixes, allowed_objects, user_prefixes,
}
use purdue_af.Agentic.Scope.Prefixes.{without_prefixes_iff}
use purdue_af.Agentic.Scope.Owners.{IsOwned, allowed_objects_iff}

-- The second prefix starts with the first: nothing is added below it.
one_letter :
    without_prefixes (codes "b" ∷ codes "bc" ∷ codes "ad" ∷ [])
    ≡ alt nothing (
        alt
          (cat (none_of (b'a' ∷ b'b' ∷ [])) dots)
          (cat (literal b'a') (alt nothing (cat (none_of (b'd' ∷ [])) dots))))
unfolding without_prefixes walk add_prefixes
one_letter = refl

without_prefixes_iff_example :
    Matches (without_prefixes (codes "b" ∷ codes "bc" ∷ codes "ad" ∷ [])) (codes "ac")
    ↔ All (λ p. starts_with (codes "ac") p ≡ false) (codes "b" ∷ codes "bc" ∷ codes "ad" ∷ [])
without_prefixes_iff_example =
    without_prefixes_iff (codes "b" ∷ codes "bc" ∷ codes "ad" ∷ []) (tt, (tt, (tt, tt)))
      (codes "ac") (refl, (refl, tt))

abbrev alice : Owned
alice = record {
  username = codes "alice";
  names = codes "purdue-af-7" ∷ [];
  dask_clusters = codes "a1" ∷ [];
}

allowed_objects_iff_example : Matches (allowed_objects alice) (codes "purdue-af-7") ↔ (
    All (λ p. starts_with (codes "purdue-af-7") p ≡ false) user_prefixes
    ⊎ (((b : Text) × (codes "purdue-af-7" ≡ codes "ray-train-gateway" ++ b))
        ⊎ IsOwned alice (codes "purdue-af-7")))
allowed_objects_iff_example =
    allowed_objects_iff alice (codes "purdue-af-7")
      (refl, (refl, (refl, (refl, (refl, (refl, (refl, (refl, (refl, (refl, (refl, tt)))))))))))
