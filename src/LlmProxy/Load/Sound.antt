-- ===== src/LlmProxy/Load/Sound.antt =====
-- What load of llm_proxy.py has checked of models.toml.
use purdue_af.Common.{
  ℕ, ◌<◌, ◌≡◌, ◌≢◌, refl, subst, ◌⊎◌, inl, inr, String, Bool, true, not, ◌&&◌, ◌||◌, some, List, [],
  ◌∷◌, ltb, leb, ◌==◌, str_eq, eq_iff, text_in, All, arith, leb→le, ltb→lt, true≢false, cons≢nil,
  sym,
}
use purdue_af.Common.Dict.{Dict, get, put, Each, Each-put}
use purdue_af.Common.Exec.{Outcome, ok}
use purdue_af.Common.Result.{◌>>◌, check, or_refuse, after_ok, check-ok, or_refuse-ok, ok_eq}
use purdue_af.LlmProxy.{Model, Backend, Role, IsChecked}
use purdue_af.LlmProxy.Load.{
  bad_slots, bad_max_tokens, no_model, no_variant, no_images, no_backends, is_none, ConfigError,
  Raw, RawModel, RawRole, before_hash, after_hash, read_model, load_model, load_models,
  load_backend, load_backends, load_role, load_roles, load,
}

abbrev pub IsModelOf : String → Model → Type 0
IsModelOf name m = (m.name ≡ name) × IsChecked m

-- A loaded model serves the backend: it has the variant, if one is named, and takes images if the
-- role does.
abbrev pub IsServed : Dict Model → ℕ → Backend → Type 0
IsServed models images b =
    (m : Model) × (get b.model models ≡ some m)
    × ((b.variant ≡ "") ⊎ (text_in b.variant m.variants ≡ true))
    × ((images ≡ 0) ⊎ (0 < m.image_tokens))

abbrev pub IsRoleOf : Dict Model → String → Role → Type 0
IsRoleOf models name r =
    (r.name ≡ name) × (r.backends ≢ []) × All (IsServed models r.images) r.backends

and_both : (a b : Bool) → (a && b) ≡ true → (a ≡ true) × (b ≡ true)
and_both a b h = (ground arith, ground arith)

read_model-IsModelOf :
    (raw : Raw) (name : String) (t : RawModel)
    → (leb 1 t.slots.0 && leb t.slots.0 t.slots.1) ≡ true
    → (ltb 0 t.max_tokens.0 && leb t.max_tokens.0 t.max_tokens.1) ≡ true
    → IsModelOf name (read_model raw name t)
unfolding read_model
read_model-IsModelOf raw name t h k =
    let (a, b) = and_both _ _ h in
    let (c, d) = and_both _ _ k in
    (
      refl,
      record {
        some_slot = leb→le _ _ a;
        start_most = leb→le _ _ b;
        some_token = ltb→lt _ _ c;
        floor_ceiling = leb→le _ _ d;
      },
    )

or_either : (a b : Bool) → (a || b) ≡ true → (a ≡ true) ⊎ (b ≡ true)
or_either a b h = ground arith

load_model-IsModelOf :
    (raw : Raw) (name : String) (t : RawModel) (m : Model)
    → load_model raw name t ≡ ok m
    → IsModelOf name m
unfolding load_model read_model
load_model-IsModelOf raw name t m h = after_ok (slots >> tokens) _ m h (λ u both done.
    after_ok slots _ u both (λ v a b.
      subst (IsModelOf name) (ok_eq (read_model raw name t) m done)
        (read_model-IsModelOf raw name t (check-ok _ _ a) (check-ok _ _ b))))
  where
    slots : Outcome ConfigError (Unit {0})
    slots = check (leb 1 t.slots.0 && leb t.slots.0 t.slots.1) (bad_slots name)

    tokens : Outcome ConfigError (Unit {0})
    tokens = check (ltb 0 t.max_tokens.0 && leb t.max_tokens.0 t.max_tokens.1) (bad_max_tokens name)

load_models-Each :
    (raw : Raw) (ts : Dict RawModel) (before models : Dict Model)
    → Each IsModelOf before
    → load_models raw ts before ≡ ok models
    → Each IsModelOf models
unfolding load_models
load_models-Each raw [] before models k h = subst (Each IsModelOf) (ok_eq before models h) k
load_models-Each raw ((name, t) ∷ ts) before models k h =
    after_ok (load_model raw name t) _ models h (λ m loaded rest.
      load_models-Each raw ts (put name m before) models
        (Each-put IsModelOf name m before (load_model-IsModelOf raw name t m loaded) k) rest)

module _ (models : Dict Model) (name : String) (r : RawRole) where
  load_backend-IsServed :
      (entry : String) (b : Backend)
      → load_backend models name r entry ≡ ok b
      → IsServed models r.images b
  unfolding load_backend
  load_backend-IsServed entry b h =
      after_ok (or_refuse (get model_name models) (no_model name model_name)) _ b h (λ m found rest.
        after_ok (has_variant m >> has_images m) _ b rest (λ u both done.
          after_ok (has_variant m) _ u both (λ v one two.
            subst (IsServed models r.images) (ok_eq _ b done) (
              m,
              or_refuse-ok _ _ m found,
              named m (or_either _ _ (check-ok _ _ one)),
              shown r.images m.image_tokens (check-ok _ _ two),
            ))))
    where
      model_name : String
      model_name = before_hash entry

      variant : String
      variant = after_hash entry

      has_variant : Model → Outcome ConfigError (Unit {0})
      has_variant m =
          check (str_eq variant "" || text_in variant m.variants)
            (no_variant name model_name variant)

      has_images : Model → Outcome ConfigError (Unit {0})
      has_images m = check (r.images == 0 || not (m.image_tokens == 0)) (no_images name model_name)

      named :
          (m : Model)
          → (str_eq variant "" ≡ true) ⊎ (text_in variant m.variants ≡ true)
          → (variant ≡ "") ⊎ (text_in variant m.variants ≡ true)
      named m (inl e) = inl ((eq_iff variant "").0 e)
      named m (inr e) = inr e

      shown : (i k : ℕ) → (i == 0 || not (k == 0)) ≡ true → (i ≡ 0) ⊎ (0 < k)
      shown i k h = ground arith

  load_backends-All :
      (entries : List String) (bs : List Backend)
      → load_backends models name r entries ≡ ok bs
      → All (IsServed models r.images) bs
  unfolding load_backends
  load_backends-All [] bs h = subst (All (IsServed models r.images)) (ok_eq [] bs h) tt
  load_backends-All (entry ∷ entries) bs h =
      after_ok (load_backend models name r entry) _ bs h (λ b one rest.
        after_ok (load_backends models name r entries) _ bs rest (λ others all done.
          subst (All (IsServed models r.images)) (ok_eq (b ∷ others) bs done)
            (load_backend-IsServed entry b one, load_backends-All entries others all)))

  some_backend : (bs : List Backend) → not (is_none bs) ≡ true → bs ≢ []
  some_backend [] h e = absurd (true≢false (sym h))
  some_backend (b ∷ bs) h e = cons≢nil e

  load_role-IsRoleOf : (role : Role) → load_role models name r ≡ ok role → IsRoleOf models name role
  unfolding load_role
  load_role-IsRoleOf role h =
      after_ok (load_backends models name r r.backends) _ role h (λ bs served rest.
        after_ok (check (not (is_none bs)) (no_backends name)) _ role rest (λ u some_one done.
          subst (IsRoleOf models name) (ok_eq _ role done) (
            refl,
            some_backend bs (check-ok _ _ some_one),
            load_backends-All r.backends bs served,
          )))

load_roles-Each :
    (models : Dict Model) (ts : Dict RawRole) (before roles : Dict Role)
    → Each (IsRoleOf models) before
    → load_roles models ts before ≡ ok roles
    → Each (IsRoleOf models) roles
unfolding load_roles
load_roles-Each models [] before roles k h = subst (Each (IsRoleOf models)) (ok_eq before roles h) k
load_roles-Each models ((name, t) ∷ ts) before roles k h =
    after_ok (load_role models name t) _ roles h (λ r loaded rest.
      load_roles-Each models ts (put name r before) roles
        (Each-put (IsRoleOf models) name r before (load_role-IsRoleOf models name t r loaded) k)
        rest)

-- Each model that is loaded has its name, and slots and bounds of max_tokens that are in order; each
-- role has its name and a backend, and each of its backends is a loaded model that has the variant
-- that is named, if any, and takes images if the role does.
pub load-IsSound :
    (raw : Raw) (models : Dict Model) (roles : Dict Role)
    → load raw ≡ ok (models, roles)
    → Each IsModelOf models × Each (IsRoleOf models) roles
unfolding load
load-IsSound raw models roles h =
    after_ok (load_models raw raw.models []) _ (models, roles) h
      (λ ms loaded rest.
        after_ok (load_roles ms raw.roles []) _ (models, roles) rest
          (λ rs served done.
            let e : Path (Dict Model × Dict Role) (ms, rs) (models, roles) = ok_eq _ _ done in
            subst (λ (x : Dict Model × Dict Role). Each IsModelOf x.0 × Each (IsRoleOf x.0) x.1) e
              (
                load_models-Each raw raw.models [] ms tt loaded,
                load_roles-Each ms raw.roles [] rs tt served,
              )))
