-- ===== src/LlmProxy/Load/Fair.antt =====
-- Proxy.forward of llm_proxy.py with the models and roles that `load` gave.
use purdue_af.Common.{
  ℕ, ◌<◌, ◌≡◌, sym, ap, ◌∙◌, subst, inl, inr, String, Bool, some, List, or_default, Option-cases,
  All, All-map,
}
use purdue_af.Common.Text.{Text}
use purdue_af.Common.Dict.{Dict, get, Each, Each-get}
use purdue_af.Common.Exec.{ok}
use purdue_af.LlmProxy.{Settings, Model, Backend, Role}
use purdue_af.LlmProxy.Forward.{Pass, forward}
use purdue_af.LlmProxy.Pick.{Request, Config, Sticky}
use purdue_af.LlmProxy.Forward.Fair.{IsFair, forward-IsFair}
use purdue_af.LlmProxy.Load.{Raw, load}
use purdue_af.LlmProxy.Load.Sound.{IsModelOf, IsRoleOf, load-IsSound}

-- The models of a loaded configuration; where the source has a KeyError, `d`.
abbrev pub loaded_config : Settings → ℕ → Dict Model → Model → Config
loaded_config settings bytes models d = record {
  settings = settings;
  bytes_per_token = bytes;
  model_of = λ name. or_default (get name models) d;
}

module _ (models : Dict Model) (d : Model) (each : Each IsModelOf models)
    (known : get d.name models ≡ some d) where
  found :
      (n : String) → (m : Model) × (get m.name models ≡ some m) × (or_default (get n models) d ≡ m)
  found n = elim (Option-cases (get n models)) [
    | inl e ↦ (d, known, ap (λ o. or_default o d) e)
    | inr (m, e) ↦ (
      m,
      subst (λ k. get k models ≡ some m) (sym (Each-get IsModelOf n m models each e).0) e,
      ap (λ o. or_default o d) e,
    )
  ]

  floors : (n : String) → 0 < (or_default (get n models) d).floor
  floors n =
      let (m, e, f) = found n in
      subst (λ (x : Model). 0 < x.floor) (sym f)
        (Each-get IsModelOf m.name m models each e).1.some_token

  named :
      (n : String)
      → or_default (get (or_default (get n models) d).name models) d ≡ or_default (get n models) d
  named n =
      let (m, e, f) = found n in
      subst (λ (x : Model). or_default (get x.name models) d ≡ x) (sym f)
        (ap (λ o. or_default o d) e)

-- Once models.toml is loaded, each backend of a role is of a model that was loaded; and whatever is
-- answered to a request for the role and however often it is tried, each try holds less of a gate
-- than the share of its model's context that a user may hold, and releases at once what it acquired.
pub loaded-IsFair :
    (raw : Raw) (models : Dict Model) (roles : Dict Role)
    → load raw ≡ ok (models, roles)
    → (d : Model) → get d.name models ≡ some d
    → (name : String) (role : Role) → get name roles ≡ some role
    → (settings : Settings) (bytes : ℕ) (is_json : Text → Bool) (deadline : ℕ) (q : Request)
      (ps : List Pass) (sticky : Sticky)
    → All
        (λ (b : Backend).
          get b.model models ≡ some ((loaded_config settings bytes models d).model_of b.model))
        role.backends
      × IsFair
          (loaded_config settings bytes models d)
          (forward (loaded_config settings bytes models d) is_json deadline role q ps sticky).1
loaded-IsFair raw models roles h d known name role e settings bytes is_json deadline q ps sticky =
    let (ms, rs) = load-IsSound raw models roles h in
    let served : IsRoleOf models name role = Each-get (IsRoleOf models) name role roles rs e in
    (
      All-map (λ b (m, f, _, _). f ∙ sym (ap (λ o. some (or_default o d)) f)) role.backends
          served.2,
      forward-IsFair (loaded_config settings bytes models d) is_json deadline role q
          (named models d ms known) (floors models d ms known) ps sticky,
    )
