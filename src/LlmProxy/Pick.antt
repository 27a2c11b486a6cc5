-- ===== src/LlmProxy/Pick.antt =====
-- Proxy's estimate, room, usable and pick of llm_proxy.py: the backend that a request goes to.
use purdue_af.Common.{
  ℕ, zero, suc, ◌+◌, ◌-◌, ◌*◌, ◌/◌, String, Bool, not, ◌&&◌, Option, none, some, List, [], ◌∷◌,
  ◌++◌, leb, if◌then◌else◌, str_eq, keep, any_of, length,
}
use purdue_af.LlmProxy.{Settings, Model, Backend, Role}

-- What the proxy reads of a request's body: its size, that of its images' data, how many those are,
-- and max_tokens and max_completion_tokens.
pub record Request : Type 0 where
  pub session : String
  pub size : ℕ
  pub pictures : ℕ
  pub images : ℕ
  pub max_tokens : Option ℕ
  pub max_completion_tokens : Option ℕ

-- `bytes_per_token` is in thousandths.
pub record Config : Type 0 where
  pub settings : Settings
  pub bytes_per_token : ℕ
  pub model_of : String → Model

unfoldable pub estimate : Config → Request → Model → ℕ
estimate c q m = (q.size - q.pictures) * 1000 / c.bytes_per_token + q.images * m.image_tokens

-- The share of a model's context that a user's requests may hold.
unfoldable pub share : Model → ℕ
share m = 35 * m.context / 100

-- Proxy.room: zero also where the source has less.
unfoldable pub room : ℕ → Model → ℕ
room prompt m = share m - prompt - 1

unfoldable pub usable : Config → Request → Backend → Bool
usable c q b = let m = c.model_of b.model in leb m.floor (room (estimate c q m) m)

abbrev pub same_backend : Backend → Backend → Bool
same_backend a b = str_eq a.model b.model && str_eq a.variant b.variant

-- Proxy.sticky: the backend of each role and session, the last used last.
abbrev pub Sticky : Type 0
Sticky = List ((String × String) × Backend)

abbrev pub same_key : String × String → String × String → Bool
same_key (r, s) (r', s') = str_eq r r' && str_eq s s'

unfoldable pub sticky_of : String × String → Sticky → Option Backend
sticky_of k [] = none
sticky_of k ((j, b) ∷ rest) = if same_key j k then some b else sticky_of k rest

unfoldable pub unstick : String × String → Sticky → Sticky
unstick k [] = []
unstick k ((j, b) ∷ sticky) =
    let rest = unstick k sticky in if same_key j k then rest else (j, b) ∷ rest

-- `popitem(last=False)`, a number of times
unfoldable pub drop_first : ℕ → Sticky → Sticky
drop_first zero sticky = sticky
drop_first (suc n) [] = []
drop_first (suc n) (e ∷ sticky) = drop_first n sticky

unfoldable pub stick : String × String → Backend → Sticky → Sticky
stick k b sticky =
    let added = unstick k sticky ++ (k, b) ∷ [] in drop_first (length added - 10000) added

unfoldable pub first_of : (Backend → Bool) → List Backend → Option Backend
first_of p [] = none
first_of p (b ∷ bs) = let rest = first_of p bs in if p b then some b else rest

abbrev pub or_backends : List Backend → List Backend → List Backend
or_backends [] t = t
or_backends (b ∷ s) t = b ∷ s

-- A role has a backend, as `load` checks; `none` is a role without.
abbrev pub head_or : Option Backend → List Backend → Option Backend
head_or (some b) bs = some b
head_or none [] = none
head_or none (b ∷ bs) = some b

module _ (fits : Backend → Bool) (healthy : String → Bool) (role : Role) where
  -- The backend that the session keeps to, while it is healthy and usable.
  unfoldable pub kept_backend : Option Backend → Option Backend
  kept_backend none = none
  kept_backend (some b) =
      if any_of (same_backend b) role.backends && (healthy b.model && fits b) then some b else none

  unfoldable pub choose : Option Backend
  choose =
      let candidates = or_backends (keep fits role.backends) role.backends in
      head_or (first_of (λ b. healthy b.model) candidates) candidates

  abbrev pub is_session : String → Bool
  is_session session = not (str_eq session "")

  unfoldable pub stick_to : String → Option Backend → Sticky → Sticky
  stick_to session none sticky = sticky
  stick_to session (some b) sticky =
      if is_session session then stick (role.name, session) b sticky else sticky

  abbrev pub or_choose : String → Sticky → Option Backend → Option Backend × Sticky
  or_choose session sticky (some b) = (some b, sticky)
  or_choose session sticky none = (choose, stick_to session choose sticky)

  -- Proxy.pick, and `sticky` afterwards.
  unfoldable pub pick : String → Sticky → Option Backend × Sticky
  pick session sticky =
      or_choose session sticky
        (kept_backend (if is_session session then sticky_of (role.name, session) sticky else none))
