-- ===== src/MattermostAgent/Linking/Traces.antt =====
-- What has happened to a Mattermost user's link, and what the state of Linking says of it.
use purdue_af.Common.{
  ℕ, ◌+◌, ◌≡◌, refl, ◌⊎◌, inl, inr, String, not, ◌&&◌, Option, none, some, List, [], ◌∷◌, ltb,
  str_eq, by_if,
}
use purdue_af.Common.Exec.{Outcome, ok, err, ◌>>=◌, pure, continue}
use purdue_af.Common.Dict.{Dict, get, put, Each, Each-map, Each-remove, Each-put, Each-get}
use purdue_af.MattermostAgent.Linking.{
  Run, Linking, Linked, Pending, Code, forget_found, or_forget, answered, Login, Minting, Fault,
  save, restart, forget, token, live_token, others, link_url, keep_code, take_up, take_live, login,
  unlinked, confirm,
}

-- What has happened, the last first: a link made for a user, a login with a link's state, a code
-- sent by a user.
pub data Event : Type 0 where
  made : String → String → Event
  logged : String → Login → Event
  sent : String → String → Event

-- The link with this state was made for the user.
abbrev pub MadeFor : String → String → List Event → Type 0
MadeFor user state [] = ⊥
MadeFor user state (e ∷ h) = (e ≡ made user state) ⊎ MadeFor user state h

-- The Hub account logged in with a link that had been made for the user, and was shown the code.
abbrev pub Shown : String → String → String → List Event → Type 0
Shown user hub_user code [] = ⊥
Shown user hub_user code (e ∷ h) =
    ((state : String) × (a : Login) × (e ≡ logged state a)
      × (a.owner ≡ ok (some hub_user))
      × (a.confirmation ≡ code)
      × MadeFor user state h)
    ⊎ Shown user hub_user code h

-- The user sent the code that the Hub account had been shown.
abbrev pub Agreed : String → String → List Event → Type 0
Agreed user hub_user [] = ⊥
Agreed user hub_user (e ∷ h) =
    ((code : String) × (e ≡ sent user code) × Shown user hub_user code h) ⊎ Agreed user hub_user h

pub record Trace : Type 0 where
  pub linking : Linking
  pub history : List Event

pub data Step (s t : Trace) : Type 0 where
  links :
      (user state : String) (now : ℕ)
      → t ≡ record {
        linking = (link_url user state now s.linking).1;
        history = made user state ∷ s.history;
      }
      → Step s t
  logs :
      (state : String) (now : ℕ) (a : Login)
      → t
        ≡ record { linking = (login state now a s.linking).1; history = logged state a ∷ s.history }
      → Step s t
  confirms :
      (user code : String) (now : ℕ) (a : Minting)
      → t ≡ record {
        linking = (confirm user code now a s.linking).1;
        history = sent user code ∷ s.history;
      }
      → Step s t
  reads :
      (user : String) (now : ℕ) → t ≡ record s { linking = (token user now s.linking).1 } → Step s t
  forgets : (user : String) → t ≡ record s { linking = (forget user s.linking).1 } → Step s t
  restarts : t ≡ record s { linking = restart s.linking } → Step s t

abbrev pub no_links : Linking
no_links = record { linked = []; pending = []; codes = []; file = ([], []) }

pub data Reach : Trace → Type 0 where
  start : Reach (record { linking = no_links; history = [] })
  next : {s t : Trace} → Reach s → Step s t → Reach t

abbrev pub LinksFrom : List Event → Dict Linked → Type 0
LinksFrom h = Each (λ u e. Agreed u e.hub_user h)

abbrev PendingFrom : List Event → Dict Pending → Type 0
PendingFrom h = Each (λ s e. MadeFor e.user s h)

abbrev CodesFrom : List Event → Dict Code → Type 0
CodesFrom h = Each (λ u c. Shown u c.hub_user c.code h)

pub record IsFrom (h : List Event) (s : Linking) : Type 0 where
  pub linked : LinksFrom h s.linked
  pub pending : PendingFrom h s.pending
  pub codes : CodesFrom h s.codes
  pub file_linked : LinksFrom h s.file.0
  pub file_pending : PendingFrom h s.file.1

-- What was so before an event is so after it.
pub IsFrom-event : (e : Event) (h : List Event) (s : Linking) → IsFrom h s → IsFrom (e ∷ h) s
IsFrom-event e h s k = record {
  linked = Each-map (λ u x p. inr p) s.linked k.linked;
  pending = Each-map (λ u x p. inr p) s.pending k.pending;
  codes = Each-map (λ u x p. inr p) s.codes k.codes;
  file_linked = Each-map (λ u x p. inr p) s.file.0 k.file_linked;
  file_pending = Each-map (λ u x p. inr p) s.file.1 k.file_pending;
}

module _ (h : List Event) (s : Linking) (k : IsFrom h s) where
  pub restart-IsFrom : IsFrom h (restart s)
  unfolding restart
  restart-IsFrom = record {
    linked = k.file_linked;
    pending = k.file_pending;
    codes = tt;
    file_linked = k.file_linked;
    file_pending = k.file_pending;
  }

  forget_found-IsFrom : (user : String) (o : Option Linked) → IsFrom h (forget_found user o s).1
  unfolding save
  forget_found-IsFrom user none = k
  forget_found-IsFrom user (some e) = record {
    linked = Each-remove _ user s.linked k.linked;
    pending = k.pending;
    codes = k.codes;
    file_linked = Each-remove _ user s.linked k.linked;
    file_pending = k.pending;
  }

  pub forget-IsFrom : (user : String) → IsFrom h (forget user s).1
  unfolding forget
  forget-IsFrom user = forget_found-IsFrom user (get user s.linked)

  or_forget-IsFrom : (user : String) (o : Option String) → IsFrom h (or_forget user o s).1
  or_forget-IsFrom user (some t) = k
  or_forget-IsFrom user none = forget-IsFrom user

  pub token-IsFrom : (user : String) (now : ℕ) → IsFrom h (token user now s).1
  unfolding token
  token-IsFrom user now = or_forget-IsFrom user (live_token now (get user s.linked))

others-PendingFrom :
    (h : List Event) (user : String) (now : ℕ) (m : Dict Pending)
    → PendingFrom h m
    → PendingFrom h (others user now m)
unfolding others
others-PendingFrom h user now [] k = tt
others-PendingFrom h user now ((s, e) ∷ m) k =
    by_if (PendingFrom h) (not (str_eq e.user user) && ltb now e.expires_at)
      ((s, e) ∷ others user now m) (others user now m)
      (λ _. (k.0, others-PendingFrom h user now m k.1)) (λ _. others-PendingFrom h user now m k.1)

pub link_url-IsFrom :
    (h : List Event) (s : Linking) (user state : String) (now : ℕ)
    → IsFrom h s
    → IsFrom (made user state ∷ h) (link_url user state now s).1
unfolding link_url
link_url-IsFrom h s user state now k' =
    let k = IsFrom-event (made user state) h s k' in
    let p : PendingFrom (made user state ∷ h) (
        put state (record { user = user; expires_at = now + 86400000 })
          (others user now s.pending)) =
      Each-put _ state (record { user = user; expires_at = now + 86400000 })
        (others user now s.pending) (inl refl)
        (others-PendingFrom (made user state ∷ h) user now s.pending k.pending) in
    record {
      linked = k.linked;
      pending = p;
      codes = k.codes;
      file_linked = k.linked;
      file_pending = p;
    }

module _ (h : List Event) (state : String) (a : Login) (user : String)
    (made_for : MadeFor user state h) where
  keep_code-IsFrom :
      (t : String) (s : Linking) (o : Option String)
      → a.owner ≡ ok o
      → IsFrom (logged state a ∷ h) s
      → IsFrom (logged state a ∷ h) (keep_code user a t o s).1
  unfolding keep_code
  keep_code-IsFrom t s none e k = k
  keep_code-IsFrom t s (some hub_user) e k = record {
    linked = k.linked;
    pending = k.pending;
    codes = Each-put _ user _ s.codes (inl (state, a, refl, e, refl, made_for)) k.codes;
    file_linked = k.file_linked;
    file_pending = k.file_pending;
  }

  owned-IsFrom :
      (t : String) (s : Linking) (o : Outcome Fault (Option String))
      → a.owner ≡ o
      → IsFrom (logged state a ∷ h) s
      → IsFrom (logged state a ∷ h) (continue o (keep_code user a t) s).1
  owned-IsFrom t s (ok o) e k = keep_code-IsFrom t s o e k
  owned-IsFrom t s (err f) e k = k

  exchanged-IsFrom :
      (s : Linking) (x : Outcome Fault String)
      → IsFrom (logged state a ∷ h) s
      → IsFrom (logged state a ∷ h) (continue x (λ t. answered a.owner >>= keep_code user a t) s).1
  exchanged-IsFrom s (ok t) k = owned-IsFrom t s a.owner refl k
  exchanged-IsFrom s (err f) k = k

pub take_live-IsFrom :
    (h : List Event) (now : ℕ) (state : String) (a : Login) (s : Linking) (o : Option Pending)
    → IsFrom h s
    → get state s.pending ≡ o
    → IsFrom (logged state a ∷ h) (take_live now state a o s).1
unfolding take_up save
take_live-IsFrom h now state a s none k e = IsFrom-event _ h s k
take_live-IsFrom h now state a s (some x) k' e =
    by_if (λ (m : Run (Option String)). IsFrom (logged state a ∷ h) (m s).1) (ltb now x.expires_at)
      (take_up state a x) (pure none)
      (λ _.
        exchanged-IsFrom h state a x.user (Each-get _ state x s.pending k'.pending e) _ a.exchanged
          (record {
            linked = k.linked;
            pending = Each-remove _ state s.pending k.pending;
            codes = k.codes;
            file_linked = k.linked;
            file_pending = Each-remove _ state s.pending k.pending;
          }))
      (λ _. k)
  where
    k : IsFrom (logged state a ∷ h) s
    k = IsFrom-event (logged state a) h s k'

pub unlinked-LinksFrom :
    (h : List Event) (hub_user : String) (m : Dict Linked)
    → LinksFrom h m
    → LinksFrom h (unlinked hub_user m)
unfolding unlinked
unlinked-LinksFrom h hub_user [] k = tt
unlinked-LinksFrom h hub_user ((p, e) ∷ m) k =
    by_if (LinksFrom h) (str_eq e.hub_user hub_user) (unlinked hub_user m)
      ((p, e) ∷ unlinked hub_user m) (λ _. unlinked-LinksFrom h hub_user m k.1)
      (λ _. (k.0, unlinked-LinksFrom h hub_user m k.1))
