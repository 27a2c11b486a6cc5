-- ===== src/MattermostAgent/Linking.antt =====
-- Linking of agent.py: who on Mattermost is who on the Hub. What the Hub answers comes with the call,
-- and so do the random texts that it draws; the file is what was last saved.
pub mod Traces
pub mod Origin
pub mod Single
use purdue_af.Common.{
  ℕ, ◌+◌, String, Bool, true, false, not, ◌&&◌, Option, none, some, List, [], ◌∷◌, ltb, leb,
  if◌then◌else◌, str_eq,
}
use purdue_af.Common.Exec.{Outcome, ok, err, Exec, ◌>>=◌, ◌>>◌, pure}
use purdue_af.Common.Dict.{Dict, get, put, remove}

pub record Linked : Type 0 where
  pub token : String
  pub token_id : String
  pub hub_user : String
  pub expires_at : ℕ

pub record Pending : Type 0 where
  pub user : String
  pub expires_at : ℕ

pub record Code : Type 0 where
  pub code : String
  pub oauth_token : String
  pub hub_user : String
  pub expires_at : ℕ
  pub attempts : ℕ

-- `file` is what the state file has.
pub record Linking : Type 0 where
  pub linked : Dict Linked
  pub pending : Dict Pending
  pub codes : Dict Code
  pub file : Dict Linked × Dict Pending

-- Any exception that a call of the Hub raises.
pub data Fault : Type 0 where
  fault : Fault

abbrev pub Run : Type 0 → Type 0
Run A = Exec Linking Fault A

abbrev pub edit : (Linking → Linking) → Run (Unit {0})
edit f s = (ok tt, f s)

abbrev pub answered : {A : Type 0} → Outcome Fault A → Run A
answered r s = (r, s)

unfoldable pub save : Run (Unit {0})
save s = (ok tt, record s { file = (s.linked, s.pending) })

-- Linking.__init__: the codes do not outlast the process.
unfoldable pub restart : Linking → Linking
restart s = record { linked = s.file.0; pending = s.file.1; codes = []; file = s.file }

abbrev pub forget_found : String → Option Linked → Run (Unit {0})
forget_found user none s = (ok tt, s)
forget_found user (some e) s = save (record s { linked = remove user s.linked })

-- Linking.forget: an entry is no empty dict.
unfoldable pub forget : String → Run (Unit {0})
forget user s = forget_found user (get user s.linked) s

abbrev pub live_token : ℕ → Option Linked → Option String
live_token now none = none
live_token now (some e) = if ltb now e.expires_at then some e.token else none

abbrev pub or_forget : String → Option String → Run (Option String)
or_forget user (some t) s = (ok (some t), s)
or_forget user none s = (ok none, (forget user s).1)

-- Linking.token
unfoldable pub token : String → ℕ → Run (Option String)
token user now s = or_forget user (live_token now (get user s.linked)) s

-- Linking.count
unfoldable pub count : ℕ → Dict Linked → ℕ
count now [] = 0
count now ((u, e) ∷ linked) = (if ltb now e.expires_at then 1 else 0) + count now linked

-- The links that are someone else's and have not run out.
unfoldable pub others : String → ℕ → Dict Pending → Dict Pending
others user now [] = []
others user now ((s, e) ∷ pending) =
    let rest = others user now pending in
    if not (str_eq e.user user) && ltb now e.expires_at then (s, e) ∷ rest else rest

-- Linking.link_url, with the random state of the link.
unfoldable pub link_url : String → String → ℕ → Run String
unfolding save
link_url user state now = do
  edit (λ s. record s {
    pending =
        put state (record { user = user; expires_at = now + 86400000 }) (others user now s.pending);
  })
  save
  pure state

abbrev pub is_live : ℕ → Option Pending → Bool
is_live now none = false
is_live now (some e) = ltb now e.expires_at

-- Linking.valid
unfoldable pub valid : String → ℕ → Linking → Bool
valid state now s = is_live now (get state s.pending)

-- What the Hub answers to a login, and the code that is drawn.
pub record Login : Type 0 where
  pub exchanged : Outcome Fault String
  pub owner : Outcome Fault (Option String)
  pub confirmation : String
  pub later : ℕ

unfoldable pub keep_code : String → Login → String → Option String → Run (Option String)
keep_code user a oauth_token none = pure none
keep_code user a oauth_token (some hub_user) = do
  edit (λ s. record s {
    codes =
        put user
          (record {
            code = a.confirmation;
            oauth_token = oauth_token;
            hub_user = hub_user;
            expires_at = a.later + 600000;
            attempts = 0;
          })
          s.codes;
  })
  pure (some a.confirmation)

unfoldable pub take_up : String → Login → Pending → Run (Option String)
unfolding save keep_code
take_up state a e = do
  edit (λ s. record s { pending = remove state s.pending })
  save
  oauth_token ← answered a.exchanged
  hub_user ← answered a.owner
  keep_code e.user a oauth_token hub_user

abbrev pub take_live : ℕ → String → Login → Option Pending → Run (Option String)
take_live now state a none = pure none
take_live now state a (some e) = if ltb now e.expires_at then take_up state a e else pure none

-- Linking.login
unfoldable pub login : String → ℕ → Login → Run (Option String)
unfolding take_up
login state now a s = take_live now state a (get state s.pending) s

-- What the Hub answers to a confirmation.
pub record Minting : Type 0 where
  pub minted : Outcome Fault (String × String)
  pub retired : Outcome Fault (Unit {0})
  pub later : ℕ

-- The links of other people to the same account are dropped.
unfoldable pub unlinked : String → Dict Linked → Dict Linked
unlinked hub_user [] = []
unlinked hub_user ((p, e) ∷ linked) =
    let rest = unlinked hub_user linked in
    if str_eq e.hub_user hub_user then rest else (p, e) ∷ rest

abbrev pub linked_of : Minting → Code → String × String → Linked
linked_of a e (token, token_id) = record {
  token = token;
  token_id = token_id;
  hub_user = e.hub_user;
  expires_at = a.later + 2592000000;
}

unfoldable pub keep_link : String → Minting → Code → String × String → Run (Option String)
unfolding save
keep_link user a e minted = do
  edit (λ s. record s { linked = put user (linked_of a e minted) (unlinked e.hub_user s.linked) })
  save
  pure (some e.hub_user)

unfoldable pub finish_link : String → Minting → Code → Run (Option String)
unfolding keep_link
finish_link user a e = do
  edit (λ s. record s { codes = remove user s.codes })
  minted ← answered a.minted
  answered a.retired
  keep_link user a e minted

-- A wrong code: the third one ends the link.
unfoldable pub count_attempt : String → Code → Run (Option String)
count_attempt user e s = (
  ok none,
  if leb 3 (e.attempts + 1)
      then record s { codes = remove user s.codes }
      else record s { codes = put user (record e { attempts = e.attempts + 1 }) s.codes },
)

abbrev pub confirm_code : String → String → ℕ → Minting → Option Code → Run (Option String)
confirm_code user code now a none s = (ok none, s)
confirm_code user code now a (some e) s =
    if leb e.expires_at now
    then (ok none, record s { codes = remove user s.codes })
    else if str_eq e.code code
    then finish_link user a e s
    else count_attempt user e s

-- Linking.confirm
unfoldable pub confirm : String → String → ℕ → Minting → Run (Option String)
unfolding finish_link count_attempt
confirm user code now a s = confirm_code user code now a (get user s.codes) s
