-- ===== src/MattermostAgent/Posts.antt =====
-- Agent's wanted, by_a_person, replies_to_bot, private and thread_messages of agent.py: which posts
-- are answered, and what of a thread is read. `me` is the agent's own user id; what the regular
-- expressions of a name find in a text, and the text without mentions, are parameters.
use purdue_af.Common.{
  ℕ, zero, suc, ◌-◌, String, Bool, true, false, not, ◌&&◌, ◌||◌, List, [], ◌∷◌, keep, any_of,
  text_in, ltb, leb, if◌then◌else◌, str_eq, length,
}
use purdue_af.Common.Text.{Text, strip}

-- `deleted` is whether delete_at is set, `from_bot` what the post's props say.
pub record Post : Type 0 where
  pub id : String
  pub user : String
  pub channel : String
  pub root : String
  pub message : Text
  pub created : ℕ
  pub deleted : Bool
  pub type : String
  pub from_bot : Bool

-- The agent's channels: those of direct messages, and those of groups.
pub record Channels : Type 0 where
  pub direct : List String
  pub groups : List String

unfoldable pub private : Channels → Post → Bool
private ch p = text_in p.channel ch.direct || text_in p.channel ch.groups

unfoldable pub by_a_person : String → ℕ → Post → Bool
by_a_person me cursor p =
    ltb cursor p.created
    && (not p.deleted && (str_eq p.type "" && (not (str_eq p.user me) && not p.from_bot)))

unfoldable pub wanted : (Text → Bool) → Channels → String → ℕ → Post → Bool
wanted mentions ch me cursor p =
    by_a_person me cursor p && (text_in p.channel ch.direct || mentions p.message)

-- `thread` is what Mattermost gives of the post's thread.
unfoldable pub replies_to_bot : (Text → Bool) → String → ℕ → List Post → Post → Bool
replies_to_bot names me cursor thread p =
    not (str_eq p.root "")
    && (by_a_person me cursor p
        && (not (names p.message) && any_of (λ (t : Post). str_eq t.user me) thread))

-- `items[-n:]`
unfoldable pub drop : {A : Type 0} → ℕ → List A → List A
drop zero xs = xs
drop (suc n) [] = []
drop (suc n) (x ∷ xs) = drop n xs

unfoldable pub last : {A : Type 0} → ℕ → List A → List A
last n xs = drop (length xs - n) xs

-- `text[:n]`
unfoldable pub cut : ℕ → Text → Text
cut zero t = []
cut (suc n) [] = []
cut (suc n) (c ∷ t) = c ∷ cut n t

pub data Speaker : Type 0 where
  assistant user : Speaker

pub record Said : Type 0 where
  pub role : Speaker
  pub content : Text

abbrev pub is_empty : Text → Bool
is_empty [] = true
is_empty (c ∷ t) = false

module _ (unmentioned : Text → Text) (me : String) where
  unfoldable pub said_by : Post → Said
  said_by p = record {
    role = if str_eq p.user me then assistant else user;
    content = cut 4000 (strip (unmentioned p.message));
  }

  unfoldable pub messages_of : List Post → List Said
  messages_of [] = []
  messages_of (p ∷ ps) =
      let rest = messages_of ps in
      if not (is_empty (said_by p).content) && str_eq p.type "" then said_by p ∷ rest else rest

  -- The posts up to the question, with nobody else's text for `only_author`.
  unfoldable pub earlier : List Post → Post → Bool → List Post
  earlier thread p only_author =
      let before = keep (λ (t : Post). leb t.created p.created) thread in
      if only_author
      then keep (λ (t : Post). str_eq t.user p.user || str_eq t.user me) before
      else before

  unfoldable pub thread_messages : List Post → Post → Bool → List Said
  thread_messages thread p only_author = messages_of (last 20 (earlier thread p only_author))

  -- What the author wrote, for the judgement of what they ask: the last posts of theirs up to it.
  unfoldable pub own_posts : List Post → Post → List Post
  own_posts thread p =
      last 5 (keep (λ (t : Post). str_eq t.user p.user && leb t.created p.created) thread)
