-- ===== src/LlmProxy/Server.antt =====
-- Handler.do_POST and Server of llm_proxy.py: which requests are sent on, and that none is once the
-- server drains. A request's body, when it is JSON, is an object, and its Content-Length a number.
pub mod Admitted
pub mod Drained
mod Examples
use purdue_af.Common.{
  ℕ, ◌+◌, ◌-◌, String, Bool, true, false, not, ◌||◌, Option, none, some, List, [], ◌∷◌, ltb,
  if◌then◌else◌, str_eq, is_text, any_of,
}
use purdue_af.Common.Dict.{Dict, get}
use purdue_af.Common.Text.{Text, codes, same, starts_with, strip}
use purdue_af.LlmProxy.{Role}
use purdue_af.LlmProxy.Pick.{Request, Config, usable}

pub record Server : Type 0 where
  pub draining : Bool
  pub in_flight : ℕ

abbrev pub new_server : Server
new_server = record { draining = false; in_flight = 0 }

unfoldable pub admit : Server → Server × Bool
admit s = if s.draining then (s, false) else (record s { in_flight = s.in_flight + 1 }, true)

unfoldable pub finished : Server → Server
finished s = record s { in_flight = s.in_flight - 1 }

-- Server.drain up to its wait for the requests in flight.
unfoldable pub drain : Server → Server
drain s = record s { draining = true }

-- A message's content: a text or none, or a list of parts, each with its `type`.
pub data Content : Type 0 where
  plain : Content
  parts : List (Option String) → Content

unfoldable pub pictures_of : List (Option String) → ℕ
pictures_of [] = 0
pictures_of (kind ∷ kinds) =
    let rest = pictures_of kinds in if is_text kind "image_url" then rest + 1 else rest

unfoldable pub images : List Content → ℕ
images [] = 0
images (plain ∷ messages) = images messages
images (parts kinds ∷ messages) = pictures_of kinds + images messages

-- `model` is its text as str() gives it, and `pictures` the size of the images' data in the body's
-- bytes.
pub record Body : Type 0 where
  pub model : String
  pub messages : List Content
  pub stream : Bool
  pub pictures : ℕ
  pub max_tokens : Option ℕ
  pub max_completion_tokens : Option ℕ

-- `size` is what is read of the `length` bytes; a body that is not JSON is `none`.
pub record Post : Type 0 where
  pub path : String
  pub authorization : Text
  pub length : ℕ
  pub size : ℕ
  pub body : Option Body
  pub session : String

pub data Answer : Type 0 where
  refuses : ℕ → String → Answer
  serves : Role → Request → Bool → Answer

-- `s.removeprefix(p)`
unfoldable pub drop_prefix : Text → Text → Text
drop_prefix [] s = s
drop_prefix (c ∷ p) [] = []
drop_prefix (c ∷ p) (d ∷ s) = drop_prefix p s

unfoldable pub remove_prefix : Text → Text → Text
remove_prefix s p = if starts_with s p then drop_prefix p s else s

unfoldable pub authorized : Text → Post → Bool
authorized token p = same (strip (remove_prefix p.authorization (codes "Bearer "))) token

-- What Proxy.forward reads of the request.
unfoldable pub request_of : Post → Body → Request
request_of p b = record {
  session = p.session;
  size = p.size;
  pictures = b.pictures;
  images = images b.messages;
  max_tokens = b.max_tokens;
  max_completion_tokens = b.max_completion_tokens;
}

abbrev pub is_completions : String → Bool
is_completions path = str_eq path "/v1/chat/completions" || str_eq path "/chat/completions"

module _ (c : Config) (token : Text) (max_body : ℕ) (roles : Dict Role) where
  abbrev pub answer_to : Role → Request → Bool → Server × Bool → Server × Answer
  answer_to role q stream (s, true) = (s, serves role q stream)
  answer_to role q stream (s, false) = (s, refuses 503 "server_error")

  unfoldable pub to_role : Server → Post → Body → Option Role → Server × Answer
  to_role s p b none = (s, refuses 400 "invalid_prompt")
  to_role s p b (some role) =
      let q = request_of p b in
      if ltb role.images (images b.messages)
      then (s, refuses 413 "context_length_exceeded")
      else if not (any_of (usable c q) role.backends)
      then (s, refuses 413 "context_length_exceeded")
      else answer_to role q b.stream (admit s)

  unfoldable pub read_body : Server → Post → Option Body → Server × Answer
  read_body s p none = (s, refuses 400 "invalid_prompt")
  read_body s p (some b) = to_role s p b (get b.model roles)

  -- Handler.do_POST up to the sending on of the request.
  unfoldable pub do_post : Server → Post → Server × Answer
  do_post s p =
      if not (is_completions p.path)
      then (s, refuses 404 "invalid_prompt")
      else if not (authorized token p)
      then (s, refuses 401 "invalid_prompt")
      else if ltb max_body p.length
      then (s, refuses 413 "context_length_exceeded")
      else read_body s p p.body
