-- ===== src/MattermostAgent/Answer.antt =====
-- Agent's command, intent, call, answer and handle of agent.py. What the model, the Hub and the
-- agentic interface answer comes with the call; the tool calls that the agent makes are logged.
pub mod Tools
use purdue_af.Common.{
  ℕ, zero, suc, ◌+◌, String, Bool, true, false, not, ◌&&◌, ◌||◌, Option, none, some, List, [], ◌∷◌,
  ◌++◌, keep, any_of, text_in, ltb, leb, ◌==◌, if◌then◌else◌, str_eq, is_some,
}
use purdue_af.Common.Text.{Text, codes, same, strip, starts_with, lower}
use purdue_af.Common.Exec.{Outcome, ok, err}
use purdue_af.MattermostAgent.Linking.{
  Linking, Login, Minting, Fault, token, forget, link_url, confirm,
}
use purdue_af.MattermostAgent.Posts.{Post, Channels, private, is_empty}

abbrev pub facility_tools : List String
facility_tools =
    "get_facility_health" ∷ "get_facility_metrics" ∷ "list_af_profiles"
    ∷ "list_dask_cluster_options" ∷ []

abbrev pub personal_tools : List String
personal_tools =
    "get_session_status" ∷ "start_af_session" ∷ "stop_af_session" ∷ "restart_af_session"
    ∷ "wait_for_session" ∷ "query_storage_usage" ∷ "query_notebook_logs" ∷ "query_dask_logs"
    ∷ "list_dask_clusters" ∷ "create_dask_cluster" ∷ "get_dask_cluster_info"
    ∷ "get_dask_cluster_usage" ∷ "get_dask_worker_count" ∷ "scale_dask_cluster"
    ∷ "stop_dask_cluster" ∷ "get_ray_capacity" ∷ "list_ray_jobs" ∷ "get_ray_job" ∷ "stop_ray_job"
    ∷ "delete_ray_job" ∷ "get_ray_cluster" ∷ "start_ray_cluster" ∷ "stop_ray_cluster" ∷ []

pub data Intent : Type 0 where
  link unlink personal general : Intent

-- INTENT's `\W*(...)\b`, without case; `is_word` is the library's `\w`.
module _ (is_word : ℕ → Bool) where
  unfoldable pub skip_nonwords : Text → Text
  skip_nonwords [] = []
  skip_nonwords (c ∷ t) = let rest = skip_nonwords t in if is_word c then c ∷ t else rest

  abbrev ends_word : Text → Bool
  ends_word [] = true
  ends_word (c ∷ t) = not (is_word c)

  unfoldable pub after_word : Text → Text → Bool
  after_word [] t = ends_word t
  after_word (w ∷ word) [] = false
  after_word (w ∷ word) (c ∷ t) = w == c && after_word word t

  -- The first word of what the model says, if it is one of the four.
  unfoldable pub intent_of : Text → Intent
  intent_of reply =
      let t = lower (skip_nonwords reply) in
      if after_word (codes "link") t
      then link
      else if after_word (codes "unlink") t
      then unlink
      else if after_word (codes "personal") t
      then personal
      else general

  -- Agent.intent: `none` is a check that failed.
  unfoldable pub intent : Option Text → Intent
  intent none = general
  intent (some reply) = intent_of reply

pub data Reply : Type 0 where
  only_in_dm not_linked unlinked bad_code needs_link nothing : Reply
  link_reply : String → Reply
  linked : String → Reply
  text : Text → Reply
  acted : List String → Reply

pub data Command : Type 0 where
  asks_link asks_unlink : Command
  sends : String → Command

abbrev pub link_told : Outcome Fault String × Linking → Outcome Fault Reply × Linking
link_told (ok state, s) = (ok (link_reply state), s)
link_told (err f, s) = (err f, s)

abbrev pub confirm_told : Outcome Fault (Option String) × Linking → Outcome Fault Reply × Linking
confirm_told (ok (some hub_user), s) = (ok (linked hub_user), s)
confirm_told (ok none, s) = (ok bad_code, s)
confirm_told (err f, s) = (err f, s)

abbrev pub unlink_told :
    String → Outcome Fault (Option String) × Linking → Outcome Fault Reply × Linking
unlink_told user (ok (some t), s) = (ok unlinked, (forget user s).1)
unlink_told user (ok none, s) = (ok not_linked, s)
unlink_told user (err f, s) = (err f, s)

-- The time, the state drawn for a new link, and what the Hub answers to a code.
pub record CommandAnswers : Type 0 where
  pub now : ℕ
  pub state : String
  pub minting : Minting

unfoldable pub obey : CommandAnswers → String → Command → Linking → Outcome Fault Reply × Linking
obey a user asks_link s = link_told (link_url user a.state a.now s)
obey a user asks_unlink s = unlink_told user (token user a.now s)
obey a user (sends code) s = confirm_told (confirm user code a.now a.minting s)

-- Agent.command: in a direct message only.
unfoldable pub command :
    CommandAnswers → Channels → Post → Command → Linking → Outcome Fault Reply × Linking
command a ch p c s = if text_in p.channel ch.direct then obey a p.user c s else (ok only_in_dm, s)

-- A call that the model asks for: whether its arguments are JSON, and what the tool gives.
pub record ToolCall : Type 0 where
  pub name : String
  pub parses : Bool
  pub result : Outcome Fault Text

-- A tool call that reached the agentic interface: as whom (`none` is the agent itself), and which.
pub record Called : Type 0 where
  pub by : Option String
  pub name : String

-- What the model answers on a turn.
pub record Turn : Type 0 where
  pub content : Text
  pub tool_calls : List ToolCall

-- Agent.call: nothing is called with arguments that do not parse, nor a tool that is not allowed;
-- read_doc reads the agent's own docs.
unfoldable pub is_called : List String → ToolCall → Bool
is_called allowed c = c.parses && (not (str_eq c.name "read_doc") && text_in c.name allowed)

unfoldable pub called : List String → Option String → List ToolCall → List Called
called allowed by [] = []
called allowed by (c ∷ calls) =
    let rest = called allowed by calls in
    if is_called allowed c then record { by = by; name = c.name } ∷ rest else rest

-- The personal tools that the model asked for, called or not.
unfoldable pub ran_of : List ToolCall → List String
ran_of [] = []
ran_of (c ∷ calls) =
    let rest = ran_of calls in if text_in c.name personal_tools then c.name ∷ rest else rest

-- `dict.fromkeys(ran)`
unfoldable pub distinct : List String → List String
distinct [] = []
distinct (n ∷ ns) = n ∷ keep (λ m. not (str_eq m n)) (distinct ns)

abbrev pub told_ran : List String → Reply
told_ran [] = nothing
told_ran (n ∷ ns) = acted (distinct (n ∷ ns))

abbrev pub Answered : Type 0
Answered = Outcome Fault Reply × List Called

abbrev pub after_calls : List Called → Answered → Answered
after_calls log (r, rest) = (r, log ++ rest)

module _ (allowed : List String) (by : Option String) (turns : ℕ → Outcome Fault Turn) where
  abbrev pub on_turn :
      (ℕ → List String → Answered) → ℕ → ℕ → List String → List ToolCall → Text → Answered
  on_turn rest left i ran [] content =
      if is_empty (strip content) then (ok (told_ran ran), []) else (ok (text content), [])
  on_turn rest left i ran (c ∷ calls) content =
      after_calls (called allowed by (c ∷ calls)) (rest (i + 1) (ran ++ ran_of (c ∷ calls)))

  -- The last turn offers no tools, and runs none.
  abbrev pub calls_of : ℕ → Turn → List ToolCall
  calls_of left t = if left == 0 then [] else t.tool_calls

  abbrev pub on_reply :
      (ℕ → List String → Answered) → ℕ → ℕ → List String → Outcome Fault Turn → Answered
  on_reply rest left i ran (err f) = (err f, [])
  on_reply rest left i ran (ok t) = on_turn rest left i ran (calls_of left t) t.content

  -- The loop of Agent.answer, with so many turns left.
  unfoldable pub converse : ℕ → ℕ → List String → Answered
  converse zero i ran = (ok (told_ran ran), [])
  converse (suc left) i ran = on_reply (converse left) left i ran (turns i)

-- What is outside an answer: the reply to the intent check, whose the Hub says the token is, the
-- model's turns, the times, and what a command needs.
pub record Question : Type 0 where
  pub intent_reply : Option Text
  pub owner : Outcome Fault (Option String)
  pub turns : ℕ → Outcome Fault Turn
  pub now : ℕ
  pub later : ℕ
  pub commands : CommandAnswers

-- In a session as the person, or as the agent; `until` may find that the link has run out.
unfoldable pub in_session :
    Question → String → List String → Option String → Linking → Answered × Linking
in_session q user allowed by s = (converse allowed by q.turns 10 0 [], (token user q.later s).1)

unfoldable pub need_link : String → Linking → Answered × Linking
need_link user s = ((ok needs_link, []), (forget user s).1)

abbrev pub owned :
    Question → String → String → Linking → Outcome Fault (Option String) → Answered × Linking
owned q user t s (err f) = ((err f, []), s)
owned q user t s (ok none) = need_link user s
owned q user t s (ok (some name)) = in_session q user (facility_tools ++ personal_tools) (some t) s

abbrev pub with_token :
    Question → String → Outcome Fault (Option String) × Linking → Answered × Linking
with_token q user (err f, s) = ((err f, []), s)
with_token q user (ok none, s) = need_link user s
with_token q user (ok (some t), s) = owned q user t s q.owner

abbrev pub by_command : Outcome Fault Reply × Linking → Answered × Linking
by_command (r, s) = ((r, []), s)

module _ (is_word : ℕ → Bool) (ch : Channels) (q : Question) (p : Post) where
  abbrev pub by_intent : Intent → Linking → Answered × Linking
  by_intent link s = by_command (command q.commands ch p asks_link s)
  by_intent unlink s = by_command (command q.commands ch p asks_unlink s)
  by_intent personal s = with_token q p.user (token p.user q.now s)
  by_intent general s = in_session q p.user facility_tools none s

  -- Agent.answer
  unfoldable pub answer : Linking → Answered × Linking
  answer s = by_intent (intent is_word q.intent_reply) s
