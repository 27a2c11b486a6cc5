-- ===== src/MattermostAgent/Examples.antt =====
-- A link from its making to its confirmation, the questions of a user, and an answer: tests, and the
-- theorems at them.
use purdue_af.Common.{
  ℕ, ◌≡◌, refl, String, Bool, true, false, some, List, [], ◌∷◌, All, leb, ◌&&◌, arith,
}
use purdue_af.Common.Text.{codes}
use purdue_af.Common.Exec.{ok}
use purdue_af.Common.Dict.{get, put, remove}
use purdue_af.MattermostAgent.Linking.{
  Linked, Login, Minting, link_url, login, confirm, others, unlinked,
}
use purdue_af.MattermostAgent.Linking.Origin.{Reach-Agreed}
use purdue_af.MattermostAgent.Linking.Traces.{
  Trace, links, logs, confirms, Reach, start, next, made, logged, sent, no_links, Agreed,
}
use purdue_af.MattermostAgent.Linking.Single.{Reach-single}
use purdue_af.MattermostAgent.Limit.{allowed, answered, drop_asked, IsLimited, answered-IsLimited}
use purdue_af.MattermostAgent.Posts.{Post, Channels}
use purdue_af.MattermostAgent.Answer.{Question, answer}
use purdue_af.MattermostAgent.Answer.Tools.{IsAllowed, answer-IsAllowed}

abbrev ana_logs_in : Login
ana_logs_in = record {
  exchanged = ok "oauth";
  owner = ok (some "ana");
  confirmation = "ABCDEFGH";
  later = 2000;
}

abbrev minting : Minting
minting = record { minted = ok ("secret", "t1"); retired = ok tt; later = 3000 }

abbrev with_link : Trace
with_link = record {
  linking = (link_url "mm_ana" "s1" 1000 no_links).1;
  history = made "mm_ana" "s1" ∷ [];
}

abbrev with_code : Trace
with_code = record {
  linking = (login "s1" 2000 ana_logs_in with_link.linking).1;
  history = logged "s1" ana_logs_in ∷ with_link.history;
}

abbrev with_token : Trace
with_token = record {
  linking = (confirm "mm_ana" "ABCDEFGH" 3000 minting with_code.linking).1;
  history = sent "mm_ana" "ABCDEFGH" ∷ with_code.history;
}

with_token-Reach : Reach with_token
with_token-Reach =
    next (next (next start (links "mm_ana" "s1" 1000 refl)) (logs "s1" 2000 ana_logs_in refl))
      (confirms "mm_ana" "ABCDEFGH" 3000 minting refl)

abbrev ana_linked : Linked
ana_linked = record { token = "secret"; token_id = "t1"; hub_user = "ana"; expires_at = 2592003000 }

get-ana : get "mm_ana" with_token.linking.linked ≡ some ana_linked
unfolding link_url login confirm get put remove others unlinked
get-ana = refl

Reach-Agreed_example : Agreed "mm_ana" "ana" with_token.history
Reach-Agreed_example = Reach-Agreed with_token with_token-Reach "mm_ana" ana_linked get-ana

Reach-single_example : ◌≡◌ {A = String} "mm_ana" "mm_ana"
Reach-single_example =
    Reach-single with_token with_token-Reach "mm_ana" "mm_ana" ana_linked ana_linked get-ana get-ana
      refl

abbrev seven_times : List ℕ
seven_times = 1000 ∷ 2000 ∷ 3000 ∷ 4000 ∷ 5000 ∷ 6000 ∷ 700000 ∷ []

six_answered : answered seven_times [] [] ≡ 700000 ∷ 5000 ∷ 4000 ∷ 3000 ∷ 2000 ∷ 1000 ∷ []
unfolding answered allowed drop_asked
six_answered = refl

answered-IsLimited_example : IsLimited (answered seven_times [] [])
answered-IsLimited_example = answered-IsLimited seven_times (omega arith)

abbrev is_letter : ℕ → Bool
is_letter c = leb 65 c && leb c 122

abbrev question : Question
question = record {
  intent_reply = some (codes "personal");
  owner = ok (some "ana");
  turns = λ i. ok (record {
    content = codes "ok";
    tool_calls = record { name = "list_ray_jobs"; parses = true; result = ok (codes "[]") } ∷ [];
  });
  now = 5000;
  later = 6000;
  commands = record { now = 5000; state = "s2"; minting = minting };
}

abbrev post : Post
post = record {
  id = "p1";
  user = "mm_ana";
  channel = "dm";
  root = "";
  message = codes "list my jobs";
  created = 4900;
  deleted = false;
  type = "";
  from_bot = false;
}

abbrev channels : Channels
channels = record { direct = "dm" ∷ []; groups = [] }

answer-IsAllowed_example :
    All
      (IsAllowed is_letter question post with_token.linking)
      (answer is_letter channels question post with_token.linking).0.1
answer-IsAllowed_example = answer-IsAllowed is_letter channels question post with_token.linking
