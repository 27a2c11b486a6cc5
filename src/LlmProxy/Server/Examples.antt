-- ===== src/LlmProxy/Server/Examples.antt =====
-- A proxy with one role, and a request: tests, and the theorems at them.
use purdue_af.Common.{◌≡◌, refl, true, none, some, [], ◌∷◌}
use purdue_af.Common.Dict.{Dict, get}
use purdue_af.Common.Text.{codes, same, starts_with, strip, lstrip, rstrip, is_space}
use purdue_af.LlmProxy.{Role}
use purdue_af.LlmProxy.Pick.{usable, estimate, room, share}
use purdue_af.LlmProxy.Examples.{config, role}
use purdue_af.LlmProxy.Server.{
  Body, Post, Server, serves, refuses, plain, parts, new_server, admit, drain, pictures_of, images,
  drop_prefix, remove_prefix, authorized, request_of, to_role, read_body, do_post,
}
use purdue_af.LlmProxy.Server.Admitted.{IsAnswered, do_post-IsAnswered}
use purdue_af.LlmProxy.Server.Drained.{
  Process, process_of, posts, here, next, IsCounted, Drains, Reach-IsCounted, Reach-Drains,
}

abbrev roles : Dict Role
roles = ("writer", role) ∷ []

abbrev body : Body
body = record {
  model = "writer";
  messages = plain ∷ parts (some "text" ∷ []) ∷ [];
  stream = true;
  pictures = 0;
  max_tokens = none;
  max_completion_tokens = some 4000;
}

abbrev post : Post
post = record {
  path = "/v1/chat/completions";
  authorization = codes "Bearer t0 ";
  length = 7000;
  size = 7000;
  body = some body;
  session = "s1";
}

abbrev served : Server
served = record new_server { in_flight = 1 }

post-served :
    do_post config (codes "t0") 3670016 roles new_server post
    ≡ (served, serves role (request_of post body) true)
unfolding do_post authorized remove_prefix drop_prefix read_body to_role images pictures_of
    request_of admit usable estimate room share get same starts_with strip lstrip rstrip is_space
post-served = refl

-- An image is more than the role takes.
with_image :
    do_post config
      (codes "t0")
      3670016
      roles
      new_server
      (record post { body = some (record body { messages = parts (some "image_url" ∷ []) ∷ [] }) })
    ≡ (new_server, refuses 413 "context_length_exceeded")
unfolding do_post authorized remove_prefix drop_prefix read_body to_role images pictures_of
    request_of admit usable estimate room share get same starts_with strip lstrip rstrip is_space
with_image = refl

do_post-IsAnswered_example :
    IsAnswered config
      (codes "t0")
      3670016
      roles
      new_server
      post
      (do_post config (codes "t0") 3670016 roles new_server post)
do_post-IsAnswered_example = do_post-IsAnswered config (codes "t0") 3670016 roles new_server post

abbrev one_unanswered : Process
one_unanswered = process_of [] (do_post config (codes "t0") 3670016 roles new_server post)

Reach-IsCounted_example : IsCounted config (codes "t0") 3670016 roles one_unanswered
Reach-IsCounted_example =
    Reach-IsCounted config (codes "t0") 3670016 roles one_unanswered (next here (posts post refl))

-- The proxy restarts, and a request that comes then is not served.
abbrev draining : Process
draining = record one_unanswered { server = drain one_unanswered.server }

abbrev drained : Process
drained =
    process_of draining.unanswered (do_post config (codes "t0") 3670016 roles draining.server post)

is_draining : draining.server.draining ≡ true
unfolding drain
is_draining = refl

Reach-Drains_example : Drains config (codes "t0") 3670016 roles draining drained
Reach-Drains_example =
    Reach-Drains config (codes "t0") 3670016 roles draining drained is_draining
      (next here (posts post refl))
