-- ===== src/LlmProxy/Examples.antt =====
-- A model, its gate and a request: tests, and the theorems at them.
use purdue_af.Common.{
  ℕ, ◌+◌, ◌≡◌, ◌≢◌, refl, inl, Bool, true, false, Option, none, some, List, [], ◌∷◌, arith,
}
use purdue_af.Common.Text.{Text, codes}
use purdue_af.LlmProxy.{Settings, Model, Role, IsChecked}
use purdue_af.LlmProxy.Gate.{
  Gate, Waiter, admitted, new_gate, enter, turn, after_fits, fits, has_room, out, first, least,
  without,
}
use purdue_af.LlmProxy.Samples.{drop_old}
use purdue_af.LlmProxy.Gate.Held.{Reach-IsKept}
use purdue_af.LlmProxy.Gate.Counters.{Flight, after_turn, enters, turns, start, next, IsKept}
use purdue_af.LlmProxy.Gate.Queue.{turn_aged}
use purdue_af.LlmProxy.Reply.{
  Reply, new_reply, problem, bad_arguments, take, take_choices, take_choice, take_reasoning,
  take_calls, upstream_error, completion, decode,
}
use purdue_af.LlmProxy.Message.{message, chunks}
use purdue_af.LlmProxy.Reply.Replay.{take_all, IsRead, chunks-IsRead}
use purdue_af.LlmProxy.Forward.{
  Pass, forward, run, pass, to_backend, send, after_exchange, after_answer, may_retry, is_early,
  after_failure, after_whole, cap_of, asked_tokens,
}
use purdue_af.LlmProxy.Exchange.{Upstream, payload, stream_end, exchange, read_lines, broken}
use purdue_af.LlmProxy.Pick.{
  Request, Config, pick, kept_backend, choose, stick_to, sticky_of, stick, unstick, drop_first,
  first_of, estimate, share, room, usable,
}
use purdue_af.LlmProxy.Forward.Whole.{IsWhole, forward-IsWhole}
use purdue_af.LlmProxy.Forward.Ends.{IsTimed, forward_ends}

abbrev pub settings : Settings
settings = record {
  stream_time = 600000;
  cut_time = 900000;
  hold_time = 3600000;
  backoff = 5000;
  backoff_max = 60000;
  cut_retries = 1;
}

abbrev model : Model
model = record {
  name = "qwen3";
  context = 200000;
  start = 2;
  most = 4;
  budget = 70000;
  output_per_minute = 20000;
  floor = 1024;
  ceiling = 16000;
  image_tokens = 0;
  ttft = 2000;
  late = 10000;
  decode = 40000;
  slow = 20000;
  variants = [];
}

model-IsChecked : IsChecked model
model-IsChecked = record {
  some_slot = omega arith;
  start_most = omega arith;
  some_token = omega arith;
  floor_ceiling = omega arith;
}

abbrev waiting_one : Gate
waiting_one = enter 1 1000 (new_gate model)

-- The first request is admitted.
abbrev flying : Flight
flying = after_turn 60000 [] (turn model 1 60000 1000 90000 false waiting_one)

first_admitted : flying.gate.held ≡ 60000
unfolding turn enter new_gate after_fits fits has_room out first least without drop_old
first_admitted = refl

Reach-IsKept_example : IsKept model flying
Reach-IsKept_example =
    Reach-IsKept settings model model-IsChecked flying
      (next (next start (enters 1 1000 refl)) (turns 1 60000 1000 90000 false refl))

abbrev old_one : Waiter
old_one = record { seq = 1; rank = 2; since = 1000 }

abbrev queue : Gate
queue = record (new_gate model) {
  waiting = old_one ∷ record { seq = 2; rank = 0; since = 5000 } ∷ [];
  last_seq = 2;
}

queue-fits : (fits model 9000 1201000 queue).1 ≡ true
unfolding fits has_room out new_gate drop_old
queue-fits = refl

turn_aged_example :
    ((turn model 1 9000 1201000 4000000 false queue).1 ≡ admitted)
    × ((turn model 2 500 1201000 4000000 false queue).1 ≢ admitted)
turn_aged_example =
    turn_aged model queue old_one [] (record { seq = 2; rank = 0; since = 5000 } ∷ []) 9000 1201000
      4000000 refl (omega arith) tt (omega arith, tt) queue-fits 2 500 false (λ e. omega arith)

abbrev answer : Upstream
answer = record {
  status = 200;
  retry = [];
  seconds = 4000;
  refusal = [];
  lines =
      payload 900 (record {
        choices =
            record {
              content = codes "hi";
              reasoning_content = [];
              reasoning = [];
              tool_calls = [];
              finish_reason = some "stop";
            }
            ∷ [];
        usage = some 2;
      })
      ∷ stream_end
      ∷ [];
  whole = none;
}

abbrev pass_at : ℕ → Option Upstream → Pass
pass_at now answer = record {
  now = now;
  gone = false;
  healthy = λ name. true;
  cap = 8000;
  acquired = true;
  gone_queued = false;
  answer = answer;
  later = now + 100;
  gone_failed = false;
  wait = 5000;
  stopped = false;
}

-- The first try fails, and the second is answered.
abbrev pub two_passes : List Pass
two_passes = pass_at 1000 none ∷ pass_at 7000 (some answer) ∷ []

abbrev pub config : Config
config = record { settings = settings; bytes_per_token = 3500; model_of = λ name. model }

abbrev pub role : Role
role = record {
  name = "writer";
  backends = record { model = "qwen3"; variant = "" } ∷ [];
  images = 0;
  rank = 1;
}

abbrev pub request : Request
request = record {
  session = "s1";
  size = 7000;
  pictures = 0;
  images = 0;
  max_tokens = none;
  max_completion_tokens = some 4000;
}

abbrev pub any_json : Text → Bool
any_json t = true

-- The reply that the second pass makes of its answer.
abbrev answered : Reply
answered = exchange true (some answer)

forward-answered : (forward config any_json 3600000 role request two_passes []).0 ≡ some answered
unfolding forward run pass to_backend send pick kept_backend choose stick_to sticky_of stick unstick
    drop_first first_of after_exchange after_answer may_retry is_early after_failure after_whole
    problem bad_arguments exchange read_lines take take_choices take_choice take_reasoning
    take_calls new_reply upstream_error broken estimate share room usable cap_of asked_tokens
    completion decode
forward-answered = refl

forward-IsWhole_example : IsWhole answered
forward-IsWhole_example =
    forward-IsWhole config any_json 3600000 role request two_passes [] answered forward-answered

-- A deadline that has come: five passes are enough.
abbrev late_passes : List Pass
late_passes =
    pass_at 1000 none
    ∷ pass_at 1000 none
    ∷ pass_at 1000 none
    ∷ pass_at 1000 none
    ∷ pass_at 1000 none
    ∷ []

late-IsTimed :
    IsTimed config any_json 1000 role request late_passes 1000 false
      (record { cuts = 0; shrink = 0; failures = 0; streamed = none; sticky = [] })
unfolding pass to_backend send pick kept_backend choose stick_to sticky_of stick unstick drop_first
    first_of after_exchange after_answer may_retry after_failure exchange broken estimate share room
    usable new_reply
late-IsTimed = (omega arith, (omega arith, omega arith), inl refl, tt)

forward_ends_example :
    (r : Reply) × ((forward config any_json 1000 role request late_passes []).0 ≡ some r)
forward_ends_example =
    forward_ends config any_json 1000 role request late_passes [] 1000 late-IsTimed (omega arith)

abbrev whole_reply : Reply
whole_reply = record (new_reply 200) {
  done = true;
  content = codes "done";
  calls =
      (4, record { id = []; name = codes "ls"; arguments = codes "{}" })
      ∷ (1, record { id = codes "a"; name = codes "cat"; arguments = codes "{}" })
      ∷ [];
  finish = some "tool_calls";
  usage = some 7;
}

abbrev fresh : ℕ → Text
fresh n = codes "call_x"

whole-no_payloads : whole_reply.payloads ≡ []
unfolding new_reply
whole-no_payloads = refl

chunks-IsRead_example :
    IsRead (message fresh whole_reply) (take_all (chunks fresh whole_reply) (new_reply 200))
chunks-IsRead_example = chunks-IsRead fresh whole_reply 200 whole-no_payloads
