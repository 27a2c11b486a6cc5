-- ===== src/LlmProxy/Forward.antt =====
-- Proxy of llm_proxy.py: how a request is sent on until it has an answer. What is outside a request
-- (the upstream, the clock, the model's gate, which other threads use too, and the client) answers
-- each of its passes with a Pass; what it does to the gates is logged.
pub mod Fair
pub mod Whole
pub mod Ends
use purdue_af.Common.{
  ℕ, zero, suc, ◌+◌, ◌-◌, ◌*◌, ◌/◌, min, max, String, Bool, true, false, not, ◌&&◌, ◌||◌, Option,
  none, some, List, [], ◌∷◌, ◌++◌, ltb, leb, ◌==◌, if◌then◌else◌, str_eq, is_text, is_some, keep,
  any_of, or_default, length,
}
use purdue_af.Common.Text.{Text, codes}
use purdue_af.LlmProxy.{Settings, Model, Backend, Role}
use purdue_af.LlmProxy.Reply.{
  Reply, Chunk, Problem, cut, new_reply, take, completion, problem, decode, failure, upstream_error,
  retry_after,
}
use purdue_af.LlmProxy.Exchange.{payload, Upstream, read_lines, read_whole, broken, exchange}
use purdue_af.LlmProxy.Pick.{Request, Config, estimate, room, usable, Sticky, pick}

-- What is outside a pass of `forward`'s loop: `now` is the time at its start and `later` after the
-- exchange; `cap` what the gate's cap() gives, `acquired` what its acquire() does and `wait` what its
-- failed() does; `gone`, `gone_queued` and `gone_failed` what cancelled() says at the start, after the
-- queue and after a failed try; `stopped` whether the proxy stops during the wait.
pub record Pass : Type 0 where
  pub now : ℕ
  pub gone : Bool
  pub healthy : String → Bool
  pub cap : ℕ
  pub acquired : Bool
  pub gone_queued : Bool
  pub answer : Option Upstream
  pub later : ℕ
  pub gone_failed : Bool
  pub wait : ℕ
  pub stopped : Bool

-- The calls of a gate's methods, by the model's name.
pub data GateCall : Type 0 where
  acquires : String → ℕ → GateCall
  releases : String → ℕ → ℕ → GateCall
  fails : String → Option ℕ → ℕ → GateCall
  observes succeeds : String → Option ℕ → Option ℕ → GateCall

-- The loop's variables.
pub record Loop : Type 0 where
  pub cuts : ℕ
  pub shrink : ℕ
  pub failures : ℕ
  pub streamed : Option Reply
  pub sticky : Sticky

pub data Next : Type 0 where
  returns : Reply → Next
  goes_on : Loop → Next

abbrev pub client_gone : Next
client_gone = returns (failure 499 "server_error" "the client is gone")

abbrev pub or_number : Option ℕ → ℕ → ℕ
or_number none n = n
or_number (some zero) n = n
or_number (some (suc k)) n = suc k

-- max_tokens of the payload that Proxy.shape makes.
unfoldable pub asked_tokens : Request → ℕ → ℕ
asked_tokens q cap = min (or_number q.max_tokens (or_number q.max_completion_tokens cap)) cap

module _ (c : Config) (is_json : Text → Bool) (deadline : ℕ) (role : Role) (q : Request) where
  abbrev is_cut : Reply → Bool
  is_cut r = not r.done

  -- A stream that broke off well before the upstream's own cut.
  unfoldable pub is_early : Reply → Bool
  is_early r = is_cut r && ltb (10 * r.seconds) (9 * c.settings.cut_time)

  unfoldable pub may_retry : Reply → Bool
  may_retry r = (r.status == 429 || leb 500 r.status) || (r.status == 200 && is_early r)

  abbrev pub retry_of : Reply → Option ℕ
  retry_of r = if r.status == 429 then some (retry_after r.retry) else none

  -- The reply is a failure that may pass.
  unfoldable pub after_failure : Pass → Model → Reply → Loop → Next × List GateCall
  after_failure p m r l =
      if p.gone_failed
      then (goes_on l, [])
      else (let l' = record l { failures = l.failures + 1 } in
          let log = fails m.name (retry_of r) l'.failures ∷ [] in
          if leb deadline (p.later + p.wait)
          then (returns (failure 503 "server_error" "the model kept failing"), log)
          else if p.stopped
          then (returns (failure 503 "server_error" "the proxy is restarting"), log)
          else (goes_on l', log))

  -- The reply was cut off: the next try may take less.
  unfoldable pub after_cut : Pass → Model → Reply → Loop → Next × List GateCall
  after_cut p m r l =
      let log = observes m.name r.ttft (decode r) ∷ [] in
      if ltb c.settings.cut_retries (l.cuts + 1) || leb deadline p.later
      then (returns (failure 502 "server_error" "the model's reply was cut off"), log)
      else (
        goes_on (record l { cuts = l.cuts + 1; shrink = max m.floor (8 * completion r / 10) }),
        log,
      )

  -- A whole streamed reply with a fault is asked for once more, not streamed.
  unfoldable pub after_whole : Model → Reply → Loop → Next × List GateCall
  after_whole m r l =
      if is_some (problem is_json r)
        && (not (is_text r.finish "length") && not (is_some l.streamed))
      then (goes_on (record l { streamed = some r }), [])
      else (returns r, succeeds m.name r.ttft (decode r) ∷ [])

  unfoldable pub after_answer : Pass → Model → Reply → Loop → Next × List GateCall
  after_answer p m r l =
      if may_retry r
      then after_failure p m r l
      else if not (r.status == 200)
      then (returns r, [])
      else if is_cut r
      then after_cut p m r l
      else after_whole m r l

  -- If the retry of a faulty reply fails, the agent gets that reply.
  abbrev settle : Option Reply → Reply → Next × List GateCall → Next × List GateCall
  settle none r x = x
  settle (some s) r x = if not (r.status == 200) || is_cut r then (returns s, []) else x

  unfoldable pub after_exchange : Pass → Model → Reply → Loop → Next × List GateCall
  after_exchange p m r l = settle l.streamed r (after_answer p m r l)

  abbrev or_streamed : Option Reply → Next
  or_streamed none = returns (failure 503 "server_error" "no room within the hold")
  or_streamed (some s) = returns s

  abbrev pub released : Reply → ℕ
  released r = if r.status == 200 then completion r else 0

  -- The output that a try may take.
  unfoldable pub cap_of : Pass → ℕ → Loop → ℕ
  cap_of p room l = min p.cap (min room (if l.shrink == 0 then room else l.shrink))

  unfoldable pub send : Pass → Model → Loop → Next × List GateCall
  send p m l =
      let prompt = estimate c q m in
      let tokens = prompt + asked_tokens q (cap_of p (room prompt m) l) in
      if ltb (room prompt m) m.floor
      then (returns (failure 413 "context_length_exceeded" "over the models' fair-use size"), [])
      else if not p.acquired
      then ((if p.gone_queued then client_gone else or_streamed l.streamed), [])
      else (let reply = exchange (not (is_some l.streamed)) p.answer in
          let (next, log) = after_exchange p m reply l in
          (next, acquires m.name tokens ∷ releases m.name tokens (released reply) ∷ log))

  unfoldable pub to_backend : Pass → Loop → Option Backend × Sticky → Next × List GateCall
  to_backend p l (none, sticky) = (returns broken, [])
  to_backend p l (some b, sticky) = send p (c.model_of b.model) (record l { sticky = sticky })

  abbrev is_over : ℕ → Option Reply → Bool
  is_over now none = false
  is_over now (some s) = leb deadline now

  -- One pass of the loop of Proxy.forward.
  unfoldable pub pass : Pass → Loop → Next × List GateCall
  pass p l =
      if p.gone
      then (client_gone, [])
      else if is_over p.now l.streamed
      then (or_streamed l.streamed, [])
      else to_backend p l (pick (usable c q) p.healthy role q.session l.sticky)

  abbrev before : List GateCall → Option Reply × List GateCall → Option Reply × List GateCall
  before log (r, rest) = (r, log ++ rest)

  abbrev follow_pass :
      (Loop → Option Reply × List GateCall) → Next × List GateCall → Option Reply × List GateCall
  follow_pass rest (returns r, log) = (some r, log)
  follow_pass rest (goes_on l, log) = before log (rest l)

  -- The passes, until one returns; `none` while none has.
  unfoldable pub run : List Pass → Loop → Option Reply × List GateCall
  run [] l = (none, [])
  run (p ∷ ps) l = follow_pass (run ps) (pass p l)

  -- Proxy.forward
  unfoldable pub forward : List Pass → Sticky → Option Reply × List GateCall
  forward ps sticky =
      run ps (record { cuts = 0; shrink = 0; failures = 0; streamed = none; sticky = sticky })
