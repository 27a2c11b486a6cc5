-- ===== src/LlmProxy/Exchange.antt =====
-- Proxy.exchange of llm_proxy.py: what a try makes of what the upstream answers.
use purdue_af.Common.{
  ℕ, Bool, true, not, Option, none, some, List, [], ◌∷◌, ◌++◌, ◌==◌, if◌then◌else◌, or_default,
}
use purdue_af.Common.Text.{Text, codes}
use purdue_af.LlmProxy.Reply.{Reply, Chunk, new_reply, take, upstream_error}

-- A line of a streamed answer, with the time since the request: a chunk, or one that is not JSON; or
-- the end mark. The lines that are no payload are left out, and a stream that breaks off ends.
pub data Line : Type 0 where
  payload : ℕ → Chunk → Line
  garbled : Line
  stream_end : Line

-- `whole` is the body of an answer that is not streamed, if it is JSON.
pub record Upstream : Type 0 where
  pub status : ℕ
  pub retry : List (Option ℕ)
  pub seconds : ℕ
  pub refusal : Text
  pub lines : List Line
  pub whole : Option Chunk

abbrev pub seen_at : ℕ → Option ℕ → Option ℕ
seen_at t none = some t
seen_at t (some s) = some s

-- `none` is a ValueError.
unfoldable pub read_lines : List Line → Reply → Option Reply
read_lines [] r = some r
read_lines (stream_end ∷ lines) r = some (record r { done = true })
read_lines (garbled ∷ lines) r = none
read_lines (payload t chunk ∷ lines) r =
    read_lines lines
      (take chunk (record r { ttft = seen_at t r.ttft; payloads = r.payloads ++ chunk ∷ [] }))

unfoldable pub read_whole : Option Chunk → Reply → Option Reply
read_whole none r = none
read_whole (some chunk) r = some (record (take chunk r) { done = true })

unfoldable pub broken : Reply
broken = record (new_reply 599) { error = codes "the request failed" }

-- Proxy.exchange, and what `forward` makes of what it raises; `none` is an HTTPError.
unfoldable pub exchange : Bool → Option Upstream → Reply
exchange stream none = broken
exchange stream (some u) =
    let reply = record (new_reply u.status) { retry = u.retry; seconds = u.seconds } in
    if not (u.status == 200)
    then upstream_error reply u.refusal
    else or_default (if stream then read_lines u.lines reply else read_whole u.whole reply) broken
