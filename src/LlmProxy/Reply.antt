-- ===== src/LlmProxy/Reply.antt =====
-- Reply of llm_proxy.py: what is taken from the chunks of an answer, and what is wrong with it.
-- Whether a text is JSON is asked of the library: `is_json`.
pub mod Replay
use purdue_af.Common.{
  ℕ, zero, suc, ◌+◌, ◌-◌, ◌*◌, ◌/◌, String, Bool, true, false, not, ◌&&◌, ◌||◌, Option, none, some,
  List, [], ◌∷◌, ◌++◌, ltb, leb, ◌==◌, if◌then◌else◌, is_text, length, map, or_default,
}
use purdue_af.Common.Text.{Text, codes, starts_with, lower}

pub record Call : Type 0 where
  pub id : Text
  pub name : Text
  pub arguments : Text

-- A tool call in a chunk: an absent text is an empty one, and an absent index is its place.
pub record CallPart : Type 0 where
  pub index : Option ℕ
  pub part : Call

pub data ReasoningName : Type 0 where
  reasoning_content reasoning : ReasoningName

pub record Choice : Type 0 where
  pub content : Text
  pub reasoning_content : Text
  pub reasoning : Text
  pub tool_calls : List CallPart
  pub finish_reason : Option String

pub record Chunk : Type 0 where
  pub choices : List Choice
  pub usage : Option ℕ

-- `usage` is its completion_tokens, and `retry` the headers that _retry_after reads.
pub record Reply : Type 0 where
  pub status : ℕ
  pub payloads : List Chunk
  pub done : Bool
  pub finish : Option String
  pub content : Text
  pub reasoned : Text
  pub reasoning_name : ReasoningName
  pub calls : List (ℕ × Call)
  pub usage : Option ℕ
  pub ttft : Option ℕ
  pub seconds : ℕ
  pub error : Text
  pub code : String
  pub retry : List (Option ℕ)

unfoldable pub new_reply : ℕ → Reply
new_reply status = record {
  status = status;
  payloads = [];
  done = false;
  finish = none;
  content = [];
  reasoned = [];
  reasoning_name = reasoning_content;
  calls = [];
  usage = none;
  ttft = none;
  seconds = 0;
  error = [];
  code = "";
  retry = [];
}

abbrev pub or_text : Text → Text → Text
or_text [] t = t
or_text (c ∷ s) t = c ∷ s

-- What a call's slot is after a part of it.
unfoldable pub add_call : Call → Call → Call
add_call part slot = record {
  id = or_text part.id slot.id;
  name = slot.name ++ part.name;
  arguments = slot.arguments ++ part.arguments;
}

abbrev pub no_call : Call
no_call = record { id = []; name = []; arguments = [] }

-- `self.calls.setdefault(index, ...)` and the additions to that slot
unfoldable pub add_at : ℕ → Call → List (ℕ × Call) → List (ℕ × Call)
unfolding add_call
add_at i part [] = (i, add_call part no_call) ∷ []
add_at i part ((j, slot) ∷ calls) =
    let rest = add_at i part calls in
    if j == i then (j, add_call part slot) ∷ calls else (j, slot) ∷ rest

unfoldable pub take_calls : ℕ → List CallPart → List (ℕ × Call) → List (ℕ × Call)
take_calls n [] calls = calls
take_calls n (p ∷ parts) calls =
    take_calls (n + 1) parts (add_at (or_default p.index n) p.part calls)

abbrev pub is_empty : Text → Bool
is_empty [] = true
is_empty (c ∷ s) = false

unfoldable pub take_reasoning : ReasoningName → Text → Reply → Reply
take_reasoning name text r =
    if is_empty text then r else record r { reasoned = r.reasoned ++ text; reasoning_name = name }

abbrev pub or_else : Option String → Option String → Option String
or_else none o = o
or_else (some s) o = some s

unfoldable pub take_choice : Choice → Reply → Reply
take_choice c r =
    let r1 = take_reasoning reasoning c.reasoning (
      take_reasoning reasoning_content c.reasoning_content
        (record r { content = r.content ++ c.content })) in
    record r1 {
      calls = take_calls 0 c.tool_calls r1.calls;
      finish = or_else c.finish_reason r1.finish;
    }

unfoldable pub take_choices : List Choice → Reply → Reply
take_choices [] r = r
take_choices (c ∷ cs) r = take_choices cs (take_choice c r)

abbrev pub or_usage : Option ℕ → Option ℕ → Option ℕ
or_usage none o = o
or_usage (some n) o = some n

-- Reply.take
unfoldable pub take : Chunk → Reply → Reply
take chunk r = take_choices chunk.choices (record r { usage = or_usage chunk.usage r.usage })

abbrev pub counted_or : Option ℕ → ℕ → ℕ
counted_or none n = n
counted_or (some zero) n = n
counted_or (some (suc k)) n = suc k

unfoldable pub completion : Reply → ℕ
completion r = counted_or r.usage (length r.payloads)

pub data Problem : Type 0 where
  cut no_tool_call bad_tool_arguments : Problem

unfoldable pub bad_arguments : (Text → Bool) → List (ℕ × Call) → Option Problem
bad_arguments is_json [] = none
bad_arguments is_json ((i, c) ∷ calls) =
    let rest = bad_arguments is_json calls in
    if is_json (or_text c.arguments (codes "{}")) then rest else some bad_tool_arguments

unfoldable pub problem : (Text → Bool) → Reply → Option Problem
problem is_json r =
    if not r.done
    then some cut
    else if is_text r.finish "tool_calls" && length r.calls == 0
    then some no_tool_call
    else bad_arguments is_json r.calls

-- Reply.decode, in thousandths of a token a second, of more than 50 tokens in more than a second.
unfoldable pub decode : Reply → Option ℕ
decode r =
    let spent = r.seconds - or_default r.ttft 0 in
    if ltb 50 (completion r) && ltb 1000 spent then some (completion r * 1000000 / spent) else none

-- failure()
unfoldable pub failure : ℕ → String → String → Reply
failure status code text = record (new_reply status) { error = codes text; code = code }

unfoldable pub contains : Text → Text → Bool
contains word [] = is_empty word
contains word (c ∷ s) = starts_with (c ∷ s) word || contains word s

-- _upstream_error, of a text within its 2000 characters
unfoldable pub upstream_error : Reply → Text → Reply
upstream_error r text = record r {
  error = text;
  code =
      if contains (codes "context") (lower text)
      then "context_length_exceeded"
      else "invalid_prompt";
}

-- _retry_after: of the first header that is a number, a second or more.
unfoldable pub retry_after : List (Option ℕ) → ℕ
retry_after [] = 60000
retry_after (none ∷ headers) = retry_after headers
retry_after (some wait ∷ headers) = if ltb wait 1000 then 1000 else wait
