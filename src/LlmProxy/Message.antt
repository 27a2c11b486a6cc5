-- ===== src/LlmProxy/Message.antt =====
-- Reply.message and Reply.chunks of llm_proxy.py: what a client reads, whole or as it is replayed.
use purdue_af.Common.{ℕ, ◌+◌, String, Option, none, some, List, [], ◌∷◌, leb, if◌then◌else◌, map}
use purdue_af.Common.Text.{Text}
use purdue_af.LlmProxy.Reply.{
  Call, CallPart, ReasoningName, reasoning_content, reasoning, Choice, Chunk, Reply, or_text,
}

-- `sorted(self.calls.items())`
unfoldable pub insert_call : ℕ × Call → List (ℕ × Call) → List (ℕ × Call)
insert_call c [] = c ∷ []
insert_call (i, c) ((j, d) ∷ calls) =
    let rest = insert_call (i, c) calls in
    if leb i j then (i, c) ∷ (j, d) ∷ calls else (j, d) ∷ rest

unfoldable pub sort_calls : List (ℕ × Call) → List (ℕ × Call)
sort_calls [] = []
sort_calls (c ∷ calls) = insert_call c (sort_calls calls)

-- A call without an id gets a new one; `fresh` gives those by the call's index.
abbrev pub with_id : (ℕ → Text) → ℕ × Call → Call
with_id fresh (i, c) = record c { id = or_text c.id (fresh i) }

-- Reply.message: the fields that a client reads.
pub record Message : Type 0 where
  pub content : Text
  pub reasoned : Text
  pub reasoning_name : ReasoningName
  pub tool_calls : List Call
  pub finish_reason : Option String
  pub usage : Option ℕ

unfoldable pub message : (ℕ → Text) → Reply → Message
message fresh r = record {
  content = r.content;
  reasoned = r.reasoned;
  reasoning_name = r.reasoning_name;
  tool_calls = map (with_id fresh) (sort_calls r.calls);
  finish_reason = r.finish;
  usage = r.usage;
}

unfoldable pub number : ℕ → List Call → List CallPart
number n [] = []
number n (c ∷ cs) = record { index = some n; part = c } ∷ number (n + 1) cs

abbrev pub named : ReasoningName → ReasoningName → Text → Text
named reasoning_content reasoning_content t = t
named reasoning_content reasoning t = []
named reasoning reasoning_content t = []
named reasoning reasoning t = t

abbrev pub delta_of : Message → Choice
delta_of m = record {
  content = m.content;
  reasoning_content = named reasoning_content m.reasoning_name m.reasoned;
  reasoning = named reasoning m.reasoning_name m.reasoned;
  tool_calls = number 0 m.tool_calls;
  finish_reason = none;
}

abbrev pub end_of : Message → Choice
end_of m = record {
  content = [];
  reasoning_content = [];
  reasoning = [];
  tool_calls = [];
  finish_reason = m.finish_reason;
}

abbrev pub usage_chunk : Option ℕ → List Chunk
usage_chunk none = []
usage_chunk (some n) = record { choices = []; usage = some n } ∷ []

unfoldable pub rebuilt : Message → List Chunk
rebuilt m =
    record { choices = delta_of m ∷ []; usage = none }
    ∷ record { choices = end_of m ∷ []; usage = none }
    ∷ usage_chunk m.usage

abbrev pub or_chunks : List Chunk → List Chunk → List Chunk
or_chunks [] t = t
or_chunks (c ∷ s) t = c ∷ s

-- Reply.chunks
unfoldable pub chunks : (ℕ → Text) → Reply → List Chunk
chunks fresh r = or_chunks r.payloads (rebuilt (message fresh r))
