-- ===== src/LlmProxy/Reply/Replay.antt =====
-- A whole reply, replayed as chunks, is the same reply to who reads those.
use purdue_af.Common.{
  ℕ, ◌+◌, ◌<◌, ◌≡◌, refl, sym, ap, ◌∙◌, Option, none, some, String, List, [], ◌∷◌, ◌++◌, All, arith,
}
use purdue_af.Common.Text.{Text}
use purdue_af.LlmProxy.Reply.{
  Call, Reply, ReasoningName, reasoning_content, reasoning, Chunk, new_reply, or_text, add_at,
  take_calls, take_reasoning, take_choice, take_choices, take,
}
use purdue_af.LlmProxy.Message.{
  delta_of, end_of, Message, message, number, rebuilt, chunks, usage_chunk,
}

unfoldable pub take_all : List Chunk → Reply → Reply
take_all [] r = r
take_all (c ∷ cs) r = take_all cs (take c r)

-- The calls at the places from `n` on.
unfoldable pub at_places : ℕ → List Call → List (ℕ × Call)
at_places n [] = []
at_places n (c ∷ cs) = (n, c) ∷ at_places (n + 1) cs

or_text_nil : (t : Text) → or_text t [] ≡ t
or_text_nil [] = refl
or_text_nil (c ∷ s) = refl

add_at_new :
    (n : ℕ) (c : Call) (calls : List (ℕ × Call))
    → All (λ p. p.0 < n) calls
    → add_at n c calls ≡ calls ++ ((n, c) ∷ [])
unfolding add_at
add_at_new n c [] h = rw (or_text_nil c.id) refl
add_at_new n c ((j, d) ∷ calls) h = ground (arith, add_at_new n c calls h.1)

places_less :
    (n : ℕ) (calls : List (ℕ × Call)) → All (λ p. p.0 < n) calls → All (λ p. p.0 < n + 1) calls
places_less n [] h = tt
places_less n (p ∷ calls) h = (omega (arith, h.0), places_less n calls h.1)

places_less_append :
    (n : ℕ) (c : Call) (calls : List (ℕ × Call))
    → All (λ p. p.0 < n) calls
    → All (λ p. p.0 < n + 1) (calls ++ ((n, c) ∷ []))
places_less_append n c [] h = (omega arith, tt)
places_less_append n c (p ∷ calls) h = (omega (arith, h.0), places_less_append n c calls h.1)

append_middle :
    (calls : List (ℕ × Call)) (p : ℕ × Call) (rest : List (ℕ × Call))
    → (calls ++ (p ∷ [])) ++ rest ≡ calls ++ (p ∷ rest)
append_middle [] p rest = refl
append_middle (q ∷ calls) p rest = ap (λ l. q ∷ l) (append_middle calls p rest)

append_nil {ℓ} : {A : Type ℓ} (calls : List A) → calls ++ [] ≡ calls
append_nil [] = refl
append_nil (q ∷ calls) = ap (λ l. q ∷ l) (append_nil calls)

take_calls-number :
    (n : ℕ) (cs : List Call) (calls : List (ℕ × Call))
    → All (λ p. p.0 < n) calls
    → take_calls n (number n cs) calls ≡ calls ++ at_places n cs
unfolding take_calls number at_places
take_calls-number n [] calls h = sym (append_nil calls)
take_calls-number n (c ∷ cs) calls h =
    ap (take_calls (n + 1) (number (n + 1) cs)) (add_at_new n c calls h)
    ∙ take_calls-number (n + 1) cs (calls ++ ((n, c) ∷ [])) (places_less_append n c calls h)
    ∙ append_middle calls (n, c) (at_places (n + 1) cs)

-- A reply with what a message says, but its finish and usage.
record HasDelta (m : Message) (q : Reply) : Type 0 where
  content : q.content ≡ m.content
  reasoned : q.reasoned ≡ m.reasoned
  calls : q.calls ≡ at_places 0 m.tool_calls
  no_finish : q.finish ≡ none
  no_usage : q.usage ≡ none

pub record IsRead (m : Message) (q : Reply) : Type 0 where
  pub content : q.content ≡ m.content
  pub reasoned : q.reasoned ≡ m.reasoned
  pub calls : q.calls ≡ at_places 0 m.tool_calls
  pub finish : q.finish ≡ m.finish_reason
  pub usage : q.usage ≡ m.usage

take_delta :
    (m : Message) (n : ReasoningName) (t : Text) (status : ℕ)
    → m.reasoning_name ≡ n
    → m.reasoned ≡ t
    → HasDelta m (take (record { choices = delta_of m ∷ []; usage = none }) (new_reply status))
unfolding take take_choices take_choice take_reasoning new_reply
take_delta m reasoning_content [] status e f =
    rw (e, f)
      record {
        content = refl;
        reasoned = refl;
        calls = take_calls-number 0 m.tool_calls [] tt;
        no_finish = refl;
        no_usage = refl;
      }
take_delta m reasoning_content (c ∷ t) status e f =
    rw (e, f)
      record {
        content = refl;
        reasoned = refl;
        calls = take_calls-number 0 m.tool_calls [] tt;
        no_finish = refl;
        no_usage = refl;
      }
take_delta m reasoning [] status e f =
    rw (e, f)
      record {
        content = refl;
        reasoned = refl;
        calls = take_calls-number 0 m.tool_calls [] tt;
        no_finish = refl;
        no_usage = refl;
      }
take_delta m reasoning (c ∷ t) status e f =
    rw (e, f)
      record {
        content = refl;
        reasoned = refl;
        calls = take_calls-number 0 m.tool_calls [] tt;
        no_finish = refl;
        no_usage = refl;
      }

take_rest :
    (m : Message) (q : Reply) (finish : Option String) (usage : Option ℕ)
    → HasDelta m q
    → m.finish_reason ≡ finish
    → m.usage ≡ usage
    → IsRead m (take_all (record { choices = end_of m ∷ []; usage = none } ∷ usage_chunk m.usage) q)
unfolding take_all take take_choices take_choice take_reasoning take_calls
take_rest m q none none d e f =
    rw (e, f)
      record {
        content = append_nil q.content ∙ d.content;
        reasoned = d.reasoned;
        calls = d.calls;
        finish = d.no_finish;
        usage = d.no_usage;
      }
take_rest m q none (some n) d e f =
    rw (e, f)
      record {
        content = append_nil q.content ∙ d.content;
        reasoned = d.reasoned;
        calls = d.calls;
        finish = d.no_finish;
        usage = refl;
      }
take_rest m q (some o) none d e f =
    rw (e, f)
      record {
        content = append_nil q.content ∙ d.content;
        reasoned = d.reasoned;
        calls = d.calls;
        finish = refl;
        usage = d.no_usage;
      }
take_rest m q (some o) (some n) d e f =
    rw (e, f)
      record {
        content = append_nil q.content ∙ d.content;
        reasoned = d.reasoned;
        calls = d.calls;
        finish = refl;
        usage = refl;
      }

-- A reply that came whole, replayed as stream chunks and read from those as a stream is, gives what
-- its message says: the text, the reasoning, the tool calls in the message's order, the reason for
-- which it finished, and its usage.
pub chunks-IsRead :
    (fresh : ℕ → Text) (r : Reply) (status : ℕ)
    → r.payloads ≡ []
    → IsRead (message fresh r) (take_all (chunks fresh r) (new_reply status))
unfolding chunks take_all rebuilt message
chunks-IsRead fresh r status e =
    let m = message fresh r in
    rw e (
      take_rest m _ m.finish_reason m.usage
        (take_delta m m.reasoning_name m.reasoned status refl refl) refl refl)
