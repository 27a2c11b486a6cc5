-- ===== src/MattermostAgent/Answer/Tools.antt =====
-- Which tools the agent calls, and as whom.
use purdue_af.Common.{
  ℕ, zero, suc, ◌+◌, ◌≡◌, refl, ◌⊎◌, inl, inr, String, Bool, true, not, ◌&&◌, Option, none, some,
  List, [], ◌∷◌, ◌++◌, text_in, str_eq, by_if, All, All-append, All-map, arith,
}
use purdue_af.Common.Text.{Text, strip}
use purdue_af.Common.Exec.{Outcome, ok, err}
use purdue_af.MattermostAgent.Linking.{Linking, Fault, token}
use purdue_af.MattermostAgent.Posts.{Post, Channels, is_empty}
use purdue_af.MattermostAgent.Answer.{
  Intent, personal, general, link, unlink, intent, text, told_ran, ToolCall, Turn, Called, Question,
  Answered, facility_tools, personal_tools, is_called, called, ran_of, converse, on_turn, on_reply,
  calls_of, in_session, need_link, owned, with_token, by_intent, answer,
}

-- As whom and which.
abbrev CallIn : List String → Option String → Called → Type 0
CallIn allowed by c = (c.by ≡ by) × (text_in c.name allowed ≡ true)

module _ (allowed : List String) (by : Option String) (turns : ℕ → Outcome Fault Turn) where
  called-CallIn : (calls : List ToolCall) → All (CallIn allowed by) (called allowed by calls)
  unfolding called is_called
  called-CallIn [] = tt
  called-CallIn (c ∷ calls) =
      by_if (All (CallIn allowed by))
        (c.parses && (not (str_eq c.name "read_doc") && text_in c.name allowed))
        (record { by = by; name = c.name } ∷ called allowed by calls) (called allowed by calls)
        (λ e. ((refl, ground (arith, e)), called-CallIn calls)) (λ _. called-CallIn calls)

  on_turn-CallIn :
      (rest : ℕ → List String → Answered)
      → ((i : ℕ) (ran : List String) → All (CallIn allowed by) (rest i ran).1)
      → (left i : ℕ) (ran : List String) (calls : List ToolCall) (content : Text)
      → All (CallIn allowed by) (on_turn allowed by turns rest left i ran calls content).1
  on_turn-CallIn rest h left i ran [] content =
      by_if (λ (x : Answered). All (CallIn allowed by) x.1) (is_empty (strip content))
        (ok (told_ran ran), []) (ok (text content), []) (λ _. tt) (λ _. tt)
  on_turn-CallIn rest h left i ran (c ∷ calls) content =
      All-append (CallIn allowed by) (called allowed by (c ∷ calls)) _ (called-CallIn (c ∷ calls))
        (h (i + 1) (ran ++ ran_of (c ∷ calls)))

  on_reply-CallIn :
      (rest : ℕ → List String → Answered)
      → ((i : ℕ) (ran : List String) → All (CallIn allowed by) (rest i ran).1)
      → (left i : ℕ) (ran : List String) (t : Outcome Fault Turn)
      → All (CallIn allowed by) (on_reply allowed by turns rest left i ran t).1
  on_reply-CallIn rest h left i ran (err f) = tt
  on_reply-CallIn rest h left i ran (ok t) =
      on_turn-CallIn rest h left i ran (calls_of allowed by turns left t) t.content

  converse-CallIn :
      (left i : ℕ) (ran : List String)
      → All (CallIn allowed by) (converse allowed by turns left i ran).1
  unfolding converse
  converse-CallIn zero i ran = tt
  converse-CallIn (suc left) i ran =
      on_reply-CallIn (converse allowed by turns left) (converse-CallIn left) left i ran (turns i)

-- As the agent itself, a tool of the facility; or as the author, with the live token of their own
-- link, one of all the tools, where their own posts were judged to ask for that.
abbrev pub IsAllowed : (ℕ → Bool) → Question → Post → Linking → Called → Type 0
IsAllowed is_word q p s c =
    CallIn facility_tools none c
    ⊎ ((t : String) × CallIn (facility_tools ++ personal_tools) (some t) c
        × ((token p.user q.now s).0 ≡ ok (some t))
        × (intent is_word q.intent_reply ≡ personal))

module _ (is_word : ℕ → Bool) (ch : Channels) (q : Question) (p : Post) where
  owned-IsAllowed :
      (s s' : Linking) (t : String) (o : Outcome Fault (Option String))
      → (token p.user q.now s).0 ≡ ok (some t)
      → intent is_word q.intent_reply ≡ personal
      → All (IsAllowed is_word q p s) (owned q p.user t s' o).0.1
  unfolding in_session need_link
  owned-IsAllowed s s' t (err f) e i = tt
  owned-IsAllowed s s' t (ok none) e i = tt
  owned-IsAllowed s s' t (ok (some name)) e i =
      All-map (λ c h. inr (t, h, e, i)) _
        (converse-CallIn (facility_tools ++ personal_tools) (some t) q.turns 10 0 [])

  with_token-IsAllowed :
      (s : Linking) (x : Outcome Fault (Option String) × Linking)
      → token p.user q.now s ≡ x
      → intent is_word q.intent_reply ≡ personal
      → All (IsAllowed is_word q p s) (with_token q p.user x).0.1
  unfolding need_link
  with_token-IsAllowed s (err f, s') e i = tt
  with_token-IsAllowed s (ok none, s') e i = tt
  with_token-IsAllowed s (ok (some t), s') e i = owned-IsAllowed s s' t q.owner (rw e refl) i

  by_intent-IsAllowed :
      (s : Linking) (i : Intent)
      → intent is_word q.intent_reply ≡ i
      → All (IsAllowed is_word q p s) (by_intent is_word ch q p i s).0.1
  unfolding in_session
  by_intent-IsAllowed s link e = tt
  by_intent-IsAllowed s unlink e = tt
  by_intent-IsAllowed s personal e = with_token-IsAllowed s (token p.user q.now s) refl e
  by_intent-IsAllowed s general e =
      All-map (λ c h. inl h) _ (converse-CallIn facility_tools none q.turns 10 0 [])

  -- Whatever the model, the Hub and the tools answer: each tool call that an answer makes is as the
  -- agent itself, of a tool of the facility; or as the author of the question, with the token of the
  -- author's own link that had not run out, of a tool of the facility or a personal one, and then the
  -- question was judged personal.
  pub answer-IsAllowed : (s : Linking) → All (IsAllowed is_word q p s) (answer is_word ch q p s).0.1
  unfolding answer
  answer-IsAllowed s = by_intent-IsAllowed s (intent is_word q.intent_reply) refl
