-- ===== src/LlmProxy/Forward/Whole.antt =====
-- No reply that was cut off is passed on.
use purdue_af.Common.{
  ◌+◌, ℕ, ◌≡◌, ◌≢◌, refl, ◌⊎◌, inl, inr, String, Bool, true, false, not, ◌||◌, Option, none, some,
  List, [], ◌∷◌, ltb, leb, ◌==◌, is_some, by_if, subst, ◌&&◌, is_text, arith,
}
use purdue_af.Common.Text.{Text}
use purdue_af.LlmProxy.{Model, Backend, Role}
use purdue_af.LlmProxy.Reply.{Reply, new_reply, failure, problem, decode}
use purdue_af.LlmProxy.Forward.{
  Pass, Loop, Next, returns, goes_on, GateCall, is_over, or_streamed, is_cut, may_retry,
  follow_pass, settle, succeeds, after_failure, after_cut, after_whole, after_answer,
  after_exchange, send, to_backend, pass, run, forward,
}
use purdue_af.LlmProxy.Exchange.{exchange, broken}
use purdue_af.LlmProxy.Pick.{Request, Config, Sticky, room, estimate, pick, usable}

abbrev pub IsWhole : Reply → Type 0
IsWhole r = (r.done ≡ true) ⊎ (r.status ≢ 200)

abbrev StreamedWhole : Option Reply → Type 0
StreamedWhole none = Unit
StreamedWhole (some s) = IsWhole s

abbrev NextWhole : Next → Type 0
NextWhole (returns r) = IsWhole r
NextWhole (goes_on l) = StreamedWhole l.streamed

abbrev PassWhole : Next × List GateCall → Type 0
PassWhole x = NextWhole x.0

failure-IsWhole :
    (status : ℕ) (code text : String) → status ≢ 200 → IsWhole (failure status code text)
unfolding failure new_reply
failure-IsWhole status code text h = inr h

not_200 : (n : ℕ) → (n == 200) ≡ false → n ≢ 200
not_200 n h e = ground arith

not_cut : (b : Bool) → not b ≡ false → b ≡ true
not_cut true h = refl
not_cut false h = cc

module _ (c : Config) (is_json : Text → Bool) (deadline : ℕ) (role : Role) (q : Request) where
  or_streamed-NextWhole :
      (o : Option Reply) → StreamedWhole o → NextWhole (or_streamed c is_json deadline role q o)
  or_streamed-NextWhole none h = failure-IsWhole _ _ _ (λ e. omega arith)
  or_streamed-NextWhole (some s) h = h

  after_failure-PassWhole :
      (p : Pass) (m : Model) (r : Reply) (l : Loop)
      → StreamedWhole l.streamed
      → PassWhole (after_failure c is_json deadline role q p m r l)
  unfolding after_failure
  after_failure-PassWhole p m r l h =
      by_if PassWhole p.gone_failed _ _ (λ _. h)
        (λ _.
          by_if PassWhole (leb deadline (p.later + p.wait)) _ _
            (λ _. failure-IsWhole _ _ _ (λ e. omega arith))
            (λ _.
              by_if PassWhole p.stopped _ _ (λ _. failure-IsWhole _ _ _ (λ e. omega arith))
                (λ _. h)))

  after_cut-PassWhole :
      (p : Pass) (m : Model) (r : Reply) (l : Loop)
      → StreamedWhole l.streamed
      → PassWhole (after_cut c is_json deadline role q p m r l)
  unfolding after_cut
  after_cut-PassWhole p m r l h =
      by_if PassWhole (ltb c.settings.cut_retries (l.cuts + 1) || leb deadline p.later) _ _
        (λ _. failure-IsWhole _ _ _ (λ e. omega arith)) (λ _. h)

  after_whole-PassWhole :
      (m : Model) (r : Reply) (l : Loop)
      → r.done ≡ true
      → PassWhole (after_whole c is_json deadline role q m r l)
  unfolding after_whole
  after_whole-PassWhole m r l d =
      by_if PassWhole
        (is_some (problem is_json r)
          && (not (is_text r.finish "length") && not (is_some l.streamed)))
        (goes_on (record l { streamed = some r }), [])
        (returns r, succeeds m.name r.ttft (decode r) ∷ []) (λ _. inl d) (λ _. inl d)

  after_answer-PassWhole :
      (p : Pass) (m : Model) (r : Reply) (l : Loop)
      → StreamedWhole l.streamed
      → PassWhole (after_answer c is_json deadline role q p m r l)
  unfolding after_answer
  after_answer-PassWhole p m r l h =
      by_if PassWhole (may_retry c is_json deadline role q r) _ _
        (λ _. after_failure-PassWhole p m r l h)
        (λ _.
          by_if PassWhole (not (r.status == 200)) _ _ (λ e. inr (not_200 r.status (ground arith)))
            (λ _.
              by_if PassWhole (not r.done) _ _ (λ _. after_cut-PassWhole p m r l h)
                (λ d. after_whole-PassWhole m r l (not_cut r.done d))))

  settle-PassWhole :
      (o : Option Reply) (r : Reply) (x : Next × List GateCall)
      → StreamedWhole o
      → PassWhole x
      → PassWhole (settle c is_json deadline role q o r x)
  settle-PassWhole none r x h k = k
  settle-PassWhole (some s) r x h k =
      by_if PassWhole (not (r.status == 200) || is_cut c is_json deadline role q r) (returns s, [])
        x (λ _. h) (λ _. k)

  send-PassWhole :
      (p : Pass) (m : Model) (l : Loop)
      → StreamedWhole l.streamed
      → PassWhole (send c is_json deadline role q p m l)
  unfolding send after_exchange
  send-PassWhole p m l h =
      by_if PassWhole (ltb (room (estimate c q m) m) m.floor) _ _
        (λ _. failure-IsWhole _ _ _ (λ e. omega arith))
        (λ _.
          by_if PassWhole (not p.acquired) _ _
            (λ _.
              by_if NextWhole p.gone_queued _ _ (λ _. failure-IsWhole _ _ _ (λ e. omega arith))
                (λ _. or_streamed-NextWhole l.streamed h))
            (λ _. settle-PassWhole l.streamed reply _ h (after_answer-PassWhole p m reply l h)))
    where
      reply : Reply
      reply = exchange (not (is_some l.streamed)) p.answer

  to_backend-PassWhole :
      (p : Pass) (l : Loop) (picked : Option Backend × Sticky)
      → StreamedWhole l.streamed
      → PassWhole (to_backend c is_json deadline role q p l picked)
  unfolding to_backend broken new_reply
  to_backend-PassWhole p l (none, sticky) h = inr (λ e. omega arith)
  to_backend-PassWhole p l (some b, sticky) h =
      send-PassWhole p (c.model_of b.model) (record l { sticky = sticky }) h

  pass-PassWhole :
      (p : Pass) (l : Loop)
      → StreamedWhole l.streamed
      → PassWhole (pass c is_json deadline role q p l)
  unfolding pass
  pass-PassWhole p l h =
      by_if PassWhole p.gone _ _ (λ _. failure-IsWhole _ _ _ (λ e. omega arith))
        (λ _.
          by_if PassWhole (is_over c is_json deadline role q p.now l.streamed) _ _
            (λ _. or_streamed-NextWhole l.streamed h)
            (λ _. to_backend-PassWhole p l (pick (usable c q) p.healthy role q.session l.sticky) h))

  abbrev AnswerWhole : Option Reply → Type 0
  AnswerWhole none = Unit
  AnswerWhole (some r) = IsWhole r

  follow_pass-AnswerWhole :
      (rest : Loop → Option Reply × List GateCall) (x : Next × List GateCall)
      → PassWhole x
      → ((l : Loop) → StreamedWhole l.streamed → AnswerWhole (rest l).0)
      → AnswerWhole (follow_pass c is_json deadline role q rest x).0
  follow_pass-AnswerWhole rest (returns r, log) h k = h
  follow_pass-AnswerWhole rest (goes_on l, log) h k = k l h

  run-AnswerWhole :
      (ps : List Pass) (l : Loop)
      → StreamedWhole l.streamed
      → AnswerWhole (run c is_json deadline role q ps l).0
  unfolding run
  run-AnswerWhole [] l h = tt
  run-AnswerWhole (p ∷ ps) l h =
      follow_pass-AnswerWhole (run c is_json deadline role q ps)
        (pass c is_json deadline role q p l) (pass-PassWhole p l h) (run-AnswerWhole ps)

  -- Whatever is answered to a request: what it is answered with in the end, if it has status 200, is
  -- a reply that came to its end, and not one that was cut off.
  pub forward-IsWhole :
      (ps : List Pass) (sticky : Sticky) (r : Reply)
      → (forward c is_json deadline role q ps sticky).0 ≡ some r
      → IsWhole r
  unfolding forward
  forward-IsWhole ps sticky r e = subst AnswerWhole e (
      run-AnswerWhole ps
        (record { cuts = 0; shrink = 0; failures = 0; streamed = none; sticky = sticky }) tt)
