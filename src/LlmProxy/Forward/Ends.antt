-- ===== src/LlmProxy/Forward/Ends.antt =====
-- That a request is answered, after so many passes at most.
use purdue_af.Common.{
  ℕ, ◌+◌, ◌-◌, ◌≤◌, ◌<◌, ◌≡◌, refl, sym, ap, ◌∙◌, ◌⊎◌, inl, inr, Bool, true, false, not, ◌&&◌, ◌||◌,
  Option, none, some, List, [], ◌∷◌, length, ltb, leb, ◌==◌, if◌then◌else◌, is_some, is_text, by_if,
  arith, true≢false,
}
use purdue_af.Common.Text.{Text}
use purdue_af.LlmProxy.{Model, Backend, Role}
use purdue_af.LlmProxy.Reply.{Reply, problem, decode, failure}
use purdue_af.LlmProxy.Forward.{
  Pass, Loop, Next, returns, goes_on, GateCall, succeeds, is_over, or_streamed, is_cut, may_retry,
  follow_pass, settle, after_failure, after_cut, after_whole, after_answer, after_exchange, send,
  to_backend, pass, run, forward,
}
use purdue_af.LlmProxy.Exchange.{exchange}
use purdue_af.LlmProxy.Pick.{Request, Config, Sticky, room, estimate, pick, usable}

abbrev unstreamed : Option Reply → ℕ
unstreamed none = 1
unstreamed (some s) = 0

-- The time after a pass that goes on: a failure is waited for.
abbrev pub time_after : Pass → Loop → Loop → ℕ
time_after p l l' = if ltb l.failures l'.failures then p.later + p.wait else p.later

module _ (c : Config) (is_json : Text → Bool) (deadline : ℕ) (role : Role) (q : Request) where
  -- The tries that are left: of cut replies, of a faulty one, and by the time.
  abbrev pub weight : Loop → ℕ → ℕ
  weight l now = (c.settings.cut_retries + 1 - l.cuts) + unstreamed l.streamed + (deadline - now)

  -- A pass that goes on has found the client gone, or brings the end nearer.
  abbrev Shorter : Pass → Loop → Next → Type 0
  Shorter p l (returns r) = Unit
  Shorter p l (goes_on l') =
      (p.gone_failed ≡ true) ⊎ (weight l' (time_after p l l') < weight l p.now)

  abbrev PassShorter : Pass → Loop → Next × List GateCall → Type 0
  PassShorter p l x = Shorter p l x.0

  -- The clock of a pass goes forward, and a wait takes time.
  abbrev pub IsClocked : Pass → Type 0
  IsClocked p = (p.now ≤ p.later) × (1 ≤ p.wait)

  after_failure-Shorter :
      (p : Pass) (m : Model) (r : Reply) (l : Loop)
      → IsClocked p
      → PassShorter p l (after_failure c is_json deadline role q p m r l)
  unfolding after_failure
  after_failure-Shorter p m r l k =
      by_if (PassShorter p l) p.gone_failed _ _ (λ g. inl g)
        (λ _.
          by_if (PassShorter p l) (leb deadline (p.later + p.wait)) _ _ (λ _. tt)
            (λ d. by_if (PassShorter p l) p.stopped _ _ (λ _. tt) (λ _. inr (ground arith))))

  after_cut-Shorter :
      (p : Pass) (m : Model) (r : Reply) (l : Loop)
      → IsClocked p
      → PassShorter p l (after_cut c is_json deadline role q p m r l)
  unfolding after_cut
  after_cut-Shorter p m r l k =
      by_if (PassShorter p l) (ltb c.settings.cut_retries (l.cuts + 1) || leb deadline p.later) _ _
        (λ _. tt) (λ e. inr (ground arith))

  after_whole-Shorter :
      (p : Pass) (m : Model) (r : Reply) (l : Loop)
      → IsClocked p
      → PassShorter p l (after_whole c is_json deadline role q m r l)
  unfolding after_whole
  after_whole-Shorter p m r l k =
      by_if (PassShorter p l)
        (is_some (problem is_json r)
          && (not (is_text r.finish "length") && not (is_some l.streamed)))
        (goes_on (record l { streamed = some r }), [])
        (returns r, succeeds m.name r.ttft (decode r) ∷ [])
        (λ e. inr (once l.streamed refl (ground (arith, e)))) (λ _. tt)
    where
      once :
          (o : Option Reply)
          → l.streamed ≡ o
          → is_some o ≡ false
          → weight
              (record l { streamed = some r })
              (time_after p l (record l { streamed = some r }))
            < weight l p.now
      once none e h = let u : unstreamed l.streamed ≡ 1 = ap unstreamed e in ground arith
      once (some s) e h = cc

  after_answer-Shorter :
      (p : Pass) (m : Model) (r : Reply) (l : Loop)
      → IsClocked p
      → PassShorter p l (after_answer c is_json deadline role q p m r l)
  unfolding after_answer
  after_answer-Shorter p m r l k =
      by_if (PassShorter p l) (may_retry c is_json deadline role q r) _ _
        (λ _. after_failure-Shorter p m r l k)
        (λ _.
          by_if (PassShorter p l) (not (r.status == 200)) _ _ (λ _. tt)
            (λ _.
              by_if (PassShorter p l) (not r.done) _ _ (λ _. after_cut-Shorter p m r l k)
                (λ _. after_whole-Shorter p m r l k)))

  settle-Shorter :
      (p : Pass) (l : Loop) (o : Option Reply) (r : Reply) (x : Next × List GateCall)
      → PassShorter p l x
      → PassShorter p l (settle c is_json deadline role q o r x)
  settle-Shorter p l none r x k = k
  settle-Shorter p l (some s) r x k =
      by_if (PassShorter p l) (not (r.status == 200) || is_cut c is_json deadline role q r)
        (returns s, []) x (λ _. tt) (λ _. k)

  or_streamed-Shorter :
      (p : Pass) (l : Loop) (o : Option Reply)
      → Shorter p l (or_streamed c is_json deadline role q o)
  or_streamed-Shorter p l none = tt
  or_streamed-Shorter p l (some s) = tt

  send-Shorter :
      (p : Pass) (m : Model) (l : Loop)
      → IsClocked p
      → PassShorter p l (send c is_json deadline role q p m l)
  unfolding send after_exchange
  send-Shorter p m l k =
      by_if (PassShorter p l) (ltb (room (estimate c q m) m) m.floor) _ _ (λ _. tt)
        (λ _.
          by_if (PassShorter p l) (not p.acquired) _ _
            (λ _.
              by_if (Shorter p l) p.gone_queued _ _ (λ _. tt)
                (λ _. or_streamed-Shorter p l l.streamed))
            (λ _. settle-Shorter p l l.streamed reply _ (after_answer-Shorter p m reply l k)))
    where
      reply : Reply
      reply = exchange (not (is_some l.streamed)) p.answer

  stuck-Shorter :
      (p : Pass) (l : Loop) (sticky : Sticky) (n : Next)
      → Shorter p (record l { sticky = sticky }) n
      → Shorter p l n
  stuck-Shorter p l sticky (returns r) k = k
  stuck-Shorter p l sticky (goes_on l') k = k

  to_backend-Shorter :
      (p : Pass) (l : Loop) (picked : Option Backend × Sticky)
      → IsClocked p
      → PassShorter p l (to_backend c is_json deadline role q p l picked)
  unfolding to_backend
  to_backend-Shorter p l (none, sticky) k = tt
  to_backend-Shorter p l (some b, sticky) k =
      stuck-Shorter p l sticky _
        (send-Shorter p (c.model_of b.model) (record l { sticky = sticky }) k)

  pass-Shorter :
      (p : Pass) (l : Loop) → IsClocked p → PassShorter p l (pass c is_json deadline role q p l)
  unfolding pass
  pass-Shorter p l k =
      by_if (PassShorter p l) p.gone _ _ (λ _. tt)
        (λ _.
          by_if (PassShorter p l) (is_over c is_json deadline role q p.now l.streamed) _ _
            (λ _. or_streamed-Shorter p l l.streamed)
            (λ _. to_backend-Shorter p l (pick (usable c q) p.healthy role q.session l.sticky) k))

  -- A client that is gone is answered at once.
  Returns : Option Reply → Type 0
  Returns o = (r : Reply) × (o ≡ some r)

  run_gone :
      (p : Pass) (ps : List Pass) (l : Loop)
      → p.gone ≡ true
      → Returns (run c is_json deadline role q (p ∷ ps) l).0
  unfolding run pass Returns
  run_gone p ps l e = (failure 499 "server_error" "the client is gone", rw e refl)

  abbrev pub AfterNext : (Loop → Type 0) → Next → Type 0
  AfterNext P (returns r) = Unit
  AfterNext P (goes_on l) = P l

  -- The passes' clocks, from a time on: each waits as long as it is told to; and a client that is
  -- gone stays so.
  abbrev pub IsTimed : List Pass → ℕ → Bool → Loop → Type 0
  IsTimed [] now gone l = Unit
  IsTimed (p ∷ ps) now gone l =
      (now ≤ p.now)
      × IsClocked p
      × ((gone ≡ false) ⊎ (p.gone ≡ true))
      × AfterNext (λ l'. IsTimed ps (time_after p l l') p.gone_failed l')
          (pass c is_json deadline role q p l).0

  follow_pass-Returns :
      (p : Pass) (ps : List Pass) (l : Loop) (x : Next × List GateCall)
      → PassShorter p l x
      → ((l' : Loop)
          → Shorter p l (goes_on l')
          → AfterNext (λ k. IsTimed ps (time_after p l k) p.gone_failed k) (goes_on l')
          → Returns (run c is_json deadline role q ps l').0)
      → AfterNext (λ k. IsTimed ps (time_after p l k) p.gone_failed k) x.0
      → Returns (follow_pass c is_json deadline role q (run c is_json deadline role q ps) x).0
  unfolding Returns
  follow_pass-Returns p ps l (returns r, log) s rest t = (r, refl)
  follow_pass-Returns p ps l (goes_on l', log) s rest t = rest l' s t

  run_ends :
      (ps : List Pass) (now : ℕ) (gone : Bool) (l : Loop)
      → IsTimed ps now gone l
      → ((gone ≡ true) × (1 ≤ length ps)) ⊎ (weight l now + 2 ≤ length ps)
      → Returns (run c is_json deadline role q ps l).0
  unfolding run
  run_ends [] now gone l t (inl (g, e)) = absurd (omega arith)
  run_ends [] now gone l t (inr e) = absurd (omega arith)
  run_ends (p ∷ ps) now gone l t (inl (g, e)) =
      run_gone p ps l (elim t.2 [ inl f ↦ absurd (true≢false (sym g ∙ f)) | inr f ↦ f ])
  run_ends (p ∷ ps) now gone l t (inr e) =
      follow_pass-Returns p ps l (pass c is_json deadline role q p l) (pass-Shorter p l t.1)
        (λ l' s u. run_ends ps (time_after p l l') p.gone_failed l' u (bound l' s)) t.3
    where
      later : weight l p.now ≤ weight l now
      later = omega (arith, t.0)

      bound :
          (l' : Loop)
          → Shorter p l (goes_on l')
          → ((p.gone_failed ≡ true) × (1 ≤ length ps))
            ⊎ (weight l' (time_after p l l') + 2 ≤ length ps)
      bound l' (inl g) = inl (g, omega arith)
      bound l' (inr w) = inr (omega (arith, later))

  -- A request is answered: if the passes' clocks go forward, each waits as long as it is told to,
  -- some time at all, and a client that is gone stays so, then one of the passes returns, where there
  -- are as many as the cuts that are retried, the milliseconds until the deadline, and four.
  pub forward_ends :
      (ps : List Pass) (sticky : Sticky) (now : ℕ)
      → IsTimed ps now false
          (record { cuts = 0; shrink = 0; failures = 0; streamed = none; sticky = sticky })
      → c.settings.cut_retries + (deadline - now) + 4 ≤ length ps
      → (r : Reply) × ((forward c is_json deadline role q ps sticky).0 ≡ some r)
  unfolding forward Returns
  forward_ends ps sticky now t h = run_ends ps now false _ t (inr (omega arith))
