-- ===== src/LlmProxy/Forward/Fair.antt =====
-- What a request holds of the gates while it is sent on.
use purdue_af.Common.{
  ℕ, ◌+◌, ◌≤◌, ◌<◌, ◌≡◌, refl, sym, String, Bool, false, not, ◌||◌, Option, none, some, List, [],
  ◌∷◌, ◌++◌, ltb, ◌==◌, is_some, by_if, subst, arith,
}
use purdue_af.Common.Text.{Text}
use purdue_af.LlmProxy.{Model, Backend, Role}
use purdue_af.LlmProxy.Reply.{Reply}
use purdue_af.LlmProxy.Forward.{
  Pass, Loop, Next, returns, goes_on, GateCall, acquires, releases, fails, observes, succeeds,
  asked_tokens, cap_of, after_failure, after_cut, after_whole, after_answer, after_exchange, send,
  to_backend, pass, is_over, settle, is_cut, follow_pass, run, forward,
}
use purdue_af.LlmProxy.Exchange.{exchange}
use purdue_af.LlmProxy.Pick.{Request, Config, Sticky, estimate, share, room, pick, usable}

-- Each acquire is of fewer tokens than the model's share of its context, and is followed at once by
-- the release of the same tokens.
abbrev pub IsFair : Config → List GateCall → Type 0
IsFair c [] = Unit
IsFair c (acquires n t ∷ []) = ⊥
IsFair c (acquires n t ∷ releases n' t' k ∷ log) =
    (t < share (c.model_of n)) × (n' ≡ n) × (t' ≡ t) × IsFair c log
IsFair c (acquires n t ∷ acquires n' t' ∷ log) = ⊥
IsFair c (acquires n t ∷ fails n' r a ∷ log) = ⊥
IsFair c (acquires n t ∷ observes n' a b ∷ log) = ⊥
IsFair c (acquires n t ∷ succeeds n' a b ∷ log) = ⊥
IsFair c (releases n t k ∷ log) = ⊥
IsFair c (fails n r a ∷ log) = IsFair c log
IsFair c (observes n a b ∷ log) = IsFair c log
IsFair c (succeeds n a b ∷ log) = IsFair c log

IsFair-append : (c : Config) (a b : List GateCall) → IsFair c a → IsFair c b → IsFair c (a ++ b)
IsFair-append c [] b h k = k
IsFair-append c (acquires n t ∷ []) b h k = absurd h
IsFair-append c (acquires n t ∷ releases n' t' i ∷ a) b (p, q, r, h) k =
    (p, q, r, IsFair-append c a b h k)
IsFair-append c (acquires n t ∷ acquires n' t' ∷ a) b h k = absurd h
IsFair-append c (acquires n t ∷ fails n' r i ∷ a) b h k = absurd h
IsFair-append c (acquires n t ∷ observes n' i j ∷ a) b h k = absurd h
IsFair-append c (acquires n t ∷ succeeds n' i j ∷ a) b h k = absurd h
IsFair-append c (releases n t i ∷ a) b h k = absurd h
IsFair-append c (fails n r i ∷ a) b h k = IsFair-append c a b h k
IsFair-append c (observes n i j ∷ a) b h k = IsFair-append c a b h k
IsFair-append c (succeeds n i j ∷ a) b h k = IsFair-append c a b h k

asked_tokens-le : (q : Request) (cap : ℕ) → asked_tokens q cap ≤ cap
unfolding asked_tokens
asked_tokens-le q cap = omega arith

module _ (c : Config) (is_json : Text → Bool) (deadline : ℕ) (role : Role) (q : Request) where
  cap_of-le : (p : Pass) (n : ℕ) (l : Loop) → cap_of c is_json deadline role q p n l ≤ n
  unfolding cap_of
  cap_of-le p n l = omega arith

  tokens-lt :
      (p : Pass) (m : Model) (l : Loop) (prompt : ℕ)
      → 0 < m.floor
      → ltb (room prompt m) m.floor ≡ false
      → prompt + asked_tokens q (cap_of c is_json deadline role q p (room prompt m) l) < share m
  unfolding room
  tokens-lt p m l prompt f h =
      let a : asked_tokens q (cap_of c is_json deadline role q p (room prompt m) l)
          ≤ cap_of c is_json deadline role q p (room prompt m) l =
        asked_tokens-le q (cap_of c is_json deadline role q p (room prompt m) l) in
      let b : cap_of c is_json deadline role q p (room prompt m) l ≤ room prompt m =
        cap_of-le p (room prompt m) l in
      let d : m.floor ≤ room prompt m = ground arith in omega arith

  after_failure-IsFair :
      (p : Pass) (m : Model) (r : Reply) (l : Loop)
      → IsFair c (after_failure c is_json deadline role q p m r l).1
  unfolding after_failure
  after_failure-IsFair p m r l = ground arith

  after_cut-IsFair :
      (p : Pass) (m : Model) (r : Reply) (l : Loop)
      → IsFair c (after_cut c is_json deadline role q p m r l).1
  unfolding after_cut
  after_cut-IsFair p m r l = ground arith

  after_whole-IsFair :
      (m : Model) (r : Reply) (l : Loop) → IsFair c (after_whole c is_json deadline role q m r l).1
  unfolding after_whole
  after_whole-IsFair m r l = ground arith

  after_answer-IsFair :
      (p : Pass) (m : Model) (r : Reply) (l : Loop)
      → IsFair c (after_answer c is_json deadline role q p m r l).1
  unfolding after_answer
  after_answer-IsFair p m r l =
      ground
        (arith, after_failure-IsFair p m r l, after_cut-IsFair p m r l, after_whole-IsFair m r l)

  settle-IsFair :
      (o : Option Reply) (r : Reply) (x : Next × List GateCall)
      → IsFair c x.1
      → IsFair c (settle c is_json deadline role q o r x).1
  settle-IsFair none r x h = h
  settle-IsFair (some s) r x h =
      by_if (λ (y : Next × List GateCall). IsFair c y.1)
        (not (r.status == 200) || is_cut c is_json deadline role q r) (returns s, []) x (λ _. tt)
        (λ _. h)

  after_exchange-IsFair :
      (p : Pass) (m : Model) (r : Reply) (l : Loop)
      → IsFair c (after_exchange c is_json deadline role q p m r l).1
  unfolding after_exchange
  after_exchange-IsFair p m r l = settle-IsFair l.streamed r _ (after_answer-IsFair p m r l)

  send-IsFair :
      (p : Pass) (m : Model) (l : Loop)
      → c.model_of m.name ≡ m
      → 0 < m.floor
      → IsFair c (send c is_json deadline role q p m l).1
  unfolding send
  send-IsFair p m l e f =
      by_if Q (ltb (room (estimate c q m) m) m.floor) _ _ (λ _. tt)
        (λ fits.
          by_if Q (not p.acquired) _ _ (λ _. tt)
            (λ _. (
              subst (λ (n : Model). tokens < share n) (sym e)
                  (tokens-lt p m l (estimate c q m) f fits),
              refl,
              refl,
              after_exchange-IsFair p m (exchange (not (is_some l.streamed)) p.answer) l,
            )))
    where
      Q : Next × List GateCall → Type 0
      Q x = IsFair c x.1

      tokens : ℕ
      tokens =
          estimate c q m
          + asked_tokens q (cap_of c is_json deadline role q p (room (estimate c q m) m) l)

  module _ (named : (n : String) → c.model_of (c.model_of n).name ≡ c.model_of n)
      (floors : (n : String) → 0 < (c.model_of n).floor) where
    to_backend-IsFair :
        (p : Pass) (l : Loop) (picked : Option Backend × Sticky)
        → IsFair c (to_backend c is_json deadline role q p l picked).1
    unfolding to_backend
    to_backend-IsFair p l (none, sticky) = tt
    to_backend-IsFair p l (some b, sticky) =
        send-IsFair p (c.model_of b.model) _ (named b.model) (floors b.model)

    pass-IsFair : (p : Pass) (l : Loop) → IsFair c (pass c is_json deadline role q p l).1
    unfolding pass
    pass-IsFair p l =
        by_if (λ (x : Next × List GateCall). IsFair c x.1) p.gone _ _ (λ _. tt)
          (λ _.
            by_if (λ (x : Next × List GateCall). IsFair c x.1)
              (is_over c is_json deadline role q p.now l.streamed) _ _ (λ _. tt)
              (λ _. to_backend-IsFair p l (pick (usable c q) p.healthy role q.session l.sticky)))

    follow_pass-IsFair :
        (rest : Loop → Option Reply × List GateCall) (x : Next × List GateCall)
        → IsFair c x.1
        → ((l : Loop) → IsFair c (rest l).1)
        → IsFair c (follow_pass c is_json deadline role q rest x).1
    follow_pass-IsFair rest (returns r, log) h k = h
    follow_pass-IsFair rest (goes_on l, log) h k = IsFair-append c log (rest l).1 h (k l)

    run-IsFair : (ps : List Pass) (l : Loop) → IsFair c (run c is_json deadline role q ps l).1
    unfolding run
    run-IsFair [] l = tt
    run-IsFair (p ∷ ps) l =
        follow_pass-IsFair (run c is_json deadline role q ps) (pass c is_json deadline role q p l)
          (pass-IsFair p l) (run-IsFair ps)

    -- Where each model's name finds it and its least output is positive, whatever is answered to a
    -- request and however often it is tried: what each try holds of a gate, its estimated prompt and
    -- the output that it may take, is less than the share of the model's context that a user may
    -- hold; and each try that acquires releases the same tokens of the same gate before all else.
    pub forward-IsFair :
        (ps : List Pass) (sticky : Sticky)
        → IsFair c (forward c is_json deadline role q ps sticky).1
    unfolding forward
    forward-IsFair ps sticky = run-IsFair ps _
