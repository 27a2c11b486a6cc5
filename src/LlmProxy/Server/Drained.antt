-- ===== src/LlmProxy/Server/Drained.antt =====
-- The requests in flight, over the calls of Handler.do_POST and Server's methods of llm_proxy.py.
use purdue_af.Common.{
  ◌+◌, All-middle, length-middle, ℕ, ◌≡◌, refl, sym, ap, ◌∙◌, subst, String, Bool, true, some, List,
  [], ◌∷◌, ◌++◌, length, All, All-map, true≢false, arith,
}
use mathlib.Core.List.{Memᴰ}
use purdue_af.Common.Dict.{Dict}
use purdue_af.Common.Text.{Text}
use purdue_af.LlmProxy.{Backend, Role}
use purdue_af.LlmProxy.Pick.{Request, Config, Sticky, usable, pick}
use purdue_af.LlmProxy.Server.{
  Server, Post, Answer, refuses, serves, new_server, finished, drain, do_post,
}
use purdue_af.LlmProxy.Server.Admitted.{IsFit, IsAnswered, pick-IsFit, do_post-IsAnswered}

-- The server, with the requests that are sent on and have no answer yet.
pub record Process : Type 0 where
  pub server : Server
  pub unanswered : List (Role × Request)

abbrev pub begun : Process
begun = record { server = new_server; unanswered = [] }

abbrev pub process_of : List (Role × Request) → Server × Answer → Process
process_of unanswered (s, refuses status code) = record { server = s; unanswered = unanswered }
process_of unanswered (s, serves role q stream) = record {
  server = s;
  unanswered = (role, q) ∷ unanswered;
}

module _ (c : Config) (token : Text) (max_body : ℕ) (roles : Dict Role) where
  -- A call, by any thread: only a request that was sent on is finished.
  pub data Step (s t : Process) : Type 0 where
    posts :
        (p : Post)
        → t ≡ process_of s.unanswered (do_post c token max_body roles s.server p)
        → Step s t
    finishes :
        (before after : List (Role × Request)) (e : Role × Request)
        → s.unanswered ≡ before ++ (e ∷ after)
        → t ≡ record { server = finished s.server; unanswered = before ++ after }
        → Step s t
    drains : t ≡ record s { server = drain s.server } → Step s t

  pub data Reach (s : Process) : Process → Type 0 where
    here : Reach s s
    next : {t u : Process} → Reach s t → Step t u → Reach s u

  -- Whatever models are healthy, the request goes to a backend of its role that has room for it.
  abbrev pub HasRoom : Role × Request → Type 0
  HasRoom (role, q) =
      (healthy : String → Bool) (sticky : Sticky)
      → (b : Backend) × ((pick (usable c q) healthy role q.session sticky).0 ≡ some b)
        × IsFit (usable c q) healthy role b

  abbrev pub IsCounted : Process → Type 0
  IsCounted s = (s.server.in_flight ≡ length s.unanswered) × All HasRoom s.unanswered

  process_of-IsCounted :
      (s : Process) (p : Post) (x : Server × Answer)
      → IsCounted s
      → IsAnswered c token max_body roles s.server p x
      → IsCounted (process_of s.unanswered x)
  process_of-IsCounted s p (t, refuses status code) k (e, _) =
      (ap (λ (v : Server). v.in_flight) e ∙ k.0, k.1)
  process_of-IsCounted s p (t, serves role q stream) k (sent, _, e) = (
    omega (arith, ap (λ (v : Server). v.in_flight) e, k.0),
    ((λ healthy sticky. pick-IsFit (usable c q) healthy role q.session sticky sent.fits), k.1),
  )

  Step-IsCounted : (s t : Process) → Step s t → IsCounted s → IsCounted t
  unfolding finished drain
  Step-IsCounted s t (posts p e) k =
      subst IsCounted (sym e)
        (process_of-IsCounted s p _ k (do_post-IsAnswered c token max_body roles s.server p))
  Step-IsCounted s t (finishes before after e o f) k =
      let n : s.server.in_flight ≡ 1 + length (before ++ after) =
        k.0 ∙ ap length o ∙ length-middle before after e in
      subst IsCounted (sym f)
        (omega arith, All-middle HasRoom before after e (subst (All HasRoom) o k.1))
  Step-IsCounted s t (drains e) k = subst IsCounted (sym e) k

  -- After any calls, in any order: in_flight is the number of the requests that were sent on and are
  -- not finished; and each of those, whichever models are healthy and whatever its session used
  -- before, goes to a backend of its role that has room for its prompt and the least output.
  pub Reach-IsCounted : (s : Process) → Reach begun s → IsCounted s
  Reach-IsCounted s here = (refl, tt)
  Reach-IsCounted s (next r st) = Step-IsCounted _ s st (Reach-IsCounted _ r)

  -- Nothing was admitted since: what is unanswered was so then.
  abbrev pub Drains : Process → Process → Type 0
  Drains s t = (t.server.draining ≡ true) × All (λ e. Memᴰ e s.unanswered) t.unanswered

  process_of-Drains :
      (s t : Process) (p : Post) (x : Server × Answer)
      → Drains s t
      → IsAnswered c token max_body roles t.server p x
      → Drains s (process_of t.unanswered x)
  process_of-Drains s t p (v, refuses status code) k (e, _) =
      (ap (λ (v : Server). v.draining) e ∙ k.0, k.1)
  process_of-Drains s t p (v, serves role q stream) k (_, e, _) = absurd (true≢false (sym k.0 ∙ e))

  Step-Drains : (s t u : Process) → Step t u → Drains s t → Drains s u
  unfolding finished drain
  Step-Drains s t u (posts p e) k =
      subst (Drains s) (sym e)
        (process_of-Drains s t p _ k (do_post-IsAnswered c token max_body roles t.server p))
  Step-Drains s t u (finishes before after e o f) k =
      subst (Drains s) (sym f)
        (k.0, All-middle _ before after e (subst (All (λ e. Memᴰ e s.unanswered)) o k.1))
  Step-Drains s t u (drains e) k = subst (Drains s) (sym e) (refl, k.1)

  own_unanswered : (es : List (Role × Request)) → All (λ e. Memᴰ e es) es
  own_unanswered [] = tt
  own_unanswered (e ∷ es) = (Memᴰ.head refl, All-map (λ x m. Memᴰ.tail m) es (own_unanswered es))

  -- Once a server drains, whatever is called then in whatever order: it drains for good, and the
  -- requests in flight are ones that were in flight when it began to.
  pub Reach-Drains : (s t : Process) → s.server.draining ≡ true → Reach s t → Drains s t
  Reach-Drains s t d here = (d, own_unanswered s.unanswered)
  Reach-Drains s t d (next r st) = Step-Drains s _ t st (Reach-Drains s _ d r)
