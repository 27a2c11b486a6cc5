-- ===== src/LlmProxy/Server/Admitted.antt =====
-- The requests that Handler.do_POST of llm_proxy.py sends on, and where Proxy.pick sends them.
use purdue_af.Common.{
  ℕ, ◌+◌, ◌≤◌, ◌≡◌, ◌≢◌, refl, sym, ◌∙◌, ◌⊎◌, inl, inr, String, Bool, true, false, not, ◌&&◌,
  Option, none, some, List, [], ◌∷◌, ltb, if◌then◌else◌, eq_refl, any_of, keep, All, All-map,
  any_of-here, any_of-there, All-keep_of, keep-some, by_if, true≢false, none≢some, some_eq, subst,
  arith,
}
use purdue_af.Common.Dict.{Dict, get}
use purdue_af.Common.Text.{Text}
use purdue_af.LlmProxy.{Backend, Role}
use purdue_af.LlmProxy.Pick.{
  Request, Config, Sticky, usable, pick, choose, kept_backend, sticky_of, same_backend, first_of,
  head_or, or_backends, is_session,
}
use purdue_af.LlmProxy.Server.{
  Server, Post, Body, Answer, refuses, serves, admit, images, authorized, request_of,
  is_completions, answer_to, to_role, read_body, do_post,
}

same_refl : (b : Backend) → same_backend b b ≡ true
same_refl b = rw (eq_refl b.model) (eq_refl b.variant)

own_backends : (bs : List Backend) → All (λ b. any_of (same_backend b) bs ≡ true) bs
own_backends [] = tt
own_backends (b ∷ bs) = (
  any_of-here (same_backend b) b bs (same_refl b),
  All-map (λ a. any_of-there (same_backend a) b bs) bs (own_backends bs),
)

first_of-All :
    (P : Backend → Type 0) (q : Backend → Bool) (bs : List Backend)
    → All P bs
    → (first_of q bs ≡ none) ⊎ ((b : Backend) × (first_of q bs ≡ some b) × P b)
unfolding first_of
first_of-All P q [] h = inl refl
first_of-All P q (b ∷ bs) h =
    by_if (λ o. (o ≡ none) ⊎ ((b : Backend) × (o ≡ some b) × P b)) (q b) (some b) (first_of q bs)
      (λ _. inr (b, refl, h.0)) (λ _. first_of-All P q bs h.1)

head_or-All :
    (P : Backend → Type 0) (q : Backend → Bool) (bs : List Backend)
    → bs ≢ []
    → All P bs
    → (b : Backend) × (head_or (first_of q bs) bs ≡ some b) × P b
head_or-All P q [] some_one h = absurd (some_one refl)
head_or-All P q (b ∷ bs) some_one h = elim (first_of-All P q (b ∷ bs) h) [
  | inl e ↦ (b, rw e refl, h.0)
  | inr (a, e, k) ↦ (a, rw e refl, k)
]

or_backends_first : (s t : List Backend) → s ≢ [] → or_backends s t ≡ s
or_backends_first [] t some_one = absurd (some_one refl)
or_backends_first (b ∷ s) t some_one = refl

module _ (fits : Backend → Bool) (healthy : String → Bool) (role : Role) where
  -- The backend is one of the role's, and fits.
  abbrev pub IsFit : Backend → Type 0
  IsFit b = (any_of (same_backend b) role.backends ≡ true) × (fits b ≡ true)

  choose-IsFit :
      any_of fits role.backends ≡ true
      → (b : Backend) × (choose fits healthy role ≡ some b) × IsFit b
  unfolding choose
  choose-IsFit h = rw (or_backends_first (keep fits role.backends) role.backends some_one) (
      head_or-All IsFit (λ b. healthy b.model) (keep fits role.backends) some_one
        (All-keep_of _ fits role.backends (own_backends role.backends)))
    where
      some_one : keep fits role.backends ≢ []
      some_one = keep-some fits role.backends h

  kept_backend-IsFit :
      (o : Option Backend)
      → (kept_backend fits healthy role o ≡ none)
        ⊎ ((b : Backend) × (kept_backend fits healthy role o ≡ some b) × IsFit b)
  unfolding kept_backend
  kept_backend-IsFit none = inl refl
  kept_backend-IsFit (some b) =
      by_if (λ o. (o ≡ none) ⊎ ((b : Backend) × (o ≡ some b) × IsFit b))
        (any_of (same_backend b) role.backends && (healthy b.model && fits b)) (some b) none
        (λ e. inr (b, refl, (ground arith, ground arith))) (λ _. inl refl)

  pub pick-IsFit :
      (session : String) (sticky : Sticky)
      → any_of fits role.backends ≡ true
      → (b : Backend) × ((pick fits healthy role session sticky).0 ≡ some b) × IsFit b
  unfolding pick
  pick-IsFit session sticky h = elim (kept_backend-IsFit last) [
    | inl e ↦ rw e (choose-IsFit h)
    | inr (b, e, k) ↦ (b, rw e refl, k)
  ]
    where
      last : Option Backend
      last =
          if is_session fits healthy role session
          then sticky_of (role.name, session) sticky
          else none

-- The request is one that do_POST sends on, in the role that its body names.
pub record IsSentOn (c : Config) (token : Text) (max_body : ℕ) (roles : Dict Role) (p : Post)
    (role : Role) (q : Request) : Type 0 where
  pub body : Body
  pub path : is_completions p.path ≡ true
  pub bearer : authorized token p ≡ true
  pub small : p.length ≤ max_body
  pub parsed : p.body ≡ some body
  pub named : get body.model roles ≡ some role
  pub asked : q ≡ request_of p body
  pub few_images : images body.messages ≤ role.images
  pub fits : any_of (usable c q) role.backends ≡ true

module _ (c : Config) (token : Text) (max_body : ℕ) (roles : Dict Role) (s : Server)
    (p : Post) where
  -- A request is sent on only if it is one to send on and the server does not drain, and is counted
  -- then; one that is refused changes nothing, and is not one to send on unless the server drains.
  abbrev pub IsAnswered : Server × Answer → Type 0
  IsAnswered (t, refuses status code) =
      (t ≡ s)
      × ((role : Role) (q : Request) → IsSentOn c token max_body roles p role q → s.draining ≡ true)
  IsAnswered (t, serves role q stream) =
      IsSentOn c token max_body roles p role q
      × (s.draining ≡ false)
      × (t ≡ record s { in_flight = s.in_flight + 1 })

  admit-IsAnswered :
      (role : Role) (q : Request) (stream : Bool)
      → IsSentOn c token max_body roles p role q
      → IsAnswered (answer_to c token max_body roles role q stream (admit s))
  unfolding admit
  admit-IsAnswered role q stream sent =
      by_if (λ x. IsAnswered (answer_to c token max_body roles role q stream x)) s.draining _ _
        (λ e. (refl, λ r q k. e)) (λ e. (sent, e, refl))

  -- What is so of a request to send on, in terms of the body that is read.
  sent_by :
      (b : Body)
      → p.body ≡ some b
      → (role : Role) (q : Request) → IsSentOn c token max_body roles p role q
      → (get b.model roles ≡ some role)
        × (images b.messages ≤ role.images)
        × (any_of (usable c (request_of p b)) role.backends ≡ true)
  sent_by b parsed role q k =
      subst
        (λ (b : Body).
          (get b.model roles ≡ some role)
          × (images b.messages ≤ role.images)
          × (any_of (usable c (request_of p b)) role.backends ≡ true))
        (some_eq k.body b (sym k.parsed ∙ parsed))
        (
          k.named,
          k.few_images,
          subst (λ (q : Request). any_of (usable c q) role.backends ≡ true) k.asked k.fits,
        )

  -- The same, in terms of the role that is found.
  sent_to :
      (b : Body)
      → p.body ≡ some b
      → (found : Role) → get b.model roles ≡ some found
      → (role : Role) (q : Request) → IsSentOn c token max_body roles p role q
      → (images b.messages ≤ found.images)
        × (any_of (usable c (request_of p b)) found.backends ≡ true)
  sent_to b parsed found e role q k =
      let (named, few, fits) = sent_by b parsed role q k in
      subst
        (λ (r : Role).
          (images b.messages ≤ r.images) × (any_of (usable c (request_of p b)) r.backends ≡ true))
        (some_eq role found (sym named ∙ e)) (few, fits)

  module _ (path : is_completions p.path ≡ true) (bearer : authorized token p ≡ true)
      (small : p.length ≤ max_body) where
    to_role-IsAnswered :
        (b : Body)
        → p.body ≡ some b
        → (o : Option Role) → get b.model roles ≡ o
        → IsAnswered (to_role c token max_body roles s p b o)
    unfolding to_role
    to_role-IsAnswered b parsed none named =
        (refl, λ role q k. absurd (none≢some (sym named ∙ (sent_by b parsed role q k).0)))
    to_role-IsAnswered b parsed (some role) named =
        by_if IsAnswered (ltb role.images (images b.messages)) _ _
          (λ many.
            (refl, λ r q k. let (few, _) = sent_to b parsed role named r q k in ground arith))
          (λ few.
            by_if IsAnswered (not (any_of (usable c (request_of p b)) role.backends)) _ _
              (λ none_fits.
                (refl, λ r q k. let (_, fits) = sent_to b parsed role named r q k in ground arith))
              (λ fits. admit-IsAnswered role (request_of p b) b.stream (record {
                body = b;
                path = path;
                bearer = bearer;
                small = small;
                parsed = parsed;
                named = named;
                asked = refl;
                few_images = ground arith;
                fits = ground arith;
              })))

    read_body-IsAnswered :
        (o : Option Body) → p.body ≡ o → IsAnswered (read_body c token max_body roles s p o)
    unfolding read_body
    read_body-IsAnswered none e = (refl, λ role q k. absurd (none≢some (sym e ∙ k.parsed)))
    read_body-IsAnswered (some b) e = to_role-IsAnswered b e (get b.model roles) refl

  -- do_POST sends a request on only if its path is that of completions, its bearer token the proxy's,
  -- its body is JSON, within the bound, and names a role, its images are no more than the role takes,
  -- one of the role's backends has room for it, and the server does not drain; it is then counted in.
  -- Any other request is refused and not counted.
  pub do_post-IsAnswered : IsAnswered (do_post c token max_body roles s p)
  unfolding do_post
  do_post-IsAnswered =
      by_if IsAnswered (not (is_completions p.path)) _ _
        (λ e. (refl, λ r q k. absurd (true≢false (sym k.path ∙ ground arith))))
        (λ path.
          by_if IsAnswered (not (authorized token p)) _ _
            (λ e. (refl, λ r q k. absurd (true≢false (sym k.bearer ∙ ground arith))))
            (λ bearer.
              by_if IsAnswered (ltb max_body p.length) _ _
                (λ e. (refl, λ r q k. let le : p.length ≤ max_body = k.small in ground arith))
                (λ small.
                  read_body-IsAnswered (ground arith) (ground arith) (ground arith) p.body refl)))
