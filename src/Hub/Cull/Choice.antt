-- ===== src/Hub/Cull/Choice.antt =====
-- Which servers a pass of cull-gpu-sessions.py stops.
use purdue_af.Common.{
  ℕ, ◌+◌, ◌≤◌, String, true, false, Option, none, some, List, [], ◌∷◌, ltb, ◌≡◌, refl, sym, subst,
  ap, ◌↔◌, ◌⊎◌, inl, inr, arith, by_if, some_eq, ◌∙◌, none≢some,
}
use mathlib.Core.List.{Memᴰ}
use purdue_af.Common.Exec.{Outcome, ok, err}
use purdue_af.Common.Result.{err≢ok, ok_eq}
use purdue_af.Common.Dict.{Dict, get}
use purdue_af.Hub.Cull.{
  Pod, gpu_servers, Server, idle_since, Raised, Call, get_user, delete_server, Answers, stop_idle,
  at_server, at_user, cull_server, cull_each, cull_once, is_pending,
}
use purdue_af.Hub.Cull.Pods.{IsGpuPod, gpu_servers_iff}

-- A server that the Hub knows, that is not starting or stopping, and that was last used the timeout
-- ago or more.
pub record IsIdle (hub : Answers) (now timeout : ℕ) (user name : String) : Type 0 where
  pub servers : Dict Server
  pub answered : hub.servers user name ≡ some servers
  pub server : Server
  pub known : get name servers ≡ some server
  pub settled : server.pending ≡ none
  pub since : ℕ
  pub counted : idle_since now server ≡ ok since
  pub long : since + timeout ≤ now

module _ (hub : Answers) (now timeout : ℕ) (user name : String) where
  -- The calls that one server's turn adds, by whether it is idle.
  abbrev Added : List Call → List Call → Type 0
  Added calls calls' =
      (calls' ≡ delete_server user name ∷ calls) × IsIdle hub now timeout user name
      ⊎ (calls' ≡ calls) × (IsIdle hub now timeout user name → ⊥)

  -- What the Hub says of the server is what makes it idle.
  counted_as :
      (servers : Dict Server) (server : Server)
      → hub.servers user name ≡ some servers
      → get name servers ≡ some server
      → (i : IsIdle hub now timeout user name)
      → (server.pending ≡ none) × (idle_since now server ≡ ok i.since)
  counted_as servers server a k i =
      let same : i.servers ≡ servers = some_eq i.servers servers (sym i.answered ∙ a) in
      let known : get name servers ≡ some i.server =
        subst (λ m. get name m ≡ some i.server) same i.known in
      let one : i.server ≡ server = some_eq i.server server (sym known ∙ k) in
      subst (λ (x : Server). (x.pending ≡ none) × (idle_since now x ≡ ok i.since)) one
        (i.settled, i.counted)

  stop_idle-Added :
      (servers : Dict Server) (server : Server)
      → hub.servers user name ≡ some servers
      → get name servers ≡ some server
      → server.pending ≡ none
      → (o : Outcome Raised ℕ) → idle_since now server ≡ o
      → (calls : List Call) → Added calls (stop_idle hub now timeout user name o calls).1
  unfolding stop_idle
  stop_idle-Added servers server a k p (err e) c calls =
      inr (refl, λ i. err≢ok e i.since (sym c ∙ (counted_as servers server a k i).1))
  stop_idle-Added servers server a k p (ok since) c calls =
      by_if {A = Outcome Raised (Unit {0}) × List Call} (λ r. Added calls r.1)
        (ltb now (since + timeout)) (ok tt, calls) _
        (λ soon. inr (
          refl,
          λ i.
              early i.since since
                (ok_eq i.since since (sym (counted_as servers server a k i).1 ∙ c)) i.long soon,
        ))
        (λ late. inl (
          refl,
          record {
            servers = servers;
            answered = a;
            server = server;
            known = k;
            settled = p;
            since = since;
            counted = c;
            long = ground (arith, late);
          },
        ))
    where
      early : (t u : ℕ) → t ≡ u → t + timeout ≤ now → ltb now (u + timeout) ≡ true → ⊥
      early t u e le soon = ground arith

  at_server-Added :
      (servers : Dict Server)
      → hub.servers user name ≡ some servers
      → (o : Option Server) → get name servers ≡ o
      → (calls : List Call) → Added calls (at_server hub now timeout user name o calls).1
  unfolding at_server
  at_server-Added servers a none k calls = inr (
    refl,
    λ i. none≢some (
        sym k
        ∙ subst (λ m. get name m ≡ some i.server) (some_eq i.servers servers (sym i.answered ∙ a))
            i.known),
  )
  at_server-Added servers a (some server) k calls =
      by_if {A = Outcome Raised (Unit {0}) × List Call} (λ r. Added calls r.1)
        (is_pending server.pending) (ok tt, calls) _
        (λ yes_. inr (refl, λ i. not_both server.pending yes_ (counted_as servers server a k i).0))
        (λ no_.
          stop_idle-Added servers server a k (none_pending server.pending no_)
            (idle_since now server) refl calls)
    where
      not_both : (p : Option String) → is_pending p ≡ true → p ≡ none → ⊥
      not_both none yes_ e = cc
      not_both (some q) yes_ e = cc

      none_pending : (p : Option String) → is_pending p ≡ false → p ≡ none
      none_pending none e = refl
      none_pending (some q) e = cc

  at_user-Added :
      (o : Option (Dict Server))
      → hub.servers user name ≡ o
      → (calls : List Call) → Added calls (at_user hub now timeout user name o calls).1
  unfolding at_user
  at_user-Added none a calls = inr (refl, λ i. none≢some (sym a ∙ i.answered))
  at_user-Added (some servers) a calls = at_server-Added servers a (get name servers) refl calls

  cull_server-Added :
      (calls : List Call)
      → Added (get_user user ∷ calls) (cull_server hub now timeout user name calls).1
  unfolding cull_server
  cull_server-Added calls = at_user-Added (hub.servers user name) refl (get_user user ∷ calls)

-- Whether the pass deletes a server.
abbrev Deletes : String → String → List Call → Type 0
Deletes user name calls = Memᴰ (delete_server user name) calls

module _ (user name u n : String) (calls : List Call) where
  past_get : Deletes user name (get_user u ∷ calls) → Deletes user name calls
  past_get (Memᴰ.head e) = absurd (no e)
    where
      no : delete_server user name ≡ get_user u → ⊥
      no e = cc
  past_get (Memᴰ.tail m) = m

  past_delete :
      Deletes user name (delete_server u n ∷ get_user u ∷ calls)
      → Deletes user name calls ⊎ (user ≡ u) × (name ≡ n)
  past_delete (Memᴰ.head e) = inr (cc, cc)
  past_delete (Memᴰ.tail m) = inl (past_get m)

-- A deletion is among the calls after a server's turn if it was before, or if the server is idle.
turn_iff :
    (hub : Answers) (now timeout : ℕ) (u n user name : String) (calls : List Call)
    → Deletes user name (cull_server hub now timeout u n calls).1
      ↔ (Deletes user name calls ⊎ (((user ≡ u) × (name ≡ n)) × IsIdle hub now timeout u n))
turn_iff hub now timeout u n user name calls =
    at (cull_server hub now timeout u n calls).1 (cull_server-Added hub now timeout u n calls)
  where
    at :
        (calls' : List Call)
        → Added hub now timeout u n (get_user u ∷ calls) calls'
        → Deletes user name calls'
          ↔ (Deletes user name calls ⊎ (((user ≡ u) × (name ≡ n)) × IsIdle hub now timeout u n))
    at calls' (inl (e, idle)) = rw e (
      (λ m. elim (past_delete user name u n calls m) [
        | inl before ↦ inl before
        | inr same ↦ inr (same, idle)
      ]),
      (λ h. elim h [ inl before ↦ Memᴰ.tail (Memᴰ.tail before) | inr (same, _) ↦ Memᴰ.head cc ]),
    )
    at calls' (inr (e, busy)) = rw e (
      (λ m. inl (past_get user name u n calls m)),
      (λ h. elim h [ inl before ↦ Memᴰ.tail before | inr (same, idle) ↦ absurd (busy idle) ]),
    )

-- The same of the loop.
cull_each_iff :
    (hub : Answers) (now timeout : ℕ) (user name : String) (servers : List (String × String))
    (calls : List Call)
    → Deletes user name (cull_each hub now timeout servers calls)
      ↔ (Deletes user name calls ⊎ (Memᴰ (user, name) servers × IsIdle hub now timeout user name))
unfolding cull_each
cull_each_iff hub now timeout user name [] calls =
    ((λ m. inl m), (λ h. elim h [ inl m ↦ m | inr (m, _) ↦ elim m [ ] ]))
cull_each_iff hub now timeout user name ((u, n) ∷ servers) calls =
    let turn = turn_iff hub now timeout u n user name calls in
    let later =
      cull_each_iff hub now timeout user name servers (cull_server hub now timeout u n calls).1 in
    (
      (λ m. elim (later.0 m) [
        | inl d ↦ elim (turn.0 d) [
          | inl before ↦ inl before
          | inr ((p, q), idle) ↦ inr (Memᴰ.head cc, idle_of p q idle)
        ]
        | inr (among, idle) ↦ inr (Memᴰ.tail among, idle)
      ]),
      (λ h. elim h [
        | inl before ↦ later.1 (inl (turn.1 (inl before)))
        | inr (Memᴰ.head e, idle) ↦
            let p : user ≡ u = ap (λ (x : String × String). x.0) e in
            let q : name ≡ n = ap (λ (x : String × String). x.1) e in
            later.1 (inl (turn.1 (inr ((p, q), rw p at (rw q at idle)))))
        | inr (Memᴰ.tail m, idle) ↦ later.1 (inr (m, idle))
      ]),
    )
  where
    idle_of : user ≡ u → name ≡ n → IsIdle hub now timeout u n → IsIdle hub now timeout user name
    idle_of p q idle = rw p (rw q idle)

-- A pass whose pods Kubernetes lists, whatever the Hub answers to each request and whichever fail: it
-- asks to delete a user's server exactly if one of the pods is a running pod of that server that holds
-- a GPU, and the Hub, asked for the user, knows the server, neither starting nor stopping, and last
-- used the timeout ago or more. No failure for one server changes it for another.
pub cull_once_iff :
    (hub : Answers) (now timeout : ℕ) (pods : List Pod) (user name : String)
    → Memᴰ (delete_server user name) (cull_once hub now timeout (some pods)).1
      ↔ (IsGpuPod pods user name × IsIdle hub now timeout user name)
unfolding cull_once
cull_once_iff hub now timeout pods user name =
    let each = cull_each_iff hub now timeout user name (gpu_servers pods) [] in
    let listed = gpu_servers_iff user name pods in
    (
      (λ m. elim (each.0 m) [ inl none_ ↦ elim none_ [ ] | inr (g, idle) ↦ (listed.0 g, idle) ]),
      (λ h. each.1 (inr (listed.1 h.0, h.1))),
    )
