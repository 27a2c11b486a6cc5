-- ===== src/MattermostAgent/Linking/Origin.antt =====
-- Where a link of a Mattermost user to a Hub account comes from, whatever is called in whatever order.
use purdue_af.Common.{
  ℕ, ◌+◌, ◌≡◌, refl, sym, subst, inl, inr, String, Option, none, some, List, ◌∷◌, leb,
  if◌then◌else◌, str_eq, by_if, eq_iff,
}
use purdue_af.Common.Exec.{Outcome, ok, err, ◌>>=◌, continue}
use purdue_af.Common.Dict.{get, put, remove, Each-remove, Each-put, Each-get}
use purdue_af.MattermostAgent.Linking.{
  keep_link, linked_of, Linking, Linked, Code, answered, Minting, Fault, save, login, unlinked,
  finish_link, count_attempt, confirm_code, confirm,
}
use purdue_af.MattermostAgent.Linking.Traces.{
  Event, sent, Shown, Agreed, Trace, Step, links, logs, confirms, reads, forgets, restarts, Reach,
  start, next, LinksFrom, IsFrom, IsFrom-event, restart-IsFrom, forget-IsFrom, token-IsFrom,
  link_url-IsFrom, take_live-IsFrom, unlinked-LinksFrom,
}

module _ (h : List Event) (user : String) (a : Minting) (e : Code) where
  count_attempt-IsFrom :
      (s : Linking)
      → Shown user e.hub_user e.code h
      → IsFrom h s
      → IsFrom h (count_attempt user e s).1
  unfolding count_attempt
  count_attempt-IsFrom s shown k =
      by_if (IsFrom h) (leb 3 (e.attempts + 1)) _ _
        (λ _. record {
          linked = k.linked;
          pending = k.pending;
          codes = Each-remove _ user s.codes k.codes;
          file_linked = k.file_linked;
          file_pending = k.file_pending;
        })
        (λ _. record {
          linked = k.linked;
          pending = k.pending;
          codes = Each-put _ user (record e { attempts = e.attempts + 1 }) s.codes shown k.codes;
          file_linked = k.file_linked;
          file_pending = k.file_pending;
        })

  retired-IsFrom :
      (token_id : String × String) (s : Linking) (o : Outcome Fault (Unit {0}))
      → Agreed user e.hub_user h
      → IsFrom h s
      → IsFrom h (continue o (λ _. keep_link user a e token_id) s).1
  unfolding keep_link save
  retired-IsFrom t s (err f) agreed k = k
  retired-IsFrom t s (ok u) agreed k =
      let l : LinksFrom h (put user (linked_of a e t) (unlinked e.hub_user s.linked)) =
        Each-put _ user (linked_of a e t) (unlinked e.hub_user s.linked) agreed
          (unlinked-LinksFrom h e.hub_user s.linked k.linked) in
      record {
        linked = l;
        pending = k.pending;
        codes = k.codes;
        file_linked = l;
        file_pending = k.pending;
      }

  minted-IsFrom :
      (s : Linking) (o : Outcome Fault (String × String))
      → Agreed user e.hub_user h
      → IsFrom h s
      → IsFrom h (continue o (λ t. answered a.retired >>= λ _. keep_link user a e t) s).1
  minted-IsFrom s (err f) agreed k = k
  minted-IsFrom s (ok t) agreed k = retired-IsFrom t s a.retired agreed k

abbrev ConfirmFrom : List Event → Outcome Fault (Option String) × Linking → Type 0
ConfirmFrom h m = IsFrom h m.1

confirm_code-IsFrom :
    (h : List Event) (user code : String) (now : ℕ) (a : Minting) (s : Linking) (o : Option Code)
    → IsFrom h s
    → get user s.codes ≡ o
    → IsFrom (sent user code ∷ h) (confirm_code user code now a o s).1
unfolding finish_link
confirm_code-IsFrom h user code now a s none k e = IsFrom-event _ h s k
confirm_code-IsFrom h user code now a s (some c) k' e =
    by_if (ConfirmFrom (sent user code ∷ h)) (leb c.expires_at now)
      (ok none, record s { codes = remove user s.codes })
      (if str_eq c.code code then finish_link user a c s else count_attempt user c s) (λ _. dropped)
      (λ _.
        by_if (ConfirmFrom (sent user code ∷ h)) (str_eq c.code code) (finish_link user a c s)
          (count_attempt user c s)
          (λ same.
            minted-IsFrom (sent user code ∷ h) user a c _ a.minted
              (inl (
                code,
                refl,
                subst (λ x. Shown user c.hub_user x h) ((eq_iff c.code code).0 same) shown,
              ))
              dropped)
          (λ _. count_attempt-IsFrom (sent user code ∷ h) user a c s (inr shown) k))
  where
    k : IsFrom (sent user code ∷ h) s
    k = IsFrom-event (sent user code) h s k'

    shown : Shown user c.hub_user c.code h
    shown = Each-get _ user c s.codes k'.codes e

    dropped : IsFrom (sent user code ∷ h) (record s { codes = remove user s.codes })
    dropped = record {
      linked = k.linked;
      pending = k.pending;
      codes = Each-remove _ user s.codes k.codes;
      file_linked = k.file_linked;
      file_pending = k.file_pending;
    }

abbrev TraceFrom : Trace → Type 0
TraceFrom t = IsFrom t.history t.linking

Step-TraceFrom : (s t : Trace) → Step s t → TraceFrom s → TraceFrom t
unfolding login confirm
Step-TraceFrom s t (links user state now e) k =
    subst TraceFrom (sym e) (link_url-IsFrom s.history s.linking user state now k)
Step-TraceFrom s t (logs state now a e) k =
    subst TraceFrom (sym e)
      (take_live-IsFrom s.history now state a s.linking (get state s.linking.pending) k refl)
Step-TraceFrom s t (confirms user code now a e) k =
    subst TraceFrom (sym e)
      (confirm_code-IsFrom s.history user code now a s.linking (get user s.linking.codes) k refl)
Step-TraceFrom s t (reads user now e) k =
    subst TraceFrom (sym e) (token-IsFrom s.history s.linking k user now)
Step-TraceFrom s t (forgets user e) k =
    subst TraceFrom (sym e) (forget-IsFrom s.history s.linking k user)
Step-TraceFrom s t (restarts e) k = subst TraceFrom (sym e) (restart-IsFrom s.history s.linking k)

Reach-TraceFrom : (t : Trace) → Reach t → TraceFrom t
Reach-TraceFrom t start = record {
  linked = tt;
  pending = tt;
  codes = tt;
  file_linked = tt;
  file_pending = tt;
}
Reach-TraceFrom t (next r st) = Step-TraceFrom _ _ st (Reach-TraceFrom _ r)

-- After any calls, by anyone, in any order, at any times, with whatever the Hub answers, and over
-- restarts: if a Mattermost user is linked to a Hub account, then a link was made for that user, with
-- that link the Hub account logged in and was shown a code, and after that the same user sent the code.
pub Reach-Agreed :
    (t : Trace)
    → Reach t
    → (user : String) (e : Linked) → get user t.linking.linked ≡ some e
    → Agreed user e.hub_user t.history
Reach-Agreed t r user e h = Each-get _ user e t.linking.linked (Reach-TraceFrom t r).linked h
