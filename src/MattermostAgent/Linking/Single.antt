-- ===== src/MattermostAgent/Linking/Single.antt =====
-- That a Hub account is linked to one Mattermost user at a time.
use purdue_af.Common.{
  ℕ, ◌+◌, ◌≡◌, sym, ◌∙◌, ap, subst, inl, inr, String, true, false, Option, none, some, [], ◌∷◌, ltb,
  leb, if◌then◌else◌, str_eq, by_if, eq_iff, eq_refl, Bool-cases, some_eq, true≢false, none≢some,
}
use purdue_af.Common.Exec.{Outcome, ok, err, ◌>>=◌, pure, continue}
use purdue_af.Common.Dict.{Dict, get, put, remove, Each, Each-remove, Each-put, Each-get}
use purdue_af.MattermostAgent.Linking.{
  Run, Linking, Linked, Pending, Code, Login, Minting, Fault, answered, save, restart, forget,
  forget_found, or_forget, token, live_token, link_url, keep_code, take_up, take_live, login,
  unlinked, linked_of, keep_link, finish_link, count_attempt, confirm_code, confirm,
}
use purdue_af.MattermostAgent.Linking.Traces.{
  Trace, Step, links, logs, confirms, reads, forgets, restarts, Reach, start, next,
}

-- No entry is of the account.
abbrev FreeOf : String → Dict Linked → Type 0
FreeOf hub_user = Each (λ u e. str_eq e.hub_user hub_user ≡ false)

abbrev Apart : Dict Linked → Type 0
Apart [] = Unit
Apart ((u, e) ∷ m) = FreeOf e.hub_user m × Apart m

str_eq_sym : (a b : String) → str_eq a b ≡ false → str_eq b a ≡ false
str_eq_sym a b h = elim (Bool-cases (str_eq b a)) [
  | inl e ↦
      absurd (true≢false (sym (subst (λ x. str_eq x b ≡ true) ((eq_iff b a).0 e) (eq_refl b)) ∙ h))
  | inr e ↦ e
]

remove-Apart : (u : String) (m : Dict Linked) → Apart m → Apart (remove u m)
unfolding remove
remove-Apart u [] h = tt
remove-Apart u ((v, e) ∷ m) h =
    by_if Apart (str_eq v u) (remove u m) ((v, e) ∷ remove u m) (λ _. remove-Apart u m h.1)
      (λ _. (Each-remove _ u m h.0, remove-Apart u m h.1))

put-Apart :
    (u : String) (x : Linked) (m : Dict Linked) → FreeOf x.hub_user m → Apart m → Apart (put u x m)
unfolding put
put-Apart u x [] f h = (tt, tt)
put-Apart u x ((v, e) ∷ m) f h =
    by_if Apart (str_eq v u) ((v, x) ∷ remove u m) ((v, e) ∷ put u x m)
      (λ _. (Each-remove _ u m f.1, remove-Apart u m h.1))
      (λ _. (Each-put _ u x m (str_eq_sym _ _ f.0) h.0, put-Apart u x m f.1 h.1))

unlinked-FreeOf : (hub_user : String) (m : Dict Linked) → FreeOf hub_user (unlinked hub_user m)
unfolding unlinked
unlinked-FreeOf hub_user [] = tt
unlinked-FreeOf hub_user ((v, e) ∷ m) =
    by_if (FreeOf hub_user) (str_eq e.hub_user hub_user) (unlinked hub_user m)
      ((v, e) ∷ unlinked hub_user m) (λ _. unlinked-FreeOf hub_user m)
      (λ f. (f, unlinked-FreeOf hub_user m))

unlinked-Each :
    (P : String → Linked → Type 0) (hub_user : String) (m : Dict Linked)
    → Each P m
    → Each P (unlinked hub_user m)
unfolding unlinked
unlinked-Each P hub_user [] h = tt
unlinked-Each P hub_user ((v, e) ∷ m) h =
    by_if (Each P) (str_eq e.hub_user hub_user) (unlinked hub_user m) ((v, e) ∷ unlinked hub_user m)
      (λ _. unlinked-Each P hub_user m h.1) (λ _. (h.0, unlinked-Each P hub_user m h.1))

unlinked-Apart : (hub_user : String) (m : Dict Linked) → Apart m → Apart (unlinked hub_user m)
unfolding unlinked
unlinked-Apart hub_user [] h = tt
unlinked-Apart hub_user ((v, e) ∷ m) h =
    by_if Apart (str_eq e.hub_user hub_user) (unlinked hub_user m) ((v, e) ∷ unlinked hub_user m)
      (λ _. unlinked-Apart hub_user m h.1)
      (λ _. (unlinked-Each _ hub_user m h.0, unlinked-Apart hub_user m h.1))

record IsSingle (s : Linking) : Type 0 where
  linked : Apart s.linked
  file : Apart s.file.0

forget-IsSingle : (s : Linking) (user : String) → IsSingle s → IsSingle (forget user s).1
unfolding forget save
forget-IsSingle s user k = found (get user s.linked)
  where
    found : (o : Option Linked) → IsSingle (forget_found user o s).1
    found none = k
    found (some e) = record {
      linked = remove-Apart user s.linked k.linked;
      file = remove-Apart user s.linked k.linked;
    }

token-IsSingle :
    (s : Linking) (user : String) (now : ℕ) → IsSingle s → IsSingle (token user now s).1
unfolding token
token-IsSingle s user now k = found (live_token now (get user s.linked))
  where
    found : (o : Option String) → IsSingle (or_forget user o s).1
    found none = forget-IsSingle s user k
    found (some t) = k

login-IsSingle :
    (s : Linking) (state : String) (now : ℕ) (a : Login)
    → IsSingle s
    → IsSingle (login state now a s).1
unfolding login take_up save keep_code
login-IsSingle s state now a k = found (get state s.pending)
  where
    owned :
        (t : String) (p : Pending) (s' : Linking) (o : Outcome Fault (Option String))
        → IsSingle s'
        → IsSingle (continue o (keep_code p.user a t) s').1
    owned t p s' (err f) h = h
    owned t p s' (ok none) h = h
    owned t p s' (ok (some u)) h = record { linked = h.linked; file = h.file }

    exchanged :
        (p : Pending) (s' : Linking) (x : Outcome Fault String)
        → IsSingle s'
        → IsSingle (continue x (λ t. answered a.owner >>= keep_code p.user a t) s').1
    exchanged p s' (err f) h = h
    exchanged p s' (ok t) h = owned t p s' a.owner h

    found : (o : Option Pending) → IsSingle (take_live now state a o s).1
    found none = k
    found (some p) =
        by_if (λ (m : Run (Option String)). IsSingle (m s).1) (ltb now p.expires_at)
          (take_up state a p) (pure none)
          (λ _. exchanged p _ a.exchanged (record { linked = k.linked; file = k.linked })) (λ _. k)

abbrev ConfirmSingle : Outcome Fault (Option String) × Linking → Type 0
ConfirmSingle m = IsSingle m.1

confirm-IsSingle :
    (s : Linking) (user code : String) (now : ℕ) (a : Minting)
    → IsSingle s
    → IsSingle (confirm user code now a s).1
unfolding confirm finish_link count_attempt keep_link save
confirm-IsSingle s user code now a k = found (get user s.codes)
  where
    same : (codes : Dict Code) → IsSingle (record s { codes = codes })
    same codes = record { linked = k.linked; file = k.file }

    retired :
        (c : Code) (t : String × String) (s' : Linking) (o : Outcome Fault (Unit {0}))
        → IsSingle s'
        → IsSingle (continue o (λ _. keep_link user a c t) s').1
    retired c t s' (err f) h = h
    retired c t s' (ok u) h =
        let l : Apart (put user (linked_of a c t) (unlinked c.hub_user s'.linked)) =
          put-Apart user (linked_of a c t) (unlinked c.hub_user s'.linked)
            (unlinked-FreeOf c.hub_user s'.linked) (unlinked-Apart c.hub_user s'.linked h.linked) in
        record { linked = l; file = l }

    minted :
        (c : Code) (s' : Linking) (o : Outcome Fault (String × String))
        → IsSingle s'
        → IsSingle (continue o (λ t. answered a.retired >>= λ _. keep_link user a c t) s').1
    minted c s' (err f) h = h
    minted c s' (ok t) h = retired c t s' a.retired h

    found : (o : Option Code) → IsSingle (confirm_code user code now a o s).1
    found none = k
    found (some c) =
        by_if ConfirmSingle (leb c.expires_at now)
          (ok none, record s { codes = remove user s.codes })
          (if str_eq c.code code then finish_link user a c s else count_attempt user c s)
          (λ _. same _)
          (λ _.
            by_if ConfirmSingle (str_eq c.code code) (finish_link user a c s)
              (count_attempt user c s) (λ _. minted c _ a.minted (same _))
              (λ _.
                by_if IsSingle (leb 3 (c.attempts + 1)) (record s { codes = remove user s.codes })
                  (record s { codes = put user (record c { attempts = c.attempts + 1 }) s.codes })
                  (λ _. same _) (λ _. same _)))

Step-IsSingle : (s t : Trace) → Step s t → IsSingle s.linking → IsSingle t.linking
unfolding link_url save restart
Step-IsSingle s t (links user state now e) k =
    subst (λ (x : Trace). IsSingle x.linking) (sym e)
      (record { linked = k.linked; file = k.linked })
Step-IsSingle s t (logs state now a e) k =
    subst (λ (x : Trace). IsSingle x.linking) (sym e) (login-IsSingle s.linking state now a k)
Step-IsSingle s t (confirms user code now a e) k =
    subst (λ (x : Trace). IsSingle x.linking) (sym e) (confirm-IsSingle s.linking user code now a k)
Step-IsSingle s t (reads user now e) k =
    subst (λ (x : Trace). IsSingle x.linking) (sym e) (token-IsSingle s.linking user now k)
Step-IsSingle s t (forgets user e) k =
    subst (λ (x : Trace). IsSingle x.linking) (sym e) (forget-IsSingle s.linking user k)
Step-IsSingle s t (restarts e) k =
    subst (λ (x : Trace). IsSingle x.linking) (sym e) (record { linked = k.file; file = k.file })

Reach-IsSingle : (t : Trace) → Reach t → IsSingle t.linking
Reach-IsSingle t start = record { linked = tt; file = tt }
Reach-IsSingle t (next r st) = Step-IsSingle _ _ st (Reach-IsSingle _ r)

Apart-get :
    (u v : String) (a b : Linked) (m : Dict Linked)
    → Apart m
    → get u m ≡ some a
    → get v m ≡ some b
    → a.hub_user ≡ b.hub_user
    → u ≡ v
unfolding get
Apart-get u v a b [] h p q e = absurd (none≢some p)
Apart-get u v a b ((w, x) ∷ m) h p q e = elim (Bool-cases (str_eq w u)) [
  | inl s ↦ elim (Bool-cases (str_eq w v)) [
    | inl t ↦ sym ((eq_iff w u).0 s) ∙ (eq_iff w v).0 t
    | inr t ↦ absurd (
        clash b x (Each-get _ v b m h.0 (rw t at q))
          (sym e ∙ sym (ap (λ (y : Linked). y.hub_user) (some_eq x a (rw s at p)))))
  ]
  | inr s ↦ elim (Bool-cases (str_eq w v)) [
    | inl t ↦ absurd (
        clash a x (Each-get _ u a m h.0 (rw s at p))
          (e ∙ sym (ap (λ (y : Linked). y.hub_user) (some_eq x b (rw t at q)))))
    | inr t ↦ Apart-get u v a b m h.1 (rw s at p) (rw t at q) e
  ]
]
  where
    clash : (c d : Linked) → str_eq c.hub_user d.hub_user ≡ false → c.hub_user ≡ d.hub_user → ⊥
    clash c d f g = true≢false (sym ((eq_iff c.hub_user d.hub_user).1 g) ∙ f)

-- After any calls, in any order, with whatever the Hub answers, and over restarts: two Mattermost
-- users who are linked to one Hub account are the same user.
pub Reach-single :
    (t : Trace)
    → Reach t
    → (u v : String) (a b : Linked) → get u t.linking.linked ≡ some a
    → get v t.linking.linked ≡ some b
    → a.hub_user ≡ b.hub_user
    → u ≡ v
Reach-single t r u v a b p q e =
    Apart-get u v a b t.linking.linked (Reach-IsSingle t r).linked p q e
