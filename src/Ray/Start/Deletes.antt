-- ===== src/Ray/Start/Deletes.antt =====
-- Which clusters a call that starts one may delete.
use purdue_af.Common.{
  sym, ◌∙◌, or_default, true≢false, any_of-All, arith, ℕ, String, ◌≡◌, refl, ◌⊎◌, inl, inr, Bool,
  true, false, not, Option, none, some, List, [], ◌∷◌, All, ◌==◌, str_eq, Bool-cases,
}
use purdue_af.Common.Exec.{Outcome, ok, err, ◌>>=◌, pure}
use purdue_af.Common.Exec.Keeps.{
  Keeps, Keeps-pure, Keeps-if, Keeps-if_eq, Keeps-bind, Keeps-continue,
}
use purdue_af.Common.Result.{err≢ok}
use purdue_af.Ray.Base.{Refusal}
use purdue_af.Ray.Admit.{WorkerGroup}
use purdue_af.Ray.Cluster.{owner}
use purdue_af.Ray.Reap.{
  works, HeadFault, http_status, no_answer, HeadJob, runs_job, head_ready, after_fault, Cluster,
  Fault, live, busy, delete, forget, is_deleted,
}
use purdue_af.Ray.Start.{
  refuse_other, refuse_live, refuse_found, admitted, delete_own, wait_until_gone, replace_cluster,
  after_post, create, at_found, head_up, closed_head, is_open, await_head, start_cluster, use_now,
  answered,
}
use purdue_af.Ray.Existing.{
  Existing, Context, Replies, World, HeadPoll, said, edit, refuse_with, runs, is_made, is_ok,
  secret_fault, late_head,
}

-- The head's answer is that the gateway's token is not the cluster's.
abbrev pub IsRefused : {A : Type 0} → Outcome HeadFault A → Type 0
IsRefused (ok x) = ⊥
IsRefused (err no_answer) = ⊥
IsRefused (err (http_status n)) = (n ≡ 401) ⊎ (n ≡ 403)

-- The head says that no task and no job runs; or refuses the gateway's token; or says neither that
-- one runs nor that none does, and is not ready.
abbrev pub IsQuiet : Cluster → Type 0
IsQuiet x =
    ((x.head.tasks ≡ ok (some false))
      × ((jobs : List HeadJob) × (x.head.jobs ≡ ok (some jobs))
          × All (λ j. runs_job j ≡ false) jobs))
    ⊎ ((IsRefused x.head.tasks ⊎ IsRefused x.head.jobs) ⊎ (head_ready x ≡ false))

module _ (x : Cluster) where
  fault-IsQuiet :
      {A : Type 0} (o : Outcome HeadFault A) (f : HeadFault)
      → o ≡ err f
      → after_fault f x ≡ false
      → IsRefused o ⊎ (head_ready x ≡ false)
  unfolding after_fault
  fault-IsQuiet o no_answer e h = inr h
  fault-IsQuiet o (http_status n) e h = rw e (ground arith)

  -- What `busy` says, by what the head answers.
  said_busy : Outcome HeadFault (Option Bool) → Outcome HeadFault (Option (List HeadJob)) → Bool
  said_busy (err f) jobs = after_fault f x
  said_busy (ok tasks) (err f) = after_fault f x
  said_busy (ok tasks) (ok jobs) = or_default (works tasks jobs) (head_ready x)

  said_busy-busy :
      (tasks : Outcome HeadFault (Option Bool)) (jobs : Outcome HeadFault (Option (List HeadJob)))
      → (elim tasks [
        | err f ↦ after_fault f x
        | ok t ↦ elim jobs [
          | err f ↦ after_fault f x
          | ok j ↦ or_default (works t j) (head_ready x)
        ]
      ])
        ≡ said_busy tasks jobs
  unfolding said_busy
  said_busy-busy (err f) jobs = refl
  said_busy-busy (ok tasks) (err f) = refl
  said_busy-busy (ok tasks) (ok jobs) = refl

  said_busy-IsQuiet :
      (tasks : Outcome HeadFault (Option Bool)) (jobs : Outcome HeadFault (Option (List HeadJob)))
      → x.head.tasks ≡ tasks
      → x.head.jobs ≡ jobs
      → said_busy tasks jobs ≡ false
      → IsQuiet x
  unfolding said_busy works
  said_busy-IsQuiet (err f) jobs a b h = inr (elim (fault-IsQuiet x.head.tasks f a h) [
    | inl refused_ ↦ inl (inl refused_)
    | inr unready ↦ inr unready
  ])
  said_busy-IsQuiet (ok tasks) (err f) a b h = inr (elim (fault-IsQuiet x.head.jobs f b h) [
    | inl refused_ ↦ inl (inr refused_)
    | inr unready ↦ inr unready
  ])
  said_busy-IsQuiet (ok none) (ok jobs) a b h = inr (inr h)
  said_busy-IsQuiet (ok (some true)) (ok jobs) a b h = absurd (true≢false h)
  said_busy-IsQuiet (ok (some false)) (ok none) a b h = inr (inr h)
  said_busy-IsQuiet (ok (some false)) (ok (some jobs)) a b h =
      inl (a, (jobs, b, any_of-All runs_job jobs h))

  busy-IsQuiet : busy x ≡ false → IsQuiet x
  unfolding busy
  busy-IsQuiet h =
      said_busy-IsQuiet x.head.tasks x.head.jobs refl refl
        (sym (said_busy-busy x.head.tasks x.head.jobs) ∙ h)

module _ (c : Context) (r : Replies) where
  -- The cluster it finds: the user's, in another shape, and quiet; or any one where the head answers
  -- without the token.
  abbrev pub MayDelete : String → Type 0
  MayDelete n =
      ((e : Existing) × (r.found ≡ ok (some e))
        × (e.cluster.name ≡ n)
        × (str_eq e.owner (owner c.user) ≡ true)
        × IsQuiet e.cluster
        × (runs (some e) c.shape ≡ false))
      ⊎ (is_open c r ≡ true)

  abbrev pub AllMay : World → Type 0
  AllMay s = All MayDelete s.gateway.asked

  said-May : {A : Type 0} (o : Outcome Fault A) → Keeps AllMay (said o)
  said-May o = record { at = λ s h. h }

  refuse-May : (x : Refusal) → Keeps AllMay (refuse_with {A = Unit {0}} x)
  refuse-May x = record { at = λ s h. h }

  refuse_other-May : (e : Existing) → Keeps AllMay (refuse_other c r e)
  unfolding refuse_other
  refuse_other-May e =
      Keeps-if (str_eq e.owner (owner c.user)) (pure tt) _ (Keeps-pure tt)
        (record { at = λ s h. h })

  refuse_live-May : (found : Option Existing) → Keeps AllMay (refuse_live c r found)
  unfolding refuse_live
  refuse_live-May none = Keeps-pure tt
  refuse_live-May (some e) =
      Keeps-if (live (some e.cluster)) _ (pure tt) (refuse_other-May e) (Keeps-pure tt)

  admitted-May : (groups : List WorkerGroup) → Keeps AllMay (admitted c r groups)
  unfolding admitted
  admitted-May groups = record { at = λ s h. h }

  delete_own-May : (x : Cluster) → MayDelete x.name → Keeps AllMay (delete_own c r x)
  unfolding delete_own delete forget
  delete_own-May x may = record {
    at = λ s h. elim (Bool-cases (is_deleted x.delete_status)) [
      | inl e ↦ rw e (may, h)
      | inr e ↦ rw e (may, h)
    ];
  }

  gone-May : (polls : List (Outcome Fault Bool × Bool)) → Keeps AllMay (wait_until_gone c r polls)
  unfolding wait_until_gone
  gone-May [] = record { at = λ s h. h }
  gone-May ((err e, late) ∷ polls) = record { at = λ s h. h }
  gone-May ((ok false, late) ∷ polls) = Keeps-pure tt
  gone-May ((ok true, true) ∷ polls) = record { at = λ s h. h }
  gone-May ((ok true, false) ∷ polls) = gone-May polls

  replace_cluster-May :
      (e : Existing)
      → r.found ≡ ok (some e)
      → (live (some e.cluster) ≡ true → str_eq e.owner (owner c.user) ≡ true)
      → runs (some e) c.shape ≡ false
      → Keeps AllMay (replace_cluster c r e)
  unfolding replace_cluster
  replace_cluster-May e f own other =
      Keeps-if_eq (live (some e.cluster)) _ _
        (λ l.
          Keeps-if_eq (busy e.cluster) _ _ (λ b. record { at = λ s h. h })
            (λ b. Keeps-bind _ _ (admitted-May e.groups) (λ _.
              Keeps-bind _ _
                (delete_own-May e.cluster
                  (inl (e, f, refl, own l, busy-IsQuiet e.cluster b, other)))
                (λ _. gone-May r.gone))))
        (λ l. Keeps-bind _ _ (admitted-May []) (λ _. gone-May r.gone))

  found_again-May : (found : Option Existing) → Keeps AllMay (refuse_found c r found)
  unfolding refuse_found
  found_again-May none = Keeps-pure tt
  found_again-May (some e) = record { at = (refuse_other-May e).at }

  post-May : (status : ℕ) → Keeps AllMay (after_post c r status)
  unfolding after_post
  post-May status =
      Keeps-if (status == 201) _ _ (record { at = λ s h. h })
        (Keeps-if (status == 409) _ _
          (Keeps-bind _ _ (said-May r.found_again)
            (λ found. Keeps-bind _ _ (found_again-May found) (λ _. Keeps-pure found)))
          (record { at = λ s h. h }))

  create-May : Keeps AllMay (create c r)
  unfolding create
  create-May = Keeps-bind _ _ (said-May (answered c r r.post)) (λ status. post-May status)

  -- A live cluster that the call goes on with is the user's.
  abbrev IsOwn : Option Existing → Type 0
  IsOwn none = Unit
  IsOwn (some e) = live (some e.cluster) ≡ true → str_eq e.owner (owner c.user) ≡ true

  at_found-May :
      (found : Option Existing)
      → r.found ≡ ok found
      → IsOwn found
      → Keeps AllMay (at_found c r found)
  unfolding at_found
  at_found-May none f own = Keeps-bind _ _ (admitted-May []) (λ _. create-May)
  at_found-May (some e) f own = record {
    at =
        (Keeps-if_eq (runs (some e) c.shape) (pure (some e)) _ (λ _. Keeps-pure (some e))
          (λ other. Keeps-bind _ _ (replace_cluster-May e f own other) (λ _. create-May))).at;
  }

  head_up-May : (polls : List HeadPoll) → Keeps AllMay (head_up c r polls)
  unfolding head_up
  head_up-May [] = record { at = λ s h. h }
  head_up-May (p ∷ polls) =
      Keeps-if (not (is_made p.secret)) (said (err (secret_fault p.secret))) _ (said-May _) (
        Keeps-if (is_ok p.head) (pure tt) _ (Keeps-pure tt) (
          Keeps-if p.late (refuse_with late_head) (head_up c r polls) (refuse-May late_head)
            (head_up-May polls)))

  closed-May : (e : Existing) → Keeps AllMay (closed_head c r e)
  unfolding closed_head
  closed-May e =
      Keeps-if_eq (is_open c r) _ (pure tt)
        (λ o. Keeps-bind _ _ (delete_own-May e.cluster (inr o)) (λ _. record { at = λ s h. h }))
        (λ _. Keeps-pure tt)

  await_head-May : (found : Option Existing) → Keeps AllMay (await_head c r found)
  unfolding await_head
  await_head-May none = record { at = λ s h. h }
  await_head-May (some e) = record {
    at =
        (Keeps-if (runs (some e) c.shape) _ _
          (Keeps-bind _ _ (head_up-May r.polls) (λ _. closed-May e)) (record { at = λ s h. h })).at;
  }

  refuse_live-IsOwn :
      (found : Option Existing) (s : World) → (refuse_live c r found s).0 ≡ ok tt → IsOwn found
  unfolding refuse_live refuse_other
  refuse_live-IsOwn none s h = tt
  refuse_live-IsOwn (some e) s h = λ l. elim (Bool-cases (str_eq e.owner (owner c.user))) [
    | inl o ↦ o
    | inr o ↦ absurd (err≢ok _ tt (rw (l, o) at h))
  ]

  found-May :
      (o : Outcome Fault (Option Existing))
      → r.found ≡ o
      → Keeps AllMay (
          said o >>= λ found. refuse_live c r found >>= λ _.
          edit (use_now c r) >>= λ _. at_found c r found >>= await_head c r)
  found-May (err f) e = record { at = λ s h. h }
  found-May (ok found) e = record {
    at = λ s h.
        Keeps-continue (refuse_live c r found s).0 _ (refuse_live c r found s).1
          ((refuse_live-May found).at s h)
          (λ _ passed. record {
            at = λ s1 h1.
                (Keeps-bind (at_found c r found) (await_head c r)
                    (at_found-May found e (refuse_live-IsOwn found s passed))
                    (λ cluster. await_head-May cluster)).at
                  (use_now c r s1) h1;
          });
  }

  -- Whatever is answered, and however a call that starts a user's cluster ends: unless the head
  -- answers without the cluster's token, each cluster that it asks to delete is the one that it
  -- found, the user's own, in another shape than it was called for; and its head says that no task
  -- and no job runs, or refuses the gateway's token, or is not ready.
  pub start_cluster-MayDelete :
      (s : World) → s.gateway.asked ≡ [] → All MayDelete (start_cluster c r s).1.gateway.asked
  unfolding start_cluster
  start_cluster-MayDelete s e = (found-May r.found refl).at s (rw e tt)
