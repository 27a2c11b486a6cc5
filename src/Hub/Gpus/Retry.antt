-- ===== src/Hub/Gpus/Retry.antt =====
-- A session that is stopped or cancelled while its reservation lasts, and started again: its own
-- reservation is not held against it (_release_grants in the hook of gpu-availability.py).
use purdue_af.Common.{
  ℕ, zero, suc, ◌-◌, ◌≤◌, String, Option, none, some, ◌≡◌, refl, subst, ap, ◌∙◌, List, [], ◌∷◌,
  ◌++◌, str_eq, arith, eq_iff, eq_refl, Bool-cases, inl, inr,
}
use purdue_af.Common.Dict.{Dict, get}
use purdue_af.Hub.{Container}
use purdue_af.Hub.Gpus.{
  Grant, State, Reason, Verdict, allowed, refused, count_of, forget_old, grants_in_flight, granted,
  short, decide, begin, requested_of, release_grants, not_owned, times, Hooked, passes, raises,
  end_hook, after_begun, refuse_gpu_spawn_if_unavailable, any_gpu, at_requested, observed_free_gpus,
  of_resource,
}
use purdue_af.Hub.Gpus.Counts.{
  in_flight-append, in_flight-forget_old, in_flight-forgotten, in_flight-not_owned, in_flight_later,
  count_first, missing, AreApart, requested_of-AreApart,
}
use purdue_af.Hub.Gpus.Verdicts.{Told, short-Told}

not_owned-append :
    (o : String) (a b : List Grant) → not_owned o (a ++ b) ≡ not_owned o a ++ not_owned o b
unfolding not_owned
not_owned-append o [] b = refl
not_owned-append o (g ∷ a) b = ground (arith, not_owned-append o a b)

not_owned-times :
    (t : ℕ) (r o : String) (n : ℕ)
    → not_owned o (times n (record { since = t; resource = r; owner = o })) ≡ []
unfolding not_owned times
not_owned-times t r o zero = refl
not_owned-times t r o (suc n) = ground (arith, not_owned-times t r o n, eq_refl o)

not_owned-granted :
    (t : ℕ) (o : String) (requested : Dict ℕ) → not_owned o (granted t o requested) ≡ []
unfolding not_owned granted
not_owned-granted t o [] = refl
not_owned-granted t o ((r, a) ∷ requested) =
    not_owned-append o (times a (record { since = t; resource = r; owner = o }))
      (granted t o requested)
    ∙ rw (not_owned-times t r o a) (not_owned-granted t o requested)

-- Each entry that is requested is free.
abbrev Free : ℕ → Dict ℕ → List Grant → Dict ℕ → Type 0
Free now observed grants requested =
    (r : String) → count_of r requested ≤ count_of r observed - grants_in_flight now r grants

rest_count :
    (q r : String) (a : ℕ) (rest : Dict ℕ)
    → get q rest ≡ none
    → count_of r rest ≤ count_of r ((q, a) ∷ rest)
unfolding get
rest_count q r a rest e = elim (Bool-cases (str_eq q r)) [
  | inl same ↦
      rw same
        (omega (arith, missing r rest (subst (λ k. get k rest ≡ none) ((eq_iff q r).0 same) e)))
  | inr other ↦ rw other (omega arith)
]

short-none :
    (now : ℕ) (observed : Dict ℕ) (grants : List Grant) (requested : Dict ℕ)
    → AreApart requested
    → Free now observed grants requested
    → short now observed grants requested ≡ none
unfolding short
short-none now observed grants [] h f = refl
short-none now observed grants ((q, a) ∷ rest) h f =
    let here : a ≤ count_of q observed - grants_in_flight now q grants =
      omega (arith, f q, count_first q a rest) in
    let others =
      short-none now observed grants rest h.1
        (λ r. omega (arith, f r, rest_count q r a rest h.0)) in
    ground (arith, here, others)

in_flight_again :
    (t u : ℕ) (r o : String) (requested : Dict ℕ) (gs : List Grant)
    → t ≤ u
    → grants_in_flight u r (not_owned o (forget_old t gs ++ granted t o requested))
      ≤ grants_in_flight t r gs
unfolding grants_in_flight forget_old of_resource
in_flight_again t u r o requested gs le =
    rw (not_owned-append o (forget_old t gs) (granted t o requested)) (
      rw (not_owned-granted t o requested) (
        omega (
          arith,
          in_flight-append u r (not_owned o (forget_old t gs)) [],
          in_flight-not_owned u r o (forget_old t gs),
          in_flight-forget_old u r t gs,
          in_flight_later t r u le gs,
        )))

-- The hook's second step, of a spawn that was let go on and is begun again.
decide_again :
    (asked t again u : ℕ) (owner : String) (requested observed : Dict ℕ) (s : State)
    → AreApart requested
    → t ≤ u
    → (o : Option (String × Reason)) → short t observed (forget_old t s.recent_grants) requested ≡ o
    → (decide asked t owner requested (some observed) s).1 ≡ allowed
    → (decide again u owner requested
        (some observed)
        (release_grants owner (decide asked t owner requested (some observed) s).0)).1
      ≡ allowed
unfolding decide release_grants observed_free_gpus
decide_again asked t again u owner requested observed s h le none e a = rw e (rw short2 refl)
  where
    left : List Grant
    left =
        forget_old u (not_owned owner (forget_old t s.recent_grants ++ granted t owner requested))

    fits : Told t observed (forget_old t s.recent_grants) requested none
    fits =
        subst (Told t observed (forget_old t s.recent_grants) requested) e
          (short-Told t observed (forget_old t s.recent_grants) requested h)

    free : Free u observed left requested
    free r = omega (
      arith,
      fits r,
      in_flight-forgotten t r s.recent_grants,
      in_flight-forgotten u r
          (not_owned owner (forget_old t s.recent_grants ++ granted t owner requested)),
      in_flight_again t u r owner requested s.recent_grants le,
    )

    short2 : short u observed left requested ≡ none
    short2 = short-none u observed left requested h free
decide_again asked t again u owner requested observed s h le (some (r, why)) e a =
    absurd (refused_allowed (rw e at a))
  where
    refused_allowed : refused r why ≡ allowed → ⊥
    refused_allowed p = cc

passed→allowed :
    (pod p : List Container) (v : Verdict) → end_hook pod v ≡ passes p → (v ≡ allowed) × (pod ≡ p)
passed→allowed pod p allowed e = (refl, cc)
passed→allowed pod p (refused r why) e = absurd (raised_passed e)
  where
    raised_passed : raises r why ≡ passes p → ⊥
    raised_passed e = cc

-- The two steps from what is requested.
abbrev from_requested : ℕ → ℕ → String → List Container → Dict ℕ → Dict ℕ → State → State × Hooked
from_requested asked t owner pod requested observed s =
    let (s', b) = at_requested owner pod requested s in
    after_begun asked t owner pod (some observed) s' b

from_requested_again :
    (asked t again u : ℕ) (owner : String) (pod p : List Container) (requested observed : Dict ℕ)
    (s : State)
    → AreApart requested
    → t ≤ u
    → (from_requested asked t owner pod requested observed s).1 ≡ passes p
    → (from_requested again u owner pod requested observed
        (from_requested asked t owner pod requested observed s).0).1
      ≡ passes p
unfolding at_requested
from_requested_again asked t again u owner pod p [] observed s h le e = e
from_requested_again asked t again u owner pod p (r ∷ requested) observed s h le e =
    let (a, same) = passed→allowed pod p _ e in
    rw
      (decide_again asked t again u owner (r ∷ requested) observed (release_grants owner s) h le _
        refl a)
      (ap passes same)

-- A spawn whose hook lets it go on, and that is cancelled or fails and is started again at any later
-- time before another spawn's hook runs: if Prometheus reports the same, stale or not, it is let go on
-- again, with the same pod.
pub refuse_gpu_spawn_if_unavailable_again :
    (asked t again u : ℕ) (owner : String) (pod p : List Container) (observed : Dict ℕ) (s : State)
    → t ≤ u
    → (refuse_gpu_spawn_if_unavailable asked t owner pod (some observed) s).1 ≡ passes p
    → (refuse_gpu_spawn_if_unavailable again u owner pod
        (some observed)
        (refuse_gpu_spawn_if_unavailable asked t owner pod (some observed) s).0).1
      ≡ passes p
unfolding refuse_gpu_spawn_if_unavailable begin
refuse_gpu_spawn_if_unavailable_again asked t again u owner pod p observed s le e =
    elim (Bool-cases (any_gpu pod)) [
      | inl yes_ ↦ rw yes_ (
          from_requested_again asked t again u owner pod p (requested_of pod) observed s
            (requested_of-AreApart pod) le (rw yes_ at e))
      | inr no_ ↦ rw no_ (rw no_ at e)
    ]
