-- ===== src/Hub/Gpus/Within.antt =====
-- What the hooks of gpu-availability.py reserve, in any order, stays within what Prometheus reports.
use purdue_af.Common.{
  ℕ, ◌+◌, ◌≤◌, not, ◌||◌, is_some, String, Bool, Option, none, some, ◌≡◌, refl, List, [], ◌∷◌, leb,
  arith, by_if,
}
use purdue_af.Common.Dict.{Dict}
use purdue_af.Hub.{Container}
use purdue_af.Hub.Gpus.{
  State, at_start, Verdict, allowed, refused, count_of, forget_old, grants_in_flight, decide, begin,
  requested_of, release_grants, free_gpus, observed_free_gpus, any_gpu, returned,
  hide_gpus_from_pod, at_requested, of_resource,
}
use purdue_af.Hub.Gpus.Counts.{in_flight-forget_old, in_flight-not_owned, in_flight_later}
use purdue_af.Hub.Gpus.Verdicts.{in_flight, Settled, decide-Settled}

-- Prometheus reports no more than `most` of any resource, or nothing.
abbrev pub AtMost : Dict ℕ → Option (Dict ℕ) → Type 0
AtMost most none = Unit
AtMost most (some observed) = (r : String) → count_of r observed ≤ count_of r most

-- The states that the hooks and the form make, one step after the other, at the times that they do.
-- Between the two steps of one spawn's hook any others may run.
pub data Reach (most : Dict ℕ) : ℕ → State → Type 0 where
  start : (now : ℕ) → Reach most now at_start
  wait : {t : ℕ} {s : State} (later : ℕ) → t ≤ later → Reach most t s → Reach most later s
  begins :
      {now : ℕ} {s : State} (owner : String) (pod : List Container)
      → Reach most now s
      → Reach most now (begin owner pod s).0
  decides :
      {now : ℕ} {s : State} (asked : ℕ) (owner : String) (pod : List Container)
      (answer : Option (Dict ℕ))
      → AtMost most answer
      → Reach most now s
      → Reach most now (decide asked now owner (requested_of pod) answer s).0
  stops :
      {now : ℕ} {s : State} (owner : String)
      → Reach most now s
      → Reach most now (release_grants owner s)
  observes :
      {now : ℕ} {s : State} (use_cache : Bool) (asked : ℕ) (answer : Option (Dict ℕ))
      → Reach most now s
      → Reach most now (observed_free_gpus use_cache asked answer s)
  shows : {now : ℕ} {s : State} → Reach most now s → Reach most now (free_gpus now s).0

abbrev IsWithin : Dict ℕ → ℕ → State → Type 0
IsWithin most now s = (r : String) → in_flight now r s ≤ count_of r most

release_grants-IsWithin :
    (most : Dict ℕ) (now : ℕ) (owner : String) (s : State)
    → IsWithin most now s
    → IsWithin most now (release_grants owner s)
unfolding release_grants
release_grants-IsWithin most now owner s w r =
    omega (arith, w r, in_flight-not_owned now r owner s.recent_grants)

begin-IsWithin :
    (most : Dict ℕ) (now : ℕ) (owner : String) (pod : List Container) (s : State)
    → IsWithin most now s
    → IsWithin most now (begin owner pod s).0
unfolding begin
begin-IsWithin most now owner pod s w =
    by_if (λ x. IsWithin most now x.0) (not (any_gpu pod)) (s, returned (hide_gpus_from_pod pod))
      (at_requested owner pod (requested_of pod) s) (λ _. w) (λ _. at (requested_of pod))
  where
    at : (requested : Dict ℕ) → IsWithin most now (at_requested owner pod requested s).0
    at [] = w
    at (r ∷ requested) = release_grants-IsWithin most now owner s w

Settled-IsWithin :
    (most : Dict ℕ) (now : ℕ) (observed requested : Dict ℕ) (s s' : State) (v : Verdict)
    → Settled now observed requested s s' v
    → AtMost most (some observed)
    → IsWithin most now s
    → IsWithin most now s'
Settled-IsWithin most now observed requested s s' allowed h m w r =
    let (more, few) = h r in omega (arith, m r, w r)
Settled-IsWithin most now observed requested s s' (refused q why) h m w r =
    omega (arith, w r, h.1 r)

decide-IsWithin :
    (most : Dict ℕ) (asked now : ℕ) (owner : String) (pod : List Container)
    (answer : Option (Dict ℕ)) (s : State)
    → AtMost most answer
    → IsWithin most now s
    → IsWithin most now (decide asked now owner (requested_of pod) answer s).0
unfolding decide observed_free_gpus
decide-IsWithin most asked now owner pod none s m w = w
decide-IsWithin most asked now owner pod (some observed) s m w =
    Settled-IsWithin most now observed (requested_of pod) s
      (decide asked now owner (requested_of pod) (some observed) s).0 _
      (decide-Settled asked now owner pod observed s) m w

free_gpus-IsWithin :
    (most : Dict ℕ) (now : ℕ) (s : State)
    → (free : Option (Dict ℕ)) → s.cache_free ≡ free
    → IsWithin most now s
    → IsWithin most now (free_gpus now s).0
unfolding free_gpus
free_gpus-IsWithin most now s none e w = rw e w
free_gpus-IsWithin most now s (some []) e w = rw e w
free_gpus-IsWithin most now s (some (o ∷ observed)) e w =
    rw e (λ r. omega (arith, w r, in_flight-forget_old now r now s.recent_grants))

observed_free_gpus-IsWithin :
    (most : Dict ℕ) (now : ℕ) (use_cache : Bool) (asked : ℕ) (answer : Option (Dict ℕ)) (s : State)
    → IsWithin most now s
    → IsWithin most now (observed_free_gpus use_cache asked answer s)
unfolding observed_free_gpus
observed_free_gpus-IsWithin most now use_cache asked answer s w =
    by_if (IsWithin most now)
      (not use_cache || not (is_some s.cache_free) || leb s.cache_expires asked)
      (record s { cache_free = answer; cache_expires = asked + 30000 }) s (λ _. w) (λ _. w)

-- While Prometheus reports no more than so many GPUs of each resource, whatever hooks of spawns begin,
-- are answered, are refused or let go on, and whatever sessions stop and forms are shown, in any order
-- and however they interleave: the reservations in flight of a resource are at most those.
pub Reach-in_flight :
    (most : Dict ℕ) (now : ℕ) (s : State)
    → Reach most now s
    → (r : String) → in_flight now r s ≤ count_of r most
unfolding grants_in_flight forget_old of_resource
Reach-in_flight most now s (start at) = λ r. omega arith
Reach-in_flight most now s (wait {t} later le reach) =
    λ r. omega (arith, in_flight_later t r now le s.recent_grants, Reach-in_flight most _ s reach r)
Reach-in_flight most now s (begins owner pod reach) =
    begin-IsWithin most now owner pod _ (Reach-in_flight most now _ reach)
Reach-in_flight most now s (decides asked owner pod answer m reach) =
    decide-IsWithin most asked now owner pod answer _ m (Reach-in_flight most now _ reach)
Reach-in_flight most now s (stops owner reach) =
    release_grants-IsWithin most now owner _ (Reach-in_flight most now _ reach)
Reach-in_flight most now s (observes use_cache asked answer reach) =
    observed_free_gpus-IsWithin most now use_cache asked answer _ (Reach-in_flight most now _ reach)
Reach-in_flight most now s (shows reach) =
    free_gpus-IsWithin most now _ _ refl (Reach-in_flight most now _ reach)
