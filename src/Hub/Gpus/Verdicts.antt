-- ===== src/Hub/Gpus/Verdicts.antt =====
-- What the answered hook of gpu-availability.py says, and what it leaves.
use purdue_af.Common.{
  ℕ, ◌+◌, ◌-◌, ◌≤◌, ◌<◌, String, true, Option, none, some, ◌≡◌, refl, List, [], ◌∷◌, ltb, leb,
  str_eq, if◌then◌else◌, arith, eq_iff, subst, sym, by_if, Bool-cases, inl, inr, ◌⊎◌,
}
use purdue_af.Common.Dict.{Dict, get}
use purdue_af.Hub.{Container}
use purdue_af.Hub.Gpus.{
  Grant, State, Reason, exhausted, reserved, Verdict, allowed, refused, count_of, forget_old,
  grants_in_flight, granted, short, decide, requested_of, observed_free_gpus, settle,
}
use purdue_af.Hub.Gpus.Counts.{
  in_flight-append, in_flight-forgotten, in_flight-granted, count_first, missing, AreApart,
  requested_of-AreApart,
}

abbrev pub in_flight : ℕ → String → State → ℕ
in_flight now r s = grants_in_flight now r s.recent_grants

-- What a resource has too little of, and why that is so.
pub record IsShort (now : ℕ) (observed : Dict ℕ) (grants : List Grant) (r : String) (why : Reason)
    (amount : ℕ) : Type 0 where
  pub lacking : count_of r observed - grants_in_flight now r grants < amount
  pub because :
      (why ≡ exhausted) × (count_of r observed < amount)
      ⊎ (why ≡ reserved) × (amount ≤ count_of r observed)

-- What the answered hook leaves, by what it answers.
abbrev pub Settled : ℕ → Dict ℕ → Dict ℕ → State → State → Verdict → Type 0
Settled now observed requested s s' allowed =
    (r : String)
    → (in_flight now r s' ≡ in_flight now r s + count_of r requested)
      × (count_of r requested ≤ count_of r observed - in_flight now r s)
Settled now observed requested s s' (refused r why) =
    IsShort now observed s.recent_grants r why (count_of r requested)
    × ((q : String) → in_flight now q s' ≡ in_flight now q s)

-- What `short` says, of each resource requested.
abbrev pub Told : ℕ → Dict ℕ → List Grant → Dict ℕ → Option (String × Reason) → Type 0
Told now observed grants requested none =
    (r : String) → count_of r requested ≤ count_of r observed - grants_in_flight now r grants
Told now observed grants requested (some (r, why)) =
    IsShort now observed grants r why (count_of r requested)

-- An entry of another resource changes no count.
count_rest :
    (q r : String) (a : ℕ) (rest : Dict ℕ)
    → get q rest ≡ none
    → 0 < count_of r rest
    → count_of r ((q, a) ∷ rest) ≡ count_of r rest
unfolding get
count_rest q r a rest e pos = elim (Bool-cases (str_eq q r)) [
  | inl same ↦
      absurd (
        omega (arith, pos, missing r rest (subst (λ k. get k rest ≡ none) ((eq_iff q r).0 same) e)))
  | inr other ↦ rw other refl
]

Told-more :
    (now : ℕ) (observed : Dict ℕ) (grants : List Grant) (q : String) (a : ℕ) (rest : Dict ℕ)
    → get q rest ≡ none
    → leb a (count_of q observed - grants_in_flight now q grants) ≡ true
    → (o : Option (String × Reason)) → Told now observed grants rest o
    → Told now observed grants ((q, a) ∷ rest) o
unfolding get
Told-more now observed grants q a rest e le none told = λ r. elim (Bool-cases (str_eq q r)) [
  | inl same ↦ rw same (fits r ((eq_iff q r).0 same))
  | inr other ↦ rw other (told r)
]
  where
    fits : (r : String) → q ≡ r → a ≤ count_of r observed - grants_in_flight now r grants
    fits r p =
        subst (λ k. a ≤ count_of k observed - grants_in_flight now k grants) p (ground (arith, le))
Told-more now observed grants q a rest e le (some (r, why)) told =
    subst (IsShort now observed grants r why)
      (sym (count_rest q r a rest e (omega (arith, told.lacking)))) told

reason :
    (n a : ℕ)
    → ((if ltb n a then exhausted else reserved) ≡ exhausted) × (n < a)
      ⊎ ((if ltb n a then exhausted else reserved) ≡ reserved) × (a ≤ n)
reason n a = elim (Bool-cases (ltb n a)) [
  | inl e ↦ rw e (inl (refl, ground (arith, e)))
  | inr e ↦ rw e (inr (refl, ground (arith, e)))
]

pub short-Told :
    (now : ℕ) (observed : Dict ℕ) (grants : List Grant) (requested : Dict ℕ)
    → AreApart requested
    → Told now observed grants requested (short now observed grants requested)
unfolding short get
short-Told now observed grants [] h = λ r. nothing r
  where
    nothing : (r : String) → count_of r [] ≤ count_of r observed - grants_in_flight now r grants
    nothing r = omega arith
short-Told now observed grants ((q, a) ∷ rest) h =
    by_if (Told now observed grants ((q, a) ∷ rest))
      (leb a (count_of q observed - grants_in_flight now q grants)) (short now observed grants rest)
      (some (q, if ltb (count_of q observed) a then exhausted else reserved))
      (λ le.
        Told-more now observed grants q a rest h.0 le (short now observed grants rest)
          (short-Told now observed grants rest h.1))
      (λ gt.
        subst (IsShort now observed grants q _) (sym (count_first q a rest))
          (record { lacking = ground (arith, gt); because = reason (count_of q observed) a }))

settle-Settled :
    (now : ℕ) (owner : String) (observed requested : Dict ℕ) (s t : State)
    → AreApart requested
    → t.recent_grants ≡ forget_old now s.recent_grants
    → (o : Option (String × Reason))
    → Told now observed (forget_old now s.recent_grants) requested o
    → let (s', v) = settle now owner requested o t in Settled now observed requested s s' v
settle-Settled now owner observed requested s t h e none told = λ r.
    let kept = in_flight-forgotten now r s.recent_grants in
    (
      rw e (
          rw (in_flight-append now r (forget_old now s.recent_grants) (granted now owner requested))
            (omega (arith, kept, in_flight-granted now r owner requested h))),
      omega (arith, kept, told r),
    )
settle-Settled now owner observed requested s t h e (some (r, why)) told = (
  record {
    lacking = omega (arith, told.lacking, in_flight-forgotten now r s.recent_grants);
    because = told.because;
  },
  λ q. rw e (in_flight-forgotten now q s.recent_grants),
)

-- A spawn's hook, answered by Prometheus, for any pod, in any state and at any time: if it lets the
-- spawn go on, then of each resource what the pod requests was free beside the reservations in flight,
-- which are more by just that from then on; if it refuses, then of the resource that it names less is
-- free than is requested, by its reason either because fewer are observed or because others reserved
-- them, and no reservation in flight is lost or added.
pub decide-Settled :
    (asked now : ℕ) (owner : String) (pod : List Container) (observed : Dict ℕ) (s : State)
    → let (s', v) = decide asked now owner (requested_of pod) (some observed) s in
      Settled now observed (requested_of pod) s s' v
unfolding decide observed_free_gpus
decide-Settled asked now owner pod observed s =
    settle-Settled now owner observed (requested_of pod) s _ (requested_of-AreApart pod) refl _ (
      short-Told now observed (forget_old now s.recent_grants) (requested_of pod)
        (requested_of-AreApart pod))
