-- ===== src/Hub/Gpus/Counts.antt =====
-- What the counts of gpu-availability.py's reservations become by each change, and that what a pod
-- requests has one entry for each resource.
use purdue_af.Common.{
  ℕ, zero, suc, ◌+◌, ◌≤◌, String, true, false, ◌&&◌, none, ◌≡◌, refl, ◌∙◌, subst, List, [], ◌∷◌,
  ◌++◌, ltb, str_eq, text_in, arith, eq_iff, eq_refl, by_if, Bool-cases, inl, inr,
}
use purdue_af.Common.Dict.{Dict, get, put, remove, get-put, get-remove}
use purdue_af.Hub.{Container}
use purdue_af.Hub.Gpus.{
  Grant, in_time, forget_old, of_resource, grants_in_flight, not_owned, times, granted, count_of,
  requested_in, requested_from, requested_of, gpu_flavors,
}

module _ (t : ℕ) (r : String) where
  pub in_flight-append :
      (a b : List Grant)
      → grants_in_flight t r (a ++ b) ≡ grants_in_flight t r a + grants_in_flight t r b
  unfolding grants_in_flight forget_old of_resource
  in_flight-append [] b = ground arith
  in_flight-append (g ∷ a) b = ground (arith, in_flight-append a b)

  pub in_flight-forget_old :
      (u : ℕ) (gs : List Grant) → grants_in_flight t r (forget_old u gs) ≤ grants_in_flight t r gs
  unfolding grants_in_flight forget_old of_resource
  in_flight-forget_old u [] = omega arith
  in_flight-forget_old u (g ∷ gs) = ground (arith, in_flight-forget_old u gs)

  pub in_flight-forgotten :
      (gs : List Grant) → grants_in_flight t r (forget_old t gs) ≡ grants_in_flight t r gs
  unfolding grants_in_flight forget_old of_resource
  in_flight-forgotten [] = refl
  in_flight-forgotten (g ∷ gs) = ground (arith, in_flight-forgotten gs)

  pub in_flight-not_owned :
      (o : String) (gs : List Grant)
      → grants_in_flight t r (not_owned o gs) ≤ grants_in_flight t r gs
  unfolding grants_in_flight forget_old of_resource not_owned
  in_flight-not_owned o [] = omega arith
  in_flight-not_owned o (g ∷ gs) = ground (arith, in_flight-not_owned o gs)

  -- Reservations run out as time passes.
  pub in_flight_later :
      (u : ℕ) → t ≤ u → (gs : List Grant) → grants_in_flight u r gs ≤ grants_in_flight t r gs
  unfolding grants_in_flight forget_old of_resource in_time
  in_flight_later u le [] = omega arith
  in_flight_later u le (g ∷ gs) = ground (arith, in_flight_later u le gs)

  in_flight-times_same :
      (o q : String) (n : ℕ)
      → str_eq q r ≡ true
      → grants_in_flight t r (times n (record { since = t; resource = q; owner = o })) ≡ n
  unfolding grants_in_flight forget_old of_resource in_time times
  in_flight-times_same o q zero e = refl
  in_flight-times_same o q (suc n) e = ground (arith, in_flight-times_same o q n e)

  in_flight-times_other :
      (o q : String) (n : ℕ)
      → str_eq q r ≡ false
      → grants_in_flight t r (times n (record { since = t; resource = q; owner = o })) ≡ 0
  unfolding grants_in_flight forget_old of_resource in_time times
  in_flight-times_other o q zero e = refl
  in_flight-times_other o q (suc n) e = ground (arith, in_flight-times_other o q n e)

-- No two entries have one key.
abbrev pub AreApart : Dict ℕ → Type 0
AreApart [] = Unit
AreApart ((k, v) ∷ m) = (get k m ≡ none) × AreApart m

get-none-remove : (k j : String) (m : Dict ℕ) → get j m ≡ none → get j (remove k m) ≡ none
get-none-remove k j m e = ground (arith, get-remove k j m)

AreApart-remove : (k : String) (m : Dict ℕ) → AreApart m → AreApart (remove k m)
unfolding remove
AreApart-remove k [] h = tt
AreApart-remove k ((j, w) ∷ m) h =
    by_if AreApart (str_eq j k) (remove k m) ((j, w) ∷ remove k m) (λ _. AreApart-remove k m h.1)
      (λ _. (get-none-remove k j m h.0, AreApart-remove k m h.1))

AreApart-put : (k : String) (v : ℕ) (m : Dict ℕ) → AreApart m → AreApart (put k v m)
unfolding put get
AreApart-put k v [] h = (refl, tt)
AreApart-put k v ((j, w) ∷ m) h =
    by_if AreApart (str_eq j k) ((j, v) ∷ remove k m) ((j, w) ∷ put k v m)
      (λ e. (ground (arith, get-remove k j m, eq_iff j k, eq_iff k j), AreApart-remove k m h.1))
      (λ e. (ground (arith, get-put k j v m, eq_iff j k, eq_iff k j, h.0), AreApart-put k v m h.1))

requested_in-AreApart :
    (limits requested : Dict ℕ) → AreApart requested → AreApart (requested_in limits requested)
unfolding requested_in
requested_in-AreApart [] requested h = h
requested_in-AreApart ((r, a) ∷ limits) requested h = requested_in-AreApart limits _ (
    by_if AreApart (text_in r gpu_flavors && ltb 0 a) (put r (count_of r requested + a) requested)
      requested (λ _. AreApart-put r (count_of r requested + a) requested h) (λ _. h))

requested_from-AreApart :
    (pod : List Container) (requested : Dict ℕ)
    → AreApart requested
    → AreApart (requested_from pod requested)
unfolding requested_from
requested_from-AreApart [] requested h = h
requested_from-AreApart (c ∷ pod) requested h =
    requested_from-AreApart pod (requested_in c.limits requested)
      (requested_in-AreApart c.limits requested h)

pub requested_of-AreApart : (pod : List Container) → AreApart (requested_of pod)
unfolding requested_of
requested_of-AreApart pod = requested_from-AreApart pod [] tt

pub missing : (r : String) (m : Dict ℕ) → get r m ≡ none → count_of r m ≡ 0
missing r m e = rw e refl

pub count_first : (q : String) (a : ℕ) (rest : Dict ℕ) → count_of q ((q, a) ∷ rest) ≡ a
unfolding get
count_first q a rest = ground (arith, eq_refl q)

-- An admitted spawn reserves what it requests.
pub in_flight-granted :
    (t : ℕ) (r o : String) (requested : Dict ℕ)
    → AreApart requested
    → grants_in_flight t r (granted t o requested) ≡ count_of r requested
unfolding granted get grants_in_flight forget_old of_resource
in_flight-granted t r o [] h = refl
in_flight-granted t r o ((q, a) ∷ requested) h =
    in_flight-append t r (times a (record { since = t; resource = q; owner = o }))
      (granted t o requested)
    ∙ elim (Bool-cases (str_eq q r)) [
      | inl e ↦ ground (
        arith,
        in_flight-times_same t r o q a e,
        in_flight-granted t r o requested h.1,
        missing r requested (subst (λ k. get k requested ≡ none) ((eq_iff q r).0 e) h.0),
      )
      | inr e ↦
          ground (arith, in_flight-times_other t r o q a e, in_flight-granted t r o requested h.1)
    ]
