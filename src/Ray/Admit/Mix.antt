-- ===== src/Ray/Admit/Mix.antt =====
-- Bounds of the mix of workers that an admission computes, while Prometheus answers.
use purdue_af.Common.{
  ℕ, ◌+◌, ◌*◌, ◌/◌, ◌-◌, ◌≤◌, min, String, ◌≡◌, ◌⊎◌, inl, inr, Bool, true, false, Option, none,
  some, List, [], ◌∷◌, arith, str_eq, eq_iff, Bool-cases, or_default, refl, ltb, ltb→lt, ◌==◌, ◌&&◌,
}
use mathlib.Core.Path.{subst}
use purdue_af.Common.Dict.{Dict, get, put, get-put, total, total-put-le}
use purdue_af.Ray.Base.{Flavor}
use purdue_af.Ray.Admit.{
  Market, Offer, Supply, count_of, supply_of, workers_of, taken, available, evicts, offer_flavor,
  offer_flavors, evict, mix_of,
}

-- The workers asked for bound those offered.
offer_flavor-le :
    (m : Market) (f : Flavor) (o : Offer)
    → workers_of o.mix ≤ m.wanted
    → workers_of (offer_flavor m f o).mix ≤ m.wanted
unfolding offer_flavor
offer_flavor-le m f o h = omega (
  arith,
  total-put-le (λ (n : ℕ). n) f.resource
      (min (available m f / m.per_worker) (m.wanted - workers_of o.mix)) o.mix,
)

offer_flavors-le :
    (m : Market) (fs : List Flavor) (o : Offer)
    → workers_of o.mix ≤ m.wanted
    → workers_of (offer_flavors m fs o).mix ≤ m.wanted
unfolding offer_flavors
offer_flavors-le m [] o h = h
offer_flavors-le m (f ∷ fs) o h =
    offer_flavors-le m fs (offer_flavor m f o) (offer_flavor-le m f o h)

evict_test : (p w : ℕ) → (p == 1 && w == 0) ≡ true → (p ≡ 1) × (w ≡ 0)
evict_test p w h = ground arith

evict-le :
    (m : Market) (mix : Dict ℕ) (e : Option String)
    → 1 ≤ m.wanted
    → workers_of mix ≤ m.wanted
    → workers_of (evict m mix e) ≤ m.wanted
unfolding evict
evict-le m mix none w h = h
evict-le m mix (some r) w h = elim (Bool-cases (m.per_worker == 1 && workers_of mix == 0)) [
  | inl e ↦ rw e (
      omega
        (arith, total-put-le (λ (n : ℕ). n) r 1 mix, evict_test m.per_worker (workers_of mix) e))
  | inr e ↦ rw e h
]

pub workers-mix_of-le :
    (m : Market) (fs : List Flavor) → 1 ≤ m.wanted → workers_of (mix_of m fs) ≤ m.wanted
unfolding mix_of total
workers-mix_of-le m fs w =
    let o = offer_flavors m fs (record { mix = []; evicting = none }) in
    evict-le m o.mix o.evicting w
      (offer_flavors-le m fs (record { mix = []; evicting = none }) (omega arith))

div_mul-le : (a p : ℕ) → a / p * p ≤ a
div_mul-le a p = grind arith

min-left : (a b p : ℕ) → min a b * p ≤ a * p
min-left a b p = grind arith

zero_div : (p : ℕ) → 0 / p ≡ 0
zero_div p = grind arith

-- A property of every entry of a mix is kept by an entry that has it.
count-put :
    (P : String → ℕ → Type 0) (k : String) (n : ℕ) (mix : Dict ℕ)
    → P k n
    → ((r : String) → P r (count_of r mix))
    → (r : String) → P r (count_of r (put k n mix))
count-put P k n mix p h r = rw (get-put k r n mix) (elim (Bool-cases (str_eq k r)) [
  | inl e ↦ rw e (subst (λ s. P s n) ((eq_iff k r).0 e) p)
  | inr e ↦ rw e (h r)
])

-- A number of workers whose GPUs are available, or none, fits beside what is taken.
pub fits_of :
    (a t limit p room : ℕ)
    → (a ≡ 0) ⊎ (a + t ≤ limit)
    → (min (a / p) room ≡ 0) ⊎ (min (a / p) room * p + t ≤ limit)
fits_of a t limit p room (inl e) = inl (rw e (omega (arith, zero_div p)))
fits_of a t limit p room (inr h) = inr (omega (arith, min-left (a / p) room p, div_mul-le a p))

-- While Prometheus answers: a resource's workers, with what is taken, fit in its supply.
module _ (m : Market) (free : Dict Supply) (known : m.free ≡ some free) where
  abbrev pub Fits : String → ℕ → Type 0
  Fits r n =
      (n ≡ 0)
      ⊎ (n * m.per_worker + taken m r
          ≤ (supply_of r free).unheld + (supply_of r free).preemptible + count_of r m.replaced)

  -- The resource that one worker may evict from has a GPU for it.
  abbrev HasRoom : Option String → Type 0
  HasRoom none = Unit
  HasRoom (some r) =
      1 + taken m r
      ≤ (supply_of r free).unheld + (supply_of r free).preemptible + count_of r m.replaced

  room_if :
      (b : Bool) (e : Option String) (r : String)
      → HasRoom e
      → (b ≡ true → HasRoom (some r))
      → HasRoom (elim b [ true ↦ some (or_default e r) | false ↦ e ])
  room_if true none r h p = p refl
  room_if true (some k) r h p = h
  room_if false e r h p = h

  room_after :
      (r : String) (e : Option String)
      → HasRoom e
      → HasRoom (
          let s = supply_of r free in
          elim (ltb (count_of r m.replaced + taken m r) (s.unheld + s.preemptible)) [
            | true ↦ some (or_default e r)
            | false ↦ e
          ])
  room_after r e h =
      let s = supply_of r free in
      room_if (ltb (count_of r m.replaced + taken m r) (s.unheld + s.preemptible)) e r h (λ t.
        omega (arith, ltb→lt (count_of r m.replaced + taken m r) (s.unheld + s.preemptible) t))

  offered-Fits : (f : Flavor) (room : ℕ) → Fits f.resource (min (available m f / m.per_worker) room)
  unfolding available
  offered-Fits f room =
      let s = supply_of f.resource free in
      let a = s.unheld + count_of f.resource m.replaced - taken m f.resource in
      rw known (fits_of a (taken m f.resource) _ m.per_worker room (omega arith))

  offer_flavor-Fits :
      (f : Flavor) (o : Offer)
      → ((r : String) → Fits r (count_of r o.mix))
      → (r : String) → Fits r (count_of r (offer_flavor m f o).mix)
  unfolding offer_flavor
  offer_flavor-Fits f o h =
      count-put Fits f.resource (min (available m f / m.per_worker) (m.wanted - workers_of o.mix))
        o.mix (offered-Fits f (m.wanted - workers_of o.mix)) h

  offer_flavor-HasRoom :
      (f : Flavor) (o : Offer) → HasRoom o.evicting → HasRoom (offer_flavor m f o).evicting
  unfolding offer_flavor evicts
  offer_flavor-HasRoom f o h = rw known (room_after f.resource o.evicting h)

  offer_flavors-Fits :
      (fs : List Flavor) (o : Offer)
      → ((r : String) → Fits r (count_of r o.mix))
      → HasRoom o.evicting
      → ((r : String) → Fits r (count_of r (offer_flavors m fs o).mix))
        × HasRoom (offer_flavors m fs o).evicting
  unfolding offer_flavors
  offer_flavors-Fits [] o h e = (h, e)
  offer_flavors-Fits (f ∷ fs) o h e =
      offer_flavors-Fits fs (offer_flavor m f o) (offer_flavor-Fits f o h)
        (offer_flavor-HasRoom f o e)

  evict-Fits :
      (mix : Dict ℕ) (e : Option String)
      → ((r : String) → Fits r (count_of r mix))
      → HasRoom e
      → (r : String) → Fits r (count_of r (evict m mix e))
  unfolding evict
  evict-Fits mix none h e r = h r
  evict-Fits mix (some k) h e r = elim (Bool-cases (m.per_worker == 1 && workers_of mix == 0)) [
    | inl t ↦ rw t (
        count-put Fits k 1 mix (inr (omega (arith, evict_test m.per_worker (workers_of mix) t))) h
          r)
    | inr t ↦ rw t (h r)
  ]

  pub mix_of-Fits : (fs : List Flavor) (r : String) → Fits r (count_of r (mix_of m fs))
  unfolding mix_of get
  mix_of-Fits fs r =
      let start : Offer = record { mix = []; evicting = none } in
      let (h, e) = offer_flavors-Fits fs start (λ k. inl refl) tt in
      let o = offer_flavors m fs start in evict-Fits o.mix o.evicting h e r
