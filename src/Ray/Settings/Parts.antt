-- ===== src/Ray/Settings/Parts.antt =====
-- What each setting of an accepted call gives: a kind of GPU, and numbers in order.
use purdue_af.Common.{
  ℕ, ◌≤◌, max, ◌≡◌, refl, inl, inr, true, ◌&&◌, Option, none, some, List, [], ◌∷◌, arith, leb,
  Bool-cases, Option-cases,
}
use mathlib.Core.List.{Memᴰ}
use purdue_af.Common.Exec.{ok}
use purdue_af.Common.Result.{bind-ok, or_refuse-ok, ok_eq, err≢ok}
use purdue_af.Common.Text.{Text}
use purdue_af.Ray.Base.{Flavor}
use purdue_af.Common.Digits.{int}
use purdue_af.Ray.Requested.{
  whole, Reading, gpu_memory, least_memory, requested_memory, most_per_worker, requested_per_worker,
  requested_workers,
}
use purdue_af.Ray.Settings.Numbers.{whole-least, whole-most}

some_eq : (a b : ℕ) → some a ≡ some b → a ≡ b
some_eq a b h = cc

least_memory-mem :
    (wanted : ℕ) (fs : List Flavor) (m : ℕ)
    → least_memory wanted fs ≡ some m
    → (f : Flavor) × Memᴰ f fs × (f.memory ≡ m)
unfolding least_memory
least_memory-mem wanted [] m h = cc
least_memory-mem wanted (f ∷ fs) m h = elim (Bool-cases (leb wanted f.memory)) [
  | inr e ↦
      let (g, t, q) = least_memory-mem wanted fs m (ground (arith, h, e)) in (g, Memᴰ.tail t, q)
  | inl e ↦ elim (Option-cases (least_memory wanted fs)) [
    | inl n ↦ (f, Memᴰ.head refl, some_eq f.memory m (ground (arith, h, e, n)))
    | inr (r, n) ↦
        let (g, t, q) = least_memory-mem wanted fs r n in
        elim (Bool-cases (leb f.memory r)) [
          | inl l ↦ (f, Memᴰ.head refl, some_eq f.memory m (ground (arith, h, e, n, l)))
          | inr l ↦ (g, Memᴰ.tail t, some_eq g.memory m (ground (arith, h, e, n, l, q)))
        ]
  ]
]

pub most_per_worker-mem :
    (f : Flavor) (fs : List Flavor) (m : ℕ)
    → Memᴰ f fs
    → m ≤ f.memory
    → f.per_worker ≤ most_per_worker m fs
unfolding most_per_worker
most_per_worker-mem f [] m t h = elim t [ ]
most_per_worker-mem f (g ∷ fs) m (Memᴰ.head e) h = rw (← e) (ground (arith, h))
most_per_worker-mem f (g ∷ fs) m (Memᴰ.tail t) h = ground (arith, most_per_worker-mem f fs m t h)

-- A kind that has the memory and as many GPUs for a worker.
abbrev pub HasKind : List Flavor → ℕ → ℕ → Type 0
HasKind all memory per_worker =
    (f : Flavor) × Memᴰ f all × (memory ≤ f.memory) × (per_worker ≤ f.per_worker)

pub kind_for :
    (all : List Flavor) (memory per_worker : ℕ)
    → 1 ≤ per_worker
    → per_worker ≤ most_per_worker memory all
    → HasKind all memory per_worker
unfolding most_per_worker
kind_for [] memory per_worker p q = absurd (omega (arith, p, q))
kind_for (f ∷ fs) memory per_worker p q =
    elim (Bool-cases (leb memory f.memory && leb per_worker f.per_worker)) [
      | inl e ↦ (f, Memᴰ.head refl, ground (arith, e), ground (arith, e))
      | inr e ↦
          let (g, t, r, n) = kind_for fs memory per_worker p (ground (arith, p, q, e)) in
          (g, Memᴰ.tail t, r, n)
    ]

pub requested_memory-kind :
    (all : List Flavor) (reads : Text → Reading) (value : Text) (m : ℕ)
    → requested_memory all reads value ≡ ok m
    → (f : Flavor) × Memᴰ f all × (f.memory ≡ m)
unfolding requested_memory
requested_memory-kind all reads value m h =
    let (wanted, p, q) = bind-ok (gpu_memory reads value) _ m h in
    least_memory-mem wanted all m (or_refuse-ok (least_memory wanted all) _ m q)

pub requested_per_worker-bounds :
    (all : List Flavor) (value : Text) (m n : ℕ)
    → 1 ≤ most_per_worker m all
    → requested_per_worker all value m ≡ ok n
    → (1 ≤ n) × (n ≤ most_per_worker m all)
unfolding requested_per_worker
requested_per_worker-bounds all [] m n p h =
    (ground (arith, ok_eq 1 n h), ground (arith, p, ok_eq 1 n h))
requested_per_worker-bounds all (c ∷ value) m n p h =
    elim (Bool-cases (whole (c ∷ value) 1 (some (most_per_worker m all)))) [
      | inr e ↦ absurd (err≢ok _ n (simp e at h))
      | inl e ↦
          let i : int (c ∷ value) ≡ n = ok_eq (int (c ∷ value)) n (simp e at h) in
          rw (← i) (whole-least (c ∷ value) 1 _ e, whole-most (c ∷ value) 1 _ e)
    ]

-- The fewest workers are one or more, and no more than the most.
abbrev pub InOrder : ℕ × ℕ → Type 0
InOrder asked = (1 ≤ asked.1) × (asked.1 ≤ asked.0)

abbrev Within : ℕ → Option ℕ → Type 0
Within n none = Unit
Within n (some most) = n ≤ max 1 most

pub accepted :
    (value : Text) (most : Option ℕ)
    → whole value 1 most ≡ true
    → (1 ≤ int value) × Within (int value) most
accepted value none e = (whole-least value 1 none e, tt)
accepted value (some most) e =
    (whole-least value 1 (some most) e, ground (arith, whole-most value 1 most e))

one-Within : (most : Option ℕ) → Within 1 most
one-Within none = tt
one-Within (some most) = ground arith

pub requested_workers-InOrder :
    (exactly up_to : Text) (most : Option ℕ) (asked : ℕ × ℕ)
    → requested_workers exactly up_to most ≡ ok asked
    → InOrder asked × Within asked.0 most
unfolding requested_workers
requested_workers-InOrder [] [] most asked h =
    rw (← ok_eq (1, 1) asked h) ((omega arith, omega arith), one-Within most)
requested_workers-InOrder (c ∷ exactly) [] most asked h =
    elim (Bool-cases (whole (c ∷ exactly) 1 most)) [
      | inr e ↦ absurd (err≢ok _ asked (simp e at h))
      | inl e ↦
          let n = int (c ∷ exactly) in
          let i : Path (ℕ × ℕ) (n, n) asked = ok_eq (n, n) asked (simp e at h) in
          let (p, q) = accepted (c ∷ exactly) most e in rw (← i) ((p, omega arith), q)
    ]
requested_workers-InOrder [] (c ∷ up_to) most asked h =
    elim (Bool-cases (whole (c ∷ up_to) 1 most)) [
      | inr e ↦ absurd (err≢ok _ asked (simp e at h))
      | inl e ↦
          let n = int (c ∷ up_to) in
          let i : Path (ℕ × ℕ) (n, 1) asked = ok_eq (n, 1) asked (simp e at h) in
          let (p, q) = accepted (c ∷ up_to) most e in rw (← i) ((omega arith, p), q)
    ]
requested_workers-InOrder (c ∷ exactly) (d ∷ up_to) most asked h = absurd (err≢ok _ asked h)
