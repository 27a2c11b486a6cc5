-- ===== src/Common/Dict.antt =====
-- Python's `dict` with text keys: an association list in insertion order.
use Prim.Native.Nat.{ℕ, ◌+◌, ◌≤◌}
use Prim.Native.String.{String}
use mathlib.Core.Path.{◌≡◌, refl, sym, subst}
use mathlib.Core.Option.{Option, none, some}
use mathlib.Core.List.{List, [], ◌∷◌}
use native.Mathlib.Omega.{arith}
use text.Mathlib.Text.{◌==◌}
use text.Mathlib.TextEquality.{eq_iff}
use purdue_af.Common.Tests.{if◌then◌else◌, by_if, Bool-cases, some_eq, none≢some}
use mathlib.Core.Logic.{inl, inr}

abbrev pub Dict {ℓ} : Type ℓ → Type ℓ
Dict V = List (String × V)

module _ {ℓ} {V : Type ℓ} where
  unfoldable pub get : String → Dict V → Option V
  get k [] = none
  get k ((j, v) ∷ m) = if j == k then some v else get k m

  unfoldable pub remove : String → Dict V → Dict V
  remove k [] = []
  remove k ((j, v) ∷ m) = let rest = remove k m in if j == k then rest else (j, v) ∷ rest

  -- `d[k] = v`: the key keeps its place. (The rest of the list has no second entry of it.)
  unfoldable pub put : String → V → Dict V → Dict V
  put k v [] = (k, v) ∷ []
  put k v ((j, w) ∷ m) = if j == k then (j, v) ∷ remove k m else (j, w) ∷ put k v m

  pub get-remove :
      (k j : String) (m : Dict V) → get j (remove k m) ≡ (if k == j then none else get j m)
  unfolding get remove
  get-remove k j [] = ground arith
  get-remove k j ((i, w) ∷ m) = ground (arith, eq_iff k j, eq_iff i k, eq_iff i j, get-remove k j m)

  pub get-put :
      (k j : String) (v : V) (m : Dict V) → get j (put k v m) ≡ (if k == j then some v else get j m)
  unfolding get put
  get-put k j v [] = refl
  get-put k j v ((i, w) ∷ m) =
      ground (arith, eq_iff k j, eq_iff i k, eq_iff i j, get-put k j v m, get-remove k j m)

  -- `{**a, **b}`
  unfoldable pub merge : Dict V → Dict V → Dict V
  merge a [] = a
  merge a ((k, v) ∷ b) = merge (put k v a) b

  -- A sum over the values.
  unfoldable pub total : (V → ℕ) → Dict V → ℕ
  total f [] = 0
  total f ((k, v) ∷ m) = f v + total f m

module _ {ℓ} {V : Type ℓ} where
  -- Putting an entry adds its value to the sum over the others.
  pub total-put :
      (f : V → ℕ) (k : String) (v : V) (m : Dict V)
      → total f (put k v m) ≡ f v + total f (remove k m)
  unfolding total put remove
  total-put f k v [] = refl
  total-put f k v ((j, w) ∷ m) = ground (arith, total-put f k v m)

  pub total-remove-le : (f : V → ℕ) (k : String) (m : Dict V) → total f (remove k m) ≤ total f m
  unfolding total remove
  total-remove-le f k [] = omega arith
  total-remove-le f k ((j, w) ∷ m) = ground (arith, total-remove-le f k m)

  pub total-put-le :
      (f : V → ℕ) (k : String) (v : V) (m : Dict V) → total f (put k v m) ≤ total f m + f v
  total-put-le f k v m = omega (arith, total-put f k v m, total-remove-le f k m)

-- What is so of every entry.
abbrev pub Each {ℓ κ} : {V : Type ℓ} → (String → V → Type κ) → Dict V → Type κ
Each P [] = Unit
Each P ((k, v) ∷ m) = P k v × Each P m

pub Each-map {ℓ κ μ} :
    {V : Type ℓ} {P : String → V → Type κ} {Q : String → V → Type μ}
    → ((k : String) (v : V) → P k v → Q k v)
    → (m : Dict V) → Each P m
    → Each Q m
Each-map f [] h = tt
Each-map f ((k, v) ∷ m) h = (f k v h.0, Each-map f m h.1)

module _ {ℓ κ} {V : Type ℓ} (P : String → V → Type κ) where
  pub Each-remove : (k : String) (m : Dict V) → Each P m → Each P (remove k m)
  unfolding remove
  Each-remove k [] h = tt
  Each-remove k ((j, w) ∷ m) h =
      by_if (Each P) (j == k) (remove k m) ((j, w) ∷ remove k m) (λ _. Each-remove k m h.1)
        (λ _. (h.0, Each-remove k m h.1))

  pub Each-put : (k : String) (v : V) (m : Dict V) → P k v → Each P m → Each P (put k v m)
  unfolding put
  Each-put k v [] p h = (p, tt)
  Each-put k v ((j, w) ∷ m) p h =
      by_if (Each P) (j == k) ((j, v) ∷ remove k m) ((j, w) ∷ put k v m)
        (λ e. (subst (λ i. P i v) (sym ((eq_iff j k).0 e)) p, Each-remove k m h.1))
        (λ _. (h.0, Each-put k v m p h.1))

  pub Each-get : (k : String) (v : V) (m : Dict V) → Each P m → get k m ≡ some v → P k v
  unfolding get
  Each-get k v [] h e = absurd (none≢some e)
  Each-get k v ((j, w) ∷ m) h e = elim (Bool-cases (j == k)) [
    | inl same ↦
        subst (λ i. P i v) ((eq_iff j k).0 same) (subst (P j) (some_eq w v (rw same at e)) h.0)
    | inr other ↦ Each-get k v m h.1 (rw other at e)
  ]
