-- ===== src/Common/Lists.antt =====
-- Lists measured by native numbers, and a predicate that holds of every item.
use Prim.Native.Nat.{ℕ, suc, ◌+◌}
use mathlib.Core.Bool.{Bool, true, false}
use mathlib.Core.List.{List, [], ◌∷◌, ◌++◌, Memᴰ}
use mathlib.Core.Path.{◌≡◌, refl, sym, ap, subst, ◌∙◌}
use mathlib.Core.Logic.{◌≢◌, inl, inr}
use mathlib.Core.Bool.{false≢true}
use native.Mathlib.Omega.{arith}
use purdue_af.Common.Tests.{Bool-cases, cons≢nil}

module _ {ℓ} {A : Type ℓ} where
  abbrev pub length : List A → ℕ
  length [] = 0
  length (x ∷ xs) = suc (length xs)

  -- The items that pass a test, in order, as a comprehension with an `if` gives.
  abbrev pub keep : (A → Bool) → List A → List A
  keep p [] = []
  keep p (x ∷ xs) = let rest = keep p xs in elim (p x) [ true ↦ x ∷ rest | false ↦ rest ]

  abbrev pub sum_by : (A → ℕ) → List A → ℕ
  sum_by f [] = 0
  sum_by f (x ∷ xs) = f x + sum_by f xs

  abbrev pub any_of : (A → Bool) → List A → Bool
  any_of p [] = false
  any_of p (x ∷ xs) = elim (p x) [ true ↦ true | false ↦ any_of p xs ]

abbrev pub All {ℓ κ} : {A : Type ℓ} → (A → Type κ) → List A → Type κ
All P [] = Unit
All P (x ∷ xs) = P x × All P xs

pub All-append {ℓ κ} :
    {A : Type ℓ} (P : A → Type κ) (xs ys : List A) → All P xs → All P ys → All P (xs ++ ys)
All-append P [] ys h k = k
All-append P (x ∷ xs) ys h k = (h.0, All-append P xs ys h.1 k)

-- What `any` found.
pub any_of-mem {ℓ} :
    {A : Type ℓ} (p : A → Bool) (xs : List A)
    → any_of p xs ≡ true
    → (x : A) × Memᴰ x xs × (p x ≡ true)
any_of-mem p [] h = absurd (false≢true h)
any_of-mem p (x ∷ xs) h = elim (Bool-cases (p x)) [
  | inl e ↦ (x, Memᴰ.head refl, e)
  | inr e ↦ let (y, m, q) = any_of-mem p xs (ground (arith, e)) in (y, Memᴰ.tail m, q)
]

-- What `any` did not find.
pub any_of-All {ℓ} :
    {A : Type ℓ} (p : A → Bool) (xs : List A) → any_of p xs ≡ false → All (λ x. p x ≡ false) xs
any_of-All p [] h = tt
any_of-All p (x ∷ xs) h = (ground arith, any_of-All p xs (ground arith))

pub All-map {ℓ κ μ} :
    {A : Type ℓ} {P : A → Type κ} {Q : A → Type μ} (f : (x : A) → P x → Q x) (xs : List A)
    → All P xs
    → All Q xs
All-map f [] h = tt
All-map f (x ∷ xs) h = (f x h.0, All-map f xs h.1)

pub All-mem {ℓ κ} : {A : Type ℓ} (P : A → Type κ) (x : A) (xs : List A) → All P xs → Memᴰ x xs → P x
All-mem P x [] h m = elim m [ ]
All-mem P x (y ∷ ys) h (Memᴰ.head e) = subst P (sym e) h.0
All-mem P x (y ∷ ys) h (Memᴰ.tail t) = All-mem P x ys h.1 t

module _ {ℓ} {A : Type ℓ} (p : A → Bool) (x : A) (xs : List A) where
  pub keep_yes : p x ≡ true → keep p (x ∷ xs) ≡ x ∷ keep p xs
  keep_yes e = ap (λ b. elim b [ true ↦ x ∷ keep p xs | false ↦ keep p xs ]) e

  pub keep_no : p x ≡ false → keep p (x ∷ xs) ≡ keep p xs
  keep_no e = ap (λ b. elim b [ true ↦ x ∷ keep p xs | false ↦ keep p xs ]) e

-- What the test gives is so of each item that is kept.
pub All-keep {ℓ κ} :
    {A : Type ℓ} (P : A → Type κ) (p : A → Bool) (f : (x : A) → p x ≡ true → P x) (xs : List A)
    → All P (keep p xs)
All-keep P p f [] = tt
All-keep P p f (x ∷ xs) = elim (Bool-cases (p x)) [
  | inl e ↦ subst (All P) (sym (keep_yes p x xs e)) (f x e, All-keep P p f xs)
  | inr e ↦ subst (All P) (sym (keep_no p x xs e)) (All-keep P p f xs)
]

-- The same, with what is so of every item.
pub All-keep_of {ℓ κ} :
    {A : Type ℓ} (P : A → Type κ) (p : A → Bool) (xs : List A)
    → All P xs
    → All (λ x. P x × (p x ≡ true)) (keep p xs)
All-keep_of P p [] h = tt
All-keep_of P p (x ∷ xs) h = elim (Bool-cases (p x)) [
  | inl e ↦
      subst (All (λ x. P x × (p x ≡ true))) (sym (keep_yes p x xs e))
        ((h.0, e), All-keep_of P p xs h.1)
  | inr e ↦ subst (All (λ x. P x × (p x ≡ true))) (sym (keep_no p x xs e)) (All-keep_of P p xs h.1)
]

pub keep-some {ℓ} : {A : Type ℓ} (p : A → Bool) (xs : List A) → any_of p xs ≡ true → keep p xs ≢ []
keep-some p [] h e = false≢true h
keep-some p (x ∷ xs) h e = elim (Bool-cases (p x)) [
  | inl y ↦ cons≢nil (sym (keep_yes p x xs y) ∙ e)
  | inr n ↦ keep-some p xs (ground (arith, n)) (sym (keep_no p x xs n) ∙ e)
]

pub length-middle {ℓ} :
    {A : Type ℓ} (before after : List A) (x : A)
    → length (before ++ (x ∷ after)) ≡ 1 + length (before ++ after)
length-middle [] after x = omega arith
length-middle (b ∷ before) after x = omega (arith, length-middle before after x)

-- What is so of every item is so of every other one.
pub All-middle {ℓ κ} :
    {A : Type ℓ} (P : A → Type κ) (before after : List A) (x : A)
    → All P (before ++ (x ∷ after))
    → All P (before ++ after)
All-middle P [] after x h = h.1
All-middle P (b ∷ before) after x h = (h.0, All-middle P before after x h.1)

module _ {ℓ} {A : Type ℓ} (p : A → Bool) (x : A) (xs : List A) where
  pub any_of-here : p x ≡ true → any_of p (x ∷ xs) ≡ true
  any_of-here h = ground arith

  pub any_of-there : any_of p xs ≡ true → any_of p (x ∷ xs) ≡ true
  any_of-there h = ground arith
