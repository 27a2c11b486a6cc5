-- ===== src/LlmProxy/Load/Budget.antt =====
-- _budget of llm_proxy.py: how near it is to the fraction of the share.
use purdue_af.Common.{
  ℕ, zero, suc, ◌+◌, ◌*◌, ◌/◌, ◌%◌, ◌^◌, ◌≤◌, ◌<◌, ◌≡◌, ap, ◌∙◌, subst, ◌⊎◌, inl, inr, ltb, leb,
  leb→le, by_if, arith,
}
use purdue_af.LlmProxy.Load.{half_even, three_figures, few_tokens, share_budget}

-- `b` is n / d within half a percent.
abbrev pub IsNear : ℕ → ℕ → ℕ → Type 0
IsNear b n d = (200 * (b * d) ≤ 201 * n) × (199 * n ≤ 200 * (b * d))

below-IsNear : (n d q r : ℕ) → q * d + r ≡ n → 2 * r ≤ d → 100 * d ≤ n → IsNear q n d
below-IsNear n d q r e le h = omega arith

above-IsNear : (n d q r : ℕ) → q * d + r ≡ n → r < d → d ≤ 2 * r → 100 * d ≤ n → IsNear (q + 1) n d
above-IsNear n d q r e lt le h = (grind arith, grind arith)

even-IsNear :
    (n d q r : ℕ) → q * d + r ≡ n → r < d → 2 * r ≡ d → 100 * d ≤ n → IsNear (q + q % 2) n d
even-IsNear n d q r e lt tie h = elim odd_or_even [
  | inl p ↦ rw p (below-IsNear n d q r e (omega arith) h)
  | inr p ↦ rw p (above-IsNear n d q r e lt (omega arith) h)
]
  where
    odd_or_even : (q + q % 2 ≡ q) ⊎ (q + q % 2 ≡ q + 1)
    odd_or_even = omega arith

half_even-IsNear : (n d : ℕ) → 0 < d → 100 * d ≤ n → IsNear (half_even n d) n d
unfolding half_even
half_even-IsNear n d p h =
    by_if (λ b. IsNear b n d) (ltb (2 * r) d) q _
      (λ less. below-IsNear n d q r divided (ground arith) h)
      (λ not_less.
        by_if (λ b. IsNear b n d) (ltb d (2 * r)) (q + 1) (q + q % 2)
          (λ more. above-IsNear n d q r divided part (ground arith) h)
          (λ not_more. even-IsNear n d q r divided part (ground arith) h))
  where
    q : ℕ
    q = n / d

    r : ℕ
    r = n % d

    divided : n / d * d + n % d ≡ n
    divided = omega arith

    part : n % d < d
    part = omega arith

three_figures-IsNear :
    (k n d : ℕ) → 0 < d → 100 * d ≤ n → n < 100 * d * 10 ^ k → IsNear (three_figures k n d) n d
unfolding three_figures
three_figures-IsNear zero n d p h lt = absurd (omega arith)
three_figures-IsNear (suc k) n d p h lt =
    by_if (λ b. IsNear b n d) (leb (1000 * d) n) (10 * three_figures k n (10 * d)) (half_even n d)
      (λ more. tenfold (
        three_figures-IsNear k n (10 * d) (omega arith) (scaled (leb→le (1000 * d) n more))
          narrowed))
      (λ _. half_even-IsNear n d p h)
  where
    scaled : 1000 * d ≤ n → 100 * (10 * d) ≤ n
    scaled le = omega arith

    power : 10 ^ suc k ≡ 10 * 10 ^ k
    power = omega arith

    regroup : (x : ℕ) → 100 * d * (10 * x) ≡ 100 * (10 * d) * x
    regroup x = grind arith

    narrowed : n < 100 * (10 * d) * 10 ^ k
    narrowed = subst (λ m. n < m) (ap (λ x. 100 * d * x) power ∙ regroup (10 ^ k)) lt

    tenfold :
        IsNear (three_figures k n (10 * d)) n (10 * d)
        → IsNear (10 * three_figures k n (10 * d)) n d
    tenfold (a, b) = (grind arith, grind arith)

share_budget-IsNear :
    (fraction context : ℕ)
    → fraction ≤ 1000
    → context < 2 ^ 64
    → 100 * 100000 ≤ fraction * 35 * context
    → IsNear (share_budget fraction context) (fraction * 35 * context) 100000
unfolding share_budget
share_budget-IsNear fraction context f c h =
    by_if (λ b. IsNear b n 100000) (leb 10000000 n) (three_figures 22 n 100000)
      (few_tokens n 100000)
      (λ _. three_figures-IsNear 22 n 100000 (omega arith) (omega arith) small)
      (λ less. absurd (ground arith))
  where
    n : ℕ
    n = fraction * 35 * context

    scaled : fraction * 35 * context ≤ 1000 * 35 * context
    scaled = grind arith

    small : n < 100 * 100000 * 10 ^ 22
    small = omega (arith, scaled)
