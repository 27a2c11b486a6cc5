-- ===== src/Agentic/Scope/Words.antt =====
-- The keys of each node of promql_scope.py's trie are apart.
use purdue_af.Common.{ℕ, suc, ◌≤◌, ◌<◌, false, List, [], ◌∷◌, ltb, ◌==◌, arith, ◌≡◌, refl, by_if}
use purdue_af.Common.Text.{Text}
use purdue_af.Agentic.Scope.{
  Trie, node, Children, leaf, child, with_child, add_prefix, add_prefixes,
}
use purdue_af.Agentic.Scope.Held.{holds, holds_below}

unfoldable mutual
  pub IsSorted : Trie → Type 0
  IsSorted (node e cs) = IsAbove 0 cs

  -- The keys are `n` or more, and each is more than the one before.
  pub IsAbove : ℕ → Children → Type 0
  IsAbove n leaf = Unit
  IsAbove n (child d t cs) = (n ≤ d) × (IsSorted t × IsAbove (suc d) cs)

with_child-IsAbove :
    (c : ℕ) (f : Trie → Trie)
    → ((t : Trie) → IsSorted t → IsSorted (f t))
    → (n : ℕ) → n ≤ c
    → (cs : Children) → IsAbove n cs
    → IsAbove n (with_child c f cs)
unfolding IsSorted with_child
with_child-IsAbove c f k n le leaf h = (le, (k (node false leaf) tt, tt))
with_child-IsAbove c f k n le (child d t cs) h =
    by_if (IsAbove n) (c == d) (child d (f t) cs) _ (λ e. (h.0, (k t h.1.0, h.1.1)))
      (λ ne.
        by_if (IsAbove n) (ltb c d) (child c (f (node false leaf)) (child d t cs))
          (child d t (with_child c f cs))
          (λ lt. (le, (k (node false leaf) tt, (ground arith, h.1))))
          (λ ge. (h.0, (h.1.0, with_child-IsAbove c f k (suc d) (ground arith) cs h.1.1))))

add_prefix-IsSorted : (p : Text) (t : Trie) → IsSorted t → IsSorted (add_prefix p t)
unfolding IsSorted add_prefix
add_prefix-IsSorted [] (node e cs) h = h
add_prefix-IsSorted (c ∷ p) (node e cs) h =
    with_child-IsAbove c (add_prefix p) (add_prefix-IsSorted p) 0 (omega arith) cs h

pub add_prefixes-IsSorted :
    (prefixes : List Text) (t : Trie) → IsSorted t → IsSorted (add_prefixes prefixes t)
unfolding add_prefixes
add_prefixes-IsSorted [] t h = h
add_prefixes-IsSorted (p ∷ prefixes) t h =
    add_prefixes-IsSorted prefixes (add_prefix p t) (add_prefix-IsSorted p t h)

-- Below a key that is less than all, nothing is held.
pub holds_below_less :
    (x n : ℕ) (s : Text) (cs : Children) → x < n → IsAbove n cs → holds_below x s cs ≡ false
unfolding IsSorted holds
holds_below_less x n s leaf lt h = refl
holds_below_less x n s (child d t cs) lt h =
    let rest = holds_below_less x (suc d) s cs (omega (arith, h.0)) h.1.1 in
    let le = h.0 in ground (arith, rest)
