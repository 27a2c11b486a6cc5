-- ===== src/Agentic/Scope/Prefixes.antt =====
-- The regular expression of promql_scope.py's without_prefixes matches what it says.
use purdue_af.Common.{
  ℕ, suc, ◌≤◌, true, false, List, [], ◌∷◌, ◌++◌, ◌==◌, arith, ◌≡◌, refl, ◌∙◌, ap, subst, ◌↔◌, ◌⊎◌,
  inl, inr, ==_iff, Bool-cases, All, true≢false, cons≢nil,
}
use purdue_af.Common.Text.{Text, IsFree, starts_with}
use purdue_af.Agentic.Regex.{Regex, dots, literal, none_of, cat, Matches}
use purdue_af.Agentic.Scope.{
  Trie, node, Children, leaf, child, has_end, chars, walk, alts, add_prefix, add_prefixes,
  without_prefixes,
}
use purdue_af.Agentic.Scope.Held.{holds, holds_below, holds_words-All}
use purdue_af.Agentic.Scope.Words.{IsSorted, IsAbove, add_prefixes-IsSorted, holds_below_less}

-- A child whose part matches.
unfoldable Branch : Children → Text → Type 0
Branch leaf x = ⊥
Branch (child c t cs) x = ((has_end t ≡ false) × Matches (cat (literal c) (walk t)) x) ⊎ Branch cs x

alts_iff :
    (part : Regex) (cs : Children) (x : Text)
    → Matches (alts part cs) x ↔ (Matches part x ⊎ Branch cs x)
unfolding walk Branch
alts_iff part leaf x = ((λ m. inl m), (λ h. elim h [ inl m ↦ m | inr e ↦ absurd e ]))
alts_iff part (child c t cs) x = elim (Bool-cases (has_end t)) [
  | inl yes_ ↦ rw yes_ (
    (λ m. elim ((alts_iff part cs x).0 m) [ inl p ↦ inl p | inr b ↦ inr (inr b) ]),
    (λ h. elim h [
      | inl p ↦ (alts_iff part cs x).1 (inl p)
      | inr (inl (no_, m)) ↦ absurd (true≢false no_)
      | inr (inr b) ↦ (alts_iff part cs x).1 (inr b)
    ]),
  )
  | inr no_ ↦
      let rest = alts_iff (cat (literal c) (walk t)) cs x in
      rw no_ (
        (λ m. elim m [
          | inl p ↦ inl p
          | inr later ↦ elim (rest.0 later) [
            | inl own ↦ inr (inl (refl, own))
            | inr b ↦ inr (inr b)
          ]
        ]),
        (λ h. elim h [
          | inl p ↦ inl p
          | inr (inl (e, m)) ↦ inr (rest.1 (inl m))
          | inr (inr b) ↦ inr (rest.1 (inr b))
        ]),
      )
]

literal_iff :
    (c x : ℕ) (r : Regex) (s : Text) → Matches (cat (literal c) r) (x ∷ s) ↔ ((x ≡ c) × Matches r s)
literal_iff c x r s =
    ((λ (a, b, e, f, m). first a b e f m), (λ (e, m). (c ∷ [], s, ap (λ y. y ∷ s) e, refl, m)))
  where
    first : (a b : Text) → x ∷ s ≡ a ++ b → a ≡ c ∷ [] → Matches r b → (x ≡ c) × Matches r s
    first a b e f m =
        let g : x ∷ s ≡ c ∷ b = e ∙ ap (λ y. y ++ b) f in (cc, subst (Matches r) (tail b g) m)
      where
        tail : (b : Text) → x ∷ s ≡ c ∷ b → b ≡ s
        tail b g = cc

class_iff :
    (cs : List ℕ) (x : ℕ) (s : Text)
    → Matches (cat (none_of cs) dots) (x ∷ s) ↔ (All (λ d. (x == d) ≡ false) cs × IsFree 10 s)
class_iff cs x s = (
  (λ (a, b, e, (c, f, all), free). first a b c e f all free),
  (λ (all, free). (x ∷ [], s, refl, (x, refl, all), free)),
)
  where
    first :
        (a b : Text) (c : ℕ)
        → x ∷ s ≡ a ++ b
        → a ≡ c ∷ []
        → All (λ d. (c == d) ≡ false) cs
        → IsFree 10 b
        → All (λ d. (x == d) ≡ false) cs × IsFree 10 s
    first a b c e f all free =
        let g : x ∷ s ≡ c ∷ b = e ∙ ap (λ y. y ++ b) f in
        (
          subst (λ y. All (λ d. (y == d) ≡ false) cs) (head b c g) all,
          subst (IsFree 10) (tail b c g) free,
        )
      where
        head : (b : Text) (c : ℕ) → x ∷ s ≡ c ∷ b → c ≡ x
        head b c g = cc

        tail : (b : Text) (c : ℕ) → x ∷ s ≡ c ∷ b → b ≡ s
        tail b c g = cc

-- Nothing is held below a character that is no key.
holds_below_other :
    (x : ℕ) (s : Text) (cs : Children)
    → All (λ d. (x == d) ≡ false) (chars cs)
    → holds_below x s cs ≡ false
unfolding holds
holds_below_other x s leaf a = refl
holds_below_other x s (child d t cs) a =
    let e = a.0 in let rest = holds_below_other x s cs a.1 in ground arith

Branch-above : (x n : ℕ) (s : Text) (cs : Children) → IsAbove n cs → Branch cs (x ∷ s) → n ≤ x
unfolding IsSorted Branch
Branch-above x n s leaf h b = absurd b
Branch-above x n s (child d t cs) h (inl (e, m)) =
    let (same, _) = (literal_iff d x (walk t) s).0 m in omega (arith, same, h.0)
Branch-above x n s (child d t cs) h (inr b) =
    omega (arith, Branch-above x (suc d) s cs h.1.1 b, h.0)

-- What walk's expressions say of shorter texts.
abbrev Walks : Text → Type 0
Walks s = (t : Trie) → IsSorted t → has_end t ≡ false → Matches (walk t) s ↔ (holds t s ≡ false)

holds_end : (t : Trie) (s : Text) → holds t s ≡ false → has_end t ≡ false
unfolding holds
holds_end (node true cs) s e = e
holds_end (node false cs) s e = refl

module _ (x : ℕ) (s : Text) (ih : Walks s) where
  Branch-free :
      (n : ℕ) (cs : Children) → IsAbove n cs → Branch cs (x ∷ s) → holds_below x s cs ≡ false
  unfolding IsSorted holds Branch
  Branch-free n leaf h b = refl
  Branch-free n (child d t cs) h (inl (e, m)) =
      let (same, m') = (literal_iff d x (walk t) s).0 m in
      let here : holds t s ≡ false = (ih t h.1.0 e).0 m' in
      let rest : holds_below x s cs ≡ false =
        holds_below_less x (suc d) s cs (omega (arith, same)) h.1.1 in
      ground (arith, here, rest)
  Branch-free n (child d t cs) h (inr b) =
      let above : suc d ≤ x = Branch-above x (suc d) s cs h.1.1 b in
      let rest : holds_below x s cs ≡ false = Branch-free (suc d) cs h.1.1 b in ground (arith, rest)

  Branch-of_free :
      (n : ℕ) (cs : Children)
      → IsAbove n cs
      → holds_below x s cs ≡ false
      → All (λ d. (x == d) ≡ false) (chars cs) ⊎ Branch cs (x ∷ s)
  unfolding IsSorted holds Branch
  Branch-of_free n leaf h e = inl tt
  Branch-of_free n (child d t cs) h e =
      let rest : holds_below x s cs ≡ false = ground (arith, e) in
      elim (Bool-cases (x == d)) [
        | inl same ↦
            let here : holds t s ≡ false = ground (arith, e, same) in
            let open_ = holds_end t s here in
            inr (
              inl (
                open_,
                (literal_iff d x (walk t) s).1 ((==_iff x d).0 same, (ih t h.1.0 open_).1 here),
              ))
        | inr other ↦ elim (Branch-of_free (suc d) cs h.1.1 rest) [
          | inl all ↦ inl (other, all)
          | inr b ↦ inr (inr b)
        ]
      ]

walk_iff : (s : Text) → IsFree 10 s → Walks s
unfolding IsSorted holds walk
walk_iff s free (node true cs) h e = absurd (true≢false e)
walk_iff [] free (node false cs) h e = ((λ m. refl), (λ a. inl refl))
walk_iff (x ∷ s) free (node false cs) h e = (
  (λ m. elim m [
    | inl none_ ↦ absurd (cons≢nil none_)
    | inr rest ↦ elim ((alts_iff own cs (x ∷ s)).0 rest) [
      | inl m ↦ holds_below_other x s cs ((class_iff (chars cs) x s).0 m).0
      | inr b ↦ Branch-free x s (walk_iff s free.1) 0 cs h b
    ]
  ]),
  (λ a. inr (
      (alts_iff own cs (x ∷ s)).1 (elim (Branch-of_free x s (walk_iff s free.1) 0 cs h a) [
        | inl all ↦ inl ((class_iff (chars cs) x s).1 (all, free.1))
        | inr b ↦ inr b
      ]))),
)
  where
    own : Regex
    own = cat (none_of (chars cs)) dots

-- The text is not empty.
abbrev pub IsWord : Text → Type 0
IsWord [] = ⊥
IsWord (c ∷ s) = Unit

has_end-add_prefixes :
    (prefixes : List Text) (t : Trie)
    → All IsWord prefixes
    → has_end t ≡ false
    → has_end (add_prefixes prefixes t) ≡ false
unfolding add_prefixes add_prefix
has_end-add_prefixes [] t h e = e
has_end-add_prefixes (p ∷ prefixes) t h e =
    has_end-add_prefixes prefixes (add_prefix p t) h.1 (one p t h.0 e)
  where
    one : (p : Text) (t : Trie) → IsWord p → has_end t ≡ false → has_end (add_prefix p t) ≡ false
    one [] t w e = absurd w
    one (c ∷ p) (node false cs) w e = refl
    one (c ∷ p) (node true cs) w e = e

-- For prefixes that are not empty, however many start alike or are prefixes of others: of the texts of
-- one line, the expression matches just those that start with none of the prefixes.
pub without_prefixes_iff :
    (prefixes : List Text)
    → All IsWord prefixes
    → (s : Text) → IsFree 10 s
    → Matches (without_prefixes prefixes) s ↔ All (λ p. starts_with s p ≡ false) prefixes
unfolding without_prefixes IsSorted
without_prefixes_iff prefixes words s free =
    let trie = add_prefixes prefixes (node false leaf) in
    let walked =
      walk_iff s free trie (add_prefixes-IsSorted prefixes (node false leaf) tt)
        (has_end-add_prefixes prefixes (node false leaf) words refl) in
    let held = holds_words-All prefixes s in
    ((λ m. held.0 (walked.0 m)), (λ a. walked.1 (held.1 a)))
