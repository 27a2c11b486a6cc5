-- ===== src/Agentic/Scope/Held.antt =====
-- What the trie of promql_scope.py's without_prefixes holds: a text is held if it starts with one of
-- the words that were put in.
use purdue_af.Common.{
  ℕ, Bool, true, false, ◌&&◌, ◌||◌, List, [], ◌∷◌, ◌==◌, arith, ◌≡◌, refl, sym, ◌∙◌, All, ◌↔◌,
}
use purdue_af.Common.Text.{Text, starts_with}
use purdue_af.Agentic.Scope.{
  Trie, node, Children, leaf, child, with_child, add_prefix, add_prefixes,
}

unfoldable mutual
  pub holds : Trie → Text → Bool
  holds (node true cs) s = true
  holds (node false cs) [] = false
  holds (node false cs) (c ∷ s) = holds_below c s cs

  pub holds_below : ℕ → Text → Children → Bool
  holds_below c s leaf = false
  holds_below c s (child d t cs) = c == d && holds t s || holds_below c s cs

holds_empty : (s : Text) → holds (node false leaf) s ≡ false
unfolding holds
holds_empty [] = refl
holds_empty (c ∷ s) = refl

-- `s` is held below `c` after an addition if it was, or if it starts with what is added.
holds_below-with_child :
    (x c : ℕ) (s p : Text) (f : Trie → Trie)
    → ((t : Trie) → holds (f t) s ≡ (holds t s || starts_with s p))
    → (cs : Children)
    → holds_below x s (with_child c f cs) ≡ (holds_below x s cs || x == c && starts_with s p)
unfolding holds with_child
holds_below-with_child x c s p f h leaf = ground (arith, h (node false leaf), holds_empty s)
holds_below-with_child x c s p f h (child d t cs) =
    ground (arith, h t, h (node false leaf), holds_empty s, holds_below-with_child x c s p f h cs)

holds-add_prefix :
    (p : Text) (t : Trie) (s : Text) → holds (add_prefix p t) s ≡ (holds t s || starts_with s p)
unfolding holds add_prefix starts_with
holds-add_prefix [] (node true cs) s = refl
holds-add_prefix [] (node false cs) s = ground arith
holds-add_prefix (c ∷ p) (node true cs) s = refl
holds-add_prefix (c ∷ p) (node false cs) [] = refl
holds-add_prefix (c ∷ p) (node false cs) (x ∷ s) =
    holds_below-with_child x c s p (add_prefix p) (λ t. holds-add_prefix p t s) cs

-- Whether the text starts with one of the words.
unfoldable pub starts_with_any : Text → List Text → Bool
starts_with_any s [] = false
starts_with_any s (p ∷ prefixes) = starts_with s p || starts_with_any s prefixes

holds-add_prefixes :
    (s : Text) (prefixes : List Text) (t : Trie)
    → holds (add_prefixes prefixes t) s ≡ (holds t s || starts_with_any s prefixes)
unfolding add_prefixes starts_with_any
holds-add_prefixes s [] t = ground arith
holds-add_prefixes s (p ∷ prefixes) t =
    ground (arith, holds-add_prefixes s prefixes (add_prefix p t), holds-add_prefix p t s)

-- The trie of some words holds just the texts that start with one.
holds_words :
    (prefixes : List Text) (s : Text)
    → holds (add_prefixes prefixes (node false leaf)) s ≡ starts_with_any s prefixes
holds_words prefixes s =
    ground (arith, holds-add_prefixes s prefixes (node false leaf), holds_empty s)

starts_with_any-All :
    (s : Text) (prefixes : List Text)
    → (starts_with_any s prefixes ≡ false) ↔ All (λ p. starts_with s p ≡ false) prefixes
unfolding starts_with_any
starts_with_any-All s [] = ((λ e. tt), (λ a. refl))
starts_with_any-All s (p ∷ prefixes) =
    let rest = starts_with_any-All s prefixes in
    ((λ e. (ground arith, rest.0 (ground arith))), (λ a. both a.0 (rest.1 a.1)))
  where
    both :
        starts_with s p ≡ false
        → starts_with_any s prefixes ≡ false
        → (starts_with s p || starts_with_any s prefixes) ≡ false
    both e f = ground arith

pub holds_words-All :
    (prefixes : List Text) (s : Text)
    → (holds (add_prefixes prefixes (node false leaf)) s ≡ false)
      ↔ All (λ p. starts_with s p ≡ false) prefixes
holds_words-All prefixes s =
    let (to, back) = starts_with_any-All s prefixes in
    ((λ e. to (sym (holds_words prefixes s) ∙ e)), (λ a. holds_words prefixes s ∙ back a))
