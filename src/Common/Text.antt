-- ===== src/Common/Text.antt =====
-- Texts that the programs walk: lists of code points, with Python's methods on them.
use Prim.Native.Char.{code}
use Prim.Native.Nat.{ℕ, ◌+◌}
use Prim.Native.String.{String}
use mathlib.Core.Path.{◌≡◌, refl, sym}
use mathlib.Core.Logic.{inl, inr}
use mathlib.Core.Bool.{Bool, true, false, ◌&&◌, ◌||◌}
use mathlib.Core.List.{List, [], ◌∷◌, ◌++◌}
use native.Mathlib.Omega.{arith}
use purdue_af.Common.Tests.{leb, ◌==◌, if◌then◌else◌, Bool-cases, true≢false}
use purdue_af.Common.Lists.{All}

abbrev pub Text : Type 0
Text = List ℕ

abbrev pub codes : String → Text
codes String.[] = []
codes (String.◌∷◌ c s) = code c ∷ codes s

-- `s == t`
unfoldable pub same : Text → Text → Bool
same [] [] = true
same [] (d ∷ t) = false
same (c ∷ s) [] = false
same (c ∷ s) (d ∷ t) = c == d && same s t

pub same→eq : (s t : Text) → same s t ≡ true → s ≡ t
unfolding same
same→eq [] [] h = refl
same→eq [] (d ∷ t) h = cc
same→eq (c ∷ s) [] h = cc
same→eq (c ∷ s) (d ∷ t) h = ground (arith, same→eq s t)

pub same_refl : (s : Text) → same s s ≡ true
unfolding same
same_refl [] = refl
same_refl (c ∷ s) = ground (arith, same_refl s)

-- `s.startswith(p)`
unfoldable pub starts_with : Text → Text → Bool
starts_with s [] = true
starts_with [] (d ∷ p) = false
starts_with (c ∷ s) (d ∷ p) = c == d && starts_with s p

pub starts_with→append : (s p : Text) → starts_with s p ≡ true → (r : Text) × (s ≡ p ++ r)
unfolding starts_with
starts_with→append s [] h = (s, refl)
starts_with→append [] (d ∷ p) h = absurd (true≢false (sym h))
starts_with→append (c ∷ s) (d ∷ p) h =
    let (r, e) = starts_with→append s p (ground arith) in (r, ground (arith, e))

add_part : ℕ → List Text → List Text
add_part c [] = (c ∷ []) ∷ []
add_part c (p ∷ parts) = (c ∷ p) ∷ parts

-- `s.split(sep)` for a separator of one character: always one part or more.
unfoldable pub split : ℕ → Text → List Text
unfolding add_part
split sep [] = [] ∷ []
split sep (c ∷ s) = let parts = split sep s in if c == sep then [] ∷ parts else add_part c parts

-- No character of the text is the separator.
abbrev pub IsFree : ℕ → Text → Type 0
IsFree sep = All (λ c. (c == sep) ≡ false)

add_part-IsFree :
    (sep c : ℕ)
    → (c == sep) ≡ false
    → (parts : List Text) → All (IsFree sep) parts
    → All (IsFree sep) (add_part c parts)
unfolding add_part
add_part-IsFree sep c e [] h = ((e, tt), tt)
add_part-IsFree sep c e (p ∷ parts) h = ((e, h.0), h.1)

pub split-IsFree : (sep : ℕ) (s : Text) → All (IsFree sep) (split sep s)
unfolding split
split-IsFree sep [] = (tt, tt)
split-IsFree sep (c ∷ s) = elim (Bool-cases (c == sep)) [
  | inl e ↦ rw e (tt, split-IsFree sep s)
  | inr e ↦ rw e (add_part-IsFree sep c e (split sep s) (split-IsFree sep s))
]

-- `sep.join(parts)`
unfoldable pub join : ℕ → List Text → Text
join sep [] = []
join sep (p ∷ []) = p
join sep (p ∷ q ∷ parts) = p ++ (sep ∷ join sep (q ∷ parts))

-- str.isspace of one character
unfoldable pub is_space : ℕ → Bool
is_space c =
    leb 9 c && leb c 13
    || leb 28 c && leb c 32
    || c == 133
    || c == 160
    || c == 5760
    || leb 8192 c && leb c 8202
    || c == 8232
    || c == 8233
    || c == 8239
    || c == 8287
    || c == 12288

unfoldable pub lstrip : Text → Text
lstrip [] = []
lstrip (c ∷ s) = let rest = lstrip s in if is_space c then rest else c ∷ s

drop_space : ℕ → Text → Text
drop_space c [] = if is_space c then [] else c ∷ []
drop_space c (d ∷ t) = c ∷ d ∷ t

-- Without the spaces at the end.
unfoldable pub rstrip : Text → Text
unfolding drop_space
rstrip [] = []
rstrip (c ∷ s) = drop_space c (rstrip s)

-- `s.strip()`
unfoldable pub strip : Text → Text
unfolding lstrip rstrip
strip s = rstrip (lstrip s)

-- str.lower, of ASCII letters
abbrev pub lower_char : ℕ → ℕ
lower_char c = if leb 65 c && leb c 90 then c + 32 else c

abbrev pub lower : Text → Text
lower [] = []
lower (c ∷ s) = lower_char c ∷ lower s

add_part-All :
    (P : ℕ → Type 0) (c : ℕ) (parts : List Text)
    → P c
    → All (All P) parts
    → All (All P) (add_part c parts)
unfolding add_part
add_part-All P c [] p h = ((p, tt), tt)
add_part-All P c (q ∷ parts) p h = ((p, h.0), h.1)

-- What is so of every character is so in every part.
pub split-All : (P : ℕ → Type 0) (sep : ℕ) (s : Text) → All P s → All (All P) (split sep s)
unfolding split
split-All P sep [] h = (tt, tt)
split-All P sep (c ∷ s) h = elim (Bool-cases (c == sep)) [
  | inl e ↦ rw e (tt, split-All P sep s h.1)
  | inr e ↦ rw e (add_part-All P c (split sep s) h.0 (split-All P sep s h.1))
]

-- `s.endswith(p)`
unfoldable pub ends_with : Text → Text → Bool
ends_with [] p = same [] p
ends_with (c ∷ s) p = same (c ∷ s) p || ends_with s p
