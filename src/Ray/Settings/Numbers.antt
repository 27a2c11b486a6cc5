-- ===== src/Ray/Settings/Numbers.antt =====
-- The texts that `whole` accepts: each is its number's only one, so that comparing two Shapes as
-- texts compares their numbers.
use purdue_af.Common.{
  ℕ, ◌+◌, ◌-◌, ◌*◌, ◌≤◌, ◌<◌, ◌≡◌, ◌≢◌, refl, sym, ap, ◌∙◌, ◌↔◌, ◌⊎◌, inl, inr, true, Option, some,
  [], ◌∷◌, arith, length,
}
use purdue_af.Common.Text.{Text}
use purdue_af.Common.Digits.{is_digit, digits, int_from, int}
use purdue_af.Ray.Requested.{is_plain, whole}

cons_eq : (c d : ℕ) (s t : Text) → c ≡ d → s ≡ t → Path Text (c ∷ s) (d ∷ t)
cons_eq c d s t e f = cc

eq_or_less : (a b : ℕ) → a ≤ b → (a ≡ b) ⊎ (a < b)
eq_or_less a b h = ground arith

three_ways : (a b : ℕ) → (a ≡ b) ⊎ ((a < b) ⊎ (b < a))
three_ways a b = ground arith

-- Digit texts of one length, each after a number of its own.
same_length :
    (a b : ℕ) (s t : Text)
    → length s ≡ length t
    → digits s ≡ true
    → digits t ≡ true
    → int_from a s ≡ int_from b t
    → (a ≡ b) × (s ≡ t)
unfolding digits is_digit int_from
same_length a b [] [] len ds dt h = (h, refl)
same_length a b [] (d ∷ t) len ds dt h = absurd (omega (arith, len))
same_length a b (c ∷ s) [] len ds dt h = absurd (omega (arith, len))
same_length a b (c ∷ s) (d ∷ t) len ds dt h =
    let (n, e) =
      same_length (a * 10 + (c - b'0')) (b * 10 + (d - b'0')) s t (omega (arith, len))
        (ground arith) (ground arith) h in
    let c_eq : c ≡ d = ground arith in (ground arith, cons_eq c d s t c_eq e)

-- A longer text after a number that is not 0 is not a shorter one after one digit.
shorter_ne :
    (a b : ℕ) (s t : Text)
    → a ≤ 9
    → 1 ≤ b
    → length s < length t
    → digits s ≡ true
    → digits t ≡ true
    → int_from a s ≢ int_from b t
unfolding digits is_digit int_from
shorter_ne a b s [] a9 b1 len ds dt h = omega (arith, len)
shorter_ne a b s (d ∷ t) a9 b1 len ds dt h =
    elim (eq_or_less (length s) (length t) (omega (arith, len))) [
      | inl e ↦
          let (n, m) = same_length a (b * 10 + (d - b'0')) s t e ds (ground arith) h in
          omega (arith, n)
      | inr l ↦ shorter_ne a (b * 10 + (d - b'0')) s t a9 (omega arith) l ds (ground arith) h
    ]

int-head : (c : ℕ) (s : Text) → int (c ∷ s) ≡ int_from (c - b'0') s
unfolding int int_from
int-head c s = ap (λ n. int_from n s) (omega arith)

plain_eq : (s t : Text) → is_plain s ≡ true → is_plain t ≡ true → int s ≡ int t → s ≡ t
unfolding is_plain is_digit
plain_eq [] t ps pt h = cc
plain_eq (c ∷ s) [] ps pt h = cc
plain_eq (c ∷ s) (d ∷ t) ps pt h =
    let tails : int_from (c - b'0') s ≡ int_from (d - b'0') t =
      sym (int-head c s) ∙ h ∙ int-head d t in
    elim (three_ways (length s) (length t)) [
      | inl e ↦
          let (n, m) =
            same_length (c - b'0') (d - b'0') s t e (ground arith) (ground arith) tails in
          let c_eq : c ≡ d = ground (arith, n) in cons_eq c d s t c_eq m
      | inr (inl l) ↦ absurd (
          shorter_ne (c - b'0') (d - b'0') s t (ground arith) (ground arith) l (ground arith)
            (ground arith) tails)
      | inr (inr l) ↦ absurd (
          shorter_ne (d - b'0') (c - b'0') t s (ground arith) (ground arith) l (ground arith)
            (ground arith) (sym tails))
    ]

whole-plain :
    (s : Text) (least : ℕ) (most : Option ℕ) → whole s least most ≡ true → is_plain s ≡ true
unfolding whole
whole-plain s least most h = ground arith

-- Two accepted texts, whatever their bounds, are of one number exactly if they are one text.
pub whole-int :
    (s t : Text) (least least' : ℕ) (most most' : Option ℕ)
    → whole s least most ≡ true
    → whole t least' most' ≡ true
    → (int s ≡ int t) ↔ (s ≡ t)
whole-int s t least least' most most' hs ht =
    (plain_eq s t (whole-plain s least most hs) (whole-plain t least' most' ht), λ e. ap int e)

pub whole-least :
    (s : Text) (least : ℕ) (most : Option ℕ) → whole s least most ≡ true → least ≤ int s
unfolding whole
whole-least s least most h = ground arith

pub whole-most : (s : Text) (least most : ℕ) → whole s least (some most) ≡ true → int s ≤ most
unfolding whole
whole-most s least most h = ground arith
