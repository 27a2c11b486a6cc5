-- ===== src/Common/Exec/Keeps.antt =====
-- Invariants of handlers, one rule for each way to build a handler.
use mathlib.Core.Path.{◌≡◌, refl}
use mathlib.Core.Bool.{Bool, true, false}
use purdue_af.Common.Tests.{if◌then◌else◌}
use purdue_af.Common.Exec.{Outcome, ok, err, Exec, ◌>>=◌, pure, continue}

-- The handler keeps `P`, whether it returns or raises.
pub record Keeps {S E A : Type 0} (P : S → Type 0) (m : Exec S E A) : Type 0 where
  pub at : (s : S) → P s → P (m s).1

module _ {S E A : Type 0} {P : S → Type 0} where
  pub Keeps-pure : (a : A) → Keeps {E = E} P (pure a)
  Keeps-pure a = record { at = λ s h. h }

  pub Keeps-if :
      (b : Bool) (m n : Exec S E A) → Keeps P m → Keeps P n → Keeps P (if b then m else n)
  Keeps-if true m n km kn = km
  Keeps-if false m n km kn = kn

  -- A test whose answer the branch then uses.
  pub Keeps-if_eq :
      (b : Bool) (m n : Exec S E A)
      → (b ≡ true → Keeps P m)
      → (b ≡ false → Keeps P n)
      → Keeps P (if b then m else n)
  Keeps-if_eq true m n km kn = km refl
  Keeps-if_eq false m n km kn = kn refl

  -- Which branch is taken may depend on the state.
  pub Keeps-at_if :
      (b : Bool) (m n : Exec S E A) (s : S)
      → P s
      → (b ≡ true → Keeps P m)
      → (b ≡ false → Keeps P n)
      → P ((if b then m s else n s).1)
  Keeps-at_if true m n s h km kn = (km refl).at s h
  Keeps-at_if false m n s h km kn = (kn refl).at s h

module _ {S E A B : Type 0} {P : S → Type 0} where
  pub Keeps-continue :
      (r : Outcome E A) (f : A → Exec S E B) (s : S)
      → P s
      → ((a : A) → r ≡ ok a → Keeps P (f a))
      → P (continue r f s).1
  Keeps-continue (ok a) f s h k = (k a refl).at s h
  Keeps-continue (err e) f s h k = h

  pub Keeps-bind :
      (m : Exec S E A) (f : A → Exec S E B)
      → Keeps P m
      → ((a : A) → Keeps P (f a))
      → Keeps P (m >>= f)
  Keeps-bind m f km kf = record {
    at = λ s h. Keeps-continue (m s).0 f (m s).1 (km.at s h) (λ a _. kf a);
  }

pub ruleset keeps_rules = (Keeps-pure, Keeps-if, Keeps-bind)
