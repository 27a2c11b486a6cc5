-- ===== src/Common/Result.antt =====
-- Functions that may raise and change no state: chains of them, and what a success says of each.
use mathlib.Core.Path.{◌≡◌, refl, ap}
use mathlib.Core.Bool.{Bool, true, false}
use mathlib.Core.Option.{Option, none, some}
use purdue_af.Common.Exec.{Outcome, ok, err}

module _ {E A B : Type 0} where
  infixl 10 ◌>>=◌ ◌>>◌
  abbrev pub ◌>>=◌ : Outcome E A → (A → Outcome E B) → Outcome E B
  ok a >>= f = f a
  err e >>= f = err e

  abbrev pub ◌>>◌ : Outcome E A → Outcome E B → Outcome E B
  m >> n = m >>= λ _. n

-- `if not b: raise e`
unfoldable pub check : {E : Type 0} → Bool → E → Outcome E (Unit {0})
check true e = ok tt
check false e = err e

-- `if o is None: raise e`
unfoldable pub or_refuse : {E A : Type 0} → Option A → E → Outcome E A
or_refuse none e = err e
or_refuse (some a) e = ok a

pub err≢ok : {E A : Type 0} (e : E) (a : A) → err e ≡ ok a → ⊥
err≢ok e a h = cc

pub ok_eq : {E A : Type 0} (a b : A) → Path (Outcome E A) (ok a) (ok b) → a ≡ b
ok_eq a b h = cc

-- A chain succeeds only if its first call does, and the rest with what that gave.
pub bind-ok :
    {E A B : Type 0} (m : Outcome E A) (f : A → Outcome E B) (b : B)
    → (m >>= f) ≡ ok b
    → (a : A) × (m ≡ ok a) × (f a ≡ ok b)
bind-ok (ok a) f b h = (a, refl, h)
bind-ok (err e) f b h = absurd (err≢ok e b h)

-- The same, for a proof that goes on with what the call gave.
pub after_ok :
    {E A B P : Type 0} (m : Outcome E A) (f : A → Outcome E B) (b : B)
    → (m >>= f) ≡ ok b
    → ((a : A) → m ≡ ok a → f a ≡ ok b → P)
    → P
after_ok m f b h rest = let (a, p, q) = bind-ok m f b h in rest a p q

pub check-ok : {E : Type 0} (b : Bool) (e : E) → check b e ≡ ok tt → b ≡ true
unfolding check
check-ok true e h = refl
check-ok false e h = absurd (err≢ok e tt h)

pub or_refuse-ok : {E A : Type 0} (o : Option A) (e : E) (a : A) → or_refuse o e ≡ ok a → o ≡ some a
unfolding or_refuse
or_refuse-ok none e a h = absurd (err≢ok e a h)
or_refuse-ok (some b) e a h = ap some (ok_eq b a h)
