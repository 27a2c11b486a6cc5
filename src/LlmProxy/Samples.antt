-- ===== src/LlmProxy/Samples.antt =====
-- Samples by time in llm_proxy.py: what is forgotten, sorted, its quantile and median.
use purdue_af.Common.{
  ℕ, ◌+◌, ◌-◌, ◌*◌, ◌/◌, min, List, [], ◌∷◌, map, ltb, leb, if◌then◌else◌, length, ◌%◌, ◌==◌, zero,
  suc,
}

abbrev pub Samples : Type 0
Samples = List (ℕ × ℕ)

-- `while samples and now - samples[0][0] > span: samples.popleft()`
unfoldable pub drop_old : ℕ → ℕ → Samples → Samples
drop_old span now [] = []
drop_old span now ((t, v) ∷ s) =
    let rest = drop_old span now s in if ltb span (now - t) then rest else (t, v) ∷ s

abbrev pub value : ℕ × ℕ → ℕ
value (t, v) = v

unfoldable pub values : Samples → List ℕ
values s = map value s

unfoldable pub insert : ℕ → List ℕ → List ℕ
insert v [] = v ∷ []
insert v (w ∷ s) = let rest = insert v s in if leb v w then v ∷ w ∷ s else w ∷ rest

-- sorted()
unfoldable pub sorted : List ℕ → List ℕ
sorted [] = []
sorted (v ∷ s) = insert v (sorted s)

-- The item at a place, or the last one's default where there is none.
unfoldable pub item : List ℕ → ℕ → ℕ
item [] i = 0
item (v ∷ s) zero = v
item (v ∷ s) (suc i) = item s i

-- _quantile, for `tenths` of ten.
unfoldable pub quantile : List ℕ → ℕ → ℕ
quantile s tenths = item (sorted s) (min (length (sorted s) - 1) (tenths * length (sorted s) / 10))

-- Twice statistics.median: of an even number of values, the sum of the two in the middle.
unfoldable pub twice_median : List ℕ → ℕ
twice_median s =
    if length s % 2 == 1
    then 2 * item (sorted s) (length s / 2)
    else item (sorted s) (length s / 2 - 1) + item (sorted s) (length s / 2)
