-- ===== src/Ray/Requested.antt =====
-- The settings of a call one by one: whole, requested_size, gpu_memory, requested_memory,
-- requested_per_worker, requested_workers and bearer_token of apps/ray-train/gateway.py. A
-- Shape has the numbers of the fields that the code keeps as text: `whole` accepts one text of each
-- number.
use purdue_af.Common.{
  ℕ, min, max, Bool, true, false, not, ◌&&◌, ◌||◌, Option, none, some, List, [], ◌∷◌, length, leb,
  ◌==◌, if◌then◌else◌, or_default,
}
use purdue_af.Common.Exec.{Outcome, ok, err}
use purdue_af.Common.Result.{◌>>=◌, or_refuse}
use purdue_af.Common.Text.{Text, codes, same, strip, lower}
use purdue_af.Common.Digits.{is_digit, digits, int}
use purdue_af.Ray.Base.{Flavor, Refusal, refused, invalid_argument}

-- [1-9][0-9]{0,8}
unfoldable pub is_plain : Text → Bool
is_plain [] = false
is_plain (c ∷ cs) = leb b'1' c && (is_digit c && (digits cs && leb (length cs) 8))

abbrev at_most : ℕ → Option ℕ → Bool
at_most n none = true
at_most n (some most) = leb n most

unfoldable pub whole : Text → ℕ → Option ℕ → Bool
whole value least most = is_plain value && (leb least (int value) && at_most (int value) most)

unfoldable pub requested_size : Text → Text → ℕ → ℕ → Outcome Refusal Text
requested_size [] default least most = ok default
requested_size (c ∷ value) default least most =
    if whole (c ∷ value) least (some most)
    then ok (c ∷ value)
    else err (refused invalid_argument "a whole number within bounds")

-- What float() makes of a text.
pub data Reading : Type 0 where
  no_number not_a_number below_zero infinite : Reading
  amount : ℕ → Reading

-- `reads` is float().
unfoldable pub gpu_memory : (Text → Reading) → Text → Outcome Refusal ℕ
gpu_memory reads [] = ok 0
gpu_memory reads (c ∷ value) = elim (reads (c ∷ value)) [
  | amount wanted ↦ ok wanted
  | no_number ↦ err (refused invalid_argument "a number of GB")
  | not_a_number ↦ err (refused invalid_argument "a number of GB")
  | below_zero ↦ err (refused invalid_argument "a number of GB")
  | infinite ↦ err (refused invalid_argument "a number of GB")
]

-- min() of the memories that are enough; `none` if there are none.
unfoldable pub least_memory : ℕ → List Flavor → Option ℕ
least_memory wanted [] = none
least_memory wanted (f ∷ fs) =
    let rest = least_memory wanted fs in
    if leb wanted f.memory then some (min f.memory (or_default rest f.memory)) else rest

unfoldable pub requested_memory : List Flavor → (Text → Reading) → Text → Outcome Refusal ℕ
requested_memory all reads value = do
  wanted ← gpu_memory reads value
  or_refuse (least_memory wanted all) (refused invalid_argument "no GPU has the memory")

-- max() of what one worker may hold of the GPUs with the memory.
unfoldable pub most_per_worker : ℕ → List Flavor → ℕ
most_per_worker memory [] = 0
most_per_worker memory (f ∷ fs) =
    let rest = most_per_worker memory fs in
    if leb memory f.memory then max f.per_worker rest else rest

unfoldable pub requested_per_worker : List Flavor → Text → ℕ → Outcome Refusal ℕ
requested_per_worker all [] memory = ok 1
requested_per_worker all (c ∷ value) memory =
    if whole (c ∷ value) 1 (some (most_per_worker memory all))
    then ok (int (c ∷ value))
    else err (refused invalid_argument "a number of GPUs")

abbrev pub is_empty : Text → Bool
is_empty [] = true
is_empty (c ∷ cs) = false

-- The most workers, and the fewest.
unfoldable pub requested_workers : Text → Text → Option ℕ → Outcome Refusal (ℕ × ℕ)
requested_workers [] [] most = ok (1, 1)
requested_workers (c ∷ exactly) (d ∷ up_to) most =
    err (refused invalid_argument "set one of the two")
requested_workers (c ∷ exactly) [] most =
    if whole (c ∷ exactly) 1 most
    then ok (int (c ∷ exactly), int (c ∷ exactly))
    else err (refused invalid_argument "a number of workers")
requested_workers [] (d ∷ up_to) most =
    if whole (d ∷ up_to) 1 most
    then ok (int (d ∷ up_to), 1)
    else err (refused invalid_argument "a number of workers")

-- str.partition at the first space: what is before it, and what is after it.
unfoldable pub before_space : Text → Text
before_space [] = []
before_space (c ∷ cs) = if c == b' ' then [] else c ∷ before_space cs

unfoldable pub after_space : Text → Text
after_space [] = []
after_space (c ∷ cs) = if c == b' ' then cs else after_space cs

unfoldable pub is_printable_ascii : Text → Bool
is_printable_ascii [] = true
is_printable_ascii (c ∷ cs) = leb 32 c && (leb c 126 && is_printable_ascii cs)

unfoldable pub bearer_token : Text → Option Text
bearer_token header =
    let scheme = lower (before_space header) in
    let token = strip (after_space header) in
    if not (same scheme (codes "bearer") || same scheme (codes "token")) || is_empty token
    then none
    else if is_printable_ascii token
    then some token
    else none
