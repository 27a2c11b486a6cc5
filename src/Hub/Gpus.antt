-- ===== src/Hub/Gpus.antt =====
-- gpu-availability.py, with GPU_METRICS of gpu_queries.py: GPU sessions that cannot run are refused.
-- Times are milliseconds of the monotonic clock, and one call reads it once between two awaits.
-- Prometheus' samples are whole numbers; int(max(a - u, 0)) is the subtraction that stops at 0.
-- The hook waits for Prometheus once, so it is two steps: `begin`, then `decide` with what is answered.
pub mod Counts
pub mod Verdicts
pub mod Within
pub mod Retry
mod Examples
use purdue_af.Common.{
  ℕ, zero, suc, ◌+◌, ◌-◌, String, Bool, true, false, not, ◌&&◌, ◌||◌, Option, none, some, List, [],
  ◌∷◌, ◌++◌, ltb, leb, str_eq, if◌then◌else◌, or_default, keep, is_some, text_in,
}
use purdue_af.Common.Dict.{Dict, get, put}
use purdue_af.Hub.{Container, is_gpu}

-- GPU_FLAVORS, without what they are called, and GPU_METRICS.
abbrev pub gpu_flavors : List String
gpu_flavors = "nvidia.com/mig-1g.5gb" ∷ "nvidia.com/mig-7g.40gb" ∷ "nvidia.com/gpu" ∷ []

abbrev pub gpu_metrics : Dict String
gpu_metrics =
    ("nvidia.com/mig-1g.5gb", "nvidia_com_mig_1g_5gb")
    ∷ ("nvidia.com/mig-7g.40gb", "nvidia_com_mig_7g_40gb")
    ∷ ("nvidia.com/gpu", "nvidia_com_gpu")
    ∷ []

-- `d.get(key, 0)`
abbrev pub count_of : String → Dict ℕ → ℕ
count_of r d = or_default (get r d) 0

-- An entry of _recent_grants: one GPU of an admitted spawn.
pub record Grant : Type 0 where
  pub since : ℕ
  pub resource : String
  pub owner : String

pub data Reason : Type 0 where
  exhausted reserved : Reason

-- The module's variables, and the counter of refusals as what it was raised for, the last first.
pub record State : Type 0 where
  pub recent_grants : List Grant
  pub cache_expires : ℕ
  pub cache_free : Option (Dict ℕ)
  pub spawn_refused : List (String × Reason)

abbrev pub at_start : State
at_start = record { recent_grants = []; cache_expires = 0; cache_free = none; spawn_refused = [] }

free_by : Dict String → Dict ℕ → Dict ℕ → Dict ℕ
free_by [] allocatable used = []
free_by ((resource, metric) ∷ metrics) allocatable used =
    (resource, count_of metric allocatable - count_of metric used)
    ∷ free_by metrics allocatable used

-- The answers to the two queries; `none` for one that failed.
unfoldable pub get_free_gpus : Option (Dict ℕ) → Option (Dict ℕ) → Option (Dict ℕ)
unfolding free_by
get_free_gpus (some (a ∷ allocatable)) (some used) =
    some (free_by gpu_metrics (a ∷ allocatable) used)
get_free_gpus _ _ = none

-- `now - g[0] < GRANT_TTL`
unfoldable pub in_time : ℕ → Grant → Bool
in_time now g = ltb (now - g.since) 120000

unfoldable pub forget_old : ℕ → List Grant → List Grant
forget_old now [] = []
forget_old now (g ∷ grants) =
    let rest = forget_old now grants in if in_time now g then g ∷ rest else rest

unfoldable pub of_resource : String → List Grant → ℕ
of_resource r [] = 0
of_resource r (g ∷ grants) = (if str_eq g.resource r then 1 else 0) + of_resource r grants

-- What _grants_in_flight counts once it has forgotten the old ones.
unfoldable pub grants_in_flight : ℕ → String → List Grant → ℕ
unfolding forget_old of_resource
grants_in_flight now r grants = of_resource r (forget_old now grants)

unfoldable pub not_owned : String → List Grant → List Grant
not_owned owner [] = []
not_owned owner (g ∷ grants) =
    let rest = not_owned owner grants in if str_eq g.owner owner then rest else g ∷ rest

unfoldable pub release_grants : String → State → State
unfolding not_owned
release_grants owner s = record s { recent_grants = not_owned owner s.recent_grants }

-- observed_free_gpus: what Prometheus answers is asked for only where the cache does not do.
unfoldable pub observed_free_gpus : Bool → ℕ → Option (Dict ℕ) → State → State
observed_free_gpus use_cache now answer s =
    if not use_cache || not (is_some s.cache_free) || leb s.cache_expires now
    then record s { cache_free = answer; cache_expires = now + 30000 }
    else s

free_after : ℕ → List Grant → Dict ℕ → Dict ℕ
unfolding grants_in_flight
free_after now grants [] = []
free_after now grants ((r, n) ∷ observed) =
    (r, n - grants_in_flight now r grants) ∷ free_after now grants observed

-- free_gpus, once observed_free_gpus is done; it forgets the old grants with the first count.
unfoldable pub free_gpus : ℕ → State → State × Option (Dict ℕ)
unfolding free_after forget_old
free_gpus now s = elim s.cache_free [
  | none ↦ (s, none)
  | some [] ↦ (s, some [])
  | some (o ∷ observed) ↦ (
    record s { recent_grants = forget_old now s.recent_grants },
    some (free_after now s.recent_grants (o ∷ observed)),
  )
]

requested_in : Dict ℕ → Dict ℕ → Dict ℕ
requested_in [] requested = requested
requested_in ((r, amount) ∷ limits) requested = requested_in limits (
    if text_in r gpu_flavors && ltb 0 amount
    then put r (count_of r requested + amount) requested
    else requested)

requested_from : List Container → Dict ℕ → Dict ℕ
unfolding requested_in
requested_from [] requested = requested
requested_from (c ∷ pod) requested = requested_from pod (requested_in c.limits requested)

-- `requested` of the hook's first loop.
unfoldable pub requested_of : List Container → Dict ℕ
unfolding requested_from
requested_of pod = requested_from pod []

any_gpu_in : Dict ℕ → Bool
any_gpu_in [] = false
any_gpu_in ((r, amount) ∷ limits) = is_gpu r amount || any_gpu_in limits

-- `any_gpu` of the hook's first loop.
unfoldable pub any_gpu : List Container → Bool
unfolding any_gpu_in
any_gpu [] = false
any_gpu (c ∷ pod) = any_gpu_in c.limits || any_gpu pod

has_variable : String → List (String × String) → Bool
has_variable name [] = false
has_variable name ((n, v) ∷ env) = str_eq n name || has_variable name env

unfoldable pub hide_gpus_from : Container → Container
unfolding has_variable
hide_gpus_from c =
    if has_variable "NVIDIA_VISIBLE_DEVICES" c.env
    then c
    else record c { env = c.env ++ ("NVIDIA_VISIBLE_DEVICES", "void") ∷ [] }

unfoldable pub hide_gpus_from_pod : List Container → List Container
unfolding hide_gpus_from
hide_gpus_from_pod [] = []
hide_gpus_from_pod (c ∷ pod) = hide_gpus_from c ∷ hide_gpus_from_pod pod

-- The hook up to its await: the pod that it returns at once, or what it asks Prometheus for.
pub data Begun : Type 0 where
  returned : List Container → Begun
  asks : Dict ℕ → Begun

unfoldable pub at_requested : String → List Container → Dict ℕ → State → State × Begun
unfolding release_grants
at_requested owner pod [] s = (s, returned pod)
at_requested owner pod (r ∷ requested) s = (release_grants owner s, asks (r ∷ requested))

unfoldable pub begin : String → List Container → State → State × Begun
unfolding at_requested any_gpu requested_of hide_gpus_from_pod
begin owner pod s =
    if not (any_gpu pod)
    then (s, returned (hide_gpus_from_pod pod))
    else at_requested owner pod (requested_of pod) s

-- The first resource of which too little is free, and why.
unfoldable pub short : ℕ → Dict ℕ → List Grant → Dict ℕ → Option (String × Reason)
unfolding grants_in_flight
short now observed grants [] = none
short now observed grants ((r, amount) ∷ requested) =
    let others = short now observed grants requested in
    if leb amount (count_of r observed - grants_in_flight now r grants)
    then others
    else some (r, if ltb (count_of r observed) amount then exhausted else reserved)

times : ℕ → Grant → List Grant
times zero g = []
times (suc n) g = g ∷ times n g

unfoldable pub granted : ℕ → String → Dict ℕ → List Grant
unfolding times
granted now owner [] = []
granted now owner ((r, amount) ∷ requested) =
    times amount (record { since = now; resource = r; owner = owner })
    ++ granted now owner requested

pub data Verdict : Type 0 where
  allowed : Verdict
  refused : String → Reason → Verdict

abbrev pub settle : ℕ → String → Dict ℕ → Option (String × Reason) → State → State × Verdict
settle now owner requested none s =
    (record s { recent_grants = s.recent_grants ++ granted now owner requested }, allowed)
settle now owner requested (some (r, why)) s =
    (record s { spawn_refused = (r, why) ∷ s.spawn_refused }, refused r why)

abbrev after_answer : ℕ → String → Dict ℕ → Option (Dict ℕ) → State → State × Verdict
after_answer now owner requested none s = (s, allowed)
after_answer now owner requested (some observed) s =
    let kept = forget_old now s.recent_grants in
    settle now owner requested (short now observed kept requested)
      (record s { recent_grants = kept })

-- The hook from its await: Prometheus, asked at `asked`, has answered.
unfoldable pub decide : ℕ → ℕ → String → Dict ℕ → Option (Dict ℕ) → State → State × Verdict
unfolding observed_free_gpus forget_old short granted
decide asked now owner requested answer s =
    after_answer now owner requested answer (observed_free_gpus false asked answer s)

-- The hook's end: the pod, or GPUsUnavailableError.
pub data Hooked : Type 0 where
  passes : List Container → Hooked
  raises : String → Reason → Hooked

abbrev pub end_hook : List Container → Verdict → Hooked
end_hook pod allowed = passes pod
end_hook pod (refused r why) = raises r why

abbrev pub after_begun :
    ℕ → ℕ → String → List Container → Option (Dict ℕ) → State → Begun → State × Hooked
after_begun asked now owner pod answer s (returned pod') = (s, passes pod')
after_begun asked now owner pod answer s (asks requested) =
    let (s', v) = decide asked now owner requested answer s in (s', end_hook pod v)

-- The hook as one, where nothing else runs while it waits.
unfoldable pub refuse_gpu_spawn_if_unavailable :
    ℕ → ℕ → String → List Container → Option (Dict ℕ) → State → State × Hooked
unfolding begin decide
refuse_gpu_spawn_if_unavailable asked now owner pod answer s =
    let (s', b) = begin owner pod s in after_begun asked now owner pod answer s' b
