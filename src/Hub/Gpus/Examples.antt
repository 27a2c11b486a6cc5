-- ===== src/Hub/Gpus/Examples.antt =====
-- Tests of Hub/Gpus and its modules at concrete inputs.
use purdue_af.Common.{ℕ, some, ◌≡◌, ◌≤◌, refl, List, [], ◌∷◌, arith}
use purdue_af.Common.Dict.{Dict, put, get}
use purdue_af.Common.Text.{starts_with}
use purdue_af.Hub.{Container, is_gpu}
use purdue_af.Hub.Gpus.{
  State, in_time, at_start, allowed, refused, reserved, begin, decide, requested_of, count_of,
  refuse_gpu_spawn_if_unavailable, passes,
}
use purdue_af.Hub.Gpus.Within.{Reach, start, wait, begins, decides, Reach-in_flight}
use purdue_af.Hub.Gpus.Verdicts.{in_flight, Settled, decide-Settled}
use purdue_af.Hub.Gpus.Retry.{refuse_gpu_spawn_if_unavailable_again}

abbrev pod : List Container
pod = record { limits = ("cpu", 4) ∷ ("nvidia.com/gpu", 1) ∷ []; env = [] } ∷ []

abbrev plain : List Container
plain = record { limits = ("cpu", 4) ∷ []; env = [] } ∷ []

abbrev one_free : Dict ℕ
one_free = ("nvidia.com/mig-1g.5gb", 0) ∷ ("nvidia.com/mig-7g.40gb", 0) ∷ ("nvidia.com/gpu", 1) ∷ []

abbrev after_alice : State
after_alice = (decide 0 0 "alice/" (requested_of pod) (some one_free) at_start).0

hidden : (begin "alice/" plain at_start).1 ≡ (begin "bob/" plain at_start).1
unfolding begin
hidden = refl

-- The second spawn is refused while the first's reservation lasts, and not afterwards.
bob_refused :
    (decide 119999 119999 "bob/" (requested_of pod) (some one_free) after_alice).1
    ≡ refused "nvidia.com/gpu" reserved
unfolding decide requested_of put get in_time
bob_refused = refl

bob_allowed :
    (decide 120000 120000 "bob/" (requested_of pod) (some one_free) after_alice).1 ≡ allowed
unfolding decide requested_of put get in_time
bob_allowed = refl

decide-Settled_example :
    Settled 5000 one_free
      (requested_of pod)
      after_alice
      (decide 5000 5000 "bob/" (requested_of pod) (some one_free) after_alice).0
      (decide 5000 5000 "bob/" (requested_of pod) (some one_free) after_alice).1
decide-Settled_example = decide-Settled 5000 5000 "bob/" pod one_free after_alice

two_hooks :
    Reach one_free 7000
      (decide 6000 7000 "bob/"
        (requested_of pod)
        (some one_free)
        (decide 5000 7000 "alice/"
          (requested_of pod)
          (some one_free)
          (begin "bob/" pod (begin "alice/" pod at_start).0).0).0).0
two_hooks =
    decides 6000 "bob/" pod (some one_free) (λ r. omega arith)
      (decides 5000 "alice/" pod (some one_free) (λ r. omega arith)
        (begins "bob/" pod (begins "alice/" pod (wait 7000 (omega arith) (start 0)))))

Reach-in_flight_example :
    in_flight 7000 "nvidia.com/gpu"
      (decide 6000 7000 "bob/"
        (requested_of pod)
        (some one_free)
        (decide 5000 7000 "alice/"
          (requested_of pod)
          (some one_free)
          (begin "bob/" pod (begin "alice/" pod at_start).0).0).0).0
    ≤ count_of "nvidia.com/gpu" one_free
Reach-in_flight_example = Reach-in_flight one_free 7000 _ two_hooks "nvidia.com/gpu"

alice_passes :
    (refuse_gpu_spawn_if_unavailable 0 0 "alice/" pod (some one_free) at_start).1 ≡ passes pod
unfolding refuse_gpu_spawn_if_unavailable is_gpu starts_with put get
alice_passes = refl

refuse_gpu_spawn_if_unavailable_again_example :
    (refuse_gpu_spawn_if_unavailable 1000 1000 "alice/" pod
      (some one_free)
      (refuse_gpu_spawn_if_unavailable 0 0 "alice/" pod (some one_free) at_start).0).1
    ≡ passes pod
refuse_gpu_spawn_if_unavailable_again_example =
    refuse_gpu_spawn_if_unavailable_again 0 0 1000 1000 "alice/" pod pod one_free at_start
      (omega arith) alice_passes
