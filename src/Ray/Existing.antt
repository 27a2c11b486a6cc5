-- ===== src/Ray/Existing.antt =====
-- A user's cluster as apps/ray-train/gateway.py finds it, whether it runs a shape, and what a start
-- is answered.
use purdue_af.Common.{ℕ, String, Bool, true, false, ◌&&◌, ◌||◌, Option, none, some, List, ◌==◌}
use purdue_af.Common.Exec.{Outcome, ok, err, Exec}
use purdue_af.Common.Dict.{Dict}
use purdue_af.Common.Text.{Text, same}
use purdue_af.Ray.Base.{Flavor, Shape, Site, purdue, nrp, User, Refusal, refused, unavailable}
use purdue_af.Ray.Admit.{Grant, Answers, WorkerGroup}
use purdue_af.Ray.Reap.{Cluster, Gateway, Limits, Fault, refusal, client_error, live}

-- A cluster that Kubernetes has: as the reaper sees it, with its owner, its shape and its groups.
pub record Existing : Type 0 where
  pub cluster : Cluster
  pub owner : String
  pub shape : Shape
  pub groups : List WorkerGroup

abbrev pub same_site : Site → Site → Bool
same_site purdue purdue = true
same_site nrp nrp = true
same_site _ _ = false

-- The Shapes' texts are the same where their numbers are.
unfoldable pub same_shape : Shape → Shape → Bool
same_shape a b =
    same a.env b.env
    && (a.workers == b.workers
        && (a.memory == b.memory
            && (same a.cpus b.cpus
                && (same a.ram b.ram
                    && (a.per_worker == b.per_worker
                        && (a.least == b.least && same_site a.site b.site))))))

abbrev pub live_one : Option Existing → Bool
live_one none = false
live_one (some e) = live (some e.cluster)

unfoldable pub runs : Option Existing → Shape → Bool
runs none shape = false
runs (some e) shape = live (some e.cluster) && same_shape e.shape shape

-- A poll of a head that starts: Kubernetes' status for the token's Secret, and the head's own.
pub record HeadPoll : Type 0 where
  pub secret : Option ℕ
  pub head : Option ℕ
  pub late : Bool

-- `created` is the cluster as Kubernetes answers with it, and `found_again` what it shows when
-- another call created it first.
pub record Replies : Type 0 where
  pub now : ℕ
  pub found : Outcome Fault (Option Existing)
  pub admission : Answers
  pub gone : List (Outcome Fault Bool × Bool)
  pub post : Option ℕ
  pub created : Existing
  pub found_again : Outcome Fault (Option Existing)
  pub polls : List HeadPoll
  pub open_status : Option ℕ

pub record World : Type 0 where
  pub gateway : Gateway
  pub grants : Dict Grant

abbrev pub Start : Type 0 → Type 0
Start A = Exec World Fault A

abbrev pub refuse_with : {A : Type 0} → Refusal → Start A
refuse_with r s = (err (refusal r), s)

abbrev pub said : {A : Type 0} → Outcome Fault A → Start A
said r s = (r, s)

abbrev pub edit : (World → World) → Start (Unit {0})
edit f s = (ok tt, f s)

-- The gateway's settings, and the user whose cluster it is: `cluster` is its name.
pub record Context : Type 0 where
  pub kinds : List Flavor
  pub grant_time : ℕ
  pub limits : Limits
  pub user : User
  pub cluster : String
  pub shape : Shape
  pub roots : List Text

abbrev pub late_head : Refusal
late_head = refused unavailable "the head did not start in time"

abbrev pub is_made : Option ℕ → Bool
is_made none = false
is_made (some status) = status == 201 || status == 409

abbrev pub secret_fault : Option ℕ → Fault
secret_fault none = client_error
secret_fault (some status) = refusal (refused unavailable "could not create the token")

abbrev pub is_ok : Option ℕ → Bool
is_ok none = false
is_ok (some n) = n == 200
