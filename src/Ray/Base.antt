-- ===== src/Ray/Base.antt =====
-- The gateway's values: the GPU kinds of config.yaml, a cluster's shape, its users, and a refusal
-- with its gRPC code (Flavor, Shape, User, Refused of apps/ray-train/gateway.py).
-- A GPU's memory is a whole number of a unit fine enough for config.yaml's, and times are whole
-- milliseconds.
use purdue_af.Common.Text.{Text}
use purdue_af.Common.{ℕ, String, Bool, ◌&&◌, List, leb, keep}

pub record Flavor : Type 0 where
  pub resource : String
  pub memory : ℕ
  pub budget : ℕ
  pub per_worker : ℕ

-- SITES
pub data Site : Type 0 where
  purdue nrp : Site

-- The fields that `int()` and `float()` read are the numbers that they give: `requested_workers`
-- and its kin accept only the one plain text of each number.
pub record Shape : Type 0 where
  pub env : Text
  pub workers : ℕ
  pub memory : ℕ
  pub cpus : Text
  pub ram : Text
  pub per_worker : ℕ
  pub least : ℕ
  pub site : Site

-- Shape.flavors
unfoldable pub flavors : List Flavor → Shape → List Flavor
flavors all shape = keep (λ f. leb shape.memory f.memory && leb shape.per_worker f.per_worker) all

pub data StatusCode : Type 0 where
  invalid_argument not_found permission_denied resource_exhausted : StatusCode
  failed_precondition aborted unavailable unauthenticated : StatusCode

-- Why a call is refused: the texts of the messages, by what they say.
pub data Refusal : Type 0 where
  refused : StatusCode → String → Refusal

abbrev pub code_of : Refusal → StatusCode
code_of (refused c t) = c

pub record User : Type 0 where
  pub name : String
  pub account : String
  pub uid : ℕ
  pub gid : ℕ
  pub session_gpu : Bool
  pub workload : Bool
