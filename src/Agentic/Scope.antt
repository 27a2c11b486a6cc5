-- ===== src/Agentic/Scope.antt =====
-- promql_scope.py: which names of objects a caller's queries may see.
pub mod Held
pub mod Words
pub mod Prefixes
pub mod DaskNames
pub mod Owners
mod Examples
use purdue_af.Common.{
  ℕ, Bool, true, false, List, [], ◌∷◌, ltb, ◌==◌, if◌then◌else◌, ◌++◌, map, String,
}
use purdue_af.Common.Text.{Text, codes}
use purdue_af.Agentic.Regex.{Regex, nothing, dots, literal, none_of, cat, alt, text_of}

-- The nested dicts of without_prefixes, each with whether it has the key "", the end of a prefix. The
-- other keys are kept in their order; the code sorts them where it reads them.
mutual
  pub data Trie : Type 0 where
    node : Bool → Children → Trie

  pub data Children : Type 0 where
    leaf : Children
    child : ℕ → Trie → Children → Children

abbrev pub has_end : Trie → Bool
has_end (node e cs) = e

-- `node.setdefault(char, {})`, with what is done to the child.
unfoldable pub with_child : ℕ → (Trie → Trie) → Children → Children
with_child c f leaf = child c (f (node false leaf)) leaf
with_child c f (child d t cs) =
    let rest = with_child c f cs in
    if c == d
    then child d (f t) cs
    else if ltb c d
    then child c (f (node false leaf)) (child d t cs)
    else child d t rest

-- The inner loop: one prefix is put in.
unfoldable pub add_prefix : Text → Trie → Trie
unfolding with_child
add_prefix [] (node e cs) = node true cs
add_prefix (c ∷ p) (node e cs) = node e (with_child c (add_prefix p) cs)

unfoldable pub add_prefixes : List Text → Trie → Trie
unfolding add_prefix
add_prefixes [] t = t
add_prefixes (p ∷ prefixes) t = add_prefixes prefixes (add_prefix p t)

abbrev pub chars : Children → List ℕ
chars leaf = []
chars (child c t cs) = c ∷ chars cs

-- `alts` is the parts that walk joins by "|", from the last one so far.
unfoldable mutual
  pub walk : Trie → Regex
  walk (node e cs) = alt nothing (alts (cat (none_of (chars cs)) dots) cs)

  pub alts : Regex → Children → Regex
  alts part leaf = part
  alts part (child c t cs) =
      if has_end t then alts part cs else alt part (alts (cat (literal c) (walk t)) cs)

unfoldable pub without_prefixes : List Text → Regex
unfolding add_prefixes walk
without_prefixes prefixes = walk (add_prefixes prefixes (node false leaf))

abbrev each_after : String → Text → List Text
each_after p [] = []
each_after p (c ∷ cs) = (codes p ++ c ∷ []) ∷ each_after p cs

-- USER_PREFIXES
unfoldable pub user_prefixes : List Text
user_prefixes =
    each_after "purdue-af-" (codes "0123456789")
    ++ codes "dask-scheduler-"
      ∷ codes "dask-worker-"
      ∷ (each_after "dask-" (codes "0123456789abcdef")
          ++ codes "ray-job-" ∷ codes "ray-train-" ∷ codes "claim-" ∷ codes "volume-" ∷ [])

-- SHARED_PREFIXES
abbrev pub shared_prefixes : List Text
shared_prefixes = codes "ray-train-gateway" ∷ []

-- A caller and what is theirs, each set in its order.
pub record Owned : Type 0 where
  pub username : Text
  pub names : List Text
  pub dask_clusters : List Text

optional : Regex → Regex
optional r = alt r nothing

-- What is between "dask-" and the cluster's own name.
abbrev dask_kinds : Regex
dask_kinds =
    alt (text_of (codes "scheduler-"))
      (alt (text_of (codes "worker-")) (text_of (codes "credentials-")))

unfoldable pub dask_name : Text → Regex
unfolding optional
dask_name c =
    cat (text_of (codes "dask-"))
      (cat (optional dask_kinds) (cat (text_of c) (optional (cat (literal b'-') dots))))

-- Owned.object_names, of its pods, claims and volumes together.
unfoldable pub object_names : Owned → List Regex
unfolding dask_name
object_names owned = map text_of owned.names ++ map dask_name owned.dask_clusters

-- "|".join, of one part or more.
abbrev pub joined : Regex → List Regex → Regex
joined r [] = r
joined r (q ∷ parts) = alt r (joined q parts)

unfoldable pub shared_part : Text → Regex
shared_part p = cat (text_of p) dots

-- `allowed` of matchers: what the value of a label of OBJECT_LABELS is matched by.
unfoldable pub allowed_objects : Owned → Regex
unfolding without_prefixes user_prefixes object_names shared_part
allowed_objects owned =
    joined (without_prefixes user_prefixes) (map shared_part shared_prefixes ++ object_names owned)

-- `people` of matchers, without an empty one, after the empty text.
people : Text → List Regex
people [] = []
people (c ∷ s) = text_of (c ∷ s) ∷ []

-- What the value of a label of IDENTITY_LABELS is matched by, and that of one of NAMESPACE_LABELS.
unfoldable pub allowed_people : Owned → Regex
unfolding people
allowed_people owned = joined nothing (text_of (codes "fake") ∷ people owned.username)

unfoldable pub allowed_namespaces : Text → Regex
allowed_namespaces namespace = joined nothing (text_of namespace ∷ [])
