-- ===== src/Loads.antt =====
-- src/backend/infra/database/alchemy/tools/sqla_autoloads: the graph of relationships between the
-- mapped classes (node.py) and the search for a path to a relationship (core.py, `_bfs_search`).
pub mod Names
pub mod Singleton
pub mod Search
pub mod Correct
mod Tests
use litestar_cqrs_example.Common.{
  ℕ, zero, suc, ◌+◌, String, true, false, List, [], ◌∷◌, ◌++◌, if◌then◌else◌, ◌==◌, nat_eq,
  string_eq, length, contains,
}

-- `orm.RelationshipProperty`: its key and the class that it leads to.
pub record Relation : Type 0 where
  pub key : String
  pub target : String

-- The mapping of classes, by name, to their relationships, as `get_node` builds it.
abbrev pub Mapping : Type 0
Mapping = List (String × List Relation)

-- `Node.get`: the empty sequence where the class is not mapped.
unfoldable pub get : Mapping → String → List Relation
get [] model = []
get ((m, relations) ∷ rest) model = if m == model then relations else get rest model

-- A path of the queue. The classes between the relationships, which the last line of the search
-- filters out, are their targets; the last of them is `current`.
pub record Trail : Type 0 where
  pub relations : List Relation
  pub current : String

-- What the loop over the relationships of a class does: it returns from the search, or it has put
-- paths at the end of the queue.
pub data Scan : Type 0 where
  hit : List Relation → Scan
  queued : List Trail → Scan

unfoldable pub scan : String → Trail → List Relation → List Trail → Scan
scan end path [] queue = queued queue
scan end path (relation ∷ more) queue =
    let new_path = path.relations ++ relation ∷ [] in
    let later =
      scan end path more
        (queue ++ record { relations = new_path; current = relation.target } ∷ []) in
    if relation.key == end then hit new_path else later

pub data Outcome : Type 0 where
  found : List Relation → Outcome
  nothing out_of_fuel : Outcome

module _ (node : Mapping) (end : String) where
  unfoldable pub loop : ℕ → (queue : List Trail) → (seen : List String) → Outcome
  loop zero [] seen = nothing
  loop zero (_ ∷ _) seen = out_of_fuel
  loop (suc fuel) [] seen = nothing
  loop (suc fuel) (path ∷ queue) seen = elim (contains seen path.current) [
    | true ↦ loop fuel queue seen
    | false ↦ elim (scan end path (get node path.current) queue) [
      | hit relations ↦ found relations
      | queued queue' ↦ loop fuel queue' (path.current ∷ seen)
    ]
  ]

-- The relationships of the classes that were not seen.
unfoldable pub remaining : Mapping → List String → ℕ
remaining [] seen = 0
remaining ((m, relations) ∷ rest) seen =
    (if contains seen m then 0 else length relations) + remaining rest seen

-- A round for the start and one for each relationship are enough.
unfoldable pub bfs_search : Mapping → (start end : String) → Outcome
bfs_search node start end =
    loop node end (suc (remaining node [])) (record { relations = []; current = start } ∷ []) []
