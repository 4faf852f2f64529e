-- ===== src/Db/Rows/Nodes.antt =====
-- Start counts in the database, pkg/db/sql_db.go.
use maelstrom.Prelude.{◌+◌, ◌≡◌, String, ◌&&◌, List, [], ◌∷◌, name_iff, ◌=s=◌, if◌then◌else◌, arith}
use maelstrom.Prelude.Int.{ℤ, ◌==ℤ◌, eq_of_parts}
use maelstrom.Db.Rows.{StartRow, get_component_deploy_count, increment_component_deploy_count}

-- A start counts for its component and version and for no other.
pub increment_component_deploy_count_exact :
    (now : ℤ) (name : String) (version : ℤ) (t : List StartRow) (k : String) (v : ℤ)
    → get_component_deploy_count k v (increment_component_deploy_count now name version t)
      ≡ (if name =s= k && version ==ℤ v then 1 else 0) + get_component_deploy_count k v t
unfolding get_component_deploy_count increment_component_deploy_count
increment_component_deploy_count_exact now name version [] k v = ground arith
increment_component_deploy_count_exact now name version (row ∷ t) k v = ground (
  arith,
  increment_component_deploy_count_exact now name version t k v,
  name_iff row.name name,
  name_iff row.name k,
  name_iff name k,
  eq_of_parts row.version version,
  eq_of_parts row.version v,
  eq_of_parts version v,
)
