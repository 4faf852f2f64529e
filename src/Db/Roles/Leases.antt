-- ===== src/Db/Roles/Leases.antt =====
-- Nodes that take, renew and release roles over the table rolelock of pkg/db/sql_db.go, one SQL
-- statement at a time in any interleaving. All nodes read one clock, perhaps late.
pub mod Keeps
pub mod Holder
use maelstrom.Prelude.{
  ℕ, ◌+◌, ◌≤◌, ◌≡◌, ◌≢◌, refl, sym, ap, ◌∙◌, String, Bool, true, false, Option, none, some, List,
  [], ◌∷◌, All, arith, lookup, insert, delete, lookup-insert, lookup-delete, name_iff, ◌=s=◌, ◌&&◌,
  if◌then◌else◌, Option-cases, inl, inr, All-Mem, some-injective, Memᴰ, Bool-cases,
}
use maelstrom.Db.Roles.{
  RoleRow, RoleTable, insert_role, update_role, may_take, update_found, release_role,
  release_all_roles, delete_found,
}

-- A node was told that it has the role until `expires_at`.
pub record Lease : Type 0 where
  pub role : String
  pub node_id : String
  pub expires_at : ℕ

pub record System : Type 0 where
  pub clock : ℕ
  pub table : RoleTable
  pub leases : List Lease

-- A new answer to a node for a role takes the place of the one before, and a release ends it.
unfoldable pub forget : String → String → List Lease → List Lease
forget role node_id [] = []
forget role node_id (l ∷ ls) =
    let rest = forget role node_id ls in
    if l.role =s= role && l.node_id =s= node_id then rest else l ∷ rest

pub forget_node : String → List Lease → List Lease
forget_node node_id [] = []
forget_node node_id (l ∷ ls) =
    let rest = forget_node node_id ls in if l.node_id =s= node_id then rest else l ∷ rest

abbrev pub granted : String → RoleRow → List Lease → List Lease
granted role row ls =
    record { role = role; node_id = row.node_id; expires_at = row.expires_at }
    ∷ forget role row.node_id ls

-- `now` is a reading of the clock that the node made before; `cur_expires` is what it saw of the row
-- at some time, or any number.
pub data Step (s : System) : System → Type 0 where
  tick : (later : ℕ) → s.clock ≤ later → Step s (record s { clock = later })
  updates :
      (role : String) (row : RoleRow) (now cur_expires : ℕ)
      → now ≤ s.clock
      → (update_role role row now cur_expires s.table).1 ≡ true
      → Step s (record s {
        table = (update_role role row now cur_expires s.table).0;
        leases = granted role row s.leases;
      })
  inserts :
      (role : String) (row : RoleRow)
      → (insert_role role row s.table).1 ≡ true
      → Step s (record s {
        table = (insert_role role row s.table).0;
        leases = granted role row s.leases;
      })
  -- A node forgets its lease when it asks for the release, whatever the statement finds.
  releases :
      (role node_id : String)
      → Step s (record s {
        table = release_role role node_id s.table;
        leases = forget role node_id s.leases;
      })
  releases_all :
      (node_id : String)
      → Step s (record s {
        table = release_all_roles node_id s.table;
        leases = forget_node node_id s.leases;
      })

pub data Reach : System → Type 0 where
  start : (clock : ℕ) → Reach (record { clock = clock; table = []; leases = [] })
  next : {s t : System} → Reach s → Step s t → Reach t

-- A lease that has not expired stands in the table.
abbrev pub IsBacked : ℕ → RoleTable → Lease → Type 0
IsBacked clock t l =
    clock ≤ l.expires_at
    → lookup l.role t ≡ some (record { node_id = l.node_id; expires_at = l.expires_at })

abbrev pub Inv : System → Type 0
Inv s = All (IsBacked s.clock s.table) s.leases

pub All-map :
    (P Q : Lease → Type 0) (ls : List Lease) → ((l : Lease) → P l → Q l) → All P ls → All Q ls
All-map P Q [] f h = tt
All-map P Q (l ∷ ls) f h = (f l h.0, All-map P Q ls f h.1)

pub forget-All :
    (P Q : Lease → Type 0) (role node_id : String) (ls : List Lease)
    → ((l : Lease) → (l.role =s= role && l.node_id =s= node_id) ≡ false → P l → Q l)
    → All P ls
    → All Q (forget role node_id ls)
unfolding forget
forget-All P Q role node_id [] f h = tt
forget-All P Q role node_id (l ∷ ls) f h =
    elim (Bool-cases (l.role =s= role && l.node_id =s= node_id)) [
      | inl same ↦ rw same (forget-All P Q role node_id ls f h.1)
      | inr other ↦ rw other (f l other h.0, forget-All P Q role node_id ls f h.1)
    ]

pub forget_node-All :
    (P Q : Lease → Type 0) (node_id : String) (ls : List Lease)
    → ((l : Lease) → (l.node_id =s= node_id) ≡ false → P l → Q l)
    → All P ls
    → All Q (forget_node node_id ls)
unfolding forget_node
forget_node-All P Q node_id [] f h = tt
forget_node-All P Q node_id (l ∷ ls) f h = elim (Bool-cases (l.node_id =s= node_id)) [
  | inl same ↦ rw same (forget_node-All P Q node_id ls f h.1)
  | inr other ↦ rw other (f l other h.0, forget_node-All P Q node_id ls f h.1)
]
