-- ===== src/Db/Roles/Leases/Keeps.antt =====
-- What one statement on the table rolelock of pkg/db/sql_db.go leaves in it.
use maelstrom.Prelude.{
  ◌≢◌, ℕ, ◌≤◌, ◌≡◌, String, true, false, some, [], ◌∷◌, arith, lookup, lookup-insert, lookup-delete,
  name_iff, ◌=s=◌, ◌&&◌, Option-cases, inl, inr, Bool-cases,
}
use maelstrom.Db.Roles.{
  RoleRow, RoleTable, insert_role, update_role, may_take, update_found, release_role,
  release_all_roles, delete_found,
}
use maelstrom.Db.Roles.Leases.{Lease, IsBacked}

-- A statement of one node leaves the unexpired leases of the others in the table.
pub update_role_keeps :
    (role : String) (row : RoleRow) (now cur_expires clock : ℕ) (t : RoleTable) (l : Lease)
    → now ≤ clock
    → (l.role =s= role && l.node_id =s= row.node_id) ≡ false
    → IsBacked clock t l
    → IsBacked clock (update_role role row now cur_expires t).0 l
unfolding update_role update_found may_take
update_role_keeps role row now cur_expires clock t l h other b = λ live.
    elim (Option-cases (lookup role t)) [
      | inl e ↦ rw (e, update_role) (b live)
      | inr (found, e) ↦ ground (
        arith,
        e,
        b live,
        name_iff l.role role,
        name_iff role l.role,
        name_iff l.node_id row.node_id,
        name_iff found.node_id row.node_id,
        lookup-insert role l.role row t,
      )
    ]

pub insert_role_keeps :
    (role : String) (row : RoleRow) (clock : ℕ) (t : RoleTable) (l : Lease)
    → IsBacked clock t l
    → IsBacked clock (insert_role role row t).0 l
unfolding insert_role
insert_role_keeps role row clock t l b = λ live. elim (Option-cases (lookup role t)) [
  | inl e ↦ ground (arith, e, b live, name_iff role l.role, lookup-insert role l.role row t)
  | inr (found, e) ↦ rw (e, insert_role) (b live)
]

pub release_role_keeps :
    (role node_id : String) (clock : ℕ) (t : RoleTable) (l : Lease)
    → (l.role =s= role && l.node_id =s= node_id) ≡ false
    → IsBacked clock t l
    → IsBacked clock (release_role role node_id t) l
unfolding release_role delete_found
release_role_keeps role node_id clock t l other b = λ live. elim (Option-cases (lookup role t)) [
  | inl e ↦ rw e (b live)
  | inr (found, e) ↦ ground (
    arith,
    e,
    b live,
    name_iff l.role role,
    name_iff role l.role,
    name_iff l.node_id node_id,
    name_iff found.node_id node_id,
    lookup-delete role l.role t,
  )
]

pub lookup-release_all_roles :
    (role node_id : String) (row : RoleRow) (t : RoleTable)
    → lookup role t ≡ some row
    → (row.node_id =s= node_id) ≡ false
    → lookup role (release_all_roles node_id t) ≡ some row
unfolding release_all_roles lookup
lookup-release_all_roles role node_id row [] e other = cc
lookup-release_all_roles role node_id row ((r, found) ∷ t) e other =
    elim (Bool-cases (r =s= role)) [
      | inl same ↦ ground (arith, same, e, other)
      | inr not_same ↦ ground (arith, not_same, e, lookup-release_all_roles role node_id row t)
    ]

-- The node that just got the role has it in the table.
pub update_role_grants :
    (role : String) (row : RoleRow) (now cur_expires : ℕ) (t : RoleTable)
    → (update_role role row now cur_expires t).1 ≡ true
    → lookup role (update_role role row now cur_expires t).0 ≡ some row
unfolding update_role update_found
update_role_grants role row now cur_expires t ok = elim (Option-cases (lookup role t)) [
  | inl e ↦ ground (arith, e, ok)
  | inr (found, e) ↦ ground (arith, e, ok, name_iff role role, lookup-insert role role row t)
]

pub insert_role_grants :
    (role : String) (row : RoleRow) (t : RoleTable)
    → (insert_role role row t).1 ≡ true
    → lookup role (insert_role role row t).0 ≡ some row
unfolding insert_role
insert_role_grants role row t ok = elim (Option-cases (lookup role t)) [
  | inl e ↦ ground (arith, e, ok, name_iff role role, lookup-insert role role row t)
  | inr (found, e) ↦ ground (arith, e, ok)
]

pub release_role-released :
    (role node_id : String) (t : RoleTable) (row : RoleRow)
    → lookup role (release_role role node_id t) ≡ some row
    → row.node_id ≢ node_id
unfolding release_role delete_found
release_role-released role node_id t row e = elim (Option-cases (lookup role t)) [
  | inl none_there ↦ ground (arith, e, none_there)
  | inr (found, there) ↦ ground (
    arith,
    e,
    there,
    name_iff role role,
    name_iff found.node_id node_id,
    lookup-delete role role t,
  )
]
