-- ===== src/Db/Roles/Leases/Holder.antt =====
-- No two nodes have one role at a time: the table rolelock of pkg/db/sql_db.go.
use maelstrom.Prelude.{
  ℕ, ◌≤◌, ◌≡◌, sym, ap, ◌∙◌, some, arith, lookup, All-Mem, some-injective, Memᴰ,
}
use maelstrom.Db.Roles.{
  RoleRow, RoleTable, insert_role, update_role, release_role, release_all_roles,
}
use maelstrom.Db.Roles.Leases.{
  Lease, System, Step, Reach, IsBacked, Inv, All-map, forget-All, forget_node-All, tick, updates,
  inserts, releases, releases_all, start, next,
}
use maelstrom.Db.Roles.Leases.Keeps.{
  update_role_keeps, insert_role_keeps, release_role_keeps, lookup-release_all_roles,
  update_role_grants, insert_role_grants,
}

Step-Inv : {s t : System} → Step s t → Inv s → Inv t
Step-Inv {s} (tick later le) inv =
    All-map (IsBacked s.clock s.table) (IsBacked later s.table) s.leases
      (λ l b live. b (omega arith)) inv
Step-Inv {s} (updates role row now cur_expires le ok) inv = (
  λ live. update_role_grants role row now cur_expires s.table ok,
  forget-All (IsBacked s.clock s.table)
      (IsBacked s.clock (update_role role row now cur_expires s.table).0) role row.node_id s.leases
      (λ l. update_role_keeps role row now cur_expires s.clock s.table l le) inv,
)
Step-Inv {s} (inserts role row ok) inv = (
  λ live. insert_role_grants role row s.table ok,
  forget-All (IsBacked s.clock s.table) (IsBacked s.clock (insert_role role row s.table).0) role
      row.node_id s.leases (λ l other. insert_role_keeps role row s.clock s.table l) inv,
)
Step-Inv {s} (releases role node_id) inv =
    forget-All (IsBacked s.clock s.table) (IsBacked s.clock (release_role role node_id s.table))
      role node_id s.leases (λ l. release_role_keeps role node_id s.clock s.table l) inv
Step-Inv {s} (releases_all node_id) inv =
    forget_node-All (IsBacked s.clock s.table)
      (IsBacked s.clock (release_all_roles node_id s.table)) node_id s.leases
      (λ l other b live.
        lookup-release_all_roles l.role node_id
          (record { node_id = l.node_id; expires_at = l.expires_at }) s.table (b live) other)
      inv

Reach-Inv : {s : System} → Reach s → Inv s
Reach-Inv (start clock) = tt
Reach-Inv (next r step) = Step-Inv step (Reach-Inv r)

two_backed :
    (clock : ℕ) (t : RoleTable) (a b : Lease)
    → IsBacked clock t a
    → IsBacked clock t b
    → a.role ≡ b.role
    → clock ≤ a.expires_at
    → clock ≤ b.expires_at
    → a.node_id ≡ b.node_id
two_backed clock t a b backed_a backed_b same live_a live_b =
    ap RoleRow.node_id
      (some-injective _ _ (sym (backed_a live_a) ∙ ap (λ r. lookup r t) same ∙ backed_b live_b))

-- In every system that nodes reach by taking, renewing and releasing roles in any interleaving, on
-- one clock that each may read late: a lease that has not expired is the row of its role in the
-- table, and another lease of that role that has not expired is of the same node.
pub one_holder :
    {s : System}
    → Reach s
    → (a b : Lease) → Memᴰ a s.leases
    → Memᴰ b s.leases
    → a.role ≡ b.role
    → s.clock ≤ a.expires_at
    → s.clock ≤ b.expires_at
    → (lookup a.role s.table ≡ some (record { node_id = a.node_id; expires_at = a.expires_at }))
      × (a.node_id ≡ b.node_id)
one_holder {s} r a b in_a in_b same live_a live_b =
    let backed = All-Mem (IsBacked s.clock s.table) s.leases (Reach-Inv r) in
    (
      backed a in_a live_a,
      two_backed s.clock s.table a b (backed a in_a) (backed b in_b) same live_a live_b,
    )
