-- ===== src/Db/Roles.antt =====
-- The role locks of the cluster, pkg/db/sql_db.go: the table rolelock, whose key is the role.
pub mod Leases
pub mod Acquire
mod Examples
use maelstrom.Prelude.{
  ℕ, zero, suc, ◌+◌, ◌≡◌, String, Bool, true, false, ◌&&◌, ◌||◌, not, Option, none, some, List, [],
  ◌∷◌, Keyed, lookup, insert, delete, ltb, ◌==◌, ◌=s=◌, if◌then◌else◌,
}

-- Times are milliseconds.
pub record RoleRow : Type 0 where
  pub node_id : String
  pub expires_at : ℕ

abbrev pub RoleTable : Type 0
RoleTable = Keyed RoleRow

-- `insert into rolelock`: refused if the key is there.
pub insert_role : String → RoleRow → RoleTable → RoleTable × Bool
insert_role role row t = elim (lookup role t) [
  | none ↦ (insert role row t, true)
  | some old ↦ (t, false)
]

-- The where clause of the update: the lock has expired, or it is as this node saw it.
pub may_take : String → ℕ → ℕ → RoleRow → Bool
may_take node_id now cur_expires row =
    ltb row.expires_at now || (row.node_id =s= node_id && row.expires_at == cur_expires)

update_found : String → RoleRow → RoleTable → Bool → RoleTable × Bool
update_found role new t true = (insert role new t, true)
update_found role new t false = (t, false)

-- The flag says that one row was affected.
pub update_role : String → RoleRow → ℕ → ℕ → RoleTable → RoleTable × Bool
unfolding update_found may_take
update_role role new now cur_expires t = elim (lookup role t) [
  | none ↦ (t, false)
  | some row ↦ update_found role new t (may_take new.node_id now cur_expires row)
]

unfoldable pub delete_found : String → String → RoleTable → Option RoleRow → RoleTable
delete_found role node_id t none = t
delete_found role node_id t (some row) = if row.node_id =s= node_id then delete role t else t

pub release_role : String → String → RoleTable → RoleTable
unfolding delete_found
release_role role node_id t = delete_found role node_id t (lookup role t)

pub release_all_roles : String → RoleTable → RoleTable
release_all_roles node_id [] = []
release_all_roles node_id ((role, row) ∷ t) =
    let rest = release_all_roles node_id t in
    if row.node_id =s= node_id then rest else (role, row) ∷ rest

pub data Reply : Type 0 where
  -- The caller got the lock, or another node has it. An empty name asks for a retry.
  answer : Bool → String → Reply
  failed : Reply

pub data UpdateFault : Type 0 where
  no_fault table_locked update_failed : UpdateFault

-- What happens around one attempt: its clock, which statements fail, and what other nodes make of
-- the table between its statements.
pub record Attempt : Type 0 where
  pub now : ℕ
  pub select_fails : Bool
  pub before_update : RoleTable → RoleTable
  pub update_fault : UpdateFault
  pub before_insert : RoleTable → RoleTable
  pub insert_fails : Bool

abbrev pub new_row : String → ℕ → Attempt → RoleRow
new_row node_id lock_dur a = record { node_id = node_id; expires_at = a.now + lock_dur }

inserted : String → RoleTable × Bool → RoleTable × Reply
inserted node_id (t, true) = (t, answer true node_id)
inserted node_id (t, false) = (t, answer false "")

-- The insert at the end of the attempt.
insert_part : String → String → ℕ → Attempt → RoleTable → RoleTable × Reply
unfolding inserted insert_role
insert_part role node_id lock_dur a t =
    if a.insert_fails
    then (t, answer false "")
    else inserted node_id (insert_role role (new_row node_id lock_dur a) t)

updated : String → String → ℕ → Attempt → RoleTable × Bool → RoleTable × Reply
unfolding insert_part
updated role node_id lock_dur a (t, true) = (t, answer true node_id)
updated role node_id lock_dur a (t, false) = insert_part role node_id lock_dur a (a.before_insert t)

update_part : String → String → ℕ → Attempt → ℕ → UpdateFault → RoleTable → RoleTable × Reply
unfolding updated update_role
update_part role node_id lock_dur a cur_expires no_fault t =
    updated role node_id lock_dur a
      (update_role role (new_row node_id lock_dur a) a.now cur_expires t)
update_part role node_id lock_dur a cur_expires table_locked t = (t, answer false "")
update_part role node_id lock_dur a cur_expires update_failed t = (t, failed)

-- After the select: `cur` is the row that it saw. A row whose node is empty counts as none.
selected : String → String → ℕ → Attempt → Option RoleRow → RoleTable → RoleTable × Reply
unfolding insert_part update_part
selected role node_id lock_dur a none t =
    insert_part role node_id lock_dur a (a.before_insert (a.before_update t))
selected role node_id lock_dur a (some cur) t =
    if cur.node_id =s= ""
    then insert_part role node_id lock_dur a (a.before_insert (a.before_update t))
    else if ltb a.now cur.expires_at && not (cur.node_id =s= node_id)
    then (t, answer false cur.node_id)
    else update_part role node_id lock_dur a cur.expires_at a.update_fault (a.before_update t)

pub acquire_or_renew_role_once : String → String → ℕ → Attempt → RoleTable → RoleTable × Reply
unfolding selected
acquire_or_renew_role_once role node_id lock_dur a t =
    if a.select_fails then (t, failed) else selected role node_id lock_dur a (lookup role t) t

-- An answer with an empty name is dropped for the next one.
retried : RoleTable × Reply → RoleTable × Reply → RoleTable × Reply
retried (t, answer acquired node_id) rest =
    if node_id =s= "" then rest else (t, answer acquired node_id)
retried (t, failed) rest = (t, failed)

-- The loop over the attempts, of which the code makes five. Other nodes may act while it sleeps.
pub acquire_or_renew_role :
    String → String → ℕ → List (Attempt × (RoleTable → RoleTable)) → RoleTable → RoleTable × Reply
unfolding retried
acquire_or_renew_role role node_id lock_dur [] t = (t, failed)
acquire_or_renew_role role node_id lock_dur ((a, asleep) ∷ attempts) t =
    let r = acquire_or_renew_role_once role node_id lock_dur a t in
    retried r (acquire_or_renew_role role node_id lock_dur attempts (asleep (r.0)))
