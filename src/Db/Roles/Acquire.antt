-- ===== src/Db/Roles/Acquire.antt =====
-- The answers of AcquireOrRenewRole and acquireOrRenewRoleOnce of pkg/db/sql_db.go.
use maelstrom.Db.Roles.Leases.Keeps.{update_role_grants, insert_role_grants}
use maelstrom.Prelude.{
  if-cases, refl, ℕ, ◌+◌, ◌<◌, ◌≡◌, ◌≢◌, String, Bool, true, false, Option, none, some, List, [],
  ◌∷◌, lookup, insert, name_iff, ◌=s=◌, ◌&&◌, if◌then◌else◌, Option-cases, inl, inr, ltb, not, ◌||◌,
  arith,
}
use maelstrom.Db.Roles.{
  RoleRow, RoleTable, insert_role, update_role, may_take, update_found, Attempt, Reply, UpdateFault,
  no_fault, table_locked, update_failed, answer, failed, new_row, inserted, insert_part, updated,
  update_part, selected, acquire_or_renew_role_once, acquire_or_renew_role, retried,
}

-- What a reply tells the node: `t` is the table that its select read.
abbrev pub OnceOutcome : String → String → ℕ → Attempt → RoleTable → RoleTable × Reply → Type 0
OnceOutcome role node_id lock_dur a t (after, failed) = Unit
OnceOutcome role node_id lock_dur a t (after, answer true name) =
    (name ≡ node_id) × (lookup role after ≡ some (new_row node_id lock_dur a))
OnceOutcome role node_id lock_dur a t (after, answer false name) =
    name ≢ ""
    → (after ≡ t)
      × (name ≢ node_id)
      × ((cur : RoleRow) × (lookup role t ≡ some cur)
          × (cur.node_id ≡ name)
          × (a.now < cur.expires_at))

module _ (role node_id : String) (lock_dur : ℕ) (a : Attempt) (t : RoleTable) where
  inserted-OnceOutcome :
      (r : RoleTable × Bool)
      → (r.1 ≡ true → lookup role r.0 ≡ some (new_row node_id lock_dur a))
      → OnceOutcome role node_id lock_dur a t (inserted node_id r)
  unfolding inserted
  inserted-OnceOutcome (after, true) h = (refl, h refl)
  inserted-OnceOutcome (after, false) h = λ named. absurd (named refl)

  insert_part-OnceOutcome :
      (u : RoleTable)
      → OnceOutcome role node_id lock_dur a t (insert_part role node_id lock_dur a u)
  unfolding insert_part
  insert_part-OnceOutcome u =
      if-cases (OnceOutcome role node_id lock_dur a t) a.insert_fails
        (λ e named. absurd (named refl))
        (λ e.
          inserted-OnceOutcome (insert_role role (new_row node_id lock_dur a) u)
            (insert_role_grants role (new_row node_id lock_dur a) u))

  updated-OnceOutcome :
      (r : RoleTable × Bool)
      → (r.1 ≡ true → lookup role r.0 ≡ some (new_row node_id lock_dur a))
      → OnceOutcome role node_id lock_dur a t (updated role node_id lock_dur a r)
  unfolding updated
  updated-OnceOutcome (after, true) h = (refl, h refl)
  updated-OnceOutcome (after, false) h = insert_part-OnceOutcome (a.before_insert after)

  update_part-OnceOutcome :
      (cur_expires : ℕ) (fault : UpdateFault) (u : RoleTable)
      → OnceOutcome role node_id lock_dur a t
          (update_part role node_id lock_dur a cur_expires fault u)
  unfolding update_part
  update_part-OnceOutcome cur_expires no_fault u =
      updated-OnceOutcome (update_role role (new_row node_id lock_dur a) a.now cur_expires u)
        (update_role_grants role (new_row node_id lock_dur a) a.now cur_expires u)
  update_part-OnceOutcome cur_expires table_locked u = λ named. absurd (named refl)
  update_part-OnceOutcome cur_expires update_failed u = tt

  selected-OnceOutcome :
      (cur : Option RoleRow)
      → lookup role t ≡ cur
      → OnceOutcome role node_id lock_dur a t (selected role node_id lock_dur a cur t)
  unfolding selected
  selected-OnceOutcome none e = insert_part-OnceOutcome (a.before_insert (a.before_update t))
  selected-OnceOutcome (some cur) e =
      if-cases (OnceOutcome role node_id lock_dur a t) (cur.node_id =s= "")
        (λ empty. insert_part-OnceOutcome (a.before_insert (a.before_update t)))
        (λ named.
          if-cases (OnceOutcome role node_id lock_dur a t)
            (ltb a.now cur.expires_at && not (cur.node_id =s= node_id))
            (λ held some_name. (
              refl,
              ground (arith, held, name_iff cur.node_id node_id),
              (cur, e, refl, ground (arith, held)),
            ))
            (λ free. update_part-OnceOutcome cur.expires_at a.update_fault (a.before_update t)))

-- Whatever other nodes do between the statements of one attempt and whichever statements fail: if
-- the attempt says that the role is acquired, it names the caller, whose row with the new expiry
-- time is then in the table; if it says that the node `name` has the role, the table is unchanged,
-- and its row of the role is of that node, which is not the caller, and has not expired.
pub acquire_or_renew_role_once_reply :
    (role node_id : String) (lock_dur : ℕ) (a : Attempt) (t : RoleTable)
    → OnceOutcome role node_id lock_dur a t (acquire_or_renew_role_once role node_id lock_dur a t)
unfolding acquire_or_renew_role_once
acquire_or_renew_role_once_reply role node_id lock_dur a t =
    if-cases (OnceOutcome role node_id lock_dur a t) a.select_fails (λ e. tt)
      (λ e. selected-OnceOutcome role node_id lock_dur a t (lookup role t) refl)

-- An attempt without faults and without other nodes' statements between its own.
abbrev pub quiet : ℕ → Attempt
quiet now = record {
  now = now;
  select_fails = false;
  before_update = λ t. t;
  update_fault = no_fault;
  before_insert = λ t. t;
  insert_fails = false;
}

-- What the lock promises.
abbrev pub grant : String → String → ℕ → ℕ → RoleTable → RoleTable × Reply
grant role node_id lock_dur now t =
    (insert role (record { node_id = node_id; expires_at = now + lock_dur }) t, answer true node_id)

-- A row that expires at this very instant is neither free nor held: the caller tries again.
pub lock_reply : String → String → ℕ → ℕ → RoleTable → RoleTable × Reply
lock_reply role node_id lock_dur now t = elim (lookup role t) [
  | none ↦ grant role node_id lock_dur now t
  | some cur ↦
      if cur.node_id =s= node_id || ltb cur.expires_at now
      then grant role node_id lock_dur now t
      else if ltb now cur.expires_at
      then (t, answer false cur.node_id)
      else (t, answer false "")
]

-- An attempt between whose statements no other node acts, and none of which fails, replies and
-- changes the table as the lock promises, where the row of the role has a node's name if there is
-- one: the caller gets a role that has no row, that it has already or that has expired; it is told who
-- has a role that another node holds and that expires later; and where another node's row expires at
-- this very instant it is refused without a name, and the table stays.
pub acquire_or_renew_role_once-quiet :
    (role node_id : String) (lock_dur now : ℕ) (t : RoleTable)
    → ((row : RoleRow) → lookup role t ≡ some row → row.node_id ≢ "")
    → acquire_or_renew_role_once role node_id lock_dur (quiet now) t
      ≡ lock_reply role node_id lock_dur now t
unfolding acquire_or_renew_role_once selected insert_part inserted insert_role update_part updated
    update_role update_found may_take lock_reply
acquire_or_renew_role_once-quiet role node_id lock_dur now t named =
    elim (Option-cases (lookup role t)) [
      | inl e ↦ ground (arith, e)
      | inr (cur, e) ↦
          ground (arith, e, named cur e, name_iff cur.node_id "", name_iff cur.node_id node_id)
    ]

-- An answer of the loop is that of one of its attempts, and has a name.
abbrev pub LoopOutcome : String → String → ℕ → RoleTable × Reply → Type 0
LoopOutcome role node_id lock_dur r =
    (b : Bool) (name : String)
    → r.1 ≡ answer b name
    → (name ≢ "") × ((a : Attempt) × (t : RoleTable) × OnceOutcome role node_id lock_dur a t r)

retried-LoopOutcome :
    (role node_id : String) (lock_dur : ℕ) (a : Attempt) (t : RoleTable)
    (r rest : RoleTable × Reply)
    → OnceOutcome role node_id lock_dur a t r
    → LoopOutcome role node_id lock_dur rest
    → LoopOutcome role node_id lock_dur (retried r rest)
unfolding retried
retried-LoopOutcome role node_id lock_dur a t (after, answer acquired name) rest o h =
    if-cases (LoopOutcome role node_id lock_dur) (name =s= "") (λ e. h)
      (λ named b other e. (ground (arith, named, e, name_iff name ""), (a, t, o)))
retried-LoopOutcome role node_id lock_dur a t (after, failed) rest o h =
    λ b name e. ground (arith, e)

-- Whatever other nodes do and whichever statements fail: when the loop over the attempts answers,
-- its answer has a name, and is that of one attempt, with what the attempt's answer tells about the
-- table.
pub acquire_or_renew_role_reply :
    (role node_id : String) (lock_dur : ℕ) (attempts : List (Attempt × (RoleTable → RoleTable)))
    (t : RoleTable)
    → LoopOutcome role node_id lock_dur (acquire_or_renew_role role node_id lock_dur attempts t)
unfolding acquire_or_renew_role
acquire_or_renew_role_reply role node_id lock_dur [] t = λ b name e. ground (arith, e)
acquire_or_renew_role_reply role node_id lock_dur ((a, asleep) ∷ attempts) t =
    let r = acquire_or_renew_role_once role node_id lock_dur a t in
    retried-LoopOutcome role node_id lock_dur a t r
      (acquire_or_renew_role role node_id lock_dur attempts (asleep r.0))
      (acquire_or_renew_role_once_reply role node_id lock_dur a t)
      (acquire_or_renew_role_reply role node_id lock_dur attempts (asleep r.0))
