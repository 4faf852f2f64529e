-- ===== src/CompLock.antt =====
-- The lock under which a component's containers start, pkg/converge/complock.go, over the roles and the
-- start counts of the database.
mod Answers
mod Examples
use Prim.Native.String.{◌++◌}
use maelstrom.Prelude.{
  ℕ, ◌+◌, ◌*◌, ◌≡◌, String, Bool, true, false, ◌&&◌, Option, none, some, List, [], ◌∷◌, ltb, ◌=s=◌,
  if◌then◌else◌,
}
use maelstrom.Prelude.Int.{ℤ, pos, pos_part, ◌+ℤ◌}
use maelstrom.V1.{
  Component, health_check_seconds, start_parallelism_parallel, start_parallelism_seriesfirst,
}
use maelstrom.Db.Roles.{
  RoleTable, Attempt, Reply, answer, failed, acquire_or_renew_role, release_role,
}
use maelstrom.Db.Rows.{StartRow, get_component_deploy_count, increment_component_deploy_count}

pub record Store : Type 0 where
  pub roles : RoleTable
  pub starts : List StartRow

pub data LockResult : Type 0 where
  -- The start may go on: with the lock, or without since it needs none.
  acquired not_needed : LockResult
  -- An error of the database, or the end of the context.
  db_error canceled : LockResult
  -- The loop goes on.
  waiting : LockResult

-- One round of the loop: what fails in it, the attempts of AcquireOrRenewRole, whether the context
-- ends while it waits, and what other nodes do before the next round.
pub record Round : Type 0 where
  pub count_fails : Bool
  pub attempts : List (Attempt × (RoleTable → RoleTable))
  pub context_done : Bool
  pub asleep : Store → Store

pub comp_locker_role_id : Component → String
comp_locker_role_id c = "start_container_" ++ c.name

-- In milliseconds.
pub lock_dur : Component → ℕ
lock_dur c = pos_part (health_check_seconds c.docker +ℤ pos 1) * 1000

-- After the call of AcquireOrRenewRole. `rest` is what the later rounds give.
replied : Round → Store → RoleTable × Reply → Store × LockResult → Store × LockResult
replied round s (roles, failed) rest = (record s { roles = roles }, db_error)
replied round s (roles, answer true node) rest = (record s { roles = roles }, acquired)
replied round s (roles, answer false node) rest =
    if round.context_done then (record s { roles = roles }, canceled) else rest

waits : String → Component → List Round → Store → Store × LockResult
unfolding replied lock_dur comp_locker_role_id
waits node c [] s = (s, waiting)
waits node c (round ∷ rounds) s =
    let r =
      acquire_or_renew_role (comp_locker_role_id c) node (lock_dur c) round.attempts s.roles in
    let rest = waits node c rounds (round.asleep (record s { roles = r.0 })) in
    if c.start_parallelism =s= start_parallelism_seriesfirst
    then if round.count_fails
      then (s, db_error)
      else if ltb 0 (get_component_deploy_count c.name c.version s.starts)
      then (s, not_needed)
      else replied round s r rest
    else replied round s r rest

pub start_lock_acquire : String → Component → List Round → Store → Store × LockResult
unfolding waits
start_lock_acquire node c rounds s =
    if c.start_parallelism =s= start_parallelism_parallel
    then (s, not_needed)
    else waits node c rounds s

-- The statements may fail: the increment ends the call, and the release comes last.
pub post_start_container : ℤ → Bool → Bool → Bool → Bool → String → Component → Store → Store × Bool
unfolding comp_locker_role_id
post_start_container now increment_fails release_fails release_lock success node c s =
    let counted =
      if success
      then record s { starts = increment_component_deploy_count now c.name c.version s.starts }
      else s in
    if success && increment_fails
    then (s, false)
    else if release_lock
    then if release_fails then (counted, false) else (
      record counted { roles = release_role (comp_locker_role_id c) node counted.roles },
      true,
    )
    else (counted, true)
