-- ===== src/CompLock/Answers.antt =====
-- What the answers of the start lock mean, pkg/converge/complock.go.
use maelstrom.Prelude.{
  ◌+◌, ◌≤◌, ◌≡◌, ◌≢◌, ◌⊎◌, refl, ap, String, Bool, true, false, some, List, [], ◌∷◌, lookup,
  name_iff, if-cases, inl, inr, ◌=s=◌, ltb, arith,
}
use maelstrom.Prelude.Int.{ℤ}
use maelstrom.V1.{Component, start_parallelism_parallel, start_parallelism_seriesfirst}
use maelstrom.Db.Roles.{RoleTable, RoleRow, Reply, answer, failed, new_row, acquire_or_renew_role}
use maelstrom.Db.Roles.Leases.Keeps.{release_role-released}
use maelstrom.Db.Roles.Acquire.{LoopOutcome, acquire_or_renew_role_reply}
use maelstrom.Db.Rows.{StartRow, get_component_deploy_count, increment_component_deploy_count}
use maelstrom.Db.Rows.Nodes.{increment_component_deploy_count_exact}
use maelstrom.CompLock.{
  Store, LockResult, Round, acquired, not_needed, db_error, canceled, waiting, comp_locker_role_id,
  lock_dur, replied, waits, start_lock_acquire, post_start_container,
}

-- With the lock, the row of the component's role is this node's. Without one, the component's starts
-- are parallel, or it is started first in series and has been started.
abbrev pub LockOutcome : String → Component → Store × LockResult → Type 0
LockOutcome node c (s, acquired) =
    (c.start_parallelism ≢ start_parallelism_parallel)
    × ((row : RoleRow) × (lookup (comp_locker_role_id c) s.roles ≡ some row) × (row.node_id ≡ node))
LockOutcome node c (s, not_needed) =
    (c.start_parallelism ≡ start_parallelism_parallel)
    ⊎ ((c.start_parallelism ≡ start_parallelism_seriesfirst)
        × (1 ≤ get_component_deploy_count c.name c.version s.starts))
LockOutcome node c (s, db_error) = Unit
LockOutcome node c (s, canceled) = Unit
LockOutcome node c (s, waiting) = Unit

module _ (node : String) (c : Component)
    (series : c.start_parallelism ≢ start_parallelism_parallel) where
  replied-LockOutcome :
      (round : Round) (s : Store) (r : RoleTable × Reply) (rest : Store × LockResult)
      → LoopOutcome (comp_locker_role_id c) node (lock_dur c) r
      → LockOutcome node c rest
      → LockOutcome node c (replied round s r rest)
  unfolding replied
  replied-LockOutcome round s (roles, failed) rest told h = tt
  replied-LockOutcome round s (roles, answer true name) rest told h =
      let (named, (a, t, (own, row))) = told true name refl in
      (series, (new_row node (lock_dur c) a, row, refl))
  replied-LockOutcome round s (roles, answer false name) rest told h =
      if-cases (LockOutcome node c) round.context_done (λ e. tt) (λ e. h)

  waits-LockOutcome : (rounds : List Round) (s : Store) → LockOutcome node c (waits node c rounds s)
  unfolding waits
  waits-LockOutcome [] s = tt
  waits-LockOutcome (round ∷ rounds) s =
      let r =
        acquire_or_renew_role (comp_locker_role_id c) node (lock_dur c) round.attempts s.roles in
      let later = round.asleep (record s { roles = r.0 }) in
      let here =
        replied-LockOutcome round s r (waits node c rounds later)
          (acquire_or_renew_role_reply (comp_locker_role_id c) node (lock_dur c) round.attempts
            s.roles)
          (waits-LockOutcome rounds later) in
      if-cases (LockOutcome node c) (c.start_parallelism =s= start_parallelism_seriesfirst)
        (λ first.
          if-cases (LockOutcome node c) round.count_fails (λ e. tt)
            (λ e.
              if-cases (LockOutcome node c)
                (ltb 0 (get_component_deploy_count c.name c.version s.starts))
                (λ started. inr (
                  (name_iff c.start_parallelism start_parallelism_seriesfirst).0 first,
                  ground (arith, started),
                ))
                (λ e. here)))
        (λ e. here)

-- Whatever the other nodes do and whichever statements fail: if StartLockAcquire says that the lock
-- is acquired, the row of the component's role is this node's; if it says that none is needed, the
-- component's starts are parallel, or they are in series for the first alone and a start of this
-- version is counted.
pub start_lock_acquire_outcome :
    (node : String) (c : Component) (rounds : List Round) (s : Store)
    → LockOutcome node c (start_lock_acquire node c rounds s)
unfolding start_lock_acquire
start_lock_acquire_outcome node c rounds s =
    if-cases (LockOutcome node c) (c.start_parallelism =s= start_parallelism_parallel)
      (λ parallel. inl ((name_iff c.start_parallelism start_parallelism_parallel).0 parallel))
      (λ other.
        waits-LockOutcome node c
          (λ e. ground (arith, other, e, name_iff c.start_parallelism start_parallelism_parallel))
          rounds s)

needs_none :
    (node : String) (c : Component) (round : Round) (rounds : List Round) (s : Store)
    → c.start_parallelism ≡ start_parallelism_seriesfirst
    → round.count_fails ≡ false
    → 1 ≤ get_component_deploy_count c.name c.version s.starts
    → start_lock_acquire node c (round ∷ rounds) s ≡ (s, not_needed)
unfolding start_lock_acquire waits
needs_none node c round rounds s first counts started = ground (
  arith,
  counts,
  started,
  ap (λ p. p =s= start_parallelism_parallel) first,
  ap (λ p. p =s= start_parallelism_seriesfirst) first,
)

one_more :
    (now : ℤ) (c : Component) (starts : List StartRow)
    → get_component_deploy_count c.name c.version
        (increment_component_deploy_count now c.name c.version starts)
      ≡ get_component_deploy_count c.name c.version starts + 1
one_more now c starts = ground (
  arith,
  name_iff c.name c.name,
  increment_component_deploy_count_exact now c.name c.version starts c.name c.version,
)

-- After PostStartContainer of a start that succeeded, no statement of which failed, one start more of
-- the component's version is counted; a lock that it releases is not this node's any more; and
-- StartLockAcquire of any node for a component that is started first in series then needs no lock
-- and changes nothing, if its count does not fail.
pub post_start_container_frees :
    (now : ℤ) (release_lock : Bool) (node : String) (c : Component) (s : Store) (other : String)
    (round : Round) (rounds : List Round)
    → let after = (post_start_container now false false release_lock true node c s).0 in
      (get_component_deploy_count c.name c.version after.starts
        ≡ get_component_deploy_count c.name c.version s.starts + 1)
      × (release_lock ≡ true
          → (row : RoleRow) → lookup (comp_locker_role_id c) after.roles ≡ some row
          → row.node_id ≢ node)
      × (c.start_parallelism ≡ start_parallelism_seriesfirst
          → round.count_fails ≡ false
          → start_lock_acquire other c (round ∷ rounds) after ≡ (after, not_needed))
unfolding post_start_container
post_start_container_frees now true node c s other round rounds =
    let counted = one_more now c s.starts in
    (
      counted,
      λ released row e. release_role-released (comp_locker_role_id c) node s.roles row e,
      λ first counts. needs_none other c round rounds _ first counts (omega (arith, counted)),
    )
post_start_container_frees now false node c s other round rounds =
    let counted = one_more now c s.starts in
    (
      counted,
      λ released. absurd (ground (arith, released)),
      λ first counts. needs_none other c round rounds _ first counts (omega (arith, counted)),
    )
