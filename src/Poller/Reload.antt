-- ===== src/Poller/Reload.antt =====
-- Which pollers a node runs, reload and startPollerGroup of pkg/evsource/poller/evpoller.go. A poll creator is
-- made by the packages of the AWS services.
pub mod Active
mod Examples
use Prim.Native.String.{◌++◌ as ◌<>◌}
use maelstrom.Prelude.{
  ℕ, String, Bool, true, false, Option, none, some, List, [], ◌∷◌, ◌++◌, map, Keyed, lookup, insert,
  delete, ◌=s=◌, if◌then◌else◌,
}
use maelstrom.Prelude.Int.{ℤ, pos_part}
use maelstrom.V1.{EventSource}
use maelstrom.Project.{EventSourceWithStatus}
use maelstrom.MaelService.Names.{decimal}
use maelstrom.Poller.{RoleIdConcurrency, to_max_concurrency, to_role_id_concurrency}

pub record PollCreator : Type 0 where
  pub component_name : String
  pub role_id_prefix : String
  pub max_concurrency : ℤ
  pub max_concurrency_per_poller : ℕ

-- What a reload meets: the creator for an event source, if its kind has pollers and it can be made; the
-- handlers of a component's router; and whether AcquireOrRenewRole says that the role is this node's.
pub record World : Type 0 where
  pub create : EventSource → Option PollCreator
  pub handler_count : String → ℤ
  pub acquire : String → Bool

pub role_id : RoleIdConcurrency → String
role_id rc = rc.role_id_prefix <> "-" <> decimal rc.index <> "-" <> decimal rc.concurrency

-- `activeRoles` with, for each role, whether its context was cancelled.
abbrev pub ActiveRoles : Type 0
ActiveRoles = Keyed Bool

cancel : String → ActiveRoles → ActiveRoles
cancel id active = elim (lookup id active) [ none ↦ active | some c ↦ insert id true active ]

-- One turn of the loop over the roles of a group.
start_role : Bool → String → ActiveRoles → ActiveRoles
unfolding cancel
start_role true id active = elim (lookup id active) [
  | none ↦ insert id false active
  | some c ↦ active
]
start_role false id active = cancel id active

start_roles : (String → Bool) → List String → ActiveRoles → ActiveRoles
unfolding start_role
start_roles acquire [] active = active
start_roles acquire (id ∷ ids) active = start_roles acquire ids (start_role (acquire id) id active)

pub group_roles : World → PollCreator → List String
unfolding role_id
group_roles w creator =
    let max_concurrency =
      to_max_concurrency creator.max_concurrency (w.handler_count creator.component_name) in
    map role_id (
      to_role_id_concurrency creator.role_id_prefix creator.max_concurrency_per_poller
        (pos_part max_concurrency))

-- The active roles, and the valid ones of `validRoleIds`.
start_poller_group : World → PollCreator → ActiveRoles × List String → ActiveRoles × List String
unfolding start_roles group_roles
start_poller_group w creator (active, valid) =
    (start_roles w.acquire (group_roles w creator) active, valid ++ group_roles w creator)

start_pollers :
    World → List EventSourceWithStatus → ActiveRoles × List String → ActiveRoles × List String
unfolding start_poller_group
start_pollers w [] p = p
start_pollers w (ess ∷ sources) p = start_pollers w sources (
    if ess.enabled
    then elim (w.create ess.event_source) [
      | none ↦ p
      | some creator ↦ start_poller_group w creator p
    ]
    else p)

start_pages :
    World
    → List (List EventSourceWithStatus)
    → ActiveRoles × List String
    → ActiveRoles × List String
unfolding start_pollers
start_pages w [] p = p
start_pages w (page ∷ pages) p = start_pages w pages (start_pollers w page p)

pub is_in : String → List String → Bool
is_in id [] = false
is_in id (other ∷ ids) = let rest = is_in id ids in if other =s= id then true else rest

cancel_invalid : List String → ActiveRoles → ActiveRoles
unfolding is_in
cancel_invalid valid [] = []
cancel_invalid valid ((id, c) ∷ active) =
    let rest = cancel_invalid valid active in (id, if is_in id valid then c else true) ∷ rest

-- `pages` are the pages of ListEventSources up to the last one or to an error, which `fails` tells.
pub reload : World → List (List EventSourceWithStatus) → Bool → ActiveRoles → ActiveRoles
unfolding start_pages cancel_invalid
reload w pages fails active =
    let (started, valid) = start_pages w pages (active, []) in
    if fails then started else cancel_invalid valid started

-- The end of a poller: deleteActiveRole.
pub poller_ends : String → ActiveRoles → ActiveRoles
poller_ends id active = delete id active
