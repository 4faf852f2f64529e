-- ===== src/Lib.antt =====
-- Maelstrom, a reverse proxy and container orchestrator: a model of the parts of its Go code that
-- decide, with the theorems that make them correct.
--
-- A cluster is a set of nodes that share a database, which the maelstrom service changes and
-- whose changes it tells the others. On each node a converger (pkg/converge) keeps the containers
-- of one component at a target count and version; a router (pkg/router) takes the requests for a
-- component and hands them to local or remote handlers.
--
-- The files and the code that they model:
--
-- - Prelude and its children: shared names, Boolean tests, lists, Go maps as association lists
--   (Keys), Go's int and int64 as integers without overflow (Int).
-- - V1: pkg/v1/v1.go, the data that the parts exchange.
-- - Router: pkg/router/router.go, one definition for each operation under the router's lock.
--   Router.System interleaves requests, handlers and destroys; Router.Remote is
--   SetRemoteHandlerCounts, with Counts and Balance about it.
-- - Db: pkg/db/sql_db.go. Db.Roles is AcquireOrRenewRole and the releases, with Acquire about its
--   answers and Leases about nodes that interleave their statements; Db.Rows is components, event
--   sources, node states and start counts; Db.Pages is selectPaginated and the loop over the
--   pages of loadActiveComponents (pkg/maelstrom/scale.go); Db.Lists is ListComponents and
--   ListEventSources, with Whole about lists of one page.
-- - Placement: pkg/maelstrom/placement.go and the orders of pkg/maelstrom/sort.go that it uses.
--   Placement.Best is BestStartComponentOption and BestStopComponentOption; Counts, Memory,
--   Growth, Best.Sorting and Best.Outcome hold what is proved.
-- - CompLock: pkg/converge/complock.go, over Db.Roles and Db.Rows; what its answers mean is in
--   CompLock.Answers.
-- - Scale: pkg/maelstrom/scale.go. Scale.Target is calcScaleTarget, Scale itself the computation
--   of starts and stops, Scale.Active is loadActiveComponents, Scale.Moves what is proved of
--   merging options.
-- - Dispenser: pkg/revproxy/dispenser.go, the loop of Run and the requests as a step relation,
--   with Limits about it.
-- - Poller: pkg/evsource/poller/evpoller.go, the division of concurrency into roles, with
--   Division about it; Poller.Reload is reload and startPollerGroup, with Active about it.
-- - Cluster: pkg/maelstrom/cluster.go, the map of nodes, with Known about it.
-- - Project: DiffProject of pkg/maelstrom/project.go, with Removes and Same about it.
-- - Converge: pkg/converge/converger.go. Converge.Plan is plan, Converge.Run is converge with its
--   steps and the Docker events. The children hold what is proved: Plan.Weave the order of the
--   steps, Plan.Outcome the scan, Run.Containers one step, Run.Success and Run.Target runs
--   without errors, Run.Failure a failed start.
-- - MaelService: pkg/maelstrom/mael_svc.go, the operations of the API over the rows of Db. Names
--   is nameValid with what it uses of package strings, Components, EventSources and Projects are
--   the operations of each, EventSources.Toggle is ToggleEventSources; Answers, Names.Valid,
--   Components.Outcome, EventSources.Kinds, Projects.DryRun, Projects.Looped and Projects.Removed
--   hold what is proved. An operation `Put...` is serve_put_... here, since put_... is the
--   database's.
-- - Registry: pkg/converge/registry.go, the map of convergers and the version, with Versions and
--   Targets about it.
-- - Lifecycle: pkg/converge/container.go, the run loop of a container, with Activity and Health
--   about its counters.
-- - NodeService: pkg/maelstrom/node_svc.go. Remotes is OnClusterUpdated, whose loops are in
--   Remotes.Loops, Status is resolveNodeStatus and what is done with the status, Refresh is
--   logStatusAndRefreshClusterNodeList, Targets is StartStopComponents, Place is
--   placeComponentInternal, with Place.Evidence on what shows that a component runs, Queue the
--   callers that meet in PlaceComponent, Role the loop for the placement role and the termination
--   messages, Autoscale is autoscale; the children hold what is proved.
-- - Resolver: pkg/maelstrom/resolver.go and httpEventSourcesForResolver of pkg/maelstrom/sort.go,
--   with Specific, Cached, Paged and Loaded about it.
-- - Pruner: pkg/maelstrom/pruner.go with GlobMatches of pkg/common/string.go; Globs says what its
--   rules name, Kept what is kept.
-- - Samples: data for the examples.
--
-- A function keeps its Go name in antt's spelling, a method takes the receiver's record and
-- returns the new one. Strings that are only compared are the native String. A Go map is a list
-- of entries, whose order is that in which range meets them; the theorems hold for every order.
-- Side effects that the code gets as functions (Hooks) may answer anything at any call. An
-- operation under a lock is one step, and so is an SQL statement, of which the model says which
-- rows it reads and writes; a stored JSON value is the value that it encodes.
--
-- sort.Sort is an insertion sort. Floating-point arithmetic is a parameter, and a load average
-- that is only compared is an integer. The theorems about bounds hold for every such parameter.
--
-- Bounds and fuel: the loop of plan runs on 2 * (starts + stops) + 2 rounds, which are enough
-- (plan-in_turn). StartLockAcquire waits without a bound: its rounds are a list, and the result
-- says waiting at the end of it. The loops over pages in the resolver and in ToggleEventSources
-- run on fuel; in the resolver more fuel than rows is enough
-- (all_enabled_http_event_sources_total). The tries and polls of a placement, which end at a
-- deadline in the code, are lists. The number of remote handlers that SetRemoteHandlerCounts is
-- asked for is a natural number; a negative count would make the code index an empty slice.
--
-- Not modelled: input and output (Docker, HTTP, AWS, SQL drivers), logging, timers, the generated
-- code of pkg/v1/v1.go but its types, and the parts that the components do not yet reach: the run
-- loop of the converger, the channels of Route, the start of a container, ListProjects and the
-- cron, SQS and step function event sources. A caller of PlaceComponent that gives up after three
-- minutes, a panic of the one that places, the wait of StartStopComponents for its containers,
-- and the case of letters beyond ASCII in the names of projects that are not checked.
mod Prelude
pub mod Samples
pub mod Pruner
pub mod V1
pub mod Converge
pub mod Db
pub mod Router
pub mod Placement
pub mod Scale
pub mod CompLock
pub mod Dispenser
pub mod Poller
pub mod Project
pub mod Cluster
pub mod MaelService
pub mod Lifecycle
pub mod Registry
pub mod NodeService
pub mod Resolver
