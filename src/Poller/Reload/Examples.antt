-- ===== src/Poller/Reload/Examples.antt =====
-- A node with a poller of a queue and one of an event source that is gone.
use maelstrom.MaelService.Names.{decimal}
use maelstrom.Poller.{to_role_id_concurrency, to_max_concurrency}
use maelstrom.Prelude.{◌≡◌, true, false, some, none, List, [], ◌∷◌, ◌=s=◌, if◌then◌else◌, lookup}
use maelstrom.Prelude.Int.{pos}
use maelstrom.V1.{EventSource}
use maelstrom.Project.{EventSourceWithStatus}
use maelstrom.Poller.Reload.{PollCreator, World, ActiveRoles, reload, is_in, group_roles}
use maelstrom.Poller.Reload.Active.{reload-reloaded}
use maelstrom.Samples.{source_at}

abbrev queue : PollCreator
queue = record {
  component_name = "web";
  role_id_prefix = "queue";
  max_concurrency = pos 4;
  max_concurrency_per_poller = 4;
}

abbrev world : World
world = record {
  create = λ e. if EventSource.name e =s= "queue" then some queue else none;
  handler_count = λ name. pos 6;
  acquire = λ id. true;
}

abbrev pages : List (List EventSourceWithStatus)
pages = ((record { event_source = source_at "queue" "/"; enabled = true }) ∷ []) ∷ []

abbrev before : ActiveRoles
before = ("gone-0-1", false) ∷ []

reload-reloaded_example : lookup "queue-0-4" (reload world pages false before) ≡ some false
unfolding is_in group_roles to_role_id_concurrency to_max_concurrency decimal lookup
reload-reloaded_example = reload-reloaded world pages before "queue-0-4"
