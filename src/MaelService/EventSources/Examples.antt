-- ===== src/MaelService/EventSources/Examples.antt =====
-- An event source without a kind, and one that is stored.
use maelstrom.Prelude.{◌≢◌, [], none, true}
use maelstrom.MaelService.{Service, panicked}
use maelstrom.MaelService.EventSources.{serve_put_event_source}
use maelstrom.MaelService.EventSources.Kinds.{serve_put_event_source_no_panic}
use maelstrom.Samples.{source_at}

abbrev empty_tables : Service
empty_tables = record { components = []; event_sources = []; calls = []; notices = []; hosts = [] }

serve_put_event_source_no_panic_example :
    (serve_put_event_source true (record (source_at "front" "/") { http = none }) empty_tables).1
    ≢ panicked
serve_put_event_source_no_panic_example =
    serve_put_event_source_no_panic true (record (source_at "front" "/") { http = none })
      empty_tables
