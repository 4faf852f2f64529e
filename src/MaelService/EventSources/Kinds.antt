-- ===== src/MaelService/EventSources/Kinds.antt =====
-- PutEventSource does not reach the panic of an event source without a kind, pkg/maelstrom/mael_svc.go.
use Prim.Native.String.{◌++◌ as ◌<>◌}
use maelstrom.Prelude.{
  ◌≡◌, ◌≢◌, inl, inr, refl, String, Bool, true, ◌&&◌, Option, none, some, Option-cases, Bool-cases,
  arith,
}
use maelstrom.Prelude.Int.{ℤ}
use maelstrom.V1.{EventSource, get_event_source_type}
use maelstrom.Db.Rows.{DbResult, DbError, ok, err, put_event_source}
use maelstrom.Db.Rows.EventSources.{put_event_source-none}
use maelstrom.MaelService.{
  Service, Rpc, replied, panicked, and_then, rpc_then, db_put_event_source, db_get_component,
  next_call, transform_put_error, on_error,
}
use maelstrom.MaelService.Names.{event_source_name_valid, component_name_valid}
use maelstrom.MaelService.Names.Valid.{name_valid_no_panic}
use maelstrom.MaelService.Answers.{Rpc-cases}
use maelstrom.MaelService.EventSources.{
  is_nil, refused_if, http_fault, cron_fault, validate_event_source, lowered, component_project,
  stored_event_source, serve_put_event_source,
}

db_put_event_source-none :
    (e : EventSource) (s : Service)
    → (db_put_event_source e s).1 ≡ none
    → get_event_source_type e ≡ none
unfolding db_put_event_source
db_put_event_source-none e s h =
    let call = (next_call s.calls).0 in
    elim (Option-cases (put_event_source call.faults call.now e s.event_sources)) [
      | inl x ↦ put_event_source-none call.faults call.now e s.event_sources x
      | inr (r, x) ↦ absurd (ground (arith, x, h))
    ]

stored_event_source-panics :
    (manages : Bool) (name : String) (e : EventSource) (r : Service × Option (DbResult ℤ))
    → (stored_event_source manages name e r).1 ≡ panicked
    → r.1 ≡ none
unfolding stored_event_source transform_put_error on_error
stored_event_source-panics manages name e (s, none) h = refl
stored_event_source-panics manages name e (s, some (ok v)) h = ground (arith, h)
stored_event_source-panics manages name e (s, some (err DbError.already_exists)) h =
    ground (arith, h)
stored_event_source-panics manages name e (s, some (err DbError.incorrect_previous_version)) h =
    ground (arith, h)
stored_event_source-panics manages name e (s, some (err DbError.not_found)) h = ground (arith, h)
stored_event_source-panics manages name e (s, some (err DbError.failure)) h = ground (arith, h)

no_kind :
    (e : EventSource)
    → get_event_source_type e ≡ none
    → (is_nil e.http && is_nil e.cron && is_nil e.sqs && is_nil e.awsstepfunc) ≡ true
unfolding is_nil
no_kind e kind = elim (Option-cases e.http) [
  | inr (h, a) ↦ absurd (ground (arith, a, kind))
  | inl a ↦ elim (Option-cases e.cron) [
    | inr (c, b) ↦ absurd (ground (arith, a, b, kind))
    | inl b ↦ elim (Option-cases e.sqs) [
      | inr (q, c) ↦ absurd (ground (arith, a, b, c, kind))
      | inl c ↦ elim (Option-cases e.awsstepfunc) [
        | inr (f, d) ↦ absurd (ground (arith, a, b, c, d, kind))
        | inl d ↦ ground (arith, a, b, c, d)
      ]
    ]
  ]
]

module _ (err_prefix : String) (e : EventSource) where
  abbrev by_own_name : Rpc String
  by_own_name = event_source_name_valid (err_prefix <> ".name") e.name

  abbrev by_component_name : Rpc String
  by_component_name = component_name_valid (err_prefix <> ".componentName") e.component_name

  -- An event source that is found valid has a kind.
  valid_kind :
      (name : String)
      → validate_event_source err_prefix e ≡ replied name
      → get_event_source_type e ≢ none
  unfolding validate_event_source rpc_then
  valid_kind name valid kind = elim (Rpc-cases by_own_name) [
    | inr (inl (code, m, x)) ↦ ground (arith, x, valid)
    | inr (inr x) ↦ ground (arith, x, valid)
    | inl (n, x) ↦ elim (Rpc-cases by_component_name) [
      | inr (inl (code, m, y)) ↦ ground (arith, x, y, valid)
      | inr (inr y) ↦ ground (arith, x, y, valid)
      | inl (m, y) ↦ ground (arith, x, y, no_kind e kind, valid)
    ]
  ]

  refused_if_no_panic :
      (fault : Option String) (r : Rpc String) → r ≢ panicked → refused_if fault r ≢ panicked
  unfolding refused_if
  refused_if_no_panic none r h x = h x
  refused_if_no_panic (some message) r h x = ground (arith, x)

  check_no_panic : validate_event_source err_prefix e ≢ panicked
  unfolding validate_event_source rpc_then event_source_name_valid component_name_valid
  check_no_panic h = elim (Rpc-cases by_own_name) [
    | inr (inl (code, m, x)) ↦ ground (arith, x, h)
    | inr (inr x) ↦ name_valid_no_panic (err_prefix <> ".name") e.name 60 x
    | inl (n, x) ↦ elim (Rpc-cases by_component_name) [
      | inr (inl (code, m, y)) ↦ ground (arith, x, y, h)
      | inr (inr y) ↦ name_valid_no_panic (err_prefix <> ".componentName") e.component_name 60 y
      | inl (m, y) ↦
          elim (Bool-cases
            (is_nil e.http && is_nil e.cron && is_nil e.sqs && is_nil e.awsstepfunc)) [
              | inl z ↦ ground (arith, x, y, z, h)
              | inr z ↦
                  let rest = refused_if (cron_fault err_prefix e.cron) (replied n) in
                  refused_if_no_panic (http_fault err_prefix e.http) rest
                    (refused_if_no_panic (cron_fault err_prefix e.cron) (replied n)
                      (λ p. ground (arith, p)))
                    (ground (arith, x, y, z, h))
            ]
    ]
  ]

-- Whatever the event source is and whichever calls of the database fail, PutEventSource does not reach the panic of an
-- event source without a kind.
pub serve_put_event_source_no_panic :
    (manages : Bool) (input : EventSource) (s : Service)
    → (serve_put_event_source manages input s).1 ≢ panicked
unfolding serve_put_event_source and_then
serve_put_event_source_no_panic manages input s h =
    let e = lowered input in
    elim (Rpc-cases (validate_event_source "input.eventSource" e)) [
      | inr (inl (code, m, x)) ↦ ground (arith, x, h)
      | inr (inr x) ↦ check_no_panic "input.eventSource" e x
      | inl (name, x) ↦
          let u = db_get_component e.component_name s in
          elim (Option-cases (component_project u.1)) [
            | inl y ↦ ground (arith, x, y, h)
            | inr (project, y) ↦
                let named : EventSource = record e { name = name; project_name = project } in
                let put = db_put_event_source named u.0 in
                let at : (stored_event_source manages name named put).1 ≡ panicked =
                  ground (arith, x, y, h) in
                valid_kind "input.eventSource" e name x (
                  db_put_event_source-none named u.0
                    (stored_event_source-panics manages name named put at))
          ]
    ]
