-- ===== src/Router/System.antt =====
-- A router under the calls of its clients, pkg/router/router.go: requests inside `Route`, handlers
-- between their start and their stop, and an owner that tries to destroy it, in any interleaving.
use maelstrom.Prelude.{
  Option-cases, ℕ, suc, ◌≡◌, ◌≢◌, ◌<◌, ◌⊎◌, inl, inr, String, Bool, none, some, arith, ltb, ◌==◌,
  ◌&&◌, true, false, ◌+◌,
}
use maelstrom.Prelude.Int.{ℤ, pos, ◌+ℤ◌, ◌-ℤ◌}
use maelstrom.Router.{
  Router, is_off, is_on, is_pending, is_some, new_router, handler_start, handler_stop, route_start,
  route_done, destroy_if_idle,
}

-- `requests` calls of `Route` are past `routeStart` and not yet past `routeDone`, and `handlers`
-- handlers are past `handlerStart` and not yet past `HandlerStop`.
pub record System : Type 0 where
  pub router : Router
  pub requests : ℕ
  pub handlers : ℕ

-- One lock-protected operation. A handler stops once, and so does a request.
pub data Step (s : System) : System → Type 0 where
  begin_request :
      (secs : ℤ)
      → Step s (record {
        router = route_start secs s.router;
        requests = suc s.requests;
        handlers = s.handlers;
      })
  end_request :
      {n : ℕ}
      → s.requests ≡ suc n
      → Step s (record { router = route_done s.router; requests = n; handlers = s.handlers })
  begin_handler :
      (remote : Bool)
      → Step s (record {
        router = (handler_start remote s.router).0;
        requests = s.requests;
        handlers = suc s.handlers;
      })
  end_handler :
      {n : ℕ} {r : Router}
      → s.handlers ≡ suc n
      → handler_stop s.router ≡ some r
      → Step s (record { router = r; requests = s.requests; handlers = n })
  destroy : Step s (record {
    router = (destroy_if_idle s.router).0;
    requests = s.requests;
    handlers = s.handlers;
  })

pub data Reach (name : String) : System → Type 0 where
  start : Reach name (record { router = new_router name; requests = 0; handlers = 0 })
  later : {s t : System} → Reach name s → Step s t → Reach name t

-- The state is a function of the two counters, and whoever is inside has open channels.
pub record Inv (s : System) : Type 0 where
  pub inflight : s.router.inflight_reqs ≡ pos s.requests
  pub active : s.router.active_handlers ≡ pos s.handlers
  pub on_busy : is_on s.router.state ≡ ltb 0 s.handlers
  pub pending_waiting : is_pending s.router.state ≡ (s.handlers == 0 && ltb 0 s.requests)
  pub together : is_some s.router.remote_req_ch ≡ is_some s.router.local_req_ch
  pub open_requests :
      0 < s.requests → (s.router.remote_req_ch ≢ none) × (s.router.local_req_ch ≢ none)
  pub open_handlers :
      0 < s.handlers → (s.router.remote_req_ch ≢ none) × (s.router.local_req_ch ≢ none)

start-Inv : (name : String) → Inv (record { router = new_router name; requests = 0; handlers = 0 })
unfolding new_router
start-Inv name = ground arith

begin_request-Inv :
    (s : System) (secs : ℤ)
    → Inv s
    → Inv (record {
      router = route_start secs s.router;
      requests = suc s.requests;
      handlers = s.handlers;
    })
unfolding route_start ◌+ℤ◌
begin_request-Inv s secs v = ground arith

end_request-Inv :
    (s : System) (n : ℕ)
    → s.requests ≡ suc n
    → Inv s
    → Inv (record { router = route_done s.router; requests = n; handlers = s.handlers })
unfolding route_done ◌-ℤ◌
end_request-Inv s n e v = ground arith

begin_handler-Inv :
    (s : System) (remote : Bool)
    → Inv s
    → Inv (record {
      router = (handler_start remote s.router).0;
      requests = s.requests;
      handlers = suc s.handlers;
    })
unfolding handler_start ◌+ℤ◌
begin_handler-Inv s remote v = ground arith

end_handler-Inv :
    (s : System) (n : ℕ) (r : Router)
    → s.handlers ≡ suc n
    → handler_stop s.router ≡ some r
    → Inv s
    → Inv (record { router = r; requests = s.requests; handlers = n })
unfolding handler_stop ◌-ℤ◌
end_handler-Inv s n r e stopped v = ground arith

destroy-Inv :
    (s : System)
    → Inv s
    → Inv (record {
      router = (destroy_if_idle s.router).0;
      requests = s.requests;
      handlers = s.handlers;
    })
unfolding destroy_if_idle
destroy-Inv s v = ground arith

stop_of_Inv :
    (s : System) (n : ℕ)
    → s.handlers ≡ suc n
    → Inv s
    → (r : Router) × (handler_stop s.router ≡ some r)
      × (is_on r.state ≡ ltb 0 n)
      × (is_off r.state ≡ (n == 0 && s.requests == 0))
unfolding handler_stop ◌-ℤ◌
stop_of_Inv s n e v = elim (Option-cases (handler_stop s.router)) [
  | inl panic ↦ absurd (ground arith)
  | inr (r, stopped) ↦ (r, stopped, ground arith, ground arith)
]

destroy_of_Inv :
    (s : System)
    → Inv s
    → let (r, done) = destroy_if_idle s.router in
      ((done ≡ true)
        × (s.requests ≡ 0)
        × (s.handlers ≡ 0)
        × (r.remote_req_ch ≡ none)
        × (r.local_req_ch ≡ none))
      ⊎ ((done ≡ false) × (0 < s.requests + s.handlers) × (r ≡ s.router))
unfolding destroy_if_idle
destroy_of_Inv s v = ground arith

Step-Inv : {s t : System} → Step s t → Inv s → Inv t
Step-Inv {s} (begin_request secs) v = begin_request-Inv s secs v
Step-Inv {s} (end_request {n} e) v = end_request-Inv s n e v
Step-Inv {s} (begin_handler remote) v = begin_handler-Inv s remote v
Step-Inv {s} (end_handler {n} {r} e stopped) v = end_handler-Inv s n r e stopped v
Step-Inv {s} destroy v = destroy-Inv s v

-- In every reachable system the router's counters are the numbers of requests and of handlers
-- inside it; the state is `on` exactly when a handler is active, and `pending` exactly when there
-- is none but a request waits; and while anyone is inside, both channels are open.
pub Reach-Inv : {name : String} {s : System} → Reach name s → Inv s
Reach-Inv {name} start = start-Inv name
Reach-Inv (later r st) = Step-Inv st (Reach-Inv r)

-- A handler that is active in a reachable system can stop: `HandlerStop` does not panic, and it
-- leaves the router off, pending or on as what is left inside demands.
pub handler_stop_total :
    {name : String} {s : System} {n : ℕ}
    → Reach name s
    → s.handlers ≡ suc n
    → (r : Router) × (handler_stop s.router ≡ some r)
      × (is_on r.state ≡ ltb 0 n)
      × (is_off r.state ≡ (n == 0 && s.requests == 0))
handler_stop_total {s = s} {n = n} reach e = stop_of_Inv s n e (Reach-Inv reach)

-- In a reachable system `DestroyIfIdle` succeeds exactly when no request and no handler is inside,
-- and then no channel stays open; otherwise it changes nothing.
pub destroy_if_idle_iff :
    {name : String} {s : System}
    → Reach name s
    → let (r, done) = destroy_if_idle s.router in
      ((done ≡ true)
        × (s.requests ≡ 0)
        × (s.handlers ≡ 0)
        × (r.remote_req_ch ≡ none)
        × (r.local_req_ch ≡ none))
      ⊎ ((done ≡ false) × (0 < s.requests + s.handlers) × (r ≡ s.router))
destroy_if_idle_iff {s = s} reach = destroy_of_Inv s (Reach-Inv reach)
