-- ===== src/Router.antt =====
-- The state of a component's router, pkg/router/router.go: the operations that hold its lock.
pub mod System
pub mod Remote
mod Examples
use maelstrom.Prelude.{
  ℕ, suc, ◌≡◌, String, Bool, true, false, ◌&&◌, ◌||◌, not, Option, none, some, List, ◌∷◌, [],
  if◌then◌else◌,
}
use maelstrom.Prelude.Int.{ℤ, pos, ◌+ℤ◌, ◌-ℤ◌, ltb_ℤ, leb_ℤ, ◌==ℤ◌}

pub data State : Type 0 where
  off pending on : State

abbrev pub is_off : State → Bool
is_off off = true
is_off pending = false
is_off on = false

abbrev pub is_pending : State → Bool
is_pending off = false
is_pending pending = true
is_pending on = false

abbrev pub is_on : State → Bool
is_on off = false
is_on pending = false
is_on on = true

-- The fields behind `lock`. A channel is the number of the `make` call that gave it, counted by
-- `made`. `retries` holds the retry intervals, in seconds, of the pending loops started so far,
-- the newest first.
pub record Router : Type 0 where
  pub component_name : String
  pub state : State
  pub remote_req_ch : Option ℕ
  pub local_req_ch : Option ℕ
  pub made : ℕ
  pub inflight_reqs : ℤ
  pub active_handlers : ℤ
  pub retries : List ℤ

pub new_router : String → Router
new_router name = record {
  component_name = name;
  state = off;
  remote_req_ch = none;
  local_req_ch = none;
  made = 0;
  inflight_reqs = pos 0;
  active_handlers = pos 0;
  retries = [];
}

ensure_remote : Option ℕ → Router → Router
ensure_remote (some c) r = r
ensure_remote none r = record r { remote_req_ch = some r.made; made = suc r.made }

ensure_local : Option ℕ → Router → Router
ensure_local (some c) r = r
ensure_local none r = record r { local_req_ch = some r.made; made = suc r.made }

ensure_req_chan : Router → Router
unfolding ensure_remote ensure_local
ensure_req_chan r = let s = ensure_remote r.remote_req_ch r in ensure_local s.local_req_ch s

set_pending_state : ℤ → Router → Router
set_pending_state retry_seconds r =
    if not (is_pending r.state)
    then record r {
      state = pending;
      retries = (if leb_ℤ retry_seconds (pos 0) then pos 30 else retry_seconds) ∷ r.retries;
    }
    else r

pub handler_start : Bool → Router → Router × Option ℕ
unfolding ensure_req_chan
handler_start remote r =
    let started = record r { active_handlers = r.active_handlers +ℤ pos 1; state = on } in
    let s = ensure_req_chan started in (s, if remote then s.remote_req_ch else s.local_req_ch)

-- `none` is the panic.
pub handler_stop : Router → Option Router
unfolding set_pending_state
handler_stop r =
    if leb_ℤ r.active_handlers (pos 0)
    then none
    else (let s = record r { active_handlers = r.active_handlers -ℤ pos 1 } in
        some (
          if s.active_handlers ==ℤ pos 0
          then (if ltb_ℤ (pos 0) s.inflight_reqs
              then set_pending_state (pos 0) s
              else record s { state = off })
          else s))

abbrev pub is_some {ℓ} : {A : Type ℓ} → Option A → Bool
is_some none = false
is_some (some a) = true

-- The channels that are closed come with the result.
pub destroy_if_idle : Router → Router × Bool
destroy_if_idle r =
    if not (is_off r.state) || not (r.inflight_reqs ==ℤ pos 0) then (r, false) else (
      if is_some r.remote_req_ch then record r { remote_req_ch = none; local_req_ch = none } else r,
      true,
    )

-- The argument is the component's HttpStartHealthCheckSeconds.
pub route_start : ℤ → Router → Router
unfolding ensure_req_chan set_pending_state
route_start health_check_seconds r =
    let s = ensure_req_chan (record r { inflight_reqs = r.inflight_reqs +ℤ pos 1 }) in
    if is_off s.state then set_pending_state health_check_seconds s else s

pub route_done : Router → Router
route_done r =
    let s = record r { inflight_reqs = r.inflight_reqs -ℤ pos 1 } in
    if s.inflight_reqs ==ℤ pos 0 && s.active_handlers ==ℤ pos 0 then record s { state = off } else s
