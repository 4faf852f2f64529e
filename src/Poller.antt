-- ===== src/Poller.antt =====
-- How the concurrency of an event source is divided into poller roles, pkg/evsource/poller/evpoller.go.
pub mod Reload
mod Division
mod Examples
use maelstrom.Prelude.{
  ℕ, zero, suc, ◌+◌, ◌-◌, ◌*◌, ◌/◌, ◌≡◌, String, Bool, true, false, List, [], ◌∷◌, ltb,
  if◌then◌else◌,
}
use maelstrom.Prelude.Int.{ℤ, pos, leb_ℤ, ltb_ℤ}

-- The role's id is the text of the three.
pub record RoleIdConcurrency : Type 0 where
  pub role_id_prefix : String
  pub index : ℕ
  pub concurrency : ℕ

pub to_max_concurrency : ℤ → ℤ → ℤ
to_max_concurrency poller_max_concurrency active_handlers =
    let poller_max =
      if leb_ℤ poller_max_concurrency (pos 0) then pos 1 else poller_max_concurrency in
    let active = if leb_ℤ active_handlers (pos 0) then pos 1 else active_handlers in
    if ltb_ℤ poller_max active then poller_max else active

-- The loop: `n` rounds are left, of which the next is `i`.
pub divide : String → ℕ → ℕ → ℕ → ℕ → List RoleIdConcurrency
divide prefix per_poller zero i concur_remain = []
divide prefix per_poller (suc n) i concur_remain =
    let c = if ltb concur_remain per_poller then concur_remain else per_poller in
    let rest = divide prefix per_poller n (suc i) (concur_remain - c) in
    if ltb 0 c then record { role_id_prefix = prefix; index = i; concurrency = c } ∷ rest else rest

-- A quotient that is rounded up, of numbers that a float64 holds exactly.
pub poller_count : ℕ → ℕ → ℕ
poller_count max_concurrency per_poller = (max_concurrency + (per_poller - 1)) / per_poller

pub to_role_id_concurrency : String → ℕ → ℕ → List RoleIdConcurrency
unfolding divide poller_count
to_role_id_concurrency prefix per_poller max_concurrency =
    let num = poller_count max_concurrency per_poller in
    let concur_remain =
      if ltb max_concurrency (per_poller * num) then max_concurrency else per_poller * num in
    divide prefix per_poller num 0 concur_remain
