-- ===== src/Router/Examples.antt =====
-- Runs of a router, and its theorems at them.
use Prim.Native.Nat.{min}
use maelstrom.Prelude.{
  ◌+◌, ℕ, ◌≡◌, refl, true, some, none, [], ◌∷◌, length, Keyed, insert, delete, lookup,
  if◌then◌else◌,
}
use maelstrom.Prelude.Int.{pos, ◌+ℤ◌}
use maelstrom.Router.{new_router, handler_start, route_start, pending}
use maelstrom.Router.System.{
  System, Reach, begin_request, begin_handler, start, later, Inv, Reach-Inv,
}
use maelstrom.Router.Remote.{Remotes, handlers_of, set_remote_handler_counts}
use maelstrom.Router.Remote.Counts.{set_remote_handler_counts_exact}
use maelstrom.Router.Remote.Balance.{accounted, started, set_remote_handler_counts_balance}

-- A first request makes an idle router ask for its component, every 30 seconds by default.
first_request :
    let r = route_start (pos 0) (new_router "foo") in
    (r.state ≡ pending) × (r.retries ≡ pos 30 ∷ [])
unfolding route_start new_router ◌+ℤ◌
first_request = (refl, refl)

abbrev waiting : System
waiting = record { router = route_start (pos 5) (new_router "foo"); requests = 1; handlers = 0 }

waiting_reached : Reach "foo" waiting
waiting_reached = later start (begin_request (pos 5))

abbrev served : System
served = record { router = (handler_start true waiting.router).0; requests = 1; handlers = 1 }

served_reached : Reach "foo" served
served_reached = later waiting_reached (begin_handler true)

Reach-Inv_example : Inv served
Reach-Inv_example = Reach-Inv served_reached

-- Peer "a" had two handlers and peer "b" one.
abbrev two_peers : Remotes
two_peers = record { by_url = ("a", 1 ∷ 2 ∷ []) ∷ ("b", 3 ∷ []) ∷ []; next_id = 4; cancelled = [] }

-- One handler fewer for "a", none for "b", and two for a new peer.
abbrev new_counts : Keyed ℕ
new_counts = ("a", 1) ∷ ("c", 2) ∷ []

after_counts : set_remote_handler_counts (λ _. true) new_counts two_peers ≡ record {
  by_url = ("a", 2 ∷ []) ∷ ("c", 4 ∷ 5 ∷ []) ∷ [];
  next_id = 6;
  cancelled = 3 ∷ 1 ∷ [];
}
unfolding set_remote_handler_counts lookup insert delete
after_counts = refl

set_remote_handler_counts_exact_example :
    let s = set_remote_handler_counts (λ _. true) new_counts two_peers in
    ((target : ℕ)
      → lookup "c" new_counts ≡ some target
      → length (handlers_of "c" s)
        ≡ (if true then target else min target (length (handlers_of "c" two_peers))))
    × (lookup "c" new_counts ≡ none → lookup "c" s.by_url ≡ none)
unfolding lookup
set_remote_handler_counts_exact_example =
    set_remote_handler_counts_exact (λ _. true) new_counts two_peers "c" (refl, (refl, tt))

set_remote_handler_counts_balance_example :
    let s = set_remote_handler_counts (λ _. true) new_counts two_peers in
    accounted 3 s ≡ accounted 3 two_peers + started 3 two_peers s
unfolding lookup
set_remote_handler_counts_balance_example =
    set_remote_handler_counts_balance (λ _. true) new_counts two_peers 3 (refl, (refl, tt))
