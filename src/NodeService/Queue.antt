-- ===== src/NodeService/Queue.antt =====
-- Calls of PlaceComponent for one component that meet on the placement node, pkg/maelstrom/node_svc.go: the
-- first one places, and the others wait for its result. The lock makes each operation one step.
pub mod Served
mod Examples
use maelstrom.Prelude.{
  ℕ, ◌≡◌, ◌≢◌, String, Option, none, some, List, [], ◌∷◌, ◌++◌, map, Keyed, lookup, insert, delete,
}

-- Callers have numbers. `leaders` are the callers that place, by component, `waiters` the map of the same
-- name, and `answers` the results that callers got.
pub record Queue (A : Type 0) : Type 0 where
  pub leaders : Keyed ℕ
  pub waiters : Keyed (List ℕ)
  pub answers : List (ℕ × A)

module _ {A : Type 0} where
  pub empty_queue : Queue A
  empty_queue = record { leaders = []; waiters = []; answers = [] }

  -- A caller that has the role looks whether a placement is in progress.
  pub arrive : String → ℕ → Queue A → Queue A
  arrive name caller q = elim (lookup name q.waiters) [
    | none ↦ record q { leaders = insert name caller q.leaders; waiters = insert name [] q.waiters }
    | some ws ↦ record q { waiters = insert name (ws ++ (caller ∷ [])) q.waiters }
  ]

  -- What `waiters[name]` gives.
  abbrev pub waiting : String → Queue A → List ℕ
  waiting name q = elim (lookup name q.waiters) [ none ↦ [] | some ws ↦ ws ]

  -- The placement of the leader ends: all get its result. Each has a channel with room for it, so one that has given up
  -- after three minutes holds up no other. A panic of the leader, after which nobody would be answered, is left out.
  pub finish : String → A → Queue A → Queue A
  finish name result q = elim (lookup name q.leaders) [
    | none ↦ q
    | some leader ↦ record {
      leaders = delete name q.leaders;
      waiters = delete name q.waiters;
      answers = (leader, result) ∷ map (λ caller. (caller, result)) (waiting name q) ++ q.answers;
    }
  ]

  -- The queues that calls lead to, and who called for what.
  pub data Reach : List (ℕ × String) → Queue A → Type 0 where
    start : Reach [] empty_queue
    arrival :
        {arrived : List (ℕ × String)} {q : Queue A} (name : String) (caller : ℕ)
        → Reach arrived q
        → Reach ((caller, name) ∷ arrived) (arrive name caller q)
    completion :
        {arrived : List (ℕ × String)} {q : Queue A} (name : String) (result : A)
        → Reach arrived q
        → Reach arrived (finish name result q)
