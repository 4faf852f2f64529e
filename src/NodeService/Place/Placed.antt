-- ===== src/NodeService/Place/Placed.antt =====
-- When PlaceComponent says that a component is placed, pkg/maelstrom/node_svc.go.
use maelstrom.Prelude.{
  ◌≡◌, refl, ap, ◌∙◌, ◌⊎◌, inl, inr, String, true, false, ◌&&◌, Option, none, some, List, [], ◌∷◌,
  ◌==◌, Option-cases, Bool-cases, subst, arith,
}
use maelstrom.Prelude.Int.{ℤ}
use maelstrom.V1.{Component, NodeStatus}
use maelstrom.Placement.{PlacementOption}
use maelstrom.Placement.Best.{best_start_component_option}
use maelstrom.Cluster.{Cluster, set_node}
use maelstrom.Db.Rows.{ok}
use maelstrom.MaelService.{replied}
use maelstrom.MaelService.Answers.{DbResult-cases}
use maelstrom.NodeService.Status.{get_nodes}
use maelstrom.NodeService.Place.{
  Round, StartReply, Outcome, placed, gave_up, try_again, crashed, confirm, large_nodes,
  nodes_with_component, new_placement_options_by_node_id, wait_until_component_running,
  confirm_started, after_start, start_best, place_component_try_once, tries, required_ram,
  place_component_internal, is_there,
}
use maelstrom.NodeService.Place.Evidence.{
  IsConfirmed, Appears, Runs, IsStarted, large_nodes-with_more, wait-Appears, confirm-IsConfirmed,
}

-- What `confirm_started` places.
abbrev Waited : Round → Option NodeStatus → NodeStatus → Type 0
Waited round status s =
    (comp : Component) × (round.component ≡ ok comp)
    × (status ≡ some s)
    × Appears comp.name round.polls s

confirm_started-Waited :
    (name : String) (round : Round) (status : Option NodeStatus) (c : Cluster) (s : NodeStatus)
    → (confirm_started name round status c).1 ≡ placed s
    → Waited round status s
unfolding confirm_started
confirm_started-Waited name round none c s e = elim (DbResult-cases round.component) [
  | inl (comp, x) ↦ ground (arith, x, e)
  | inr (d, x) ↦ ground (arith, x, e)
]
confirm_started-Waited name round (some t) c s e = elim (DbResult-cases round.component) [
  | inr (d, x) ↦ ground (arith, x, e)
  | inl (comp, x) ↦ elim (Bool-cases (wait_until_component_running comp.name round.polls t).1) [
    | inr late ↦ ground (arith, x, late, e)
    | inl up ↦
        let same : t ≡ s = ground (arith, x, up, e) in
        (
          comp,
          x,
          ap some same,
          subst (λ u. Appears comp.name round.polls u) same
              (wait-Appears comp.name round.polls t up),
        )
  ]
]

after_start-Runs :
    (name : String) (round : Round) (reply : StartReply) (c : Cluster) (s : NodeStatus)
    → (after_start name round reply c).1 ≡ placed s
    → Runs round reply s
unfolding after_start
after_start-Runs name round reply c s e = elim (Bool-cases reply.failed) [
  | inl f ↦ ground (arith, f, e)
  | inr f ↦ elim (Bool-cases (reply.version_mismatch && is_there reply.target_status)) [
    | inl m ↦ ground (arith, f, m, e)
    | inr m ↦ elim (Bool-cases (reply.errors == 0)) [
      | inr n ↦ ground (arith, f, m, n, e)
      | inl n ↦
          let known : Cluster = elim reply.target_status [ none ↦ c | some t ↦ (set_node t c).0 ] in
          let at : (confirm_started name round reply.target_status known).1 ≡ placed s =
            ground (arith, f, m, n, e) in
          let (comp, x, status, up) =
            confirm_started-Waited name round reply.target_status known s at in
          let right : reply.version_mismatch ≡ false = ground (arith, m, status) in
          let clean : reply.errors ≡ 0 = ground (arith, n) in (comp, x, f, clean, right, status, up)
    ]
  ]
]

abbrev Started : String → ℤ → ℤ → Round → List NodeStatus → NodeStatus → Type 0
Started name required max_inst round large s =
    (option : PlacementOption) × (best_start_component_option
        (new_placement_options_by_node_id large []) name required max_inst true
      ≡ some option)
    × Runs round (round.start_stop option) s

start_best-Started :
    (name : String) (required max_inst : ℤ) (round : Round) (large : List NodeStatus) (c : Cluster)
    (s : NodeStatus)
    → (start_best name required max_inst round large c).1 ≡ placed s
    → Started name required max_inst round large s
unfolding start_best
start_best-Started name required max_inst round [] c s e = ground (arith, e)
start_best-Started name required max_inst round (n ∷ nodes) c s e =
    elim (Option-cases (
      best_start_component_option (new_placement_options_by_node_id (n ∷ nodes) []) name required
        max_inst true)) [
          | inl x ↦ ground (arith, x, e)
          | inr (option, x) ↦ (
            option,
            x,
            after_start-Runs name round (round.start_stop option) c s (ground (arith, x, e)),
          )
        ]

place_component_try_once-placed :
    (name : String) (required max_inst : ℤ) (round : Round) (c : Cluster) (s : NodeStatus)
    → (place_component_try_once name required max_inst round c).1 ≡ placed s
    → IsConfirmed name round c s ⊎ IsStarted name required max_inst round c s
unfolding place_component_try_once
place_component_try_once-placed name required max_inst round c s e =
    let asked = confirm round.get_status name (nodes_with_component name (get_nodes c)) c in
    elim (Option-cases asked.1) [
      | inl x ↦
          let large = large_nodes required (get_nodes c) in
          inr (
            subst (λ l. Started name required max_inst round l s)
              (large_nodes-with_more required (get_nodes c))
              (start_best-Started name required max_inst round large asked.0 s
                (ground (arith, x, e))))
      | inr (t, x) ↦
          let same : t ≡ s = ground (arith, x, e) in
          inl (confirm-IsConfirmed round name c s (x ∙ ap some same))
    ]

Outcome-cases :
    (o : Outcome)
    → ((s : NodeStatus) × (o ≡ placed s)) ⊎ (o ≡ gave_up) ⊎ (o ≡ try_again) ⊎ (o ≡ crashed)
Outcome-cases (placed s) = inl (s, refl)
Outcome-cases gave_up = inr (inl refl)
Outcome-cases try_again = inr (inr (inl refl))
Outcome-cases crashed = inr (inr (inr refl))

-- In one of the tries, at the cluster as it is known then.
abbrev pub PlacedIn :
    String → ℤ → ℤ → List (Round × (Cluster → Cluster)) → Cluster → NodeStatus → Type 0
PlacedIn name required max_inst [] c s = ⊥
PlacedIn name required max_inst ((round, meanwhile) ∷ rounds) c s =
    IsConfirmed name round (meanwhile c) s
    ⊎ IsStarted name required max_inst round (meanwhile c) s
    ⊎ PlacedIn name required max_inst rounds
        (place_component_try_once name required max_inst round (meanwhile c)).0 s

tries-PlacedIn :
    (name : String) (required max_inst : ℤ) (rounds : List (Round × (Cluster → Cluster)))
    (c : Cluster) (s : NodeStatus)
    → (tries name required max_inst rounds c).1 ≡ replied s
    → PlacedIn name required max_inst rounds c s
unfolding tries
tries-PlacedIn name required max_inst [] c s e = ground (arith, e)
tries-PlacedIn name required max_inst ((round, meanwhile) ∷ rounds) c s e =
    let once = place_component_try_once name required max_inst round (meanwhile c) in
    elim (Outcome-cases once.1) [
      | inl (t, x) ↦
          let same : t ≡ s = ground (arith, x, e) in
          elim (place_component_try_once-placed name required max_inst round (meanwhile c) s
            (x ∙ ap placed same)) [ inl a ↦ inl a | inr b ↦ inr (inl b) ]
      | inr (inl x) ↦ ground (arith, x, e)
      | inr (inr (inl x)) ↦
          inr (inr (tries-PlacedIn name required max_inst rounds once.0 s (ground (arith, x, e))))
      | inr (inr (inr x)) ↦ ground (arith, x, e)
    ]

-- PlaceComponent answers with a node only if in one of its tries either a node of the cluster that is known to have a
-- container of the component answers with this status and has a container of it that is not stopping; or the best
-- option among the cluster's nodes that have more memory than the component needs was started, its reply has this
-- status, no errors and no mismatch of the version, and a container of the component appears in this status or in
-- the next answers of that node before the wait is over.
pub place_component_internal_placed :
    (name : String) (comp : Component) (rounds : List (Round × (Cluster → Cluster))) (c : Cluster)
    (s : NodeStatus)
    → (place_component_internal name (ok comp) rounds c).1 ≡ replied s
    → PlacedIn name (required_ram comp) comp.max_instances_per_node rounds c s
unfolding place_component_internal
place_component_internal_placed name comp rounds c s e =
    tries-PlacedIn name (required_ram comp) comp.max_instances_per_node rounds c s e
