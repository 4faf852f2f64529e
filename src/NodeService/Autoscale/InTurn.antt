-- ===== src/NodeService/Autoscale/InTurn.antt =====
-- Which options a round of the autoscaler sends, pkg/maelstrom/node_svc.go.
use maelstrom.Prelude.{
  append_assoc, append_nil, ◌≡◌, refl, sym, ap, ◌∙◌, ◌⊎◌, Bool, true, false, none, some, List, [],
  ◌∷◌, ◌++◌, ◌&&◌, not, ltb, if◌then◌else◌, inl, inr, some-injective, subst, arith,
}
use maelstrom.V1.{NodeStatus}
use maelstrom.Cluster.{set_node}
use maelstrom.Placement.{PlacementOption, scale_up_down_counts}
use maelstrom.Scale.{group_options_by_type}
use maelstrom.NodeService.Autoscale.{
  Answer, failed, answered, Progress, Turn, apply_placement_options, apply_group, apply_groups,
  autoscale,
}

abbrev pub same_bool : Bool → Bool → Bool
same_bool true b = b
same_bool false b = not b

abbrev pub is_failed : Answer → Bool
is_failed failed = true
is_failed (answered status) = false

abbrev pub any_failed : (PlacementOption → Answer) → List PlacementOption → Bool
any_failed ask [] = false
any_failed ask (option ∷ group) = if is_failed (ask option) then true else any_failed ask group

-- The options that start containers, or stop some, as asked.
abbrev pub of_kind : Bool → Bool → PlacementOption → Bool
of_kind starts stops p =
    same_bool starts (ltb 0 (scale_up_down_counts p).0)
    && same_bool stops (ltb 0 (scale_up_down_counts p).1)

abbrev pub chosen : (PlacementOption → Bool) → List PlacementOption → List PlacementOption
chosen test [] = []
chosen test (p ∷ ps) = if test p then p ∷ chosen test ps else chosen test ps

-- First the options that start containers and stop none, then those that do both, then all others; in each
-- group in the order of the options.
abbrev pub groups_of :
    Turn → Turn → Turn → List PlacementOption → List (Turn × List PlacementOption)
groups_of turn1 turn2 turn3 inputs =
    (turn1, chosen (of_kind true false) inputs)
    ∷ (turn2, chosen (of_kind true true) inputs)
    ∷ (turn3, chosen (λ p. not (ltb 0 (scale_up_down_counts p).0)) inputs)
    ∷ []

group_options_by_type-chosen :
    (inputs : List PlacementOption)
    → group_options_by_type inputs ≡ (
      chosen (of_kind true false) inputs,
      chosen (of_kind true true) inputs,
      chosen (λ p. not (ltb 0 (scale_up_down_counts p).0)) inputs,
    )
unfolding group_options_by_type
group_options_by_type-chosen [] = refl
group_options_by_type-chosen (p ∷ ps) = ground (arith, group_options_by_type-chosen ps)

-- What is sent of groups in turn, and whether all went well: an empty group is passed over, a group is sent
-- whole if the role is acquired for it, and the first that is not sent or has an error is the last.
abbrev pub sent_in_turn : List (Turn × List PlacementOption) → List PlacementOption × Bool
sent_in_turn [] = ([], true)
sent_in_turn ((turn, []) ∷ groups) = sent_in_turn groups
sent_in_turn ((turn, option ∷ group) ∷ groups) =
    if turn.acquired
    then if any_failed turn.ask (option ∷ group)
      then (option ∷ group, false)
      else ((option ∷ group) ++ (sent_in_turn groups).0, (sent_in_turn groups).1)
    else ([], false)

Answer-cases :
    (a : Answer) → (a ≡ failed) ⊎ (a ≡ answered none) ⊎ ((s : NodeStatus) × (a ≡ answered (some s)))
Answer-cases failed = inl refl
Answer-cases (answered none) = inr (inl refl)
Answer-cases (answered (some s)) = inr (inr (s, refl))

-- A group is sent whole, and its errors are counted.
apply_placement_options_outcome :
    (ask : PlacementOption → Answer) (group : List PlacementOption) (p : Progress)
    → ((apply_placement_options ask group p).0.sent ≡ p.sent ++ group)
      × (ltb 0 (apply_placement_options ask group p).1 ≡ any_failed ask group)
unfolding apply_placement_options
apply_placement_options_outcome ask [] p = (sym (append_nil p.sent), refl)
apply_placement_options_outcome ask (option ∷ group) p =
    let q : Progress = record p { sent = p.sent ++ (option ∷ []) } in
    let joined = append_assoc p.sent (option ∷ []) group in
    elim (Answer-cases (ask option)) [
      | inl e ↦
          let after = apply_placement_options_outcome ask group q in
          (
            rw (e, apply_placement_options) (after.0 ∙ joined),
            rw (e, apply_placement_options) (ground arith),
          )
      | inr (inl e) ↦
          let after = apply_placement_options_outcome ask group q in
          (
            rw (e, apply_placement_options) (after.0 ∙ joined),
            rw (e, apply_placement_options) after.1,
          )
      | inr (inr (status, e)) ↦
          let after =
            apply_placement_options_outcome ask group
              (record q { cluster = (set_node status p.cluster).0 }) in
          (
            rw (e, apply_placement_options) (after.0 ∙ joined),
            rw (e, apply_placement_options) after.1,
          )
    ]

no_success :
    (groups : List (Turn × List PlacementOption)) (p : Progress)
    → apply_groups groups (p, false) ≡ (p, false)
unfolding apply_groups apply_group
no_success [] p = refl
no_success ((turn, []) ∷ groups) p = no_success groups p
no_success ((turn, option ∷ group) ∷ groups) p = no_success groups p

abbrev Sent : Progress → List PlacementOption × Bool → Progress × Bool → Type 0
Sent p (options, well) (after, success) = (after.sent ≡ p.sent ++ options) × (success ≡ well)

abbrev InTurn : List (Turn × List PlacementOption) → Progress → Progress × Bool → Type 0
InTurn groups p r = Sent p (sent_in_turn groups) r

one_turn :
    (acquired failing counted : Bool) (after p : Progress) (group : List PlacementOption)
    (groups : List (Turn × List PlacementOption))
    → after.sent ≡ p.sent ++ group
    → failing ≡ counted
    → InTurn groups after (apply_groups groups (after, true))
    → Sent p
        (if acquired
          then if failing
            then (group, false)
            else (group ++ (sent_in_turn groups).0, (sent_in_turn groups).1)
          else ([], false))
        (apply_groups groups
          (if acquired then (after, if counted then false else true) else (p, false)))
one_turn false failing counted after p group groups sent same next =
    rw (no_success groups p) (sym (append_nil p.sent), refl)
one_turn true true true after p group groups sent same next =
    rw (no_success groups after) (sent, refl)
one_turn true false false after p group groups sent same next = (
  next.0
      ∙ ap (λ l. l ++ (sent_in_turn groups).0) sent
      ∙ append_assoc p.sent group (sent_in_turn groups).0,
  next.1,
)
one_turn true true false after p group groups sent same next = ground (arith, same)
one_turn true false true after p group groups sent same next = ground (arith, same)

apply_groups-InTurn :
    (groups : List (Turn × List PlacementOption)) (p : Progress)
    → InTurn groups p (apply_groups groups (p, true))
unfolding apply_groups apply_group
apply_groups-InTurn [] p = (sym (append_nil p.sent), refl)
apply_groups-InTurn ((turn, []) ∷ groups) p = apply_groups-InTurn groups p
apply_groups-InTurn ((turn, option ∷ group) ∷ groups) p =
    let (after, errors) = apply_placement_options turn.ask (option ∷ group) p in
    let outcome = apply_placement_options_outcome turn.ask (option ∷ group) p in
    one_turn turn.acquired (any_failed turn.ask (option ∷ group)) (ltb 0 errors) after p
      (option ∷ group) groups outcome.0 (sym outcome.1) (apply_groups-InTurn groups after)

-- A round of the autoscaler that has the role and the options sends those that start containers and stop none, then
-- those that do both, then those that start none; a group is sent if the role is acquired again for it and no group
-- before it was left out or had an error, and the round succeeds if none was left out or had an error.
pub autoscale_in_turn :
    (inputs : List PlacementOption) (turn1 turn2 turn3 : Turn) (p after : Progress) (success : Bool)
    → autoscale true (some inputs) turn1 turn2 turn3 p ≡ some (after, success)
    → (after.sent ≡ p.sent ++ (sent_in_turn (groups_of turn1 turn2 turn3 inputs)).0)
      × (success ≡ (sent_in_turn (groups_of turn1 turn2 turn3 inputs)).1)
unfolding autoscale
autoscale_in_turn inputs turn1 turn2 turn3 p after success e =
    let groups = group_options_by_type inputs in
    let same : apply_groups ((turn1, groups.0) ∷ (turn2, groups.1) ∷ (turn3, groups.2) ∷ [])
          (p, true)
        ≡ apply_groups (groups_of turn1 turn2 turn3 inputs) (p, true) =
      ap
        (λ (g : List PlacementOption × List PlacementOption × List PlacementOption).
          apply_groups ((turn1, g.0) ∷ (turn2, g.1) ∷ (turn3, g.2) ∷ []) (p, true))
        (group_options_by_type-chosen inputs) in
    subst (λ r. InTurn (groups_of turn1 turn2 turn3 inputs) p r) (sym same ∙ some-injective _ _ e)
      (apply_groups-InTurn (groups_of turn1 turn2 turn3 inputs) p)
