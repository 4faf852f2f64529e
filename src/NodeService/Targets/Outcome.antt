-- ===== src/NodeService/Targets/Outcome.antt =====
-- What StartStopComponents makes of the node's targets, pkg/maelstrom/node_svc.go.
use maelstrom.Prelude.{
  ◌≡◌, refl, sym, ap, ◌∙◌, Bool, true, false, not, List, Option-cases, Bool-cases, inl, inr, ◌⊎◌,
  if-cases, arith, String,
}
use maelstrom.Prelude.Int.{pos, ◌+ℤ◌, ◌==ℤ◌, +ℤ_parts, pos_part, neg_part}
use maelstrom.V1.{Component, StartStopComponentsInput}
use maelstrom.Converge.{ComponentTarget}
use maelstrom.Db.Rows.{DbResult}
use maelstrom.MaelService.{Rpc, replied}
use maelstrom.MaelService.Answers.{Rpc-cases}
use maelstrom.Registry.{Registry, set_targets}
use maelstrom.Registry.Versions.{set_targets-cases}
use maelstrom.NodeService.Status.{Node, Readings, resolve_node_status}
use maelstrom.NodeService.Targets.{StartStopComponentsOutput, scale_targets, start_stop_components}

-- What a call does to the registry: nothing, or what SetTargets does with the targets of its components.
abbrev Touches :
    (String → DbResult Component) → StartStopComponentsInput → Registry → Registry → Type 0
Touches get input r after =
    (after ≡ r)
    ⊎ ((targets : List ComponentTarget) × (scale_targets get input.target_counts ≡ replied targets)
        × (after ≡ (set_targets input.target_version targets r).0))

start_stop_components-Touches :
    (get : String → DbResult Component) (read : Registry → Readings) (terminates : Bool)
    (input : StartStopComponentsInput) (n : Node) (r : Registry)
    → Touches get input r (start_stop_components get read terminates input n r).0
unfolding start_stop_components
start_stop_components-Touches get read terminates input n r = elim (Bool-cases n.terminated) [
  | inl t ↦ inl (rw (t, start_stop_components) refl)
  | inr t ↦ elim (Rpc-cases (scale_targets get input.target_counts)) [
    | inr (inl (code, m, e)) ↦ inl (rw (t, e, start_stop_components) refl)
    | inr (inr e) ↦ inl (rw (t, e, start_stop_components) refl)
    | inl (targets, e) ↦
        let after = (set_targets input.target_version targets r).0 in
        inr (
          targets,
          e,
          elim (Option-cases (resolve_node_status (read after) n)) [
            | inl x ↦ rw (t, e, x, start_stop_components) refl
            | inr (status, x) ↦
                rw (t, e, x, start_stop_components)
                  (if-cases (λ (q : Registry × Rpc StartStopComponentsOutput). q.0 ≡ after)
                    terminates (λ y. refl) (λ y. refl))
          ],
        )
  ]
]

-- An answered call did what SetTargets does, and says whether the version matched.
abbrev Answers :
    (String → DbResult Component)
    → StartStopComponentsInput
    → Registry
    → Registry
    → StartStopComponentsOutput
    → Type 0
Answers get input r after out =
    (targets : List ComponentTarget) × (scale_targets get input.target_counts ≡ replied targets)
    × (out.target_version_mismatch ≡ not (set_targets input.target_version targets r).1)
    × (after ≡ (set_targets input.target_version targets r).0)

start_stop_components-Answers :
    (get : String → DbResult Component) (read : Registry → Readings) (terminates : Bool)
    (input : StartStopComponentsInput) (n : Node) (r : Registry) (out : StartStopComponentsOutput)
    → (start_stop_components get read terminates input n r).1 ≡ replied out
    → Answers get input r (start_stop_components get read terminates input n r).0 out
unfolding start_stop_components
start_stop_components-Answers get read true input n r out answer = elim (Bool-cases n.terminated) [
  | inl t ↦ ground (arith, t, answer)
  | inr t ↦ elim (Rpc-cases (scale_targets get input.target_counts)) [
    | inr (inl (code, m, e)) ↦ ground (arith, t, e, answer)
    | inr (inr e) ↦ ground (arith, t, e, answer)
    | inl (targets, e) ↦
        let after = (set_targets input.target_version targets r).0 in
        elim (Option-cases (resolve_node_status (read after) n)) [
          | inl x ↦ ground (arith, t, e, x, answer)
          | inr (status, x) ↦ ground (arith, t, e, x, answer)
        ]
  ]
]
start_stop_components-Answers get read false input n r out answer = elim (Bool-cases n.terminated) [
  | inl t ↦ ground (arith, t, answer)
  | inr t ↦ elim (Rpc-cases (scale_targets get input.target_counts)) [
    | inr (inl (code, m, e)) ↦ ground (arith, t, e, answer)
    | inr (inr e) ↦ ground (arith, t, e, answer)
    | inl (targets, e) ↦
        let after = (set_targets input.target_version targets r).0 in
        elim (Option-cases (resolve_node_status (read after) n)) [
          | inl x ↦ ground (arith, t, e, x, answer)
          | inr (status, x) ↦ (
            targets,
            e,
            ground (arith, t, e, x, answer),
            rw (t, e, x, start_stop_components) refl,
          )
        ]
  ]
]

-- What a call was accepted with is no longer the registry's version.
accepted_version :
    (get : String → DbResult Component) (input : StartStopComponentsInput) (r after : Registry)
    (out : StartStopComponentsOutput)
    → Answers get input r after out
    → out.target_version_mismatch ≡ false
    → (input.target_version ==ℤ after.version) ≡ false
accepted_version get input r after out (targets, e, flag, state) matches =
    elim (set_targets-cases input.target_version targets r) [
      | inl (same, accepted, next) ↦
          let up : after.version ≡ input.target_version +ℤ pos 1 =
            ap Registry.version state ∙ next ∙ ap (λ v. v +ℤ pos 1) (sym same) in
          ground (arith, ap pos_part up, ap neg_part up, +ℤ_parts input.target_version (pos 1))
      | inr (differs, kept) ↦ ground (arith, kept, flag, matches)
    ]

refused_version :
    (get : String → DbResult Component) (input : StartStopComponentsInput) (r after : Registry)
    → (input.target_version ==ℤ r.version) ≡ false
    → Touches get input r after
    → after ≡ r
refused_version get input r after differs (inl same) = same
refused_version get input r after differs (inr (targets, e, state)) =
    elim (set_targets-cases input.target_version targets r) [
      | inl (same, accepted, next) ↦ ground (arith, differs, ap pos_part same, ap neg_part same)
      | inr (d, kept) ↦ state ∙ ap (λ q. q.0) kept
    ]

-- Of two calls of StartStopComponents for the same version of a node's state, of which the first is answered
-- without a version mismatch, the second leaves the targets, and all else in the registry, as the first made
-- them.
pub start_stop_components_once :
    (get get' : String → DbResult Component) (read read' : Registry → Readings)
    (terminates terminates' : Bool) (input input' : StartStopComponentsInput) (n n' : Node)
    (r : Registry) (out : StartStopComponentsOutput)
    → (start_stop_components get read terminates input n r).1 ≡ replied out
    → out.target_version_mismatch ≡ false
    → input'.target_version ≡ input.target_version
    → (start_stop_components get' read' terminates' input' n'
        (start_stop_components get read terminates input n r).0).0
      ≡ (start_stop_components get read terminates input n r).0
start_stop_components_once get get' read read' terminates terminates' input input' n n' r out answer
      matches same =
    let after = (start_stop_components get read terminates input n r).0 in
    refused_version get' input' after
      (start_stop_components get' read' terminates' input' n' after).0
      (rw same (
        accepted_version get input r after out
          (start_stop_components-Answers get read terminates input n r out answer) matches))
      (start_stop_components-Touches get' read' terminates' input' n' after)
