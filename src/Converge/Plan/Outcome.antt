-- ===== src/Converge/Plan/Outcome.antt =====
-- The scan of `plan`, pkg/converge/converger.go: what it keeps.
use maelstrom.Prelude.{
  ℕ, suc, ◌+◌, ◌≤◌, ◌≡◌, String, Option, none, some, List, [], ◌∷◌, All, length, arith, name_iff,
  Option-cases, inl, inr,
}
use maelstrom.Prelude.Int.{pos_part, eq_of_parts}
use maelstrom.Converge.{Container, ComponentTarget}
use maelstrom.Converge.Plan.{scan, stop_reason, count_kept}

-- The container is what the target asks for, and nothing has marked it for termination.
pub record Matches (target : ComponentTarget) (cn : Container) : Type 0 where
  pub unmarked : cn.terminate_reason ≡ ""
  pub name : cn.component.name ≡ target.component.name
  pub version : cn.component.version ≡ target.component.version

abbrev cons_kept : Option String → Container → List Container → List Container
cons_kept none cn cns = cn ∷ cns
cons_kept (some reason) cn cns = cns

-- The containers that the scan keeps, in their order.
unfoldable pub keep : ComponentTarget → ℕ → List Container → List Container
keep target active [] = []
keep target active (cn ∷ cns) =
    let reason = stop_reason target active cn in
    cons_kept reason cn (keep target (count_kept reason active) cns)

stop_reason-none :
    (target : ComponentTarget) (active : ℕ) (cn : Container)
    → stop_reason target active cn ≡ none
    → Matches target cn × (suc active ≤ pos_part target.count)
unfolding stop_reason
stop_reason-none target active cn e = ground (
  arith,
  name_iff cn.terminate_reason "",
  name_iff cn.component.name target.component.name,
  eq_of_parts cn.component.version target.component.version,
)

pub keep-Matches :
    (target : ComponentTarget) (active : ℕ) (cns : List Container)
    → All (Matches target) (keep target active cns)
unfolding keep
keep-Matches target active [] = tt
keep-Matches target active (cn ∷ cns) = elim (Option-cases (stop_reason target active cn)) [
  | inl e ↦ rw e ((stop_reason-none target active cn e).0, keep-Matches target (suc active) cns)
  | inr (reason, e) ↦ rw e (keep-Matches target active cns)
]

pub scan_count :
    (target : ComponentTarget) (active : ℕ) (cns : List Container)
    → (scan target active cns).1 ≡ active + length (keep target active cns)
unfolding scan keep
scan_count target active [] = omega arith
scan_count target active (cn ∷ cns) = elim (Option-cases (stop_reason target active cn)) [
  | inl e ↦ rw e (omega (arith, scan_count target (suc active) cns))
  | inr (reason, e) ↦ rw e (scan_count target active cns)
]

pub scan_count_le :
    (target : ComponentTarget) (active : ℕ) (cns : List Container)
    → active ≤ pos_part target.count
    → (scan target active cns).1 ≤ pos_part target.count
unfolding scan
scan_count_le target active [] h = h
scan_count_le target active (cn ∷ cns) h = elim (Option-cases (stop_reason target active cn)) [
  | inl e ↦ rw e (scan_count_le target (suc active) cns (stop_reason-none target active cn e).1)
  | inr (reason, e) ↦ rw e (scan_count_le target active cns h)
]
