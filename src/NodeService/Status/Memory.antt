-- ===== src/NodeService/Status/Memory.antt =====
-- The memory that a node reports, pkg/maelstrom/node_svc.go.
use maelstrom.Prelude.{◌≡◌, if◌then◌else◌, ◌&&◌, arith, some, Option-cases, inl, inr}
use maelstrom.Prelude.Int.{ℤ, pos, ◌-ℤ◌, ◌≤ℤ◌, -ℤ_parts, eq_of_parts, leb_ℤ, ltb_ℤ}
use maelstrom.V1.{NodeStatus}
use maelstrom.NodeService.Status.{Node, Readings, limited_memory, resolve_node_status}

-- The smaller of the memory that there is and a limit that is not negative.
abbrev pub limit : ℤ → ℤ → ℤ
limit allowed total = if leb_ℤ (pos 0) allowed && ltb_ℤ allowed total then allowed else total

abbrev pub Bounded : ℤ → ℤ → ℤ × ℤ → Type 0
Bounded allowed total (reported, free) =
    (reported ≡ limit allowed total) × (pos 0 ≤ℤ free) × (free ≤ℤ reported)

limited_memory-Bounded :
    (allowed total free : ℤ)
    → pos 0 ≤ℤ free
    → free ≤ℤ total
    → Bounded allowed total (limited_memory allowed (total, free))
unfolding limited_memory
limited_memory-Bounded allowed total free low high =
    let delta = total -ℤ allowed in
    ground (
      arith,
      -ℤ_parts total allowed,
      -ℤ_parts total delta,
      -ℤ_parts free delta,
      eq_of_parts (total -ℤ delta) allowed,
    )

-- Of memory of which no more is free than there is, the status reports as total the smaller of what there is
-- and the limit, where the limit is not negative, and as free memory a number from 0 up to that total.
pub resolve_node_status-Bounded :
    (readings : Readings) (n : Node) (status : NodeStatus) (total free : ℤ)
    → readings.meminfo ≡ some (total, free)
    → pos 0 ≤ℤ free
    → free ≤ℤ total
    → resolve_node_status readings n ≡ some status
    → Bounded n.total_mem_allowed total (status.total_memory_mib, status.free_memory_mib)
unfolding resolve_node_status
resolve_node_status-Bounded readings n status total free read low high e =
    let bounded = limited_memory-Bounded n.total_mem_allowed total free low high in
    elim (Option-cases readings.loadavg) [
      | inl l ↦ ground (arith, read, l, e)
      | inr (load, l) ↦ ground (arith, read, l, e, bounded)
    ]
