-- ===== src/Converge/Run/Containers.antt =====
-- The container list under one step of a converger, pkg/converge/converger.go.
use maelstrom.Prelude.{
  ℕ, ◌≡◌, ◌≢◌, refl, sym, ap, ◌∙◌, ◌⊎◌, inl, inr, String, true, false, Option, none, some, List, [],
  ◌∷◌, ◌++◌, All, All-append, arith, ◌==◌, name_iff, if◌then◌else◌, Bool-cases,
}
use maelstrom.Converge.{Container}
use maelstrom.Converge.Run.{
  Converger, hit, mark_stopping, find_last, drop_found, stop_and_remove_container, put_container,
}

-- Each container has its own id, and none has the Docker id that stop steps pass for "no id".
abbrev pub DistinctIds : List Container → Type 0
DistinctIds [] = Unit
DistinctIds (cn ∷ cns) = All (λ other. other.id ≢ cn.id) cns × DistinctIds cns

abbrev pub HasDockerIds : List Container → Type 0
HasDockerIds = All (λ cn. cn.container_id ≢ "unused")

unfoldable pub without : ℕ → List Container → List Container
without id [] = []
without id (cn ∷ cns) = let rest = without id cns in if cn.id == id then rest else cn ∷ rest

pub without-All :
    (P : Container → Type 0) (id : ℕ) (cns : List Container) → All P cns → All P (without id cns)
unfolding without
without-All P id [] h = tt
without-All P id (cn ∷ cns) h = ground (arith, without-All P id cns)

pub without-DistinctIds :
    (id : ℕ) (cns : List Container) → DistinctIds cns → DistinctIds (without id cns)
unfolding without
without-DistinctIds id [] d = tt
without-DistinctIds id (cn ∷ cns) d =
    ground (arith, without-DistinctIds id cns, without-All (λ other. other.id ≢ cn.id) id cns)

-- Nothing in the list has this id.
abbrev pub AvoidsId : ℕ → List Container → Type 0
AvoidsId id = All (λ cn. cn.id ≢ id)

pub without_absent : (id : ℕ) (cns : List Container) → AvoidsId id cns → without id cns ≡ cns
unfolding without
without_absent id [] h = refl
without_absent id (cn ∷ cns) h = ground (arith, without_absent id cns)

mark_stopping_absent :
    (id : ℕ) (cns : List Container)
    → AvoidsId id cns
    → HasDockerIds cns
    → mark_stopping id "unused" cns ≡ cns
unfolding mark_stopping
mark_stopping_absent id [] h u = refl
mark_stopping_absent id (cn ∷ cns) h u =
    ground (arith, name_iff "unused" cn.container_id, mark_stopping_absent id cns)

find_last_absent :
    (id : ℕ) (found : Option Container) (cns : List Container)
    → AvoidsId id cns
    → HasDockerIds cns
    → find_last id "unused" found cns ≡ found
unfolding find_last
find_last_absent id found [] h u = refl
find_last_absent id found (cn ∷ cns) h u =
    ground (arith, name_iff "unused" cn.container_id, find_last_absent id found cns)

drop_found_absent :
    (found : Container) (cns : List Container) → AvoidsId found.id cns → drop_found found cns ≡ cns
unfolding drop_found
drop_found_absent found [] h = refl
drop_found_absent found (cn ∷ cns) h = ground (arith, drop_found_absent found cns)

-- What the loops of `stopAndRemoveContainer` give for one id.
abbrev Removes : ℕ → List Container → Type 0
Removes id cns =
    ((find_last id "unused" none cns ≡ none)
      × (mark_stopping id "unused" cns ≡ cns)
      × (without id cns ≡ cns))
    ⊎ ((found : Container) × (find_last id "unused" none cns ≡ some found)
        × (found.id ≡ id)
        × (drop_found found (mark_stopping id "unused" cns) ≡ without id cns))

loops-Removes :
    (id : ℕ) (cns : List Container) → DistinctIds cns → HasDockerIds cns → Removes id cns
unfolding find_last mark_stopping drop_found without
loops-Removes id [] d u = inl (refl, refl, refl)
loops-Removes id (cn ∷ cns) d u = elim (Bool-cases (cn.id == id)) [
  | inl here ↦
      let e : cn.id ≡ id = ground arith in
      let absent : AvoidsId id cns = rw e at d.0 in
      let is_hit : hit id "unused" cn ≡ true = ground arith in
      inr (
        cn,
        rw is_hit (find_last_absent id (some cn) cns absent u.1),
        e,
        rw is_hit (
            rw (mark_stopping_absent id cns absent u.1) (
              ground (
                arith,
                name_iff cn.container_id cn.container_id,
                drop_found_absent cn cns,
                without_absent id cns,
              ))),
      )
  | inr there ↦
      let not_hit : hit id "unused" cn ≡ false =
        ground (arith, name_iff "unused" cn.container_id) in
      elim (loops-Removes id cns d.1 u.1) [
        | inl (none_found, marked, kept) ↦
            inl (rw not_hit none_found, rw not_hit (ap (λ l. cn ∷ l) marked), ground arith)
        | inr (found, is_found, named, kept) ↦
            inr (found, rw not_hit is_found, named, rw not_hit (ground arith))
      ]
]

-- A stop step takes exactly the container with its id out of the list.
pub stop_and_remove_without :
    (id : ℕ) (reason : String) (c : Converger)
    → DistinctIds c.containers
    → HasDockerIds c.containers
    → (stop_and_remove_container id "unused" reason c).containers ≡ without id c.containers
unfolding stop_and_remove_container
stop_and_remove_without id reason c d u = elim (loops-Removes id c.containers d u) [
  | inl (none_found, marked, kept) ↦ rw none_found (marked ∙ sym kept)
  | inr (found, is_found, named, kept) ↦ rw is_found kept
]

pub put_container_last :
    (cn : Container) (cns : List Container) (old : Container)
    → old.id ≡ cn.id
    → AvoidsId cn.id cns
    → put_container cn (cns ++ old ∷ []) ≡ cns ++ cn ∷ []
unfolding put_container
put_container_last cn [] old e h = ground arith
put_container_last cn (other ∷ cns) old e h = ground (arith, put_container_last cn cns old e)

pub DistinctIds-snoc :
    (cn : Container) (cns : List Container)
    → AvoidsId cn.id cns
    → DistinctIds cns
    → DistinctIds (cns ++ cn ∷ [])
DistinctIds-snoc cn [] h d = (tt, tt)
DistinctIds-snoc cn (other ∷ cns) h d = (
  All-append (λ o. o.id ≢ other.id) cns (cn ∷ []) d.0 (λ e. h.0 (sym e), tt),
  DistinctIds-snoc cn cns h.1 d.1,
)

pub stop_and_remove_calls :
    (id : ℕ) (docker_id reason : String) (c : Converger)
    → (stop_and_remove_container id docker_id reason c).calls ≡ c.calls
unfolding stop_and_remove_container
stop_and_remove_calls id docker_id reason c = ground arith

pub without_head :
    (cn : Container) (cns : List Container) → AvoidsId cn.id cns → without cn.id (cn ∷ cns) ≡ cns
unfolding without
without_head cn cns h = ground (arith, without_absent cn.id cns)
