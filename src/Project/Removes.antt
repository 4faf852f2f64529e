-- ===== src/Project/Removes.antt =====
-- What DiffProject of pkg/maelstrom/project.go removes.
use maelstrom.Prelude.{
  ◌≡◌, ◌↔◌, refl, sym, ap, ◌∙◌, String, none, some, [], ◌∷◌, Memᴰ, Memᴰ-cons, Keyed, lookup,
  name_iff, Bool-cases, Option-cases, inl, inr, ◌=s=◌, arith,
}
use maelstrom.Placement.Best.{sort, name_less}
use maelstrom.Placement.Best.Sorting.{sort-Memᴰ, sort-keeps}
use maelstrom.Project.{Project, components_by_name, sources_by_name, gone, diff_project}

module _ {A : Type 0} where
  abbrev pub Has : String → Keyed A → Type 0
  Has k t = (a : A) × (lookup k t ≡ some a)

  Has-later : (k j : String) (v : A) (t : Keyed A) → Has k t → Has k ((j, v) ∷ t)
  unfolding lookup
  Has-later k j v t (a, e) = elim (Bool-cases (j =s= k)) [
    | inl same ↦ (v, rw same refl)
    | inr differs ↦ (a, rw differs e)
  ]

  gone-in :
      (k : String) (old new : Keyed A) → Memᴰ k (gone old new) → Has k old × (lookup k new ≡ none)
  unfolding gone lookup
  gone-in k [] new m = elim m [ ]
  gone-in k ((j, v) ∷ old) new m =
      let more : Memᴰ k (gone old new) → Has k ((j, v) ∷ old) × (lookup k new ≡ none) =
        λ n. let found = gone-in k old new n in (Has-later k j v old found.0, found.1) in
      elim (Option-cases (lookup j new)) [
        | inl absent ↦ elim (Memᴰ-cons (rw (absent, gone) at m)) [
          | inl e ↦ ((v, rw ((name_iff j k).1 (sym e)) refl), ap (λ n. lookup n new) e ∙ absent)
          | inr n ↦ more n
        ]
        | inr (w, present) ↦ more (rw (present, gone) at m)
      ]

  gone-all :
      (k : String) (old new : Keyed A) → Has k old → lookup k new ≡ none → Memᴰ k (gone old new)
  unfolding gone lookup
  gone-all k [] new (a, e) absent = absurd (ground (arith, e))
  gone-all k ((j, v) ∷ old) new (a, e) absent = elim (Bool-cases (j =s= k)) [
    | inl same ↦
        rw (ap (λ n. lookup n new) ((name_iff j k).0 same) ∙ absent, gone)
          (Memᴰ.head (sym ((name_iff j k).0 same)))
    | inr differs ↦
        let n = gone-all k old new (a, rw differs at e) absent in
        elim (Option-cases (lookup j new)) [
          | inl gone_too ↦ rw (gone_too, gone) (Memᴰ.tail n)
          | inr (w, present) ↦ rw (present, gone) n
        ]
  ]

  pub gone_sorted :
      (k : String) (old new : Keyed A)
      → Memᴰ k (sort name_less (gone old new)) ↔ (Has k old × (lookup k new ≡ none))
  gone_sorted k old new = (
    λ m. gone-in k old new (sort-Memᴰ name_less k (gone old new) m),
    λ h. sort-keeps name_less k (gone old new) (gone-all k old new h.0 h.1),
  )

-- DiffProject removes exactly the components, and exactly the event sources, whose names the old
-- project has and the new one has not.
pub diff_project_removes :
    (old new : Project) (name : String)
    → (Memᴰ name (diff_project old new).component_remove
        ↔ (Has name (components_by_name old []) × (lookup name (components_by_name new []) ≡ none)))
      × (Memᴰ name (diff_project old new).event_source_remove
          ↔ (Has name (sources_by_name old []) × (lookup name (sources_by_name new []) ≡ none)))
unfolding diff_project
diff_project_removes old new name = (
  gone_sorted name (components_by_name old []) (components_by_name new []),
  gone_sorted name (sources_by_name old []) (sources_by_name new []),
)
