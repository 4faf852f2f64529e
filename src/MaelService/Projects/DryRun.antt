-- ===== src/MaelService/Projects/DryRun.antt =====
-- What PutProject does when only the difference is asked for, pkg/maelstrom/mael_svc.go.
use maelstrom.Prelude.{
  ◌≡◌, inl, inr, refl, ap, ◌∙◌, String, Bool, true, false, List, [], ◌∷◌, arith,
}
use maelstrom.V1.{Component}
use maelstrom.Project.{Project, ProjectDiff, diff_project}
use maelstrom.MaelService.{Service, Rpc, replied, and_then}
use maelstrom.MaelService.Names.{to_lower}
use maelstrom.MaelService.Answers.{Rpc-cases, DbResult-cases, and_then-replied, and_then-reply}
use maelstrom.MaelService.Projects.{
  PutProjectOutput, new_output, each, apply_diff, note_removed_component, note_removed_source,
  note_component, note_source, remove_one_component, remove_one_source, put_one_component,
  put_one_source, listed_components, listed_sources, with_sources, get_project_internal,
  serve_put_project, validate_project, with_prefixes, db_list,
}

module _ {A : Type 0} (act : A → Service → Service × Rpc Unit)
    (note : A → PutProjectOutput → PutProjectOutput) where
  abbrev noted : List A → PutProjectOutput → PutProjectOutput
  noted [] out = out
  noted (x ∷ xs) out = noted xs (note x out)

  each_dry :
      (xs : List A) (out : PutProjectOutput) (s : Service)
      → each true act note xs out s ≡ (s, replied (noted xs out))
  unfolding each and_then
  each_dry [] out s = refl
  each_dry (x ∷ xs) out s = each_dry xs (note x out) s

  each_wet :
      (xs : List A) (out : PutProjectOutput) (s : Service) (result : PutProjectOutput)
      → (each false act note xs out s).1 ≡ replied result
      → noted xs out ≡ result
  unfolding each
  each_wet [] out s result e = ground (arith, e)
  each_wet (x ∷ xs) out s result e =
      let (u, acted, rest) =
        and_then-replied (act x s) (λ u t. each false act note xs (note x out) t) result e in
      each_wet xs (note x out) (act x s).0 result rest

-- All that the four loops note.
abbrev noted_diff : ProjectDiff → PutProjectOutput → PutProjectOutput
noted_diff diff out = noted put_one_source note_source diff.event_source_put (
    noted put_one_component note_component diff.component_put (
      noted remove_one_source note_removed_source diff.event_source_remove
        (noted remove_one_component note_removed_component diff.component_remove out)))

apply_diff_dry :
    (diff : ProjectDiff) (out : PutProjectOutput) (s : Service)
    → apply_diff true diff out s ≡ (s, replied (noted_diff diff out))
unfolding apply_diff and_then
apply_diff_dry diff out s =
    let out1 = noted remove_one_component note_removed_component diff.component_remove out in
    let out2 = noted remove_one_source note_removed_source diff.event_source_remove out1 in
    let out3 = noted put_one_component note_component diff.component_put out2 in
    rw
      (
        each_dry remove_one_component note_removed_component diff.component_remove out s,
        each_dry remove_one_source note_removed_source diff.event_source_remove out1 s,
        each_dry put_one_component note_component diff.component_put out2 s,
      )
      (each_dry put_one_source note_source diff.event_source_put out3 s)

apply_diff_wet :
    (diff : ProjectDiff) (out : PutProjectOutput) (s : Service) (result : PutProjectOutput)
    → (apply_diff false diff out s).1 ≡ replied result
    → noted_diff diff out ≡ result
unfolding apply_diff
apply_diff_wet diff out s result e =
    let (out1, e1, f1) = and_then-replied _ _ result e in
    let (out2, e2, f2) = and_then-replied _ _ result f1 in
    let (out3, e3, f3) = and_then-replied _ _ result f2 in
    let n1 =
      each_wet remove_one_component note_removed_component diff.component_remove out s out1 e1 in
    let n2 =
      each_wet remove_one_source note_removed_source diff.event_source_remove out1 _ out2 e2 in
    let n3 = each_wet put_one_component note_component diff.component_put out2 _ out3 e3 in
    let n4 = each_wet put_one_source note_source diff.event_source_put out3 _ result f3 in
    rw (n1, n2, n3) n4

-- The tables and the notices stay.
abbrev pub SameData : Service → Service → Type 0
SameData s t =
    (t.components ≡ s.components) × (t.event_sources ≡ s.event_sources) × (t.notices ≡ s.notices)

same_through : (s t u : Service) → SameData s t → SameData t u → SameData s u
same_through s t u (a, b, c) (d, e, f) = (d ∙ a, e ∙ b, f ∙ c)

module _ (like : String → String → Bool) where
  listed_components-SameData :
      (name : String) (s : Service) → SameData s (listed_components like name s).0
  unfolding listed_components db_list
  listed_components-SameData name s = ground arith

  listed_sources-SameData :
      (name : String) (s : Service) → SameData s (listed_sources like name s).0
  unfolding listed_sources db_list
  listed_sources-SameData name s = ground arith

  with_sources-SameData :
      (cs : List Component) (s : Service) → SameData s (with_sources like cs s).0
  unfolding with_sources and_then
  with_sources-SameData [] s = (refl, refl, refl)
  with_sources-SameData (c ∷ cs) s =
      let first = listed_sources like c.name s in
      let at = listed_sources-SameData c.name s in
      elim (DbResult-cases first.1) [
        | inr (e, x) ↦ rw (x, with_sources) at
        | inl (sources, x) ↦
            let rest = with_sources like cs first.0 in
            let then_at = same_through s first.0 rest.0 at (with_sources-SameData cs first.0) in
            elim (Rpc-cases rest.1) [
              | inl (a, y) ↦ rw (x, y, with_sources) then_at
              | inr (inl (code, m, y)) ↦ rw (x, y, with_sources) then_at
              | inr (inr y) ↦ rw (x, y, with_sources) then_at
            ]
      ]

  get_project_internal-SameData :
      (name : String) (s : Service) → SameData s (get_project_internal like name s).0
  unfolding get_project_internal
  get_project_internal-SameData name s =
      let first = listed_components like name s in
      let at = listed_components-SameData name s in
      elim (DbResult-cases first.1) [
        | inr (e, x) ↦ rw (x, get_project_internal) at
        | inl (cs, x) ↦
            rw (x, get_project_internal)
              (same_through s first.0 (with_sources like cs first.0).0 at
                (with_sources-SameData cs first.0))
      ]

  dry_of :
      (input_name : String) (components : Project) (s : Service) (name : String) (old : Project)
      → validate_project "input.project" (to_lower input_name) (with_prefixes input_name components)
        ≡ replied name
      → (get_project_internal like name s).1 ≡ replied old
      → serve_put_project like input_name components true s
        ≡ apply_diff true
            (diff_project old (with_prefixes input_name components))
            (new_output name)
            (get_project_internal like name s).0
  unfolding serve_put_project
  dry_of input_name components s name old valid read =
      and_then-reply _ _ name valid ∙ and_then-reply _ _ old read

  -- What PutProject has read before it changes anything.
  ready :
      (input_name : String) (components : Project) (diff_only : Bool) (s : Service)
      (result : PutProjectOutput)
      → (serve_put_project like input_name components diff_only s).1 ≡ replied result
      → (name : String) × (old : Project) × (validate_project "input.project"
            (to_lower input_name)
            (with_prefixes input_name components)
          ≡ replied name)
        × ((get_project_internal like name s).1 ≡ replied old)
        × (serve_put_project like input_name components true s
            ≡ apply_diff true
                (diff_project old (with_prefixes input_name components))
                (new_output name)
                (get_project_internal like name s).0)
        × ((apply_diff diff_only
              (diff_project old (with_prefixes input_name components))
              (new_output name)
              (get_project_internal like name s).0).1
            ≡ replied result)
  unfolding serve_put_project and_then
  ready input_name components diff_only s result e =
      let project = with_prefixes input_name components in
      let (name, valid, next) = and_then-replied _ _ result e in
      let (old, read, applied) = and_then-replied _ _ result next in
      (name, old, valid, read, dry_of input_name components s name old valid read, applied)

  -- If PutProject succeeds, then with DiffOnly it gives the same answer, and stores, removes and tells nothing.
  pub serve_put_project_dry_run :
      (input_name : String) (components : Project) (s : Service) (result : PutProjectOutput)
      → (serve_put_project like input_name components false s).1 ≡ replied result
      → ((serve_put_project like input_name components true s).1 ≡ replied result)
        × SameData s (serve_put_project like input_name components true s).0
  serve_put_project_dry_run input_name components s result e =
      let (name, old, valid, read, dry, applied) = ready input_name components false s result e in
      let project = with_prefixes input_name components in
      let t = (get_project_internal like name s).0 in
      let diff = diff_project old project in
      let same = apply_diff_wet diff (new_output name) t result applied in
      let whole : serve_put_project like input_name components true s ≡ (t, replied result) =
        dry ∙ apply_diff_dry diff (new_output name) t ∙ ap (λ out. (t, replied out)) same in
      (ap (λ r. r.1) whole, rw whole (get_project_internal-SameData name s))
