-- ===== src/Placement/Best/Sorting.antt =====
-- What the orders of pkg/maelstrom/sort.go keep: sorting the targets of an option changes neither
-- its counts nor its memory.
use maelstrom.Prelude.{
  ◌≡◌, refl, sym, ap, ◌∙◌, String, Bool, true, List, [], ◌∷◌, Memᴰ, Memᴰ-cons, name_iff, Bool-cases,
  inl, inr, ◌=s=◌, if◌then◌else◌, arith,
}
use maelstrom.Prelude.Int.{ℤ, ◌+ℤ◌, ◌*ℤ◌, +ℤ_comm, +ℤ_assoc}
use maelstrom.V1.{ComponentInfo, ComponentTarget}
use maelstrom.Placement.{
  PlacementOption, count_in, count_running, container_count_by_component, own_count, has_target,
  ram_of_targets, ram_of_running, ram_used,
}
use maelstrom.Placement.Counts.{count_of, count_targets-own_count}
use maelstrom.Placement.Best.{insert_sorted, sort, component_target_less, with_sorted_targets}

module _ {A : Type 0} (less : A → A → Bool) where
  past : (x y z : A) (ys : List A) → Memᴰ x (y ∷ ys) → Memᴰ x (y ∷ (z ∷ ys))
  past x y z ys (Memᴰ.head e) = Memᴰ.head e
  past x y z ys (Memᴰ.tail m) = Memᴰ.tail (Memᴰ.tail m)

  insert_sorted-Memᴰ : (x y : A) (ys : List A) → Memᴰ x (insert_sorted less y ys) → Memᴰ x (y ∷ ys)
  unfolding insert_sorted
  insert_sorted-Memᴰ x y [] m = m
  insert_sorted-Memᴰ x y (z ∷ ys) m = elim (Bool-cases (less z y)) [
    | inl e ↦ elim (Memᴰ-cons (rw e at m)) [
      | inl f ↦ Memᴰ.tail (Memᴰ.head f)
      | inr n ↦ past x y z ys (insert_sorted-Memᴰ x y ys n)
    ]
    | inr e ↦ rw e at m
  ]

  pub sort-Memᴰ : (x : A) (ys : List A) → Memᴰ x (sort less ys) → Memᴰ x ys
  unfolding sort
  sort-Memᴰ x [] m = m
  sort-Memᴰ x (y ∷ ys) m = elim (Memᴰ-cons (insert_sorted-Memᴰ x y (sort less ys) m)) [
    | inl f ↦ Memᴰ.head f
    | inr n ↦ Memᴰ.tail (sort-Memᴰ x ys n)
  ]

module _ {A : Type 0} (less : A → A → Bool) where
  insert_sorted-keeps : (x y : A) (ys : List A) → Memᴰ x (y ∷ ys) → Memᴰ x (insert_sorted less y ys)
  unfolding insert_sorted
  insert_sorted-keeps x y [] m = m
  insert_sorted-keeps x y (z ∷ ys) m = elim (Bool-cases (less z y)) [
    | inl e ↦ rw e (elim (Memᴰ-cons m) [
      | inl f ↦ Memᴰ.tail (insert_sorted-keeps x y ys (Memᴰ.head f))
      | inr n ↦ elim (Memᴰ-cons n) [
        | inl g ↦ Memᴰ.head g
        | inr o ↦ Memᴰ.tail (insert_sorted-keeps x y ys (Memᴰ.tail o))
      ]
    ])
    | inr e ↦ rw e m
  ]

  pub sort-keeps : (x : A) (ys : List A) → Memᴰ x ys → Memᴰ x (sort less ys)
  unfolding sort
  sort-keeps x [] m = m
  sort-keeps x (y ∷ ys) m =
      insert_sorted-keeps x y (sort less ys)
        (elim (Memᴰ-cons m) [ inl e ↦ Memᴰ.head e | inr n ↦ Memᴰ.tail (sort-keeps x ys n) ])

insert_sorted-ram_of_targets :
    (x : ComponentTarget) (ys : List ComponentTarget)
    → ram_of_targets (insert_sorted component_target_less x ys) ≡ ram_of_targets (x ∷ ys)
unfolding insert_sorted ram_of_targets
insert_sorted-ram_of_targets x [] = refl
insert_sorted-ram_of_targets x (y ∷ ys) = elim (Bool-cases (component_target_less y x)) [
  | inl e ↦
      let at_x = x.target_count *ℤ x.required_memory_mib in
      let at_y = y.target_count *ℤ y.required_memory_mib in
      rw e (
        ap (λ r. at_y +ℤ r) (insert_sorted-ram_of_targets x ys)
        ∙ +ℤ_assoc at_y at_x (ram_of_targets ys)
        ∙ ap (λ s. s +ℤ ram_of_targets ys) (+ℤ_comm at_y at_x)
        ∙ sym (+ℤ_assoc at_x at_y (ram_of_targets ys)))
  | inr e ↦ rw e refl
]

insert_sorted-has_target :
    (k : String) (x : ComponentTarget) (ys : List ComponentTarget)
    → has_target k (insert_sorted component_target_less x ys) ≡ has_target k (x ∷ ys)
unfolding insert_sorted has_target
insert_sorted-has_target k x [] = refl
insert_sorted-has_target k x (y ∷ ys) = ground (arith, insert_sorted-has_target k x ys)

-- A target goes before those of its own name.
insert_sorted-own_count :
    (k : String) (x : ComponentTarget) (ys : List ComponentTarget) (c : ℤ)
    → own_count k (insert_sorted component_target_less x ys) c ≡ own_count k (x ∷ ys) c
unfolding insert_sorted own_count
insert_sorted-own_count k x [] c = refl
insert_sorted-own_count k x (y ∷ ys) c = elim (Bool-cases (component_target_less y x)) [
  | inl e ↦ rw e (
      insert_sorted-own_count k x ys (if y.component_name =s= k then y.target_count else c)
      ∙ ap (own_count k ys) (
          ground (
            arith,
            e,
            name_iff y.component_name k,
            name_iff x.component_name k,
            name_iff y.component_name x.component_name,
          )))
  | inr e ↦ rw e refl
]

module _ (k : String) where
  sort-own_count :
      (xs : List ComponentTarget) (c : ℤ)
      → own_count k (sort component_target_less xs) c ≡ own_count k xs c
  unfolding sort own_count
  sort-own_count [] c = refl
  sort-own_count (x ∷ xs) c =
      insert_sorted-own_count k x (sort component_target_less xs) c
      ∙ sort-own_count xs (if x.component_name =s= k then x.target_count else c)

  sort-has_target :
      (xs : List ComponentTarget) → has_target k (sort component_target_less xs) ≡ has_target k xs
  unfolding sort has_target
  sort-has_target [] = refl
  sort-has_target (x ∷ xs) =
      insert_sorted-has_target k x (sort component_target_less xs)
      ∙ ap (λ b. if x.component_name =s= k then true else b) (sort-has_target xs)

sort-ram_of_targets :
    (xs : List ComponentTarget) → ram_of_targets (sort component_target_less xs) ≡ ram_of_targets xs
unfolding sort ram_of_targets
sort-ram_of_targets [] = refl
sort-ram_of_targets (x ∷ xs) =
    insert_sorted-ram_of_targets x (sort component_target_less xs)
    ∙ ap (λ r. (x.target_count *ℤ x.required_memory_mib) +ℤ r) (sort-ram_of_targets xs)

sort-ram_of_running :
    (xs : List ComponentTarget) (infos : List ComponentInfo)
    → ram_of_running (sort component_target_less xs) infos ≡ ram_of_running xs infos
unfolding ram_of_running
sort-ram_of_running xs [] = refl
sort-ram_of_running xs (ci ∷ infos) =
    ground (arith, sort-has_target ci.component_name xs, sort-ram_of_running xs infos)

pub with_sorted_targets-ram_used :
    (p : PlacementOption) → ram_used (with_sorted_targets p) ≡ ram_used p
unfolding ram_used with_sorted_targets
with_sorted_targets-ram_used p =
    ap
      (λ t.
        t
        +ℤ ram_of_running (sort component_target_less p.input.target_counts)
            p.target_node.running_components)
      (sort-ram_of_targets p.input.target_counts)
    ∙ ap (λ r. ram_of_targets p.input.target_counts +ℤ r)
        (sort-ram_of_running p.input.target_counts p.target_node.running_components)

pub with_sorted_targets-count_of :
    (k : String) (p : PlacementOption) → count_of k (with_sorted_targets p) ≡ count_of k p
unfolding with_sorted_targets container_count_by_component
with_sorted_targets-count_of k p =
    let m = count_running p.target_node.running_components [] in
    count_targets-own_count k (sort component_target_less p.input.target_counts) m
    ∙ sort-own_count k p.input.target_counts (count_in k m)
    ∙ sym (count_targets-own_count k p.input.target_counts m)
