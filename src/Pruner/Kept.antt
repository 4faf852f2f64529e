-- ===== src/Pruner/Kept.antt =====
-- The images that the pruner keeps, pkg/maelstrom/pruner.go.
use maelstrom.Prelude.{
  ◌≡◌, refl, String, Bool, true, false, ◌&&◌, not, ◌≢◌, ◌=s=◌, name_iff, All-append_parts, some,
  List, [], ◌∷◌, Memᴰ, All, if-cases, sym, Memᴰ-cons, Bool-cases, inl, inr, arith,
}
use maelstrom.V1.{Component}
use maelstrom.Pruner.Globs.{Names, Names-glob_matches}
use maelstrom.MaelService.Names.{trim_space}
use maelstrom.Pruner.{
  Image, glob_matches, page_images, component_images, is_name_in, any_rule, keep_image,
  any_tag_kept, unused_images, image_ids_to_delete, run_once,
}

-- A tag that is the image of no component of any page and that no rule names.
abbrev pub IsUnwanted : List String → List (List Component) → String → Type 0
IsUnwanted rules pages tag =
    All (All (λ (c : Component). c.docker.image ≢ tag)) pages
    × All (λ rule. ¬ Names (trim_space rule) tag) rules

-- An id of an image that no container runs and all of whose tags are unwanted.
abbrev pub IsUnused :
    List String → List (List Component) → List String → List Image → String → Type 0
IsUnused rules pages running images id =
    (img : Image) × Memᴰ img images
    × (img.id ≡ id)
    × All (λ other. other ≢ img.id) running
    × All (IsUnwanted rules pages) img.repo_tags

is_name_in-other :
    (name : String) (names : List String)
    → is_name_in name names ≡ false
    → All (λ other. other ≢ name) names
unfolding is_name_in
is_name_in-other name [] e = tt
is_name_in-other name (other ∷ names) e = elim (Bool-cases (other =s= name)) [
  | inl x ↦ ground (arith, x, e)
  | inr x ↦ (
    λ same. ground (arith, x, (name_iff other name).1 same),
    is_name_in-other name names (ground (arith, x, e)),
  )
]

module _ (tag : String) where
  page_images-other :
      (page : List Component)
      → All (λ other. other ≢ tag) (page_images page)
      → All (λ (c : Component). c.docker.image ≢ tag) page
  unfolding page_images
  page_images-other [] h = tt
  page_images-other (c ∷ page) h = (h.0, page_images-other page h.1)

  component_images-other :
      (pages : List (List Component))
      → All (λ other. other ≢ tag) (component_images pages)
      → All (All (λ (c : Component). c.docker.image ≢ tag)) pages
  unfolding component_images
  component_images-other [] h = tt
  component_images-other (page ∷ pages) h =
      let (first, rest) =
        All-append_parts (λ other. other ≢ tag) (page_images page) (component_images pages) h in
      (page_images-other page first, component_images-other pages rest)

any_rule-All :
    (rules : List String) (tag : String)
    → any_rule rules tag ≡ false
    → All (λ rule. ¬ Names (trim_space rule) tag) rules
unfolding any_rule
any_rule-All [] tag e = tt
any_rule-All (rule ∷ rules) tag e = elim (Bool-cases (glob_matches (trim_space rule) tag)) [
  | inl x ↦ ground (arith, x, e)
  | inr x ↦ (
    λ named. ground (arith, x, Names-glob_matches (trim_space rule) tag named),
    any_rule-All rules tag (ground (arith, x, e)),
  )
]

keep_image-IsUnwanted :
    (rules : List String) (pages : List (List Component)) (tag : String)
    → keep_image rules (component_images pages) tag ≡ false
    → IsUnwanted rules pages tag
unfolding keep_image
keep_image-IsUnwanted rules pages tag e =
    let names = component_images pages in
    elim (Bool-cases (is_name_in tag names)) [
      | inl x ↦ ground (arith, x, e)
      | inr x ↦ (
        component_images-other tag pages (is_name_in-other tag names x),
        any_rule-All rules tag (ground (arith, x, e)),
      )
    ]

any_tag_kept-All :
    (rules : List String) (pages : List (List Component)) (tags : List String)
    → any_tag_kept rules (component_images pages) tags ≡ false
    → All (IsUnwanted rules pages) tags
unfolding any_tag_kept
any_tag_kept-All rules pages [] e = tt
any_tag_kept-All rules pages (tag ∷ tags) e =
    elim (Bool-cases (keep_image rules (component_images pages) tag)) [
      | inl x ↦ ground (arith, x, e)
      | inr x ↦ (
        keep_image-IsUnwanted rules pages tag x,
        any_tag_kept-All rules pages tags (ground (arith, x, e)),
      )
    ]

unused_images-IsUnused :
    (rules running : List String) (pages : List (List Component)) (images : List Image)
    (id : String)
    → Memᴰ id (unused_images rules (component_images pages) running images)
    → IsUnused rules pages running images id
unfolding unused_images
unused_images-IsUnused rules running pages [] id m = elim m [ ]
unused_images-IsUnused rules running pages (img ∷ images) id m =
    let later : Memᴰ id (unused_images rules (component_images pages) running images)
        → IsUnused rules pages running (img ∷ images) id =
      λ t.
        let (found, member, same, unused, unwanted) =
          unused_images-IsUnused rules running pages images id t in
        (found, Memᴰ.tail member, same, unused, unwanted) in
    let is_running = is_name_in img.id running in
    let is_kept = any_tag_kept rules (component_images pages) img.repo_tags in
    if-cases (λ (ids : List String). Memᴰ id ids → IsUnused rules pages running (img ∷ images) id)
      (not is_running && not is_kept)
      (λ on found.
        let idle : is_running ≡ false = ground (arith, on) in
        let unwanted : is_kept ≡ false = ground (arith, on) in
        elim (Memᴰ-cons {x = id} {y = img.id}
          {ys = unused_images rules (component_images pages) running images} found) [
            | inr t ↦ later t
            | inl same ↦ (
              img,
              Memᴰ.head refl,
              sym same,
              is_name_in-other img.id running idle,
              any_tag_kept-All rules pages img.repo_tags unwanted,
            )
          ])
      (λ off. later) m

-- An image that Docker is asked to remove is one of the listed images, no container runs it, and each of its tags is,
-- letter by letter, the image of no component of any page, and no rule of what to keep, with the spaces around it
-- taken off, names the tag: the rule is not a star, is not the tag, and is not how the tag begins, followed by a
-- star, or how it ends, after a star, or a part of it between two stars.
pub run_once-IsUnused :
    (prune : Bool) (rules running : List String) (pages : List (List Component))
    (images : List Image) (id : String)
    → Memᴰ id (run_once prune (image_ids_to_delete rules (some pages) (some running) (some images)))
    → IsUnused rules pages running images id
unfolding run_once image_ids_to_delete
run_once-IsUnused false rules running pages images id m = elim m [ ]
run_once-IsUnused true rules running pages images id m =
    unused_images-IsUnused rules running pages images id m
