-- ===== src/Pruner.antt =====
-- Which Docker images a node removes, pkg/maelstrom/pruner.go, with GlobMatches of pkg/common/string.go.
pub mod Globs
pub mod Kept
mod Examples
use Prim.Native.String.{len, slice}
use text.Mathlib.Text.{starts_with}
use maelstrom.Prelude.{
  ◌-◌, String, Bool, true, false, ◌&&◌, ◌||◌, not, Option, none, some, List, [], ◌∷◌, ◌++◌, ltb,
  ◌=s=◌, if◌then◌else◌,
}
use maelstrom.V1.{Component}
use maelstrom.MaelService.Names.{trim_space}

-- `strings.HasSuffix`
pub ends_with : String → String → Bool
ends_with String.[] t = "" =s= t
ends_with (String.◌∷◌ c s) t =
    let rest = ends_with s t in if String.◌∷◌ c s =s= t then true else rest

-- `strings.Contains`
pub contains : String → String → Bool
contains String.[] t = starts_with "" t
contains (String.◌∷◌ c s) t =
    let rest = contains s t in if starts_with (String.◌∷◌ c s) t then true else rest

pub glob_matches : String → String → Bool
unfolding ends_with contains
glob_matches glob target =
    if glob =s= "*" || glob =s= target
    then true
    else if starts_with glob "*" && ends_with glob "*"
    then contains target (slice glob 1 (len glob - 1))
    else if starts_with glob "*"
    then ends_with target (slice glob 1 (len glob))
    else if ends_with glob "*"
    then starts_with target (slice glob 0 (len glob - 1))
    else false

pub page_images : List Component → List String
page_images [] = []
page_images (c ∷ cs) = c.docker.image ∷ page_images cs

-- The pages of ListComponents up to the last one.
pub component_images : List (List Component) → List String
unfolding page_images
component_images [] = []
component_images (page ∷ pages) = page_images page ++ component_images pages

-- The images are looked up in a map.
pub is_name_in : String → List String → Bool
is_name_in name [] = false
is_name_in name (other ∷ names) =
    let rest = is_name_in name names in if other =s= name then true else rest

pub any_rule : List String → String → Bool
unfolding glob_matches
any_rule [] tag = false
any_rule (rule ∷ rules) tag =
    let rest = any_rule rules tag in if glob_matches (trim_space rule) tag then true else rest

pub keep_image : List String → List String → String → Bool
unfolding is_name_in any_rule
keep_image rules names tag = if is_name_in tag names then true else any_rule rules tag

-- `types.ImageSummary`
pub record Image : Type 0 where
  pub id : String
  pub repo_tags : List String

any_tag_kept : List String → List String → List String → Bool
unfolding keep_image
any_tag_kept rules names [] = false
any_tag_kept rules names (tag ∷ tags) =
    let rest = any_tag_kept rules names tags in if keep_image rules names tag then true else rest

unused_images : List String → List String → List String → List Image → List String
unfolding any_tag_kept
unused_images rules names running [] = []
unused_images rules names running (img ∷ images) =
    let rest = unused_images rules names running images in
    if not (is_name_in img.id running) && not (any_tag_kept rules names img.repo_tags)
    then img.id ∷ rest
    else rest

-- `none` stands for an error: of the list of components, of the containers, whose image ids are given, and of
-- the images.
pub image_ids_to_delete :
    List String
    → Option (List (List Component))
    → Option (List String)
    → Option (List Image)
    → Option (List String)
unfolding component_images unused_images
image_ids_to_delete rules none containers images = none
image_ids_to_delete rules (some pages) none images = none
image_ids_to_delete rules (some pages) (some running) none = none
image_ids_to_delete rules (some pages) (some running) (some images) =
    some (unused_images rules (component_images pages) running images)

-- The images that Docker is asked to remove, before it prunes on its own.
pub run_once : Bool → Option (List String) → List String
run_once false to_delete = []
run_once true none = []
run_once true (some ids) = ids
