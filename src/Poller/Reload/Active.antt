-- ===== src/Poller/Reload/Active.antt =====
-- Which roles are active after a reload, pkg/evsource/poller/evpoller.go.
use maelstrom.Prelude.{
  ◌≡◌, refl, sym, ap, ◌∙◌, String, Bool, true, false, Option, none, some, List, [], ◌∷◌, ◌++◌,
  lookup, lookup-insert, ◌=s=◌, name_iff, if◌then◌else◌, Bool-cases, Option-cases, inl, inr, arith,
  append_assoc, append_nil,
}
use maelstrom.Project.{EventSourceWithStatus}
use maelstrom.Poller.Reload.{
  World, ActiveRoles, cancel, start_role, start_roles, group_roles, start_poller_group,
  start_pollers, start_pages, is_in, cancel_invalid, reload,
}

-- The roles that the enabled event sources have.
abbrev pub source_roles : World → EventSourceWithStatus → List String
source_roles w ess =
    if ess.enabled
    then elim (w.create ess.event_source) [ none ↦ [] | some creator ↦ group_roles w creator ]
    else []

abbrev pub page_roles : World → List EventSourceWithStatus → List String
page_roles w [] = []
page_roles w (ess ∷ sources) = source_roles w ess ++ page_roles w sources

abbrev pub valid_roles : World → List (List EventSourceWithStatus) → List String
valid_roles w [] = []
valid_roles w (page ∷ pages) = page_roles w page ++ valid_roles w pages

-- What becomes of a valid role: it runs if it is acquired, and is cancelled if not.
abbrev pub kept : Bool → Option Bool → Option Bool
kept true none = some false
kept true (some c) = some c
kept false none = none
kept false (some c) = some true

-- What becomes of any role.
abbrev pub reloaded : Bool → Bool → Option Bool → Option Bool
reloaded true acquired o = kept acquired o
reloaded false acquired none = none
reloaded false acquired (some c) = some true

start_role-lookup :
    (b : Bool) (k id : String) (active : ActiveRoles)
    → lookup id (start_role b k active)
      ≡ (if k =s= id then kept b (lookup k active) else lookup id active)
unfolding start_role cancel
start_role-lookup true k id active = elim (Option-cases (lookup k active)) [
  | inl e ↦ ground (arith, e, name_iff k id, lookup-insert k id false active)
  | inr (c, e) ↦ ground (arith, e, name_iff k id)
]
start_role-lookup false k id active = elim (Option-cases (lookup k active)) [
  | inl e ↦ ground (arith, e, name_iff k id)
  | inr (c, e) ↦ ground (arith, e, name_iff k id, lookup-insert k id true active)
]

kept_twice : (b : Bool) (o : Option Bool) → kept b (kept b o) ≡ kept b o
kept_twice true none = refl
kept_twice true (some c) = refl
kept_twice false none = refl
kept_twice false (some c) = refl

start_roles-lookup :
    (acquire : String → Bool) (ids : List String) (id : String) (active : ActiveRoles)
    → lookup id (start_roles acquire ids active)
      ≡ (if is_in id ids then kept (acquire id) (lookup id active) else lookup id active)
unfolding start_roles is_in
start_roles-lookup acquire [] id active = refl
start_roles-lookup acquire (k ∷ ids) id active = ground (
  arith,
  name_iff k id,
  start_role-lookup (acquire k) k id active,
  start_roles-lookup acquire ids id (start_role (acquire k) k active),
  kept_twice (acquire id) (lookup id active),
)

start_roles-append :
    (acquire : String → Bool) (xs ys : List String) (active : ActiveRoles)
    → start_roles acquire (xs ++ ys) active ≡ start_roles acquire ys (start_roles acquire xs active)
unfolding start_roles
start_roles-append acquire [] ys active = refl
start_roles-append acquire (x ∷ xs) ys active =
    start_roles-append acquire xs ys (start_role (acquire x) x active)

-- Starting the roles of a list, and taking them for valid.
abbrev with_roles : World → List String → ActiveRoles × List String → ActiveRoles × List String
with_roles w ids (active, valid) = (start_roles w.acquire ids active, valid ++ ids)

with_roles_twice :
    (w : World) (xs ys : List String) (p : ActiveRoles × List String)
    → with_roles w ys (with_roles w xs p) ≡ with_roles w (xs ++ ys) p
with_roles_twice w xs ys (active, valid) =
    λ i. (sym (start_roles-append w.acquire xs ys active) i, append_assoc valid xs ys i)

no_roles : (w : World) (p : ActiveRoles × List String) → p ≡ with_roles w [] p
unfolding start_roles
no_roles w (active, valid) = ap (λ v. (active, v)) (sym (append_nil valid))

source_step :
    (w : World) (ess : EventSourceWithStatus) (p : ActiveRoles × List String)
    → (if ess.enabled
        then elim (w.create ess.event_source) [
          | none ↦ p
          | some creator ↦ start_poller_group w creator p
        ]
        else p)
      ≡ with_roles w (source_roles w ess) p
unfolding start_poller_group
source_step w ess p = elim (Bool-cases ess.enabled) [
  | inl on ↦ elim (Option-cases (w.create ess.event_source)) [
    | inl e ↦ rw (on, e) (no_roles w p)
    | inr (creator, e) ↦ rw (on, e) refl
  ]
  | inr off ↦ rw off (no_roles w p)
]

start_pollers-page_roles :
    (w : World) (sources : List EventSourceWithStatus) (p : ActiveRoles × List String)
    → start_pollers w sources p ≡ with_roles w (page_roles w sources) p
unfolding start_pollers
start_pollers-page_roles w [] p = no_roles w p
start_pollers-page_roles w (ess ∷ sources) p =
    ap (start_pollers w sources) (source_step w ess p)
    ∙ start_pollers-page_roles w sources (with_roles w (source_roles w ess) p)
    ∙ with_roles_twice w (source_roles w ess) (page_roles w sources) p

start_pages-valid_roles :
    (w : World) (pages : List (List EventSourceWithStatus)) (p : ActiveRoles × List String)
    → start_pages w pages p ≡ with_roles w (valid_roles w pages) p
unfolding start_pages
start_pages-valid_roles w [] p = no_roles w p
start_pages-valid_roles w (page ∷ pages) p =
    ap (start_pages w pages) (start_pollers-page_roles w page p)
    ∙ start_pages-valid_roles w pages (with_roles w (page_roles w page) p)
    ∙ with_roles_twice w (page_roles w page) (valid_roles w pages) p

cancel_invalid-lookup :
    (valid : List String) (id : String) (active : ActiveRoles)
    → lookup id (cancel_invalid valid active) ≡ (
        if is_in id valid
        then lookup id active
        else elim (lookup id active) [ none ↦ none | some c ↦ some true ])
unfolding cancel_invalid lookup
cancel_invalid-lookup valid id [] = ground arith
cancel_invalid-lookup valid id ((k, c) ∷ active) =
    ground (arith, name_iff k id, cancel_invalid-lookup valid id active)

-- After a reload that reads all event sources, a role of an enabled event source with pollers is active if it is
-- acquired, as it was if it was active before and else with a new poller, and is cancelled if it is not acquired;
-- every other active role is cancelled. The roles are those that the concurrency of the event source is divided
-- into, and AcquireOrRenewRole answers alike for one role during one reload.
pub reload-reloaded :
    (w : World) (pages : List (List EventSourceWithStatus)) (active : ActiveRoles) (id : String)
    → lookup id (reload w pages false active)
      ≡ reloaded (is_in id (valid_roles w pages)) (w.acquire id) (lookup id active)
unfolding reload
reload-reloaded w pages active id =
    let valid = valid_roles w pages in
    let started = start_roles w.acquire valid active in
    let same : reload w pages false active ≡ cancel_invalid valid started =
      ap (λ (p : ActiveRoles × List String). cancel_invalid p.1 p.0)
        (start_pages-valid_roles w pages (active, [])) in
    ap (lookup id) same
    ∙ ground (
      arith,
      cancel_invalid-lookup valid id started,
      start_roles-lookup w.acquire valid id active,
    )
