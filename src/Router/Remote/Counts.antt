-- ===== src/Router/Remote/Counts.antt =====
-- How many handlers each URL has after `SetRemoteHandlerCounts`, pkg/router/router.go.
use Prim.Native.Nat.{min}
use maelstrom.Prelude.{
  Bool-cases, ap, ◌⊎◌, ◌&&◌, inl, inr, ℕ, zero, suc, ◌+◌, ◌-◌, ◌≡◌, refl, ◌≢◌, ◌∙◌, String, Bool,
  true, false, Option, none, some, List, [], ◌∷◌, ◌++◌, Keyed, lookup, insert, length,
  if◌then◌else◌, lookup-insert, lookup-delete, length-append, name_iff, ◌=s=◌, arith, DistinctKeys,
}
use maelstrom.Router.Remote.{
  Remotes, or_empty, handlers_of, start_handler, start_handlers, stop_handlers, set_count,
  set_counts, remove_stale, remove_entry, set_remote_handler_counts,
}

abbrev is_none {ℓ} : {A : Type ℓ} → Option A → Bool
is_none none = true
is_none (some a) = false

-- An operation on one URL leaves the entries of the others alone.
start_handlers_other :
    (n : ℕ) (url j : String) (r : Remotes)
    → url ≢ j
    → lookup j (start_handlers n url r).by_url ≡ lookup j r.by_url
unfolding start_handlers start_handler
start_handlers_other zero url j r other = refl
start_handlers_other (suc n) url j r other =
    start_handlers_other n url j (start_handler url r) other
    ∙ ground
        (arith, name_iff url j, lookup-insert url j (handlers_of url r ++ r.next_id ∷ []) r.by_url)

stop_handlers_other :
    (target : ℕ) (url j : String) (fs : List ℕ) (r : Remotes)
    → url ≢ j
    → lookup j (stop_handlers target url fs r).by_url ≡ lookup j r.by_url
unfolding stop_handlers
stop_handlers_other target url j [] r other = refl
stop_handlers_other target url j (f ∷ fs) r other = ground (
  arith,
  name_iff url j,
  lookup-insert url j fs r.by_url,
  stop_handlers_other target url j fs
      (record r { by_url = insert url fs r.by_url; cancelled = f ∷ r.cancelled }),
)

length-start_handlers :
    (n : ℕ) (url : String) (r : Remotes)
    → length (handlers_of url (start_handlers n url r)) ≡ length (handlers_of url r) + n
unfolding start_handlers start_handler
length-start_handlers zero url r = omega arith
length-start_handlers (suc n) url r = ground (
  arith,
  length-start_handlers n url (start_handler url r),
  name_iff url url,
  lookup-insert url url (handlers_of url r ++ r.next_id ∷ []) r.by_url,
  length-append (handlers_of url r) (r.next_id ∷ []),
)

length-stop_handlers :
    (target : ℕ) (url : String) (fs : List ℕ) (r : Remotes)
    → handlers_of url r ≡ fs
    → length (handlers_of url (stop_handlers target url fs r)) ≡ min target (length fs)
unfolding stop_handlers
length-stop_handlers target url [] r e = ground arith
length-stop_handlers target url (f ∷ fs) r e = ground (
  arith,
  name_iff url url,
  lookup-insert url url fs r.by_url,
  length-stop_handlers target url fs
      (record r { by_url = insert url fs r.by_url; cancelled = f ∷ r.cancelled }),
)

set_count_other :
    (valid : String → Bool) (url j : String) (target : ℕ) (r : Remotes)
    → url ≢ j
    → lookup j (set_count valid url target r).by_url ≡ lookup j r.by_url
unfolding set_count
set_count_other valid url j target r other =
    let grown =
      if valid url then start_handlers (target - length (handlers_of url r)) url r else r in
    stop_handlers_other target url j (handlers_of url grown) grown other
    ∙ ground (arith, start_handlers_other (target - length (handlers_of url r)) url j r)

length-set_count :
    (valid : String → Bool) (url : String) (target : ℕ) (r : Remotes)
    → length (handlers_of url (set_count valid url target r))
      ≡ (if valid url then target else min target (length (handlers_of url r)))
unfolding set_count
length-set_count valid url target r =
    let grown =
      if valid url then start_handlers (target - length (handlers_of url r)) url r else r in
    length-stop_handlers target url (handlers_of url grown) grown refl
    ∙ ground (arith, length-start_handlers (target - length (handlers_of url r)) url r)

set_counts_absent :
    (valid : String → Bool) (counts : Keyed ℕ) (url : String) (r : Remotes)
    → lookup url counts ≡ none
    → lookup url (set_counts valid counts r).by_url ≡ lookup url r.by_url
unfolding set_counts lookup
set_counts_absent valid [] url r absent = refl
set_counts_absent valid ((j, t) ∷ counts) url r absent =
    let s = set_count valid j t r in
    set_counts_absent valid counts url s (ground arith)
    ∙ set_count_other valid j url t r (ground (arith, name_iff j url))

length-set_counts :
    (valid : String → Bool) (counts : Keyed ℕ) (url : String) (target : ℕ) (r : Remotes)
    → DistinctKeys counts
    → lookup url counts ≡ some target
    → length (handlers_of url (set_counts valid counts r))
      ≡ (if valid url then target else min target (length (handlers_of url r)))
unfolding set_counts lookup
length-set_counts valid [] url target r distinct e = cc
length-set_counts valid ((j, t) ∷ counts) url target r distinct e =
    let s = set_count valid j t r in
    elim (Bool-cases (j =s= url)) [
      | inl same ↦
          let eq : j ≡ url = (name_iff j url).0 same in
          ap (λ o. length (or_empty o)) (set_counts_absent valid counts url s (rw eq at distinct.0))
          ∙ rw (← eq) (length-set_count valid j t r ∙ ground arith)
      | inr other ↦
          let ne : j ≢ url = ground (arith, name_iff j url) in
          length-set_counts valid counts url target s distinct.1 (ground arith)
          ∙ ground (arith, set_count_other valid j url t r ne)
    ]

lookup-remove_entry :
    (o : Option ℕ) (url j : String) (fs : List ℕ) (r : Remotes)
    → lookup j (remove_entry o url fs r).by_url
      ≡ (if is_none o && url =s= j then none else lookup j r.by_url)
unfolding remove_entry
lookup-remove_entry none url j fs r = lookup-delete url j r.by_url
lookup-remove_entry (some t) url j fs r = refl

lookup-remove_stale_kept :
    (counts : Keyed ℕ) (entries : Keyed (List ℕ)) (url : String) (target : ℕ) (r : Remotes)
    → lookup url counts ≡ some target
    → lookup url (remove_stale counts entries r).by_url ≡ lookup url r.by_url
unfolding remove_stale
lookup-remove_stale_kept counts [] url target r e = refl
lookup-remove_stale_kept counts ((j, fs) ∷ entries) url target r e =
    lookup-remove_stale_kept counts entries url target (remove_entry (lookup j counts) j fs r) e
    ∙ ground (arith, name_iff j url, lookup-remove_entry (lookup j counts) j url fs r)

lookup-remove_stale_gone :
    (counts : Keyed ℕ) (entries : Keyed (List ℕ)) (url : String) (r : Remotes)
    → lookup url counts ≡ none
    → (lookup url r.by_url ≡ none) ⊎ (lookup url entries ≢ none)
    → lookup url (remove_stale counts entries r).by_url ≡ none
unfolding remove_stale lookup
lookup-remove_stale_gone counts [] url r e h = ground arith
lookup-remove_stale_gone counts ((j, fs) ∷ entries) url r e h =
    lookup-remove_stale_gone counts entries url (remove_entry (lookup j counts) j fs r) e
      (ground (arith, name_iff j url, lookup-remove_entry (lookup j counts) j url fs r))

-- After `SetRemoteHandlerCounts` each URL of the argument that parses has exactly the asked number
-- of handlers, one that does not parse has no more than it had and no more than asked, and a URL
-- that the argument does not name has no entry.
pub set_remote_handler_counts_exact :
    (valid : String → Bool) (counts : Keyed ℕ) (r : Remotes) (url : String)
    → DistinctKeys counts
    → let s = set_remote_handler_counts valid counts r in
      ((target : ℕ)
        → lookup url counts ≡ some target
        → length (handlers_of url s)
          ≡ (if valid url then target else min target (length (handlers_of url r))))
      × (lookup url counts ≡ none → lookup url s.by_url ≡ none)
unfolding set_remote_handler_counts
set_remote_handler_counts_exact valid counts r url distinct =
    let s = set_counts valid counts r in
    (
      λ target e.
          ap (λ o. length (or_empty o)) (lookup-remove_stale_kept counts s.by_url url target s e)
          ∙ length-set_counts valid counts url target r distinct e,
      λ e. lookup-remove_stale_gone counts s.by_url url s e (ground arith),
    )
