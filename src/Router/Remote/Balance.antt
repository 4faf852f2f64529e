-- ===== src/Router/Remote/Balance.antt =====
-- No remote handler is lost: `SetRemoteHandlerCounts` of pkg/router/router.go cancels exactly the
-- handlers that leave the map.
use maelstrom.Prelude.{
  ◌≤◌, ap, Bool-cases, inl, inr, All, ℕ, zero, suc, ◌+◌, ◌-◌, ◌≡◌, refl, String, Bool, Option, none,
  some, List, [], ◌∷◌, ◌++◌, Keyed, lookup, insert, delete, length, ltb, leb, ◌&&◌, if◌then◌else◌,
  lookup-insert, lookup-delete, name_iff, ◌==◌, arith, DistinctKeys, insert-DistinctKeys,
  delete-DistinctKeys, delete_absent,
}
use maelstrom.Router.Remote.{
  Remotes, or_empty, handlers_of, start_handler, start_handlers, stop_handlers, set_count,
  set_counts, remove_stale, remove_entry, cancel_all, set_remote_handler_counts,
}

-- How often `id` stands in a list, and in the lists of a map.
abbrev pub occurs : ℕ → List ℕ → ℕ
occurs id [] = 0
occurs id (x ∷ xs) = (if x == id then 1 else 0) + occurs id xs

abbrev pub occurs_in : ℕ → Keyed (List ℕ) → ℕ
occurs_in id [] = 0
occurs_in id ((url, fs) ∷ m) = occurs id fs + occurs_in id m

occurs-append : (id : ℕ) (xs ys : List ℕ) → occurs id (xs ++ ys) ≡ occurs id xs + occurs id ys
occurs-append id [] ys = omega arith
occurs-append id (x ∷ xs) ys = omega (arith, occurs-append id xs ys)

occurs_in-insert :
    (id : ℕ) (url : String) (fs : List ℕ) (m : Keyed (List ℕ))
    → occurs_in id (insert url fs m) + occurs id (or_empty (lookup url m))
      ≡ occurs_in id m + occurs id fs
unfolding insert lookup
occurs_in-insert id url fs [] = omega arith
occurs_in-insert id url fs ((j, gs) ∷ m) = ground (arith, occurs_in-insert id url fs m)

occurs_in-delete :
    (id : ℕ) (url : String) (m : Keyed (List ℕ))
    → DistinctKeys m
    → occurs_in id (delete url m) + occurs id (or_empty (lookup url m)) ≡ occurs_in id m
unfolding delete lookup
occurs_in-delete id url [] d = refl
occurs_in-delete id url ((j, gs) ∷ m) d =
    ground (arith, name_iff j url, occurs_in-delete id url m, delete_absent url m)

occurs-cancel_all :
    (id : ℕ) (fs cancelled : List ℕ)
    → occurs id (cancel_all fs cancelled) ≡ occurs id fs + occurs id cancelled
unfolding cancel_all
occurs-cancel_all id [] cancelled = omega arith
occurs-cancel_all id (f ∷ fs) cancelled = omega (arith, occurs-cancel_all id fs (f ∷ cancelled))

-- How often a handler is accounted for, as running or as cancelled.
abbrev pub accounted : ℕ → Remotes → ℕ
accounted id r = occurs_in id r.by_url + occurs id r.cancelled

-- 1 for a handler that was started between two states.
abbrev pub started : ℕ → Remotes → Remotes → ℕ
started id r s = if leb r.next_id id && ltb id s.next_id then 1 else 0

record Balanced (r s : Remotes) : Type 0 where
  distinct : DistinctKeys s.by_url
  forward : r.next_id ≤ s.next_id
  accounts : (id : ℕ) → accounted id s ≡ accounted id r + started id r s

Balanced-trans : {r s t : Remotes} → Balanced r s → Balanced s t → Balanced r t
Balanced-trans b c = record {
  distinct = c.distinct;
  forward = omega (arith, b.forward, c.forward);
  accounts = λ id. ground (arith, b.accounts id, c.accounts id, b.forward, c.forward);
}

Balanced-refl : (r : Remotes) → DistinctKeys r.by_url → Balanced r r
Balanced-refl r d = record { distinct = d; forward = omega arith; accounts = λ id. ground arith }

start_handlers-Balanced :
    (n : ℕ) (url : String) (r : Remotes)
    → DistinctKeys r.by_url
    → Balanced r (start_handlers n url r)
unfolding start_handlers start_handler
start_handlers-Balanced zero url r d = Balanced-refl r d
start_handlers-Balanced (suc n) url r d =
    let fs = handlers_of url r ++ r.next_id ∷ [] in
    let distinct = insert-DistinctKeys url fs r.by_url d in
    Balanced-trans
      (record {
        distinct = distinct;
        forward = omega arith;
        accounts = λ id. ground (
          arith,
          occurs_in-insert id url fs r.by_url,
          occurs-append id (handlers_of url r) (r.next_id ∷ []),
        );
      })
      (start_handlers-Balanced n url (start_handler url r) distinct)

stop_handlers-Balanced :
    (target : ℕ) (url : String) (fs : List ℕ) (r : Remotes)
    → handlers_of url r ≡ fs
    → DistinctKeys r.by_url
    → Balanced r (stop_handlers target url fs r)
unfolding stop_handlers
stop_handlers-Balanced target url [] r e d = record {
  distinct = d;
  forward = omega arith;
  accounts = λ id. ground arith;
}
stop_handlers-Balanced target url (f ∷ fs) r e d =
    let s = record r { by_url = insert url fs r.by_url; cancelled = f ∷ r.cancelled } in
    let distinct = insert-DistinctKeys url fs r.by_url d in
    let once : Balanced r s = record {
      distinct = distinct;
      forward = omega arith;
      accounts = λ id. ground (arith, ap (occurs id) e, occurs_in-insert id url fs r.by_url);
    } in
    let rest = Balanced-trans once (
      stop_handlers-Balanced target url fs s
        (ground (arith, name_iff url url, lookup-insert url url fs r.by_url)) distinct) in
    ground (arith, rest)

set_count-Balanced :
    (valid : String → Bool) (url : String) (target : ℕ) (r : Remotes)
    → DistinctKeys r.by_url
    → Balanced r (set_count valid url target r)
unfolding set_count
set_count-Balanced valid url target r d = elim (Bool-cases (valid url)) [
  | inl good ↦
      let grow = start_handlers-Balanced (target - length (handlers_of url r)) url r d in
      rw good (Balanced-trans grow (stop_handlers-Balanced target url _ _ refl grow.distinct))
  | inr bad ↦ rw bad (stop_handlers-Balanced target url _ r refl d)
]

set_counts-Balanced :
    (valid : String → Bool) (counts : Keyed ℕ) (r : Remotes)
    → DistinctKeys r.by_url
    → Balanced r (set_counts valid counts r)
unfolding set_counts
set_counts-Balanced valid [] r d = Balanced-refl r d
set_counts-Balanced valid ((url, target) ∷ counts) r d =
    let first = set_count-Balanced valid url target r d in
    Balanced-trans first (set_counts-Balanced valid counts _ first.distinct)

-- The entries that the second loop has still to visit are those of the map.
abbrev Agree : Keyed (List ℕ) → Keyed (List ℕ) → Type 0
Agree entries m = All (λ e. lookup e.0 m ≡ some e.1) entries

Agree-delete :
    (url : String) (entries m : Keyed (List ℕ))
    → lookup url entries ≡ none
    → Agree entries m
    → Agree entries (delete url m)
unfolding lookup
Agree-delete url [] m absent a = tt
Agree-delete url ((j, fs) ∷ entries) m absent a =
    ground
      (arith, name_iff url j, name_iff j url, lookup-delete url j m, Agree-delete url entries m)

Agree-cons :
    (url : String) (fs : List ℕ) (entries m : Keyed (List ℕ))
    → lookup url entries ≡ none
    → Agree entries m
    → Agree entries ((url, fs) ∷ m)
unfolding lookup
Agree-cons url fs [] m absent a = tt
Agree-cons url fs ((j, gs) ∷ entries) m absent a =
    ground (arith, name_iff url j, name_iff j url, Agree-cons url fs entries m)

Agree-self : (m : Keyed (List ℕ)) → DistinctKeys m → Agree m m
unfolding lookup
Agree-self [] d = tt
Agree-self ((url, fs) ∷ m) d =
    (ground (arith, name_iff url url), Agree-cons url fs m m d.0 (Agree-self m d.1))

remove_entry-Balanced :
    (o : Option ℕ) (url : String) (fs : List ℕ) (r : Remotes)
    → DistinctKeys r.by_url
    → lookup url r.by_url ≡ some fs
    → Balanced r (remove_entry o url fs r)
unfolding remove_entry
remove_entry-Balanced none url fs r d e = record {
  distinct = delete-DistinctKeys url r.by_url d;
  forward = omega arith;
  accounts = λ id. ground (
    arith,
    ap (λ o. occurs id (or_empty o)) e,
    occurs_in-delete id url r.by_url d,
    occurs-cancel_all id fs r.cancelled,
  );
}
remove_entry-Balanced (some t) url fs r d e = Balanced-refl r d

remove_entry-Agree :
    (o : Option ℕ) (url : String) (fs : List ℕ) (entries : Keyed (List ℕ)) (r : Remotes)
    → lookup url entries ≡ none
    → Agree entries r.by_url
    → Agree entries (remove_entry o url fs r).by_url
unfolding remove_entry
remove_entry-Agree none url fs entries r absent a = Agree-delete url entries r.by_url absent a
remove_entry-Agree (some t) url fs entries r absent a = a

remove_stale-Balanced :
    (counts : Keyed ℕ) (entries : Keyed (List ℕ)) (r : Remotes)
    → DistinctKeys r.by_url
    → DistinctKeys entries
    → Agree entries r.by_url
    → Balanced r (remove_stale counts entries r)
unfolding remove_stale
remove_stale-Balanced counts [] r d de a = Balanced-refl r d
remove_stale-Balanced counts ((url, fs) ∷ entries) r d de a =
    let first = remove_entry-Balanced (lookup url counts) url fs r d a.0 in
    Balanced-trans first (
      remove_stale-Balanced counts entries _ first.distinct de.1
        (remove_entry-Agree (lookup url counts) url fs entries r de.0 a.1))

-- `SetRemoteHandlerCounts` keeps account of every handler: one that was running still runs or has
-- been cancelled, once for each time; one that it starts runs or has been cancelled, once; and no
-- other handler appears in the map or is cancelled.
pub set_remote_handler_counts_balance :
    (valid : String → Bool) (counts : Keyed ℕ) (r : Remotes) (id : ℕ)
    → DistinctKeys r.by_url
    → let s = set_remote_handler_counts valid counts r in
      accounted id s ≡ accounted id r + started id r s
unfolding set_remote_handler_counts
set_remote_handler_counts_balance valid counts r id d =
    let first = set_counts-Balanced valid counts r d in
    let s = set_counts valid counts r in
    (Balanced-trans first (
        remove_stale-Balanced counts s.by_url s first.distinct first.distinct
          (Agree-self s.by_url first.distinct))).accounts
      id
