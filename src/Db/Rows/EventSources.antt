-- ===== src/Db/Rows/EventSources.antt =====
-- Event sources in the database, pkg/db/sql_db.go: PutEventSource leaves the enabled column to
-- SetEventSourcesEnabled.
use maelstrom.Prelude.{
  ◌≡◌, refl, String, Bool, true, false, Option, none, some, List, [], ◌∷◌, Keyed, lookup, insert,
  name_iff, Bool-cases, Memᴰ, ap, sym, ◌=s=◌, if◌then◌else◌, Option-cases, inl, inr, arith,
}
use maelstrom.Prelude.Int.{ℤ, pos, ◌+ℤ◌, ◌==ℤ◌, ◌≤ℤ◌}
use maelstrom.V1.{EventSource, get_event_source_type}
use maelstrom.Db.Rows.{
  Faults, EventSourceRow, ok, err, no_faults, already_exists, incorrect_previous_version,
  insert_row, update_row, updated_row, update_where, with_value, one_of, put_event_source,
  set_event_sources_enabled,
}

abbrev pub current_event_source_version : String → Keyed EventSourceRow → ℤ
current_event_source_version name t = elim (lookup name t) [ none ↦ pos 0 | some row ↦ row.version ]

abbrev pub next_event_source : ℤ → EventSource → EventSource
next_event_source now e = record e { version = e.version +ℤ pos 1; modified_at = now }

abbrev pub next_event_source_row : ℤ → EventSource → String → Option EventSourceRow → EventSourceRow
next_event_source_row now e kind none = record {
  component_name = e.component_name;
  project_name = e.project_name;
  event_type = kind;
  version = pos 1;
  created_at = now;
  modified_at = now;
  enabled = true;
  json = next_event_source now e;
}
next_event_source_row now e kind (some old) = record old {
  modified_at = now;
  component_name = e.component_name;
  event_type = kind;
  json = next_event_source now e;
  version = e.version +ℤ pos 1;
}

abbrev pub IsVersionedEventSource : Keyed EventSourceRow → Type 0
IsVersionedEventSource t =
    (name : String) (row : EventSourceRow) → lookup name t ≡ some row → pos 1 ≤ℤ row.version

put_of_kind :
    (now : ℤ) (e : EventSource) (kind : String) (t : Keyed EventSourceRow)
    → IsVersionedEventSource t
    → get_event_source_type (next_event_source now e) ≡ some kind
    → put_event_source no_faults now e t
      ≡ some (
          if current_event_source_version e.name t ==ℤ e.version
          then (
            insert e.name (next_event_source_row now e kind (lookup e.name t)) t,
            ok (e.version +ℤ pos 1),
          )
          else (
            t,
            err (if e.version ==ℤ pos 0 then already_exists else incorrect_previous_version),
          ))
unfolding put_event_source insert_row update_row updated_row with_value
put_of_kind now e kind t versioned is_kind = elim (Option-cases (lookup e.name t)) [
  | inl found ↦ ground (arith, found, is_kind)
  | inr (row, found) ↦ ground (arith, found, is_kind, versioned e.name row found)
]

-- Where no statement fails, all stored versions are at least 1 and the event source has a kind,
-- PutEventSource is a compare-and-set on the version, 0 standing for no row: it writes the row
-- exactly if the event source's version is the current one. A new row is enabled, and a row that is
-- there keeps its enabled column.
pub put_event_source_compare_and_set :
    (now : ℤ) (e : EventSource) (kind : String) (t : Keyed EventSourceRow)
    → IsVersionedEventSource t
    → get_event_source_type (next_event_source now e) ≡ some kind
    → (put_event_source no_faults now e t
        ≡ some (
            if current_event_source_version e.name t ==ℤ e.version
            then (
              insert e.name (next_event_source_row now e kind (lookup e.name t)) t,
              ok (e.version +ℤ pos 1),
            )
            else (
              t,
              err (if e.version ==ℤ pos 0 then already_exists else incorrect_previous_version),
            )))
      × ((next_event_source_row now e kind (lookup e.name t)).enabled
          ≡ elim (lookup e.name t) [ none ↦ true | some row ↦ row.enabled ])
put_event_source_compare_and_set now e kind t versioned is_kind = (
  put_of_kind now e kind t versioned is_kind,
  elim (Option-cases (lookup e.name t)) [
    | inl found ↦ rw found refl
    | inr (row, found) ↦ rw found refl
  ],
)

update_where-lookup :
    (p : String → Bool) (change : EventSourceRow → EventSourceRow) (k : String)
    (t : Keyed EventSourceRow)
    → lookup k (update_where p change t).0
      ≡ elim (lookup k t) [ none ↦ none | some row ↦ some (if p k then change row else row) ]
unfolding update_where lookup
update_where-lookup p change k [] = refl
update_where-lookup p change k ((j, row) ∷ t) = elim (Bool-cases (j =s= k)) [
  | inl same ↦ ground (arith, same, ap p ((name_iff j k).0 same))
  | inr other ↦ ground (arith, other, update_where-lookup p change k t)
]

one_of-in : (names : List String) (k : String) → Memᴰ k names → one_of names k ≡ true
unfolding one_of
one_of-in [] k m = elim m [ ]
one_of-in (n ∷ ns) k (Memᴰ.head e) = ground (arith, e, name_iff n k)
one_of-in (n ∷ ns) k (Memᴰ.tail m) = ground (arith, one_of-in ns k m)

one_of-out : (names : List String) (k : String) → ¬ Memᴰ k names → one_of names k ≡ false
unfolding one_of
one_of-out [] k out = refl
one_of-out (n ∷ ns) k out = elim (Bool-cases (n =s= k)) [
  | inl same ↦ absurd (out (Memᴰ.head (sym ((name_iff n k).0 same))))
  | inr other ↦ rw other (one_of-out ns k (λ m. out (Memᴰ.tail m)))
]

-- SetEventSourcesEnabled sets the enabled column of the event sources that are named, in which it
-- changes nothing else, and leaves the other event sources as they are; it adds and removes none.
pub set_event_sources_enabled_exact :
    (names : List String) (enabled : Bool) (t : Keyed EventSourceRow) (k : String)
    → (Memᴰ k names
        → lookup k (set_event_sources_enabled names enabled t).0
          ≡ elim (lookup k t) [ none ↦ none | some row ↦ some (record row { enabled = enabled }) ])
      × (¬ Memᴰ k names → lookup k (set_event_sources_enabled names enabled t).0 ≡ lookup k t)
unfolding set_event_sources_enabled
set_event_sources_enabled_exact names enabled t k =
    let at = update_where-lookup (one_of names) (λ row. record row { enabled = enabled }) k t in
    (
      λ m. elim (Option-cases (lookup k t)) [
        | inl e ↦ ground (arith, at, e)
        | inr (row, e) ↦ ground (arith, at, e, one_of-in names k m)
      ],
      λ out. elim (Option-cases (lookup k t)) [
        | inl e ↦ ground (arith, at, e)
        | inr (row, e) ↦ ground (arith, at, e, one_of-out names k out)
      ],
    )

-- The panic of an event source without a kind.
pub put_event_source-none :
    (f : Faults) (now : ℤ) (e : EventSource) (t : Keyed EventSourceRow)
    → put_event_source f now e t ≡ none
    → get_event_source_type e ≡ none
unfolding put_event_source
put_event_source-none f now e t h = elim (Option-cases (get_event_source_type e)) [
  | inl x ↦ x
  | inr (kind, x) ↦ absurd (ground (arith, x, h))
]
