-- ===== src/Router/Remote.antt =====
-- The remote handlers of a router, `SetRemoteHandlerCounts` of pkg/router/router.go: for each peer
-- URL, one cancel function for each reverse proxy goroutine.
pub mod Counts
pub mod Balance
use maelstrom.Prelude.{
  ℕ, zero, suc, ◌-◌, ◌≡◌, String, Bool, Option, none, some, List, [], ◌∷◌, ◌++◌, Keyed, lookup,
  insert, delete, length, ltb, if◌then◌else◌,
}

-- A cancel function is the number of the handler that it stops. `cancelled` lists the handlers
-- that were stopped, the newest first.
pub record Remotes : Type 0 where
  pub by_url : Keyed (List ℕ)
  pub next_id : ℕ
  pub cancelled : List ℕ

abbrev pub or_empty : Option (List ℕ) → List ℕ
or_empty none = []
or_empty (some fs) = fs

-- `r.remoteHandlersByUrl[url]`, with the empty slice for nil.
abbrev pub handlers_of : String → Remotes → List ℕ
handlers_of url r = or_empty (lookup url r.by_url)

start_handler : String → Remotes → Remotes
start_handler url r = record r {
  by_url = insert url (handlers_of url r ++ r.next_id ∷ []) r.by_url;
  next_id = suc r.next_id;
}

-- `for targetCount > len(cancelFuncs)`: the first argument is the number of rounds.
start_handlers : ℕ → String → Remotes → Remotes
start_handlers zero url r = r
start_handlers (suc n) url r = start_handlers n url (start_handler url r)

-- `for targetCount < len(cancelFuncs)`, by recursion on the slice.
stop_handlers : ℕ → String → List ℕ → Remotes → Remotes
stop_handlers target url [] r = r
stop_handlers target url (f ∷ fs) r =
    let rest =
      stop_handlers target url fs
        (record r { by_url = insert url fs r.by_url; cancelled = f ∷ r.cancelled }) in
    if ltb target (length (f ∷ fs)) then rest else r

-- One round of the first loop. `valid` says whether `url.Parse` accepts the URL.
set_count : (String → Bool) → String → ℕ → Remotes → Remotes
unfolding start_handlers start_handler stop_handlers
set_count valid url target r =
    let grown =
      if valid url then start_handlers (target - length (handlers_of url r)) url r else r in
    stop_handlers target url (handlers_of url grown) grown

set_counts : (String → Bool) → Keyed ℕ → Remotes → Remotes
set_counts valid [] r = r
set_counts valid ((url, target) ∷ counts) r = set_counts valid counts (set_count valid url target r)

cancel_all : List ℕ → List ℕ → List ℕ
cancel_all [] cancelled = cancelled
cancel_all (f ∷ fs) cancelled = cancel_all fs (f ∷ cancelled)

-- One entry of the second loop, with what the argument map holds under its URL.
remove_entry : Option ℕ → String → List ℕ → Remotes → Remotes
unfolding cancel_all
remove_entry none url fs r = record r {
  by_url = delete url r.by_url;
  cancelled = cancel_all fs r.cancelled;
}
remove_entry (some target) url fs r = r

-- The second loop, over the entries of the map.
remove_stale : Keyed ℕ → Keyed (List ℕ) → Remotes → Remotes
remove_stale counts [] r = r
remove_stale counts ((url, fs) ∷ entries) r =
    remove_stale counts entries (remove_entry (lookup url counts) url fs r)

unfoldable pub set_remote_handler_counts : (String → Bool) → Keyed ℕ → Remotes → Remotes
unfolding set_counts set_count remove_stale remove_entry
set_remote_handler_counts valid counts r =
    let s = set_counts valid counts r in remove_stale counts s.by_url s
