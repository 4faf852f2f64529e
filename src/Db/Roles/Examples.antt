-- ===== src/Db/Roles/Examples.antt =====
-- Two nodes that want one role.
use maelstrom.Prelude.{◌≡◌, refl, some, [], ◌∷◌, Memᴰ, lookup, insert, name_iff, arith}
use maelstrom.Db.Roles.{RoleRow, RoleTable, insert_role, acquire_or_renew_role_once}
use maelstrom.Db.Roles.Leases.{Lease, System, forget, Reach, start, next, inserts}
use maelstrom.Db.Roles.Leases.Holder.{one_holder}
use maelstrom.Db.Roles.Acquire.{quiet, lock_reply, acquire_or_renew_role_once-quiet}

abbrev n1_row : RoleRow
n1_row = record { node_id = "n1"; expires_at = 20 }

abbrev n1_has_it : RoleTable
n1_has_it = ("cron", n1_row) ∷ []

abbrev n1_lease : Lease
n1_lease = record { role = "cron"; node_id = "n1"; expires_at = 20 }

abbrev taken : System
taken = record { clock = 10; table = n1_has_it; leases = n1_lease ∷ [] }

Reach-taken : Reach taken
unfolding insert_role lookup insert forget
Reach-taken = next (start 10) (inserts "cron" n1_row refl)

one_holder_example : (lookup "cron" n1_has_it ≡ some n1_row) × (n1_lease.node_id ≡ n1_lease.node_id)
one_holder_example =
    one_holder {s = taken} Reach-taken n1_lease n1_lease (Memᴰ.head refl) (Memᴰ.head refl) refl
      (omega arith) (omega arith)

acquire_or_renew_role_once-quiet_example :
    acquire_or_renew_role_once "cron" "n2" 5 (quiet 21) n1_has_it
    ≡ lock_reply "cron" "n2" 5 21 n1_has_it
unfolding lookup
acquire_or_renew_role_once-quiet_example =
    acquire_or_renew_role_once-quiet "cron" "n2" 5 21 n1_has_it
      (λ row e. ground (arith, e, name_iff "n1" ""))
