-- ===== src/MaelService/Answers.antt =====
-- To split on the answer of an operation or of the database, and to go through steps in sequence.
use maelstrom.Prelude.{◌≡◌, ◌⊎◌, inl, inr, refl, ap, String, arith}
use maelstrom.Prelude.Int.{ℤ}
use maelstrom.Db.Rows.{DbResult, DbError, ok, err}
use maelstrom.MaelService.{Service, Rpc, replied, refused, panicked, and_then}

pub Rpc-cases :
    {A : Type 0} (r : Rpc A)
    → ((a : A) × (r ≡ replied a))
      ⊎ ((code : ℤ) × (m : String) × (r ≡ refused code m))
      ⊎ (r ≡ panicked)
Rpc-cases (replied a) = inl (a, refl)
Rpc-cases (refused code m) = inr (inl (code, m, refl))
Rpc-cases panicked = inr (inr refl)

pub DbResult-cases :
    {A : Type 0} (r : DbResult A) → ((a : A) × (r ≡ ok a)) ⊎ ((e : DbError) × (r ≡ err e))
DbResult-cases (ok a) = inl (a, refl)
DbResult-cases (err e) = inr (e, refl)

-- A reply after two steps is the second's, after a reply of the first.
pub and_then-replied :
    {A B : Type 0} (r : Service × Rpc A) (next : A → Service → Service × Rpc B) (b : B)
    → (and_then r next).1 ≡ replied b
    → (a : A) × (r.1 ≡ replied a) × ((next a r.0).1 ≡ replied b)
unfolding and_then
and_then-replied (s, replied a) next b e = (a, refl, e)
and_then-replied (s, refused code m) next b e = ground (arith, e)
and_then-replied (s, panicked) next b e = ground (arith, e)

pub and_then-reply :
    {A B : Type 0} (r : Service × Rpc A) (next : A → Service → Service × Rpc B) (a : A)
    → r.1 ≡ replied a
    → and_then r next ≡ next a r.0
unfolding and_then
and_then-reply (s, replied b) next a e = ap (λ c. next c s) (ground (arith, e))
and_then-reply (s, refused code m) next a e = ground (arith, e)
and_then-reply (s, panicked) next a e = ground (arith, e)
