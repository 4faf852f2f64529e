-- ===== src/Poller/Division.antt =====
-- The roles take up the whole concurrency, and each at most what one poller may.
use native.Mathlib.Nat
use maelstrom.Prelude.{
  ℕ, zero, suc, ◌+◌, ◌-◌, ◌*◌, ◌≤◌, ◌≡◌, ◌∙◌, String, List, [], ◌∷◌, All, ltb, if◌then◌else◌,
  if-cases, arith,
}
use maelstrom.Prelude.Int.{ℤ, pos, ◌≤ℤ◌}
use maelstrom.Poller.{
  RoleIdConcurrency, to_max_concurrency, divide, poller_count, to_role_id_concurrency,
}

abbrev pub sum : List RoleIdConcurrency → ℕ
sum [] = 0
sum (r ∷ roles) = r.concurrency + sum roles

abbrev pub Within : ℕ → RoleIdConcurrency → Type 0
Within per_poller r = (1 ≤ r.concurrency) × (r.concurrency ≤ per_poller)

-- The indices go up, so no two roles have one id.
abbrev pub Ascending : ℕ → List RoleIdConcurrency → Type 0
Ascending i [] = Unit
Ascending i (r ∷ roles) = (i ≤ r.index) × Ascending (suc r.index) roles

sum-divide :
    (prefix : String) (per_poller n i remain : ℕ)
    → remain ≤ n * per_poller
    → sum (divide prefix per_poller n i remain) ≡ remain
unfolding divide
sum-divide prefix per_poller zero i remain h = omega (arith, h)
sum-divide prefix per_poller (suc n) i remain h =
    let c = if ltb remain per_poller then remain else per_poller in
    ground (arith, h, Nat.suc-mul n per_poller, sum-divide prefix per_poller n (suc i) (remain - c))

divide-Within :
    (prefix : String) (per_poller n i remain : ℕ)
    → All (Within per_poller) (divide prefix per_poller n i remain)
unfolding divide
divide-Within prefix per_poller zero i remain = tt
divide-Within prefix per_poller (suc n) i remain =
    let c = if ltb remain per_poller then remain else per_poller in
    let rest = divide-Within prefix per_poller n (suc i) (remain - c) in
    if-cases (All (Within per_poller)) (ltb 0 c)
      (λ some_left. ((ground (arith, some_left), ground arith), rest)) (λ none_left. rest)

from_later : (i : ℕ) (roles : List RoleIdConcurrency) → Ascending (suc i) roles → Ascending i roles
from_later i [] up = tt
from_later i (r ∷ roles) up = (omega (arith, up.0), up.1)

divide-Ascending :
    (prefix : String) (per_poller n i remain : ℕ)
    → Ascending i (divide prefix per_poller n i remain)
unfolding divide
divide-Ascending prefix per_poller zero i remain = tt
divide-Ascending prefix per_poller (suc n) i remain =
    let c = if ltb remain per_poller then remain else per_poller in
    let rest = divide-Ascending prefix per_poller n (suc i) (remain - c) in
    if-cases (Ascending i) (ltb 0 c) (λ some_left. (omega arith, rest))
      (λ none_left. from_later i (divide prefix per_poller n (suc i) (remain - c)) rest)

enough_pollers :
    (max_concurrency per_poller : ℕ)
    → 1 ≤ per_poller
    → max_concurrency ≤ poller_count max_concurrency per_poller * per_poller
unfolding poller_count
enough_pollers max_concurrency per_poller positive =
    let n = max_concurrency + (per_poller - 1) in
    omega (arith, positive, Nat.lt-div-mul-add {a = n} {b = per_poller} (omega (arith, positive)))

whole :
    (max_concurrency per_poller num : ℕ)
    → max_concurrency ≤ num * per_poller
    → (if ltb max_concurrency (per_poller * num) then max_concurrency else per_poller * num)
      ≡ max_concurrency
whole max_concurrency per_poller num enough = ground (arith, enough, Nat.mul_comm per_poller num)

-- Where a poller may have at least one: the roles together have exactly the concurrency of the event
-- source, each has at least one and at most what a poller may, and no two have one index.
pub to_role_id_concurrency_divides :
    (prefix : String) (per_poller max_concurrency : ℕ)
    → 1 ≤ per_poller
    → let roles = to_role_id_concurrency prefix per_poller max_concurrency in
      (sum roles ≡ max_concurrency) × All (Within per_poller) roles × Ascending 0 roles
unfolding to_role_id_concurrency
to_role_id_concurrency_divides prefix per_poller max_concurrency positive =
    let num = poller_count max_concurrency per_poller in
    let enough = enough_pollers max_concurrency per_poller positive in
    let remain = whole max_concurrency per_poller num enough in
    (
      sum-divide prefix per_poller num 0 _ (rw remain enough) ∙ remain,
      divide-Within prefix per_poller num 0 _,
      divide-Ascending prefix per_poller num 0 _,
    )

-- The concurrency of an event source is at least 1, and at most its maximum and the number of
-- handlers, where these are positive.
pub to_max_concurrency_bounds :
    (poller_max active : ℤ)
    → (pos 1 ≤ℤ to_max_concurrency poller_max active)
      × (pos 1 ≤ℤ poller_max → to_max_concurrency poller_max active ≤ℤ poller_max)
      × (pos 1 ≤ℤ active → to_max_concurrency poller_max active ≤ℤ active)
unfolding to_max_concurrency
to_max_concurrency_bounds poller_max active =
    (ground arith, λ h. ground (arith, h), λ h. ground (arith, h))
