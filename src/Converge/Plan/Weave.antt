-- ===== src/Converge/Plan/Weave.antt =====
-- The loop of `plan` (pkg/converge/converger.go) takes starts and stops in turn.
use mathlib.Core.Option
use maelstrom.Prelude.{
  replicate, sym, ltb, not, ◌=s=◌, if◌then◌else◌, ℕ, zero, suc, ◌+◌, ◌*◌, ◌≤◌, ◌≡◌, refl, ap, ◌∙◌,
  Bool, true, false, some, List, [], ◌∷◌, map, length, arith,
}
use maelstrom.Prelude.Int.{pos, pos_part, ◌-ℤ◌}
use maelstrom.V1.{
  Component, start_parallelism_parallel, start_parallelism_seriesfirst, restart_order_startstop,
}
use maelstrom.Converge.{Container, ComponentTarget, StopStep, ConvergeStep, start, stop}
use maelstrom.Converge.Plan.{
  alternate, lock_after, plan, scan, rounds, get_start_parallelism, get_restart_order,
}

-- One from each list in turn, the first list first; then what is left of the longer one.
unfoldable pub shuffle {ℓ} : {A : Type ℓ} → List A → List A → List A
shuffle [] ys = ys
shuffle (x ∷ xs) [] = x ∷ xs
shuffle (x ∷ xs) (y ∷ ys) = x ∷ y ∷ shuffle xs ys

-- The start steps in order: the first with the given lock, the others as the parallelism says.
unfoldable pub start_steps : Component → Bool → ℕ → List ConvergeStep
start_steps c lock zero = []
start_steps c lock (suc n) =
    start (record { component = c; lock = lock }) ∷ start_steps c (lock_after c lock) n

abbrev pub stop_steps : List StopStep → List ConvergeStep
stop_steps = map stop

abbrev pub in_turn : Bool → List ConvergeStep → List ConvergeStep → List ConvergeStep
in_turn true starts stops = shuffle starts stops
in_turn false starts stops = shuffle stops starts

-- How many rounds the loop takes.
abbrev need : Bool → ℕ → ℕ → ℕ
need true zero k = 2 * k + 1
need true (suc n) k = 2 * (suc n + k)
need false n zero = 2 * n + 1
need false n (suc k) = 2 * (n + suc k)

abbrev pub locks : List ConvergeStep → List Bool
locks [] = []
locks (start s ∷ steps) = s.lock ∷ locks steps
locks (stop s ∷ steps) = locks steps

abbrev pub first_only : ℕ → List Bool
first_only zero = []
first_only (suc n) = true ∷ replicate n false

shuffle_nil {ℓ} : {A : Type ℓ} (xs : List A) → shuffle xs [] ≡ xs
unfolding shuffle
shuffle_nil [] = refl
shuffle_nil (x ∷ xs) = refl

pub shuffle_cons {ℓ} :
    {A : Type ℓ} (x : A) (xs ys : List A) → shuffle (x ∷ xs) ys ≡ x ∷ shuffle ys xs
unfolding shuffle
shuffle_cons x xs [] = refl
shuffle_cons x [] (y ∷ ys) = refl
shuffle_cons x (w ∷ xs) (y ∷ ys) = ap (λ l. x ∷ y ∷ l) (shuffle_cons w xs ys)

need-le : (add_start : Bool) (n k : ℕ) → need add_start n k ≤ 2 * (n + k) + 1
need-le true zero k = omega arith
need-le true (suc n) k = omega arith
need-le false n zero = omega arith
need-le false n (suc k) = omega arith

alternate-in_turn :
    (fuel : ℕ) (c : Component) (add_start lock : Bool) (n : ℕ) (stops : List StopStep)
    → need add_start n (length stops) ≤ fuel
    → alternate fuel c add_start lock n stops
      ≡ some (in_turn add_start (start_steps c lock n) (stop_steps stops))
unfolding alternate start_steps shuffle
alternate-in_turn zero c true lock zero stops h = absurd (omega arith)
alternate-in_turn zero c true lock (suc n) stops h = absurd (omega arith)
alternate-in_turn zero c false lock n [] h = absurd (omega arith)
alternate-in_turn zero c false lock n (s ∷ stops) h = absurd (omega arith)
alternate-in_turn (suc fuel) c true lock zero [] h = refl
alternate-in_turn (suc fuel) c false lock zero [] h = refl
alternate-in_turn (suc fuel) c true lock zero (s ∷ stops) h =
    alternate-in_turn fuel c false lock zero (s ∷ stops) (omega arith)
alternate-in_turn (suc fuel) c true lock (suc n) stops h =
    ap (Option.map (λ steps. start (record { component = c; lock = lock }) ∷ steps)) (
      alternate-in_turn fuel c false (lock_after c lock) n stops
        (omega (arith, need-le false n (length stops))))
    ∙ ap some (sym (shuffle_cons _ (start_steps c (lock_after c lock) n) (stop_steps stops)))
alternate-in_turn (suc fuel) c false lock (suc n) [] h =
    alternate-in_turn fuel c true lock (suc n) [] (omega arith)
alternate-in_turn (suc fuel) c false lock zero (s ∷ stops) h =
    ap (Option.map (λ steps. stop s ∷ steps)) (
      alternate-in_turn fuel c true lock zero stops
        (omega (arith, need-le true zero (length stops))))
alternate-in_turn (suc fuel) c false lock (suc n) (s ∷ stops) h =
    ap (Option.map (λ steps. stop s ∷ steps)) (
      alternate-in_turn fuel c true lock (suc n) stops
        (omega (arith, need-le true (suc n) (length stops))))
    ∙ ap some (sym (shuffle_cons (stop s) (stop_steps stops) (start_steps c lock (suc n))))

-- `plan` always ends within its rounds. It asks for a pull exactly if it starts anything; it stops
-- what the scan chose, in that order, and starts what is missing to the target count, the two in
-- turn with a start first for the order "startstop" and a stop first otherwise; and the first
-- start takes the lock unless the parallelism is "parallel".
pub plan-in_turn :
    (containers : List Container) (target : ComponentTarget)
    → let (stops, kept) = scan target 0 containers in
      let n = pos_part (target.count -ℤ pos kept) in
      let c = target.component in
      plan containers target
      ≡ some (record {
        pull = ltb 0 n;
        steps =
            in_turn
              (get_restart_order c =s= restart_order_startstop)
              (start_steps c (not (get_start_parallelism c =s= start_parallelism_parallel)) n)
              (stop_steps stops);
      })
unfolding plan
plan-in_turn containers target =
    let (stops, kept) = scan target 0 containers in
    let n = pos_part (target.count -ℤ pos kept) in
    let c = target.component in
    let first = get_restart_order c =s= restart_order_startstop in
    ap (Option.map _) (
      alternate-in_turn (rounds n (length stops)) c first _ n stops
        (omega (arith, need-le first n (length stops))))

locks_false : (c : Component) (n : ℕ) → locks (start_steps c false n) ≡ replicate n false
unfolding start_steps lock_after
locks_false c zero = refl
locks_false c (suc n) = ground (arith, locks_false c n)

locks_true :
    (c : Component) (n : ℕ)
    → (get_start_parallelism c =s= start_parallelism_seriesfirst) ≡ false
    → locks (start_steps c true n) ≡ replicate n true
unfolding start_steps lock_after
locks_true c zero h = refl
locks_true c (suc n) h = rw h (ap (λ l. true ∷ l) (locks_true c n h))

-- Which starts take the lock: none under "parallel", only the first under "seriesfirst", and all
-- under any other parallelism.
pub start_steps_locks :
    (c : Component) (n : ℕ)
    → let para = get_start_parallelism c in
      locks (start_steps c (not (para =s= start_parallelism_parallel)) n) ≡ (
        if para =s= start_parallelism_parallel
        then replicate n false
        else if para =s= start_parallelism_seriesfirst
        then first_only n
        else replicate n true)
unfolding start_steps lock_after
start_steps_locks c zero = ground arith
start_steps_locks c (suc n) =
    ground (arith, locks_false c n, locks_false c (suc n), locks_true c n, locks_true c (suc n))
