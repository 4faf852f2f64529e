-- ===== src/Lifecycle/Activity.antt =====
-- The request counters of a container's run loop, pkg/converge/container.go.
use maelstrom.Prelude.{
  ℕ, zero, suc, ◌≡◌, refl, sym, ap, ◌∙◌, Bool, true, false, List, [], ◌∷◌, map, take, if◌then◌else◌,
  arith, if-cases,
}
use maelstrom.Prelude.Int.{ℤ, pos, ◌+ℤ◌, ◌-ℤ◌, +ℤ_parts, -ℤ_parts, +ℤ_assoc, +ℤ_zero, eq_of_parts}
use maelstrom.V1.{Component}
use maelstrom.Lifecycle.{
  ComponentActivity, RunLoop, Event, request_done, activity_tick, health_check_tick, context_done,
  new_container, new_run_loop, bump_req_stats, append_activity, run_health_check, handle, run,
}

-- The same from the history alone, whose newest event is first: whether the loop still still_runs, the requests
-- done since the last roll-over, all requests done, and the requests between the roll-overs.
abbrev pub still_runs : List Event → Bool
still_runs [] = true
still_runs (context_done ∷ h) = false
still_runs (request_done now d ∷ h) = still_runs h
still_runs (activity_tick now ∷ h) = still_runs h
still_runs (health_check_tick is_ok ∷ h) = still_runs h

abbrev pub requests_since : List Event → ℕ
requests_since [] = 0
requests_since (request_done now d ∷ h) =
    if still_runs h then suc (requests_since h) else requests_since h
requests_since (activity_tick now ∷ h) = if still_runs h then 0 else requests_since h
requests_since (health_check_tick is_ok ∷ h) = requests_since h
requests_since (context_done ∷ h) = requests_since h

abbrev pub requests_in_all : List Event → ℕ
requests_in_all [] = 0
requests_in_all (request_done now d ∷ h) =
    if still_runs h then suc (requests_in_all h) else requests_in_all h
requests_in_all (activity_tick now ∷ h) = requests_in_all h
requests_in_all (health_check_tick is_ok ∷ h) = requests_in_all h
requests_in_all (context_done ∷ h) = requests_in_all h

abbrev pub rollovers : List Event → List ℤ
rollovers [] = []
rollovers (activity_tick now ∷ h) =
    if still_runs h then pos (requests_since h) ∷ rollovers h else rollovers h
rollovers (request_done now d ∷ h) = rollovers h
rollovers (health_check_tick is_ok ∷ h) = rollovers h
rollovers (context_done ∷ h) = rollovers h

-- What the counters hold at a history.
abbrev pub Counted : List Event → RunLoop → Type 0
Counted h l =
    (l.running ≡ still_runs h)
    × (l.container.total_requests ≡ pos (requests_in_all h))
    × (l.previous_total_requests +ℤ pos (requests_since h) ≡ l.container.total_requests)
    × (map ComponentActivity.requests l.container.activity ≡ take 10 (rollovers h))

add_one : (n : ℕ) → pos n +ℤ pos 1 ≡ pos (suc n)
unfolding ◌+ℤ◌
add_one n = ground arith

sum_suc : (a t : ℤ) (n : ℕ) → a +ℤ pos n ≡ t → a +ℤ pos (suc n) ≡ t +ℤ pos 1
sum_suc a t n e =
    ap (λ k. a +ℤ k) (sym (add_one n)) ∙ +ℤ_assoc a (pos n) (pos 1) ∙ ap (λ k. k +ℤ pos 1) e

difference : (a t : ℤ) (n : ℕ) → a +ℤ pos n ≡ t → t -ℤ a ≡ pos n
difference a t n e =
    ap (λ k. k -ℤ a) (sym e)
    ∙ eq_of_parts ((a +ℤ pos n) -ℤ a) (pos n)
        (omega (arith, +ℤ_parts a (pos n), -ℤ_parts (a +ℤ pos n) a))

map-take : {A B : Type 0} (f : A → B) (n : ℕ) (xs : List A) → map f (take n xs) ≡ take n (map f xs)
map-take f zero xs = refl
map-take f (suc n) [] = refl
map-take f (suc n) (x ∷ xs) = ap (λ ys. f x ∷ ys) (map-take f n xs)

take-take :
    {A : Type 0} (x : A) (n : ℕ) (xs : List A)
    → take (suc n) (x ∷ take (suc n) xs) ≡ take (suc n) (x ∷ xs)
take-take x zero xs = refl
take-take x (suc n) [] = refl
take-take x (suc n) (y ∷ xs) = ap (λ ys. x ∷ ys) (take-take y n xs)

handle-Counted :
    (e : Event) (h : List Event) (l : RunLoop)
    → l.running ≡ true
    → Counted h l
    → Counted (e ∷ h) (handle e l)
unfolding handle bump_req_stats append_activity run_health_check
handle-Counted (request_done now d) h l on (r, t, s, a) = ground (
  arith,
  sym r ∙ on,
  add_one (requests_in_all h),
  sum_suc l.previous_total_requests l.container.total_requests (requests_since h) s,
)
handle-Counted (activity_tick now) h l on (r, t, s, a) =
    let up : still_runs h ≡ true = sym r ∙ on in
    (
      r,
      t,
      rw up (+ℤ_zero l.container.total_requests),
      rw up (
          ap (λ ys. (l.container.total_requests -ℤ l.previous_total_requests) ∷ ys)
            (map-take ComponentActivity.requests 9 l.container.activity)
          ∙ ap (λ k. take 10 (k ∷ map ComponentActivity.requests l.container.activity))
              (difference l.previous_total_requests l.container.total_requests (requests_since h) s)
          ∙ ap (λ ys. take 10 (pos (requests_since h) ∷ ys)) a
          ∙ take-take (pos (requests_since h)) 9 (rollovers h)),
    )
handle-Counted (health_check_tick true) h l on (r, t, s, a) = (r, t, s, a)
handle-Counted (health_check_tick false) h l on (r, t, s, a) = ground (arith, r, t, s, a)
handle-Counted context_done h l on (r, t, s, a) = (refl, t, s, a)

stopped-Counted :
    (e : Event) (h : List Event) (l : RunLoop) → l.running ≡ false → Counted h l → Counted (e ∷ h) l
stopped-Counted (request_done now d) h l off (r, t, s, a) = ground (arith, sym r ∙ off)
stopped-Counted (activity_tick now) h l off (r, t, s, a) = ground (arith, sym r ∙ off)
stopped-Counted (health_check_tick is_ok) h l off (r, t, s, a) = (r, t, s, a)
stopped-Counted context_done h l off (r, t, s, a) = (off, t, s, a)

-- The requests reported for the last ten periods are the requests between the last ten roll-overs, the
-- newest first, and no request is counted twice or missed.
pub run-Counted :
    (now : ℤ) (id : ℕ) (c : Component) (h : List Event)
    → Counted h (run h (new_run_loop now (new_container id c)))
unfolding run new_run_loop new_container
run-Counted now id c [] = (refl, refl, +ℤ_zero (pos 0), refl)
run-Counted now id c (e ∷ h) =
    let l = run h (new_run_loop now (new_container id c)) in
    let before = run-Counted now id c h in
    if-cases (Counted (e ∷ h)) l.running (λ on. handle-Counted e h l on before)
      (λ off. stopped-Counted e h l off before)
