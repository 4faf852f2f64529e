-- ===== src/Dispenser/Limits.antt =====
-- The limit of the dispenser, and that neither it nor a request waits for ever.
use maelstrom.Prelude.{ℕ, zero, suc, ap, ◌+◌, ◌≤◌, ◌<◌, ◌≡◌, ◌⊎◌, inl, inr, refl, false, arith}
use maelstrom.Prelude.Int.{ℤ, pos, pos_part, neg_part, ◌≤ℤ◌}
use maelstrom.Dispenser.{
  Dispenser, new_dispenser, done_ch_size, accepts, Step, Reach, request, receive_done, context_done,
  drain, request_done, start, next,
}

-- The counter is the requests that have the proxy or whose message waits.
abbrev pub Inv : ℤ → Dispenser → Type 0
Inv max_concurrency d =
    (d.max_concurrency ≡ max_concurrency)
    × (d.concur ≡ d.in_flight + d.done)
    × (pos 1 ≤ℤ max_concurrency → d.concur ≤ pos_part max_concurrency)

ℕ-cases : (n : ℕ) → (n ≡ 0) ⊎ (1 ≤ n)
ℕ-cases zero = inl refl
ℕ-cases (suc n) = inr (omega arith)

Step-Inv : {m : ℤ} {d e : Dispenser} → Step d e → Inv m d → Inv m e
unfolding accepts
Step-Inv {m} {d} (request active under) (same, count, limit) = (
  same,
  omega (arith, count),
  λ limited. ground (arith, under, limited, ap pos_part same, ap neg_part same),
)
Step-Inv (receive_done active some_done) (same, count, limit) =
    (same, omega (arith, count, some_done), λ limited. omega (arith, limit limited))
Step-Inv (context_done active) inv = inv
Step-Inv (drain over some_concur some_done) (same, count, limit) =
    (same, omega (arith, count, some_done), λ limited. omega (arith, limit limited))
Step-Inv (request_done some_flight room) (same, count, limit) =
    (same, omega (arith, count, some_flight), limit)

Reach-Inv : {m : ℤ} {d : Dispenser} → Reach m d → Inv m d
unfolding new_dispenser
Reach-Inv start = (refl, omega arith, λ limited. omega arith)
Reach-Inv (next r step) = Step-Inv step (Reach-Inv r)

-- In every order of requests, messages and the end of the context: a dispenser with a limit never
-- has more requests in flight than the limit, and a request that ends always has room for its
-- message in the channel.
pub dispenser_limit :
    {m : ℤ} {d : Dispenser}
    → Reach m d
    → pos 1 ≤ℤ m
    → (d.in_flight ≤ pos_part m) × (1 ≤ d.in_flight → d.done < done_ch_size d)
unfolding done_ch_size
dispenser_limit {m} {d} r limited =
    let (same, count, bound) = Reach-Inv r in
    let most = bound limited in
    (
      omega (arith, count, most),
      λ some_flight.
          ground (arith, count, most, limited, some_flight, ap pos_part same, ap neg_part same),
    )

-- How much there is to do until no request is in flight and no message waits.
abbrev pub left : Dispenser → ℕ
left d = d.in_flight + d.in_flight + d.done

room : (d : Dispenser) → 1 ≤ done_ch_size d
unfolding done_ch_size
room d = ground arith

goes_on :
    {m : ℤ} {d : Dispenser} → Inv m d → d.active ≡ false → 1 ≤ d.concur → (e : Dispenser) × Step d e
goes_on {m} {d} (same, count, bound) over some_concur = elim (ℕ-cases d.done) [
  | inl e ↦ (_, request_done (omega (arith, count, e, some_concur)) (omega (arith, e, room d)))
  | inr more ↦ (_, drain over some_concur more)
]

leaves_less :
    {d e : Dispenser} → Step d e → d.active ≡ false → (e.active ≡ false) × (suc (left e) ≡ left d)
leaves_less (request active under) over = absurd (ground (arith, active, over))
leaves_less (receive_done active some_done) over = absurd (ground (arith, active, over))
leaves_less (context_done active) over = absurd (ground (arith, active, over))
leaves_less (drain ended some_concur some_done) over = (over, omega (arith, some_done))
leaves_less (request_done some_flight has_room) over = (over, omega (arith, some_flight))

-- When the context has ended and a request is still counted, a request can say that it is done or
-- the dispenser can receive that one is, and every such step leaves one thing less to do: the
-- dispenser ends, and no order of the steps blocks it.
pub dispenser_drains :
    {m : ℤ} {d : Dispenser}
    → Reach m d
    → d.active ≡ false
    → ((1 ≤ d.concur) → (e : Dispenser) × Step d e)
      × ((e : Dispenser) → Step d e → (e.active ≡ false) × (suc (left e) ≡ left d))
dispenser_drains {m} {d} r over = (goes_on (Reach-Inv r) over, λ e step. leaves_less step over)
