-- ===== src/Dispenser.antt =====
-- The dispenser that hands a container's proxy to requests, pkg/revproxy/dispenser.go: its loop beside
-- the requests that have the proxy. Receiving a message is one step.
mod Limits
mod Examples
use maelstrom.Prelude.{ℕ, suc, ◌+◌, ◌-◌, ◌≤◌, ◌<◌, ◌≡◌, Bool, true, false, ◌||◌, ltb, if◌then◌else◌}
use maelstrom.Prelude.Int.{ℤ, pos, pos_part, ltb_ℤ}

-- `concur` is the loop's counter, `in_flight` counts requests that have the proxy and did not yet say
-- that they are done, and `done` the messages in the channel for that.
pub record Dispenser : Type 0 where
  pub max_concurrency : ℤ
  pub active : Bool
  pub concur : ℕ
  pub in_flight : ℕ
  pub done : ℕ

pub new_dispenser : ℤ → Dispenser
new_dispenser max_concurrency = record {
  max_concurrency = max_concurrency;
  active = true;
  concur = 0;
  in_flight = 0;
  done = 0;
}

-- The capacity of the channel.
pub done_ch_size : Dispenser → ℕ
done_ch_size d = if ltb_ℤ d.max_concurrency (pos 1) then 1 else pos_part d.max_concurrency

-- The loop is at the select that has the case for a request.
pub accepts : Dispenser → Bool
accepts d = ltb_ℤ d.max_concurrency (pos 1) || ltb_ℤ (pos d.concur) d.max_concurrency

pub data Step (d : Dispenser) : Dispenser → Type 0 where
  -- The three cases of the select, of which the first is only under the limit.
  request :
      d.active ≡ true
      → accepts d ≡ true
      → Step d (record d { concur = suc d.concur; in_flight = suc d.in_flight })
  receive_done :
      d.active ≡ true → 1 ≤ d.done → Step d (record d { concur = d.concur - 1; done = d.done - 1 })
  context_done : d.active ≡ true → Step d (record d { active = false })
  -- The loop that waits for the requests in flight.
  drain :
      d.active ≡ false
      → 1 ≤ d.concur
      → 1 ≤ d.done
      → Step d (record d { concur = d.concur - 1; done = d.done - 1 })
  -- A request ends: it sends to the channel, for which there must be room.
  request_done :
      1 ≤ d.in_flight
      → d.done < done_ch_size d
      → Step d (record d { in_flight = d.in_flight - 1; done = d.done + 1 })

pub data Reach (max_concurrency : ℤ) : Dispenser → Type 0 where
  start : Reach max_concurrency (new_dispenser max_concurrency)
  next : {d e : Dispenser} → Reach max_concurrency d → Step d e → Reach max_concurrency e
