-- ===== src/Queue.antt =====
-- internal/queue/queue.go and turn.go: the ticket line of the writers. The tickets are taken to stay below
-- 2^64. A critical section of `Join` is a function of its own: `enter` up to the wait, `woken` for each
-- test of the loop around it.
pub mod Line
mod Examples
use tamarackdb.Prelude.{ℕ, ◌+◌, ◌-◌, Bool, true, false, ◌&&◌, ltb, leb, eqb, if◌then◌else◌}
use tamarackdb.Prelude.Exec.{Result, ok, err}

pub record Manager : Type 0 where
  pub closed : Bool
  pub next : ℕ
  pub served : ℕ
  pub max_queued : ℕ

pub data QueueError : Type 0 where
  err_closed err_full : QueueError

abbrev pub new_manager : ℕ → Manager
new_manager max_queued = record { closed = false; next = 0; served = 0; max_queued = max_queued }

abbrev pub close : Manager → Manager
close m = record m { closed = true }

-- The requests that wait, the one that holds the turn not counted.
abbrev pub waiting_count : Manager → ℕ
waiting_count m = if eqb m.next m.served then 0 else m.next - m.served - 1

-- `Join` as far as its ticket.
unfoldable pub enter : Manager → Result QueueError ℕ × Manager
enter m =
    if m.closed
    then (err err_closed, m)
    else if ltb 0 m.max_queued && leb m.max_queued (waiting_count m)
    then (err err_full, m)
    else (ok m.next, record m { next = m.next + 1 })

-- What a request that waits finds when it wakes.
pub data Wake : Type 0 where
  takes_turn turned_away waits_on : Wake

unfoldable pub woken : Manager → ℕ → Wake
woken m ticket =
    if eqb ticket m.served then takes_turn else if m.closed then turned_away else waits_on

-- `Turn.Done`, which a turn runs once.
abbrev pub done : Manager → Manager
done m = record m { served = m.served + 1 }
