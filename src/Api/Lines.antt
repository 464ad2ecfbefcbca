-- ===== src/Api/Lines.antt =====
-- internal/api/events.go `writePage` and tx.go `writeTxEvents`: the lines of a read's response. The
-- buffers of the connection are its own: a line goes out, or it does not.
use tamarackdb.Prelude.{ℕ, ◌+◌, Bool, ◌||◌, List, [], ◌∷◌, ◌++◌, ltb, eqb, length, if◌then◌else◌}
use tamarackdb.Prelude.Exec.{ok, err, Exec, ◌>>◌, pure}
use tamarackdb.Dcb.Event.{PendingEvent}
use tamarackdb.Store.Tables.{EventRow}
use tamarackdb.Store.Read.{Page, DecisionFilter}
use tamarackdb.Tx.Reads.{Read}
use tamarackdb.Api.{Line, committed_line, pending_line, has_more_line, end_line}

-- The error of a line that does not go out.
pub data Broken : Type 0 where
  broken : Broken

-- The lines that went out, and the local `sent`.
pub record Stream : Type 0 where
  pub lines : List Line
  pub sent : ℕ

abbrev pub Writing : Type 0
Writing = Exec Broken Stream Unit

module _ (goes_out : ℕ → Bool) where
  abbrev pub write_line : Line → Writing
  write_line l s =
      if goes_out (length s.lines)
      then (ok tt, record s { lines = s.lines ++ l ∷ [] })
      else (err broken, s)

  -- `writeReadEvents`.
  unfoldable pub write_read_events : List EventRow → Writing
  write_read_events [] = pure tt
  write_read_events (e ∷ rest) = write_line (committed_line e) >> write_read_events rest

  unfoldable pub write_page : Page → Writing
  unfolding write_read_events
  write_page page = write_read_events page.events >> write_line (has_more_line page.has_more)

  abbrev pub more : ℕ → Stream → Bool
  more limit s = eqb limit 0 || ltb s.sent limit

  abbrev pub count_sent : Writing
  count_sent s = (ok tt, record s { sent = s.sent + 1 })

  -- The loops of `writeCommitted` and `writePending`.
  unfoldable pub write_committed : ℕ → List EventRow → Writing
  write_committed limit [] = pure tt
  write_committed limit (e ∷ rest) = λ s.
      if more limit s
      then (write_line (committed_line e) >> count_sent >> write_committed limit rest) s
      else (ok tt, s)

  unfoldable pub write_pending : ℕ → List PendingEvent → Writing
  write_pending limit [] = pure tt
  write_pending limit (e ∷ rest) = λ s.
      if more limit s
      then (write_line (pending_line e) >> count_sent >> write_pending limit rest) s
      else (ok tt, s)

  unfoldable pub write_tx_events : Read → DecisionFilter → Writing
  unfolding write_committed write_pending
  write_tx_events read f =
      if f.backwards
      then write_pending f.limit read.pending
        >> write_committed f.limit read.committed
        >> write_line end_line
      else write_committed f.limit read.committed
        >> write_pending f.limit read.pending
        >> write_line end_line
