-- ===== src/Api/Streams.antt =====
-- The order and the end of the lines of a read's response.
use mathlib.Core.List.{append-nil, append_assoc}
use tamarackdb.Prelude.{
  ℕ, zero, suc, ◌+◌, ◌-◌, ◌≡◌, ◌⊎◌, refl, sym, ap, subst, ◌∙◌, Bool, true, false, ◌||◌, List, [],
  ◌∷◌, ◌++◌, map, take, arith, length, eqb, ltb, Bool-cases, inl, inr, if◌then◌else◌,
}
use tamarackdb.Prelude.Exec.{Result, ok, err, continue, ◌>>◌, pure}
use tamarackdb.Dcb.Event.{PendingEvent}
use tamarackdb.Store.Tables.{EventRow}
use tamarackdb.Store.Read.{DecisionFilter}
use tamarackdb.Tx.Reads.{Read}
use tamarackdb.Api.{Line, committed_line, pending_line, end_line}
use tamarackdb.Api.Lines.{
  Broken, broken, Stream, Writing, write_line, more, count_sent, write_committed, write_pending,
  write_tx_events,
}

-- The first `limit` lines, or all of them for 0.
abbrev pub within : ℕ → List Line → List Line
within limit lines = if eqb limit 0 then lines else take limit lines

-- The lines that remain once `sent` of them are out.
abbrev remaining : ℕ → ℕ → List Line → List Line
remaining limit sent lines = if eqb limit 0 then lines else take (limit - sent) lines

remaining_more :
    (limit sent : ℕ) (l : Line) (rest : List Line)
    → (eqb limit 0 || ltb sent limit) ≡ true
    → remaining limit sent (l ∷ rest) ≡ l ∷ remaining limit (sent + 1) rest
remaining_more limit sent l rest room = elim (Bool-cases (eqb limit 0)) [
  | inl all_of_them ↦ ground (arith, all_of_them)
  | inr bounded ↦
      ground (
        arith,
        bounded,
        take_one (limit - sent) (limit - (sent + 1)) (ground (arith, room, bounded)),
      )
]
  where
    take_one : (n m : ℕ) → n ≡ m + 1 → take n (l ∷ rest) ≡ l ∷ take m rest
    take_one zero m h = absurd (omega arith)
    take_one (suc n) m h = ap (λ k. l ∷ take k rest) (omega (arith, h))

remaining_full :
    (limit sent : ℕ) (lines : List Line)
    → (eqb limit 0 || ltb sent limit) ≡ false
    → remaining limit sent lines ≡ []
remaining_full limit sent lines full =
    ground (arith, full, take_none (limit - sent) (ground (arith, full)))
  where
    take_none : (n : ℕ) → n ≡ 0 → take n lines ≡ []
    take_none zero h = refl
    take_none (suc n) h = absurd (omega arith)

-- The lines of a transaction's read, the limit applied.
unfoldable pub event_lines : Read → DecisionFilter → List Line
event_lines read f = within f.limit (
    if f.backwards
    then map pending_line read.pending ++ map committed_line read.committed
    else map committed_line read.committed ++ map pending_line read.pending)

remaining-nil : (limit sent : ℕ) → remaining limit sent [] ≡ []
remaining-nil limit sent = elim (Bool-cases (eqb limit 0)) [
  | inl all_of_them ↦ ground (arith, all_of_them)
  | inr bounded ↦ ground (arith, bounded, take-nil (limit - sent))
]
  where
    take-nil : (n : ℕ) → take {A = Line} n [] ≡ []
    take-nil zero = refl
    take-nil (suc n) = refl

take_all : (lines : List Line) → take (length lines) lines ≡ lines
take_all [] = refl
take_all (l ∷ rest) = ap (◌∷◌ l) (take_all rest)

abbrev pub start : Stream
start = record { lines = []; sent = 0 }

-- How a response ends: with every line and then the last one, or cut short at a line that does not go
-- out, without the last one.
abbrev pub Ends : (ℕ → Bool) → List Line → Line → Result Broken Unit × Stream → Type 0
Ends goes_out lines last (r, s) =
    ((r ≡ ok tt) × (s.lines ≡ lines ++ last ∷ []))
    ⊎ ((r ≡ err broken)
        × (goes_out (length s.lines) ≡ false)
        × ((n : ℕ) × (s.lines ≡ take n lines)))

module _ (goes_out : ℕ → Bool) where
  -- The two loops are one loop over lines.
  write_limited : ℕ → List Line → Writing
  write_limited limit [] = pure tt
  write_limited limit (l ∷ rest) = λ s.
      if more goes_out limit s
      then (write_line goes_out l >> count_sent goes_out >> write_limited limit rest) s
      else (ok tt, s)

  write_committed-limited :
      (limit : ℕ) (events : List EventRow) (s : Stream)
      → write_committed goes_out limit events s ≡ write_limited limit (map committed_line events) s
  unfolding write_committed write_limited
  write_committed-limited limit [] s = refl
  write_committed-limited limit (e ∷ rest) s = elim (Bool-cases (more goes_out limit s)) [
    | inl room ↦ elim (Bool-cases (goes_out (length s.lines))) [
      | inl out ↦ ground (
        arith,
        room,
        out,
        write_committed-limited limit rest
            (record s { lines = s.lines ++ committed_line e ∷ []; sent = s.sent + 1 }),
      )
      | inr stuck ↦ ground (arith, room, stuck)
    ]
    | inr full ↦ ground (arith, full)
  ]

  write_pending-limited :
      (limit : ℕ) (events : List PendingEvent) (s : Stream)
      → write_pending goes_out limit events s ≡ write_limited limit (map pending_line events) s
  unfolding write_pending write_limited
  write_pending-limited limit [] s = refl
  write_pending-limited limit (e ∷ rest) s = elim (Bool-cases (more goes_out limit s)) [
    | inl room ↦ elim (Bool-cases (goes_out (length s.lines))) [
      | inl out ↦ ground (
        arith,
        room,
        out,
        write_pending-limited limit rest
            (record s { lines = s.lines ++ pending_line e ∷ []; sent = s.sent + 1 }),
      )
      | inr stuck ↦ ground (arith, room, stuck)
    ]
    | inr full ↦ ground (arith, full)
  ]

  write_limited_full :
      (limit : ℕ) (lines : List Line) (s : Stream)
      → more goes_out limit s ≡ false
      → write_limited limit lines s ≡ (ok tt, s)
  unfolding write_limited
  write_limited_full limit [] s full = refl
  write_limited_full limit (l ∷ rest) s full = ground (arith, full)

  write_limited-append :
      (limit : ℕ) (xs ys : List Line) (s : Stream)
      → (write_limited limit xs >> write_limited limit ys) s ≡ write_limited limit (xs ++ ys) s
  unfolding write_limited
  write_limited-append limit [] ys s = refl
  write_limited-append limit (l ∷ rest) ys s = elim (Bool-cases (more goes_out limit s)) [
    | inl room ↦ elim (Bool-cases (goes_out (length s.lines))) [
      | inl out ↦ ground (
        arith,
        room,
        out,
        write_limited-append limit rest ys
            (record s { lines = s.lines ++ l ∷ []; sent = s.sent + 1 }),
      )
      | inr stuck ↦ ground (arith, room, stuck)
    ]
    | inr full ↦ ground (arith, full, write_limited_full limit ys s full)
  ]

  -- How a loop ends: every line that remains is out, or the line after `n` of them did not go out.
  data Outcome (s : Stream) (lines : List Line) : Result Broken Unit × Stream → Type 0 where
    all_out : (s' : Stream) → s'.lines ≡ s.lines ++ lines → Outcome s lines (ok tt, s')
    cut_after :
        (s' : Stream) (n : ℕ)
        → s'.lines ≡ s.lines ++ take n lines
        → goes_out (length s'.lines) ≡ false
        → Outcome s lines (err broken, s')

  Outcome-cons :
      (s : Stream) (l : Line) (lines : List Line) (r : Result Broken Unit × Stream)
      → Outcome (record s { lines = s.lines ++ l ∷ []; sent = s.sent + 1 }) lines r
      → Outcome s (l ∷ lines) r
  Outcome-cons s l lines r (all_out s' same) =
      all_out s' (same ∙ append_assoc s.lines (l ∷ []) lines)
  Outcome-cons s l lines r (cut_after s' n same stuck) =
      cut_after s' (suc n) (same ∙ append_assoc s.lines (l ∷ []) (take n lines)) stuck

  write_limited-Outcome :
      (limit : ℕ) (lines : List Line) (s : Stream)
      → Outcome s (remaining limit s.sent lines) (write_limited limit lines s)
  unfolding write_limited
  write_limited-Outcome limit [] s =
      all_out s (sym (ap (◌++◌ s.lines) (remaining-nil limit s.sent) ∙ append-nil s.lines))
  write_limited-Outcome limit (l ∷ rest) s = elim (Bool-cases (more goes_out limit s)) [
    | inl room ↦ elim (Bool-cases (goes_out (length s.lines))) [
      | inl out ↦ subst (Outcome s (remaining limit s.sent (l ∷ rest))) (sym (went_out room out)) (
          subst (λ ls. Outcome s ls (write_limited limit rest next))
            (sym (remaining_more limit s.sent l rest room))
            (Outcome-cons s l (remaining limit next.sent rest) (write_limited limit rest next)
              (write_limited-Outcome limit rest next)))
      | inr stuck ↦
          subst (Outcome s (remaining limit s.sent (l ∷ rest))) (sym (stopped room stuck))
            (cut_after s 0 (sym (append-nil s.lines)) stuck)
    ]
    | inr full ↦
        subst (Outcome s (remaining limit s.sent (l ∷ rest)))
          (sym (write_limited_full limit (l ∷ rest) s full))
          (all_out s (
            sym (
              ap (◌++◌ s.lines) (remaining_full limit s.sent (l ∷ rest) full)
              ∙ append-nil s.lines)))
  ]
    where
      next : Stream
      next = record s { lines = s.lines ++ l ∷ []; sent = s.sent + 1 }

      went_out :
          more goes_out limit s ≡ true
          → goes_out (length s.lines) ≡ true
          → write_limited limit (l ∷ rest) s ≡ write_limited limit rest next
      went_out room out = ground (arith, room, out)

      stopped :
          more goes_out limit s ≡ true
          → goes_out (length s.lines) ≡ false
          → write_limited limit (l ∷ rest) s ≡ (err broken, s)
      stopped room stuck = ground (arith, room, stuck)

  remaining_start : (limit : ℕ) (lines : List Line) → remaining limit 0 lines ≡ within limit lines
  remaining_start limit lines = ap (λ n. if eqb limit 0 then lines else take n lines) (omega arith)

  write_line-Ends :
      (lines : List Line) (last : Line) (r : Result Broken Unit × Stream)
      → Outcome start lines r
      → Ends goes_out lines last (continue r.0 (λ _. write_line goes_out last) r.1)
  write_line-Ends lines last r (all_out s' same) = elim (Bool-cases (goes_out (length s'.lines))) [
    | inl out ↦ inl (ground (arith, out), ground (arith, out, same))
    | inr stuck ↦ inr (
      ground (arith, stuck),
      ground (arith, stuck),
      (length lines, ground (arith, stuck, same, take_all lines)),
    )
  ]
  write_line-Ends lines last r (cut_after s' n same stuck) = inr (refl, stuck, (n, same))

  then_same :
      (m m' n n' : Writing)
      → ((s : Stream) → m s ≡ m' s)
      → ((s : Stream) → n s ≡ n' s)
      → (s : Stream) → (m >> n) s ≡ (m' >> n') s
  then_same m m' n n' p q s = ap (λ r. continue r.0 (λ _. n) r.1) (p s) ∙ by_result (m' s)
    where
      by_result :
          (r : Result Broken Unit × Stream) → continue r.0 (λ _. n) r.1 ≡ continue r.0 (λ _. n') r.1
      by_result (ok u, s') = q s'
      by_result (err e, s') = refl

  loops_end :
      (limit : ℕ) (xs ys : List Line) (last : Line) (m n : Writing)
      → ((s : Stream) → m s ≡ write_limited limit xs s)
      → ((s : Stream) → n s ≡ write_limited limit ys s)
      → Ends goes_out (within limit (xs ++ ys)) last ((m >> n >> write_line goes_out last) start)
  loops_end limit xs ys last m n p q =
      subst
        (λ r.
          Ends goes_out (within limit (xs ++ ys)) last
            (continue r.0 (λ _. write_line goes_out last) r.1))
        (sym (
          then_same m (write_limited limit xs) n (write_limited limit ys) p q start
          ∙ write_limited-append limit xs ys start))
        (write_line-Ends (within limit (xs ++ ys)) last (write_limited limit (xs ++ ys) start) (
          subst (λ ls. Outcome start ls (write_limited limit (xs ++ ys) start))
            (remaining_start limit (xs ++ ys)) (write_limited-Outcome limit (xs ++ ys) start)))

  -- The response to a read in a transaction holds the committed events and then the pending ones, or the
  -- pending ones first backwards, up to the limit, and then the trailer; when a line does not go out, it
  -- holds some first lines of these, and no trailer.
  pub write_tx_events-Ends :
      (read : Read) (f : DecisionFilter)
      → Ends goes_out (event_lines read f) end_line (write_tx_events goes_out read f start)
  unfolding write_tx_events event_lines
  write_tx_events-Ends read f = by_order f.backwards
    where
      committed :
          (s : Stream)
          → write_committed goes_out f.limit read.committed s
            ≡ write_limited f.limit (map committed_line read.committed) s
      committed = write_committed-limited f.limit read.committed

      pending :
          (s : Stream)
          → write_pending goes_out f.limit read.pending s
            ≡ write_limited f.limit (map pending_line read.pending) s
      pending = write_pending-limited f.limit read.pending

      by_order :
          (b : Bool)
          → Ends goes_out
              (within f.limit (
                if b
                then map pending_line read.pending ++ map committed_line read.committed
                else map committed_line read.committed ++ map pending_line read.pending))
              end_line
              ((if b
                  then write_pending goes_out f.limit read.pending
                    >> write_committed goes_out f.limit read.committed
                    >> write_line goes_out end_line
                  else write_committed goes_out f.limit read.committed
                    >> write_pending goes_out f.limit read.pending
                    >> write_line goes_out end_line)
                start)
      by_order true =
          loops_end f.limit (map pending_line read.pending) (map committed_line read.committed)
            end_line _ _ pending committed
      by_order false =
          loops_end f.limit (map committed_line read.committed) (map pending_line read.pending)
            end_line _ _ committed pending
