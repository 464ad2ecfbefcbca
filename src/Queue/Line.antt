-- ===== src/Queue/Line.antt =====
-- The line as a whole: where each request is, after any interleaving of joins, wake-ups, ends and a close.
use tamarackdb.Prelude.{
  ℕ, ◌+◌, ◌≤◌, ◌<◌, ◌≡◌, ◌⊎◌, refl, ◌∙◌, sym, true, false, arith, eqb, if◌then◌else◌, Bool-cases,
}
use tamarackdb.Prelude.Exec.{ok}
use tamarackdb.Queue.{Manager, new_manager, close, enter, takes_turn, turned_away, woken, done}

-- Where a request is, with the ticket that it holds.
pub data Status : Type 0 where
  outside gone : Status
  waiting active : ℕ → Status

-- A request is named by its place in the order of the joins that succeed, which `joined` counts.
pub record Line : Type 0 where
  pub manager : Manager
  pub joined : ℕ
  pub status : ℕ → Status

abbrev pub set_status : ℕ → Status → (ℕ → Status) → ℕ → Status
set_status request s f other = if eqb other request then s else f other

abbrev pub new_line : ℕ → Line
new_line max_queued = record { manager = new_manager max_queued; joined = 0; status = λ r. outside }

pub data Step (l : Line) : Line → Type 0 where
  enters :
      (t : ℕ) (m : Manager)
      → enter l.manager ≡ (ok t, m)
      → Step l (record {
        manager = m;
        joined = l.joined + 1;
        status = set_status l.joined (waiting t) l.status;
      })
  takes :
      (r t : ℕ)
      → l.status r ≡ waiting t
      → woken l.manager t ≡ takes_turn
      → Step l (record l { status = set_status r (active t) l.status })
  leaves :
      (r t : ℕ)
      → l.status r ≡ waiting t
      → woken l.manager t ≡ turned_away
      → Step l (record l { status = set_status r gone l.status })
  ends :
      (r t : ℕ)
      → l.status r ≡ active t
      → Step l (record l { manager = done l.manager; status = set_status r gone l.status })
  closes : Step l (record l { manager = close l.manager })

pub data Steps (l : Line) : Line → Type 0 where
  here : Steps l l
  next : {k j : Line} → Steps l k → Step k j → Steps l j

-- The ticket of a request is its place in the order of the joins.
record IsLine (l : Line) : Type 0 where
  behind : l.manager.served ≤ l.manager.next
  numbered : l.joined ≡ l.manager.next
  in_line :
      (r t : ℕ) → l.status r ≡ waiting t → (t ≡ r) × (l.manager.served ≤ r) × (r < l.manager.next)
  has_turn :
      (r t : ℕ) → l.status r ≡ active t → (t ≡ r) × (r ≡ l.manager.served) × (r < l.manager.next)
  attended :
      (r : ℕ)
      → l.manager.closed ≡ false
      → l.manager.served ≤ r
      → r < l.manager.next
      → (l.status r ≡ waiting r) ⊎ (l.status r ≡ active r)

enter-ok :
    (m m' : Manager) (t : ℕ)
    → enter m ≡ (ok t, m')
    → (t ≡ m.next) × (m' ≡ record m { next = m.next + 1 })
unfolding enter
enter-ok m m' t h = ground (arith, h, Bool-cases m.closed)

woken-turn : (m : Manager) (t : ℕ) → woken m t ≡ takes_turn → t ≡ m.served
unfolding woken
woken-turn m t h = ground (arith, h, Bool-cases m.closed)

woken-away : (m : Manager) (t : ℕ) → woken m t ≡ turned_away → m.closed ≡ true
unfolding woken
woken-away m t h = ground (arith, h, Bool-cases m.closed)

new_line-IsLine : (n : ℕ) → IsLine (new_line n)
new_line-IsLine n = record {
  behind = omega arith;
  numbered = refl;
  in_line = λ r t h. absurd (ground (arith, h));
  has_turn = λ r t h. absurd (ground (arith, h));
  attended = λ r c a b. absurd (omega arith);
}

Step-IsLine : {l k : Line} → Step l k → IsLine l → IsLine k
Step-IsLine {l} (enters t m e) h =
    let (ticket, same) = enter-ok l.manager m t e in
    record {
      behind = ground (arith, same, h.behind);
      numbered = ground (arith, same, h.numbered);
      in_line = λ u v w. ground (arith, ticket, same, w, h.in_line u v, h.behind, h.numbered);
      has_turn = λ u v a. ground (arith, ticket, same, a, h.has_turn u v, h.numbered);
      attended = λ u c a b. ground (arith, ticket, same, c, a, b, h.attended u, h.numbered);
    }
Step-IsLine {l} (takes r t w e) h =
    let at = woken-turn l.manager t e in
    let mine = h.in_line r t w in
    record {
      behind = h.behind;
      numbered = h.numbered;
      in_line = λ u v x. ground (arith, x, h.in_line u v);
      has_turn = λ u v a. ground (arith, a, at, mine, h.has_turn u v);
      attended = λ u c a b. ground (arith, c, a, b, mine, h.attended u);
    }
Step-IsLine {l} (leaves r t w e) h =
    let shut = woken-away l.manager t e in
    record {
      behind = h.behind;
      numbered = h.numbered;
      in_line = λ u v x. ground (arith, x, h.in_line u v);
      has_turn = λ u v a. ground (arith, a, h.has_turn u v);
      attended = λ u c a b. ground (arith, c, shut);
    }
Step-IsLine {l} (ends r t a) h =
    let mine = h.has_turn r t a in
    record {
      behind = ground (arith, mine);
      numbered = h.numbered;
      in_line = λ u v x. ground (arith, x, a, mine, h.in_line u v);
      has_turn = λ u v b. ground (arith, b, a, mine, h.has_turn u v);
      attended = λ u c x y. ground (arith, c, x, y, a, mine, h.attended u);
    }
Step-IsLine closes h = record {
  behind = h.behind;
  numbered = h.numbered;
  in_line = h.in_line;
  has_turn = h.has_turn;
  attended = λ u c a b. absurd (ground (arith, c));
}

Steps-IsLine : {n : ℕ} {l : Line} → Steps (new_line n) l → IsLine l
Steps-IsLine {n} here = new_line-IsLine n
Steps-IsLine (next before step) = Step-IsLine step (Steps-IsLine before)

-- From a new line, after any interleaving of joins, wake-ups, ends and a close, at most one
-- request holds the turn, whichever tickets the requests were given.
pub one_turn :
    (n : ℕ) (l : Line) (r s t u : ℕ)
    → Steps (new_line n) l
    → l.status r ≡ active t
    → l.status s ≡ active u
    → r ≡ s
one_turn n l r s t u steps a b =
    let h = Steps-IsLine steps in (h.has_turn r t a).1 ∙ sym (h.has_turn s u b).1

-- From a new line, after any interleaving of joins, wake-ups, ends and a close: the request that
-- holds the turn joined before every request that waits.
pub turn_in_order :
    (n : ℕ) (l : Line) (r s t u : ℕ)
    → Steps (new_line n) l
    → l.status r ≡ active t
    → l.status s ≡ waiting u
    → r < s
turn_in_order n l r s t u steps a w =
    let h = Steps-IsLine steps in ground (arith, a, w, h.has_turn r t a, h.in_line s u w)

-- From a new line, after any interleaving of joins, wake-ups, ends and a close: while the line is
-- open and a request waits, the ticket to serve is with a request that holds the turn, or with one
-- that takes the turn when it wakes.
pub line_moves :
    (n : ℕ) (l : Line) (s u : ℕ)
    → Steps (new_line n) l
    → l.manager.closed ≡ false
    → l.status s ≡ waiting u
    → (r : ℕ) × ((l.status r ≡ active l.manager.served)
        ⊎ ((l.status r ≡ waiting l.manager.served)
            × (woken l.manager l.manager.served ≡ takes_turn)))
unfolding woken
line_moves n l s u steps not_closed w =
    let h = Steps-IsLine steps in
    let (same, a, b) = h.in_line s u w in
    (
      l.manager.served,
      ground (arith, h.attended l.manager.served not_closed (omega arith) (omega (arith, a, b))),
    )
