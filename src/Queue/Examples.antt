-- ===== src/Queue/Examples.antt =====
-- A line with one request that holds the turn and one that waits.
use tamarackdb.Prelude.{ℕ, ◌<◌, ◌≡◌, ◌⊎◌, refl}
use tamarackdb.Prelude.Exec.{ok}
use tamarackdb.Queue.{enter, woken, takes_turn}
use tamarackdb.Queue.Line.{
  active, waiting, set_status, Line, new_line, enters, takes, Steps, here, next, one_turn,
  turn_in_order, line_moves,
}

abbrev joined : Line
joined = record {
  manager = record (new_line 5).manager { next = 1 };
  joined = 1;
  status = set_status 0 (waiting 0) (new_line 5).status;
}

abbrev served : Line
served = record joined { status = set_status 0 (active 0) joined.status }

abbrev two : Line
two = record {
  manager = record (new_line 5).manager { next = 2 };
  joined = 2;
  status = set_status 1 (waiting 1) served.status;
}

first_enters : enter (new_line 5).manager ≡ (ok 0, joined.manager)
unfolding enter
first_enters = refl

first_wakes : woken joined.manager 0 ≡ takes_turn
unfolding woken
first_wakes = refl

second_enters : enter served.manager ≡ (ok 1, two.manager)
unfolding enter
second_enters = refl

to_two : Steps (new_line 5) two
to_two =
    next (next (next here (enters 0 joined.manager first_enters)) (takes 0 0 refl first_wakes))
      (enters 1 two.manager second_enters)

one_turn_example : ◌≡◌ {A = ℕ} 0 0
one_turn_example = one_turn 5 two 0 0 0 0 to_two refl refl

turn_in_order_example : 0 < 1
turn_in_order_example = turn_in_order 5 two 0 1 0 1 to_two refl refl

line_moves_example :
    (r : ℕ) × ((two.status r ≡ active two.manager.served)
      ⊎ ((two.status r ≡ waiting two.manager.served)
          × (woken two.manager two.manager.served ≡ takes_turn)))
line_moves_example = line_moves 5 two 1 1 to_two refl refl
