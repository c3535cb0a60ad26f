-- ===== src/Tests/Timers.antt =====
-- The wheel of connection timers at concrete inputs.
use ih_server.Base.{
  ℕ, pos, ◌+₃₂◌, ◌-₃₂◌, ◌+ℤ◌, ◌-ℤ◌, wrap32, rem, List, [], ◌∷◌, true, false, lookup, insert,
  contains, ◌≡◌, refl, arith,
}
use ih_server.ConnTimer.{
  ConnTimerWheel, ConnOp, insert_op, init, index_ahead, remove, list_of, add_timer, insert_timer,
  do_op, do_ops, visit, sweep, target, start_time, turn, tick, round,
}
use ih_server.ConnTimer.Tick.{Turning}
use ih_server.ConnTimer.Logout.{Round, run_rounds, init_rounds-Turning, logged_out_in_time}

-- A round at a time, with some operations; every player is known.
abbrev at_time : ℕ → List ConnOp → Round
at_time now ops = record { ops = ops; known = λ x. true; now = now }

abbrev first_rounds : List Round
first_rounds = at_time 100 [] ∷ at_time 101 (insert_op (pos 8) ∷ []) ∷ []

-- The wheel of a heartbeat interval of 2 seconds after these rounds.
abbrev begun : ConnTimerWheel
begun = (run_rounds 2 first_rounds (init 2)).0

init_rounds-Turning_example : Turning 2 begun
init_rounds-Turning_example =
    init_rounds-Turning 2 (omega arith) (omega arith) first_rounds (omega arith, (omega arith, tt))

begun_last : begun.last_check_time ≡ pos 101
unfolding run_rounds round do_ops do_op insert_timer add_timer list_of remove index_ahead tick turn
    start_time target sweep visit init rem lookup insert ◌+₃₂◌ ◌-₃₂◌ ◌+ℤ◌ ◌-ℤ◌ wrap32
begun_last = refl

logged_out_in_time_example :
    let (v, out) = run_rounds 2 (at_time 102 [] ∷ []) (insert_timer 2 (pos 5) begun) in
    (contains (pos 5) out ≡ false)
    × (contains (pos 5) (round 2 [] (λ x. true) (pos 103) v).1 ≡ true)
logged_out_in_time_example =
    logged_out_in_time 2 (omega arith) (omega arith) (pos 5) begun 101 (at_time 102 [] ∷ [])
      (at_time 103 []) init_rounds-Turning_example begun_last (omega arith) (omega arith)
      (tt, omega arith, omega arith, tt) tt (omega arith) (omega arith)
